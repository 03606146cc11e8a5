-- ===== src/Xdns/Direct.antt =====
-- xdns/client/direct.go: what is made of the response of a server. The exchange with the server, which is
-- that of a DNS library, and the protector are arguments. A time is in nanoseconds.
pub mod Answers
use common_lib_go.Prelude.{
  ℕ, ◌+◌, ◌*◌, ◌%◌, ◌^◌, Bool, true, false, not, Option, none, some, List, [], ◌∷◌, ◌==◌,
  if◌then◌else◌, min,
}
use common_lib_go.Xdns.{
  Addr, Response, Request, Error, not_exists, empty_response, Answer, failed, answered,
}

-- A record of an answer section: its type and time to live, and, if it is an A or AAAA record, what
-- `netip.AddrFromSlice` makes of its address.
pub record Record : Type 0 where
  pub rrtype : ℕ
  pub ttl : ℕ
  pub address : Option (Option Addr)

-- `dns.Msg`, as far as it is read.
pub record Message : Type 0 where
  pub opcode : ℕ
  pub rcode : ℕ
  pub answer : List Record

-- `dns.RcodeNameError`
abbrev pub rcode_name_error : ℕ
rcode_name_error = 3

-- `uint32(365 * 24 * 3600)`
abbrev pub infinite_ttl : ℕ
infinite_ttl = 365 * 24 * 3600

-- The addresses of a response, and the least time to live.
pub record Collected : Type 0 where
  pub addresses : List Addr
  pub ttl : ℕ

-- The loop over the records.
unfoldable pub collect : ℕ → List Record → ℕ → Collected
collect query_type [] ttl = record { addresses = []; ttl = ttl }
collect query_type (rr ∷ rrs) ttl =
    let skipped = collect query_type rrs ttl in
    let lowered = collect query_type rrs (min ttl rr.ttl) in
    if rr.rrtype == query_type
    then elim rr.address [
      | none ↦ skipped
      | some none ↦ lowered
      | some (some a) ↦ record { addresses = a ∷ lowered.addresses; ttl = lowered.ttl }
    ]
    else skipped

abbrev pub nanoseconds : ℕ
nanoseconds = 1_000_000_000

-- `once` after the exchange, which gives a message, an error, or both; `none` is a panic.
unfoldable pub read_message : Request → Bool → Option Message → Option Error → ℕ → Option Answer
unfolding collect
read_message q protected message error now =
    let refused : Bool = elim message [ none ↦ false | some m ↦ m.opcode == rcode_name_error ] in
    if refused then some (failed not_exists) else elim error [
      | some e ↦ some (failed e)
      | none ↦ elim message [
        | none ↦ none
        | some m ↦
            let c = collect q.query_type m.answer infinite_ttl in
            elim c.addresses [
              | [] ↦ some (failed empty_response)
              | a ∷ as' ↦ some (
                  answered (record {
                    found = true;
                    addresses = a ∷ as';
                    expires = some (now + c.ttl * nanoseconds);
                    protection_required = protected;
                  }))
            ]
      ]
    ]

-- `Lookup`: a request that is not protected comes first, unless the caller wants none. `once` says what
-- each of the two gives.
unfoldable pub lookup_direct : (Bool → Option Answer) → Request → Option Answer
lookup_direct once q = if q.no_lazy then once true else elim (once false) [
  | none ↦ none
  | some (answered v) ↦ some (answered v)
  | some (failed e) ↦ once true
]
