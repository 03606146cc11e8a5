-- ===== src/Xdns/Direct/Answers.antt =====
-- The addresses and the expiry that are read from a message.
use common_lib_go.Prelude.{
  ℕ, ◌+◌, ◌*◌, ◌≤◌, ◌≡◌, ◌≢◌, refl, sym, ap, subst, ◌∙◌, Bool, true, false, Bool-cases, ◌⊎◌, inl,
  inr, Option, none, some, List, [], ◌∷◌, ◌==◌, if◌then◌else◌, min, arith, All,
}
use common_lib_go.Xdns.{Addr, Response, Request, empty_response, failed, answered}
use common_lib_go.Xdns.Direct.{
  Record, Message, rcode_name_error, infinite_ttl, Collected, collect, nanoseconds, read_message,
}

-- The addresses of the records that have the type and an address, in order.
abbrev pub addresses_of : ℕ → List Record → List Addr
addresses_of query_type [] = []
addresses_of query_type (rr ∷ rrs) =
    let rest = addresses_of query_type rrs in
    elim rr.address [
      | some (some a) ↦ if rr.rrtype == query_type then a ∷ rest else rest
      | _ ↦ rest
    ]

-- A record whose address is among the addresses lives at least so long.
abbrev pub LivesLong : ℕ → ℕ → Record → Type 0
LivesLong query_type ttl rr =
    rr.rrtype ≡ query_type → (a : Addr) → rr.address ≡ some (some a) → ttl ≤ rr.ttl

address_cases :
    (x : Option (Option Addr)) → (x ≡ none) ⊎ (x ≡ some none) ⊎ ((a : Addr) × (x ≡ some (some a)))
address_cases none = inl refl
address_cases (some none) = inr (inl refl)
address_cases (some (some a)) = inr (inr (a, refl))

-- What the loop collects from the records.
abbrev pub Collects : ℕ → List Record → ℕ → Collected → Type 0
Collects t rrs ttl c =
    (c.addresses ≡ addresses_of t rrs) × (c.ttl ≤ ttl) × All (LivesLong t c.ttl) rrs

module _ (t : ℕ) (rr : Record) (rrs : List Record) (ttl : ℕ) where
  skip_other :
      (rr.rrtype == t) ≡ false
      → (collect t (rr ∷ rrs) ttl ≡ collect t rrs ttl)
        × (addresses_of t (rr ∷ rrs) ≡ addresses_of t rrs)
  unfolding collect
  skip_other other = elim (address_cases rr.address) [
    | inl nothing ↦ (ground (arith, other), ground (arith, nothing))
    | inr (inl bad) ↦ (ground (arith, other), ground (arith, bad))
    | inr (inr (x, good)) ↦ (ground (arith, other), ground (arith, good, other))
  ]

  skip_none :
      (rr.rrtype == t) ≡ true
      → rr.address ≡ none
      → (collect t (rr ∷ rrs) ttl ≡ collect t rrs ttl)
        × (addresses_of t (rr ∷ rrs) ≡ addresses_of t rrs)
  unfolding collect
  skip_none same nothing = (ground (arith, same, nothing), ground (arith, nothing))

  skip_bad :
      (rr.rrtype == t) ≡ true
      → rr.address ≡ some none
      → (collect t (rr ∷ rrs) ttl ≡ collect t rrs (min ttl rr.ttl))
        × (addresses_of t (rr ∷ rrs) ≡ addresses_of t rrs)
  unfolding collect
  skip_bad same bad = (ground (arith, same, bad), ground (arith, bad))

  take_good :
      (x : Addr)
      → (rr.rrtype == t) ≡ true
      → rr.address ≡ some (some x)
      → (collect t (rr ∷ rrs) ttl ≡ record {
        addresses = x ∷ (collect t rrs (min ttl rr.ttl)).addresses;
        ttl = (collect t rrs (min ttl rr.ttl)).ttl;
      })
        × (addresses_of t (rr ∷ rrs) ≡ x ∷ addresses_of t rrs)
  unfolding collect
  take_good x same good = (ground (arith, same, good), ground (arith, same, good))

  -- A record that is left out changes nothing.
  skipped :
      (ttl' : ℕ)
      → ttl' ≤ ttl
      → ((a : Addr) → rr.rrtype ≡ t → rr.address ≡ some (some a) → ⊥)
      → (collect t (rr ∷ rrs) ttl ≡ collect t rrs ttl')
        × (addresses_of t (rr ∷ rrs) ≡ addresses_of t rrs)
      → Collects t rrs ttl' (collect t rrs ttl')
      → Collects t (rr ∷ rrs) ttl (collect t (rr ∷ rrs) ttl)
  skipped ttl' le out (e, f) (a, b, c) =
      subst (Collects t (rr ∷ rrs) ttl) (sym e)
        (a ∙ sym f, omega (arith, b, le), ((λ same x at. absurd (out x same at)), c))

-- The loop collects the addresses of the records of the type, in order, and a time to live that is at most
-- that of each of these records.
pub collect_lem : (t : ℕ) (rrs : List Record) (ttl : ℕ) → Collects t rrs ttl (collect t rrs ttl)
unfolding collect
collect_lem t [] ttl = (refl, omega arith, tt)
collect_lem t (rr ∷ rrs) ttl =
    let c = collect_lem t rrs ttl in
    let lowered = collect_lem t rrs (min ttl rr.ttl) in
    elim (Bool-cases (rr.rrtype == t)) [
      | inr other ↦
          skipped t rr rrs ttl ttl (omega arith) (λ x same at. ground (arith, same, other))
            (skip_other t rr rrs ttl other) c
      | inl same ↦ elim (address_cases rr.address) [
        | inl nothing ↦
            skipped t rr rrs ttl ttl (omega arith) (λ x _ at. clash_none nothing at)
              (skip_none t rr rrs ttl same nothing) c
        | inr (inl bad) ↦
            skipped t rr rrs ttl (min ttl rr.ttl) (omega arith) (λ x _ at. clash_bad bad at)
              (skip_bad t rr rrs ttl same bad) lowered
        | inr (inr (x, good)) ↦
            let (e, f) = take_good t rr rrs ttl x same good in
            let (a, b, l) = lowered in
            subst (Collects t (rr ∷ rrs) ttl) (sym e) (
              ap (λ (as' : List Addr). x ∷ as') a ∙ sym f,
              omega (arith, b),
              ((λ _ y at. omega (arith, b)), l),
            )
      ]
    ]
  where
    clash_none : {y : Addr} → rr.address ≡ none → rr.address ≡ some (some y) → ⊥
    clash_none a b = cc

    clash_bad : {y : Addr} → rr.address ≡ some none → rr.address ≡ some (some y) → ⊥
    clash_bad a b = cc

no_addresses :
    (q : Request) (protected : Bool) (m : Message) (now : ℕ)
    → m.opcode ≢ rcode_name_error
    → (collect q.query_type m.answer infinite_ttl).addresses ≡ []
    → read_message q protected (some m) none now ≡ some (failed empty_response)
unfolding read_message
no_addresses q protected m now plain nothing = ground (arith, plain, nothing)

some_addresses :
    (q : Request) (protected : Bool) (m : Message) (now : ℕ) (a : Addr) (as' : List Addr)
    → m.opcode ≢ rcode_name_error
    → (collect q.query_type m.answer infinite_ttl).addresses ≡ a ∷ as'
    → read_message q protected (some m) none now
      ≡ some (
          answered (record {
            found = true;
            addresses = a ∷ as';
            expires = some (now + (collect q.query_type m.answer infinite_ttl).ttl * nanoseconds);
            protection_required = protected;
          }))
unfolding read_message
some_addresses q protected m now a as' plain e = ground (arith, plain, e)

list_cases : {A : Type 0} (xs : List A) → (xs ≡ []) ⊎ ((a : A) × (as' : List A) × (xs ≡ a ∷ as'))
list_cases [] = inl refl
list_cases (a ∷ as') = inr (a, as', refl)

-- A message that came without an error, and whose operation code is not 3, is never taken for a name that
-- does not exist, whatever its response code is. If it has no address of the type, the answer is the
-- error of an empty response. Else the answer has the addresses of the records of the type, in order, and
-- expires no later than any of these records, counted from now.
pub read_message_lem :
    (q : Request) (protected : Bool) (m : Message) (now : ℕ)
    → m.opcode ≢ rcode_name_error
    → ((addresses_of q.query_type m.answer ≡ [])
        × (read_message q protected (some m) none now ≡ some (failed empty_response)))
      ⊎ ((v : Response) × (ttl : ℕ) × (read_message q protected (some m) none now
            ≡ some (answered v))
          × (v.addresses ≡ addresses_of q.query_type m.answer)
          × (v.expires ≡ some (now + ttl * nanoseconds))
          × All (LivesLong q.query_type ttl) m.answer)
read_message_lem q protected m now plain =
    let (a, b, c) = collect_lem q.query_type m.answer infinite_ttl in
    elim (list_cases (collect q.query_type m.answer infinite_ttl).addresses) [
      | inl nothing ↦ inl (sym a ∙ nothing, no_addresses q protected m now plain nothing)
      | inr (x, xs, e) ↦ inr (
        _,
        (collect q.query_type m.answer infinite_ttl).ttl,
        some_addresses q protected m now x xs plain e,
        sym e ∙ a,
        refl,
        c,
      )
    ]
