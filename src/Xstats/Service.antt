-- ===== src/Xstats/Service.antt =====
-- xstats/service.go: a session is an entry of the cache of Xcache, with its counters, the time of its
-- first report and its data as JSON. The JSON library, the text of a UUID and the clock are arguments.
use common_lib_go.Prelude.{
  ℕ, ◌+◌, ◌-◌, ◌%◌, ◌^◌, true, false, Option, none, some, List, [], ◌∷◌, ◌++◌, ltb, if◌then◌else◌,
  length, take, drop, replicate,
}
use common_lib_go.Xcache.{Bytes, Items}
use common_lib_go.Xcache.Methods.{Mutation}
use common_lib_go.Xcache.Cache.{Cache, update_key, reset_all}
use common_lib_go.Xstats.{
  parse_uint64, set_uint64, parse_uint16, set_uint16, rx_tx, parse_rx_tx, add_rx_tx,
}

pub record SessionData : Type 0 where
  pub installation_id : Bytes
  pub user_id : Bytes
  pub country : Bytes

pub record Session : Type 0 where
  pub session_id : Bytes
  pub session_data : SessionData

pub record Report : Type 0 where
  pub session : Session
  pub created_nano : ℕ
  pub delta_rx : ℕ
  pub delta_tx : ℕ
  pub delta_t_nano : ℕ

-- `v[i : i+n]`
abbrev pub part : ℕ → ℕ → Bytes → Option Bytes
part i n v = if ltb (length v) (i + n) then none else some (take n (drop i v))

-- What the library uses of the JSON and UUID libraries: `json.Marshal` and `json.Unmarshal` of the
-- session data, and the text of the UUID that `uuid.FromBytes` gives.
pub record Codecs : Type 0 where
  pub marshal : SessionData → Bytes
  pub unmarshal : Bytes → SessionData
  pub uuid_text : Bytes → Bytes

module _ (codecs : Codecs) where
  -- `parse`; `none` is a panic.
  unfoldable pub parse : Bytes → Bytes → ℕ → Option Report
  unfolding parse_rx_tx parse_uint64 parse_uint16
  parse k v now_nano = elim (part 0 16 v) [
    | none ↦ none
    | some counters ↦ elim (part 16 8 v) [
      | none ↦ none
      | some created ↦ elim (part 24 2 v) [
        | none ↦ none
        | some data_len ↦ elim (part 26 (parse_uint16 data_len) v) [
          | none ↦ none
          | some data' ↦ some (record {
            session = record {
              session_id = codecs.uuid_text k;
              session_data = codecs.unmarshal data';
            };
            created_nano = parse_uint64 created;
            delta_rx = (parse_rx_tx counters).0;
            delta_tx = (parse_rx_tx counters).1;
            delta_t_nano = (now_nano + 2 ^ 64 - parse_uint64 created) % 2 ^ 64;
          })
        ]
      ]
    ]
  ]

  -- `toValue`
  unfoldable pub to_value : Session → ℕ → ℕ → ℕ → Option Bytes
  unfolding rx_tx set_uint64 set_uint16
  to_value s drx dtx now_nano =
      let data' = codecs.marshal s.session_data in
      elim (rx_tx drx dtx (replicate 16 0)) [
        | none ↦ none
        | some counters ↦ some (
            counters
            ++ (set_uint64 now_nano (replicate 8 0)
                ++ (set_uint16 (length data' % 2 ^ 16) (replicate 2 0) ++ data')))
      ]

  -- The mutator of `ReportStats`.
  module _ (on_data : Bytes → SessionData) (id : Bytes) (drx dtx now_nano : ℕ) where
    unfoldable pub new_session : Bytes → Option (Mutation ⊥)
    unfolding to_value
    new_session given =
        elim (to_value (record { session_id = codecs.uuid_text id; session_data = on_data id }) drx
          dtx now_nano) [
            | none ↦ none
            | some v ↦ some (record { in_place = given; value = v; update = true; error = none })
          ]

    unfoldable pub report_mutator : Option Bytes → Option (Mutation ⊥)
    unfolding new_session add_rx_tx
    report_mutator none = new_session []
    report_mutator (some []) = new_session []
    report_mutator (some (b ∷ bs)) = elim (add_rx_tx drx dtx (b ∷ bs)) [
      | none ↦ none
      | some d ↦ some (record { in_place = d; value = d; update = false; error = none })
    ]

    -- `ReportStats`, which ignores the error of the update.
    unfoldable pub report_stats :
        (sum64 : Bytes → ℕ) (blank : ℕ → ℕ) → Cache → Option (Cache × Option Items)
    unfolding report_mutator update_key
    report_stats sum64 blank c = elim (update_key sum64 blank c id report_mutator) [
      | none ↦ none
      | some (c', _, evicted) ↦ some (c', evicted)
    ]

  -- `onEvict`: the reports, in the order of the items; `none` is a panic.
  abbrev pub parse_all : List Bytes → List Bytes → ℕ → Option (List Report)
  parse_all _ [] now_nano = some []
  parse_all [] (v ∷ vs) now_nano = none
  parse_all (k ∷ ks) (v ∷ vs) now_nano =
      let rest = parse_all ks vs now_nano in
      elim (parse k v now_nano) [
        | none ↦ none
        | some r ↦ elim rest [ none ↦ none | some rs ↦ some (r ∷ rs) ]
      ]

  unfoldable pub on_evict : Items → ℕ → Option (List Report)
  on_evict evicted now_nano = parse_all evicted.keys evicted.values now_nano

  -- One tick of `run`, with the call of `onEvict` that a reset makes.
  unfoldable pub tick : Cache → ℕ → Option (Cache × List Report)
  unfolding reset_all on_evict
  tick c now_nano = elim (reset_all c) [
    | none ↦ none
    | some (c', none) ↦ some (c', [])
    | some (c', some i) ↦ elim (on_evict i now_nano) [ none ↦ none | some rs ↦ some (c', rs) ]
  ]
