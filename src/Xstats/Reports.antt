-- ===== src/Xstats/Reports.antt =====
-- One report of a session over the cache: the value that is made, or the counters that grow.
use common_lib_go.Prelude.{
  ℕ, ◌+◌, ◌%◌, ◌^◌, ◌<◌, ◌≡◌, refl, sym, ap, subst, ◌∙◌, ◌&&◌, true, false, Bool-cases, inl, inr,
  Option, none, some, [], ◌++◌, ◌==◌, length, arith, ℕ_discrete, insert,
}
use common_lib_go.Xcache.{Bytes, Bucket, Items, ok, err, no_data, get_locked}
use common_lib_go.Xcache.Methods.{Mutation, Updated, update}
use common_lib_go.Xcache.Invariant.{Written, Valid}
use common_lib_go.Xcache.SetLocked.{Storable}
use common_lib_go.Xcache.Update.{update_lem}
use common_lib_go.Xcache.Outcomes.{fresh_run, edit_run, stored_value, left_alone}
use common_lib_go.Xcache.Cache.{Cache, with_bucket, bucket_of, get, update_key}
use common_lib_go.Xstats.{le_bytes, add_rx_tx}
use common_lib_go.Xstats.Codec.{counters, rx_tx-counters, parse_rx_tx-counters}
use common_lib_go.Xstats.RoundTrip.{layout, to_value-layout}
use common_lib_go.Xstats.Service.{SessionData, Codecs, new_session, report_mutator, report_stats}

add_rx_tx-layout :
    (rx tx drx dtx created : ℕ) (d : Bytes)
    → rx < 2 ^ 64
    → tx < 2 ^ 64
    → add_rx_tx drx dtx (layout rx tx created d)
      ≡ some (layout ((rx + drx) % 2 ^ 64) ((tx + dtx) % 2 ^ 64) created d)
unfolding add_rx_tx
add_rx_tx-layout rx tx drx dtx created d h k =
    let rest : Bytes = le_bytes 8 created ++ (le_bytes 2 (length d % 2 ^ 16) ++ d) in
    let read = parse_rx_tx-counters rx tx rest h k in
    elim (Bool-cases ((drx == 0) && (dtx == 0))) [
      | inl nothing ↦
          let same_rx : rx ≡ (rx + drx) % 2 ^ 64 = ground (arith, nothing, h) in
          let same_tx : tx ≡ (tx + dtx) % 2 ^ 64 = ground (arith, nothing, k) in
          ground (
            arith,
            nothing,
            ap (λ n. layout n tx created d) same_rx
                ∙ ap (λ n. layout ((rx + drx) % 2 ^ 64) n created d) same_tx,
          )
      | inr something ↦ ground (
        arith,
        something,
        rx_tx-counters ((rx + drx) % 2 ^ 64) ((tx + dtx) % 2 ^ 64) (counters rx tx rest)
            (omega arith),
        ap (λ (p : ℕ × ℕ). p.0) read,
        ap (λ (p : ℕ × ℕ). p.1) read,
      )
    ]

with_bucket_self : (c : Cache) (i : ℕ) (b : Bucket) → (with_bucket c i b).buckets i ≡ b
unfolding with_bucket
with_bucket_self c i b = ground arith

module _ (codecs : Codecs) (on_data : Bytes → SessionData) (id : Bytes) where
  abbrev pub data_of : Bytes
  data_of = codecs.marshal (on_data id)

  abbrev created_mutation : ℕ → ℕ → ℕ → Mutation ⊥
  created_mutation drx dtx now_nano = record {
    in_place = [];
    value = layout drx dtx now_nano data_of;
    update = true;
    error = none;
  }

  abbrev added_mutation : Bytes → Mutation ⊥
  added_mutation d = record { in_place = d; value = d; update = false; error = none }

  mutator_none :
      (drx dtx now_nano : ℕ)
      → report_mutator codecs on_data id drx dtx now_nano none
        ≡ some (created_mutation drx dtx now_nano)
  unfolding report_mutator new_session
  mutator_none drx dtx now_nano = ground (
    arith,
    to_value-layout codecs (record { session_id = codecs.uuid_text id; session_data = on_data id })
        drx dtx now_nano,
  )

  mutator-layout :
      (rx tx drx dtx created now_nano : ℕ) (d : Bytes)
      → rx < 2 ^ 64
      → tx < 2 ^ 64
      → report_mutator codecs on_data id drx dtx now_nano (some (layout rx tx created d))
        ≡ some (added_mutation (layout ((rx + drx) % 2 ^ 64) ((tx + dtx) % 2 ^ 64) created d))
  unfolding report_mutator
  mutator-layout rx tx drx dtx created now_nano d h k =
      ground (arith, add_rx_tx-layout rx tx drx dtx created d h k)

  module _ (sum64 : Bytes → ℕ) (blank : ℕ → ℕ) where
    -- The bucket of the session is well-formed, and the cache has this value for it.
    pub record Holding (c : Cache) (rx tx created : ℕ) : Type 0 where
      pub written : Written
      pub valid : Valid (c.buckets (bucket_of sum64 id)) written
      pub small_rx : rx < 2 ^ 64
      pub small_tx : tx < 2 ^ 64
      pub found : get sum64 c id ≡ ok (layout rx tx created data_of)

    report_stats_eq :
        (c : Cache) (drx dtx now_nano : ℕ) (r : Updated ⊥)
        → update blank
            (c.buckets (bucket_of sum64 id))
            id
            (sum64 id)
            (report_mutator codecs on_data id drx dtx now_nano)
            c.notify
          ≡ some r
        → report_stats codecs on_data id drx dtx now_nano sum64 blank c
          ≡ some (with_bucket c (bucket_of sum64 id) r.bucket, r.evicted)
    unfolding report_stats update_key
    report_stats_eq c drx dtx now_nano r e = ground (arith, e)

    holding :
        (c : Cache) (b : Bucket) (g : Written) (rx tx created : ℕ)
        → Valid b g
        → rx < 2 ^ 64
        → tx < 2 ^ 64
        → get_locked b id (sum64 id) ≡ ok (layout rx tx created data_of)
        → Holding (with_bucket c (bucket_of sum64 id) b) rx tx created
    unfolding get
    holding c b g rx tx created w h k found =
        let same = with_bucket_self c (bucket_of sum64 id) b in
        record {
          written = g;
          valid = subst (λ d. Valid d g) (sym same) w;
          small_rx = h;
          small_tx = k;
          found = ap (λ d. get_locked d id (sum64 id)) same ∙ found;
        }

    -- The first report of a session.
    pub report_first :
        (c : Cache) (g : Written) (drx dtx now_nano : ℕ)
        → Valid (c.buckets (bucket_of sum64 id)) g
        → get sum64 c id ≡ err no_data
        → Storable id (layout drx dtx now_nano data_of)
        → drx < 2 ^ 64
        → dtx < 2 ^ 64
        → (c' : Cache) × (evicted : Option Items) × (report_stats codecs on_data id drx dtx now_nano
              sum64 blank c
            ≡ some (c', evicted))
          × Holding c' drx dtx now_nano
    unfolding get
    report_first c g drx dtx now_nano w absent fits h1 h2 =
        let b = c.buckets (bucket_of sum64 id) in
        let runs = mutator_none drx dtx now_nano in
        let (r, e, u) =
          update_lem blank b g id (sum64 id) (report_mutator codecs on_data id drx dtx now_nano)
            c.notify w (λ _. (_, runs)) (λ x found. absurd (clash absent found)) in
        let f =
          fresh_run blank b g id (sum64 id) (report_mutator codecs on_data id drx dtx now_nano) r
            (created_mutation drx dtx now_nano) u absent runs in
        let (found, valid) =
          stored_value blank b g id (sum64 id) (created_mutation drx dtx now_nano) (some no_data) r
            f refl refl fits in
        (
          _,
          r.evicted,
          report_stats_eq c drx dtx now_nano r e,
          holding c r.bucket (insert ℕ_discrete (sum64 id) (id, layout drx dtx now_nano data_of) g)
              drx dtx now_nano valid h1 h2 found,
        )
      where
        clash : {x : Bytes} → get sum64 c id ≡ err no_data → get sum64 c id ≡ ok x → ⊥
        clash a e = cc

    -- A later report.
    pub report_next :
        (c : Cache) (rx tx created drx dtx now_nano : ℕ)
        → Holding c rx tx created
        → (c' : Cache) × (evicted : Option Items) × (report_stats codecs on_data id drx dtx now_nano
              sum64 blank c
            ≡ some (c', evicted))
          × Holding c' ((rx + drx) % 2 ^ 64) ((tx + dtx) % 2 ^ 64) created
    unfolding get
    report_next c rx tx created drx dtx now_nano h =
        let b = c.buckets (bucket_of sum64 id) in
        let new = layout ((rx + drx) % 2 ^ 64) ((tx + dtx) % 2 ^ 64) created data_of in
        let mutator = report_mutator codecs on_data id drx dtx now_nano in
        let runs : mutator (some (layout rx tx created data_of)) ≡ some (added_mutation new) =
          mutator-layout rx tx drx dtx created now_nano data_of h.small_rx h.small_tx in
        let (r, e, u) =
          update_lem blank b h.written id (sum64 id) mutator c.notify h.valid
            (λ absent. absurd (clash absent h.found))
            (λ x found. (
              added_mutation new,
              ap (λ y. mutator (some y)) (same_value found h.found) ∙ runs,
              ap length (sym (same_value found h.found)),
            )) in
        let (b', found, valid, f) =
          edit_run blank b h.written id (sum64 id) mutator r (layout rx tx created data_of)
            (added_mutation new) u h.found runs in
        let same =
          left_alone blank b' (insert ℕ_discrete (sum64 id) (id, new) h.written) id (sum64 id)
            (added_mutation new) none r f refl refl in
        (
          _,
          r.evicted,
          report_stats_eq c drx dtx now_nano r e,
          holding c r.bucket (insert ℕ_discrete (sum64 id) (id, new) h.written)
              ((rx + drx) % 2 ^ 64) ((tx + dtx) % 2 ^ 64) created
              (subst (λ d. Valid d (insert ℕ_discrete (sum64 id) (id, new) h.written)) (sym same)
                valid)
              (omega arith) (omega arith) (ap (λ d. get_locked d id (sum64 id)) same ∙ found),
        )
      where
        clash : {x : Bytes} → get sum64 c id ≡ err no_data → get sum64 c id ≡ ok x → ⊥
        clash a e = cc

        same_value : {x y : Bytes} → get sum64 c id ≡ ok x → get sum64 c id ≡ ok y → x ≡ y
        same_value e f = cc
