-- ===== src/Xcache/Cache/Steps.antt =====
-- One call on a cache: the buckets stay well-formed, and the view follows.
use common_lib_go.Prelude.{
  ℕ, ◌≡◌, refl, sym, ap, ◌∙◌, true, false, some, ◌==◌, if◌then◌else◌, arith, inl, inr, Bool-cases,
  Option, ℕ_discrete, lookup, insert, delete, lookup-insert, lookup-insert_self, lookup-delete,
  insert-Distinct, delete-Distinct, Distinct,
}
use common_lib_go.Xcache.{Bytes, Bucket, same_bytes}
use common_lib_go.Xcache.Store.{set_locked, Stored}
use common_lib_go.Xcache.Methods.{del}
use common_lib_go.Xcache.Memory.{same_bytes_refl, same_bytes_eq}
use common_lib_go.Xcache.Invariant.{Written, Valid}
use common_lib_go.Xcache.SetLocked.{Storable, set_locked_lem, set_locked_refused, storable?}
use common_lib_go.Xcache.Laws.{del-Valid}
use common_lib_go.Xcache.Cache.{Cache, with_bucket, new, bucket_of, delete_key, set_key}
use common_lib_go.Xcache.Placement.{some_inj}
use common_lib_go.Xcache.Cache.Calls.{Call, put, drop, View, is_storable, view_after, perform}

module _ (sum64 : Bytes → ℕ) (blank : ℕ → ℕ) where
  -- Each bucket is well-formed, and its pairs are in the view.
  pub record Coherent (c : Cache) (v : View) : Type 0 where
    pub written : ℕ → Written
    pub valid : (i : ℕ) → Valid (c.buckets i) (written i)
    pub distinct : (i : ℕ) → Distinct (written i)
    pub seen :
        (k x : Bytes)
        → lookup ℕ_discrete (sum64 k) (written (bucket_of sum64 k)) ≡ some (k, x)
        → v k ≡ some x

  abbrev updated : (ℕ → Written) → ℕ → Written → ℕ → Written
  updated g i w j = if j == i then w else g j

  updated-Valid :
      (c : Cache) (g : ℕ → Written) (i : ℕ) (b : Bucket) (w : Written)
      → ((j : ℕ) → Valid (c.buckets j) (g j))
      → Valid b w
      → (j : ℕ) → Valid ((with_bucket c i b).buckets j) (updated g i w j)
  unfolding with_bucket
  updated-Valid c g i b w valid new j = elim (Bool-cases (j == i)) [
    | inl same ↦ rw same new
    | inr other ↦ rw other (valid j)
  ]

  updated-Distinct :
      (g : ℕ → Written) (i : ℕ) (w : Written)
      → ((j : ℕ) → Distinct (g j))
      → Distinct w
      → (j : ℕ) → Distinct (updated g i w j)
  updated-Distinct g i w d new j = elim (Bool-cases (j == i)) [
    | inl same ↦ rw same new
    | inr other ↦ rw other (d j)
  ]

  -- The pairs of every key, after those of one bucket are replaced.
  updated_at :
      (g : ℕ → Written) (k : Bytes) (w : Written)
      → updated g (bucket_of sum64 k) w (bucket_of sum64 k) ≡ w
  updated_at g k w = ground arith

  accepts : (k x : Bytes) → Storable k x → is_storable k x ≡ true
  accepts k x f = ground (arith, f)

  refuses_pair : (k x : Bytes) → ¬ Storable k x → is_storable k x ≡ false
  refuses_pair k x n = elim (Bool-cases (is_storable k x)) [
    | inr e ↦ e
    | inl e ↦ absurd (n (ground (arith, e), ground (arith, e), ground (arith, e)))
  ]

  put_stored :
      (c : Cache) (k x : Bytes) (r : Stored)
      → set_locked blank (c.buckets (bucket_of sum64 k)) k x (sum64 k) c.notify ≡ some r
      → perform sum64 blank c (put k x) ≡ some (with_bucket c (bucket_of sum64 k) r.bucket)
  unfolding perform set_key
  put_stored c k x r e = ground (arith, e)

  perform-drop :
      (c : Cache) (k : Bytes)
      → perform sum64 blank c (drop k)
        ≡ some (with_bucket c (bucket_of sum64 k) (del (c.buckets (bucket_of sum64 k)) (sum64 k)))
  unfolding perform delete_key
  perform-drop c k = refl

  module _ (c : Cache) (v : View) (h : Coherent c v) where
    abbrev here : Bytes → Written
    here k = h.written (bucket_of sum64 k)

    here_eq : (j k : Bytes) → (bucket_of sum64 j == bucket_of sum64 k) ≡ true → here j ≡ here k
    here_eq j k e = ap h.written (ground (arith, e))

    -- A pair of another hash was there before.
    there_before :
        (k j y : Bytes) (w : Written)
        → lookup ℕ_discrete (sum64 j) w ≡ lookup ℕ_discrete (sum64 j) (here k)
        → lookup ℕ_discrete (sum64 j) (updated h.written (bucket_of sum64 k) w (bucket_of sum64 j))
          ≡ some (j, y)
        → lookup ℕ_discrete (sum64 j) (here j) ≡ some (j, y)
    there_before k j y w same l = elim (Bool-cases (bucket_of sum64 j == bucket_of sum64 k)) [
      | inr apart ↦ ground (arith, l, apart)
      | inl beside ↦
          ap (lookup ℕ_discrete (sum64 j)) (here_eq j k beside)
          ∙ sym same
          ∙ ground (arith, l, beside)
    ]

    seen_put :
        (k x j y : Bytes)
        → is_storable k x ≡ true
        → lookup ℕ_discrete (sum64 j) (
            updated h.written
              (bucket_of sum64 k)
              (insert ℕ_discrete (sum64 k) (k, x) (here k))
              (bucket_of sum64 j))
          ≡ some (j, y)
        → view_after v (put k x) j ≡ some y
    unfolding bucket_of
    seen_put k x j y fits l = elim (ℕ_discrete (sum64 j) (sum64 k)) [
      | yes same ↦
          let one : ◌≡◌ {A = Option (Bytes × Bytes)} (some (k, x)) (some (j, y)) =
            ground (arith, l, same, lookup-insert_self ℕ_discrete (sum64 k) (k, x) (here k)) in
          let key : k ≡ j = ap (λ (q : Bytes × Bytes). q.0) (some_inj one) in
          let value : x ≡ y = ap (λ (q : Bytes × Bytes). q.1) (some_inj one) in
          ground (arith, fits, value, ap (same_bytes k) key, same_bytes_refl k)
      | no other ↦
          let before =
            there_before k j y (insert ℕ_discrete (sum64 k) (k, x) (here k))
              (ground (arith, other, lookup-insert ℕ_discrete (sum64 j) (sum64 k) (k, x) (here k)))
              l in
          elim (Bool-cases (same_bytes k j)) [
            | inl same ↦ absurd (other (ap sum64 (sym (same_bytes_eq k j same))))
            | inr differ ↦ ground (arith, differ, h.seen j y before)
          ]
    ]

    seen_drop :
        (k j y : Bytes)
        → lookup ℕ_discrete (sum64 j) (
            updated h.written
              (bucket_of sum64 k)
              (delete ℕ_discrete (sum64 k) (here k))
              (bucket_of sum64 j))
          ≡ some (j, y)
        → view_after v (drop k) j ≡ some y
    unfolding bucket_of
    seen_drop k j y l =
        let gone =
          lookup-delete ℕ_discrete (sum64 j) (sum64 k) (here k) (h.distinct (bucket_of sum64 k)) in
        elim (ℕ_discrete (sum64 j) (sum64 k)) [
          | yes same ↦ absurd (ground (arith, l, gone, same))
          | no other ↦
              let before =
                there_before k j y (delete ℕ_discrete (sum64 k) (here k))
                  (ground (arith, other, gone)) l in
              elim (Bool-cases (same_bytes k j)) [
                | inl same ↦ absurd (other (ap sum64 (sym (same_bytes_eq k j same))))
                | inr differ ↦ ground (arith, differ, h.seen j y before)
              ]
        ]

    -- Every call succeeds, and the view follows.
    pub perform_lem :
        (call : Call)
        → (c' : Cache) × (perform sum64 blank c call ≡ some c') × Coherent c' (view_after v call)
    perform_lem (drop k) =
        let i = bucket_of sum64 k in
        let w = delete ℕ_discrete (sum64 k) (here k) in
        (
          _,
          perform-drop c k,
          record {
            written = updated h.written i w;
            valid =
                updated-Valid c h.written i (del (c.buckets i) (sum64 k)) w h.valid
                  (del-Valid (c.buckets i) (here k) (sum64 k) (h.distinct i) (h.valid i));
            distinct =
                updated-Distinct h.written i w h.distinct
                  (delete-Distinct ℕ_discrete (sum64 k) (here k) (h.distinct i));
            seen = seen_drop k;
          },
        )
    perform_lem (put k x) = elim (storable? k x) [
      | yes fits ↦ stored fits
      | no too_big ↦ refused' too_big
    ]
      where
        i : ℕ
        i = bucket_of sum64 k

        stored :
            Storable k x
            → (c' : Cache) × (perform sum64 blank c (put k x) ≡ some c')
              × Coherent c' (view_after v (put k x))
        stored fits =
            let w = insert ℕ_discrete (sum64 k) (k, x) (here k) in
            let (r, done, s) = set_locked_lem blank k x (sum64 k) c.notify (h.valid i) fits in
            (
              _,
              put_stored c k x r done,
              record {
                written = updated h.written i w;
                valid = updated-Valid c h.written i r.bucket w h.valid s.valid;
                distinct =
                    updated-Distinct h.written i w h.distinct
                      (insert-Distinct ℕ_discrete (sum64 k) (k, x) (here k) (h.distinct i));
                seen = λ j y l. seen_put k x j y (accepts k x fits) l;
              },
            )

        refused' :
            ¬ Storable k x
            → (c' : Cache) × (perform sum64 blank c (put k x) ≡ some c')
              × Coherent c' (view_after v (put k x))
        refused' too_big =
            let (e, refuses) =
              set_locked_refused blank (c.buckets i) k x (sum64 k) c.notify too_big in
            let nothing = refuses_pair k x too_big in
            (
              _,
              put_stored c k x _ refuses,
              record {
                written = updated h.written i (here k);
                valid = updated-Valid c h.written i (c.buckets i) (here k) h.valid (h.valid i);
                distinct = updated-Distinct h.written i (here k) h.distinct (h.distinct i);
                seen = λ j y l.
                    ground (arith, nothing, h.seen j y (there_before k j y (here k) refl l));
              },
            )
