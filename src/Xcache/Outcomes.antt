-- ===== src/Xcache/Outcomes.antt =====
-- What a caller of `Update` knows afterwards, once it knows what its mutator does.
use common_lib_go.Prelude.{
  ℕ, ◌≡◌, sym, ap, subst, ◌∙◌, true, false, Option, none, some, arith, inl, inr, ℕ_discrete, insert,
}
use common_lib_go.Xcache.{Bytes, Bucket, ok, err, Error, no_data, get_locked}
use common_lib_go.Xcache.Methods.{Mutation, Updated}
use common_lib_go.Xcache.Invariant.{Written, Valid}
use common_lib_go.Xcache.SetLocked.{Storable}
use common_lib_go.Xcache.Placement.{some_inj}
use common_lib_go.Xcache.Update.{Finished, Updates}

ok_inj : {x y : Bytes} → ok x ≡ ok y → x ≡ y
ok_inj e = cc

module _ (blank : ℕ → ℕ) {E : Type 0} where
  pub fresh_run :
      (b : Bucket) (g : Written) (k : Bytes) (h : ℕ) (mutator : Option Bytes → Option (Mutation E))
      (r : Updated E) (m : Mutation E)
      → Updates blank b g k h mutator r
      → get_locked b k h ≡ err no_data
      → mutator none ≡ some m
      → Finished blank b g k h m (some no_data) r
  fresh_run b g k h mutator r m (inl (m', _, runs, f)) absent e =
      subst (λ n. Finished blank b g k h n (some no_data) r) (some_inj (sym runs ∙ e)) f
  fresh_run b g k h mutator r m (inr (x, m', found, _, _, _)) absent e = absurd (cc)

  pub edit_run :
      (b : Bucket) (g : Written) (k : Bytes) (h : ℕ) (mutator : Option Bytes → Option (Mutation E))
      (r : Updated E) (x : Bytes) (m : Mutation E)
      → Updates blank b g k h mutator r
      → get_locked b k h ≡ ok x
      → mutator (some x) ≡ some m
      → (b' : Bucket) × (get_locked b' k h ≡ ok m.in_place)
        × Valid b' (insert ℕ_discrete h (k, m.in_place) g)
        × Finished blank b' (insert ℕ_discrete h (k, m.in_place) g) k h m none r
  edit_run b g k h mutator r x m (inl (m', absent, _, _)) found e = absurd (cc)
  edit_run b g k h mutator r x m (inr (y, m', found', runs, _, rest)) found e =
      subst
        (λ (n : Mutation E).
          (b' : Bucket) × (get_locked b' k h ≡ ok n.in_place)
          × Valid b' (insert ℕ_discrete h (k, n.in_place) g)
          × Finished blank b' (insert ℕ_discrete h (k, n.in_place) g) k h n none r)
        (some_inj (sym runs ∙ ap (λ z. mutator (some z)) (ok_inj (sym found' ∙ found)) ∙ e)) rest

  pub stored_value :
      (b : Bucket) (g : Written) (k : Bytes) (h : ℕ) (m : Mutation E) (read : Option Error)
      (r : Updated E)
      → Finished blank b g k h m read r
      → m.error ≡ none
      → m.update ≡ true
      → Storable k m.value
      → (get_locked r.bucket k h ≡ ok m.value) × Valid r.bucket (insert ℕ_discrete h (k, m.value) g)
  stored_value b g k h m read r (inl (e, failed, _, _)) fine changed fits = absurd (cc)
  stored_value b g k h m read r (inr (inl (_, same, _, _))) fine changed fits =
      absurd (ground (arith, same, changed))
  stored_value b g k h m read r (inr (inr (inl (_, _, too_big, _, _)))) fine changed fits =
      absurd (too_big fits)
  stored_value b g k h m read r (inr (inr (inr (_, _, _, found, valid)))) fine changed fits =
      (found, valid)

  pub left_alone :
      (b : Bucket) (g : Written) (k : Bytes) (h : ℕ) (m : Mutation E) (read : Option Error)
      (r : Updated E)
      → Finished blank b g k h m read r
      → m.error ≡ none
      → m.update ≡ false
      → r.bucket ≡ b
  left_alone b g k h m read r (inl (e, failed, _, _)) fine same = absurd (cc)
  left_alone b g k h m read r (inr (inl (_, _, _, kept))) fine same = kept
  left_alone b g k h m read r (inr (inr (inl (_, changed, _, _, _)))) fine same =
      absurd (ground (arith, same, changed))
  left_alone b g k h m read r (inr (inr (inr (_, changed, _, _, _)))) fine same =
      absurd (ground (arith, same, changed))
