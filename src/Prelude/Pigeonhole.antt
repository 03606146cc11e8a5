-- ===== src/Prelude/Pigeonhole.antt =====
-- Maps over a range of numbers: one that holds them all has at least as many entries as the range,
-- and one that holds no other has at most as many.
use common_lib_go.Prelude.{
  ℕ, zero, suc, ◌+◌, ◌≤◌, ◌<◌, ◌≡◌, List, some, none, arith, Distinct, lookup, delete, ℕ_discrete,
  length, lookup-delete, length-delete, delete-Distinct, All, Option-cases, inl, inr, [], ◌∷◌,
}

module _ {V : Type 0} where
  -- Every number from `lo` on, `k` of them, is a key.
  abbrev pub Covers : ℕ → ℕ → List (ℕ × V) → Type 0
  Covers lo k m = (n : ℕ) → lo ≤ n → n < lo + k → (v : V) × (lookup ℕ_discrete n m ≡ some v)

  -- Taking the last one out leaves the others.
  Covers-delete :
      (lo k : ℕ) (m : List (ℕ × V))
      → Distinct m
      → Covers lo (suc k) m
      → Covers lo k (delete ℕ_discrete (lo + k) m)
  Covers-delete lo k m d c n h l =
      let (v, e) = c n h (omega arith) in (v, rw (lookup-delete, d) (ground (arith, e)))

  pub length-Covers : (lo k : ℕ) (m : List (ℕ × V)) → Distinct m → Covers lo k m → k ≤ length m
  length-Covers lo zero m d c = omega arith
  length-Covers lo (suc k) m d c =
      let (v, e) = c (lo + k) (omega arith) (omega arith) in
      let ih =
        length-Covers lo k (delete ℕ_discrete (lo + k) m) (delete-Distinct ℕ_discrete (lo + k) m d)
          (Covers-delete lo k m d c) in
      omega (arith, ih, length-delete ℕ_discrete (lo + k) v m e)

  abbrev pub Under : ℕ → ℕ → List (ℕ × V) → Type 0
  Under lo k m = All (λ e. (lo ≤ e.0) × (e.0 < lo + k)) m

  Under-delete : (lo k n : ℕ) (m : List (ℕ × V)) → Under lo k m → Under lo k (delete ℕ_discrete n m)
  unfolding delete
  Under-delete lo k n [] u = tt
  Under-delete lo k n ((j, w) ∷ m) u = ground (arith, Under-delete lo k n m u.1)

  -- Without its last number the range is shorter.
  Under-narrow :
      (lo k : ℕ) (m : List (ℕ × V))
      → lookup ℕ_discrete (lo + k) m ≡ none
      → Under lo (suc k) m
      → Under lo k m
  unfolding lookup
  Under-narrow lo k [] e u = tt
  Under-narrow lo k ((j, w) ∷ m) e u = ground (arith, Under-narrow lo k m)

  pub length-Under : (lo k : ℕ) (m : List (ℕ × V)) → Distinct m → Under lo k m → length m ≤ k
  length-Under lo zero [] d u = omega arith
  length-Under lo zero (e ∷ m) d u = absurd (omega arith)
  length-Under lo (suc k) m d u = elim (Option-cases (lookup ℕ_discrete (lo + k) m)) [
    | inl e ↦ omega (arith, length-Under lo k m d (Under-narrow lo k m e u))
    | inr (w, e) ↦
        let m' = delete ℕ_discrete (lo + k) m in
        let gone : lookup ℕ_discrete (lo + k) m' ≡ none =
          ground (arith, lookup-delete ℕ_discrete (lo + k) (lo + k) m d) in
        let ih =
          length-Under lo k m' (delete-Distinct ℕ_discrete (lo + k) m d)
            (Under-narrow lo k m' gone (Under-delete lo (suc k) (lo + k) m u)) in
        omega (arith, ih, length-delete ℕ_discrete (lo + k) w m e)
  ]
