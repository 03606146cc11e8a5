-- ===== src/Xttlmap/Recent.antt =====
-- What `TTLMap` promises: a map of at most `m` keys in the order of their last use, the most recent first.
use native.Mathlib.Omega.{arith}
use common_lib_go.Prelude.{
  ℕ, ◌≡◌, ◌-◌, ltb, Bool, true, false, Option, none, some, List, [], ◌∷◌, if◌then◌else◌, lookup,
  delete, take,
}

-- A value with its deadline.
abbrev pub Recent : Type 0 → Type 0 → Type 0
Recent K V = List (K × (V × Option ℕ))

abbrev pub past : Option ℕ → ℕ → Bool
past none now = false
past (some d) now = ltb d now

module _ {K V : Type 0} where
  -- What has not expired.
  unfoldable pub recent_live : ℕ → Recent K V → Recent K V
  recent_live now [] = []
  recent_live now ((k, (v, d)) ∷ r) =
      let rest = recent_live now r in if past d now then rest else (k, (v, d)) ∷ rest

module _ {K V : Type 0} (dec : Discrete K) where
  -- A value whose deadline has passed is forgotten; any other is now the most recent.
  unfoldable pub recent_get : Recent K V → K → ℕ → Recent K V × Option V
  recent_get r k now = elim (lookup dec k r) [
    | none ↦ (r, none)
    | some (v, d) ↦
        if past d now then (delete dec k r, none) else ((k, (v, d)) ∷ delete dec k r, some v)
  ]

  -- The key is the most recent, and of the others the `m - 1` most recent stay.
  unfoldable pub recent_set : ℕ → Recent K V → K → V → Option ℕ → Recent K V
  recent_set m r k v d = (k, (v, d)) ∷ take (m - 1) (delete dec k r)

  pub recent_get_absent :
      (r : Recent K V) (k : K) (now : ℕ) → lookup dec k r ≡ none → recent_get r k now ≡ (r, none)
  unfolding recent_get
  recent_get_absent r k now h = ground (arith, h)

  pub recent_get_old :
      (r : Recent K V) (k : K) (now : ℕ) (v : V) (d : Option ℕ)
      → lookup dec k r ≡ some (v, d)
      → past d now ≡ true
      → recent_get r k now ≡ (delete dec k r, none)
  unfolding recent_get
  recent_get_old r k now v d h old = ground (arith, h, old)

  pub recent_get_live :
      (r : Recent K V) (k : K) (now : ℕ) (v : V) (d : Option ℕ)
      → lookup dec k r ≡ some (v, d)
      → past d now ≡ false
      → recent_get r k now ≡ ((k, (v, d)) ∷ delete dec k r, some v)
  unfolding recent_get
  recent_get_live r k now v d h live = ground (arith, h, live)
