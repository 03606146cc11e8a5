-- ===== src/Xttlmap/Live.antt =====
-- A sweep over enough keys leaves just what has not expired, in its order.
use common_lib_go.Prelude.{
  ℕ, ◌≡◌, ◌≢◌, refl, sym, ◌∙◌, ap, inl, inr, ◌⊎◌, true, false, Bool-cases, Option-cases, Option,
  none, some, List, [], ◌∷◌, arith, Distinct, delete, lookup, if◌then◌else◌, lookup-delete,
  delete-Distinct, lookup-Fresh,
}
use common_lib_go.Xttlmap.Recent.{Recent, past, recent_live}

-- A key of the list.
abbrev pub In : {K : Type 0} → K → List K → Type 0
In k [] = ⊥
In k (j ∷ ks) = (k ≡ j) ⊎ In k ks

later_key : {K : Type 0} (j k : K) (ks : List K) → j ≢ k → In j (k ∷ ks) → In j ks
later_key j k ks ne (inl same) = absurd (ne same)
later_key j k ks ne (inr later) = later

module _ {K V : Type 0} (dec : Discrete K) (now : ℕ) where
  -- What `sweep` does with one key.
  abbrev pub drop_past : Recent K V → K → Recent K V
  drop_past r k = elim (lookup dec k r) [
    | none ↦ r
    | some (v, d) ↦ if past d now then delete dec k r else r
  ]

  unfoldable pub drop_all : Recent K V → List K → Recent K V
  drop_all r [] = r
  drop_all r (k ∷ ks) = drop_all (drop_past r k) ks

  live-delete :
      (k : K) (v : V) (d : Option ℕ) (r : Recent K V)
      → lookup dec k r ≡ some (v, d)
      → past d now ≡ true
      → recent_live now (delete dec k r) ≡ recent_live now r
  unfolding recent_live lookup delete
  live-delete k v d [] h old = refl
  live-delete k v d ((j, (w, e)) ∷ r) h old = ground (arith, live-delete k v d r)

  live-drop_past : (k : K) (r : Recent K V) → recent_live now (drop_past r k) ≡ recent_live now r
  live-drop_past k r = elim (Option-cases (lookup dec k r)) [
    | inl missing ↦ ground (arith, missing)
    | inr ((v, d), h) ↦ ground (arith, h, live-delete k v d r h)
  ]

  live_all :
      (r : Recent K V)
      → Distinct r
      → ((k : K) (v : V) (d : Option ℕ) → lookup dec k r ≡ some (v, d) → past d now ≡ false)
      → recent_live now r ≡ r
  unfolding recent_live lookup
  live_all [] u h = refl
  live_all ((k, (v, d)) ∷ r) u h =
      let here : past d now ≡ false = h k v d (ground arith) in
      rw here (
        ap (◌∷◌ (k, (v, d)))
          (live_all r u.1 (λ j w e a. h j w e (ground (arith, a, lookup-Fresh dec k r u.0)))))

  -- Every key whose deadline has passed is in the list.
  abbrev pub Listed : List K → Recent K V → Type 0
  Listed ks r =
      (k : K) (v : V) (d : Option ℕ) → lookup dec k r ≡ some (v, d) → past d now ≡ true → In k ks

  drop_past-Distinct : (k : K) (r : Recent K V) → Distinct r → Distinct (drop_past r k)
  drop_past-Distinct k r u = ground (arith, delete-Distinct dec k r u)

  kept :
      (j k : K) (x : V × Option ℕ) (r : Recent K V)
      → Distinct r
      → lookup dec j (delete dec k r) ≡ some x
      → (j ≢ k) × (lookup dec j r ≡ some x)
  kept j k x r u h = ground (arith, h, lookup-delete dec j k r u)

  Listed-drop_past :
      (k : K) (ks : List K) (r : Recent K V)
      → Distinct r
      → Listed (k ∷ ks) r
      → Listed ks (drop_past r k)
  Listed-drop_past k ks r u h j w e a old = elim (Option-cases (lookup dec k r)) [
    | inl missing ↦
        let still : lookup dec j r ≡ some (w, e) = ground (arith, missing, a) in
        later_key j k ks (λ same. ground (arith, still, missing, ap (λ i. lookup dec i r) same))
          (h j w e still old)
    | inr ((v, d), there) ↦ elim (Bool-cases (past d now)) [
      | inl due ↦
          let gone : lookup dec j (delete dec k r) ≡ some (w, e) = ground (arith, there, due, a) in
          let (ne, still) = kept j k (w, e) r u gone in later_key j k ks ne (h j w e still old)
      | inr live ↦
          let still : lookup dec j r ≡ some (w, e) = ground (arith, there, live, a) in
          later_key j k ks
            (λ same. ground (arith, still, there, live, old, ap (λ i. lookup dec i r) same))
            (h j w e still old)
    ]
  ]

  pub drop_all_live :
      (ks : List K) (r : Recent K V) → Distinct r → Listed ks r → drop_all r ks ≡ recent_live now r
  unfolding drop_all
  drop_all_live [] r u h = sym (
      live_all r u (λ k v d a. elim (Bool-cases (past d now)) [
        | inl old ↦ absurd (h k v d a old)
        | inr live ↦ live
      ]))
  drop_all_live (k ∷ ks) r u h =
      drop_all_live ks (drop_past r k) (drop_past-Distinct k r u) (Listed-drop_past k ks r u h)
      ∙ live-drop_past k r
