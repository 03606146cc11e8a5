-- ===== src/Xttlmap/Index.antt =====
-- The map `items` beside the list: every key of the list leads to its node, and no other does.
use common_lib_go.Prelude.{
  suc, ◌<◌, ◌≡◌, ◌≢◌, refl, sym, subst, Option, none, some, [], ◌∷◌, arith, All, Distinct, Fresh,
  ℕ_discrete, delete, lookup, ite, if_pos, if_neg, lookup-Fresh,
}
use common_lib_go.Xttlmap.{Ptr, Entry}
use common_lib_go.Xttlmap.Dll.{Cells}

module _ {K V : Type 0} where
  -- No node has the key, and no key stands twice.
  abbrev pub KeyFresh : K → Cells K V → Type 0
  KeyFresh k cs = All (λ c. k ≢ c.1.key) cs

  abbrev pub KeysDistinct : Cells K V → Type 0
  KeysDistinct [] = Unit
  KeysDistinct (c ∷ cs) = KeyFresh c.1.key cs × KeysDistinct cs

  abbrev pub Below : Ptr → Cells K V → Type 0
  Below n cs = All (λ c. c.0 < n) cs

  pub Below-delete : (n p : Ptr) (cs : Cells K V) → Below n cs → Below n (delete ℕ_discrete p cs)
  unfolding delete
  Below-delete n p [] b = tt
  Below-delete n p (c ∷ cs) b = ground (arith, Below-delete n p cs b.1)

  pub Below-Fresh : (n : Ptr) (cs : Cells K V) → Below n cs → Fresh n cs
  Below-Fresh n [] b = tt
  Below-Fresh n (c ∷ cs) b = (omega arith, Below-Fresh n cs b.1)

  pub Below-suc : (n : Ptr) (cs : Cells K V) → Below n cs → Below (suc n) cs
  Below-suc n [] b = tt
  Below-suc n (c ∷ cs) b = (omega arith, Below-suc n cs b.1)

  pub Below-lookup :
      (n p : Ptr) (cs : Cells K V) (e : Entry K V)
      → Below n cs
      → lookup ℕ_discrete p cs ≡ some e
      → p < n
  unfolding lookup
  Below-lookup n p [] e b h = cc
  Below-lookup n p (c ∷ cs) e b h = ground (arith, Below-lookup n p cs e b.1)

  KeyFresh-delete :
      (k : K) (p : Ptr) (cs : Cells K V) → KeyFresh k cs → KeyFresh k (delete ℕ_discrete p cs)
  unfolding delete
  KeyFresh-delete k p [] f = tt
  KeyFresh-delete k p (c ∷ cs) f = ground (arith, KeyFresh-delete k p cs f.1)

  pub delete-KeysDistinct :
      (p : Ptr) (cs : Cells K V) → KeysDistinct cs → KeysDistinct (delete ℕ_discrete p cs)
  unfolding delete
  delete-KeysDistinct p [] d = tt
  delete-KeysDistinct p (c ∷ cs) d =
      ground (arith, KeyFresh-delete c.1.key p cs d.0, delete-KeysDistinct p cs d.1)

  pub lookup-KeyFresh :
      (k : K) (p : Ptr) (e : Entry K V) (cs : Cells K V)
      → KeyFresh k cs
      → lookup ℕ_discrete p cs ≡ some e
      → k ≢ e.key
  unfolding lookup
  lookup-KeyFresh k p e [] f h = absurd (cc)
  lookup-KeyFresh k p e ((q, x) ∷ cs) f h = ground (arith, lookup-KeyFresh k p e cs f.1)

  -- The node that is taken out was the only one with its key.
  pub delete-KeyFresh :
      (p : Ptr) (e : Entry K V) (cs : Cells K V)
      → KeysDistinct cs
      → lookup ℕ_discrete p cs ≡ some e
      → KeyFresh e.key (delete ℕ_discrete p cs)
  unfolding delete lookup
  delete-KeyFresh p e [] d h = tt
  delete-KeyFresh p e ((q, x) ∷ cs) d h = elim (ℕ_discrete p q) [
    | yes same ↦
        let here : x ≡ e = ground arith in
        rw (if_pos _ same) (subst (λ y. KeyFresh y.key cs) here d.0)
    | no other ↦
        let there : lookup ℕ_discrete p cs ≡ some e = ground arith in
        rw (if_neg _ other) (
          λ same. lookup-KeyFresh x.key p e cs d.0 there (sym same),
          delete-KeyFresh p e cs d.1 there,
        )
  ]

module _ {K V : Type 0} (dec : Discrete K) where
  -- The node of a key, as the list has it.
  unfoldable pub find : K → Cells K V → Option Ptr
  find k [] = none
  find k ((p, e) ∷ cs) = ite (dec k e.key) (some p) (find k cs)

  pub find-KeyFresh : (k : K) (cs : Cells K V) → KeyFresh k cs → find k cs ≡ none
  unfolding find
  find-KeyFresh k [] f = refl
  find-KeyFresh k (c ∷ cs) f = ground (arith, find-KeyFresh k cs f.1)

  pub KeyFresh-find : (k : K) (cs : Cells K V) → find k cs ≡ none → KeyFresh k cs
  unfolding find
  KeyFresh-find k [] f = tt
  KeyFresh-find k (c ∷ cs) f = ground (arith, KeyFresh-find k cs)

  pub lookup-find :
      (k : K) (p : Ptr) (cs : Cells K V)
      → Distinct cs
      → find k cs ≡ some p
      → (e : Entry K V) × (lookup ℕ_discrete p cs ≡ some e) × (e.key ≡ k)
  unfolding find lookup
  lookup-find k p [] d h = absurd (cc)
  lookup-find k p ((q, x) ∷ cs) d h = elim (dec k x.key) [
    | yes same ↦ (x, ground arith, sym same)
    | no other ↦
        let (e, a, b) = lookup-find k p cs d.1 (ground arith) in
        (e, ground (arith, a, lookup-Fresh ℕ_discrete q cs d.0), b)
  ]

  pub find-delete :
      (k : K) (p : Ptr) (e : Entry K V) (cs : Cells K V)
      → KeysDistinct cs
      → lookup ℕ_discrete p cs ≡ some e
      → find k (delete ℕ_discrete p cs) ≡ ite (dec k e.key) none (find k cs)
  unfolding find lookup delete
  find-delete k p e [] d h = absurd (cc)
  find-delete k p e ((q, x) ∷ cs) d h = elim (ℕ_discrete p q) [
    | yes same ↦
        let here : x ≡ e = ground arith in
        rw (if_pos _ same, ← here) (ground (arith, find-KeyFresh x.key cs d.0))
    | no other ↦
        let there : lookup ℕ_discrete p cs ≡ some e = ground arith in
        rw (if_neg _ other)
          (ground (arith, find-delete k p e cs d.1 there, lookup-KeyFresh x.key p e cs d.0 there))
  ]

  pub find-lookup :
      (p : Ptr) (e : Entry K V) (cs : Cells K V)
      → KeysDistinct cs
      → lookup ℕ_discrete p cs ≡ some e
      → find e.key cs ≡ some p
  unfolding find lookup
  find-lookup p e [] d h = absurd (cc)
  find-lookup p e ((q, x) ∷ cs) d h = elim (ℕ_discrete p q) [
    | yes same ↦ let here : x ≡ e = ground arith in rw (← here) (ground arith)
    | no other ↦
        let there : lookup ℕ_discrete p cs ≡ some e = ground arith in
        ground (arith, find-lookup p e cs d.1 there, lookup-KeyFresh x.key p e cs d.0 there)
  ]
