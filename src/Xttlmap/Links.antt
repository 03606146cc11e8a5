-- ===== src/Xttlmap/Links.antt =====
-- The list of the map, cut at one of its nodes.
use common_lib_go.Prelude.{
  ◌≡◌, refl, sym, Option, none, some, [], ◌∷◌, ◌++◌, arith, All, Distinct, Fresh, ℕ_discrete,
  delete, lookup, ap, if_pos, if_neg,
}
use common_lib_go.Xttlmap.{Ptr, Entry, Heap, TtlMap, link_next, link_prev}
use common_lib_go.Xttlmap.Dll.{Cells, first_or, last_or, Dll, Dll-update}

module _ {K V : Type 0} where
  -- The list of the map consists of the cells.
  pub record Linked (s : TtlMap K V) (cs : Cells K V) : Type 0 where
    pub linked : Dll s.nodes none cs none
    pub head : s.head ≡ first_or none cs
    pub tail : s.tail ≡ last_or none cs
    pub distinct : Distinct cs

  -- No pointer stands in both.
  abbrev pub Apart : Cells K V → Cells K V → Type 0
  Apart xs ys = All (λ c. Fresh c.0 ys) xs

  pub Fresh-append : (q : Ptr) (xs ys : Cells K V) → Fresh q (xs ++ ys) → Fresh q xs × Fresh q ys
  Fresh-append q [] ys f = (tt, f)
  Fresh-append q ((p, e) ∷ xs) ys f = let (a, b) = Fresh-append q xs ys f.1 in ((f.0, a), b)

  pub Distinct-append :
      (xs ys : Cells K V) → Distinct (xs ++ ys) → Distinct xs × Distinct ys × Apart xs ys
  Distinct-append [] ys d = (tt, d, tt)
  Distinct-append ((p, e) ∷ xs) ys d =
      let (a, b) = Fresh-append p xs ys d.0 in
      let (dx, dy, ap') = Distinct-append xs ys d.1 in ((a, dx), dy, (b, ap'))

  pub Apart-Fresh :
      (p : Ptr) (e : Entry K V) (xs ys : Cells K V)
      → Apart xs ((p, e) ∷ ys)
      → Fresh p xs × Apart xs ys
  Apart-Fresh p e [] ys a = (tt, tt)
  Apart-Fresh p e ((q, x) ∷ xs) ys a =
      let (f, b) = Apart-Fresh p e xs ys a.1 in ((λ x. a.0.0 (sym x), f), (a.0.1, b))

  -- A node of the list, with what stands before and after it.
  pub split_at :
      (p : Ptr) (e : Entry K V) (cs : Cells K V)
      → Distinct cs
      → lookup ℕ_discrete p cs ≡ some e
      → (xs : Cells K V) × (ys : Cells K V) × (cs ≡ xs ++ ((p, e) ∷ ys))
        × (delete ℕ_discrete p cs ≡ xs ++ ys)
  unfolding lookup delete
  split_at p e [] d h = absurd (cc)
  split_at p e ((q, x) ∷ cs) d h = elim (ℕ_discrete p q) [
    | yes same ↦ ([], cs, ground arith, rw (if_pos _ same))
    | no other ↦
        let (xs, ys, a, b) = split_at p e cs d.1 (ground arith) in
        ((q, x) ∷ xs, ys, ap (◌∷◌ (q, x)) a, rw (if_neg _ other) (ap (◌∷◌ (q, x)) b))
  ]

  pub last_or-append :
      (d : Option Ptr) (xs ys : Cells K V) → last_or d (xs ++ ys) ≡ last_or (last_or d xs) ys
  last_or-append d [] ys = refl
  last_or-append d ((p, e) ∷ xs) ys = last_or-append (some p) xs ys

  pub Dll-link_prev :
      (h : Heap K V) (xs ys : Cells K V) (next x : Option Ptr)
      → Apart xs ys
      → Dll h none xs next
      → Dll (link_prev h (first_or none ys) x) none xs next
  Dll-link_prev h xs [] next x a d = d
  Dll-link_prev h xs ((p, e) ∷ ys) next x a d =
      Dll-update h none xs next p _ (Apart-Fresh p e xs ys a).0 d

  pub Dll-link_next :
      (h : Heap K V) (prev : Option Ptr) (xs ys : Cells K V) (x : Option Ptr)
      → Apart xs ys
      → Dll h prev ys none
      → Dll (link_next h (last_or none xs) x) prev ys none
  Dll-link_next h prev [] ys x a d = d
  Dll-link_next h prev ((p, e) ∷ []) ys x a d = Dll-update h prev ys none p _ a.0 d
  Dll-link_next h prev ((p, e) ∷ c ∷ xs) ys x a d = Dll-link_next h prev (c ∷ xs) ys x a.1 d
