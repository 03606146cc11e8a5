-- ===== src/Xttlmap/View.antt =====
-- The list of nodes, seen as the values in the order of their last use.
use common_lib_go.Prelude.{
  ℕ, zero, suc, ◌≤◌, ◌≡◌, refl, sym, ◌∙◌, ap, subst, inl, inr, ◌⊎◌, Option-cases, none, some, [],
  ◌∷◌, arith, Distinct, Fresh, ℕ_discrete, delete, lookup, length, if_pos, if_neg, take,
}
use common_lib_go.Xttlmap.{Ptr, Entry, Node, TtlMap}
use common_lib_go.Xttlmap.Dll.{Cells}
use common_lib_go.Xttlmap.Moves.{remove_node-Removes}
use common_lib_go.Xttlmap.Index.{KeyFresh, KeysDistinct, find, lookup-KeyFresh, lookup-find}
use common_lib_go.Xttlmap.Valid.{Valid}
use common_lib_go.Xttlmap.Recent.{Recent}

module _ {K V : Type 0} where
  abbrev pub view : Cells K V → Recent K V
  view [] = []
  view ((p, e) ∷ cs) = (e.key, (e.value, e.deadline)) ∷ view cs

  pub length-view : (cs : Cells K V) → length (view cs) ≡ length cs
  length-view [] = refl
  length-view (c ∷ cs) = ap suc (length-view cs)

  pub view-take : (m : ℕ) (cs : Cells K V) → view (take m cs) ≡ take m (view cs)
  view-take zero cs = refl
  view-take (suc m) [] = refl
  view-take (suc m) ((p, e) ∷ cs) = ap (◌∷◌ (e.key, (e.value, e.deadline))) (view-take m cs)

  pub take_all : (m : ℕ) (r : Recent K V) → length r ≤ m → take m r ≡ r
  take_all zero [] h = refl
  take_all (suc m) [] h = refl
  take_all zero (c ∷ cs) h = absurd (omega arith)
  take_all (suc m) (c ∷ cs) h = ap (◌∷◌ c) (take_all m cs (omega arith))

  pub length-take : (m : ℕ) (r : Recent K V) → length (take m r) ≤ m
  length-take zero r = omega arith
  length-take (suc m) [] = omega arith
  length-take (suc m) (c ∷ r) = omega (arith, length-take m r)

  view-Fresh : (k : K) (cs : Cells K V) → KeyFresh k cs → Fresh k (view cs)
  view-Fresh k [] f = tt
  view-Fresh k (c ∷ cs) f = (f.0, view-Fresh k cs f.1)

  pub view-Distinct : (cs : Cells K V) → KeysDistinct cs → Distinct (view cs)
  view-Distinct [] d = tt
  view-Distinct ((p, e) ∷ cs) d = (view-Fresh e.key cs d.0, view-Distinct cs d.1)

module _ {K V : Type 0} (dec : Discrete K) where
  delete_fresh : (k : K) (cs : Cells K V) → KeyFresh k cs → delete dec k (view cs) ≡ view cs
  unfolding delete
  delete_fresh k [] f = refl
  delete_fresh k ((p, e) ∷ cs) f = ground (arith, delete_fresh k cs f.1)

  pub view-delete :
      (p : Ptr) (e : Entry K V) (cs : Cells K V)
      → KeysDistinct cs
      → lookup ℕ_discrete p cs ≡ some e
      → view (delete ℕ_discrete p cs) ≡ delete dec e.key (view cs)
  unfolding delete lookup
  view-delete p e [] d h = absurd (cc)
  view-delete p e ((q, x) ∷ cs) d h = elim (ℕ_discrete p q) [
    | yes same ↦ let here : x ≡ e = ground arith in rw (if_pos _ same, ← here) (ground (arith))
    | no other ↦
        let there : lookup ℕ_discrete p cs ≡ some e = ground arith in
        rw (if_neg _ other) (
          rw (if_neg (dec e.key x.key) (λ same. lookup-KeyFresh x.key p e cs d.0 there (sym same)))
            (ap (◌∷◌ (x.key, (x.value, x.deadline))) (view-delete p e cs d.1 there)))
  ]

  lookup-view :
      (p : Ptr) (e : Entry K V) (cs : Cells K V)
      → KeysDistinct cs
      → lookup ℕ_discrete p cs ≡ some e
      → lookup dec e.key (view cs) ≡ some (e.value, e.deadline)
  unfolding lookup
  lookup-view p e [] d h = absurd (cc)
  lookup-view p e ((q, x) ∷ cs) d h = elim (ℕ_discrete p q) [
    | yes same ↦ let here : x ≡ e = ground arith in rw (← here) (ground arith)
    | no other ↦
        let there : lookup ℕ_discrete p cs ≡ some e = ground arith in
        ground (arith, lookup-view p e cs d.1 there, lookup-KeyFresh x.key p e cs d.0 there)
  ]

  lookup-view_absent :
      (k : K) (cs : Cells K V) → find dec k cs ≡ none → lookup dec k (view cs) ≡ none
  unfolding lookup find
  lookup-view_absent k [] h = refl
  lookup-view_absent k (c ∷ cs) h = ground (arith, lookup-view_absent k cs)

  -- A key of the map, with its node.
  pub record Found (s : TtlMap K V) (cs : Cells K V) (k : K) (p : Ptr) (n : Node K V) : Type 0 where
    pub item : lookup dec k s.items ≡ some p
    pub at : s.nodes p ≡ some n
    pub cell : lookup ℕ_discrete p cs ≡ some n.entry
    pub named : n.entry.key ≡ k
    pub shown : lookup dec k (view cs) ≡ some (n.entry.value, n.entry.deadline)
    pub without : view (delete ℕ_discrete p cs) ≡ delete dec k (view cs)

  node_of_key :
      (s : TtlMap K V) (cs : Cells K V) (k : K) (p : Ptr)
      → Valid dec s cs
      → find dec k cs ≡ some p
      → (n : Node K V) × Found s cs k p n
  node_of_key s cs k p v h =
      let (e, a, b) = lookup-find dec k p cs v.links.distinct h in
      let (n, r) = remove_node-Removes s cs p e v.links a in
      let cell' : lookup ℕ_discrete p cs ≡ some n.entry = a ∙ ap some (sym r.entry) in
      let named' : n.entry.key ≡ k = ap (λ x. x.key) r.entry ∙ b in
      (
        n,
        record {
          item = v.index k ∙ h;
          at = r.at;
          cell = cell';
          named = named';
          shown =
              subst (λ j. lookup dec j (view cs) ≡ some (n.entry.value, n.entry.deadline)) named'
                (lookup-view p n.entry cs v.keys cell');
          without = view-delete p n.entry cs v.keys cell' ∙ ap (λ j. delete dec j (view cs)) named';
        },
      )

  pub present_or_absent :
      (s : TtlMap K V) (cs : Cells K V) (k : K)
      → Valid dec s cs
      → ((lookup dec k s.items ≡ none) × (find dec k cs ≡ none) × (lookup dec k (view cs) ≡ none))
        ⊎ ((p : Ptr) × (n : Node K V) × Found s cs k p n)
  present_or_absent s cs k v = elim (Option-cases (find dec k cs)) [
    | inl no_node ↦ inl (v.index k ∙ no_node, no_node, lookup-view_absent k cs no_node)
    | inr (p, here) ↦ let (n, f) = node_of_key s cs k p v here in inr (p, n, f)
  ]
