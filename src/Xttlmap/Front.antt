-- ===== src/Xttlmap/Front.antt =====
-- `addToFront` and `moveToFront` on the linked list.
use common_lib_go.Prelude.{
  ◌≡◌, refl, sym, ◌∙◌, subst, inl, inr, true, false, Bool-cases, Option, none, some, [], ◌∷◌, arith,
  Distinct, Fresh, ℕ_discrete, delete, lookup, lookup-delete, Fresh-lookup,
}
use common_lib_go.Xttlmap.{
  Ptr, Entry, Node, Heap, TtlMap, update, link_prev, or_else, add_to_front, unlink, remove_node,
  is_head, move_to_front,
}
use common_lib_go.Xttlmap.Dll.{
  Cells, first_or, last_or, Dll, update_self, update_ne, Dll-update, Dll-relink_first,
}
use common_lib_go.Xttlmap.Links.{Linked}
use common_lib_go.Xttlmap.Moves.{last_some, remove_node-Removes}

module _ {K V : Type 0} where
  front-Dll :
      (h : Heap K V) (p : Ptr) (n : Node K V) (cs : Cells K V)
      → Distinct cs
      → Fresh p cs
      → h p ≡ some n
      → Dll h none cs none
      → Dll
          (link_prev
            (update h p (λ m. record m { next = first_or none cs; prev = none }))
            (first_or none cs)
            (some p))
          none
          ((p, n.entry) ∷ cs)
          none
  front-Dll h p n [] d f here l = (update_self h p _ n here, tt)
  front-Dll h p n ((q, e) ∷ cs) d f here l = (
    update_ne (update h p _) q p _ f.0 ∙ update_self h p _ n here,
    Dll-relink_first (update h p _) none (some p) ((q, e) ∷ cs) d
        (Dll-update h none ((q, e) ∷ cs) none p _ f l),
  )

  front-tail :
      (t : Option Ptr) (p : Ptr) (cs : Cells K V)
      → t ≡ last_or none cs
      → or_else t (some p) ≡ last_or (some p) cs
  front-tail t p [] e = rw e
  front-tail t p ((q, x) ∷ cs) e = let (r, some_last) = last_some q cs in ground (arith, some_last)

  -- `addToFront` of a node that is not in the list puts it first.
  pub add_to_front-Linked :
      (s : TtlMap K V) (cs : Cells K V) (p : Ptr) (n : Node K V)
      → Linked s cs
      → Fresh p cs
      → s.nodes p ≡ some n
      → Linked (add_to_front s p) ((p, n.entry) ∷ cs)
  unfolding add_to_front
  add_to_front-Linked s cs p n l f here = record {
    linked =
        subst
          (λ x.
            Dll (link_prev (update s.nodes p (λ m. record m { next = x; prev = none })) x (some p))
              none ((p, n.entry) ∷ cs) none)
          (sym l.head) (front-Dll s.nodes p n cs l.distinct f here l.linked);
    head = refl;
    tail = front-tail s.tail p cs l.tail;
    distinct = (f, l.distinct);
  }

  delete-Fresh : (p : Ptr) (cs : Cells K V) → Distinct cs → Fresh p (delete ℕ_discrete p cs)
  delete-Fresh p cs d =
      Fresh-lookup ℕ_discrete p (delete ℕ_discrete p cs)
        (ground (arith, lookup-delete ℕ_discrete p p cs d))

  -- The cells with one of them at the front.
  abbrev pub to_front : Ptr → Entry K V → Cells K V → Cells K V
  to_front p e cs = (p, e) ∷ delete ℕ_discrete p cs

  to_front_head :
      (p : Ptr) (e : Entry K V) (cs : Cells K V)
      → is_head (first_or none cs) p ≡ true
      → lookup ℕ_discrete p cs ≡ some e
      → to_front p e cs ≡ cs
  unfolding lookup delete
  to_front_head p e [] i h = cc
  to_front_head p e ((q, x) ∷ cs) i h = ground arith

  move_away :
      (s : TtlMap K V) (p : Ptr)
      → is_head s.head p ≡ false
      → move_to_front s p ≡ add_to_front (remove_node s p) p
  unfolding move_to_front
  move_away s p i = ground arith

  move_head : (s : TtlMap K V) (p : Ptr) → is_head s.head p ≡ true → move_to_front s p ≡ s
  unfolding move_to_front
  move_head s p i = ground arith

  -- `moveToFront` of a node of the list puts it first and leaves the order of the others.
  pub move_to_front-Linked :
      (s : TtlMap K V) (cs : Cells K V) (p : Ptr) (e : Entry K V)
      → Linked s cs
      → lookup ℕ_discrete p cs ≡ some e
      → Linked (move_to_front s p) (to_front p e cs)
  move_to_front-Linked s cs p e l h = elim (Bool-cases (is_head s.head p)) [
    | inl first ↦ rw (move_head s p first, to_front_head p e cs (ground (arith, l.head)) h) l
    | inr behind ↦
        let (n, r) = remove_node-Removes s cs p e l h in
        let moved =
          add_to_front-Linked (unlink s n) (delete ℕ_discrete p cs) p n r.linked
            (delete-Fresh p cs l.distinct) r.kept in
        rw (move_away s p behind, r.result)
          (subst (λ x. Linked (add_to_front (unlink s n) p) ((p, x) ∷ delete ℕ_discrete p cs))
            r.entry moved)
  ]

  -- Neither changes what is not about the list.
  pub record SameData (s t : TtlMap K V) : Type 0 where
    pub items : t.items ≡ s.items
    pub fresh : t.fresh ≡ s.fresh
    pub max_size : t.max_size ≡ s.max_size
    pub cleaning : t.cleaning ≡ s.cleaning

  pub remove_node-SameData : (s : TtlMap K V) (p : Ptr) → SameData s (remove_node s p)
  unfolding remove_node
  remove_node-SameData s p = ground arith

  pub move_to_front-SameData : (s : TtlMap K V) (p : Ptr) → SameData s (move_to_front s p)
  unfolding move_to_front add_to_front remove_node
  move_to_front-SameData s p = ground arith
