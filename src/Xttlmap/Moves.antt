-- ===== src/Xttlmap/Moves.antt =====
-- `removeNode` on the linked list.
use common_lib_go.Prelude.{
  ◌≡◌, refl, sym, ◌∙◌, Option, none, some, [], ◌∷◌, ◌++◌, arith, Distinct, Fresh, ℕ_discrete,
  delete, lookup,
}
use mathlib.Core.List.{append-nil}
use common_lib_go.Xttlmap.{
  Ptr, Entry, Node, Heap, TtlMap, link_next, link_prev, unlink, remove_node,
}
use common_lib_go.Xttlmap.Dll.{
  Cells, first_or, last_or, node, Dll, update_ne, Dll-append, Dll-split, Dll-relink_last,
  Dll-relink_first, link_last_ne,
}
use common_lib_go.Xttlmap.Links.{
  Linked, Distinct-append, Apart-Fresh, split_at, last_or-append, Dll-link_prev, Dll-link_next,
}

module _ {K V : Type 0} where
  -- The node at the cut, as the list has it.
  abbrev cut_node : Cells K V → Entry K V → Cells K V → Node K V
  cut_node xs e ys = node e (last_or none xs) (first_or none ys)

  pub last_some : (q : Ptr) (cs : Cells K V) → (r : Ptr) × (last_or (some q) cs ≡ some r)
  last_some q [] = (q, refl)
  last_some q ((p, e) ∷ cs) = last_some p cs

  Fresh-cut :
      (q : Ptr) (xs : Cells K V) (p : Ptr) (e : Entry K V) (ys : Cells K V)
      → Fresh q (xs ++ ((p, e) ∷ ys))
      → Fresh q (xs ++ ys)
  Fresh-cut q [] p e ys f = f.1
  Fresh-cut q (c ∷ xs) p e ys f = (f.0, Fresh-cut q xs p e ys f.1)

  Distinct-cut :
      (xs : Cells K V) (p : Ptr) (e : Entry K V) (ys : Cells K V)
      → Distinct (xs ++ ((p, e) ∷ ys))
      → Distinct (xs ++ ys)
  Distinct-cut [] p e ys d = d.1
  Distinct-cut ((q, x) ∷ xs) p e ys d = (Fresh-cut q xs p e ys d.0, Distinct-cut xs p e ys d.1)

  unlink-nodes :
      (s : TtlMap K V) (xs : Cells K V) (p : Ptr) (e : Entry K V) (ys : Cells K V)
      → Linked s (xs ++ ((p, e) ∷ ys))
      → Dll (unlink s (cut_node xs e ys)).nodes none (xs ++ ys) none
  unlink-nodes s xs p e ys l =
      let (dx, dy, apart) = Distinct-append xs ((p, e) ∷ ys) l.distinct in
      let (_, off) = Apart-Fresh p e xs ys apart in
      let (front, back) = Dll-split s.nodes none xs ((p, e) ∷ ys) none l.linked in
      let h = link_next s.nodes (last_or none xs) (first_or none ys) in
      Dll-append _ none xs ys none
        (Dll-link_prev h xs ys (first_or none ys) (last_or none xs) off
          (Dll-relink_last s.nodes xs (some p) (first_or none ys) dx front))
        (Dll-relink_first h (some p) (last_or none xs) ys dy.1
          (Dll-link_next s.nodes (some p) xs ys (first_or none ys) off back.1))

  unlink-head :
      (s : TtlMap K V) (xs : Cells K V) (p : Ptr) (e : Entry K V) (ys : Cells K V)
      → Linked s (xs ++ ((p, e) ∷ ys))
      → (unlink s (cut_node xs e ys)).head ≡ first_or none (xs ++ ys)
  unlink-head s [] p e ys l = refl
  unlink-head s ((q, x) ∷ xs) p e ys l =
      let (r, some_last) = last_some q xs in ground (arith, l.head, some_last)

  unlink-tail :
      (s : TtlMap K V) (xs : Cells K V) (p : Ptr) (e : Entry K V) (ys : Cells K V)
      → Linked s (xs ++ ((p, e) ∷ ys))
      → (unlink s (cut_node xs e ys)).tail ≡ last_or none (xs ++ ys)
  unlink-tail s xs p e [] l = rw append-nil
  unlink-tail s xs p e ((q, x) ∷ ys) l =
      l.tail
      ∙ last_or-append none xs ((p, e) ∷ (q, x) ∷ ys)
      ∙ sym (last_or-append none xs ((q, x) ∷ ys))

  unlink-Linked :
      (s : TtlMap K V) (xs : Cells K V) (p : Ptr) (e : Entry K V) (ys : Cells K V)
      → Linked s (xs ++ ((p, e) ∷ ys))
      → Linked (unlink s (cut_node xs e ys)) (xs ++ ys)
  unlink-Linked s xs p e ys l = record {
    linked = unlink-nodes s xs p e ys l;
    head = unlink-head s xs p e ys l;
    tail = unlink-tail s xs p e ys l;
    distinct = Distinct-cut xs p e ys l.distinct;
  }

  -- The node that is taken out keeps its fields.
  unlink_self :
      (h : Heap K V) (xs : Cells K V) (p : Ptr) (ys : Cells K V) (x y : Option Ptr)
      → Fresh p xs
      → Fresh p ys
      → link_prev (link_next h (last_or none xs) x) (first_or none ys) y p ≡ h p
  unlink_self h [] p [] x y f g = refl
  unlink_self h [] p ((r, e) ∷ ys) x y f g = update_ne h r p _ g.0
  unlink_self h ((q, e) ∷ xs) p [] x y f g = link_last_ne h q xs x p f.0 f.1
  unlink_self h ((q, e) ∷ xs) p ((r, e') ∷ ys) x y f g =
      update_ne (link_next h (last_or (some q) xs) x) r p _ g.0 ∙ link_last_ne h q xs x p f.0 f.1

  -- What `removeNode` does to a node of the list: the list loses just this node, whose own fields
  -- stay as they are.
  pub record Removes (s : TtlMap K V) (cs : Cells K V) (p : Ptr) (e : Entry K V) (n : Node K V)
      : Type 0 where
    pub at : s.nodes p ≡ some n
    pub entry : n.entry ≡ e
    pub result : remove_node s p ≡ unlink s n
    pub linked : Linked (unlink s n) (delete ℕ_discrete p cs)
    pub kept : (unlink s n).nodes p ≡ some n

  pub remove_node-Removes :
      (s : TtlMap K V) (cs : Cells K V) (p : Ptr) (e : Entry K V)
      → Linked s cs
      → lookup ℕ_discrete p cs ≡ some e
      → (n : Node K V) × Removes s cs p e n
  unfolding remove_node
  remove_node-Removes s cs p e l h =
      let (xs, ys, a, b) = split_at p e cs l.distinct h in
      let l' : Linked s (xs ++ ((p, e) ∷ ys)) = rw (← a) l in
      let (dx, dy, apart) = Distinct-append xs ((p, e) ∷ ys) l'.distinct in
      let here = (Dll-split s.nodes none xs ((p, e) ∷ ys) none l'.linked).1.0 in
      (
        cut_node xs e ys,
        record {
          at = here;
          entry = refl;
          result = ground (arith, here);
          linked = rw b (unlink-Linked s xs p e ys l');
          kept = unlink_self s.nodes xs p ys _ _ (Apart-Fresh p e xs ys apart).0 dy.0 ∙ here;
        },
      )
