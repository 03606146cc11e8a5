-- ===== src/Xttlmap/Valid.antt =====
-- The invariant of `TTLMap`, and the internal steps that keep it.
use common_lib_go.Prelude.{
  ℕ, ◌≡◌, refl, sym, ◌∙◌, ap, subst, some, [], arith, Distinct, ℕ_discrete, delete, lookup, length,
  lookup-delete, delete-Distinct, length-delete,
}
use common_lib_go.Xttlmap.{Ptr, Entry, Node, TtlMap, remove_node, move_to_front, drop_node, new}
use common_lib_go.Prelude.Int.{ℤ}
use common_lib_go.Xttlmap.Dll.{Cells}
use common_lib_go.Xttlmap.Links.{Linked}
use common_lib_go.Xttlmap.Moves.{remove_node-Removes}
use common_lib_go.Xttlmap.Front.{
  remove_node-SameData, move_to_front-SameData, to_front, move_to_front-Linked,
}
use common_lib_go.Xttlmap.Index.{
  KeysDistinct, Below, Below-delete, Below-lookup, delete-KeysDistinct, delete-KeyFresh, find,
  find-delete, find-lookup,
}

-- The map has the list of nodes `cs`, the most recently used first: the links form this list,
-- `items` finds exactly its nodes by their keys, no key stands twice, and nodes at `fresh` and above are unused.
pub record Valid {K V : Type 0} (dec : Discrete K) (s : TtlMap K V) (cs : Cells K V) : Type 0 where
  pub links : Linked s cs
  pub items_distinct : Distinct s.items
  pub index : (k : K) → lookup dec k s.items ≡ find dec k cs
  pub keys : KeysDistinct cs
  pub count : length s.items ≡ length cs
  pub below : Below s.fresh cs

module _ {K V : Type 0} (dec : Discrete K) where
  -- A new map has no node.
  pub new-Valid : (max_size : ℤ) (now : ℕ) → Valid {V = V} dec (new max_size now) []
  unfolding new lookup find
  new-Valid max_size now = record {
    links = record { linked = tt; head = refl; tail = refl; distinct = tt };
    items_distinct = tt;
    index = λ k. refl;
    keys = tt;
    count = refl;
    below = tt;
  }

  drop_at :
      (s : TtlMap K V) (p : Ptr) (n : Node K V)
      → s.nodes p ≡ some n
      → drop_node dec s p ≡ remove_node (record s { items = delete dec n.entry.key s.items }) p
  unfolding drop_node
  drop_at s p n here = ground (arith, here)

  drop_data :
      (s : TtlMap K V) (cs : Cells K V) (p : Ptr) (e : Entry K V)
      → Valid dec s cs
      → lookup ℕ_discrete p cs ≡ some e
      → let t = drop_node dec s p in
        (t.items ≡ delete dec e.key s.items)
        × (t.fresh ≡ s.fresh)
        × Linked t (delete ℕ_discrete p cs)
  drop_data s cs p e v h =
      let l = v.links in
      let s' = record s { items = delete dec e.key s.items } in
      let l' : Linked s' cs = record {
        linked = l.linked;
        head = l.head;
        tail = l.tail;
        distinct = l.distinct;
      } in
      let (n, r) = remove_node-Removes s' cs p e l' h in
      let same = remove_node-SameData s' p in
      let dropped : drop_node dec s p ≡ remove_node s' p =
        drop_at s p n r.at
        ∙ ap (λ x. remove_node (record s { items = delete dec x.key s.items }) p) r.entry in
      rw dropped (same.items, same.fresh, rw (r.result) r.linked)

  -- A node that is dropped leaves the list and the map.
  pub drop_node-Valid :
      (s : TtlMap K V) (cs : Cells K V) (p : Ptr) (e : Entry K V)
      → Valid dec s cs
      → lookup ℕ_discrete p cs ≡ some e
      → Valid dec (drop_node dec s p) (delete ℕ_discrete p cs)
  drop_node-Valid s cs p e v h =
      let (a, b, l) = drop_data s cs p e v h in
      let found : lookup dec e.key s.items ≡ some p =
        v.index e.key ∙ find-lookup dec p e cs v.keys h in
      record {
        links = l;
        items_distinct = rw a (delete-Distinct dec e.key s.items v.items_distinct);
        index = λ k. rw (
          a,
          lookup-delete dec k e.key s.items v.items_distinct,
          find-delete dec k p e cs v.keys h,
          v.index k,
        );
        keys = delete-KeysDistinct p cs v.keys;
        count = rw a (
            ground (
              arith,
              v.count,
              length-delete dec e.key p s.items found,
              length-delete ℕ_discrete p e cs h,
            ));
        below = rw b (Below-delete s.fresh p cs v.below);
      }

  -- The order of a list of nodes does not change what is found.
  find-to_front :
      (k : K) (p : Ptr) (e : Entry K V) (cs : Cells K V)
      → KeysDistinct cs
      → lookup ℕ_discrete p cs ≡ some e
      → find dec k (to_front p e cs) ≡ find dec k cs
  unfolding find
  find-to_front k p e cs d h =
      ground (arith, find-delete dec k p e cs d h, find-lookup dec p e cs d h)

  pub move_to_front-Valid :
      (s : TtlMap K V) (cs : Cells K V) (p : Ptr) (e : Entry K V)
      → Valid dec s cs
      → lookup ℕ_discrete p cs ≡ some e
      → Valid dec (move_to_front s p) (to_front p e cs)
  move_to_front-Valid s cs p e v h =
      let same = move_to_front-SameData s p in
      record {
        links = move_to_front-Linked s cs p e v.links h;
        items_distinct = rw (same.items) v.items_distinct;
        index = λ k. rw (same.items, v.index k, find-to_front k p e cs v.keys h);
        keys = (delete-KeyFresh p e cs v.keys h, delete-KeysDistinct p cs v.keys);
        count = rw (same.items) (ground (arith, v.count, length-delete ℕ_discrete p e cs h));
        below =
            subst (λ n. Below n (to_front p e cs)) (sym same.fresh)
              (Below-lookup s.fresh p cs e v.below h, Below-delete s.fresh p cs v.below);
      }

  pub drop_node-max_size : (s : TtlMap K V) (p : Ptr) → (drop_node dec s p).max_size ≡ s.max_size
  unfolding drop_node remove_node
  drop_node-max_size s p = ground arith
