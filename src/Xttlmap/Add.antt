-- ===== src/Xttlmap/Add.antt =====
-- The new node of `Set`.
use common_lib_go.Prelude.{
  suc, ◌==◌, ◌≡◌, refl, sym, subst, Option, none, some, [], ◌∷◌, arith, Fresh, insert,
  if◌then◌else◌, lookup-insert, insert-Distinct, length-insert_new,
}
use common_lib_go.Xttlmap.{Ptr, Entry, Node, Heap, TtlMap, add_entry, add_to_front}
use common_lib_go.Xttlmap.Dll.{Cells, node, Dll}
use common_lib_go.Xttlmap.Links.{Linked}
use common_lib_go.Xttlmap.Front.{add_to_front-Linked}
use common_lib_go.Xttlmap.Index.{Below, Below-Fresh, Below-suc, find, KeyFresh-find}
use common_lib_go.Xttlmap.Valid.{Valid}

module _ {K V : Type 0} where
  -- A segment does not see a node that is put at a free pointer.
  Dll-extend :
      (h : Heap K V) (prev : Option Ptr) (cs : Cells K V) (next : Option Ptr) (p : Ptr)
      (n : Node K V)
      → Fresh p cs
      → Dll h prev cs next
      → Dll (λ q. if q == p then some n else h q) prev cs next
  Dll-extend h prev [] next p n f d = tt
  Dll-extend h prev ((q, e) ∷ cs) next p n f d =
      (ground (arith, f.0, d.0), Dll-extend h (some q) cs next p n f.1 d.1)

  -- The map with the new node on its heap, still outside the list.
  abbrev allocate : TtlMap K V → Entry K V → TtlMap K V
  allocate s e = record s {
    nodes = λ q. if q == s.fresh then some (node e none none) else s.nodes q;
    fresh = suc s.fresh;
  }

  allocate-Linked :
      (s : TtlMap K V) (e : Entry K V) (cs : Cells K V)
      → Linked s cs
      → Below s.fresh cs
      → Linked (allocate s e) cs
  allocate-Linked s e cs l b = record {
    linked =
        Dll-extend s.nodes none cs none s.fresh (node e none none) (Below-Fresh s.fresh cs b)
          l.linked;
    head = l.head;
    tail = l.tail;
    distinct = l.distinct;
  }

  allocated :
      (s : TtlMap K V) (e : Entry K V) → (allocate s e).nodes s.fresh ≡ some (node e none none)
  allocated s e = ground arith

module _ {K V : Type 0} (dec : Discrete K) where
  abbrev linked_in : TtlMap K V → Entry K V → TtlMap K V
  linked_in s e = add_to_front (allocate s e) s.fresh

  add_entry-Linked :
      (s : TtlMap K V) (e : Entry K V) (cs : Cells K V)
      → Linked (linked_in s e) cs
      → Linked (add_entry dec s e) cs
  unfolding add_entry
  add_entry-Linked s e cs l = record {
    linked = l.linked;
    head = l.head;
    tail = l.tail;
    distinct = l.distinct;
  }

  pub add_entry_data :
      (s : TtlMap K V) (e : Entry K V)
      → let t = add_entry dec s e in
        (t.items ≡ insert dec e.key s.fresh s.items)
        × (t.fresh ≡ suc s.fresh)
        × (t.max_size ≡ s.max_size)
  unfolding add_entry
  add_entry_data s e = (refl, refl, refl)

  -- A new key is put at the front.
  pub add_entry-Valid :
      (s : TtlMap K V) (cs : Cells K V) (e : Entry K V)
      → Valid dec s cs
      → find dec e.key cs ≡ none
      → Valid dec (add_entry dec s e) ((s.fresh, e) ∷ cs)
  unfolding find
  add_entry-Valid s cs e v absent =
      let (a, b, _) = add_entry_data s e in
      record {
        links = add_entry-Linked s e _ (
            add_to_front-Linked (allocate s e) cs s.fresh (node e none none)
              (allocate-Linked s e cs v.links v.below) (Below-Fresh s.fresh cs v.below)
              (allocated s e));
        items_distinct = rw a (insert-Distinct dec e.key s.fresh s.items v.items_distinct);
        index = λ k. rw (a, lookup-insert dec k e.key s.fresh s.items, v.index k);
        keys = (KeyFresh-find dec e.key cs absent, v.keys);
        count =
            rw a
              (ground (arith, v.count, length-insert_new dec e.key s.fresh s.items, v.index e.key));
        below =
            subst (λ n. Below n ((s.fresh, e) ∷ cs)) (sym b)
              (omega arith, Below-suc s.fresh cs v.below);
      }
