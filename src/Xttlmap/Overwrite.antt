-- ===== src/Xttlmap/Overwrite.antt =====
-- The branch of `Set` for a key that is there.
use common_lib_go.Prelude.{
  ℕ, ◌<◌, ◌≡◌, ◌≢◌, sym, ◌∙◌, subst, Option, none, some, [], ◌∷◌, arith, Distinct, Fresh,
  ℕ_discrete, delete, lookup, insert, if_pos, if_neg, insert-Distinct, length-insert_old,
  lookup-insert_self,
}
use common_lib_go.Xttlmap.{Ptr, Entry, Node, Heap, TtlMap, update, move_to_front, overwrite}
use common_lib_go.Xttlmap.Dll.{
  Cells, first_or, last_or, node, Dll, update_self, update_ne, Dll-update,
}
use common_lib_go.Xttlmap.Links.{Linked}
use common_lib_go.Xttlmap.Front.{move_to_front-SameData, to_front}
use common_lib_go.Xttlmap.Index.{KeyFresh, KeysDistinct, Below, Below-lookup, find, lookup-KeyFresh}
use common_lib_go.Xttlmap.Valid.{Valid, move_to_front-Valid}

module _ {K V : Type 0} where
  -- The entry with another value and deadline.
  abbrev pub renew : Entry K V → V → Option ℕ → Entry K V
  renew e v d = record { key = e.key; value = v; deadline = d }

  abbrev renew_node : V → Option ℕ → Node K V → Node K V
  renew_node v d n = record n { entry = renew n.entry v d }

  first_or-insert :
      (p : Ptr) (x e : Entry K V) (cs : Cells K V) (n : Option Ptr)
      → lookup ℕ_discrete p cs ≡ some e
      → first_or n (insert ℕ_discrete p x cs) ≡ first_or n cs
  unfolding insert lookup
  first_or-insert p x e [] n h = absurd (cc)
  first_or-insert p x e (c ∷ cs) n h = ground arith

  last_or-insert :
      (p : Ptr) (x e : Entry K V) (cs : Cells K V) (n : Option Ptr)
      → lookup ℕ_discrete p cs ≡ some e
      → last_or n (insert ℕ_discrete p x cs) ≡ last_or n cs
  unfolding insert lookup
  last_or-insert p x e [] n h = absurd (cc)
  last_or-insert p x e ((q, y) ∷ cs) n h = ground (arith, last_or-insert p x e cs (some q))

  Dll-renew :
      (h : Heap K V) (prev : Option Ptr) (cs : Cells K V) (next : Option Ptr) (p : Ptr)
      (e : Entry K V) (v : V) (d : Option ℕ)
      → Distinct cs
      → lookup ℕ_discrete p cs ≡ some e
      → Dll h prev cs next
      → Dll (update h p (renew_node v d)) prev (insert ℕ_discrete p (renew e v d) cs) next
  unfolding insert lookup
  Dll-renew h prev [] next p e v d u l k = absurd (cc)
  Dll-renew h prev ((q, x) ∷ cs) next p e v d u l k = elim (ℕ_discrete p q) [
    | yes same ↦
        let here : x ≡ e = ground arith in
        rw (if_pos _ same, ← here, same)
          (
            update_self h q (renew_node v d) (node x prev (first_or next cs)) k.0,
            Dll-update h (some q) cs next p (renew_node v d)
                (subst (λ y. Fresh y cs) (sym same) u.0) k.1,
          )
    | no other ↦
        let there : lookup ℕ_discrete p cs ≡ some e = ground arith in
        rw (if_neg _ other) (
          rw
              (
                update_ne h p q (renew_node v d) (λ x. other (sym x)),
                first_or-insert p (renew e v d) e cs next there,
              )
              k.0,
          Dll-renew h (some q) cs next p e v d u.1 there k.1,
        )
  ]

  KeyFresh-insert :
      (k : K) (p : Ptr) (x : Entry K V) (cs : Cells K V)
      → KeyFresh k cs
      → k ≢ x.key
      → KeyFresh k (insert ℕ_discrete p x cs)
  unfolding insert
  KeyFresh-insert k p x [] f n = (n, tt)
  KeyFresh-insert k p x (c ∷ cs) f n = ground (arith, KeyFresh-insert k p x cs f.1 n)

  delete-insert :
      (p : Ptr) (x : Entry K V) (cs : Cells K V)
      → delete ℕ_discrete p (insert ℕ_discrete p x cs) ≡ delete ℕ_discrete p cs
  unfolding insert delete
  delete-insert p x [] = ground arith
  delete-insert p x (c ∷ cs) = ground (arith, delete-insert p x cs)

  insert-KeysDistinct :
      (p : Ptr) (e : Entry K V) (v : V) (d : Option ℕ) (cs : Cells K V)
      → KeysDistinct cs
      → lookup ℕ_discrete p cs ≡ some e
      → KeysDistinct (insert ℕ_discrete p (renew e v d) cs)
  unfolding insert lookup
  insert-KeysDistinct p e v d [] k h = absurd (cc)
  insert-KeysDistinct p e v d ((q, x) ∷ cs) k h = elim (ℕ_discrete p q) [
    | yes same ↦ let here : x ≡ e = ground arith in rw (if_pos _ same, ← here) k
    | no other ↦
        let there : lookup ℕ_discrete p cs ≡ some e = ground arith in
        rw (if_neg _ other) (
          KeyFresh-insert x.key p (renew e v d) cs k.0 (lookup-KeyFresh x.key p e cs k.0 there),
          insert-KeysDistinct p e v d cs k.1 there,
        )
  ]

  insert-Below :
      (n p : Ptr) (x : Entry K V) (cs : Cells K V)
      → Below n cs
      → p < n
      → Below n (insert ℕ_discrete p x cs)
  unfolding insert
  insert-Below n p x [] b h = (h, tt)
  insert-Below n p x (c ∷ cs) b h = ground (arith, insert-Below n p x cs b.1 h)

  -- The map with the renewed node, still in its place.
  abbrev renewed : TtlMap K V → Ptr → V → Option ℕ → TtlMap K V
  renewed s p v d = record s { nodes = update s.nodes p (renew_node v d) }

  renewed-Linked :
      (s : TtlMap K V) (cs : Cells K V) (p : Ptr) (e : Entry K V) (v : V) (d : Option ℕ)
      → Linked s cs
      → lookup ℕ_discrete p cs ≡ some e
      → Linked (renewed s p v d) (insert ℕ_discrete p (renew e v d) cs)
  renewed-Linked s cs p e v d l h = record {
    linked = Dll-renew s.nodes none cs none p e v d l.distinct h l.linked;
    head = l.head ∙ sym (first_or-insert p (renew e v d) e cs none h);
    tail = l.tail ∙ sym (last_or-insert p (renew e v d) e cs none h);
    distinct = insert-Distinct ℕ_discrete p (renew e v d) cs l.distinct;
  }

  pub overwrite-max_size :
      (s : TtlMap K V) (p : Ptr) (v : V) (d : Option ℕ) → (overwrite s p v d).max_size ≡ s.max_size
  unfolding overwrite
  overwrite-max_size s p v d = (move_to_front-SameData (renewed s p v d) p).max_size

module _ {K V : Type 0} (dec : Discrete K) where
  find-insert :
      (k : K) (p : Ptr) (e : Entry K V) (v : V) (d : Option ℕ) (cs : Cells K V)
      → lookup ℕ_discrete p cs ≡ some e
      → find dec k (insert ℕ_discrete p (renew e v d) cs) ≡ find dec k cs
  unfolding find insert lookup
  find-insert k p e v d [] h = absurd (cc)
  find-insert k p e v d ((q, x) ∷ cs) h = elim (ℕ_discrete p q) [
    | yes same ↦ let here : x ≡ e = ground arith in rw (if_pos _ same, ← here)
    | no other ↦
        let there : lookup ℕ_discrete p cs ≡ some e = ground arith in
        rw (if_neg _ other) (ground (arith, find-insert k p e v d cs there))
  ]

  renewed-Valid :
      (s : TtlMap K V) (cs : Cells K V) (p : Ptr) (e : Entry K V) (v : V) (d : Option ℕ)
      → Valid dec s cs
      → lookup ℕ_discrete p cs ≡ some e
      → Valid dec (renewed s p v d) (insert ℕ_discrete p (renew e v d) cs)
  renewed-Valid s cs p e v d w h = record {
    links = renewed-Linked s cs p e v d w.links h;
    items_distinct = w.items_distinct;
    index = λ k. w.index k ∙ sym (find-insert k p e v d cs h);
    keys = insert-KeysDistinct p e v d cs w.keys h;
    count = w.count ∙ sym (length-insert_old ℕ_discrete p (renew e v d) e cs h);
    below = insert-Below s.fresh p (renew e v d) cs w.below (Below-lookup s.fresh p cs e w.below h);
  }

  -- An entry that is written goes to the front.
  pub overwrite-Valid :
      (s : TtlMap K V) (cs : Cells K V) (p : Ptr) (e : Entry K V) (v : V) (d : Option ℕ)
      → Valid dec s cs
      → lookup ℕ_discrete p cs ≡ some e
      → Valid dec (overwrite s p v d) (to_front p (renew e v d) cs)
  unfolding overwrite
  overwrite-Valid s cs p e v d w h =
      subst (λ xs. Valid dec (move_to_front (renewed s p v d) p) ((p, renew e v d) ∷ xs))
        (delete-insert p (renew e v d) cs)
        (move_to_front-Valid dec (renewed s p v d) (insert ℕ_discrete p (renew e v d) cs) p
          (renew e v d) (renewed-Valid s cs p e v d w h)
          (lookup-insert_self ℕ_discrete p (renew e v d) cs))
