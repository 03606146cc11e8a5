-- ===== src/Xttlmap/Race.antt =====
-- `Get` reads its node under the read lock and goes on under the lock: what a `Delete` in between does.
use common_lib_go.Prelude.{
  ℕ, ◌≡◌, ◌∙◌, ap, subst, inl, inr, false, Option-cases, Option, none, some, [], ◌∷◌, arith,
  Distinct, delete, lookup, lookup-delete,
}
use common_lib_go.Xttlmap.{
  Ptr, Entry, TtlMap, update, remove_node, move_to_front, drop_node, add_to_front, delete_key,
  start_cleanup, expired, get_finish, get_node,
}
use common_lib_go.Xttlmap.Dll.{Cells}
use common_lib_go.Xttlmap.Front.{move_to_front-SameData}
use common_lib_go.Xttlmap.Index.{find}
use common_lib_go.Xttlmap.Valid.{Valid}
use common_lib_go.Xttlmap.Recent.{Recent, past}
use common_lib_go.Xttlmap.View.{present_or_absent, view-Distinct}
use common_lib_go.Xttlmap.Holds.{Holds}
use common_lib_go.Xttlmap.Methods.{delete_key_lem}

-- What stands in the node at `p`.
abbrev pub entry_at : {K V : Type 0} → TtlMap K V → Ptr → Option (Entry K V)
entry_at s p = elim (s.nodes p) [ none ↦ none | some n ↦ some n.entry ]

module _ {K V : Type 0} where
  add_to_front-entry : (s : TtlMap K V) (p q : Ptr) → entry_at (add_to_front s p) q ≡ entry_at s q
  unfolding add_to_front update
  add_to_front-entry s p q = ground arith

  remove_node-entry : (s : TtlMap K V) (p q : Ptr) → entry_at (remove_node s p) q ≡ entry_at s q
  unfolding remove_node update
  remove_node-entry s p q = ground arith

  move_to_front-entry : (s : TtlMap K V) (p q : Ptr) → entry_at (move_to_front s p) q ≡ entry_at s q
  unfolding move_to_front
  move_to_front-entry s p q =
      ground (arith, add_to_front-entry (remove_node s p) p q, remove_node-entry s p q)

  move_to_front-head : (s : TtlMap K V) (p : Ptr) → (move_to_front s p).head ≡ some p
  unfolding move_to_front add_to_front
  move_to_front-head s p = ground arith

module _ {K V : Type 0} (dec : Discrete K) where
  drop_node-entry : (s : TtlMap K V) (q p : Ptr) → entry_at (drop_node dec s q) p ≡ entry_at s p
  unfolding drop_node
  drop_node-entry s q p = elim (Option-cases (s.nodes q)) [
    | inl nil ↦ ground (arith, nil)
    | inr (n, here) ↦
        ground
          (arith, here, remove_node-entry (record s { items = delete dec n.entry.key s.items }) q p)
  ]

  delete_key-entry :
      (s : TtlMap K V) (k : K) (now : ℕ) (p : Ptr)
      → entry_at (delete_key dec s k now).0 p ≡ entry_at s p
  unfolding delete_key start_cleanup
  delete_key-entry s k now p = elim (Option-cases (lookup dec k s.items)) [
    | inl none_there ↦ ground (arith, none_there)
    | inr (q, there) ↦ ground (arith, there, drop_node-entry s q p)
  ]

  -- `Get` when its node is there and has not expired, whatever the map has become.
  finish_live :
      (s : TtlMap K V) (p : Ptr) (e : Entry K V) (k : K) (now : ℕ)
      → entry_at s p ≡ some e
      → past e.deadline now ≡ false
      → get_finish dec s (some p) k now ≡ (move_to_front s p, some e.value)
  unfolding get_finish expired
  finish_live s p e k now at live = elim (Option-cases (s.nodes p)) [
    | inl nil ↦ ground (arith, nil, at)
    | inr (n, here) ↦
        let same : n.entry ≡ e = ground (arith, here, at) in
        ground (arith, here, live, ap (λ x. past x.deadline now) same, ap (λ x. x.value) same)
  ]

  delete_key-items :
      {s : TtlMap K V} {m : ℕ} {r : Recent K V}
      → Holds dec s m r
      → (k : K) (now : ℕ) → lookup dec k (delete_key dec s k now).0.items ≡ none
  delete_key-items {s} {m} {r} c k now =
      let h = delete_key_lem dec c k now in
      let u = subst Distinct c.shows (view-Distinct c.cells c.valid.keys) in
      elim (present_or_absent dec (delete_key dec s k now).0 h.cells k h.valid) [
        | inl (absent, _, _) ↦ absent
        | inr (p, n, f) ↦ absurd (ground (arith, f.shown, h.shows, lookup-delete dec k k r u))
      ]

  -- A list whose first node has a key that the map lacks is not well-formed.
  orphan_head :
      (s : TtlMap K V) (p : Ptr) (e : Entry K V)
      → s.head ≡ some p
      → entry_at s p ≡ some e
      → lookup dec e.key s.items ≡ none
      → (cs : Cells K V) → Valid dec s cs
      → ⊥
  unfolding find
  orphan_head s p e first at absent [] v = ground (arith, first, v.links.head)
  orphan_head s p e first at absent ((q, x) ∷ cs) v =
      let same : p ≡ q = ground (arith, first, v.links.head) in
      let named : x ≡ e = ground (arith, at, ap (entry_at s) same, v.links.linked.0) in
      let found : find dec e.key ((q, x) ∷ cs) ≡ some q = rw (← named) (ground arith) in
      ground (arith, absent, v.index e.key, found)

  -- When a `Delete` of a live key of a well-formed map comes between the two parts of a `Get` of
  -- it, the `Get` returns the value, and leaves a map whose `items` has no such key and that is
  -- well-formed for no list of nodes.
  pub get_races_delete :
      {s : TtlMap K V} {m : ℕ} {r : Recent K V}
      → Holds dec s m r
      → (k : K) (v : V) (d : Option ℕ) (now : ℕ) → lookup dec k r ≡ some (v, d)
      → past d now ≡ false
      → let u = get_finish dec (delete_key dec s k now).0 (get_node dec s k) k now in
        (u.1 ≡ some v) × (lookup dec k u.0.items ≡ none) × (¬ ((cs : Cells K V) × Valid dec u.0 cs))
  unfolding get_node
  get_races_delete {s} {m} {r} c k v d now there live =
      elim (present_or_absent dec s c.cells k c.valid) [
        | inl (absent, _, no_view) ↦ absurd (ground (arith, no_view, there, c.shows))
        | inr (p, n, f) ↦
            let t = (delete_key dec s k now).0 in
            let e = n.entry in
            let at : entry_at t p ≡ some e = delete_key-entry s k now p ∙ (ground (arith, f.at)) in
            let alive : past e.deadline now ≡ false =
              ground (arith, live, there, f.shown, c.shows) in
            let value : e.value ≡ v = ground (arith, there, f.shown, c.shows) in
            let gone : lookup dec k (move_to_front t p).items ≡ none =
              ap (lookup dec k) (move_to_front-SameData t p).items ∙ delete_key-items c k now in
            rw (f.item, finish_live t p e k now at alive)
              (
                ap some value,
                gone,
                λ (cs, w).
                    orphan_head (move_to_front t p) p e (move_to_front-head t p)
                      (move_to_front-entry t p p ∙ at) (rw f.named gone) cs w,
              )
      ]
