-- ===== src/Xttlmap/SetKey.antt =====
-- `Set` does what the list of the most recently used promises.
use common_lib_go.Prelude.{
  ℕ, zero, suc, ◌-◌, ◌<◌, ◌≤◌, ◌≡◌, refl, sym, ◌∙◌, ap, inl, inr, Bool, false, Option, none, some,
  [], ◌∷◌, arith, delete, lookup, length, take, delete_absent,
}
use common_lib_go.Xttlmap.{
  Ptr, Entry, Node, TtlMap, add_entry, overwrite, evict, set_key, minus_one, start_cleanup,
}
use common_lib_go.Prelude.Int.{pos}
use common_lib_go.Xttlmap.Dll.{Cells}
use common_lib_go.Xttlmap.Front.{to_front}
use common_lib_go.Xttlmap.Index.{find}
use common_lib_go.Xttlmap.Add.{add_entry-Valid, add_entry_data}
use common_lib_go.Xttlmap.Overwrite.{renew, overwrite-Valid, overwrite-max_size}
use common_lib_go.Xttlmap.Recent.{Recent, recent_set}
use common_lib_go.Xttlmap.View.{
  view, view-take, length-view, take_all, length-take, Found, present_or_absent,
}
use common_lib_go.Xttlmap.Evict.{evict-Valid}
use common_lib_go.Xttlmap.Holds.{Holds, length_without, start_cleanup-Holds}

module _ {K V : Type 0} (dec : Discrete K) where
  set_present :
      (fuel : ℕ) (s : TtlMap K V) (k : K) (v : V) (d : Option ℕ) (now : ℕ) (p : Ptr)
      → lookup dec k s.items ≡ some p
      → set_key dec fuel s k v d now ≡ some (overwrite s p v d, false)
  unfolding set_key
  set_present fuel s k v d now p h = ground (arith, h)

  set_absent :
      (fuel : ℕ) (s t : TtlMap K V) (k : K) (v : V) (d : Option ℕ) (now : ℕ)
      → lookup dec k s.items ≡ none
      → evict dec fuel s (minus_one s.max_size) ≡ some t
      → set_key dec fuel s k v d now
        ≡ some (start_cleanup (add_entry dec t (record { key = k; value = v; deadline = d })) now)
  unfolding set_key
  set_absent fuel s t k v d now h e = ground (arith, h, e)

  find-take :
      (k : K) (j : ℕ) (cs : Cells K V) → find dec k cs ≡ none → find dec k (take j cs) ≡ none
  unfolding find
  find-take k zero cs h = refl
  find-take k (suc j) [] h = refl
  find-take k (suc j) (c ∷ cs) h = ground (arith, find-take k j cs)

  module _ {s : TtlMap K V} {m : ℕ} {r : Recent K V} (c : Holds dec s m r) where
    set_new :
        (fuel : ℕ) (k : K) (v : V) (d : Option ℕ) (now : ℕ)
        → 0 < m
        → length r < fuel
        → (lookup dec k s.items ≡ none)
        → (find dec k c.cells ≡ none)
        → (lookup dec k (view c.cells) ≡ none)
        → (t : TtlMap K V) × (started : Bool) × (set_key dec fuel s k v d now ≡ some (t, started))
          × Holds dec t m (recent_set dec m r k v d)
    unfolding recent_set
    set_new fuel k v d now room enough absent no_node no_view =
        let e : Entry K V = record { key = k; value = v; deadline = d } in
        let short : length c.cells < fuel =
          omega (arith, enough, length-view c.cells, ap length c.shows) in
        let (t, a, b, same) = evict-Valid dec fuel (m - 1) s c.cells c.valid short in
        let limit : minus_one s.max_size ≡ pos (m - 1) = ground (arith, c.max_size, room) in
        let t' = add_entry dec t e in
        let kept : view (take (m - 1) c.cells) ≡ take (m - 1) (delete dec k r) =
          view-take (m - 1) c.cells
          ∙ ap (take (m - 1)) (c.shows ∙ sym (delete_absent dec k r (rw (← c.shows) no_view))) in
        let h : Holds dec t' m ((k, (v, d)) ∷ take (m - 1) (delete dec k r)) = record {
          cells = (t.fresh, e) ∷ take (m - 1) c.cells;
          valid =
              add_entry-Valid dec t (take (m - 1) c.cells) e b
                (find-take k (m - 1) c.cells no_node);
          shows = ap (◌∷◌ (k, (v, d))) kept;
          max_size = ground (arith, add_entry_data dec t e, same, c.max_size);
          bounded = omega (arith, length-take (m - 1) (delete dec k r));
        } in
        let run = start_cleanup t' now in
        (
          run.0,
          run.1,
          set_absent fuel s t k v d now absent (rw limit a),
          start_cleanup-Holds dec t' m _ now h,
        )

    set_old :
        (fuel : ℕ) (k : K) (v : V) (d : Option ℕ) (now : ℕ) (p : Ptr) (n : Node K V)
        → Found dec s c.cells k p n
        → (t : TtlMap K V) × (started : Bool) × (set_key dec fuel s k v d now ≡ some (t, started))
          × Holds dec t m (recent_set dec m r k v d)
    unfolding recent_set
    set_old fuel k v d now p n f =
        let shorter = length_without dec k _ (view c.cells) f.shown in
        let fits : length (delete dec k r) ≤ m - 1 =
          rw (← c.shows) (ground (arith, shorter, c.bounded, c.shows)) in
        (
          overwrite s p v d,
          false,
          set_present fuel s k v d now p f.item,
          record {
            cells = to_front p (renew n.entry v d) c.cells;
            valid = overwrite-Valid dec s c.cells p n.entry v d c.valid f.cell;
            shows = rw (f.named, f.without, c.shows, take_all (m - 1) (delete dec k r) fits);
            max_size = overwrite-max_size s p v d ∙ c.max_size;
            bounded = omega (
              arith,
              length-take (m - 1) (delete dec k r),
              shorter,
              c.bounded,
              ap length c.shows,
            );
          },
        )

    -- On a well-formed map with a positive size `m`, `Set` ends, given more fuel than there are
    -- values, and then its key is the most recent one, with the new value and deadline; of the
    -- others the `m - 1` most recent stay. The map stays well-formed.
    pub set_key_lem :
        (fuel : ℕ) (k : K) (v : V) (d : Option ℕ) (now : ℕ)
        → 0 < m
        → length r < fuel
        → (t : TtlMap K V) × (started : Bool) × (set_key dec fuel s k v d now ≡ some (t, started))
          × Holds dec t m (recent_set dec m r k v d)
    set_key_lem fuel k v d now room enough = elim (present_or_absent dec s c.cells k c.valid) [
      | inl (absent, no_node, no_view) ↦ set_new fuel k v d now room enough absent no_node no_view
      | inr (p, n, f) ↦ set_old fuel k v d now p n f
    ]
