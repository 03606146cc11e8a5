-- ===== src/Xttlmap/Holds.antt =====
-- A well-formed map and the values that it shows.
use common_lib_go.Prelude.{
  ℕ, ◌+◌, ◌-◌, ◌≤◌, ◌≡◌, refl, ◌∙◌, ap, inl, inr, Bool, true, Bool-cases, Option, some, [], ◌∷◌,
  arith, ℕ_discrete, delete, lookup, length, ltb, not, ◌&&◌, length-delete,
}
use common_lib_go.Xttlmap.{Ptr, Node, TtlMap, move_to_front, drop_node, new, start_cleanup, second}
use common_lib_go.Prelude.Int.{ℤ, pos}
use common_lib_go.Xttlmap.Dll.{Cells}
use common_lib_go.Xttlmap.Front.{move_to_front-SameData, to_front}
use common_lib_go.Xttlmap.Valid.{
  Valid, new-Valid, drop_node-Valid, drop_node-max_size, move_to_front-Valid,
}
use common_lib_go.Xttlmap.Recent.{Recent}
use common_lib_go.Xttlmap.View.{view, Found}

-- The map is a well-formed one that shows the values `r`, most recent first, of which it may have `m`.
pub record Holds {K V : Type 0} (dec : Discrete K) (s : TtlMap K V) (m : ℕ) (r : Recent K V)
    : Type 0 where
  pub cells : Cells K V
  pub valid : Valid dec s cells
  pub shows : view cells ≡ r
  pub max_size : s.max_size ≡ pos m
  pub bounded : length r ≤ m

module _ {K V : Type 0} (dec : Discrete K) where
  pub length_without :
      (k : K) (x : V × Option ℕ) (r : Recent K V)
      → lookup dec k r ≡ some x
      → length (delete dec k r) + 1 ≡ length r
  length_without k x r h = length-delete dec k x r h

  -- The invariant does not depend on the cleanup or the size limit.
  pub flags-Valid :
      (t : TtlMap K V) (cs : Cells K V) (b : Bool) (at : ℕ) (z : ℤ)
      → Valid dec t cs
      → Valid dec (record t { cleaning = b; last_cleanup = at; max_size = z }) cs
  flags-Valid t cs b at z v =
      let l = v.links in
      record {
        links = record { linked = l.linked; head = l.head; tail = l.tail; distinct = l.distinct };
        items_distinct = v.items_distinct;
        index = v.index;
        keys = v.keys;
        count = v.count;
        below = v.below;
      }

  pub flags-Holds :
      (t : TtlMap K V) (m : ℕ) (r : Recent K V) (b : Bool) (at : ℕ)
      → Holds dec t m r
      → Holds dec (record t { cleaning = b; last_cleanup = at }) m r
  flags-Holds t m r b at h = record {
    cells = h.cells;
    valid = flags-Valid t h.cells b at t.max_size h.valid;
    shows = h.shows;
    max_size = h.max_size;
    bounded = h.bounded;
  }

  pub start_cleanup-Holds :
      (t : TtlMap K V) (m : ℕ) (r : Recent K V) (now : ℕ)
      → Holds dec t m r
      → Holds dec (start_cleanup t now).0 m r
  unfolding start_cleanup
  start_cleanup-Holds t m r now h =
      elim (Bool-cases (ltb second (now - t.last_cleanup) && not t.cleaning)) [
        | inl go ↦ rw go (flags-Holds t m r true now h)
        | inr stay ↦ rw stay h
      ]

  -- A new map of a size that is not negative has no value.
  pub new-Holds : (m now : ℕ) → Holds {V = V} dec (new (pos m) now) m []
  unfolding new
  new-Holds m now = record {
    cells = [];
    valid = new-Valid dec (pos m) now;
    shows = refl;
    max_size = refl;
    bounded = omega arith;
  }

  module _ {s : TtlMap K V} {m : ℕ} {r : Recent K V} (c : Holds dec s m r) where
    pub drop-Holds :
        (k : K) (p : Ptr) (n : Node K V)
        → Found dec s c.cells k p n
        → Holds dec (drop_node dec s p) m (delete dec k r)
    drop-Holds k p n f =
        let shorter = length_without k _ (view c.cells) f.shown in
        record {
          cells = delete ℕ_discrete p c.cells;
          valid = drop_node-Valid dec s c.cells p n.entry c.valid f.cell;
          shows = f.without ∙ ap (delete dec k) c.shows;
          max_size = drop_node-max_size dec s p ∙ c.max_size;
          bounded = rw (← c.shows) (ground (arith, shorter, c.bounded, c.shows));
        }

    pub move-Holds :
        (k : K) (p : Ptr) (n : Node K V)
        → Found dec s c.cells k p n
        → Holds dec (move_to_front s p) m ((k, (n.entry.value, n.entry.deadline)) ∷ delete dec k r)
    move-Holds k p n f =
        let shorter = length_without k _ (view c.cells) f.shown in
        record {
          cells = to_front p n.entry c.cells;
          valid = move_to_front-Valid dec s c.cells p n.entry c.valid f.cell;
          shows = rw (f.named, f.without, c.shows);
          max_size = (move_to_front-SameData s p).max_size ∙ c.max_size;
          bounded = rw (← c.shows) (ground (arith, shorter, c.bounded, c.shows));
        }
