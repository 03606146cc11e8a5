-- ===== src/Xttlmap/Methods.antt =====
-- `Get` and `Delete` do what the list of the most recently used promises.
use common_lib_go.Prelude.{
  ℕ, ◌≡◌, refl, inl, inr, true, false, Bool-cases, none, some, arith, delete, lookup, delete_absent,
}
use common_lib_go.Xttlmap.{
  Ptr, Node, TtlMap, move_to_front, drop_node, get, delete_key, expired, get_finish, get_node,
  drop_expired,
}
use common_lib_go.Xttlmap.Recent.{
  Recent, past, recent_get, recent_get_absent, recent_get_old, recent_get_live,
}
use common_lib_go.Xttlmap.View.{present_or_absent}
use common_lib_go.Xttlmap.Holds.{Holds, start_cleanup-Holds, drop-Holds, move-Holds}

module _ {K V : Type 0} (dec : Discrete K) where
  get_absent :
      (s : TtlMap K V) (k : K) (now : ℕ) → lookup dec k s.items ≡ none → get dec s k now ≡ (s, none)
  unfolding get get_node get_finish
  get_absent s k now h = ground (arith, h)

  get_old :
      (s : TtlMap K V) (k : K) (now : ℕ) (p : Ptr) (n : Node K V)
      → lookup dec k s.items ≡ some p
      → s.nodes p ≡ some n
      → past n.entry.deadline now ≡ true
      → get dec s k now ≡ (drop_node dec s p, none)
  unfolding get get_node get_finish drop_expired expired
  get_old s k now p n h at old = ground (arith, h, at, old)

  get_live :
      (s : TtlMap K V) (k : K) (now : ℕ) (p : Ptr) (n : Node K V)
      → lookup dec k s.items ≡ some p
      → s.nodes p ≡ some n
      → past n.entry.deadline now ≡ false
      → get dec s k now ≡ (move_to_front s p, some n.entry.value)
  unfolding get get_node get_finish drop_expired expired
  get_live s k now p n h at old = ground (arith, h, at, old)

  module _ {s : TtlMap K V} {m : ℕ} {r : Recent K V} (c : Holds dec s m r) where
    -- On a well-formed map `Get` returns the value of a key whose deadline has not passed and makes
    -- it the most recent; a value whose deadline has passed is not returned and is taken out. The
    -- map stays well-formed.
    pub get_lem :
        (k : K) (now : ℕ)
        → ((get dec s k now).1 ≡ (recent_get dec r k now).1)
          × Holds dec (get dec s k now).0 m (recent_get dec r k now).0
    get_lem k now = elim (present_or_absent dec s c.cells k c.valid) [
      | inl (absent, no_node, no_view) ↦
          rw (get_absent s k now absent, recent_get_absent dec r k now (rw (← c.shows) no_view))
            (refl, c)
      | inr (p, n, f) ↦
          let shown : lookup dec k r ≡ some (n.entry.value, n.entry.deadline) =
            rw (← c.shows) f.shown in
          elim (Bool-cases (past n.entry.deadline now)) [
            | inl old ↦
                rw (get_old s k now p n f.item f.at old, recent_get_old dec r k now _ _ shown old)
                  (refl, drop-Holds dec c k p n f)
            | inr live ↦
                rw
                  (
                    get_live s k now p n f.item f.at live,
                    recent_get_live dec r k now _ _ shown live,
                  )
                  (refl, move-Holds dec c k p n f)
          ]
    ]

    -- On a well-formed map `Delete` takes its key out, if it is there, and changes nothing else of
    -- what the map shows. The map stays well-formed.
    pub delete_key_lem : (k : K) (now : ℕ) → Holds dec (delete_key dec s k now).0 m (delete dec k r)
    unfolding delete_key
    delete_key_lem k now =
        start_cleanup-Holds dec _ m (delete dec k r) now
          (elim (present_or_absent dec s c.cells k c.valid) [
            | inl (absent, no_node, no_view) ↦
                rw (absent, delete_absent dec k r (rw (← c.shows) no_view)) c
            | inr (p, n, f) ↦ rw (f.item) (drop-Holds dec c k p n f)
          ])
