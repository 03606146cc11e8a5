-- ===== src/Xttlmap/Cleanup.antt =====
-- `Resize` and `cleanupExpired`, as the list of the most recently used sees them.
use common_lib_go.Prelude.{
  ℕ, ◌<◌, ◌≤◌, ◌≡◌, refl, sym, ◌∙◌, ap, subst, inl, inr, true, false, Bool-cases, Option-cases,
  none, some, List, [], ◌∷◌, arith, Distinct, lookup, length, if◌then◌else◌, take, ltb,
}
use common_lib_go.Xttlmap.{Ptr, Node, Heap, TtlMap, drop_node, resize, expired, drop_expired}
use common_lib_go.Prelude.Int.{pos}
use common_lib_go.Xttlmap.{sweep, expired_keys, cleanup_expired}
use common_lib_go.Xttlmap.Recent.{Recent, past, recent_live}
use common_lib_go.Xttlmap.View.{
  view-take, length-view, take_all, length-take, present_or_absent, view-Distinct,
}
use common_lib_go.Xttlmap.Evict.{evict-Valid}
use common_lib_go.Xttlmap.Holds.{Holds, drop-Holds, flags-Valid, flags-Holds}
use common_lib_go.Xttlmap.Live.{In, drop_past, drop_all, Listed, drop_all_live}

module _ {K V : Type 0} (dec : Discrete K) where
  In-expired_keys :
      (h : Heap K V) (m : List (K × Ptr)) (k : K) (p : Ptr) (n : Node K V) (now : ℕ)
      → lookup dec k m ≡ some p
      → h p ≡ some n
      → past n.entry.deadline now ≡ true
      → In k (expired_keys dec h m now)
  unfolding expired_keys expired lookup
  In-expired_keys h [] k p n now i a old = cc
  In-expired_keys h ((j, q) ∷ m) k p n now i a old = elim (Option-cases (h q)) [
    | inl nil ↦ ground (arith, nil, i, a, old, In-expired_keys h m k p n now)
    | inr (x, here) ↦ ground (arith, here, i, a, old, In-expired_keys h m k p n now)
  ]

  drop_expired_eq :
      (s : TtlMap K V) (k : K) (now : ℕ) (p : Ptr) (n : Node K V)
      → lookup dec k s.items ≡ some p
      → s.nodes p ≡ some n
      → drop_expired dec s k now ≡ (if past n.entry.deadline now then drop_node dec s p else s)
  unfolding drop_expired expired
  drop_expired_eq s k now p n i a = ground (arith, i, a)

  drop_expired_absent :
      (s : TtlMap K V) (k : K) (now : ℕ)
      → lookup dec k s.items ≡ none
      → drop_expired dec s k now ≡ s
  unfolding drop_expired
  drop_expired_absent s k now i = ground (arith, i)

  drop_expired-Holds :
      {s : TtlMap K V} {m : ℕ} {r : Recent K V} (c : Holds dec s m r) (k : K) (now : ℕ)
      → Holds dec (drop_expired dec s k now) m (drop_past dec now r k)
  drop_expired-Holds {s} {m} {r} c k now = elim (present_or_absent dec s c.cells k c.valid) [
    | inl (absent, no_node, no_view) ↦
        let no_value : lookup dec k r ≡ none = rw (← c.shows) no_view in
        rw (drop_expired_absent s k now absent, drop_past, no_value) c
    | inr (p, n, f) ↦
        let shown : lookup dec k r ≡ some (n.entry.value, n.entry.deadline) =
          rw (← c.shows) f.shown in
        rw (drop_expired_eq s k now p n f.item f.at, drop_past, shown)
          (elim (Bool-cases (past n.entry.deadline now)) [
            | inl old ↦ rw old (drop-Holds dec c k p n f)
            | inr live ↦ rw live c
          ])
  ]

  sweep-Holds :
      (ks : List K) (now : ℕ) {s : TtlMap K V} {m : ℕ} {r : Recent K V}
      → Holds dec s m r
      → Holds dec (sweep dec s ks now) m (drop_all dec now r ks)
  unfolding sweep drop_all
  sweep-Holds [] now c = c
  sweep-Holds (k ∷ ks) now c = sweep-Holds ks now (drop_expired-Holds c k now)

  module _ {s : TtlMap K V} {m : ℕ} {r : Recent K V} (c : Holds dec s m r) where
    expired_keys-Listed : (now : ℕ) → Listed dec now (expired_keys dec s.nodes s.items now) r
    expired_keys-Listed now k v d h old = elim (present_or_absent dec s c.cells k c.valid) [
      | inl (absent, no_node, no_view) ↦ absurd (ground (arith, h, no_view, c.shows))
      | inr (p, n, f) ↦
          In-expired_keys s.nodes s.items k p n now f.item f.at
            (ground (arith, f.shown, c.shows, h, old))
    ]

    -- On a well-formed map a cleanup at the time `now` takes out exactly the values whose deadline
    -- has passed, and leaves the others in their order. The map stays well-formed.
    pub cleanup_expired_lem :
        (now : ℕ) → Holds dec (cleanup_expired dec s now) m (recent_live now r)
    unfolding cleanup_expired
    cleanup_expired_lem now =
        let ks = expired_keys dec s.nodes s.items now in
        let t = sweep dec s ks now in
        let exact =
          drop_all_live dec now ks r (subst Distinct c.shows (view-Distinct c.cells c.valid.keys))
            (expired_keys-Listed now) in
        flags-Holds dec t m (recent_live now r) false t.last_cleanup
          (subst (Holds dec t m) exact (sweep-Holds ks now c))

    -- On a well-formed map `Resize` to a size that is not negative ends, given more fuel than there
    -- are values, and keeps the most recent ones, as many as fit. The map stays well-formed.
    pub resize_lem :
        (fuel m' : ℕ)
        → length r < fuel
        → (t : TtlMap K V) × (resize dec fuel s (pos m') ≡ some t) × Holds dec t m' (take m' r)
    unfolding resize
    resize_lem fuel m' enough = elim (Bool-cases (ltb m' m)) [
      | inl smaller ↦
          let short : length c.cells < fuel =
            omega (arith, enough, length-view c.cells, ap length c.shows) in
          let (t, a, b, same) = evict-Valid dec fuel m' s c.cells c.valid short in
          (
            record t { max_size = pos m' },
            ground (arith, c.max_size, smaller, a),
            record {
              cells = take m' c.cells;
              valid = flags-Valid dec t (take m' c.cells) t.cleaning t.last_cleanup (pos m') b;
              shows = view-take m' c.cells ∙ ap (take m') c.shows;
              max_size = refl;
              bounded = length-take m' r;
            },
          )
      | inr larger ↦
          let fits : length r ≤ m' = ground (arith, larger, c.bounded) in
          (
            record s { max_size = pos m' },
            ground (arith, c.max_size, larger),
            record {
              cells = c.cells;
              valid = flags-Valid dec s c.cells s.cleaning s.last_cleanup (pos m') c.valid;
              shows = c.shows ∙ sym (take_all m' r fits);
              max_size = refl;
              bounded = length-take m' r;
            },
          )
    ]
