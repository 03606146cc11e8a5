-- ===== src/Xcache/Entries.antt =====
-- The places of the bucket after a pair is put at its spot.
use common_lib_go.Prelude.{
  ℕ, ◌+◌, ◌/◌, ◌%◌, ◌^◌, ◌<◌, ◌≤◌, ◌≡◌, ◌≢◌, sym, ap, subst, ◌∙◌, true, false, Option, some,
  get_elem?, arith, ◌⊎◌, inl, inr, ℕ_discrete, lookup, insert, lookup-insert, lookup-insert_self,
}
use common_lib_go.Prelude.Bits.{and_low}
use common_lib_go.Xcache.{Bytes, Chunk, Bucket, chunk_size, gen_of, idx_of, masked_gen, is_live}
use common_lib_go.Xcache.Store.{place_of, Spot, is_kept, next_gen}
use common_lib_go.Xcache.Memory.{gen_of-place_of}
use common_lib_go.Xcache.Invariant.{
  Written, pair_size, ItemAt, Before, Current, Previous, Valid, is_live-current, is_live-previous,
  live_above, one_size,
}
use common_lib_go.Xcache.Spot.{SameMemory-ItemAt, IsSpot}
use common_lib_go.Xcache.Placed.{placed, new-ItemAt, old-ItemAt}

masked_gen-mod : (n : ℕ) → masked_gen n ≡ n % 2 ^ 24
unfolding masked_gen
masked_gen-mod n = and_low 24 n

-- The masked generations go from 1 to `max_gen`, and back to 1.
pub Before-next_gen :
    (gen : ℕ)
    → 0 < masked_gen gen
    → Before (masked_gen gen) (masked_gen (next_gen gen)) × (0 < masked_gen (next_gen gen))
unfolding next_gen
Before-next_gen gen h = ground (
  arith,
  h,
  masked_gen-mod gen,
  masked_gen-mod ((gen + 1) % 2 ^ 64),
  masked_gen-mod (((gen + 1) % 2 ^ 64 + 1) % 2 ^ 64),
)

-- A generation two back is not kept.
kept_too_old :
    (b : Bucket) (v g : ℕ)
    → Before (gen_of v) g
    → Before g (masked_gen b.gen)
    → is_kept b v ≡ true
    → ⊥
unfolding is_kept
kept_too_old b v g before next kept = ground (arith, before, next, kept)

module _ (blank : ℕ → ℕ) {b : Bucket} {g : Written} {s : Spot} (h : ℕ) (k x : Bytes) (w : Valid b g)
    (p : IsSpot b (pair_size k x) s) (c : Option Chunk)
    (e : get_elem? s.chunks (s.idx / chunk_size) ≡ some c) where
  abbrev pub b' : Bucket
  b' = placed blank b s h k x c

  abbrev pub g' : Written
  g' = insert ℕ_discrete h (k, x) g

  pub idx_small : s.idx < 2 ^ 40
  idx_small = omega (arith, p.inside, p.memory.same_length, w.small)

  pub new_entry : Current b' g' h (place_of s.idx s.gen)
  new_entry =
      let (same, at) = gen_of-place_of s.idx s.gen idx_small in
      (
        k,
        x,
        lookup-insert_self ℕ_discrete h (k, x) g,
        same,
        omega (arith, at),
        subst (λ i. ItemAt b'.chunks i k x) (sym at) (new-ItemAt blank b s k x p c e),
      )

  written_other :
      (j : ℕ) (y : Bytes × Bytes)
      → j ≢ h
      → lookup ℕ_discrete j g ≡ some y
      → lookup ℕ_discrete j g' ≡ some y
  written_other j y other l = ground (arith, l, other, lookup-insert ℕ_discrete j h (k, x) g)

  keep_item :
      (off : ℕ) (y z : Bytes)
      → (off + pair_size y z ≤ s.idx) ⊎ (s.idx + pair_size k x ≤ off)
      → ItemAt b.chunks off y z
      → ItemAt b'.chunks off y z
  keep_item off y z o i =
      old-ItemAt blank b s k x p c e off y z o
        (SameMemory-ItemAt b.chunks s.chunks off y z p.memory i)

  pub stepped : s.gen ≡ next_gen b.gen → Before (masked_gen b.gen) (masked_gen s.gen)
  stepped next =
      subst (λ n. Before (masked_gen b.gen) (masked_gen n)) (sym next)
        (Before-next_gen b.gen w.gen_pos).0

  too_old :
      (v : ℕ)
      → (s.clean ≡ false) ⊎ (is_kept b' v ≡ true)
      → s.clean ≡ true
      → s.gen ≡ next_gen b.gen
      → Before (gen_of v) (masked_gen b.gen)
      → ⊥
  too_old v (inl not_clean) cl next before = ground (arith, cl, not_clean)
  too_old v (inr kept) cl next before =
      kept_too_old b' v (masked_gen b.gen) before (stepped next) kept

  pub old_entry :
      (j v : ℕ)
      → j ≢ h
      → (s.clean ≡ false) ⊎ (is_kept b' v ≡ true)
      → Current b g j v ⊎ Previous b g j v
      → Current b' g' j v ⊎ Previous b' g' j v
  old_entry j v other stays entry = go p.onward entry
    where
      go :
          ((s.clean ≡ false) × (s.gen ≡ b.gen) × (b.idx ≤ s.idx))
            ⊎ ((s.clean ≡ true) × (s.gen ≡ next_gen b.gen) × (s.idx ≡ 0))
          → Current b g j v ⊎ Previous b g j v
          → Current b' g' j v ⊎ Previous b' g' j v
      go (inl (_, same, on)) (inl (y, z, l, gen, below, i)) = inl (
        y,
        z,
        written_other j (y, z) other l,
        gen ∙ ap masked_gen (sym same),
        omega arith,
        keep_item (idx_of v) y z (inl (omega arith)) i,
      )
      go (inl (_, same, on)) (inr (before, rest)) = inr (
        subst (λ n. Before (gen_of v) (masked_gen n)) (sym same) before,
        λ le.
            let (y, z, l, i) = rest (omega arith) in
            (y, z, written_other j (y, z) other l, keep_item (idx_of v) y z (inr le) i),
      )
      go (inr (cl, next, zero')) (inl (y, z, l, gen, below, i)) = inr (
        subst (λ q. Before q (masked_gen s.gen)) (sym gen) (stepped next),
        λ le. (y, z, written_other j (y, z) other l, keep_item (idx_of v) y z (inr le) i),
      )
      go (inr (cl, next, zero')) (inr (before, rest)) = absurd (too_old v stays cl next before)

  -- An older pair that is live afterwards was live before, and is clear of the new one.
  pub old_side :
      (j v : ℕ) (y z : Bytes)
      → lookup ℕ_discrete j g ≡ some (y, z)
      → (s.clean ≡ false) ⊎ (is_kept b' v ≡ true)
      → Current b g j v ⊎ Previous b g j v
      → is_live b' v ≡ true
      → (is_live b v ≡ true)
        × ((idx_of v + pair_size y z ≤ s.idx) ⊎ (s.idx + pair_size k x ≤ idx_of v))
  old_side j v y z l stays entry live = go p.onward entry
    where
      go :
          ((s.clean ≡ false) × (s.gen ≡ b.gen) × (b.idx ≤ s.idx))
            ⊎ ((s.clean ≡ true) × (s.gen ≡ next_gen b.gen) × (s.idx ≡ 0))
          → Current b g j v ⊎ Previous b g j v
          → (is_live b v ≡ true)
            × ((idx_of v + pair_size y z ≤ s.idx) ⊎ (s.idx + pair_size k x ≤ idx_of v))
      go (inl (_, same, on)) (inl (y', z', l', gen, below, i)) = (
        is_live-current b v gen (omega (arith, below)),
        inl (omega (arith, below, on, one_size g j y z y' z' l l')),
      )
      go (inl (_, same, on)) (inr (before, rest)) =
          let above =
            live_above b' v (subst (λ n. Before (gen_of v) (masked_gen n)) (sym same) before)
              live in
          (is_live-previous b v before (omega (arith, above, on)), inr above)
      go (inr (cl, next, zero')) (inl (y', z', l', gen, below, i)) =
          let above =
            live_above b' v (subst (λ q. Before q (masked_gen s.gen)) (sym gen) (stepped next))
              live in
          (is_live-current b v gen (omega (arith, below)), inr above)
      go (inr (cl, next, zero')) (inr (before, rest)) = absurd (too_old v stays cl next before)
