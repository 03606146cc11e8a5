-- ===== src/Xttlmap/Hang.antt =====
-- Calls that never end: no node can be evicted to get below a size of 0 or less.
use common_lib_go.Prelude.{ℕ, zero, suc, ◌+◌, ◌≡◌, refl, true, Option, none, arith, lookup}
use common_lib_go.Xttlmap.{TtlMap, evict, remove_oldest, set_key, resize, minus_one}
use common_lib_go.Prelude.Int.{ℤ, pos, negsuc, ltb_ℤ}
use common_lib_go.Prelude.Int.{◌≤ℤ◌}

module _ {K V : Type 0} (dec : Discrete K) where
  -- The loop goes on for a negative limit, whatever the map has.
  evict_negative : (fuel n : ℕ) (s : TtlMap K V) → evict dec fuel s (negsuc n) ≡ none
  unfolding evict
  evict_negative zero n s = refl
  evict_negative (suc fuel) n s = ground (arith, evict_negative fuel n (remove_oldest dec s))

  -- In a map with a size of 0 or less, as `New(0)` makes it, `Set` of a new key never ends: no
  -- amount of fuel is enough. A `Resize` of any map to a smaller, negative size does not end either.
  pub never_ends :
      (s : TtlMap K V) (fuel : ℕ) (k : K) (v : V) (d : Option ℕ) (now n : ℕ)
      → s.max_size ≤ℤ pos 0
      → lookup dec k s.items ≡ none
      → (t : TtlMap K V) → ltb_ℤ (negsuc n) t.max_size ≡ true
      → (set_key dec fuel s k v d now ≡ none) × (resize dec fuel t (negsuc n) ≡ none)
  unfolding set_key resize
  never_ends s fuel k v d now n small absent t smaller =
      let (j, limit) = negative s.max_size small in
      (
        ground (arith, absent, limit, evict_negative fuel j s),
        ground (arith, smaller, evict_negative fuel n t),
      )
    where
      negative : (z : ℤ) → z ≤ℤ pos 0 → (j : ℕ) × (minus_one z ≡ negsuc j)
      negative (pos zero) h = (0, refl)
      negative (pos (suc z)) h = absurd (omega arith)
      negative (negsuc z) h = (z + 1, refl)
