-- ===== src/Xcache/Invariant.antt =====
-- What every reachable bucket satisfies, beside the pairs that were written last for each hash.
use common_lib_go.Prelude.{
  ℕ, ◌+◌, ◌*◌, ◌/◌, ◌%◌, ◌^◌, ◌<◌, ◌≤◌, ◌≡◌, ◌≢◌, sym, ap, ◌∙◌, true, Option, none, some, List,
  length, get_elem?, arith, ◌⊎◌, inl, inr, ℕ_discrete, lookup, Distinct,
}
use common_lib_go.Prelude.Bits.{and_low}
use common_lib_go.Xcache.{
  Bytes, Chunk, Bucket, chunk_size, max_gen, gen_of, idx_of, masked_gen, is_live,
}
use common_lib_go.Xcache.Store.{header}
use common_lib_go.Xcache.Memory.{Holds}

-- The last pair that was written for each hash.
abbrev pub Written : Type 0
Written = List (ℕ × (Bytes × Bytes))

abbrev pub pair_size : Bytes → Bytes → ℕ
pair_size k x = 4 + length k + length x

-- The pair stands in memory at the index, within one chunk.
pub record ItemAt (chunks : List (Option Chunk)) (off : ℕ) (k x : Bytes) : Type 0 where
  pub chunk : Chunk
  pub at : get_elem? chunks (off / chunk_size) ≡ some (some chunk)
  pub head : Holds chunk.mem (off % chunk_size) (header k x)
  pub key : Holds chunk.mem (off % chunk_size + 4) k
  pub value : Holds chunk.mem (off % chunk_size + 4 + length k) x
  pub fits : off % chunk_size + pair_size k x < chunk_size

-- `p` is the generation before `g`.
abbrev pub Before : ℕ → ℕ → Type 0
Before p g = ((p + 1 ≡ g) × (0 < p)) ⊎ ((p ≡ max_gen) × (g ≡ 1))

-- A place of this generation has its pair below `b.idx`.
abbrev pub Current : Bucket → Written → ℕ → ℕ → Type 0
Current b g h v =
    (k : Bytes) × (x : Bytes) × (lookup ℕ_discrete h g ≡ some (k, x))
    × (gen_of v ≡ masked_gen b.gen)
    × (idx_of v + pair_size k x ≤ b.idx)
    × ItemAt b.chunks (idx_of v) k x

-- A place of the generation before has its pair, if that is not overwritten.
abbrev pub Previous : Bucket → Written → ℕ → ℕ → Type 0
Previous b g h v =
    Before (gen_of v) (masked_gen b.gen)
    × (b.idx ≤ idx_of v
        → (k : Bytes) × (x : Bytes) × (lookup ℕ_discrete h g ≡ some (k, x))
          × ItemAt b.chunks (idx_of v) k x)

-- How long the slice of a chunk is.
abbrev pub filled : Option Chunk → ℕ
filled none = 0
filled (some c) = c.len

-- Two live pairs share no memory.
abbrev pub Apart : Bucket → Written → ℕ → ℕ → ℕ → ℕ → Type 0
Apart b g h v j w =
    (k x y z : Bytes)
    → lookup ℕ_discrete h g ≡ some (k, x)
    → lookup ℕ_discrete j g ≡ some (y, z)
    → is_live b v ≡ true
    → is_live b w ≡ true
    → (idx_of v + pair_size k x ≤ idx_of w) ⊎ (idx_of w + pair_size y z ≤ idx_of v)

pub record Valid (b : Bucket) (g : Written) : Type 0 where
  pub gen_pos : 0 < masked_gen b.gen
  pub index : b.idx / chunk_size < length b.chunks
  pub small : length b.chunks * chunk_size ≤ 2 ^ 40
  pub position :
      (c : Option Chunk)
      → get_elem? b.chunks (b.idx / chunk_size) ≡ some c
      → filled c ≡ b.idx % chunk_size
  pub distinct : Distinct b.m
  pub entries : (h v : ℕ) → lookup ℕ_discrete h b.m ≡ some v → Current b g h v ⊎ Previous b g h v
  pub apart :
      (h v j w : ℕ)
      → h ≢ j
      → lookup ℕ_discrete h b.m ≡ some v
      → lookup ℕ_discrete j b.m ≡ some w
      → Apart b g h v j w

pub masked_gen-lt : (gen : ℕ) → masked_gen gen < 2 ^ 24
unfolding masked_gen
masked_gen-lt gen = omega (arith, and_low 24 gen)

-- A place that is live has its pair.
pub live-ItemAt :
    (b : Bucket) (g : Written) (h v : ℕ)
    → Current b g h v ⊎ Previous b g h v
    → is_live b v ≡ true
    → (k : Bytes) × (x : Bytes) × (lookup ℕ_discrete h g ≡ some (k, x))
      × ItemAt b.chunks (idx_of v) k x
unfolding is_live
live-ItemAt b g h v (inl (k, x, w, same, below, i)) live = (k, x, w, i)
live-ItemAt b g h v (inr (before, rest)) live =
    rest (ground (arith, live, before, masked_gen-lt b.gen))

-- Which places are live.
pub is_live-current :
    (b : Bucket) (v : ℕ) → gen_of v ≡ masked_gen b.gen → idx_of v < b.idx → is_live b v ≡ true
unfolding is_live
is_live-current b v same below = ground (arith, same, below)

pub is_live-previous :
    (b : Bucket) (v : ℕ)
    → Before (gen_of v) (masked_gen b.gen)
    → b.idx ≤ idx_of v
    → is_live b v ≡ true
unfolding is_live
is_live-previous b v before above = ground (arith, before, above)

pub live_above :
    (b : Bucket) (v : ℕ)
    → Before (gen_of v) (masked_gen b.gen)
    → is_live b v ≡ true
    → b.idx ≤ idx_of v
unfolding is_live
live_above b v before live = ground (arith, live, before)

-- What is written for a hash has one size.
pub one_size :
    (g : Written) (h : ℕ) (k x y z : Bytes)
    → lookup ℕ_discrete h g ≡ some (k, x)
    → lookup ℕ_discrete h g ≡ some (y, z)
    → pair_size k x ≡ pair_size y z
one_size g h k x y z e f = ap size (sym e ∙ f)
  where
    size : Option (Bytes × Bytes) → ℕ
    size none = 0
    size (some (a, c)) = pair_size a c
