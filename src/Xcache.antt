-- ===== src/Xcache.antt =====
-- xcache/cache.go: a cache of byte strings whose memory is a ring of chunks. A chunk is its 64 KB of
-- memory and the length of the slice; slicing up to the capacity is allowed, so a read may go beyond
-- the length. Which memory `getChunk` hands out is an argument, and `panic` is a run-time panic. The
-- mutex makes each method one step; the order of a Go map is that of the association list.
pub mod Store
pub mod Memory
pub mod Invariant
pub mod Read
pub mod Clean
pub mod Spot
pub mod Write
pub mod Placed
pub mod Entries
pub mod Placement
pub mod SetLocked
pub mod Methods
pub mod Cache
pub mod Laws
pub mod GetSet
pub mod Rewrite
pub mod Edited
pub mod Update
pub mod Outcomes
pub mod Flush
mod Tests
use Prim.Native.Nat.{bit_and, bit_or}
use common_lib_go.Prelude.{
  ℕ, zero, suc, ◌+◌, ◌-◌, ◌*◌, ◌/◌, ◌%◌, ◌^◌, Bool, true, false, not, ◌&&◌, ◌||◌, Option, none,
  some, List, [], ◌∷◌, ◌==◌, ltb, leb, if◌then◌else◌, length, get_elem?, get_or, set, replicate,
  map, lookup, insert, delete, ℕ_discrete,
}

abbrev pub Bytes : Type 0
Bytes = List ℕ

abbrev pub buckets_count : ℕ
buckets_count = 512

abbrev pub chunk_size : ℕ
chunk_size = 65_536

abbrev pub bucket_size_bits : ℕ
bucket_size_bits = 40

abbrev pub gen_size_bits : ℕ
gen_size_bits = 24

abbrev pub max_gen : ℕ
max_gen = 2 ^ gen_size_bits - 1

abbrev pub max_bucket_size : ℕ
max_bucket_size = 2 ^ bucket_size_bits

abbrev pub max_key_len : ℕ
max_key_len = 65_536

pub data Error : Type 0 where
  no_data corrupted_data key_len_too_big val_len_too_big kv_exceeds_chunk zero_max_bytes
        big_max_bytes :
      Error

pub data Result {ℓ} (A : Type ℓ) : Type ℓ where
  ok : A → Result A
  err : Error → Result A
  panic : Result A

-- `Items`
pub record Items : Type 0 where
  pub keys : List Bytes
  pub values : List Bytes

abbrev pub no_items : Items
no_items = record { keys = []; values = [] }

abbrev pub add_item : Bytes → Bytes → Items → Items
add_item k v i = record { keys = k ∷ i.keys; values = v ∷ i.values }

pub record Chunk : Type 0 where
  pub mem : ℕ → ℕ
  pub len : ℕ

-- `bucket`; `m` leads from the hash of a key to the place of its pair.
pub record Bucket : Type 0 where
  pub chunks : List (Option Chunk)
  pub m : List (ℕ × ℕ)
  pub idx : ℕ
  pub gen : ℕ

-- `mem[a : a + n]`
abbrev pub slice : (ℕ → ℕ) → ℕ → ℕ → Bytes
slice mem a zero = []
slice mem a (suc n) = mem a ∷ slice mem (suc a) n

unfoldable pub write : (ℕ → ℕ) → ℕ → Bytes → ℕ → ℕ
write mem a bs j = if leb a j && ltb j (a + length bs) then get_or bs (j - a) 0 else mem j

unfoldable pub append : Chunk → Bytes → Chunk
unfolding write
append c bs = record { mem = write c.mem c.len bs; len = c.len + length bs }

abbrev pub same_bytes : Bytes → Bytes → Bool
same_bytes [] [] = true
same_bytes (a ∷ as') (b ∷ bs) = let rest = same_bytes as' bs in if a == b then rest else false
same_bytes _ _ = false

-- The generation and the index in a place.
unfoldable pub gen_of : ℕ → ℕ
gen_of v = v / 2 ^ bucket_size_bits

unfoldable pub idx_of : ℕ → ℕ
idx_of v = bit_and v (max_bucket_size - 1)

unfoldable pub masked_gen : ℕ → ℕ
masked_gen gen = bit_and gen max_gen

unfoldable pub is_live : Bucket → ℕ → Bool
unfolding gen_of idx_of masked_gen
is_live b v =
    (gen_of v == masked_gen b.gen && ltb (idx_of v) b.idx)
    || ((gen_of v + 1 == masked_gen b.gen) && leb b.idx (idx_of v))
    || ((gen_of v == max_gen && masked_gen b.gen == 1) && leb b.idx (idx_of v))

-- A pair in memory: where its key begins, and the lengths.
pub record Pair : Type 0 where
  pub mem : ℕ → ℕ
  pub start : ℕ
  pub key_len : ℕ
  pub val_len : ℕ

-- The two bytes of a length.
abbrev pub len_at : (ℕ → ℕ) → ℕ → ℕ
len_at mem i = bit_or (mem i * 2 ^ 8) (mem (i + 1))

-- What `readItem` and `getLocked` do up to the key.
unfoldable pub locate : Bucket → ℕ → Result Pair
unfolding is_live idx_of
locate b v =
    if not (is_live b v) then err no_data else elim (get_elem? b.chunks (idx_of v / chunk_size)) [
      | none ↦ err corrupted_data
      | some chunk ↦
          let i = idx_of v % chunk_size in
          if leb chunk_size (i + 4) then err corrupted_data else elim chunk [
            | none ↦ panic
            | some c ↦
                let key_len = len_at c.mem i in
                let val_len = len_at c.mem (i + 2) in
                if leb chunk_size (i + 4 + key_len + val_len)
                then err corrupted_data
                else ok
                    (record { mem = c.mem; start = i + 4; key_len = key_len; val_len = val_len })
          ]
    ]

abbrev pub key_of : Pair → Bytes
key_of p = slice p.mem p.start p.key_len

abbrev pub value_of : Pair → Bytes
value_of p = slice p.mem (p.start + p.key_len) p.val_len

unfoldable pub read_item : Bucket → ℕ → Result (Bytes × Bytes)
unfolding locate
read_item b v = elim (locate b v) [
  | ok p ↦ ok (key_of p, value_of p)
  | err e ↦ err e
  | panic ↦ panic
]

-- `getLocked`, up to the copy of the value.
unfoldable pub find_pair : Bucket → Bytes → ℕ → Result Pair
unfolding locate
find_pair b k h = elim (lookup ℕ_discrete h b.m) [
  | none ↦ err no_data
  | some v ↦ if v == 0 then err no_data else elim (locate b v) [
    | ok p ↦ if same_bytes k (key_of p) then ok p else err no_data
    | err e ↦ err e
    | panic ↦ panic
  ]
]

unfoldable pub get_locked : Bucket → Bytes → ℕ → Result Bytes
unfolding find_pair
get_locked b k h = elim (find_pair b k h) [ ok p ↦ ok (value_of p) | err e ↦ err e | panic ↦ panic ]
