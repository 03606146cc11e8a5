-- ===== src/Xcache/Store.antt =====
-- The writing side of a bucket: `setLocked`, `cleanLocked`, `Update`, `GetSet`, `Del`, `Reset`.
use Prim.Native.Nat.{bit_or}
use common_lib_go.Prelude.{
  ℕ, ◌+◌, ◌*◌, ◌/◌, ◌%◌, ◌^◌, Bool, true, false, ◌&&◌, ◌||◌, Option, none, some, List, [], ◌∷◌,
  ◌==◌, ltb, leb, if◌then◌else◌, length, get_elem?, set, insert, ℕ_discrete,
}
use common_lib_go.Xcache.{
  Bytes, Error, key_len_too_big, val_len_too_big, kv_exceeds_chunk, ok, err, panic, Items, no_items,
  add_item, Chunk, Bucket, chunk_size, bucket_size_bits, max_gen, max_key_len, append, gen_of,
  idx_of, masked_gen, read_item,
}

-- The next generation: never one whose masked bits are 0.
unfoldable pub next_gen : ℕ → ℕ
unfolding masked_gen
next_gen gen = let g = (gen + 1) % 2 ^ 64 in if masked_gen g == 0 then (g + 1) % 2 ^ 64 else g

-- `idx | (b.gen << bucketSizeBits)`
unfoldable pub place_of : ℕ → ℕ → ℕ
place_of idx gen = bit_or idx ((gen * 2 ^ bucket_size_bits) % 2 ^ 64)

-- The test of `cleanLocked`.
unfoldable pub is_kept : Bucket → ℕ → Bool
unfolding gen_of idx_of masked_gen
is_kept b v =
    (((gen_of v + 1 == masked_gen b.gen) || (gen_of v == max_gen && masked_gen b.gen == 1))
      && leb b.idx (idx_of v))
    || (gen_of v == masked_gen b.gen && ltb (idx_of v) b.idx)

unfoldable pub kept_places : Bucket → List (ℕ × ℕ) → List (ℕ × ℕ)
unfolding is_kept
kept_places b [] = []
kept_places b ((h, v) ∷ m) =
    let rest = kept_places b m in if is_kept b v then (h, v) ∷ rest else rest

unfoldable pub dropped_places : Bucket → List (ℕ × ℕ) → List ℕ
unfolding is_kept
dropped_places b [] = []
dropped_places b ((h, v) ∷ m) =
    let rest = dropped_places b m in if is_kept b v then rest else v ∷ rest

-- The pairs at the places that can be read; `none` is a panic.
unfoldable pub read_items : Bucket → List ℕ → Option Items
unfolding read_item
read_items b [] = some no_items
read_items b (v ∷ vs) =
    let rest = read_items b vs in
    elim (read_item b v) [
      | ok (k, x) ↦ elim rest [ none ↦ none | some i ↦ some (add_item k x i) ]
      | err e ↦ rest
      | panic ↦ none
    ]

-- `cleanLocked`, with the items that `onEvict` is called with, if it is called. `notify` says that
-- `onEvict` is not nil.
unfoldable pub clean_locked : Bucket → Bool → Option (Bucket × Option Items)
unfolding kept_places dropped_places read_items
clean_locked b notify =
    let kept = kept_places b b.m in
    let b' : Bucket = elim kept [ [] ↦ b | e ∷ es ↦ record b { m = e ∷ es } ] in
    elim (if notify then dropped_places b b.m else []) [
      | [] ↦ some (b', none)
      | v ∷ vs ↦ elim (read_items b (v ∷ vs)) [ none ↦ none | some i ↦ some (b', some i) ]
    ]

-- `chunks[i] = chunks[i][:0]`
unfoldable pub truncate : List (Option Chunk) → ℕ → Option (List (Option Chunk))
truncate chunks i = elim (get_elem? chunks i) [
  | none ↦ none
  | some none ↦ some chunks
  | some (some c) ↦ some (set chunks i (some (record c { len = 0 })))
]

-- Where the next pair goes, and what its chunks and generation are then.
pub record Spot : Type 0 where
  pub chunks : List (Option Chunk)
  pub idx : ℕ
  pub gen : ℕ
  pub clean : Bool

-- The first part of `setLocked`: a pair of `n` bytes goes on in its chunk if it fits there, else to
-- the next chunk, or back to the first.
unfoldable pub choose_spot : Bucket → ℕ → Option Spot
unfolding truncate next_gen
choose_spot b n =
    let chunk_new = (b.idx + n) / chunk_size in
    if ltb (b.idx / chunk_size) chunk_new
    then (if leb (length b.chunks) chunk_new
        then elim (truncate b.chunks 0) [
          | none ↦ none
          | some cs ↦ some (record { chunks = cs; idx = 0; gen = next_gen b.gen; clean = true })
        ]
        else elim (truncate b.chunks chunk_new) [
          | none ↦ none
          | some cs ↦
              some
                (record { chunks = cs; idx = chunk_new * chunk_size; gen = b.gen; clean = false })
        ])
    else some (record { chunks = b.chunks; idx = b.idx; gen = b.gen; clean = false })

-- `kvLenBuf`
unfoldable pub header : Bytes → Bytes → Bytes
header k x =
    ((length k % 2 ^ 16) / 2 ^ 8)
    ∷ (length k % 2 ^ 8)
    ∷ ((length x % 2 ^ 16) / 2 ^ 8)
    ∷ (length x % 2 ^ 8)
    ∷ []

-- What a set gives: the bucket, an error, and the items handed to `onEvict`, if it is called.
pub record Stored : Type 0 where
  pub bucket : Bucket
  pub error : Option Error
  pub evicted : Option Items

abbrev pub refused : Bucket → Error → Option Stored
refused b e = some (record { bucket = b; error = some e; evicted = none })

module _ (blank : ℕ → ℕ) where
  -- `getChunk()[:0]` for a chunk that is nil
  abbrev pub or_new : Option Chunk → Chunk
  or_new none = record { mem = blank; len = 0 }
  or_new (some c) = c

  unfoldable pub append_pair : Option Chunk → Bytes → Bytes → Chunk
  unfolding append header
  append_pair c k x = append (append (append (or_new c) (header k x)) k) x

  -- The bucket with the pair at the spot; `none` is a panic.
  unfoldable pub put_pair : Bucket → Spot → ℕ → Bytes → Bytes → Option Bucket
  unfolding append_pair place_of
  put_pair b s h k x = elim (get_elem? s.chunks (s.idx / chunk_size)) [
    | none ↦ none
    | some c ↦ some (record {
      chunks = set s.chunks (s.idx / chunk_size) (some (append_pair c k x));
      m = insert ℕ_discrete h (place_of s.idx s.gen) b.m;
      idx = s.idx + (4 + length k + length x);
      gen = s.gen;
    })
  ]

  unfoldable pub set_locked : Bucket → Bytes → Bytes → ℕ → Bool → Option Stored
  unfolding choose_spot put_pair clean_locked
  set_locked b k x h notify =
      if leb max_key_len (length k)
      then refused b key_len_too_big
      else if leb max_key_len (length x)
      then refused b val_len_too_big
      else if leb chunk_size (4 + length k + length x)
      then refused b kv_exceeds_chunk
      else elim (choose_spot b (4 + length k + length x)) [
        | none ↦ none
        | some s ↦ elim (put_pair b s h k x) [
          | none ↦ none
          | some b' ↦
              if s.clean
              then elim (clean_locked b' notify) [
                | none ↦ none
                | some (b'', out) ↦ some (record { bucket = b''; error = none; evicted = out })
              ]
              else some (record { bucket = b'; error = none; evicted = none })
        ]
      ]
