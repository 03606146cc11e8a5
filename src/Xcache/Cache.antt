-- ===== src/Xcache/Cache.antt =====
-- `Cache` of xcache/cache.go: 512 buckets, of which the hash of a key says the one it belongs to. The
-- hash `sum64` of the bytes of a key, and the memory of a new chunk, are arguments.
pub mod Calls
pub mod Steps
pub mod History
use common_lib_go.Prelude.{
  ℕ, zero, suc, ◌+◌, ◌-◌, ◌/◌, ◌%◌, Bool, true, false, Option, none, some, ◌⊎◌, inl, inr, List, [],
  ◌∷◌, ◌++◌, ◌&&◌, not, length, ◌==◌, leb, if◌then◌else◌,
}
use common_lib_go.Prelude.Int.{ℤ, pos, negsuc}
use common_lib_go.Xcache.{
  Bytes, Error, zero_max_bytes, Result, ok, err, panic, Items, no_items, Bucket, buckets_count,
  get_locked,
}
use common_lib_go.Xcache.Store.{Stored, set_locked}
use common_lib_go.Xcache.Methods.{
  Failure, Mutation, Updated, Provided, init, reset, del, update, get_set,
}

-- `Cache`; `notify` says that `onEvict` is not nil.
pub record Cache : Type 0 where
  pub buckets : ℕ → Bucket
  pub notify : Bool

-- `c.buckets[i] = b`
unfoldable pub with_bucket : Cache → ℕ → Bucket → Cache
with_bucket c i b = record c { buckets = λ j. if j == i then b else c.buckets j }

-- `New`: every bucket is given the same bytes, so all of them start alike.
unfoldable pub new : ℤ → Bool → Result Cache
unfolding init
new (negsuc n) notify = err zero_max_bytes
new (pos n) notify =
    if n == 0 then err zero_max_bytes else elim (init ((n + buckets_count - 1) / buckets_count)) [
      | ok b ↦ ok (record { buckets = λ i. b; notify = notify })
      | err e ↦ err e
      | panic ↦ panic
    ]

module _ (sum64 : Bytes → ℕ) where
  -- The bucket of a key.
  unfoldable pub bucket_of : Bytes → ℕ
  bucket_of k = sum64 k % buckets_count

  -- `Get`
  unfoldable pub get : Cache → Bytes → Result Bytes
  unfolding bucket_of get_locked
  get c k = get_locked (c.buckets (bucket_of k)) k (sum64 k)

  -- `Del`
  unfoldable pub delete_key : Cache → Bytes → Cache
  unfolding bucket_of del with_bucket
  delete_key c k = with_bucket c (bucket_of k) (del (c.buckets (bucket_of k)) (sum64 k))

  module _ (blank : ℕ → ℕ) where
    -- `Set`; `none` is a panic.
    unfoldable pub set_key : Cache → Bytes → Bytes → Option (Cache × Option Error × Option Items)
    unfolding bucket_of set_locked with_bucket
    set_key c k x = elim (set_locked blank (c.buckets (bucket_of k)) k x (sum64 k) c.notify) [
      | none ↦ none
      | some r ↦ some (with_bucket c (bucket_of k) r.bucket, r.error, r.evicted)
    ]

    -- `Update`
    unfoldable pub update_key :
        {E : Type 0}
        → Cache
        → Bytes
        → (Option Bytes → Option (Mutation E))
        → Option (Cache × Option (Failure E) × Option Items)
    unfolding bucket_of update with_bucket
    update_key c k mutator =
        elim (update blank (c.buckets (bucket_of k)) k (sum64 k) mutator c.notify) [
          | none ↦ none
          | some r ↦ some (with_bucket c (bucket_of k) r.bucket, r.error, r.evicted)
        ]

    -- `GetSet`
    unfoldable pub get_set_key :
        {E : Type 0}
        → Cache
        → Bytes
        → E ⊎ Bytes
        → Option (Cache × (Failure E ⊎ Bytes) × Option Items)
    unfolding bucket_of get_set with_bucket
    get_set_key c k provided =
        elim (get_set blank (c.buckets (bucket_of k)) k (sum64 k) provided c.notify) [
          | none ↦ none
          | some r ↦ some (with_bucket c (bucket_of k) r.bucket, r.value, r.evicted)
        ]

-- The buckets reset in order, from `i` on, and their items.
unfoldable pub reset_from : ℕ → ℕ → (ℕ → Bucket) → Bool → Option ((ℕ → Bucket) × Items)
unfolding reset
reset_from zero i buckets wanted = some (buckets, no_items)
reset_from (suc n) i buckets wanted = elim (reset (buckets i) wanted) [
  | none ↦ none
  | some (b, first) ↦ elim (reset_from n (suc i) (λ j. if j == i then b else buckets j) wanted) [
    | none ↦ none
    | some (after, rest) ↦
        some
          (after, record { keys = first.keys ++ rest.keys; values = first.values ++ rest.values })
  ]
]

-- `Reset`, with the items for `onEvict`, if it is called.
unfoldable pub reset_all : Cache → Option (Cache × Option Items)
unfolding reset_from
reset_all c = elim (reset_from buckets_count 0 c.buckets c.notify) [
  | none ↦ none
  | some (after, i) ↦ some (
    record c { buckets = after },
    (if c.notify && not (length i.keys == 0) then some i else none),
  )
]
