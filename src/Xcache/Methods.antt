-- ===== src/Xcache/Methods.antt =====
-- The other methods of `bucket` of xcache/cache.go. The mutator and the provider are arguments; `E` is
-- what they may fail with, other than with the errors of the cache.
use common_lib_go.Prelude.{
  ℕ, ◌+◌, ◌-◌, ◌/◌, Bool, Option, none, some, ◌⊎◌, inl, inr, [], ◌∷◌, ◌==◌, leb, if◌then◌else◌,
  length, get_elem?, set, replicate, map, lookup, delete, ℕ_discrete,
}
use common_lib_go.Xcache.{
  Bytes, Error, no_data, zero_max_bytes, big_max_bytes, Result, ok, err, panic, Items, no_items,
  Bucket, Pair, chunk_size, max_bucket_size, write, idx_of, find_pair, get_locked, value_of,
}
use common_lib_go.Xcache.Store.{set_locked, read_items}

-- An error of the cache, or one of a callback.
pub data Failure (E : Type 0) : Type 0 where
  own : Error → Failure E
  callback : E → Failure E

-- What a `Mutator` does: the bytes it leaves in the slice that it is given, and what it returns. The
-- returned value shares no memory with the cache.
pub record Mutation (E : Type 0) : Type 0 where
  pub in_place : Bytes
  pub value : Bytes
  pub update : Bool
  pub error : Option E

abbrev pub own_error : {E : Type 0} → Option Error → Option (Failure E)
own_error none = none
own_error (some e) = some (own e)

-- What an update leaves: the bucket, the error it returns, and the items for `onEvict`, if it is called.
pub record Updated (E : Type 0) : Type 0 where
  pub bucket : Bucket
  pub error : Option (Failure E)
  pub evicted : Option Items

-- The same, for a method that returns a value or an error.
pub record Provided (E : Type 0) : Type 0 where
  pub bucket : Bucket
  pub value : Failure E ⊎ Bytes
  pub evicted : Option Items

unfoldable pub empty_bucket : ℕ → Bucket
empty_bucket chunks = record { chunks = replicate chunks none; m = []; idx = 0; gen = 1 }

-- `Init`
unfoldable pub init : ℕ → Result Bucket
unfolding empty_bucket
init max_bytes =
    if max_bytes == 0
    then err zero_max_bytes
    else if leb max_bucket_size max_bytes
    then err big_max_bytes
    else ok (empty_bucket ((max_bytes + chunk_size - 1) / chunk_size))

-- `Reset`, with the items for `out`, if it is not nil; `none` is a panic.
unfoldable pub reset : Bucket → Bool → Option (Bucket × Items)
unfolding empty_bucket read_items
reset b wanted = elim (if wanted then read_items b (map (λ e. e.1) b.m) else some no_items) [
  | none ↦ none
  | some i ↦ some (empty_bucket (length b.chunks), i)
]

-- `getItemsLocked(nil)`
unfoldable pub get_items : Bucket → Option (Option Items)
unfolding read_items
get_items b = elim b.m [
  | [] ↦ some none
  | e ∷ es ↦ elim (read_items b (map (λ p. p.1) (e ∷ es))) [ none ↦ none | some i ↦ some (some i) ]
]

unfoldable pub del : Bucket → ℕ → Bucket
del b h = record b { m = delete ℕ_discrete h b.m }

-- The value of the pair, overwritten where it stands.
unfoldable pub write_back : Bucket → ℕ → Pair → Bytes → Bucket
unfolding idx_of write
write_back b h p bs = elim (lookup ℕ_discrete h b.m) [
  | none ↦ b
  | some v ↦ elim (get_elem? b.chunks (idx_of v / chunk_size)) [
    | some (some c) ↦ record b {
      chunks =
          set b.chunks (idx_of v / chunk_size)
            (some (record c { mem = write c.mem (p.start + p.key_len) bs }));
    }
    | _ ↦ b
  ]
]

-- The rest of an update, once the mutator has run: its error, or `setLocked`, or the error of the read.
module _ (blank : ℕ → ℕ) {E : Type 0} where
  unfoldable pub finish_update :
      Bucket → Bytes → ℕ → Mutation E → Option Error → Bool → Option (Updated E)
  unfolding set_locked
  finish_update b k h m read notify = elim (m.error) [
    | some e ↦ some (record { bucket = b; error = some (callback e); evicted = none })
    | none ↦
        if m.update
        then elim (set_locked blank b k m.value h notify) [
          | none ↦ none
          | some r ↦
              some (record { bucket = r.bucket; error = own_error r.error; evicted = r.evicted })
        ]
        else some (record { bucket = b; error = own_error read; evicted = none })
  ]

  -- `Update`; the mutator is given nil where there is no data. `none` is a panic, of the mutator too.
  unfoldable pub update :
      Bucket → Bytes → ℕ → (Option Bytes → Option (Mutation E)) → Bool → Option (Updated E)
  unfolding find_pair write_back finish_update
  update b k h mutator notify = elim (find_pair b k h) [
    | ok p ↦ elim (mutator (some (value_of p))) [
      | none ↦ none
      | some m ↦ finish_update (write_back b h p m.in_place) k h m none notify
    ]
    | err no_data ↦ elim (mutator none) [
      | none ↦ none
      | some m ↦ finish_update b k h m (some no_data) notify
    ]
    | err e ↦ some (record { bucket = b; error = some (own e); evicted = none })
    | panic ↦ none
  ]

  -- `GetSet`
  unfoldable pub get_set : Bucket → Bytes → ℕ → E ⊎ Bytes → Bool → Option (Provided E)
  unfolding get_locked set_locked
  get_set b k h provided notify = elim (get_locked b k h) [
    | ok x ↦ some (record { bucket = b; value = inr x; evicted = none })
    | err no_data ↦ elim provided [
      | inl e ↦ some (record { bucket = b; value = inl (callback e); evicted = none })
      | inr x ↦ elim (set_locked blank b k x h notify) [
        | none ↦ none
        | some r ↦ elim (r.error) [
          | some e ↦ some (record { bucket = r.bucket; value = inl (own e); evicted = r.evicted })
          | none ↦ some (record { bucket = r.bucket; value = inr x; evicted = r.evicted })
        ]
      ]
    ]
    | err e ↦ some (record { bucket = b; value = inl (own e); evicted = none })
    | panic ↦ none
  ]
