-- ===== src/Xcache/SetLocked.antt =====
-- `setLocked`: the pair is stored and found, and the bucket stays well-formed.
use common_lib_go.Prelude.{
  ℕ, ◌/◌, ◌<◌, ◌≡◌, refl, sym, ap, subst, ◌∙◌, Bool, true, false, Option, none, some, List, [], ◌∷◌,
  leb, length, arith, ◌⊎◌, inl, inr, Bool-cases, ℕ_discrete, lookup, insert, lookup-insert_self,
  get_elem?-lt,
}
use common_lib_go.Xcache.{
  max_key_len, Bytes, Bucket, ok, Error, key_len_too_big, val_len_too_big, kv_exceeds_chunk,
  chunk_size, get_locked, Items, no_items,
}
use common_lib_go.Xcache.Store.{
  place_of, Spot, choose_spot, put_pair, set_locked, Stored, kept_places, clean_locked,
}
use common_lib_go.Xcache.Invariant.{Written, pair_size, Valid}
use common_lib_go.Xcache.Read.{FoundAt, get_found}
use common_lib_go.Xcache.Spot.{choose_spot_lem}
use common_lib_go.Xcache.Clean.{clean_locked_lem, cleaned}
use common_lib_go.Xcache.Placed.{placed, put_pair-placed}
use common_lib_go.Xcache.Placement.{
  some_inj, placed-Valid, new_there, new_kept, new_found, kept-Valid,
}

cleaned_eq :
    (b : Bucket) (h v : ℕ)
    → lookup ℕ_discrete h (kept_places b b.m) ≡ some v
    → cleaned b ≡ record b { m = kept_places b b.m }
unfolding lookup
cleaned_eq b h v e = go (kept_places b b.m) e
  where
    go :
        (m : List (ℕ × ℕ))
        → lookup ℕ_discrete h m ≡ some v
        → (elim m as (λ _. Bucket) [ [] ↦ b | p ∷ ps ↦ record b { m = p ∷ ps } ])
          ≡ record b { m = m }
    go [] e = absurd (cc)
    go (p ∷ ps) e = refl

-- The pair can be stored: its lengths fit their two bytes, and it fits a chunk.
abbrev pub Storable : Bytes → Bytes → Type 0
Storable k x = (length k < max_key_len) × (length x < max_key_len) × (pair_size k x < chunk_size)

pub storable? : (k x : Bytes) → Dec (Storable k x)
storable? k x = elim (Bool-cases (leb max_key_len (length k))) [
  | inl long_key ↦ no (λ f. ground (arith, f, long_key))
  | inr short_key ↦ elim (Bool-cases (leb max_key_len (length x))) [
    | inl long_value ↦ no (λ f. ground (arith, f, long_value))
    | inr short_value ↦ elim (Bool-cases (leb chunk_size (pair_size k x))) [
      | inl long ↦ no (λ f. ground (arith, f, long))
      | inr fits ↦
          yes (ground (arith, short_key), ground (arith, short_value), ground (arith, fits))
    ]
  ]
]

module _ (blank : ℕ → ℕ) (b : Bucket) (k x : Bytes) (h : ℕ) (notify : Bool) (f : Storable k x)
    (s : Spot) (chosen : choose_spot b (pair_size k x) ≡ some s) (b' : Bucket)
    (put_in : put_pair blank b s h k x ≡ some b') where
  set_plain :
      s.clean ≡ false
      → set_locked blank b k x h notify
        ≡ some (record { bucket = b'; error = none; evicted = none })
  unfolding set_locked
  set_plain plain = ground (arith, f, chosen, put_in, plain)

  set_cleaning :
      (b'' : Bucket) (out : Option Items)
      → s.clean ≡ true
      → clean_locked b' notify ≡ some (b'', out)
      → set_locked blank b k x h notify
        ≡ some (record { bucket = b''; error = none; evicted = out })
  unfolding set_locked
  set_cleaning b'' out clean done = ground (arith, f, chosen, put_in, clean, done)

-- What a set gives for a pair that can be stored: the pair, without an error and without an item
-- for `onEvict`.
pub record Stores (r : Stored) (g : Written) (k x : Bytes) (h : ℕ) : Type 0 where
  pub no_error : r.error ≡ none
  pub no_items_evicted : (r.evicted ≡ none) ⊎ (r.evicted ≡ some no_items)
  pub valid : Valid r.bucket (insert ℕ_discrete h (k, x) g)
  pub found : get_locked r.bucket k h ≡ ok x

pub found_value :
    (b : Bucket) (g : Written) (k x : Bytes) (h : ℕ)
    → FoundAt b (insert ℕ_discrete h (k, x) g) k h
    → get_locked b k h ≡ ok x
found_value b g k x h f =
    get_found b (insert ℕ_discrete h (k, x) g) k h f
    ∙ ap (λ y. ok y)
        (same_value (some_inj (sym f.written ∙ lookup-insert_self ℕ_discrete h (k, x) g)))
  where
    same_value : {y z : Bytes} → ◌≡◌ {A = Bytes × Bytes} (k, y) (k, z) → y ≡ z
    same_value e = ap (λ (q : Bytes × Bytes). q.1) e

-- In a well-formed bucket a set of a pair that can be stored succeeds. The pair is then the last one
-- written for its hash, a get of its key gives its value, and the bucket is well-formed. If
-- `onEvict` is called, it is given no item.
pub set_locked_lem :
    (blank : ℕ → ℕ) {b : Bucket} {g : Written} (k x : Bytes) (h : ℕ) (notify : Bool)
    → Valid b g
    → Storable k x
    → (r : Stored) × (set_locked blank b k x h notify ≡ some r) × Stores r g k x h
set_locked_lem blank {b} {g} k x h notify w f =
    let (s, chosen, p) = choose_spot_lem b g (pair_size k x) w (f.2) in
    let (c, e) = get_elem?-lt s.chunks (s.idx / chunk_size) p.inside in
    let b' = placed blank b s h k x c in
    let put_in = put_pair-placed blank b s h k x c e in
    elim (Bool-cases s.clean) [
      | inr plain ↦ (
        record { bucket = b'; error = none; evicted = none },
        set_plain blank b k x h notify f s chosen b' put_in plain,
        record {
          no_error = refl;
          no_items_evicted = inl refl;
          valid = placed-Valid blank h k x w p c e plain;
          found =
              found_value b' g k x h
                (new_found blank h k x w p c e b'.m (new_there blank h k x w p c e));
        },
      )
      | inl clean ↦
          let (out, done, nothing) = clean_locked_lem b' notify in
          let new = new_kept blank h k x w p c e in
          let same = cleaned_eq b' h (place_of s.idx s.gen) new in
          (
            record { bucket = cleaned b'; error = none; evicted = out },
            set_cleaning blank b k x h notify f s chosen b' put_in (cleaned b') out clean done,
            record {
              no_error = refl;
              no_items_evicted = nothing;
              valid =
                  subst (λ d. Valid d (insert ℕ_discrete h (k, x) g)) (sym same)
                    (kept-Valid blank h k x w p c e);
              found =
                  subst (λ d. get_locked d k h ≡ ok x) (sym same)
                    (found_value (record b' { m = kept_places b' b'.m }) g k x h
                      (new_found blank h k x w p c e (kept_places b' b'.m) new));
            },
          )
    ]

-- A pair that cannot be stored is refused, and nothing changes.
pub set_locked_refused :
    (blank : ℕ → ℕ) (b : Bucket) (k x : Bytes) (h : ℕ) (notify : Bool)
    → ¬ Storable k x
    → (e : Error) × (set_locked blank b k x h notify
        ≡ some (record { bucket = b; error = some e; evicted = none }))
unfolding set_locked
set_locked_refused blank b k x h notify n = elim (Bool-cases (leb max_key_len (length k))) [
  | inl long_key ↦ (key_len_too_big, ground (arith, long_key))
  | inr short_key ↦ elim (Bool-cases (leb max_key_len (length x))) [
    | inl long_value ↦ (val_len_too_big, ground (arith, short_key, long_value))
    | inr short_value ↦
        (kv_exceeds_chunk, ground (arith, short_key, short_value, too_long n short_key short_value))
  ]
]
  where
    too_long :
        ¬ Storable k x
        → leb max_key_len (length k) ≡ false
        → leb max_key_len (length x) ≡ false
        → leb chunk_size (pair_size k x) ≡ true
    too_long n a c = elim (Bool-cases (leb chunk_size (pair_size k x))) [
      | inl long ↦ long
      | inr fits ↦ absurd (n (ground (arith, a), ground (arith, c), ground (arith, fits)))
    ]
