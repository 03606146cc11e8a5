-- ===== src/Xcache/Read.antt =====
-- `getLocked` gives the pair that was written last for its hash, or nothing.
use common_lib_go.Prelude.{
  ℕ, ◌+◌, ◌/◌, ◌%◌, ◌^◌, ◌<◌, ◌≡◌, ◌≢◌, ap, subst, ◌∙◌, true, false, Option, none, some, List, ◌==◌,
  if◌then◌else◌, length, arith, ◌⊎◌, inl, inr, Option-cases, Bool-cases, ℕ_discrete, lookup,
}
use common_lib_go.Xcache.{
  Bytes, Chunk, Bucket, Pair, ok, err, no_data, same_bytes, len_at, chunk_size, idx_of, is_live,
  locate, find_pair, get_locked, key_of, value_of,
}
use common_lib_go.Xcache.Store.{header}
use common_lib_go.Xcache.Memory.{Holds, slice-Holds, same_bytes_refl, same_bytes_eq, len_of_bytes}
use common_lib_go.Xcache.Invariant.{Written, ItemAt, Valid, live-ItemAt}

pub locate_dead : (b : Bucket) (v : ℕ) → is_live b v ≡ false → locate b v ≡ err no_data
unfolding locate
locate_dead b v h = ground (arith, h)

-- What is found where a pair stands.
abbrev pub pair_at : (ℕ → ℕ) → ℕ → Bytes → Bytes → Pair
pair_at mem i k x = record { mem = mem; start = i + 4; key_len = length k; val_len = length x }

lengths_at :
    (mem : ℕ → ℕ) (i : ℕ) (k x : Bytes)
    → Holds mem i (header k x)
    → length k < 2 ^ 16
    → length x < 2 ^ 16
    → (len_at mem i ≡ length k) × (len_at mem (i + 2) ≡ length x)
unfolding header
lengths_at mem i k x h small_key small_val =
    let h0 : mem i ≡ (length k % 2 ^ 16) / 2 ^ 8 =
      subst (λ j. mem j ≡ (length k % 2 ^ 16) / 2 ^ 8) (omega arith) (h 0 (omega arith)) in
    let h1 : mem (i + 1) ≡ length k % 2 ^ 8 = h 1 (omega arith) in
    let h2 : mem (i + 2) ≡ (length x % 2 ^ 16) / 2 ^ 8 = h 2 (omega arith) in
    let h3 : mem (i + 2 + 1) ≡ length x % 2 ^ 8 =
      subst (λ j. mem j ≡ length x % 2 ^ 8) (omega arith) (h 3 (omega arith)) in
    (
      rw (h0, h1) (len_of_bytes (length k) small_key),
      rw (h2, h3) (len_of_bytes (length x) small_val),
    )

pub locate-ItemAt :
    (b : Bucket) (v : ℕ) (k x : Bytes)
    → is_live b v ≡ true
    → (i : ItemAt b.chunks (idx_of v) k x)
    → locate b v ≡ ok (pair_at i.chunk.mem (idx_of v % chunk_size) k x)
unfolding locate
locate-ItemAt b v k x live i =
    let (a, c) =
      lengths_at i.chunk.mem (idx_of v % chunk_size) k x i.head (omega (arith, i.fits))
        (omega (arith, i.fits)) in
    ground (arith, live, i.at, a, c, i.fits)

pub key_of-pair_at :
    (chunks : List (Option Chunk)) (off : ℕ) (k x : Bytes) (i : ItemAt chunks off k x)
    → (key_of (pair_at i.chunk.mem (off % chunk_size) k x) ≡ k)
      × (value_of (pair_at i.chunk.mem (off % chunk_size) k x) ≡ x)
key_of-pair_at chunks off k x i = (
  slice-Holds i.chunk.mem (off % chunk_size + 4) k i.key,
  slice-Holds i.chunk.mem (off % chunk_size + 4 + length k) x i.value,
)

-- A pair that stands at a live place is found by its key, and by no other.
pub find_there :
    (b : Bucket) (h v : ℕ) (key k x : Bytes)
    → lookup ℕ_discrete h b.m ≡ some v
    → v ≢ 0
    → is_live b v ≡ true
    → (i : ItemAt b.chunks (idx_of v) k x)
    → find_pair b key h ≡ (
        if same_bytes key k
        then ok (pair_at i.chunk.mem (idx_of v % chunk_size) k x)
        else err no_data)
unfolding find_pair
find_there b h v key k x there nonzero live i = ground (
  arith,
  there,
  nonzero,
  locate-ItemAt b v k x live i,
  ap (same_bytes key) (key_of-pair_at b.chunks (idx_of v) k x i).0,
)

find_none :
    (b : Bucket) (k : Bytes) (h : ℕ)
    → lookup ℕ_discrete h b.m ≡ none
    → find_pair b k h ≡ err no_data
unfolding find_pair
find_none b k h e = ground (arith, e)

find_dead :
    (b : Bucket) (k : Bytes) (h v : ℕ)
    → lookup ℕ_discrete h b.m ≡ some v
    → (v ≡ 0) ⊎ (is_live b v ≡ false)
    → find_pair b k h ≡ err no_data
unfolding find_pair
find_dead b k h v e (inl z) = ground (arith, e, z)
find_dead b k h v e (inr dead) = ground (arith, e, locate_dead b v dead)

-- The pair of the key, where it is found.
pub record FoundAt (b : Bucket) (g : Written) (k : Bytes) (h : ℕ) : Type 0 where
  pub value : Bytes
  pub place : ℕ
  pub written : lookup ℕ_discrete h g ≡ some (k, value)
  pub there : lookup ℕ_discrete h b.m ≡ some place
  pub nonzero : place ≢ 0
  pub live : is_live b place ≡ true
  pub item : ItemAt b.chunks (idx_of place) k value
  pub found : find_pair b k h ≡ ok (pair_at item.chunk.mem (idx_of place % chunk_size) k value)

pub FoundAt-live :
    (b : Bucket) (g : Written) (k x : Bytes) (h v : ℕ)
    → lookup ℕ_discrete h b.m ≡ some v
    → v ≢ 0
    → is_live b v ≡ true
    → lookup ℕ_discrete h g ≡ some (k, x)
    → ItemAt b.chunks (idx_of v) k x
    → FoundAt b g k h
FoundAt-live b g k x h v there nonzero live written i = record {
  value = x;
  place = v;
  written = written;
  there = there;
  nonzero = nonzero;
  live = live;
  item = i;
  found = ground (arith, find_there b h v k k x there nonzero live i, same_bytes_refl k);
}

pub find_pair_lem :
    (b : Bucket) (g : Written) (k : Bytes) (h : ℕ)
    → Valid b g
    → (find_pair b k h ≡ err no_data) ⊎ FoundAt b g k h
find_pair_lem b g k h w = elim (Option-cases (lookup ℕ_discrete h b.m)) [
  | inl e ↦ inl (find_none b k h e)
  | inr (v, e) ↦ elim (Bool-cases (v == 0)) [
    | inl z ↦ inl (find_dead b k h v e (inl (ground arith)))
    | inr nonzero ↦ elim (Bool-cases (is_live b v)) [
      | inr dead ↦ inl (find_dead b k h v e (inr dead))
      | inl live ↦
          let (k', x, written, i) = live-ItemAt b g h v (w.entries h v e) live in
          let there = find_there b h v k k' x e (ground arith) live i in
          elim (Bool-cases (same_bytes k k')) [
            | inr other ↦ inl (ground (arith, there, other))
            | inl same ↦ inr (
                subst
                  (λ y.
                    lookup ℕ_discrete h g ≡ some (y, x)
                    → ItemAt b.chunks (idx_of v) y x
                    → FoundAt b g k h)
                  (same_bytes_eq k k' same) (FoundAt-live b g k x h v e (ground arith) live) written
                  i)
          ]
    ]
  ]
]

get_locked_eq :
    (b : Bucket) (k : Bytes) (h : ℕ) (p : Pair)
    → find_pair b k h ≡ ok p
    → get_locked b k h ≡ ok (value_of p)
unfolding get_locked
get_locked_eq b k h p e = ground (arith, e)

pub get_none :
    (b : Bucket) (k : Bytes) (h : ℕ)
    → find_pair b k h ≡ err no_data
    → get_locked b k h ≡ err no_data
unfolding get_locked
get_none b k h e = ground (arith, e)

pub get_found :
    (b : Bucket) (g : Written) (k : Bytes) (h : ℕ) (f : FoundAt b g k h)
    → get_locked b k h ≡ ok f.value
get_found b g k h f =
    get_locked_eq b k h _ f.found
    ∙ ap (λ x. ok x) (key_of-pair_at b.chunks (idx_of f.place) k f.value f.item).1

-- In a well-formed bucket a get gives the value of the pair that was written last for the hash, if
-- the pair has this key, or says that there is no data: it never fails in another way, and it never
-- gives another value.
pub get_locked_lem :
    (b : Bucket) (g : Written) (k : Bytes) (h : ℕ)
    → Valid b g
    → (get_locked b k h ≡ err no_data)
      ⊎ ((x : Bytes) × (get_locked b k h ≡ ok x) × (lookup ℕ_discrete h g ≡ some (k, x)))
get_locked_lem b g k h w = elim (find_pair_lem b g k h w) [
  | inl e ↦ inl (get_none b k h e)
  | inr f ↦ inr (f.value, get_found b g k h f, f.written)
]
