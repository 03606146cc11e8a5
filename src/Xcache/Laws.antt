-- ===== src/Xcache/Laws.antt =====
-- `Init` and `Del`: what a bucket has afterwards.
use common_lib_go.Prelude.{
  ℕ, zero, suc, ◌+◌, ◌-◌, ◌*◌, ◌/◌, ◌^◌, ◌<◌, ◌≤◌, ◌≡◌, ◌≢◌, refl, sym, ap, Option, none, some,
  List, [], length, get_elem?, replicate, arith, ◌⊎◌, inl, inr, ℕ_discrete, lookup, delete,
  lookup-delete, Distinct, delete-Distinct,
}
use common_lib_go.Prelude.Bits.{and_low}
use common_lib_go.Xcache.{
  Bytes, Chunk, Bucket, ok, err, no_data, chunk_size, max_bucket_size, masked_gen, is_live,
  get_locked,
}
use common_lib_go.Xcache.Methods.{empty_bucket, init, del}
use common_lib_go.Xcache.Invariant.{Written, filled, Valid, Current, Previous}
use common_lib_go.Xcache.Read.{get_locked_lem}

length-replicate : {A : Type 0} (n : ℕ) (a : A) → length (replicate n a) ≡ n
length-replicate zero a = refl
length-replicate (suc n) a = ap suc (length-replicate n a)

filled-replicate :
    (n i : ℕ) (c : Option Chunk) → get_elem? (replicate n none) i ≡ some c → filled c ≡ 0
filled-replicate zero i c e = absurd (cc)
filled-replicate (suc n) zero c e = ap fill (sym e)
  where
    fill : Option (Option Chunk) → ℕ
    fill none = 0
    fill (some c) = filled c
filled-replicate (suc n) (suc i) c e = filled-replicate n i c e

-- A bucket with no pair.
pub empty_bucket-Valid : (n : ℕ) → 0 < n → n * chunk_size ≤ 2 ^ 40 → Valid (empty_bucket n) []
unfolding empty_bucket masked_gen lookup
empty_bucket-Valid n some_chunk small =
    let chunks : List (Option Chunk) = replicate n none in
    let long : length chunks ≡ n = length-replicate n none in
    record {
      gen_pos = omega (arith, and_low 24 1);
      index = omega (arith, long);
      small = omega (arith, long);
      position = λ c e. filled-replicate n 0 c e;
      distinct = tt;
      entries = λ h v e. absurd (cc);
      apart = λ h v j w differ e f. absurd (cc);
    }

-- For a size of at most 2 ^ 40 - 2 ^ 16, `Init` gives a well-formed bucket with no pair, whose chunks
-- hold that size at least.
pub init_lem :
    (n : ℕ)
    → 0 < n
    → n + chunk_size ≤ max_bucket_size
    → (b : Bucket) × (init n ≡ ok b) × Valid b [] × (n ≤ length b.chunks * chunk_size)
unfolding init empty_bucket
init_lem n pos small =
    let count = (n + chunk_size - 1) / chunk_size in
    let chunks : List (Option Chunk) = replicate count none in
    let long : length chunks ≡ count = length-replicate count none in
    (
      empty_bucket count,
      ground (arith, pos, small),
      empty_bucket-Valid count (omega arith) (omega arith),
      omega (arith, long),
    )

lookup-deleted :
    (j h v : ℕ) (m : List (ℕ × ℕ))
    → lookup ℕ_discrete j (delete ℕ_discrete h m) ≡ some v
    → Distinct m
    → (j ≢ h) × (lookup ℕ_discrete j m ≡ some v)
lookup-deleted j h v m e d = ground (arith, e, lookup-delete ℕ_discrete j h m d)

-- After `Del` the pairs of the other hashes stay.
pub del-Valid :
    (b : Bucket) (g : Written) (h : ℕ)
    → Distinct g
    → Valid b g
    → Valid (del b h) (delete ℕ_discrete h g)
unfolding del is_live
del-Valid b g h d w = record {
  gen_pos = w.gen_pos;
  index = w.index;
  small = w.small;
  position = w.position;
  distinct = delete-Distinct ℕ_discrete h b.m w.distinct;
  entries = λ j v e.
      let (other, there) = lookup-deleted j h v b.m e w.distinct in
      kept_entry j v other (w.entries j v there);
  apart = λ i v j u differ e f k x y z li lj live_v live_u.
      w.apart i v j u differ (lookup-deleted i h v b.m e w.distinct).1
        (lookup-deleted j h u b.m f w.distinct).1 k x y z (written_before i (k, x) li)
        (written_before j (y, z) lj) live_v live_u;
}
  where
    written_before :
        (j : ℕ) (y : Bytes × Bytes)
        → lookup ℕ_discrete j (delete ℕ_discrete h g) ≡ some y
        → lookup ℕ_discrete j g ≡ some y
    written_before j y l = ground (arith, l, lookup-delete ℕ_discrete j h g d)

    written_other :
        (j : ℕ) (y : Bytes × Bytes)
        → j ≢ h
        → lookup ℕ_discrete j g ≡ some y
        → lookup ℕ_discrete j (delete ℕ_discrete h g) ≡ some y
    written_other j y other l = ground (arith, l, other, lookup-delete ℕ_discrete j h g d)

    kept_entry :
        (j v : ℕ)
        → j ≢ h
        → Current b g j v ⊎ Previous b g j v
        → Current (record b { m = delete ℕ_discrete h b.m }) (delete ℕ_discrete h g) j v
          ⊎ Previous (record b { m = delete ℕ_discrete h b.m }) (delete ℕ_discrete h g) j v
    kept_entry j v other (inl (k, x, l, same, below, i)) =
        inl (k, x, written_other j (k, x) other l, same, below, i)
    kept_entry j v other (inr (before, rest)) =
        inr (before, λ le. let (k, x, l, i) = rest le in (k, x, written_other j (k, x) other l, i))

get_absent :
    (b : Bucket) (g : Written) (k : Bytes) (h : ℕ)
    → Valid b g
    → lookup ℕ_discrete h g ≡ none
    → get_locked b k h ≡ err no_data
get_absent b g k h w e = elim (get_locked_lem b g k h w) [
  | inl nothing ↦ nothing
  | inr (x, found, l) ↦ absurd (cc)
]

-- After a `Del` in a well-formed bucket a get with this hash gives no data, and the bucket is
-- well-formed, without the pair and with the other ones.
pub del_lem :
    (b : Bucket) (g : Written) (k : Bytes) (h : ℕ)
    → Distinct g
    → Valid b g
    → (get_locked (del b h) k h ≡ err no_data) × Valid (del b h) (delete ℕ_discrete h g)
del_lem b g k h d w =
    let after = del-Valid b g h d w in
    (
      get_absent (del b h) (delete ℕ_discrete h g) k h after
          (ground (arith, lookup-delete ℕ_discrete h h g d)),
      after,
    )

-- A bucket that was just initialised gives no data for any key.
pub get_locked-init :
    (n : ℕ) (k : Bytes) (h : ℕ)
    → 0 < n
    → n + chunk_size ≤ max_bucket_size
    → (b : Bucket) × (init n ≡ ok b) × (get_locked b k h ≡ err no_data)
unfolding lookup
get_locked-init n k h pos small =
    let (b, e, w, _) = init_lem n pos small in (b, e, get_absent b [] k h w (nothing h))
  where
    nothing : (h : ℕ) → ◌≡◌ {A = Option (Bytes × Bytes)} (lookup ℕ_discrete h []) none
    nothing h = refl
