-- ===== src/Xcache/Clean.antt =====
-- `cleanLocked`: which places stay, and what is handed to `onEvict`.
use common_lib_go.Prelude.{
  ℕ, ◌≡◌, refl, sym, ap, ◌∙◌, Bool, true, false, Option, none, some, List, [], ◌∷◌, arith, ◌⊎◌, inl,
  inr, Bool-cases, ℕ_discrete, lookup, Distinct, Fresh, lookup-Fresh,
}
use common_lib_go.Xcache.{Bucket, err, no_data, is_live, read_item, Items, no_items}
use common_lib_go.Xcache.Store.{is_kept, kept_places, dropped_places, clean_locked, read_items}
use common_lib_go.Xcache.Read.{locate_dead}

-- The test of `cleanLocked` is that of a read.
pub is_kept-is_live : (b : Bucket) (v : ℕ) → is_kept b v ≡ is_live b v
unfolding is_kept is_live
is_kept-is_live b v = ground arith

kept-Fresh : (b : Bucket) (h : ℕ) (m : List (ℕ × ℕ)) → Fresh h m → Fresh h (kept_places b m)
unfolding kept_places
kept-Fresh b h [] f = tt
kept-Fresh b h ((j, v) ∷ m) f = ground (arith, kept-Fresh b h m f.1)

pub kept-Distinct : (b : Bucket) (m : List (ℕ × ℕ)) → Distinct m → Distinct (kept_places b m)
unfolding kept_places
kept-Distinct b [] d = tt
kept-Distinct b ((j, v) ∷ m) d = ground (arith, kept-Distinct b m d.1, kept-Fresh b j m d.0)

-- The places that stay are those that pass the test.
pub lookup-kept :
    (b : Bucket) (h v : ℕ) (m : List (ℕ × ℕ))
    → Distinct m
    → lookup ℕ_discrete h (kept_places b m) ≡ some v
    → (lookup ℕ_discrete h m ≡ some v) × (is_kept b v ≡ true)
unfolding kept_places lookup
lookup-kept b h v [] d e = absurd (cc)
lookup-kept b h v ((j, w) ∷ m) d e = elim (Bool-cases (is_kept b w)) [
  | inl stays ↦ ground (arith, stays, e, lookup-kept b h v m d.1)
  | inr goes ↦
      let (a, c) = lookup-kept b h v m d.1 (ground (arith, goes, e)) in
      (ground (arith, a, lookup-Fresh ℕ_discrete j m d.0), c)
]

pub kept-lookup :
    (b : Bucket) (h v : ℕ) (m : List (ℕ × ℕ))
    → lookup ℕ_discrete h m ≡ some v
    → is_kept b v ≡ true
    → lookup ℕ_discrete h (kept_places b m) ≡ some v
unfolding kept_places lookup
kept-lookup b h v [] e stays = absurd (cc)
kept-lookup b h v ((j, w) ∷ m) e stays = elim (ℕ_discrete h j) [
  | yes same ↦ ground (arith, e, stays, same)
  | no other ↦ ground (arith, other, e, stays, kept-lookup b h v m)
]

pub read_item_dead : (b : Bucket) (v : ℕ) → is_live b v ≡ false → read_item b v ≡ err no_data
unfolding read_item
read_item_dead b v h = ground (arith, locate_dead b v h)

-- None of the dropped places can be read any more.
read_items-dropped :
    (b : Bucket) (m : List (ℕ × ℕ)) → read_items b (dropped_places b m) ≡ some no_items
unfolding read_items dropped_places
read_items-dropped b [] = refl
read_items-dropped b ((h, v) ∷ m) = elim (Bool-cases (is_kept b v)) [
  | inl stays ↦ ground (arith, stays, read_items-dropped b m)
  | inr goes ↦
      ground
        (arith, goes, read_items-dropped b m, read_item_dead b v (sym (is_kept-is_live b v) ∙ goes))
]

-- The bucket after a cleanup.
abbrev pub cleaned : Bucket → Bucket
cleaned b = elim (kept_places b b.m) [ [] ↦ b | e ∷ es ↦ record b { m = e ∷ es } ]

-- Whatever the bucket has, a cleanup that calls `onEvict` hands it no item: the places that it
-- drops are those that a read refuses.
pub clean_locked_lem :
    (b : Bucket) (notify : Bool)
    → (out : Option Items) × (clean_locked b notify ≡ some (cleaned b, out))
      × ((out ≡ none) ⊎ (out ≡ some no_items))
unfolding clean_locked
clean_locked_lem b false = (none, refl, inl refl)
clean_locked_lem b true = elim (list_cases (dropped_places b b.m)) [
  | inl nothing ↦ (none, ground (arith, nothing), inl refl)
  | inr (v, vs, e) ↦
      (some no_items, ground (arith, e, read_items-dropped b b.m, ap (read_items b) e), inr refl)
]
  where
    list_cases : (xs : List ℕ) → (xs ≡ []) ⊎ ((v : ℕ) × (vs : List ℕ) × (xs ≡ v ∷ vs))
    list_cases [] = inl refl
    list_cases (v ∷ vs) = inr (v, vs, refl)
