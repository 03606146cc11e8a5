-- ===== src/Xcache/Tests.antt =====
-- Concrete runs of the cache, and the witnesses of its theorems.
use common_lib_go.Prelude.{
  ℕ, ◌+◌, ◌≡◌, refl, sym, ap, subst, true, false, Option, none, some, List, [], ◌∷◌, length, arith,
  ◌⊎◌, inr, ℕ_discrete, lookup, insert,
}
use common_lib_go.Prelude.Int.{pos}
use common_lib_go.Xcache.{Bytes, Bucket, ok, err, no_data, get_locked, Items, no_items}
use common_lib_go.Xcache.Store.{set_locked, Stored, clean_locked}
use common_lib_go.Xcache.Methods.{empty_bucket, Mutation, Updated, Provided, update, get_set, reset}
use common_lib_go.Xcache.Invariant.{Written, Valid}
use common_lib_go.Xcache.SetLocked.{Stores, set_locked_lem}
use common_lib_go.Xcache.Laws.{empty_bucket-Valid}
use common_lib_go.Xcache.GetSet.{Outcome, get_set_lem}
use common_lib_go.Xcache.Clean.{cleaned, clean_locked_lem}
use common_lib_go.Xcache.Update.{Updates, update_lem}
use common_lib_go.Xcache.Flush.{Among, reset_lem}
use common_lib_go.Xcache.Cache.{Cache, new, get}
use common_lib_go.Xcache.Cache.Calls.{Call, put, drop, view, run}
use common_lib_go.Xcache.Cache.History.{get-run}

abbrev zeros : ℕ → ℕ
zeros i = 0

abbrev small_bucket : Bucket
small_bucket = record { chunks = none ∷ none ∷ []; m = []; idx = 0; gen = 1 }

abbrev one_key : Bytes
one_key = 1 ∷ 2 ∷ []

abbrev one_value : Bytes
one_value = 7 ∷ []

small_bucket-Valid : Valid small_bucket []
unfolding empty_bucket
small_bucket-Valid = empty_bucket-Valid 2 (omega arith) (omega arith)

-- The bucket after a set.
abbrev or_small : Option Stored → Bucket
or_small none = small_bucket
or_small (some r) = r.bucket

unfoldable full_bucket : Bucket
unfolding set_locked
full_bucket = or_small (set_locked zeros small_bucket one_key one_value 9 true)

abbrev full_written : Written
full_written = (9, (one_key, one_value)) ∷ []

full_bucket-Valid : Valid full_bucket full_written
unfolding full_bucket insert
full_bucket-Valid =
    let (r, e, s) =
      set_locked_lem zeros one_key one_value 9 true small_bucket-Valid
        (omega arith, omega arith, omega arith) in
    subst (λ b. Valid b full_written) (sym (ap or_small e)) s.valid

get_full : get_locked full_bucket one_key 9 ≡ ok one_value
unfolding full_bucket get_locked lookup insert ℕ_discrete
get_full = refl

set_locked_lem_example :
    (r : Stored) × (set_locked zeros full_bucket (4 ∷ []) (5 ∷ 6 ∷ []) 9 true ≡ some r)
    × Stores r full_written (4 ∷ []) (5 ∷ 6 ∷ []) 9
set_locked_lem_example =
    set_locked_lem zeros (4 ∷ []) (5 ∷ 6 ∷ []) 9 true full_bucket-Valid
      (omega arith, omega arith, omega arith)

clean_locked_lem_example :
    (out : Option Items) × (clean_locked full_bucket true ≡ some (cleaned full_bucket, out))
    × ((out ≡ none) ⊎ (out ≡ some no_items))
clean_locked_lem_example = clean_locked_lem full_bucket true

abbrev provided_value : ℕ ⊎ Bytes
provided_value = inr (8 ∷ [])

get_set_lem_example :
    (r : Provided ℕ) × (get_set zeros full_bucket (3 ∷ []) 5 provided_value true ≡ some r)
    × Outcome zeros full_bucket full_written (3 ∷ []) 5 provided_value r
get_set_lem_example =
    get_set_lem zeros full_bucket full_written (3 ∷ []) 5 provided_value true full_bucket-Valid

-- Adds one to the first byte.
abbrev bump : Option Bytes → Option (Mutation ℕ)
bump none = some (record { in_place = []; value = 1 ∷ []; update = true; error = none })
bump (some []) = none
bump (some (x ∷ xs)) =
    some (record { in_place = (x + 1) ∷ xs; value = []; update = false; error = none })

bump_runs :
    (x : Bytes)
    → get_locked full_bucket one_key 9 ≡ ok x
    → (m : Mutation ℕ) × (bump (some x) ≡ some m) × (length m.in_place ≡ length x)
bump_runs [] e = absurd (clash get_full e)
  where
    clash :
        get_locked full_bucket one_key 9 ≡ ok one_value
        → get_locked full_bucket one_key 9 ≡ ok []
        → ⊥
    clash a c = cc
bump_runs (x ∷ xs) e = (_, refl, refl)

update_lem_example :
    (r : Updated ℕ) × (update zeros full_bucket one_key 9 bump true ≡ some r)
    × Updates zeros full_bucket full_written one_key 9 bump r
update_lem_example =
    update_lem zeros full_bucket full_written one_key 9 bump true full_bucket-Valid (λ e. (_, refl))
      bump_runs

reset_lem_example :
    (b' : Bucket) × (i : Items) × (reset full_bucket true ≡ some (b', i))
    × Valid b' []
    × ((k x : Bytes) (h : ℕ) → get_locked full_bucket k h ≡ ok x → Among k x i)
    × ((k x : Bytes) → Among k x i → (h : ℕ) × (lookup ℕ_discrete h full_written ≡ some (k, x)))
reset_lem_example = reset_lem full_bucket full_written full_bucket-Valid

-- Two keys with one hash.
abbrev colliding : List Call
colliding =
    put (1 ∷ []) (7 ∷ []) ∷ put (2 ∷ []) (8 ∷ []) ∷ drop (3 ∷ []) ∷ put (2 ∷ []) (9 ∷ []) ∷ []

abbrev same_hash : Bytes → ℕ
same_hash k = 5

get-run_example :
    (c c' : Cache) × (new (pos 1024) true ≡ ok c)
    × (run same_hash zeros c colliding ≡ some c')
    × ((get same_hash c' (2 ∷ []) ≡ err no_data)
        ⊎ ((x : Bytes) × (get same_hash c' (2 ∷ []) ≡ ok x)
            × (view (λ j. none) colliding (2 ∷ []) ≡ some x)))
get-run_example = get-run same_hash zeros 1024 true colliding (2 ∷ []) (omega arith) (omega arith)
