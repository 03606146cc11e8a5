-- ===== src/Ippool/Invariant.antt =====
-- What every pool that the program can reach satisfies.
use common_lib_go.Prelude.{
  ℕ, ◌+◌, ◌^◌, ◌≤◌, ◌<◌, ◌≡◌, refl, Bool, true, false, List, [], ◌∷◌, some, none, arith, All,
  Distinct, lookup, insert, delete, ℕ_discrete, if◌then◌else◌, ◌==◌, lookup-insert, lookup-delete,
  insert-Distinct, delete-Distinct, length-insert_new, length-delete,
}
use common_lib_go.Ippool.{Pool, is_used, allocated}

abbrev pub InRange : Pool → ℕ → Type 0
InRange pool n = (pool.min ≤ n) × (n ≤ pool.max)

abbrev pub Within : ℕ → ℕ → List (ℕ × Bool) → Type 0
Within lo hi m = All (λ e. (lo ≤ e.0) × (e.0 ≤ hi)) m

pub record IsValid (pool : Pool) : Type 0 where
  pub positive : 0 < pool.min
  pub ordered : pool.min ≤ pool.max
  pub bounded : pool.max < 2 ^ 32
  pub distinct : Distinct pool.used
  pub within : Within pool.min pool.max pool.used

pub Within-insert :
    (lo hi n : ℕ) (m : List (ℕ × Bool))
    → lo ≤ n
    → n ≤ hi
    → Within lo hi m
    → Within lo hi (insert ℕ_discrete n true m)
unfolding insert
Within-insert lo hi n [] h k w = ((h, k), tt)
Within-insert lo hi n ((j, b) ∷ m) h k w = ground (arith, Within-insert lo hi n m h k w.1)

pub Within-delete :
    (lo hi n : ℕ) (m : List (ℕ × Bool)) → Within lo hi m → Within lo hi (delete ℕ_discrete n m)
unfolding delete
Within-delete lo hi n [] w = tt
Within-delete lo hi n ((j, b) ∷ m) w = ground (arith, Within-delete lo hi n m w.1)

pub Within-lookup :
    (lo hi n : ℕ) (m : List (ℕ × Bool)) (b : Bool)
    → Within lo hi m
    → lookup ℕ_discrete n m ≡ some b
    → (lo ≤ n) × (n ≤ hi)
unfolding lookup
Within-lookup lo hi n [] b w e = absurd (ground arith)
Within-lookup lo hi n ((j, c) ∷ m) b w e = ground (arith, Within-lookup lo hi n m b w.1)

-- An address is used exactly when the map has it as a key.
pub used_lookup :
    (pool : Pool) (n : ℕ)
    → is_used pool n ≡ true
    → (b : Bool) × (lookup ℕ_discrete n pool.used ≡ some b)
unfolding is_used
used_lookup pool n h = ground arith

pub unused_lookup :
    (pool : Pool) (n : ℕ) → is_used pool n ≡ false → lookup ℕ_discrete n pool.used ≡ none
unfolding is_used
unused_lookup pool n h = ground arith

-- An address is given out: it becomes used, no other address changes, and the pool stays valid.
pub record Taken (pool pool' : Pool) (n : ℕ) : Type 0 where
  pub valid : IsValid pool'
  pub inside : InRange pool n
  pub was_free : is_used pool n ≡ false
  pub uses : (m : ℕ) → is_used pool' m ≡ (if m == n then true else is_used pool m)
  pub count : allocated pool' ≡ allocated pool + 1
  pub range : (pool'.min ≡ pool.min) × (pool'.max ≡ pool.max) × (pool'.running ≡ pool.running)

-- An address comes back: it becomes free, no other address changes, and the pool stays valid.
pub record Released (pool pool' : Pool) (n : ℕ) : Type 0 where
  pub valid : IsValid pool'
  pub was_used : is_used pool n ≡ true
  pub uses : (m : ℕ) → is_used pool' m ≡ (if m == n then false else is_used pool m)
  pub count : allocated pool' + 1 ≡ allocated pool
  pub range : (pool'.min ≡ pool.min) × (pool'.max ≡ pool.max) × (pool'.running ≡ pool.running)

abbrev pub take_addr : Pool → ℕ → Pool
take_addr pool n = record pool { used = insert ℕ_discrete n true pool.used }

abbrev pub give_addr : Pool → ℕ → Pool
give_addr pool n = record pool { used = delete ℕ_discrete n pool.used }

module _ {pool : Pool} (v : IsValid pool) (n : ℕ) where
  pub take_addr-Taken : InRange pool n → is_used pool n ≡ false → Taken pool (take_addr pool n) n
  unfolding is_used allocated
  take_addr-Taken inside free = record {
    valid = record {
      positive = v.positive;
      ordered = v.ordered;
      bounded = v.bounded;
      distinct = insert-Distinct ℕ_discrete n true pool.used v.distinct;
      within = Within-insert pool.min pool.max n pool.used inside.0 inside.1 v.within;
    };
    inside = inside;
    was_free = free;
    uses = λ m. ground (arith, lookup-insert ℕ_discrete m n true pool.used);
    count = length-insert_new ℕ_discrete n true pool.used (unused_lookup pool n free);
    range = (refl, refl, refl);
  }

  pub give_addr-Released : is_used pool n ≡ true → Released pool (give_addr pool n) n
  unfolding is_used allocated
  give_addr-Released taken = record {
    valid = record {
      positive = v.positive;
      ordered = v.ordered;
      bounded = v.bounded;
      distinct = delete-Distinct ℕ_discrete n pool.used v.distinct;
      within = Within-delete pool.min pool.max n pool.used v.within;
    };
    was_used = taken;
    uses = λ m. ground (arith, lookup-delete ℕ_discrete m n pool.used v.distinct);
    count = let (b, e) = used_lookup pool n taken in length-delete ℕ_discrete n b pool.used e;
    range = (refl, refl, refl);
  }
