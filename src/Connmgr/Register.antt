-- ===== src/Connmgr/Register.antt =====
-- The search for a free id.
use common_lib_go.Prelude.{
  ℕ, zero, suc, ◌+◌, ◌-◌, ◌≤◌, ◌<◌, ◌≡◌, ◌⊎◌, inl, inr, refl, subst, ◌∙◌, none, some, arith, leb,
  if◌then◌else◌, lookup, insert, ℕ_discrete, length, ite, Distinct, Option-cases, insert-Distinct,
  Bool-cases, lookup-insert,
}
use common_lib_go.Prelude.Pigeonhole.{Covers, length-Covers}
use common_lib_go.Connmgr.{IdType, Instance, shift, register_conn, lookup_conn}

-- The next id lies in the range, and no id has two connections.
pub record IsValid {C : Type 0} (m : Instance C) : Type 0 where
  pub low : m.id.min ≤ m.id.current
  pub high : m.id.current ≤ m.id.max
  pub distinct : Distinct m.pmap

-- How many ids there are.
abbrev pub ids : {C : Type 0} → Instance C → ℕ
ids m = m.id.max - m.id.min + 1

-- The id that comes `j` after the next.
abbrev ahead : IdType → ℕ → ℕ
ahead i j = if leb (i.current + j) i.max then i.current + j else i.current + j - (i.max - i.min + 1)

shift-ahead :
    (i : IdType) (j : ℕ)
    → i.min ≤ i.current
    → i.current ≤ i.max
    → j < i.max - i.min
    → ahead (shift i).0 j ≡ ahead i (suc j)
unfolding shift
shift-ahead i j h k l = ground arith

ahead_zero : (i : IdType) → i.current ≤ i.max → ahead i 0 ≡ i.current
ahead_zero i h = ground arith

module _ {C : Type 0} where
  shorter :
      (m : Instance C) (fuel : ℕ) → suc fuel ≤ ids m → fuel ≤ ids (record m { id = (shift m.id).0 })
  unfolding shift
  shorter m fuel h = omega arith

  shift-Covers :
      (m : Instance C)
      → Covers m.id.min (ids m) m.pmap
      → Covers (shift m.id).0.min (ids (record m { id = (shift m.id).0 })) m.pmap
  unfolding shift
  shift-Covers m all = all

  no_fuel : (m : Instance C) (c : C) → register_conn zero m c ≡ none
  unfolding register_conn
  no_fuel m c = refl

  shift-IsValid : (m : Instance C) → IsValid m → IsValid (record m { id = (shift m.id).0 })
  unfolding shift
  shift-IsValid m v = record {
    low = ground (arith, v);
    high = ground (arith, v);
    distinct = v.distinct;
  }

  -- What the loop gives for a connection.
  pub record Registered (m m' : Instance C) (c : C) (id : ℕ) : Type 0 where
    pub low : m.id.min ≤ id
    pub high : id ≤ m.id.max
    pub free : lookup_conn m id ≡ none
    pub shows : (j : ℕ) → lookup_conn m' j ≡ ite (ℕ_discrete j id) (some c) (lookup_conn m j)
    pub same_min : m'.id.min ≡ m.id.min
    pub same_max : m'.id.max ≡ m.id.max
    pub valid : IsValid m'

  abbrev Busy : Instance C → ℕ → Type 0
  Busy m k = (j : ℕ) → j < k → (c : C) × (lookup ℕ_discrete (ahead m.id j) m.pmap ≡ some c)

  -- As many busy ids in a row as there are ids are all of them.
  Busy-Covers : (m : Instance C) → IsValid m → Busy m (ids m) → Covers m.id.min (ids m) m.pmap
  Busy-Covers m v b n h l = elim (Bool-cases (leb m.id.current n)) [
    | inl after ↦
        let (x, e) = b (n - m.id.current) (ground (arith, after, v)) in
        (x, subst (λ k. lookup ℕ_discrete k m.pmap ≡ some x) (ground (arith, after, v)) e)
    | inr before ↦
        let (x, e) = b (n + ids m - m.id.current) (ground (arith, before, v)) in
        (x, subst (λ k. lookup ℕ_discrete k m.pmap ≡ some x) (ground (arith, before, v)) e)
  ]

  register_conn_busy :
      (fuel : ℕ) (m : Instance C) (c x : C)
      → lookup ℕ_discrete m.id.current m.pmap ≡ some x
      → register_conn (suc fuel) m c ≡ register_conn fuel (record m { id = (shift m.id).0 }) c
  unfolding register_conn shift
  register_conn_busy fuel m c x h = ground (arith, h)

  register_conn_free :
      (fuel : ℕ) (m : Instance C) (c : C)
      → lookup ℕ_discrete m.id.current m.pmap ≡ none
      → register_conn (suc fuel) m c
        ≡ some (
          record { pmap = insert ℕ_discrete m.id.current c m.pmap; id = (shift m.id).0 },
          m.id.current,
        )
  unfolding register_conn shift
  register_conn_free fuel m c h = ground (arith, h)

  Registered-free :
      (m : Instance C) (c : C)
      → IsValid m
      → lookup ℕ_discrete m.id.current m.pmap ≡ none
      → Registered m
          (record { pmap = insert ℕ_discrete m.id.current c m.pmap; id = (shift m.id).0 })
          c
          m.id.current
  unfolding shift lookup_conn
  Registered-free m c v free = record {
    low = v.low;
    high = v.high;
    free = free;
    shows = λ j. lookup-insert ℕ_discrete j m.id.current c m.pmap;
    same_min = refl;
    same_max = refl;
    valid = record {
      low = (shift-IsValid m v).low;
      high = (shift-IsValid m v).high;
      distinct = insert-Distinct ℕ_discrete m.id.current c m.pmap v.distinct;
    };
  }

  -- What is registered after a busy id is registered.
  Registered-busy :
      (m m' : Instance C) (c : C) (id : ℕ)
      → Registered (record m { id = (shift m.id).0 }) m' c id
      → Registered m m' c id
  unfolding shift lookup_conn
  Registered-busy m m' c id r = record {
    low = r.low;
    high = r.high;
    free = r.free;
    shows = r.shows;
    same_min = r.same_min;
    same_max = r.same_max;
    valid = r.valid;
  }

  abbrev Search : ℕ → Instance C → C → Type 0
  Search fuel m c =
      ((id : ℕ) × (m' : Instance C) × (register_conn fuel m c ≡ some (m', id))
        × Registered m m' c id)
      ⊎ Busy m fuel

  Busy-suc :
      (fuel : ℕ) (m : Instance C) (x : C)
      → IsValid m
      → suc fuel ≤ ids m
      → lookup ℕ_discrete m.id.current m.pmap ≡ some x
      → Busy (record m { id = (shift m.id).0 }) fuel
      → Busy m (suc fuel)
  Busy-suc fuel m x v h taken b zero l = (x, rw (ahead_zero m.id v.high) taken)
  Busy-suc fuel m x v h taken b (suc j) l =
      rw (← shift-ahead m.id j v.low v.high (omega arith)) (b j (omega arith))

  search : (fuel : ℕ) (m : Instance C) (c : C) → IsValid m → fuel ≤ ids m → Search fuel m c
  search zero m c v h = inr (λ j l. absurd (omega arith))
  search (suc fuel) m c v h = elim (Option-cases (lookup ℕ_discrete m.id.current m.pmap)) [
    | inl free ↦ inl (m.id.current, _, register_conn_free fuel m c free, Registered-free m c v free)
    | inr (x, taken) ↦
        later x taken
          (search fuel (record m { id = (shift m.id).0 }) c (shift-IsValid m v) (shorter m fuel h))
  ]
    where
      later :
          (x : C)
          → lookup ℕ_discrete m.id.current m.pmap ≡ some x
          → Search fuel (record m { id = (shift m.id).0 }) c
          → Search (suc fuel) m c
      later x taken (inl (id, m', e, r)) =
          inl (id, m', register_conn_busy fuel m c x taken ∙ e, Registered-busy m m' c id r)
      later x taken (inr b) = inr (Busy-suc fuel m x v h taken b)

  -- In a well-formed manager, while fewer connections are registered than there are ids, `Register`
  -- ends, within as many rounds as there are ids. It gives an id of the range that was free, and
  -- from then on this id, and no other, leads to another connection than before, the given one. The
  -- manager stays well-formed.
  pub register_conn_lem :
      (m : Instance C) (c : C)
      → IsValid m
      → length m.pmap < ids m
      → (id : ℕ) × (m' : Instance C) × (register_conn (ids m) m c ≡ some (m', id))
        × Registered m m' c id
  register_conn_lem m c v room = elim (search (ids m) m c v (omega arith)) [
    | inl found ↦ found
    | inr busy ↦ absurd (
        omega
          (arith, room, length-Covers m.id.min (ids m) m.pmap v.distinct (Busy-Covers m v busy)))
  ]

  -- In a well-formed manager with every id taken `Register` never ends: no amount of fuel is
  -- enough.
  pub register_conn_full :
      (fuel : ℕ) (m : Instance C) (c : C)
      → IsValid m
      → Covers m.id.min (ids m) m.pmap
      → register_conn fuel m c ≡ none
  register_conn_full zero m c v all = no_fuel m c
  register_conn_full (suc fuel) m c v all =
      let (x, taken) = all m.id.current v.low (omega (arith, v)) in
      register_conn_busy fuel m c x taken
      ∙ register_conn_full fuel (record m { id = (shift m.id).0 }) c (shift-IsValid m v)
          (shift-Covers m all)
