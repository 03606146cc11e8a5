-- ===== src/Ippool/Alloc.antt =====
-- `Alloc` and `Available`: every free address can be handed out, and nothing else.
use common_lib_go.Prelude.{
  ℕ, ◌+◌, ◌-◌, ◌≤◌, ◌<◌, ◌≡◌, ◌⊎◌, inl, inr, refl, Bool, true, false, some, Option, List, [], ◌∷◌,
  arith, Bool-cases, ltb, ◌==◌,
}
use common_lib_go.Xnet.{Ip, to_uint32, uint32_to_ip}
use common_lib_go.Xnet.Convert.{to_uint32-uint32_to_ip}
use common_lib_go.Ippool.{
  Pool, Result, ok, err, fatal, not_enough_space, is_used, capacity, allocated, free, get_unused_ip,
  alloc, available, ◌>>=◌,
}
use common_lib_go.Ippool.Invariant.{
  IsValid, InRange, Within, Taken, take_addr, take_addr-Taken, used_lookup,
}
use common_lib_go.Prelude.Pigeonhole.{length-Covers, Under, length-Under}
use common_lib_go.Ippool.Scan.{Found, AllUsed, get_unused_ip_lem}

Within-Under :
    (lo hi : ℕ) (m : List (ℕ × Bool)) → lo ≤ hi → Within lo hi m → Under lo (hi + 1 - lo) m
Within-Under lo hi [] h w = tt
Within-Under lo hi (e ∷ m) h w = (omega arith, Within-Under lo hi m h w.1)

module _ {pool : Pool} (v : IsValid pool) where
  -- A pool never holds more addresses than it has room for, so `free` does not fail.
  pub allocated-le-capacity : allocated pool ≤ capacity pool
  unfolding allocated capacity
  allocated-le-capacity =
      length-Under pool.min (pool.max + 1 - pool.min) pool.used v.distinct
        (Within-Under pool.min pool.max pool.used v.ordered v.within)

  full_of_AllUsed : AllUsed pool pool.min (pool.max + 1) → capacity pool ≤ allocated pool
  unfolding capacity allocated
  full_of_AllUsed all =
      length-Covers pool.min (pool.max + 1 - pool.min) pool.used v.distinct
        (λ n a b. used_lookup pool n (all n a (omega (arith, v))))

  pub free-eq : free pool ≡ ok (capacity pool - allocated pool)
  unfolding free
  free-eq = ground (arith, allocated-le-capacity)

  -- What `Alloc` and `Available` find in a pool that is not full.
  abbrev pub Free : Ip → Type 0
  Free ip =
      (n : ℕ) × (ip ≡ uint32_to_ip n)
      × (to_uint32 ip ≡ some n)
      × InRange pool n
      × (is_used pool n ≡ false)

  pub unused_found :
      (random : ℕ)
      → allocated pool < capacity pool
      → (ip : Ip) × (get_unused_ip pool random ≡ some (ok ip)) × Free ip
  unused_found random room = found (get_unused_ip_lem v random)
    where
      found :
          {r : Option (Result Ip)}
          → Found pool r ⊎ ((r ≡ some fatal) × AllUsed pool pool.min (pool.max + 1))
          → (ip : Ip) × (r ≡ some (ok ip)) × Free ip
      found (inl (n, e, inside, free)) =
          (uint32_to_ip n, e, (n, refl, to_uint32-uint32_to_ip n (omega (arith, v)), inside, free))
      found (inr (e, all)) = absurd (omega (arith, full_of_AllUsed all))

  alloc_room :
      (random : ℕ)
      → pool.running ≡ true
      → allocated pool < capacity pool
      → (n : ℕ) × (alloc pool random ≡ ok (take_addr pool n, uint32_to_ip n))
        × (available pool random ≡ ok (uint32_to_ip n))
        × InRange pool n
        × (is_used pool n ≡ false)
  unfolding alloc available
  alloc_room random up room =
      let (ip, e, (n, p, q, inside, free)) = unused_found random room in
      (n, ground (arith, free-eq, e, p, q), ground (arith, free-eq, e, p, q), inside, free)

  -- A running pool that is not full hands out an address of its range that was free, whatever
  -- the random number is. The address becomes used, and nothing else changes.
  pub alloc-Taken :
      (random : ℕ)
      → pool.running ≡ true
      → allocated pool < capacity pool
      → (n : ℕ) × (pool' : Pool) × (alloc pool random ≡ ok (pool', uint32_to_ip n))
        × (to_uint32 (uint32_to_ip n) ≡ some n)
        × Taken pool pool' n
  alloc-Taken random up room =
      let (n, e, _, inside, free) = alloc_room random up room in
      (
        n,
        take_addr pool n,
        e,
        to_uint32-uint32_to_ip n (omega (arith, v)),
        take_addr-Taken v n inside free,
      )

  -- A running pool that is full hands out nothing: `Alloc` and `Available` report that there is
  -- not enough space. The pool is full exactly when every address of its range is used.
  pub alloc_full :
      (random : ℕ)
      → pool.running ≡ true
      → AllUsed pool pool.min (pool.max + 1)
      → (alloc pool random ≡ err not_enough_space) × (available pool random ≡ err not_enough_space)
  unfolding alloc available
  alloc_full random up all =
      let full = full_of_AllUsed all in
      (
        ground (arith, free-eq, full, allocated-le-capacity),
        ground (arith, free-eq, full, allocated-le-capacity),
      )

  -- `Available` names the address that `Alloc` would hand out on the same random number.
  pub available-alloc : (random : ℕ) → available pool random ≡ (alloc pool random >>= λ r. ok r.1)
  unfolding alloc available
  available-alloc random = elim (Bool-cases (allocated pool == capacity pool)) [
    | inl full ↦ ground (arith, free-eq)
    | inr room ↦
        let lt : allocated pool < capacity pool = ground (arith, allocated-le-capacity) in
        let (ip, e, (n, p, q, inside, unused)) = unused_found random lt in
        ground (arith, free-eq, e, p, q)
  ]

  alloc_stopped : (random : ℕ) → pool.running ≡ false → alloc pool random ≡ fatal
  unfolding alloc
  alloc_stopped random down = ground arith

  alloc_at_capacity :
      (random : ℕ)
      → pool.running ≡ true
      → capacity pool ≤ allocated pool
      → alloc pool random ≡ err not_enough_space
  unfolding alloc
  alloc_at_capacity random up full = ground (arith, free-eq)

  -- Whatever `Alloc` returned was free and is used from then on.
  pub Taken-alloc :
      (random : ℕ) {pool' : Pool} {ip : Ip} {n : ℕ}
      → alloc pool random ≡ ok (pool', ip)
      → to_uint32 ip ≡ some n
      → Taken pool pool' n
  Taken-alloc random {pool'} {ip} {n} e addr = elim (Bool-cases pool.running) [
    | inr down ↦ absurd (cc (alloc_stopped random down))
    | inl up ↦ elim (Bool-cases (ltb (allocated pool) (capacity pool))) [
      | inr full ↦ absurd (cc (alloc_at_capacity random up (ground arith)))
      | inl room ↦
          let (k, made, e', addr', t) = alloc-Taken random up (ground arith) in
          let same_pool : pool' ≡ made = cc (e, e') in
          let same_addr : n ≡ k = cc (e, e', addr, addr') in rw (same_pool, same_addr) t
    ]
  ]
