-- ===== src/Ippool/Register.antt =====
-- `Set`, `Unset`, `IsAvailable`, `Shutdown` and `NewIPv4FromSubnet`, on every branch.
use common_lib_go.Prelude.{
  ℕ, ◌+◌, ◌-◌, ◌≤◌, ◌<◌, ◌≡◌, ◌↔◌, ◌⊎◌, inl, inr, refl, true, false, some, Option-cases, arith, ltb,
  ◌||◌, Bool-cases, ◌==◌, lookup, ◌∷◌, [],
}
use common_lib_go.Xnet.{Ip, IpNet, isv4, to4, to_uint32, mask_to_uint32, network_addr, uint32_to_ip}
use common_lib_go.Ippool.{
  Pool, ok, err, fatal, invalid_address, not_in_range, address_in_use, entry_not_found, is_used,
  register, unset, is_available, shutdown, new_ipv4_from_subnet, subnet_too_small, capacity, alloc,
  available,
}
use common_lib_go.Ippool.Invariant.{
  IsValid, InRange, Taken, Released, take_addr, give_addr, take_addr-Taken, give_addr-Released,
}
use common_lib_go.Xnet.Subnet.{
  IsSubnet, base, network_addr-base, size, first_usable-base, last_usable-base, base_fits,
  mask_size-cidr_mask, usable_size,
}
use common_lib_go.Xnet.Convert.{to_uint32-uint32_to_ip}
use common_lib_go.Prelude.Bits.{two-pow-pos}

pub isv4_of_addr : (ip : Ip) (n : ℕ) → to_uint32 ip ≡ some n → isv4 ip ≡ true
unfolding isv4 to_uint32
isv4_of_addr ip n addr = ground (arith, addr)

-- `Set` on a running pool: it takes the address exactly if it is an IPv4 address of the range that
-- is free, and otherwise reports which of these fails.
module _ {pool : Pool} (v : IsValid pool) (up : pool.running ≡ true) (ip : Ip) (n : ℕ)
    (addr : to_uint32 ip ≡ some n) where
  pub register_lem :
      ((pool' : Pool) × (register pool ip ≡ ok pool') × Taken pool pool' n)
      ⊎ ((register pool ip ≡ err address_in_use) × InRange pool n × (is_used pool n ≡ true))
      ⊎ ((register pool ip ≡ err not_in_range) × (¬ InRange pool n))
  unfolding register
  register_lem = elim (Bool-cases (ltb n pool.min || ltb pool.max n)) [
    | inl out ↦ inr (inr (ground (arith, isv4_of_addr ip n addr, addr), λ inside. ground arith))
    | inr inside ↦ elim (Bool-cases (is_used pool n)) [
      | inl taken ↦
          inr (inl (ground (arith, isv4_of_addr ip n addr, addr, up), ground arith, taken))
      | inr free ↦ inl (
        take_addr pool n,
        ground (arith, isv4_of_addr ip n addr, addr, up),
        take_addr-Taken v n (ground arith) free,
      )
    ]
  ]

  pub unset_lem :
      ((pool' : Pool) × (unset pool ip ≡ ok pool') × Released pool pool' n)
      ⊎ ((unset pool ip ≡ err entry_not_found) × (is_used pool n ≡ false))
  unfolding unset
  unset_lem = elim (Bool-cases (is_used pool n)) [
    | inl taken ↦ inl (
      give_addr pool n,
      ground (arith, isv4_of_addr ip n addr, addr, up),
      give_addr-Released v n taken,
    )
    | inr free ↦ inr (ground (arith, isv4_of_addr ip n addr, addr, up), free)
  ]

  pub Taken-register : {pool' : Pool} → register pool ip ≡ ok pool' → Taken pool pool' n
  Taken-register {pool'} e = elim register_lem [
    | inl (made, e', t) ↦ let same : pool' ≡ made = cc (e, e') in rw same t
    | inr (inl (e', _, _)) ↦ absurd (cc (e, e'))
    | inr (inr (e', _)) ↦ absurd (cc (e, e'))
  ]

  pub Released-unset : {pool' : Pool} → unset pool ip ≡ ok pool' → Released pool pool' n
  Released-unset {pool'} e = elim unset_lem [
    | inl (made, e', t) ↦ let same : pool' ≡ made = cc (e, e') in rw same t
    | inr (e', _) ↦ absurd (cc (e, e'))
  ]

  -- `IsAvailable` answers whether a `Set` of the address would succeed.
  pub is_available-register :
      (is_available pool ip ≡ ok true) ↔ ((pool' : Pool) × (register pool ip ≡ ok pool'))
  unfolding is_available register
  is_available-register = (
    (λ h. (take_addr pool n, ground (arith, isv4_of_addr ip n addr, addr, up, h))),
    (λ (pool', h). ground (arith, isv4_of_addr ip n addr, addr, up, h)),
  )

-- An address that is no IPv4 one is refused by each method, whatever the pool is.
pub not_v4_refused :
    (pool : Pool) (ip : Ip)
    → isv4 ip ≡ false
    → (register pool ip ≡ err invalid_address)
      × (unset pool ip ≡ err invalid_address)
      × (is_available pool ip ≡ ok false)
unfolding register unset is_available
not_v4_refused pool ip h = (ground arith, ground arith, ground arith)

-- A pool over a subnet with at least two host bits: it is valid and running, its range is the
-- subnet without the network and the broadcast address, and just the first address is used.
pub new_ipv4_from_subnet_lem :
    {net : IpNet} {addr ones : ℕ}
    → IsSubnet net addr ones
    → ones ≤ 30
    → (pool : Pool) × (new_ipv4_from_subnet net ≡ ok pool)
      × IsValid pool
      × (pool.running ≡ true)
      × (pool.min ≡ base addr ones + 1)
      × (pool.max ≡ base addr ones + (size ones - 2))
      × (capacity pool ≡ size ones - 2)
      × (to_uint32 pool.server_ip ≡ some pool.min)
      × ((m : ℕ) → is_used pool m ≡ (m == pool.min))
unfolding new_ipv4_from_subnet is_used capacity lookup
new_ipv4_from_subnet_lem {net} {addr} {ones} s roomy =
    let lo = base addr ones + 1 in
    let hi = base addr ones + (size ones - 2) in
    let four = usable_size ones roomy in
    let pos = two-pow-pos (30 - ones) in
    let fits = base_fits addr ones s.fits s.short in
    let pool : Pool = record {
      server_ip = uint32_to_ip lo;
      used = (lo, true) ∷ [];
      min = lo;
      max = hi;
      running = true;
    } in
    let first = to_uint32-uint32_to_ip lo (omega (arith, four, pos, fits)) in
    let last = to_uint32-uint32_to_ip hi (omega (arith, four, pos, fits)) in
    (
      pool,
      ground (
        arith,
        network_addr-base s,
        isv4_of_addr net.ip addr s.address,
        s.prefix,
        mask_size-cidr_mask ones s.short,
        first_usable-base s roomy,
        last_usable-base s roomy,
        first,
        last,
      ),
      record {
        positive = omega arith;
        ordered = omega (arith, four, pos);
        bounded = omega (arith, four, pos, fits);
        distinct = (tt, tt);
        within = ((omega (arith, four, pos), omega (arith, four, pos)), tt);
      },
      refl,
      refl,
      refl,
      omega (arith, four, pos),
      first,
      λ m. ground arith,
    )

-- A subnet with one host bit or none is refused.
pub new_ipv4_from_subnet_small :
    {net : IpNet} {addr ones : ℕ}
    → IsSubnet net addr ones
    → 30 < ones
    → new_ipv4_from_subnet net ≡ err subnet_too_small
unfolding new_ipv4_from_subnet
new_ipv4_from_subnet_small {net} {addr} {ones} s h = ground (
  arith,
  network_addr-base s,
  isv4_of_addr net.ip addr s.address,
  s.prefix,
  mask_size-cidr_mask ones s.short,
)

-- For a subnet whose address is no IPv4 address the constructor does not return an error: it panics.
pub new_ipv4_from_subnet_panics :
    (net : IpNet) → isv4 net.ip ≡ false → new_ipv4_from_subnet net ≡ fatal
unfolding new_ipv4_from_subnet network_addr to_uint32 isv4
new_ipv4_from_subnet_panics net h = elim (Option-cases (to4 net.ip.bytes)) [
  | inr (bs, e) ↦ absurd (ground (arith, h, e))
  | inl none' ↦ elim (Option-cases (mask_to_uint32 net.mask)) [
    | inl short ↦ ground (arith, none', short)
    | inr (m, long) ↦ ground (arith, none', long)
  ]
]

-- `Shutdown` stops the pool and forgets all addresses but the server's; the pool stays valid. From
-- then on `Alloc` and `Available` end the process, whatever the random number is.
pub shutdown_lem :
    {pool : Pool} {server : ℕ}
    → IsValid pool
    → to_uint32 pool.server_ip ≡ some server
    → InRange pool server
    → (pool' : Pool) × (shutdown pool ≡ ok pool')
      × IsValid pool'
      × ((m : ℕ) → is_used pool' m ≡ (m == server))
      × ((random : ℕ) → (alloc pool' random ≡ fatal) × (available pool' random ≡ fatal))
unfolding shutdown is_used lookup alloc available
shutdown_lem {pool} {server} v e inside = (
  record pool { running = false; used = (server, true) ∷ [] },
  ground (arith, e),
  record {
    positive = v.positive;
    ordered = v.ordered;
    bounded = v.bounded;
    distinct = (tt, tt);
    within = (inside, tt);
  },
  λ m. ground arith,
  λ random. (refl, refl),
)
