-- ===== src/Xnet/Subnet.antt =====
-- The network, broadcast and usable addresses of a subnet, as numbers.
use Prim.Native.Nat.{bit_and, bit_or, bit_xor}
use common_lib_go.Prelude.{
  ℕ, zero, suc, ◌+◌, ◌-◌, ◌*◌, ◌/◌, ◌%◌, ◌^◌, ◌<◌, ◌≤◌, ◌≡◌, refl, ap, some, List, [], ◌∷◌, arith,
  Bool, true, ◌==◌, ◌&&◌, ==_iff,
}
use native.Mathlib.Nat.{mod-eq_of_lt}
use common_lib_go.Prelude.Bits.{
  or_low, and_low, and_high, xor_ones, two-pow-pos, two-pow-suc, all_below, all_below_sound,
}
use common_lib_go.Xnet.{
  IpNet, to_uint32, uint32_to_ip, mask_to_uint32, mask_size, network_addr, broadcast_addr,
  first_usable, last_usable,
}
use common_lib_go.Xnet.Convert.{byte, bytes_to_uint32-big_endian, uint32_to_ip-bytes}

-- The mask of a prefix of `ones` bits, as `net.CIDRMask` builds it.
abbrev pub mask_value : ℕ → ℕ
mask_value ones = 2 ^ 32 - 2 ^ (32 - ones)

abbrev pub cidr_mask : ℕ → List ℕ
cidr_mask ones = let m = mask_value ones in byte m 3 ∷ byte m 2 ∷ byte m 1 ∷ byte m 0 ∷ []

-- What `net.ParseCIDR` gives for an IPv4 prefix.
pub record IsSubnet (net : IpNet) (addr ones : ℕ) : Type 0 where
  pub address : to_uint32 net.ip ≡ some addr
  pub fits : addr < 2 ^ 32
  pub prefix : net.mask ≡ cidr_mask ones
  pub short : ones ≤ 32

-- The hosts of the subnet of `addr` are the `2 ^ (32 - ones)` numbers from this one on.
abbrev pub base : ℕ → ℕ → ℕ
base addr ones = addr / 2 ^ (32 - ones) * 2 ^ (32 - ones)

abbrev pub size : ℕ → ℕ
size ones = 2 ^ (32 - ones)

split_word : (ones : ℕ) → ones ≤ 32 → 2 ^ ones * 2 ^ (32 - ones) ≡ 2 ^ 32
split_word ones h =
    (==_iff _ _).0
      (all_below_sound 33 (λ k. 2 ^ k * 2 ^ (32 - k) == 2 ^ 32) ones table (omega arith))
  where
    table : all_below 33 (λ k. 2 ^ k * 2 ^ (32 - k) == 2 ^ 32) ≡ true
    table = unfold all_below in refl

mask_value-field : (ones : ℕ) → ones ≤ 32 → mask_value ones ≡ (2 ^ ones - 1) * 2 ^ (32 - ones)
mask_value-field ones h = field (2 ^ ones) (2 ^ (32 - ones)) (split_word ones h) (two-pow-pos ones)
  where
    field : (p q : ℕ) → p * q ≡ 2 ^ 32 → 0 < p → 2 ^ 32 - q ≡ (p - 1) * q
    field zero q e h = elim h [ ]
    field (suc p) q e h = ground arith

quotient-lt : (a p q : ℕ) → a < p * q → 0 < q → a / q < p
quotient-lt a p q h k = grind arith

pub and_mask-base :
    (addr ones : ℕ) → addr < 2 ^ 32 → ones ≤ 32 → bit_and addr (mask_value ones) ≡ base addr ones
and_mask-base addr ones fits short =
    let q = 2 ^ (32 - ones) in
    let e = split_word ones short in
    let lt = quotient-lt addr (2 ^ ones) q (omega (arith, e)) (two-pow-pos (32 - ones)) in
    rw (mask_value-field ones short, and_high, and_low) (ap (λ t. t * q) (mod-eq_of_lt lt))

next_multiple : (a p q : ℕ) → a < p → a * q + q ≤ p * q
next_multiple a p q h = grind arith

size-le : (ones : ℕ) → ones ≤ 32 → size ones ≤ 2 ^ 32
size-le ones short =
    omega (arith, split_word ones short, next_multiple 0 (2 ^ ones) (size ones) (two-pow-pos ones))

pub base_fits : (addr ones : ℕ) → addr < 2 ^ 32 → ones ≤ 32 → base addr ones + size ones ≤ 2 ^ 32
base_fits addr ones fits short =
    let q = 2 ^ (32 - ones) in
    let e = split_word ones short in
    let lt = quotient-lt addr (2 ^ ones) q (omega (arith, e)) (two-pow-pos (32 - ones)) in
    omega (arith, e, next_multiple (addr / q) (2 ^ ones) q lt)

pub or_hosts :
    (addr ones : ℕ)
    → ones ≤ 32
    → bit_or (base addr ones) (bit_xor (mask_value ones) 0xffffffff)
      ≡ base addr ones + (size ones - 1)
or_hosts addr ones short =
    let h = 32 - ones in
    ground (
      arith,
      two-pow-pos h,
      size-le ones short,
      xor_ones 32 (mask_value ones),
      or_low h (addr / 2 ^ h) (2 ^ h - 1),
    )

pub mask_size-cidr_mask : (ones : ℕ) → ones ≤ 32 → mask_size (cidr_mask ones) ≡ (ones, 32)
mask_size-cidr_mask ones h =
    let e = all_below_sound 33 check ones table (omega arith) in ground (arith)
  where
    check : ℕ → Bool
    check k = let r = mask_size (cidr_mask k) in r.0 == k && r.1 == 32

    table : all_below 33 check ≡ true
    table = unfold all_below mask_size in refl

module _ {net : IpNet} {addr ones : ℕ} (s : IsSubnet net addr ones) where
  pub mask_to_uint32-subnet : mask_to_uint32 net.mask ≡ some (mask_value ones)
  unfolding mask_to_uint32
  mask_to_uint32-subnet =
      let m = mask_value ones in
      rw s.prefix (
        ground (
          arith,
          two-pow-pos (32 - ones),
          bytes_to_uint32-big_endian (byte m 3) (byte m 2) (byte m 1) (byte m 0),
        ))

  pub network_addr-base : network_addr net ≡ some (uint32_to_ip (base addr ones))
  unfolding network_addr
  network_addr-base =
      ground (arith, s.address, mask_to_uint32-subnet, and_mask-base addr ones s.fits s.short)

  pub broadcast_addr-last :
      broadcast_addr net ≡ some (uint32_to_ip (base addr ones + (size ones - 1)))
  unfolding broadcast_addr
  broadcast_addr-last = ground (
    arith,
    s.address,
    mask_to_uint32-subnet,
    and_mask-base addr ones s.fits s.short,
    or_hosts addr ones s.short,
  )

-- With two host bits or more, the address after the network address and the one before the
-- broadcast address differ from them in the last byte alone.
pub usable_size : (ones : ℕ) → ones ≤ 30 → size ones ≡ 4 * 2 ^ (30 - ones)
usable_size ones h = grind (arith, two-pow-suc (31 - ones), two-pow-suc (30 - ones))

pub base_mod_four : (addr ones : ℕ) → ones ≤ 30 → base addr ones % 4 ≡ 0
base_mod_four addr ones h = omega (arith, ap (λ t. addr / size ones * t) (usable_size ones h))

next_byte :
    (n : ℕ)
    → n % 4 ≡ 0
    → record { bytes = byte n 3 ∷ byte n 2 ∷ byte n 1 ∷ ((byte n 0 + 1) % 256) ∷ [] }
      ≡ uint32_to_ip (n + 1)
next_byte n h = ground (arith, uint32_to_ip-bytes (n + 1))

previous_byte :
    (n : ℕ)
    → n % 4 ≡ 3
    → record { bytes = byte n 3 ∷ byte n 2 ∷ byte n 1 ∷ ((byte n 0 + 255) % 256) ∷ [] }
      ≡ uint32_to_ip (n - 1)
previous_byte n h = ground (arith, uint32_to_ip-bytes (n - 1))

module _ {net : IpNet} {addr ones : ℕ} (s : IsSubnet net addr ones) (roomy : ones ≤ 30) where
  -- The first usable address of a subnet with at least two host bits is the one after the network address.
  pub first_usable-base : first_usable net ≡ some (uint32_to_ip (base addr ones + 1))
  unfolding first_usable
  first_usable-base =
      let n = base addr ones in
      rw (network_addr-base s, s.prefix, mask_size-cidr_mask ones s.short)
        (ground (arith, uint32_to_ip-bytes n, next_byte n, base_mod_four addr ones))

  -- The last usable address is the one before the broadcast address.
  pub last_usable-base : last_usable net ≡ some (uint32_to_ip (base addr ones + (size ones - 2)))
  unfolding last_usable
  last_usable-base =
      let n = base addr ones + (size ones - 1) in
      rw (broadcast_addr-last s, s.prefix, mask_size-cidr_mask ones s.short)
        (ground (
          arith,
          uint32_to_ip-bytes n,
          previous_byte n,
          base_mod_four addr ones,
          usable_size ones,
          two-pow-pos (30 - ones),
        ))
