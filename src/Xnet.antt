-- ===== src/Xnet.antt =====
-- xnet/ip.go: IPv4 addresses and subnets as byte slices, and their `uint32` forms.
-- `none` is a run-time panic: an index into a slice that is too short.
pub mod Convert
pub mod Subnet
mod Tests
use Prim.Native.Nat.{bit_and, bit_or, bit_xor}
use common_lib_go.Prelude.{
  ℕ, zero, suc, ◌+◌, ◌-◌, ◌*◌, ◌/◌, ◌%◌, ◌^◌, Bool, true, false, Option, none, some, List, [], ◌∷◌,
  ◌==◌, leb, if◌then◌else◌, length, get_elem?, set, replicate, drop, take, ◌>>=◌,
}

-- `xnet.IP`: the bytes of a `net.IP`; the nil slice is the empty list.
pub record Ip : Type 0 where
  pub bytes : List ℕ

-- `xnet.IPNet`: the address and the mask of a `net.IPNet`.
pub record IpNet : Type 0 where
  pub ip : Ip
  pub mask : List ℕ

abbrev pub same_bytes : List ℕ → List ℕ → Bool
same_bytes [] [] = true
same_bytes (a ∷ as') (b ∷ bs) = let rest = same_bytes as' bs in if a == b then rest else false
same_bytes _ _ = false

-- The twelve bytes before an IPv4 address in its 16-byte form.
abbrev pub v4_prefix : List ℕ
v4_prefix = 0 ∷ 0 ∷ 0 ∷ 0 ∷ 0 ∷ 0 ∷ 0 ∷ 0 ∷ 0 ∷ 0 ∷ 0xff ∷ 0xff ∷ []

-- `net.IP.To4`: the four bytes of an IPv4 address in either form, nil for any other slice.
unfoldable pub to4 : List ℕ → Option (List ℕ)
to4 bs =
    if length bs == 4
    then some bs
    else if length bs == 16
    then (if same_bytes (take 12 bs) v4_prefix then some (drop 12 bs) else none)
    else none

unfoldable pub isv4 : Ip → Bool
unfolding to4
isv4 ip = elim (to4 ip.bytes) [ none ↦ false | some _ ↦ true ]

-- A shift to the left of a `uint32`.
abbrev pub shl32 : ℕ → ℕ → ℕ
shl32 x k = (x * 2 ^ k) % 2 ^ 32

-- The four bytes at the front of a slice, joined by shifts and `|`.
unfoldable pub bytes_to_uint32 : List ℕ → Option ℕ
bytes_to_uint32 bs = do
  b0 ← get_elem? bs 0
  b1 ← get_elem? bs 1
  b2 ← get_elem? bs 2
  b3 ← get_elem? bs 3
  some (bit_or (bit_or (bit_or (shl32 b0 24) (shl32 b1 16)) (shl32 b2 8)) b3)

-- An index into the nil slice of `To4` panics.
unfoldable pub to_uint32 : Ip → Option ℕ
to_uint32 ip = do bs ← to4 ip.bytes; bytes_to_uint32 bs

unfoldable pub mask_to_uint32 : List ℕ → Option ℕ
mask_to_uint32 mask = bytes_to_uint32 mask

unfoldable pub uint32_to_ip : ℕ → Ip
uint32_to_ip n = record {
  bytes =
      bit_and n 0xff000000 / 2 ^ 24 % 256
      ∷ bit_and n 0x00ff0000 / 2 ^ 16 % 256
      ∷ bit_and n 0x0000ff00 / 2 ^ 8 % 256
      ∷ bit_and n 0x000000ff % 256
      ∷ [];
}

-- `net.IPMask.Size`: the ones of a byte that is ones and then zeros, and so for the slice.
unfoldable pub byte_ones : ℕ → ℕ → ℕ → Option ℕ
byte_ones zero v n = some n
byte_ones (suc f) v n =
    let rest = byte_ones f (v * 2 % 256) (n + 1) in
    if leb 128 v then rest else if v == 0 then some n else none

unfoldable pub zeros : List ℕ → Bool
zeros [] = true
zeros (b ∷ bs) = let rest = zeros bs in if b == 0 then rest else false

unfoldable pub slice_ones : List ℕ → ℕ → Option ℕ
slice_ones [] n = some n
slice_ones (b ∷ bs) n =
    let rest = slice_ones bs (n + 8) in
    if b == 0xff then rest else if zeros bs then byte_ones 8 b n else none

-- A mask that is not ones and then zeros has size 0, 0.
unfoldable pub mask_size : List ℕ → ℕ × ℕ
unfolding byte_ones zeros slice_ones
mask_size mask = elim (slice_ones mask 0) [ none ↦ (0, 0) | some ones ↦ (ones, 8 * length mask) ]

unfoldable pub network_addr : IpNet → Option Ip
network_addr net = do
  mask ← mask_to_uint32 net.mask
  addr ← to_uint32 net.ip
  some (uint32_to_ip (bit_and addr mask))

unfoldable pub broadcast_addr : IpNet → Option Ip
broadcast_addr net = do
  mask ← mask_to_uint32 net.mask
  addr ← to_uint32 net.ip
  let net_addr = bit_and addr mask
  some (uint32_to_ip (bit_or net_addr (bit_xor mask 0xffffffff)))

-- `ip.IP[3]++` and `ip.IP[3]--` on a byte.
abbrev pub bump_last : (ℕ → ℕ) → Ip → Option Ip
bump_last f ip = do b ← get_elem? ip.bytes 3; some (record { bytes = set ip.bytes 3 (f b % 256) })

unfoldable pub first_usable : IpNet → Option Ip
first_usable net = do
  net_addr ← network_addr net
  if leb (mask_size net.mask).0 30 then bump_last (λ b. b + 1) net_addr else some net_addr

unfoldable pub last_usable : IpNet → Option Ip
last_usable net = do
  bc_addr ← broadcast_addr net
  if leb (mask_size net.mask).0 30 then bump_last (λ b. b + 255) bc_addr else some bc_addr
