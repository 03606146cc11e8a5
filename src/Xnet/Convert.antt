-- ===== src/Xnet/Convert.antt =====
-- The two forms of an IPv4 address are inverse to each other.
use Prim.Native.Nat.{bit_and, bit_or}
use common_lib_go.Prelude.{ℕ, ◌+◌, ◌*◌, ◌/◌, ◌%◌, ◌^◌, ◌<◌, ◌≡◌, some, [], ◌∷◌, arith, true}
use common_lib_go.Prelude.Bits.{or_low, and_low, and_high}
use common_lib_go.Xnet.{to4, bytes_to_uint32, to_uint32, uint32_to_ip, isv4}

-- The number whose bytes, the highest first, are the four.
abbrev pub big_endian : ℕ → ℕ → ℕ → ℕ → ℕ
big_endian a b c d = ((a * 256 + b) * 256 + c) * 256 + d

join_bytes :
    (a b c d : ℕ)
    → a < 256
    → b < 256
    → c < 256
    → d < 256
    → bit_or (bit_or (bit_or (a * 2 ^ 24) (b * 2 ^ 16)) (c * 2 ^ 8)) d ≡ big_endian a b c d
join_bytes a b c d ha hb hc hd = ground (
  arith,
  or_low 24 a (b * 2 ^ 16),
  or_low 16 (a * 256 + b) (c * 2 ^ 8),
  or_low 8 ((a * 256 + b) * 256 + c) d,
)

pub bytes_to_uint32-big_endian :
    (a b c d : ℕ)
    → a < 256
    → b < 256
    → c < 256
    → d < 256
    → bytes_to_uint32 (a ∷ b ∷ c ∷ d ∷ []) ≡ some (big_endian a b c d)
unfolding bytes_to_uint32
bytes_to_uint32-big_endian a b c d ha hb hc hd = ground (arith, join_bytes a b c d)

-- Byte `i` of a number, counted from the lowest.
abbrev pub byte : ℕ → ℕ → ℕ
byte n i = n / 2 ^ (8 * i) % 256

masked_byte : (k n : ℕ) → bit_and n (255 * 2 ^ k) ≡ n / 2 ^ k % 256 * 2 ^ k
masked_byte k n = ground (arith, and_high k n 255, and_low 8 (n / 2 ^ k))

pub uint32_to_ip-bytes :
    (n : ℕ) → (uint32_to_ip n).bytes ≡ byte n 3 ∷ byte n 2 ∷ byte n 1 ∷ byte n 0 ∷ []
unfolding uint32_to_ip
uint32_to_ip-bytes n =
    ground (arith, masked_byte 24 n, masked_byte 16 n, masked_byte 8 n, masked_byte 0 n)

-- Every 32-bit number survives the way to an address and back, and the address is an IPv4 one.
pub to_uint32-uint32_to_ip : (n : ℕ) → n < 2 ^ 32 → to_uint32 (uint32_to_ip n) ≡ some n
unfolding to_uint32 to4
to_uint32-uint32_to_ip n h =
    rw (uint32_to_ip-bytes n)
      (ground (arith, bytes_to_uint32-big_endian (byte n 3) (byte n 2) (byte n 1) (byte n 0)))

pub isv4-uint32_to_ip : (n : ℕ) → isv4 (uint32_to_ip n) ≡ true
unfolding isv4
isv4-uint32_to_ip n = rw (uint32_to_ip-bytes n)

-- An address of four bytes survives the way to a number and back.
pub uint32_to_ip-to_uint32 :
    (a b c d : ℕ)
    → a < 256
    → b < 256
    → c < 256
    → d < 256
    → (n : ℕ) → to_uint32 (record { bytes = a ∷ b ∷ c ∷ d ∷ [] }) ≡ some n
    → uint32_to_ip n ≡ record { bytes = a ∷ b ∷ c ∷ d ∷ [] }
unfolding to_uint32 to4
uint32_to_ip-to_uint32 a b c d ha hb hc hd n e =
    ground (arith, bytes_to_uint32-big_endian a b c d, uint32_to_ip-bytes n)
