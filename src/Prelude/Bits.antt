-- ===== src/Prelude/Bits.antt =====
-- `&`, `|` and `^` with masks and shifted fields, as arithmetic, at every width.
mod Step
use Step.{and_step, or_step, xor_step, or-zero, zero-or, and-zero}
use Prim.Native.Nat.{
  ℕ, zero, suc, ◌+◌, ◌-◌, ◌*◌, ◌/◌, ◌%◌, ◌^◌, ◌≤◌, ◌<◌, bit_and, bit_or, bit_xor, differ,
}
use mathlib.Core.Path.{◌≡◌, refl, ap}
use mathlib.Core.Bool.{Bool, true, ◌&&◌}
use native.Mathlib.Nat.{pow-suc, one-le-pow}
use native.Mathlib.Omega.{arith}

pub two-pow-suc : (k : ℕ) → 2 ^ suc k ≡ 2 * 2 ^ k
two-pow-suc k = omega (arith, pow-suc 2 k)

pub two-pow-pos : (k : ℕ) → 0 < 2 ^ k
two-pow-pos k = one-le-pow k 2 (omega arith)

double_field : (q k : ℕ) → q * 2 ^ suc k ≡ 2 * (q * 2 ^ k)
double_field q k = omega (arith, ap (λ (t : ℕ). q * t) (two-pow-suc k))

-- `q << k | r`, for an `r` of `k` bits.
pub or_low : (k q r : ℕ) → r < 2 ^ k → bit_or (q * 2 ^ k) r ≡ q * 2 ^ k + r
or_low zero q r h = ground (arith, or-zero q)
or_low (suc k) q r h =
    ground (arith, two-pow-suc k, double_field q k, or_step (q * 2 ^ suc k) r, or_low k q (r / 2))

-- `r | q << k`, for an `r` of `k` bits.
pub or_high : (k q r : ℕ) → r < 2 ^ k → bit_or r (q * 2 ^ k) ≡ q * 2 ^ k + r
or_high zero q r h = let e : r ≡ 0 = omega arith in rw e (omega (arith, zero-or (q * 1)))
or_high (suc k) q r h =
    ground (arith, two-pow-suc k, double_field q k, or_step r (q * 2 ^ suc k), or_high k q (r / 2))

and_low_field : (k q r : ℕ) → r < 2 ^ k → bit_and (q * 2 ^ k + r) (2 ^ k - 1) ≡ r
and_low_field zero q r h = ground (arith, and-zero (q * 1 + r))
and_low_field (suc k) q r h = ground (
  arith,
  two-pow-suc k,
  double_field q k,
  and_step (q * 2 ^ suc k + r) (2 ^ suc k - 1),
  and_low_field k q (r / 2),
)

-- `a & (1 << k - 1)`
pub and_low : (k a : ℕ) → bit_and a (2 ^ k - 1) ≡ a % 2 ^ k
and_low k a = ground (arith, two-pow-pos k, and_low_field k (a / 2 ^ k) (a % 2 ^ k))

and_high_field :
    (k q r m : ℕ) → r < 2 ^ k → bit_and (q * 2 ^ k + r) (m * 2 ^ k) ≡ bit_and q m * 2 ^ k
and_high_field zero q r m h = ground arith
and_high_field (suc k) q r m h = ground (
  arith,
  two-pow-suc k,
  double_field q k,
  double_field m k,
  double_field (bit_and q m) k,
  and_step (q * 2 ^ suc k + r) (m * 2 ^ suc k),
  and_high_field k q (r / 2) m,
)

-- `a & m << k`
pub and_high : (k a m : ℕ) → bit_and a (m * 2 ^ k) ≡ bit_and (a / 2 ^ k) m * 2 ^ k
and_high k a m = ground (arith, two-pow-pos k, and_high_field k (a / 2 ^ k) (a % 2 ^ k) m)

differ_one : (d e : ℕ) → d < 2 → e ≡ 1 → differ d e ≡ 1 - d
differ_one zero e h p = p
differ_one (suc d) e h p = rw p (omega (arith, differ-zero d))
  where
    differ-zero : (n : ℕ) → differ n zero ≡ n
    differ-zero zero = refl
    differ-zero (suc n) = refl

-- `a ^ (1 << k - 1)`, for an `a` of `k` bits.
pub xor_ones : (k a : ℕ) → a < 2 ^ k → bit_xor a (2 ^ k - 1) ≡ 2 ^ k - 1 - a
xor_ones zero zero h = refl
xor_ones zero (suc a) h = absurd (omega arith)
xor_ones (suc k) a h = ground (
  arith,
  two-pow-suc k,
  two-pow-pos k,
  xor_step a (2 ^ suc k - 1),
  differ_one (a % 2) ((2 ^ suc k - 1) % 2),
  xor_ones k (a / 2),
)

-- Every value below a small bound, by evaluation.
unfoldable pub all_below : ℕ → (ℕ → Bool) → Bool
all_below zero p = true
all_below (suc n) p = p n && all_below n p

pub all_below_sound : (n : ℕ) (p : ℕ → Bool) (x : ℕ) → all_below n p ≡ true → x < n → p x ≡ true
unfolding all_below
all_below_sound zero p x h lt = elim lt [ ]
all_below_sound (suc n) p x h lt = ground (arith, all_below_sound n p x)
