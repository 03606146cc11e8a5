-- ===== src/Prelude/Bits/Step.antt =====
-- One binary digit of each operation, from the definition that the native operation stands for.
use Prim.Native.Nat.{
  ℕ, zero, suc, ◌+◌, ◌*◌, ◌/◌, ◌%◌, ◌≤◌, ◌<◌, min, max, bit_and, bit_or, bit_xor, digits, differ,
  bit_and-bitwise, bit_or-bitwise, bit_xor-bitwise,
}
use mathlib.Core.Path.{◌≡◌, refl, ap}
use native.Mathlib.Omega.{arith}
use common_lib_go.Prelude.Order.{strong}

module _ (z : ℕ → ℕ) (f : ℕ → ℕ → ℕ) where
  -- More digits than the first number has change nothing.
  enough : (n m a b : ℕ) → a ≤ n → a ≤ m → digits z f n a b ≡ digits z f m a b
  enough zero zero a b p q = refl
  enough zero (suc m) zero b p q = refl
  enough zero (suc m) (suc a) b p q = elim p [ ]
  enough (suc n) zero zero b p q = refl
  enough (suc n) zero (suc a) b p q = elim q [ ]
  enough (suc n) (suc m) zero b p q = refl
  enough (suc n) (suc m) (suc a) b p q =
      let shorter = enough n m (suc a / 2) (b / 2) (omega arith) (omega arith) in
      ap (λ t. t * 2 + f (suc a % 2) (b % 2)) shorter

  split :
      (a b : ℕ)
      → digits z f (suc a) (suc a) b
        ≡ digits z f (suc a / 2) (suc a / 2) (b / 2) * 2 + f (suc a % 2) (b % 2)
  split a b =
      ap (λ t. t * 2 + f (suc a % 2) (b % 2))
        (enough a (suc a / 2) (suc a / 2) (b / 2) (omega arith) (omega arith))

pub and_step : (a b : ℕ) → bit_and a b ≡ bit_and (a / 2) (b / 2) * 2 + min (a % 2) (b % 2)
and_step zero b = simp bit_and-bitwise (omega arith)
and_step (suc a) b = simp bit_and-bitwise (split (λ _. 0) min a b)

pub or_step : (a b : ℕ) → bit_or a b ≡ bit_or (a / 2) (b / 2) * 2 + max (a % 2) (b % 2)
or_step zero b = simp bit_or-bitwise (omega arith)
or_step (suc a) b = simp bit_or-bitwise (split (λ y. y) max a b)

pub xor_step : (a b : ℕ) → bit_xor a b ≡ bit_xor (a / 2) (b / 2) * 2 + differ (a % 2) (b % 2)
xor_step zero b = simp bit_xor-bitwise (omega arith)
xor_step (suc a) b = simp bit_xor-bitwise (split (λ y. y) differ a b)

pub and-zero : (a : ℕ) → bit_and a 0 ≡ 0
and-zero = strong (λ a. bit_and a 0 ≡ 0) halve
  where
    halve : (a : ℕ) → ((m : ℕ) → m < a → bit_and m 0 ≡ 0) → bit_and a 0 ≡ 0
    halve zero ih = refl
    halve (suc a) ih = omega (arith, and_step (suc a) 0, ih (suc a / 2) (omega arith))

pub or-zero : (a : ℕ) → bit_or a 0 ≡ a
or-zero = strong (λ a. bit_or a 0 ≡ a) halve
  where
    halve : (a : ℕ) → ((m : ℕ) → m < a → bit_or m 0 ≡ m) → bit_or a 0 ≡ a
    halve zero ih = refl
    halve (suc a) ih = omega (arith, or_step (suc a) 0, ih (suc a / 2) (omega arith))

pub zero-or : (a : ℕ) → bit_or 0 a ≡ a
zero-or a = simp bit_or-bitwise
