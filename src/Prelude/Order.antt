-- ===== src/Prelude/Order.antt =====
-- `<` on the native numbers is well founded.
use Prim.Native.Nat.{ℕ, zero, suc, ◌<◌}
use mathlib.Core.WellFounded.{Acc, WellFounded}
use native.Mathlib.Omega.{arith}

Acc-below : (k n : ℕ) → n < k → Acc ◌<◌ n
Acc-below zero n h = elim h [ ]
Acc-below (suc k) n h = Acc.intro n (λ m hm. Acc-below k m (omega arith))

unfoldable pub lt_wf : WellFounded ◌<◌
unfolding Acc-below
lt_wf = record { apply = λ n. Acc-below (suc n) n (omega arith) }

below {ℓ} : (P : ℕ → Type ℓ) → ((n : ℕ) → ((m : ℕ) → m < n → P m) → P n) → (k n : ℕ) → n < k → P n
below P step zero n h = elim h [ ]
below P step (suc k) n h = step n (λ m hm. below P step k m (omega arith))

-- Strong induction.
pub strong {ℓ} : (P : ℕ → Type ℓ) → ((n : ℕ) → ((m : ℕ) → m < n → P m) → P n) → (n : ℕ) → P n
strong P step n = below P step (suc n) n (omega arith)
