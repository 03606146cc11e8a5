-- ===== src/Protect.antt =====
-- protect/counter.go: `ProtectCounter`, which counts how often each address is protected and calls
-- the wrapped protector for the first and the last time. The mutex makes each method one step.
pub mod Interface
pub mod Counter
pub mod Leak
mod Tests
use common_lib_go.Prelude.{
  ℕ, ◌+◌, Bool, true, false, Option, none, some, List, [], ◌∷◌, map, lookup, insert, delete,
  if◌then◌else◌,
}
use common_lib_go.Prelude.Int.{ℤ, pos, negsuc, ◌+ℤ◌, ◌-ℤ◌, eqb_ℤ}

-- `protect.Protector`: a call changes the state `S` of the protector and may fail with an `E`.
-- `SocketProtector` only hands the protector's function on.
pub record Protector (A S E : Type 0) : Type 0 where
  pub protect_addresses : List A → S → S × Option E
  pub unprotect_addresses : List A → S → S × Option E

-- `ProtectCounter`, with the state of the wrapped protector.
pub record ProtectCounter (A S : Type 0) : Type 0 where
  pub protector : S
  pub protected : List (A × ℤ)

abbrev pub or_zero : Option ℤ → ℤ
or_zero none = pos 0
or_zero (some v) = v

abbrev pub is_some {ℓ} : {A : Type ℓ} → Option A → Bool
is_some none = false
is_some (some _) = true

abbrev pub keys : {A : Type 0} → List (A × ℤ) → List A
keys = map (λ e. e.0)

module _ {A : Type 0} (dec : Discrete A) where
  -- The first loop of `ProtectAddresses`: the addresses that are no key.
  unfoldable pub unprotected : List (A × ℤ) → List A → List A
  unprotected m [] = []
  unprotected m (a ∷ as') =
      let rest = unprotected m as' in if is_some (lookup dec a m) then rest else a ∷ rest

  -- The second loop: `pc.protected[addr] += 1`
  unfoldable pub count_up : List (A × ℤ) → List A → List (A × ℤ)
  count_up m [] = m
  count_up m (a ∷ as') = count_up (insert dec a (or_zero (lookup dec a m) +ℤ pos 1) m) as'

  -- The first loop of `UnprotectAddresses`: the addresses with the count 1.
  unfoldable pub last_holders : List (A × ℤ) → List A → List A
  last_holders m [] = []
  last_holders m (a ∷ as') =
      let rest = last_holders m as' in
      if eqb_ℤ (or_zero (lookup dec a m)) (pos 1) then a ∷ rest else rest

  -- One round of the second loop: `pc.protected[addr] -= 1`, and a delete at 0.
  unfoldable pub count_down_one : List (A × ℤ) → A → List (A × ℤ)
  count_down_one m a =
      let m' = insert dec a (or_zero (lookup dec a m) -ℤ pos 1) m in
      if eqb_ℤ (or_zero (lookup dec a m')) (pos 0) then delete dec a m' else m'

  unfoldable pub count_down : List (A × ℤ) → List A → List (A × ℤ)
  unfolding count_down_one
  count_down m [] = m
  count_down m (a ∷ as') = count_down (count_down_one m a) as'

module _ {A S E : Type 0} (dec : Discrete A) (p : Protector A S E) where
  unfoldable pub protect_addresses : ProtectCounter A S → List A → ProtectCounter A S × Option E
  protect_addresses pc addrs =
      let (s, failed) = p.protect_addresses (unprotected dec pc.protected addrs) pc.protector in
      if is_some failed
      then (record pc { protector = s }, failed)
      else (record { protector = s; protected = count_up dec pc.protected addrs }, none)

  unfoldable pub unprotect_addresses : ProtectCounter A S → List A → ProtectCounter A S × Option E
  unprotect_addresses pc addrs =
      let (s, failed) = p.unprotect_addresses (last_holders dec pc.protected addrs) pc.protector in
      (record { protector = s; protected = count_down dec pc.protected addrs }, failed)

  -- An error of the wrapped protector is logged, and the counts are dropped all the same.
  unfoldable pub unprotect_all : ProtectCounter A S → ProtectCounter A S
  unprotect_all pc =
      let (s, failed) = p.unprotect_addresses (keys pc.protected) pc.protector in
      record { protector = s; protected = [] }
