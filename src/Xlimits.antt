-- ===== src/Xlimits.antt =====
-- xlimits/blocker.go: `Blocker`, which keeps one semaphore for each id that is in use. Each id has a
-- `consumer`, with its semaphore and the number of its users. A semaphore is a pointer here; its own
-- state is not under this code, and whether its `Acquire` fails is an argument of `acquire`.
pub mod Usage
pub mod Shared
mod Tests
use common_lib_go.Prelude.{
  ℕ, zero, suc, ◌+◌, Bool, true, false, Option, none, some, List, [], ◌∷◌, if◌then◌else◌, lookup,
  insert, delete,
}
use common_lib_go.Prelude.Int.{ℤ, pos, negsuc, ◌+ℤ◌, ◌-ℤ◌, eqb_ℤ}

-- `consumer`
pub record Consumer : Type 0 where
  pub limit : ℕ
  pub usage : ℤ

-- `Blocker`. No semaphore stands at `fresh` or above. Each new one has the weight `max_conn`.
pub record Blocker (K : Type 0) : Type 0 where
  pub max_conn : ℤ
  pub consumers : List (K × Consumer)
  pub fresh : ℕ

unfoldable pub new_blocker : {K : Type 0} → ℤ → Blocker K
new_blocker max_conn = record { max_conn = max_conn; consumers = []; fresh = 0 }

module _ {K : Type 0} (dec : Discrete K) where
  unfoldable pub take_consumer : Blocker K → K → Blocker K × ℕ
  take_consumer s id = elim (lookup dec id s.consumers) [
    | none ↦ (
      record s {
        consumers = insert dec id (record { limit = s.fresh; usage = pos 0 +ℤ pos 1 }) s.consumers;
        fresh = suc s.fresh;
      },
      s.fresh,
    )
    | some c ↦ (
      record s { consumers = insert dec id (record c { usage = c.usage +ℤ pos 1 }) s.consumers },
      c.limit,
    )
  ]

  unfoldable pub put : Blocker K → K → Blocker K
  put s id = elim (lookup dec id s.consumers) [
    | none ↦ s
    | some c ↦
        let usage' = c.usage -ℤ pos 1 in
        if eqb_ℤ usage' (pos 0)
        then record s { consumers = delete dec id s.consumers }
        else record s { consumers = insert dec id (record c { usage = usage' }) s.consumers }
  ]

  -- `Acquire`; `failed` says that the semaphore, which the id then has, returned an error.
  unfoldable pub acquire : Blocker K → K → Bool → Blocker K × Option ℕ
  unfolding take_consumer put
  acquire s id failed =
      let (s', limit) = take_consumer s id in if failed then (put s' id, none) else (s', some limit)

  -- `Release`, once the semaphore is released.
  unfoldable pub release : Blocker K → K → Blocker K
  unfolding put
  release s id = put s id
