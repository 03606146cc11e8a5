-- ===== src/Keycounter.antt =====
-- keycounter/keycounter.go: how often each key is held. The mutex makes each method one step.
-- Counts are unbounded: an `int` wraps after 2 ^ 63 calls.
pub mod Counts
mod Tests
use common_lib_go.Prelude.{
  ℕ, Option, none, some, List, [], length, lookup, insert, delete, if◌then◌else◌,
}
use common_lib_go.Prelude.Int.{ℤ, pos, negsuc, ◌+ℤ◌, ◌-ℤ◌, eqb_ℤ}

-- `KeyCounter`: the map `keys`.
pub record KeyCounter (K : Type 0) : Type 0 where
  pub keys : List (K × ℤ)

-- `New`
unfoldable pub new : {K : Type 0} → KeyCounter K
new = record { keys = [] }

-- A missing key reads as 0.
abbrev pub or_zero : Option ℤ → ℤ
or_zero none = pos 0
or_zero (some v) = v

module _ {K : Type 0} (dec : Discrete K) where
  unfoldable pub value : KeyCounter K → K → ℤ
  value s k = or_zero (lookup dec k s.keys)

  unfoldable pub inc : KeyCounter K → K → KeyCounter K
  unfolding value
  inc s k = record { keys = insert dec k (value s k +ℤ pos 1) s.keys }

  unfoldable pub dec_key : KeyCounter K → K → KeyCounter K
  unfolding value
  dec_key s k =
      let keys' = insert dec k (value s k -ℤ pos 1) s.keys in
      if eqb_ℤ (or_zero (lookup dec k keys')) (pos 0)
      then record { keys = delete dec k keys' }
      else record { keys = keys' }

unfoldable pub count : {K : Type 0} → KeyCounter K → ℕ
count s = length s.keys
