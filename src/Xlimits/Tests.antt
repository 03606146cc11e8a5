-- ===== src/Xlimits/Tests.antt =====
-- Runs of a blocker, and the theorems applied to them.
use common_lib_go.Prelude.{
  ℕ, ◌≡◌, refl, true, false, List, [], ◌∷◌, arith, ℕ_discrete, lookup, insert, delete,
}
use common_lib_go.Prelude.Int.{pos, ◌+ℤ◌, ◌-ℤ◌}
use common_lib_go.Xlimits.{Blocker, new_blocker, take_consumer, put, acquire, release}
use common_lib_go.Xlimits.Usage.{Users, Counts, one_more, limit_of, take-Counts}
use common_lib_go.Xlimits.Shared.{
  Call, acquire_call, release_call, run, users_after_all, new-Counts, run-Counts,
}

program : Unit {0}
unfolding new_blocker take_consumer put acquire release run lookup insert delete ◌+ℤ◌ ◌-ℤ◌
    ℕ_discrete
program = tt

abbrev one_user : Blocker ℕ
one_user = (take_consumer ℕ_discrete (new_blocker (pos 2)) 4).0

abbrev user_of_four : Users ℕ
user_of_four = one_more ℕ_discrete 4 (λ _. 0)

one_user-Counts : Counts ℕ_discrete one_user user_of_four
one_user-Counts = (take-Counts ℕ_discrete 4 (new-Counts ℕ_discrete (pos 2))).0

abbrev calls : List (Call ℕ)
calls = acquire_call 4 false ∷ acquire_call 7 true ∷ release_call 4 ∷ []

all_gone :
    run ℕ_discrete (new_blocker (pos 2)) (acquire_call 4 false ∷ release_call 4 ∷ [])
    ≡ record { max_conn = pos 2; consumers = []; fresh = 1 }
unfolding program
all_gone = refl

run-Counts_example :
    Counts ℕ_discrete
      (run ℕ_discrete one_user calls)
      (users_after_all ℕ_discrete user_of_four calls)
    × (limit_of ℕ_discrete (run ℕ_discrete one_user calls) 4 ≡ limit_of ℕ_discrete one_user 4)
unfolding ℕ_discrete
run-Counts_example =
    run-Counts ℕ_discrete 4 calls one_user user_of_four one_user-Counts
      (omega arith, tt, (omega arith, tt, (omega arith, omega arith, omega arith)))
