-- ===== src/Keycounter/Tests.antt =====
-- Tests and instances, over numbers as keys.
use common_lib_go.Prelude.{ℕ, ◌≡◌, refl, arith, ◌+◌, lookup, insert, delete, ℕ_discrete}
use common_lib_go.Prelude.Int.{pos, ◌+ℤ◌, ◌-ℤ◌}
use common_lib_go.Keycounter.{KeyCounter, new, value, inc, dec_key, count}
use common_lib_go.Keycounter.Counts
use common_lib_go.Keycounter.Counts.{Counts, one_more, one_less}

program : Unit {0}
unfolding new value inc dec_key count lookup insert delete ◌+ℤ◌ ◌-ℤ◌ ℕ_discrete
program = tt

abbrev none_held : KeyCounter ℕ
none_held = new

abbrev held : KeyCounter ℕ
held = inc ℕ_discrete new 4

twice : value ℕ_discrete (inc ℕ_discrete held 4) 4 ≡ pos 2
unfolding program
twice = refl

back : dec_key ℕ_discrete held 4 ≡ new
unfolding program
back = refl

inc_lem_example :
    Counts ℕ_discrete held (one_more ℕ_discrete 4 (λ _. 0)) × (count held ≡ count none_held + 1)
inc_lem_example = Counts.inc_lem ℕ_discrete (Counts.new-Counts ℕ_discrete) 4

dec_lem_example :
    Counts ℕ_discrete
      (dec_key ℕ_discrete held 4)
      (one_less ℕ_discrete 4 (one_more ℕ_discrete 4 (λ _. 0)))
    × (count (dec_key ℕ_discrete held 4) ≡ 0)
unfolding program
dec_lem_example = Counts.dec_lem ℕ_discrete inc_lem_example.0 4 (omega arith)
