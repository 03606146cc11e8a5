-- ===== src/Protect/Tests.antt =====
-- Tests and instances: a protector whose state is a function from addresses to whether they are on,
-- and whose calls fail when address 9 is to be protected, after they have switched the list on.
use common_lib_go.Prelude.{
  ℕ, ◌≡◌, ◌⊎◌, refl, arith, ◌+◌, ◌-◌, ◌==◌, lookup, insert, delete, ℕ_discrete, Bool, true, false,
  not, [], ◌∷◌, none, some, if◌then◌else◌,
}
use common_lib_go.Prelude.Int.{pos, ◌+ℤ◌, ◌-ℤ◌}
use common_lib_go.Protect.{
  Protector, ProtectCounter, unprotected, count_up, protect_addresses, last_holders, count_down_one,
  count_down, unprotect_addresses, unprotect_all,
}
use common_lib_go.Protect.Interface.{has, IsSwitch}
use common_lib_go.Protect.Counter
use common_lib_go.Protect.Counter.{Inv, Holds, times}
use common_lib_go.Protect.Leak

program : Unit {0}
unfolding lookup insert delete ℕ_discrete ◌+ℤ◌ ◌-ℤ◌ unprotected count_up protect_addresses
    last_holders count_down_one count_down unprotect_addresses unprotect_all
program = tt

abbrev State : Type 0
State = ℕ → Bool

abbrev dec : Discrete ℕ
dec = ℕ_discrete

abbrev switch : Protector ℕ State ℕ
switch = record {
  protect_addresses =
      λ as' s. (λ a. if has dec a as' then true else s a, if has dec 9 as' then some 9 else none);
  unprotect_addresses = λ as' s. (λ a. if has dec a as' then false else s a, none);
}

abbrev on : ℕ → State → Bool
on a s = s a

switch-IsSwitch : IsSwitch dec switch on
switch-IsSwitch = record { protect_ok = λ as' s a e. refl; unprotect_ok = λ as' s a e. refl }

abbrev empty : ProtectCounter ℕ State
empty = record { protector = λ a. false; protected = [] }

empty-Inv : Inv dec on empty (λ _. 0)
unfolding program
empty-Inv = record { holds = record { distinct = tt; counts = λ a. refl }; switched = λ a. refl }

abbrev twice : ProtectCounter ℕ State
twice = record {
  protector = λ a. if has dec a (4 ∷ []) then true else false;
  protected = (4, pos 2) ∷ [];
}

abbrev two_of_four : ℕ → ℕ
two_of_four a = if a == 4 then 2 else 0

twice-Inv : Inv dec on twice two_of_four
unfolding program
twice-Inv = record {
  holds = record { distinct = (tt, tt); counts = λ a. ground arith };
  switched = λ a. ground arith;
}

protect_twice : (protect_addresses dec switch empty (4 ∷ 4 ∷ [])).0.protected ≡ twice.protected
unfolding program
protect_twice = refl

-- A call that fails leaves the counts, and the address 7 switched on.
protect_nine :
    let r = protect_addresses dec switch twice (7 ∷ 9 ∷ []) in
    (r.1 ≡ some 9) × (r.0.protected ≡ twice.protected) × (on 7 r.0.protector ≡ true)
unfolding program
protect_nine = (refl, refl, refl)

protect_lem_example :
    let given = unprotected dec twice.protected (4 ∷ 7 ∷ 9 ∷ []) in
    let asked = switch.protect_addresses given twice.protector in
    let r = protect_addresses dec switch twice (4 ∷ 7 ∷ 9 ∷ []) in
    ((a : ℕ)
      → has dec a given
        ≡ (if two_of_four a == 0 then not (times dec a (4 ∷ 7 ∷ 9 ∷ []) == 0) else false))
    × (((asked.1 ≡ none)
          × (r.1 ≡ none)
          × Inv dec on r.0 (λ a. two_of_four a + times dec a (4 ∷ 7 ∷ 9 ∷ [])))
        ⊎ ((e : ℕ) × (asked.1 ≡ some e)
            × (r.1 ≡ some e)
            × (r.0.protected ≡ twice.protected)
            × Holds dec r.0.protected two_of_four
            × (r.0.protector ≡ asked.0)))
protect_lem_example = Counter.protect_lem dec switch on switch-IsSwitch twice-Inv (4 ∷ 7 ∷ 9 ∷ [])

unprotect_lem_example :
    Inv dec on
      (unprotect_addresses dec switch twice (4 ∷ [])).0
      (λ a. two_of_four a - times dec a (4 ∷ []))
unfolding program
unprotect_lem_example =
    Counter.unprotect_lem dec switch on switch-IsSwitch twice-Inv (4 ∷ []) (λ a. ground arith)
      (λ a. ground arith) refl

unprotect_repeated_leaks_example :
    let r = unprotect_addresses dec switch twice (4 ∷ 4 ∷ []) in
    (lookup dec 4 r.0.protected ≡ none) × (on 4 r.0.protector ≡ true)
unfolding program
unprotect_repeated_leaks_example =
    Leak.unprotect_repeated_leaks dec switch on switch-IsSwitch twice-Inv 4 (4 ∷ 4 ∷ [])
      (omega arith) refl (λ b. ground arith) refl
