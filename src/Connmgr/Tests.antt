-- ===== src/Connmgr/Tests.antt =====
-- Runs of the manager with three ids, and the theorems applied to them.
use common_lib_go.Prelude.{
  ℕ, ◌≡◌, refl, ite, none, some, [], ◌∷◌, arith, Bool-cases, inl, inr, ◌==◌, get_elem?, lookup,
  insert, delete, ℕ_discrete,
}
use common_lib_go.Connmgr.{
  Instance, new_conn_mgr, new_id, shift, register_conn, lookup_conn, unregister, close_all,
}
use common_lib_go.Connmgr.Register.{IsValid, Registered, register_conn_lem, register_conn_full}
use common_lib_go.Connmgr.Registry.{unregister_lem, close_all_lem}
use common_lib_go.Prelude.Pigeonhole.{Covers}

program : Unit {0}
unfolding new_conn_mgr new_id shift register_conn lookup_conn unregister close_all lookup insert
    delete ℕ_discrete
program = tt

-- The ids 5 to 7; the next is 7, and 7 is taken.
abbrev some_conns : Instance ℕ
some_conns = record { pmap = (7, 70) ∷ []; id = record { current = 7; min = 5; max = 7 } }

abbrev all_conns : Instance ℕ
all_conns = record {
  pmap = (7, 70) ∷ (5, 50) ∷ (6, 60) ∷ [];
  id = record { current = 6; min = 5; max = 7 };
}

some_conns-IsValid : IsValid some_conns
some_conns-IsValid = record { low = omega arith; high = omega arith; distinct = (tt, tt) }

all_conns-IsValid : IsValid all_conns
all_conns-IsValid = record { low = omega arith; high = omega arith; distinct = ground arith }

all_conns-Covers : Covers 5 3 all_conns.pmap
unfolding lookup
all_conns-Covers n h l = elim (Bool-cases (n == 5)) [
  | inl five ↦ (50, ground arith)
  | inr not5 ↦ elim (Bool-cases (n == 6)) [
    | inl six ↦ (60, ground arith)
    | inr not6 ↦ (70, ground arith)
  ]
]

register_conn_wraps :
    register_conn 3 some_conns 80
    ≡ some
        (record { pmap = (7, 70) ∷ (5, 80) ∷ []; id = record { current = 6; min = 5; max = 7 } }, 5)
unfolding program
register_conn_wraps = refl

first_id :
    register_conn {C = ℕ} 1 new_conn_mgr 80
    ≡ some (
      record {
        pmap = (1_024, 80) ∷ [];
        id = record { current = 1_025; min = 1_024; max = 2_147_483_647 };
      },
      1_024,
    )
unfolding program
first_id = refl

register_conn_lem_example :
    (id : ℕ) × (m' : Instance ℕ) × (register_conn 3 some_conns 80 ≡ some (m', id))
    × Registered some_conns m' 80 id
register_conn_lem_example = register_conn_lem some_conns 80 some_conns-IsValid (omega arith)

register_conn_full_example : register_conn 1_000 all_conns 80 ≡ none
register_conn_full_example =
    register_conn_full 1_000 all_conns 80 all_conns-IsValid all_conns-Covers

unregister_lem_example :
    let r = unregister some_conns 7 in
    (r.1 ≡ none)
    × ((j : ℕ) → lookup_conn r.0 j ≡ ite (ℕ_discrete j 7) none (lookup_conn some_conns j))
    × IsValid r.0
unfolding lookup_conn lookup ℕ_discrete
unregister_lem_example = unregister_lem some_conns 7 some_conns-IsValid

close_all_lem_example :
    let r = close_all some_conns in
    ((id : ℕ) (c : ℕ) → lookup_conn some_conns id ≡ some c → (i : ℕ) × (get_elem? r.1 i ≡ some c))
    × ((id : ℕ) → lookup_conn r.0 id ≡ none)
    × IsValid r.0
close_all_lem_example = close_all_lem some_conns some_conns-IsValid
