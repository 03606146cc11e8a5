-- ===== src/Xttlmap/Tests.antt =====
-- Runs of the map on concrete values, and the theorems applied to them.
use common_lib_go.Prelude.{
  ℕ, ◌≡◌, refl, Bool, false, none, some, [], ◌∷◌, arith, ℕ_discrete, lookup, delete, insert,
}
use common_lib_go.Prelude.Int.{pos, negsuc}
use common_lib_go.Xttlmap.{
  Entry, TtlMap, new, add_entry, add_to_front, update, remove_oldest, drop_node, remove_node, evict,
  start_cleanup, get, set_key, delete_key, resize, cleanup_expired, get_finish, get_node,
}
use common_lib_go.Xttlmap.Dll.{Cells}
use common_lib_go.Xttlmap.Index.{find}
use common_lib_go.Xttlmap.Valid.{Valid, new-Valid}
use common_lib_go.Xttlmap.Add.{add_entry-Valid}
use common_lib_go.Xttlmap.Recent.{recent_get, recent_set, recent_live}
use common_lib_go.Xttlmap.Holds.{Holds}
use common_lib_go.Xttlmap.Methods.{get_lem, delete_key_lem}
use common_lib_go.Xttlmap.SetKey.{set_key_lem}
use common_lib_go.Xttlmap.Cleanup.{cleanup_expired_lem, resize_lem}
use common_lib_go.Xttlmap.Hang.{never_ends}
use common_lib_go.Xttlmap.Race.{get_races_delete}

program : Unit {0}
unfolding new add_entry add_to_front update remove_oldest drop_node remove_node evict set_key
    start_cleanup insert lookup delete ℕ_discrete
program = tt

abbrev five : Entry ℕ ℕ
five = record { key = 5; value = 50; deadline = none }

abbrev six : Entry ℕ ℕ
six = record { key = 6; value = 60; deadline = some 100 }

-- A map of two keys with room for two.
abbrev two : TtlMap ℕ ℕ
two = add_entry ℕ_discrete (add_entry ℕ_discrete (new (pos 2) 0) five) six

two-Holds : Holds ℕ_discrete two 2 ((6, (60, some 100)) ∷ (5, (50, none)) ∷ [])
unfolding new add_entry find ℕ_discrete
two-Holds = record {
  cells = (1, six) ∷ (0, five) ∷ [];
  valid =
      add_entry-Valid ℕ_discrete _ ((0, five) ∷ []) six
        (add_entry-Valid ℕ_discrete (new (pos 2) 0) [] five (new-Valid ℕ_discrete (pos 2) 0) refl)
        refl;
  shows = refl;
  max_size = refl;
  bounded = omega arith;
}

abbrev none_room : TtlMap ℕ ℕ
none_room = new (pos 0) 0

set_third :
    set_key ℕ_discrete 9 two 7 70 none 1
    ≡ some (
      add_entry ℕ_discrete
          (remove_oldest ℕ_discrete two)
          (record { key = 7; value = 70; deadline = none }),
      false,
    )
unfolding program
set_third = refl

get_lem_example :
    ((get ℕ_discrete two 5 7).1 ≡ some 50)
    × Holds ℕ_discrete (get ℕ_discrete two 5 7).0 2 ((5, (50, none)) ∷ (6, (60, some 100)) ∷ [])
unfolding recent_get lookup delete ℕ_discrete
get_lem_example = get_lem ℕ_discrete two-Holds 5 7

set_key_lem_example :
    (t : TtlMap ℕ ℕ) × (started : Bool) × (set_key ℕ_discrete 3 two 7 70 none 1 ≡ some (t, started))
    × Holds ℕ_discrete t 2 ((7, (70, none)) ∷ (6, (60, some 100)) ∷ [])
unfolding recent_set lookup delete ℕ_discrete
set_key_lem_example = set_key_lem ℕ_discrete two-Holds 3 7 70 none 1 (omega arith) (omega arith)

delete_key_lem_example : Holds ℕ_discrete (delete_key ℕ_discrete two 6 1).0 2 ((5, (50, none)) ∷ [])
unfolding delete ℕ_discrete
delete_key_lem_example = delete_key_lem ℕ_discrete two-Holds 6 1

resize_lem_example :
    (t : TtlMap ℕ ℕ) × (resize ℕ_discrete 3 two (pos 1) ≡ some t)
    × Holds ℕ_discrete t 1 ((6, (60, some 100)) ∷ [])
resize_lem_example = resize_lem ℕ_discrete two-Holds 3 1 (omega arith)

cleanup_expired_lem_example :
    Holds ℕ_discrete (cleanup_expired ℕ_discrete two 101) 2 ((5, (50, none)) ∷ [])
unfolding recent_live
cleanup_expired_lem_example = cleanup_expired_lem ℕ_discrete two-Holds 101

never_ends_example :
    (set_key ℕ_discrete 1000 none_room 5 50 none 1 ≡ none)
    × (resize ℕ_discrete 1000 two (negsuc 0) ≡ none)
unfolding program
never_ends_example = never_ends ℕ_discrete none_room 1000 5 50 none 1 0 (omega arith) refl two refl

get_races_delete_example :
    let u =
      get_finish ℕ_discrete (delete_key ℕ_discrete two 5 7).0 (get_node ℕ_discrete two 5) 5 7 in
    (u.1 ≡ some 50)
    × (lookup ℕ_discrete 5 u.0.items ≡ none)
    × (¬ ((cs : Cells ℕ ℕ) × Valid ℕ_discrete u.0 cs))
unfolding lookup ℕ_discrete
get_races_delete_example = get_races_delete ℕ_discrete two-Holds 5 50 none 7 refl refl
