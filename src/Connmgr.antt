-- ===== src/Connmgr.antt =====
-- connmgr/connmgr.go and connmgr/id.go: the connections of a process, each with an id. A method is
-- one step: `Register`, which takes several, runs here with nothing in between. A connection is any
-- `C`; its `Close` is not under this code, so `close_all` gives the connections that it closes.
pub mod Register
pub mod Registry
mod Tests
use common_lib_go.Prelude.{
  ℕ, zero, suc, ◌+◌, Option, none, some, List, [], ◌∷◌, ltb, map, if◌then◌else◌, lookup, insert,
  delete, ℕ_discrete,
}

-- `idType`
pub record IdType : Type 0 where
  pub current : ℕ
  pub min : ℕ
  pub max : ℕ

abbrev pub conn_minimal_id : ℕ
conn_minimal_id = 1_024

abbrev pub conn_maximal_id : ℕ
conn_maximal_id = 2_147_483_647

pub data Error : Type 0 where
  not_exist : Error

pub record Instance (C : Type 0) : Type 0 where
  pub pmap : List (ℕ × C)
  pub id : IdType

unfoldable pub new_id : ℕ → ℕ → IdType
new_id min max = record { current = min; min = min; max = max }

unfoldable pub shift : IdType → IdType × ℕ
shift i =
    let next = i.current + 1 in
    (record i { current = if ltb i.max next then i.min else next }, i.current)

module _ {C : Type 0} where
  unfoldable pub new_conn_mgr : Instance C
  unfolding new_id
  new_conn_mgr = record { pmap = []; id = new_id conn_minimal_id conn_maximal_id }

  unfoldable pub lookup_conn : Instance C → ℕ → Option C
  lookup_conn m id = lookup ℕ_discrete id m.pmap

  -- The loop of `Register`, on fuel; `none` means that the fuel ran out.
  unfoldable pub register_conn : ℕ → Instance C → C → Option (Instance C × ℕ)
  unfolding shift
  register_conn zero m c = none
  register_conn (suc fuel) m c =
      let (i, id) = shift m.id in
      let rest = register_conn fuel (record m { id = i }) c in
      elim (lookup ℕ_discrete id m.pmap) [
        | some _ ↦ rest
        | none ↦ some (record { pmap = insert ℕ_discrete id c m.pmap; id = i }, id)
      ]

  unfoldable pub unregister : Instance C → ℕ → Instance C × Option Error
  unregister m id = elim (lookup ℕ_discrete id m.pmap) [
    | none ↦ (m, some not_exist)
    | some _ ↦ (record m { pmap = delete ℕ_discrete id m.pmap }, none)
  ]

  unfoldable pub close_all : Instance C → Instance C × List C
  close_all m = (record m { pmap = [] }, map (λ e. e.1) m.pmap)
