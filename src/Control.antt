-- ===== src/Control.antt =====
-- control/service.go: services that are registered under names, and shut down in the reverse order. The
-- services are an argument: a state `W` of all of them, and what their methods do to it. `fatal` is
-- the end of the process, and `panic` a run-time panic.
pub mod Shutdown
pub mod Retry
mod Tests
use common_lib_go.Prelude.{
  ℕ, zero, suc, ◌-◌, Bool, true, false, not, ◌&&◌, Option, none, some, List, [], ◌∷◌, ◌++◌, ◌==◌,
  if◌then◌else◌, length, get_elem?, lookup, insert, ℕ_discrete,
}

-- `ServiceController`: `stop` is `Shutdown`, with whether it succeeds, and `is_running` is `Running`.
pub record ServiceController (W : Type 0) : Type 0 where
  pub stop : W → ℕ → W × Bool
  pub is_running : W → ℕ → Bool

-- `ServiceMap`. Names are numbers here, and a service is a pointer, which may be nil.
pub record ServiceMap : Type 0 where
  pub services : List (ℕ × Option ℕ)
  pub order : List ℕ

unfoldable pub new_service_map : ServiceMap
new_service_map = record { services = []; order = [] }

pub data Outcome (A : Type 0) : Type 0 where
  done : A → Outcome A
  failed : A → Outcome A
  fatal panic : Outcome A

-- `RegisterService`
unfoldable pub register_service : ServiceMap → ℕ → Option ℕ → Outcome ServiceMap
register_service m name service = elim (lookup ℕ_discrete name m.services) [
  | some _ ↦ fatal
  | none ↦ elim service [
    | none ↦ fatal
    | some s ↦ done (record {
      services = insert ℕ_discrete name (some s) m.services;
      order = m.order ++ (name ∷ []);
    })
  ]
]

-- The names from the last one registered to the first.
abbrev pub reversed : List ℕ → List ℕ
reversed [] = []
reversed (name ∷ names) = reversed names ++ (name ∷ [])

module _ {W : Type 0} (c : ServiceController W) where
  -- `Replace`
  unfoldable pub replace : W → ServiceMap → ℕ → Option ℕ → Outcome (W × ServiceMap)
  replace w m name s = elim (lookup ℕ_discrete name m.services) [
    | none ↦ failed (w, m)
    | some none ↦ panic
    | some (some old) ↦
        let stopped = c.stop w old in
        if stopped.1
        then done (stopped.0, record m { services = insert ℕ_discrete name s m.services })
        else failed (stopped.0, m)
  ]

  -- The round of the loop of `Shutdown` for one name: the error paths, or the name is set to nil.
  unfoldable pub shut_one : W → ServiceMap → ℕ → Outcome (W × ServiceMap)
  shut_one w m name = elim (lookup ℕ_discrete name m.services) [
    | none ↦ failed (w, m)
    | some none ↦ failed (w, m)
    | some (some s) ↦
        let stopped = c.stop w s in
        if stopped.1
        then (if c.is_running stopped.0 s
            then failed (stopped.0, m)
            else done (stopped.0, record m { services = insert ℕ_discrete name none m.services }))
        else failed (stopped.0, m)
  ]

  -- The rounds for some names, in this order.
  unfoldable pub shut_names : W → ServiceMap → List ℕ → Outcome (W × ServiceMap)
  unfolding shut_one
  shut_names w m [] = done (w, m)
  shut_names w m (name ∷ names) = elim (shut_one w m name) [
    | done (w', m') ↦ shut_names w' m' names
    | failed r ↦ failed r
    | fatal ↦ fatal
    | panic ↦ panic
  ]

  -- `Shutdown`
  unfoldable pub shutdown_services : W → ServiceMap → Outcome (W × ServiceMap)
  unfolding shut_names
  shutdown_services w m = elim (shut_names w m (reversed m.order)) [
    | done (w', m') ↦ done (w', record { services = []; order = [] })
    | failed r ↦ failed r
    | fatal ↦ fatal
    | panic ↦ panic
  ]
