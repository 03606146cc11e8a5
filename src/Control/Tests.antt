-- ===== src/Control/Tests.antt =====
-- Concrete shutdowns, and the witnesses of the theorems.
use common_lib_go.Prelude.{
  ℕ, ◌+◌, ◌≡◌, refl, true, false, not, none, some, List, [], ◌∷◌, ◌==◌, arith, lookup, insert,
  ℕ_discrete,
}
use common_lib_go.Control.{
  ServiceController, ServiceMap, done, failed, shut_one, shut_names, reversed, shutdown_services,
}
use common_lib_go.Control.Shutdown.{stop_all, shutdown_services_lem}
use common_lib_go.Control.Retry.{shutdown_services_again}

-- Services that all stop; the state has those that were stopped.
abbrev willing : ServiceController (List ℕ)
willing = record { stop = λ w s. (s ∷ w, true); is_running = λ w s. false }

-- Here service 101 refuses.
abbrev one_refuses : ServiceController (List ℕ)
one_refuses = record { stop = λ w s. (s ∷ w, not (s == 101)); is_running = λ w s. false }

abbrev service_of : ℕ → ℕ
service_of name = 100 + name

abbrev two_services : ServiceMap
two_services = record { services = (1, some 101) ∷ (2, some 102) ∷ []; order = 1 ∷ 2 ∷ [] }

shutdown_services_lem_example :
    shutdown_services willing [] two_services
    ≡ done (
      stop_all willing service_of [] (reversed two_services.order),
      record { services = []; order = [] },
    )
unfolding lookup ℕ_discrete
shutdown_services_lem_example =
    shutdown_services_lem willing service_of [] two_services (λ w s. (refl, refl))
      ((omega arith, tt), (tt, tt)) (refl, (refl, tt))

stopped_in_reverse : stop_all willing service_of [] (reversed two_services.order) ≡ 101 ∷ 102 ∷ []
stopped_in_reverse = refl

abbrev half_stopped : ServiceMap
half_stopped = record { services = (1, some 101) ∷ (2, none) ∷ []; order = 1 ∷ 2 ∷ [] }

shutdown_services_again_example :
    shutdown_services one_refuses [] half_stopped ≡ failed ([], half_stopped)
unfolding shutdown_services shut_names shut_one lookup insert ℕ_discrete
shutdown_services_again_example =
    shutdown_services_again one_refuses [] (102 ∷ []) (101 ∷ 102 ∷ []) two_services half_stopped
      half_stopped 2 (1 ∷ []) refl refl refl []
