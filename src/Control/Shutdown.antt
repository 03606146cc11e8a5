-- ===== src/Control/Shutdown.antt =====
-- `Shutdown` of services that all stop.
use common_lib_go.Prelude.{
  ℕ, ◌≡◌, ◌≢◌, refl, ◌∙◌, true, false, none, some, List, [], ◌∷◌, arith, lookup, insert,
  lookup-insert, ℕ_discrete, All,
}
use common_lib_go.Control.{
  ServiceController, ServiceMap, done, shut_one, shut_names, reversed, shutdown_services,
}

module _ {W : Type 0} (c : ServiceController W) where
  -- Every service that is asked to stop does, and is not running then.
  abbrev pub Stops : Type 0
  Stops = (w : W) (s : ℕ) → ((c.stop w s).1 ≡ true) × (c.is_running (c.stop w s).0 s ≡ false)

  -- Each of the names has its service.
  abbrev pub HasServices : (ℕ → ℕ) → ServiceMap → List ℕ → Type 0
  HasServices service m names =
      All (λ name. lookup ℕ_discrete name m.services ≡ some (some (service name))) names

  -- No name stands twice.
  abbrev pub DistinctNames : List ℕ → Type 0
  DistinctNames [] = Unit
  DistinctNames (name ∷ names) = All (λ other. name ≢ other) names × DistinctNames names

  -- The services stopped one after the other.
  abbrev pub stop_all : (ℕ → ℕ) → W → List ℕ → W
  stop_all service w [] = w
  stop_all service w (name ∷ names) = stop_all service (c.stop w (service name)).0 names

  one_stops :
      (service : ℕ → ℕ) (w : W) (m : ServiceMap) (name : ℕ)
      → Stops
      → lookup ℕ_discrete name m.services ≡ some (some (service name))
      → shut_one c w m name
        ≡ done (
          (c.stop w (service name)).0,
          record m { services = insert ℕ_discrete name none m.services },
        )
  unfolding shut_one
  one_stops service w m name stops e =
      ground (arith, e, (stops w (service name)).0, (stops w (service name)).1)

  other_stays :
      (service : ℕ → ℕ) (m : ServiceMap) (name : ℕ) (names : List ℕ)
      → All (λ other. name ≢ other) names
      → HasServices service m names
      → HasServices service (record m { services = insert ℕ_discrete name none m.services }) names
  other_stays service m name [] apart h = tt
  other_stays service m name (other ∷ names) (differ, apart) (here, h) = (
    ground (arith, here, differ, lookup-insert ℕ_discrete other name none m.services),
    other_stays service m name names apart h,
  )

  names_step :
      (w w' : W) (m m' : ServiceMap) (name : ℕ) (names : List ℕ)
      → shut_one c w m name ≡ done (w', m')
      → shut_names c w m (name ∷ names) ≡ shut_names c w' m' names
  unfolding shut_names
  names_step w w' m m' name names e = ground (arith, e)

  pub shut_names_lem :
      (service : ℕ → ℕ) (w : W) (m : ServiceMap) (names : List ℕ)
      → Stops
      → DistinctNames names
      → HasServices service m names
      → (m' : ServiceMap) × (shut_names c w m names ≡ done (stop_all service w names, m'))
  unfolding shut_names
  shut_names_lem service w m [] stops d h = (m, refl)
  shut_names_lem service w m (name ∷ names) stops (apart, d) (here, h) =
      let m1 = record m { services = insert ℕ_discrete name none m.services } in
      let (m', e) =
        shut_names_lem service (c.stop w (service name)).0 m1 names stops d
          (other_stays service m name names apart h) in
      (
        m',
        names_step w (c.stop w (service name)).0 m m1 name names
              (one_stops service w m name stops here)
            ∙ e,
      )

  all_done :
      (w w' : W) (m m' : ServiceMap)
      → shut_names c w m (reversed m.order) ≡ done (w', m')
      → shutdown_services c w m ≡ done (w', record { services = []; order = [] })
  unfolding shutdown_services
  all_done w w' m m' e = ground (arith, e)

  -- When every service stops on request, and each registered name, of which none stands twice, has its
  -- service, Shutdown succeeds. It stops each service once, from the last one registered to the first,
  -- and leaves no name.
  pub shutdown_services_lem :
      (service : ℕ → ℕ) (w : W) (m : ServiceMap)
      → Stops
      → DistinctNames (reversed m.order)
      → HasServices service m (reversed m.order)
      → shutdown_services c w m
        ≡ done (stop_all service w (reversed m.order), record { services = []; order = [] })
  shutdown_services_lem service w m stops d h =
      let (m', e) = shut_names_lem service w m (reversed m.order) stops d h in
      all_done w (stop_all service w (reversed m.order)) m m' e
