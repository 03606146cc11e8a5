-- ===== src/Control/Retry.antt =====
-- A `Shutdown` that failed half-way cannot be repeated.
use common_lib_go.Prelude.{
  ℕ, ◌≡◌, sym, ap, subst, ◌∙◌, Bool-cases, ◌⊎◌, inl, inr, none, some, Option-cases, List, [], ◌∷◌,
  arith, lookup, insert, lookup-insert, ℕ_discrete,
}
use common_lib_go.Control.{
  ServiceController, ServiceMap, Outcome, done, failed, fatal, panic, shut_one, shut_names,
  reversed, shutdown_services,
}

module _ {W : Type 0} (c : ServiceController W) where
  abbrev cleared : ServiceMap → ℕ → ServiceMap
  cleared m name = record m { services = insert ℕ_discrete name none m.services }

  -- The name has no service any more.
  abbrev Stopped : ServiceMap → ℕ → Type 0
  Stopped m name = lookup ℕ_discrete name m.services ≡ some none

  shut_one_cases :
      (w : W) (m : ServiceMap) (name : ℕ)
      → ((w' : W) × (shut_one c w m name ≡ failed (w', m)))
        ⊎ ((w' : W) × (shut_one c w m name ≡ done (w', cleared m name)))
  unfolding shut_one
  shut_one_cases w m name = elim (Option-cases (lookup ℕ_discrete name m.services)) [
    | inl absent ↦ inl (w, ground (arith, absent))
    | inr (none, there) ↦ inl (w, ground (arith, there))
    | inr (some s, there) ↦ elim (Bool-cases (c.stop w s).1) [
      | inr fails ↦ inl ((c.stop w s).0, ground (arith, there, fails))
      | inl stops ↦ elim (Bool-cases (c.is_running (c.stop w s).0 s)) [
        | inl runs ↦ inl ((c.stop w s).0, ground (arith, there, stops, runs))
        | inr rests ↦ inr ((c.stop w s).0, ground (arith, there, stops, rests))
      ]
    ]
  ]

  cleared-Stopped :
      (m : ServiceMap) (name last : ℕ) → Stopped m last → Stopped (cleared m name) last
  cleared-Stopped m name last h =
      ground (arith, h, lookup-insert ℕ_discrete last name none m.services)

  names_failed :
      (w w' : W) (m m' : ServiceMap) (name : ℕ) (names : List ℕ)
      → shut_one c w m name ≡ failed (w', m')
      → shut_names c w m (name ∷ names) ≡ failed (w', m')
  unfolding shut_names
  names_failed w w' m m' name names e = ground (arith, e)

  names_done :
      (w w' : W) (m m' : ServiceMap) (name : ℕ) (names : List ℕ)
      → shut_one c w m name ≡ done (w', m')
      → shut_names c w m (name ∷ names) ≡ shut_names c w' m' names
  unfolding shut_names
  names_done w w' m m' name names e = ground (arith, e)

  failed_state :
      {w w' : W} {m m' : ServiceMap}
      → ◌≡◌ {A = Outcome (W × ServiceMap)} (failed (w, m)) (failed (w', m'))
      → m ≡ m'
  failed_state {w} {w'} {m} {m'} e =
      ap (λ (r : Outcome (W × ServiceMap)). elim r [ failed q ↦ q.1 | _ ↦ m ]) e

  -- Where the rounds fail, the names are the same, and a name that has no service has none.
  names_keep :
      (w w' : W) (m m' : ServiceMap) (names : List ℕ) (last : ℕ)
      → shut_names c w m names ≡ failed (w', m')
      → Stopped m last
      → (m'.order ≡ m.order) × Stopped m' last
  unfolding shut_names
  names_keep w w' m m' [] last e h = absurd (cc)
  names_keep w w' m m' (name ∷ names) last e h = elim (shut_one_cases w m name) [
    | inl (w1, f) ↦
        let same : m ≡ m' = failed_state (sym (names_failed w w1 m m name names f) ∙ e) in
        (ap (λ (n : ServiceMap). n.order) (sym same), subst (λ n. Stopped n last) same h)
    | inr (w1, f) ↦
        names_keep w1 w' (cleared m name) m' names last
          (sym (names_done w w1 m (cleared m name) name names f) ∙ e)
          (cleared-Stopped m name last h)
  ]

  shutdown_failed :
      (w w' : W) (m m' : ServiceMap)
      → shut_names c w m (reversed m.order) ≡ failed (w', m')
      → shutdown_services c w m ≡ failed (w', m')
  unfolding shutdown_services
  shutdown_failed w w' m m' e = ground (arith, e)

  names_of_failed :
      (w w' : W) (m m' : ServiceMap)
      → shutdown_services c w m ≡ failed (w', m')
      → shut_names c w m (reversed m.order) ≡ failed (w', m')
  unfolding shutdown_services
  names_of_failed w w' m m' e = by_outcome (shut_names c w m (reversed m.order)) e
    where
      by_outcome :
          (r : Outcome (W × ServiceMap))
          → elim r as (λ _. Outcome (W × ServiceMap)) [
            | done (v, n) ↦ done (v, record { services = []; order = [] })
            | failed q ↦ failed q
            | fatal ↦ fatal
            | panic ↦ panic
          ]
            ≡ failed (w', m')
          → r ≡ failed (w', m')
      by_outcome (done (v, n)) e = absurd (cc)
      by_outcome (failed q) e = e
      by_outcome fatal e = absurd (cc)
      by_outcome panic e = absurd (cc)

  nil_fails :
      (w : W) (m : ServiceMap) (last : ℕ) (rest : List ℕ)
      → reversed m.order ≡ last ∷ rest
      → Stopped m last
      → shutdown_services c w m ≡ failed (w, m)
  unfolding shut_one
  nil_fails w m last rest e h =
      shutdown_failed w w m m
        (ap (shut_names c w m) e ∙ names_failed w w m m last rest (ground (arith, h)))

  -- When Shutdown fails after it has stopped the service that was registered last, every later
  -- Shutdown fails too, whatever the services do by then, and stops none of them.
  pub shutdown_services_again :
      (w w1 w2 : W) (m m1 m2 : ServiceMap) (last : ℕ) (rest : List ℕ)
      → reversed m.order ≡ last ∷ rest
      → shut_one c w m last ≡ done (w1, m1)
      → shutdown_services c w m ≡ failed (w2, m2)
      → (w' : W) → shutdown_services c w' m2 ≡ failed (w', m2)
  shutdown_services_again w w1 w2 m m1 m2 last rest order first fails w' =
      elim (shut_one_cases w m last) [
        | inl (v, f) ↦ absurd (clash first f)
        | inr (v, f) ↦
            let after : shut_names c v (cleared m last) rest ≡ failed (w2, m2) =
              sym (names_done w v m (cleared m last) last rest f)
              ∙ ap (shut_names c w m) (sym order)
              ∙ names_of_failed w w2 m m2 fails in
            let (same, gone) =
              names_keep v w2 (cleared m last) m2 rest last after
                (ground (arith, lookup-insert ℕ_discrete last last none m.services)) in
            nil_fails w' m2 last rest (ap reversed same ∙ order) gone
      ]
    where
      clash :
          {p q : W × ServiceMap} → shut_one c w m last ≡ done p → shut_one c w m last ≡ failed q → ⊥
      clash e f = cc
