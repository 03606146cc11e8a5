-- ===== src/Connmgr/Registry.antt =====
-- `Unregister` and `CloseAll`.
use common_lib_go.Prelude.{
  ℕ, suc, ◌≡◌, refl, ap, ite, none, some, List, [], ◌∷◌, arith, map, get_elem?, lookup, delete,
  ℕ_discrete, Option-cases, inl, inr, lookup-delete, delete-Distinct,
}
use common_lib_go.Connmgr.{Instance, not_exist, lookup_conn, unregister, close_all}
use common_lib_go.Connmgr.Register.{IsValid}

module _ {C : Type 0} where
  -- The connection of a key stands among the values.
  value-Mem :
      (id : ℕ) (c : C) (m : List (ℕ × C))
      → lookup ℕ_discrete id m ≡ some c
      → (i : ℕ) × (get_elem? (map (λ e. e.1) m) i ≡ some c)
  unfolding lookup
  value-Mem id c [] h = absurd (cc)
  value-Mem id c ((j, x) ∷ m) h = elim (ℕ_discrete id j) [
    | yes same ↦ (0, ground arith)
    | no other ↦ let (i, e) = value-Mem id c m (ground arith) in (suc i, e)
  ]

  unregister_absent :
      (m : Instance C) (id : ℕ)
      → lookup ℕ_discrete id m.pmap ≡ none
      → unregister m id ≡ (m, some not_exist)
  unfolding unregister
  unregister_absent m id h = ground (arith, h)

  unregister_there :
      (m : Instance C) (id : ℕ) (c : C)
      → lookup ℕ_discrete id m.pmap ≡ some c
      → unregister m id ≡ (record m { pmap = delete ℕ_discrete id m.pmap }, none)
  unfolding unregister
  unregister_there m id c h = ground (arith, h)

  -- In a well-formed manager `Unregister` of a registered id succeeds and takes just this one out;
  -- of any other id it reports that the id does not exist and changes nothing. The manager stays
  -- well-formed.
  pub unregister_lem :
      (m : Instance C) (id : ℕ)
      → IsValid m
      → let r = unregister m id in
        (r.1 ≡ (elim (lookup_conn m id) [ none ↦ some not_exist | some _ ↦ none ]))
        × ((j : ℕ) → lookup_conn r.0 j ≡ ite (ℕ_discrete j id) none (lookup_conn m j))
        × IsValid r.0
  unfolding lookup_conn
  unregister_lem m id v = elim (Option-cases (lookup ℕ_discrete id m.pmap)) [
    | inl absent ↦
        rw (unregister_absent m id absent, absent)
          (refl, λ j. ground (arith, absent, ap (λ k. lookup ℕ_discrete k m.pmap)), v)
    | inr (c, there) ↦
        rw (unregister_there m id c there, there)
          (
            refl,
            λ j. lookup-delete ℕ_discrete j id m.pmap v.distinct,
            record {
              low = v.low;
              high = v.high;
              distinct = delete-Distinct ℕ_discrete id m.pmap v.distinct;
            },
          )
  ]

  -- On a well-formed manager `CloseAll` closes every registered connection, and no id is registered
  -- afterwards. The manager stays well-formed.
  pub close_all_lem :
      (m : Instance C)
      → IsValid m
      → let r = close_all m in
        ((id : ℕ) (c : C) → lookup_conn m id ≡ some c → (i : ℕ) × (get_elem? r.1 i ≡ some c))
        × ((id : ℕ) → lookup_conn r.0 id ≡ none)
        × IsValid r.0
  unfolding close_all lookup_conn lookup
  close_all_lem m v = (
    λ id c h. value-Mem id c m.pmap h,
    λ id. refl,
    record { low = v.low; high = v.high; distinct = tt },
  )
