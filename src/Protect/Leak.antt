-- ===== src/Protect/Leak.antt =====
-- Two uses of `UnprotectAddresses` after which the counter and the protector disagree.
use common_lib_go.Prelude.{
  ℕ, ◌≤◌, ◌<◌, ◌≡◌, Bool, true, false, none, some, List, [], ◌∷◌, arith, lookup, insert,
  lookup-insert_self, ◌∙◌, Option-cases, inl, inr,
}
use common_lib_go.Prelude.Int.{ℤ, negsuc, ◌-ℤ◌}
use common_lib_go.Protect.{
  Protector, ProtectCounter, unprotected, protect_addresses, last_holders, count_down_one,
  count_down, unprotect_addresses,
}
use common_lib_go.Protect.Interface.{IsSwitch}
use common_lib_go.Protect.Counter.{times, Inv, count_down-Holds, has-last_holders}

module _ {A S E : Type 0} (dec : Discrete A) (p : Protector A S E) (on : A → S → Bool)
    (w : IsSwitch dec p on) where
  -- An address that has a count is not handed to the protector again.
  protect_counted :
      (pc : ProtectCounter A S) (a : A) (n : ℤ)
      → lookup dec a pc.protected ≡ some n
      → let q = protect_addresses dec p pc (a ∷ []) in
        q.1 ≡ none → on a q.0.protector ≡ on a pc.protector
  unfolding protect_addresses unprotected
  protect_counted pc a n e ok = elim (Option-cases (p.protect_addresses [] pc.protector).1) [
    | inl fine ↦ ground (arith, e, ok, w.protect_ok [] pc.protector a fine)
    | inr (x, failed) ↦ ground (arith, e, ok, failed)
  ]

module _ {A S E : Type 0} (dec : Discrete A) (p : Protector A S E) (on : A → S → Bool)
    (w : IsSwitch dec p on) {pc : ProtectCounter A S} {h : A → ℕ} (v : Inv dec on pc h)
    (a : A) where
  -- From a counter that agrees with its holders, over a protector whose successful calls switch exactly
  -- what they are given: when one call names an address as often as it has holders, and that is more than once, names no
  -- other address more often than it has holders, and the wrapped protector succeeds, then the count
  -- goes to 0 and the address is forgotten, but the protector keeps it protected.
  pub unprotect_repeated_leaks :
      (addrs : List A)
      → 1 < times dec a addrs
      → h a ≡ times dec a addrs
      → ((b : A) → times dec b addrs ≤ h b)
      → let r = unprotect_addresses dec p pc addrs in
        r.1 ≡ none → (lookup dec a r.0.protected ≡ none) × (on a r.0.protector ≡ true)
  unfolding unprotect_addresses
  unprotect_repeated_leaks addrs many all enough ok = (
    ground (arith, (count_down-Holds dec pc.protected h addrs v.holds enough).counts a),
    ground (
      arith,
      w.unprotect_ok (last_holders dec pc.protected addrs) pc.protector a ok,
      v.switched a,
      has-last_holders dec pc.protected h addrs a v.holds,
    ),
  )

  minus_one :
      lookup dec a pc.protected ≡ none
      → count_down dec pc.protected (a ∷ []) ≡ insert dec a (negsuc 0) pc.protected
  unfolding count_down count_down_one ◌-ℤ◌
  minus_one e = ground (arith, e, lookup-insert_self dec a (negsuc 0) pc.protected)

  after_unprotect :
      h a ≡ 0
      → let r = unprotect_addresses dec p pc (a ∷ []) in
        r.1 ≡ none → (lookup dec a r.0.protected ≡ some (negsuc 0)) × (on a r.0.protector ≡ false)
  unfolding unprotect_addresses
  after_unprotect free ok =
      let absent : lookup dec a pc.protected ≡ none = ground (arith, v.holds.counts a) in
      (
        rw (minus_one absent) (lookup-insert_self dec a (negsuc 0) pc.protected),
        ground (
          arith,
          w.unprotect_ok (last_holders dec pc.protected (a ∷ [])) pc.protector a ok,
          v.switched a,
          has-last_holders dec pc.protected h (a ∷ []) a v.holds,
        ),
      )

  -- `UnprotectAddresses` of an address without a holder leaves the count -1. The next
  -- `ProtectAddresses` of it succeeds without handing it to the protector, so that it is not
  -- protected.
  pub protect_after_unprotect_skips :
      h a ≡ 0
      → let r = unprotect_addresses dec p pc (a ∷ []) in
        let q = protect_addresses dec p r.0 (a ∷ []) in
        r.1 ≡ none → q.1 ≡ none → on a q.0.protector ≡ false
  protect_after_unprotect_skips free ok ok' =
      let (counted, off) = after_unprotect free ok in
      protect_counted dec p on w (unprotect_addresses dec p pc (a ∷ [])).0 a (negsuc 0) counted ok'
      ∙ off
