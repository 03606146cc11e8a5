-- ===== src/Protect/Counter.antt =====
-- The counter keeps exactly the addresses protected that have a holder.
use common_lib_go.Prelude.{
  ℕ, suc, ◌+◌, ◌-◌, ◌<◌, ◌≤◌, not, ◌≡◌, ◌⊎◌, inl, inr, refl, ite, Bool, false, none, some, List, [],
  ◌∷◌, arith, Distinct, lookup, insert, delete, lookup-insert, lookup-insert_self, lookup-delete,
  insert-Distinct, delete-Distinct, Option-cases, if◌then◌else◌, ◌==◌,
}
use common_lib_go.Prelude.Int.{ℤ, pos, ◌+ℤ◌, ◌-ℤ◌}
use common_lib_go.Protect.{
  Protector, ProtectCounter, is_some, or_zero, unprotected, count_up, protect_addresses,
  last_holders, count_down_one, count_down, unprotect_addresses, unprotect_all, keys,
}
use common_lib_go.Protect.Interface.{has, IsSwitch}

module _ {A : Type 0} (dec : Discrete A) where
  -- How often `a` stands in a list.
  abbrev pub times : A → List A → ℕ
  times a [] = 0
  times a (b ∷ bs) = ite (dec a b) (times a bs + 1) (times a bs)

  -- The map holds each address that has a holder, with the number of its holders.
  pub record Holds (m : List (A × ℤ)) (h : A → ℕ) : Type 0 where
    pub distinct : Distinct m
    pub counts : (a : A) → lookup dec a m ≡ (if h a == 0 then none else some (pos (h a)))

  Holds-ext : {m : List (A × ℤ)} {h g : A → ℕ} → ((a : A) → h a ≡ g a) → Holds m h → Holds m g
  Holds-ext e v = record { distinct = v.distinct; counts = λ a. ground (arith, e a, v.counts a) }

  abbrev one_more : A → (A → ℕ) → A → ℕ
  one_more a h b = ite (dec b a) (h b + 1) (h b)

  abbrev one_less : A → (A → ℕ) → A → ℕ
  one_less a h b = ite (dec b a) (h b - 1) (h b)

  count_up-Holds :
      (m : List (A × ℤ)) (h : A → ℕ) (as' : List A)
      → Holds m h
      → Holds (count_up dec m as') (λ a. h a + times a as')
  unfolding count_up ◌+ℤ◌
  count_up-Holds m h [] v = Holds-ext (λ a. omega arith) v
  count_up-Holds m h (a ∷ as') v =
      Holds-ext (λ b. ground arith)
        (count_up-Holds (insert dec a (or_zero (lookup dec a m) +ℤ pos 1) m) (one_more a h) as'
          first)
    where
      first : Holds (insert dec a (or_zero (lookup dec a m) +ℤ pos 1) m) (one_more a h)
      first = record {
        distinct = insert-Distinct dec a _ m v.distinct;
        counts = λ b. ground (
          arith,
          lookup-insert dec b a (or_zero (lookup dec a m) +ℤ pos 1) m,
          v.counts b,
          v.counts a,
        );
      }

  count_down_one-Holds :
      (m : List (A × ℤ)) (h : A → ℕ) (a : A)
      → Holds m h
      → 0 < h a
      → Holds (count_down_one dec m a) (one_less a h)
  count_down_one-Holds m h a v held =
      let n = h a - 1 in
      let m' = insert dec a (pos n) m in
      let d = insert-Distinct dec a (pos n) m v.distinct in
      rw (step {n = n} (ground (arith, v.counts a))) (record {
        distinct = ground (arith, d, delete-Distinct dec a m' d);
        counts = λ b. ground (
          arith,
          lookup-delete dec b a m' d,
          lookup-insert dec b a (pos n) m,
          v.counts b,
          v.counts a,
        );
      })
    where
      step :
          {n : ℕ}
          → lookup dec a m ≡ some (pos (suc n))
          → count_down_one dec m a
            ≡ (if n == 0 then delete dec a (insert dec a (pos n) m) else insert dec a (pos n) m)
      step {n} e =
          unfold count_down_one ◌-ℤ◌ in ground (arith, e, lookup-insert_self dec a (pos n) m)

  pub count_down-Holds :
      (m : List (A × ℤ)) (h : A → ℕ) (as' : List A)
      → Holds m h
      → ((a : A) → times a as' ≤ h a)
      → Holds (count_down dec m as') (λ a. h a - times a as')
  unfolding count_down
  count_down-Holds m h [] v enough = Holds-ext (λ a. omega arith) v
  count_down-Holds m h (a ∷ as') v enough =
      Holds-ext (λ b. ground arith)
        (count_down-Holds (count_down_one dec m a) (one_less a h) as'
          (count_down_one-Holds m h a v (ground (arith, enough a))) (λ b. ground (arith, enough b)))

  pub has-unprotected :
      (m : List (A × ℤ)) (h : A → ℕ) (as' : List A) (a : A)
      → Holds m h
      → has dec a (unprotected dec m as') ≡ (if h a == 0 then not (times a as' == 0) else false)
  unfolding unprotected
  has-unprotected m h [] a v = ground arith
  has-unprotected m h (b ∷ as') a v =
      ground (arith, v.counts a, v.counts b, has-unprotected m h as' a v)

  pub has-last_holders :
      (m : List (A × ℤ)) (h : A → ℕ) (as' : List A) (a : A)
      → Holds m h
      → has dec a (last_holders dec m as') ≡ (if h a == 1 then not (times a as' == 0) else false)
  unfolding last_holders
  has-last_holders m h [] a v = ground arith
  has-last_holders m h (b ∷ as') a v =
      ground (arith, v.counts a, v.counts b, has-last_holders m h as' a v)

  has-keys : (m : List (A × ℤ)) (a : A) → has dec a (keys m) ≡ is_some (lookup dec a m)
  unfolding lookup
  has-keys [] a = refl
  has-keys ((b, n) ∷ m) a = ground (arith, has-keys m a)

-- `h a` holders of each address `a`: the map counts them, and the wrapped protector has switched on
-- the addresses that have one.
pub record Inv {A S : Type 0} (dec : Discrete A) (on : A → S → Bool) (pc : ProtectCounter A S)
    (h : A → ℕ) : Type 0 where
  pub holds : Holds dec pc.protected h
  pub switched : (a : A) → on a pc.protector ≡ not (h a == 0)

module _ {A S E : Type 0} (dec : Discrete A) (p : Protector A S E) (on : A → S → Bool)
    (w : IsSwitch dec p on) {pc : ProtectCounter A S} {h : A → ℕ} (v : Inv dec on pc h)
    (addrs : List A) where
  -- From a counter that agrees with its holders, over a protector whose successful calls switch exactly
  -- what they are given: the wrapped protector is asked for exactly the addresses of the list that have no holder, and
  -- `ProtectAddresses` succeeds exactly if this call does. Then each address has as many holders more
  -- as it stands in the list, and the switched addresses are those with a holder. Otherwise the error
  -- is returned and every count stays, but nothing that the failed call switched is taken back.
  pub protect_lem :
      let given = unprotected dec pc.protected addrs in
      let asked = p.protect_addresses given pc.protector in
      let r = protect_addresses dec p pc addrs in
      ((a : A) → has dec a given ≡ (if h a == 0 then not (times dec a addrs == 0) else false))
      × (((asked.1 ≡ none) × (r.1 ≡ none) × Inv dec on r.0 (λ a. h a + times dec a addrs))
          ⊎ ((e : E) × (asked.1 ≡ some e)
              × (r.1 ≡ some e)
              × (r.0.protected ≡ pc.protected)
              × Holds dec r.0.protected h
              × (r.0.protector ≡ asked.0)))
  unfolding protect_addresses
  protect_lem = (
    λ a. has-unprotected dec pc.protected h addrs a v.holds,
    elim (Option-cases (p.protect_addresses given pc.protector).1) [
      | inl ok ↦ inl (
        ok,
        ground (arith, ok),
        rw (ok) (record {
          holds = ground (arith, ok, count_up-Holds dec pc.protected h addrs v.holds);
          switched = λ a. ground (
            arith,
            ok,
            w.protect_ok given pc.protector a ok,
            v.switched a,
            has-unprotected dec pc.protected h addrs a v.holds,
          );
        }),
      )
      | inr (e, failed) ↦ inr (
        e,
        failed,
        ground (arith, failed),
        ground (arith, failed),
        ground (arith, failed, v.holds),
        ground (arith, failed),
      )
    ],
  )
    where
      given : List A
      given = unprotected dec pc.protected addrs

  -- When the list names each of its addresses once, each has a holder, and the wrapped protector
  -- succeeds, `UnprotectAddresses` takes one holder from each.
  pub unprotect_lem :
      ((a : A) → times dec a addrs ≤ 1)
      → ((a : A) → times dec a addrs ≤ h a)
      → let r = unprotect_addresses dec p pc addrs in
        r.1 ≡ none → Inv dec on r.0 (λ a. h a - times dec a addrs)
  unfolding unprotect_addresses
  unprotect_lem once enough ok = record {
    holds = count_down-Holds dec pc.protected h addrs v.holds enough;
    switched = λ a. ground (
      arith,
      w.unprotect_ok (last_holders dec pc.protected addrs) pc.protector a ok,
      v.switched a,
      once a,
      enough a,
      has-last_holders dec pc.protected h addrs a v.holds,
    );
  }

-- When the wrapped protector succeeds, `UnprotectAll` leaves no address with a holder, and all of
-- them switched off.
pub unprotect_all_lem :
    {A S E : Type 0} (dec : Discrete A) (p : Protector A S E) (on : A → S → Bool)
    → IsSwitch dec p on
    → {pc : ProtectCounter A S} {h : A → ℕ} → Inv dec on pc h
    → (p.unprotect_addresses (keys pc.protected) pc.protector).1 ≡ none
    → Inv dec on (unprotect_all dec p pc) (λ _. 0)
unfolding unprotect_all lookup
unprotect_all_lem dec p on w {pc} v ok = record {
  holds = record { distinct = tt; counts = λ a. refl };
  switched = λ a. ground (
    arith,
    w.unprotect_ok (keys pc.protected) pc.protector a ok,
    v.switched a,
    v.holds.counts a,
    has-keys dec pc.protected a,
  );
}
