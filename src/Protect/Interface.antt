-- ===== src/Protect/Interface.antt =====
-- What the counter relies on of the protector that it wraps.
use common_lib_go.Prelude.{◌≡◌, ite, Bool, true, false, none, List, [], ◌∷◌, if◌then◌else◌}
use common_lib_go.Protect.{Protector}

-- Whether the list has the address.
abbrev pub has : {A : Type 0} → Discrete A → A → List A → Bool
has dec a [] = false
has dec a (b ∷ bs) = ite (dec a b) true (has dec a bs)

-- A protector whose state says of each address whether it is protected. A call that succeeds
-- switches the addresses that it is given and no others; of a call that fails nothing is assumed.
pub record IsSwitch {A S E : Type 0} (dec : Discrete A) (p : Protector A S E) (on : A → S → Bool)
    : Type 0 where
  pub protect_ok :
      (as' : List A) (s : S) (a : A)
      → (p.protect_addresses as' s).1 ≡ none
      → on a (p.protect_addresses as' s).0 ≡ (if has dec a as' then true else on a s)
  pub unprotect_ok :
      (as' : List A) (s : S) (a : A)
      → (p.unprotect_addresses as' s).1 ≡ none
      → on a (p.unprotect_addresses as' s).0 ≡ (if has dec a as' then false else on a s)
