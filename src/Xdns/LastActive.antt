-- ===== src/Xdns/LastActive.antt =====
-- xdns/client/lastactive.go: resolvers in the order of their last success. A resolver is an argument
-- type; `ask` is what each of them answers to the request.
pub mod Order
use common_lib_go.Prelude.{
  ℕ, Bool, true, false, Option, none, some, List, [], ◌∷◌, ◌==◌, if◌then◌else◌,
}
use common_lib_go.Xdns.{
  Response, Error, already_exists, not_exists, no_response, Answer, failed, answered, successful,
}

-- A list element with its `lastActiveEntity`.
pub record Entity (R : Type 0) : Type 0 where
  pub element : ℕ
  pub tag : ℕ
  pub resolver : R

-- The list of `LastActiveResolver`, front first. Tags are numbers here.
abbrev pub Entities : Type 0 → Type 0
Entities R = List (Entity R)

module _ {R : Type 0} where
  -- `add`, with the error; `fresh` is the element that `PushBack` makes.
  unfoldable pub add : Entities R → ℕ → ℕ → R → Bool → Entities R × Option Error
  add [] fresh tag r replace = (record { element = fresh; tag = tag; resolver = r } ∷ [], none)
  add (e ∷ es) fresh tag r replace =
      let rest = add es fresh tag r replace in
      if e.tag == tag
      then (if replace
          then (record e { resolver = r } ∷ es, none)
          else (e ∷ es, some already_exists))
      else (e ∷ rest.0, rest.1)

  unfoldable pub unset : Entities R → ℕ → Entities R × Option Error
  unset [] tag = ([], some not_exists)
  unset (e ∷ es) tag =
      let rest = unset es tag in if e.tag == tag then (es, none) else (e ∷ rest.0, rest.1)

  -- The first entity, in order, that answers successfully, with its response.
  unfoldable pub first_success : (R → Answer) → Entities R → Option (Entity R × Response)
  unfolding successful
  first_success ask [] = none
  first_success ask (e ∷ es) =
      let rest = first_success ask es in
      elim (ask e.resolver) [
        | failed _ ↦ rest
        | answered v ↦ if successful v then some (e, v) else rest
      ]

  abbrev pub without : Entities R → ℕ → Entities R
  without [] p = []
  without (e ∷ es) p = let rest = without es p in if e.element == p then es else e ∷ rest

  abbrev pub find_element : Entities R → ℕ → Option (Entity R)
  find_element [] p = none
  find_element (e ∷ es) p = let rest = find_element es p in if e.element == p then some e else rest

  abbrev pub is_front : Entities R → ℕ → Bool
  is_front [] p = false
  is_front (e ∷ es) p = e.element == p

  -- `MoveToFront`, which does nothing to an element that left the list.
  unfoldable pub to_front : Entities R → ℕ → Entities R
  to_front es p = elim (find_element es p) [ none ↦ es | some e ↦ e ∷ without es p ]

  -- `Lookup`. It gives up the read lock before it moves the element, and the list is `es'` by then.
  unfoldable pub lookup_active : (R → Answer) → Entities R → Entities R → Entities R × Answer
  unfolding first_success to_front
  lookup_active ask es es' = elim (first_success ask es) [
    | none ↦ (es', failed no_response)
    | some (e, v) ↦ ((if is_front es e.element then es' else to_front es' e.element), answered v)
  ]
