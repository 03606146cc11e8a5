-- ===== src/Xdns/LastActive/Order.antt =====
-- `Lookup` asks the resolvers in order, and moves the one that answers to the front.
use common_lib_go.Prelude.{
  ◌≡◌, ◌≢◌, refl, sym, ap, subst, ◌∙◌, true, false, Bool-cases, ◌⊎◌, inl, inr, none, some, [], ◌∷◌,
  ◌++◌, ◌==◌, if◌then◌else◌, arith, All,
}
use common_lib_go.Xdns.{Response, Error, no_response, Answer, failed, answered, successful}
use common_lib_go.Xdns.LastActive.{
  Entity, Entities, first_success, without, find_element, is_front, to_front, lookup_active,
}

failed_or_answered :
    (a : Answer) → ((e : Error) × (a ≡ failed e)) ⊎ ((v : Response) × (a ≡ answered v))
failed_or_answered (failed e) = inl (e, refl)
failed_or_answered (answered v) = inr (v, refl)

answered_inj : {v w : Response} → answered v ≡ answered w → v ≡ w
answered_inj e = cc

module _ {R : Type 0} where
  -- The resolver has no good answer.
  abbrev pub Fails : (R → Answer) → Entity R → Type 0
  Fails ask e = (v : Response) → ask e.resolver ≡ answered v → successful v ≡ false

  -- No element stands twice.
  abbrev pub DistinctElements : Entities R → Type 0
  DistinctElements [] = Unit
  DistinctElements (e ∷ es) = All (λ (d : Entity R). e.element ≢ d.element) es × DistinctElements es

  -- Where the first good answer comes from.
  record Winner (ask : R → Answer) (es : Entities R) : Type 0 where
    before : Entities R
    winner : Entity R
    after : Entities R
    response : Response
    order : es ≡ before ++ (winner ∷ after)
    failures : All (Fails ask) before
    answer : ask winner.resolver ≡ answered response
    good : successful response ≡ true
    first : first_success ask es ≡ some (winner, response)

  later :
      (ask : R → Answer) (e : Entity R) (es : Entities R)
      → Fails ask e
      → first_success ask (e ∷ es) ≡ first_success ask es
      → Winner ask es
      → Winner ask (e ∷ es)
  later ask e es fails step w = record {
    before = e ∷ w.before;
    winner = w.winner;
    after = w.after;
    response = w.response;
    order = ap (λ (l : Entities R). e ∷ l) w.order;
    failures = (fails, w.failures);
    answer = w.answer;
    good = w.good;
    first = step ∙ w.first;
  }

  winner_or_none :
      (ask : R → Answer) (es : Entities R)
      → ((first_success ask es ≡ none) × All (Fails ask) es) ⊎ Winner ask es
  unfolding first_success
  winner_or_none ask [] = inl (refl, tt)
  winner_or_none ask (e ∷ es) =
      let rest = winner_or_none ask es in
      elim (failed_or_answered (ask e.resolver)) [
        | inl (x, bad) ↦ pass rest (λ v good. absurd (cc)) (ground (arith, bad))
        | inr (v, answer) ↦ elim (Bool-cases (successful v)) [
          | inr bad ↦
              pass rest (λ w same. ap successful (answered_inj (sym same ∙ answer)) ∙ bad)
                (ground (arith, answer, bad))
          | inl good ↦ inr (record {
            before = [];
            winner = e;
            after = es;
            response = v;
            order = refl;
            failures = tt;
            answer = answer;
            good = good;
            first = ground (arith, answer, good);
          })
        ]
      ]
    where
      pass :
          ((first_success ask es ≡ none) × All (Fails ask) es) ⊎ Winner ask es
          → Fails ask e
          → first_success ask (e ∷ es) ≡ first_success ask es
          → ((first_success ask (e ∷ es) ≡ none) × All (Fails ask) (e ∷ es)) ⊎ Winner ask (e ∷ es)
      pass (inl (nobody, all)) fails step = inl (step ∙ nobody, (fails, all))
      pass (inr w) fails step = inr (later ask e es fails step w)

  move_split :
      (before : Entities R) (e : Entity R) (after : Entities R)
      → DistinctElements (before ++ (e ∷ after))
      → (find_element (before ++ (e ∷ after)) e.element ≡ some e)
        × (without (before ++ (e ∷ after)) e.element ≡ before ++ after)
  move_split [] e after d = (ground arith, ground arith)
  move_split (b ∷ bs) e after d =
      let (found, gone) = move_split bs e after d.1 in
      let other : b.element ≢ e.element = at_end bs d.0 in
      (ground (arith, other, found), ground (arith, other, gone))
    where
      at_end :
          (l : Entities R)
          → All (λ (d : Entity R). b.element ≢ d.element) (l ++ (e ∷ after))
          → b.element ≢ e.element
      at_end [] a = a.0
      at_end (x ∷ l) a = at_end l a.1

  moved :
      (before : Entities R) (e : Entity R) (after : Entities R)
      → DistinctElements (before ++ (e ∷ after))
      → (if is_front (before ++ (e ∷ after)) e.element
          then before ++ (e ∷ after)
          else to_front (before ++ (e ∷ after)) e.element)
        ≡ e ∷ (before ++ after)
  unfolding to_front
  moved [] e after d = ground arith
  moved (b ∷ bs) e after d =
      let (found, gone) = move_split (b ∷ bs) e after d in
      elim (Bool-cases (b.element == e.element)) [
        | inl same ↦ ground (arith, same, found, gone)
        | inr other ↦ ground (arith, other, found, gone)
      ]

  nobody_answers :
      (ask : R → Answer) (es : Entities R)
      → first_success ask es ≡ none
      → lookup_active ask es es ≡ (es, failed no_response)
  unfolding lookup_active
  nobody_answers ask es e = ground (arith, e)

  one_answers :
      (ask : R → Answer) (es : Entities R) (e : Entity R) (v : Response)
      → first_success ask es ≡ some (e, v)
      → lookup_active ask es es
        ≡ ((if is_front es e.element then es else to_front es e.element), answered v)
  unfolding lookup_active
  one_answers ask es e v h = ground (arith, h)

  -- On a list in which no element stands twice, with no other call in between, Lookup returns the answer
  -- of the first resolver, in order, that answers successfully, and puts it before the others, whose order
  -- stays; if none does, it reports that there is no response, and the list stays.
  pub lookup_active_lem :
      (ask : R → Answer) (es : Entities R)
      → DistinctElements es
      → ((lookup_active ask es es ≡ (es, failed no_response)) × All (Fails ask) es)
        ⊎ ((before after : Entities R) × (e : Entity R) × (v : Response) × (es
              ≡ before ++ (e ∷ after))
            × All (Fails ask) before
            × (ask e.resolver ≡ answered v)
            × (successful v ≡ true)
            × (lookup_active ask es es ≡ (e ∷ (before ++ after), answered v)))
  lookup_active_lem ask es d = elim (winner_or_none ask es) [
    | inl (nobody, all) ↦ inl (nobody_answers ask es nobody, all)
    | inr w ↦ inr (
      w.before,
      w.after,
      w.winner,
      w.response,
      w.order,
      w.failures,
      w.answer,
      w.good,
      moved_to_front w,
    )
  ]
    where
      moved_to_front :
          (w : Winner ask es)
          → lookup_active ask es es ≡ (w.winner ∷ (w.before ++ w.after), answered w.response)
      moved_to_front w =
          one_answers ask es w.winner w.response w.first
          ∙ ap (λ (l : Entities R). (l, answered w.response))
              (ap
                  (λ (l : Entities R).
                    (if is_front l w.winner.element then l else to_front l w.winner.element))
                  w.order
                ∙ moved w.before w.winner w.after (subst DistinctElements w.order d))
