-- ===== src/Xttlmap/Evict.antt =====
-- The eviction of the nodes that were used least recently.
use common_lib_go.Prelude.{
  ℕ, zero, suc, ◌<◌, ◌≤◌, ◌≡◌, ◌≢◌, refl, sym, ◌∙◌, ap, subst, inl, inr, Bool-cases, none, some, [],
  ◌∷◌, arith, Distinct, ℕ_discrete, delete, lookup, length, if_neg, take, ltb, lookup-Fresh,
}
use common_lib_go.Xttlmap.{Ptr, Entry, TtlMap, drop_node, evict, remove_oldest}
use common_lib_go.Prelude.Int.{pos}
use common_lib_go.Xttlmap.Dll.{Cells, last_or}
use common_lib_go.Xttlmap.Valid.{Valid, drop_node-Valid, drop_node-max_size}

module _ {K V : Type 0} where
  abbrev drop_last : Cells K V → Cells K V
  drop_last [] = []
  drop_last (c ∷ []) = []
  drop_last (c ∷ d ∷ cs) = c ∷ drop_last (d ∷ cs)

  lookup_ne :
      (p q : Ptr) (e : Entry K V) (cs : Cells K V)
      → lookup ℕ_discrete p cs ≡ some e
      → lookup ℕ_discrete q cs ≡ none
      → p ≢ q
  lookup_ne p q e cs a b same = ground (arith, a, b, ap (λ r. lookup ℕ_discrete r cs) same)

  -- The last node of a list that has one.
  last_cell :
      (c : Ptr × Entry K V) (cs : Cells K V)
      → Distinct (c ∷ cs)
      → (p : Ptr) × (e : Entry K V) × (last_or (some c.0) cs ≡ some p)
        × (lookup ℕ_discrete p (c ∷ cs) ≡ some e)
        × (delete ℕ_discrete p (c ∷ cs) ≡ drop_last (c ∷ cs))
  unfolding lookup delete
  last_cell (p, e) [] u = (p, e, refl, ground arith, ground arith)
  last_cell (q, x) (c ∷ cs) u =
      let (p, e, a, b, d) = last_cell c cs u.1 in
      let other = lookup_ne p q e (c ∷ cs) b (lookup-Fresh ℕ_discrete q (c ∷ cs) u.0) in
      (p, e, a, rw (if_neg _ other) b, rw (if_neg _ other) (ap (◌∷◌ (q, x)) d))

  take-drop_last :
      (m : ℕ) (c : Ptr × Entry K V) (cs : Cells K V)
      → m < length (c ∷ cs)
      → take m (drop_last (c ∷ cs)) ≡ take m (c ∷ cs)
  take-drop_last zero c cs h = refl
  take-drop_last (suc m) c [] h = absurd (omega arith)
  take-drop_last (suc m) c (d ∷ cs) h = ap (◌∷◌ c) (take-drop_last m d cs (omega arith))

  length-drop_last :
      (c : Ptr × Entry K V) (cs : Cells K V) → length (drop_last (c ∷ cs)) ≡ length cs
  length-drop_last c [] = refl
  length-drop_last c (d ∷ cs) = ap suc (length-drop_last d cs)

  take_all : (m : ℕ) (cs : Cells K V) → length cs ≤ m → take m cs ≡ cs
  take_all zero [] h = refl
  take_all (suc m) [] h = refl
  take_all zero (c ∷ cs) h = absurd (omega arith)
  take_all (suc m) (c ∷ cs) h = ap (◌∷◌ c) (take_all m cs (omega arith))

module _ {K V : Type 0} (dec : Discrete K) where
  remove_tail :
      (s : TtlMap K V) (p : Ptr) → s.tail ≡ some p → remove_oldest dec s ≡ drop_node dec s p
  unfolding remove_oldest
  remove_tail s p e = ground (arith, e)

  remove_oldest-Valid :
      (s : TtlMap K V) (c : Ptr × Entry K V) (cs : Cells K V)
      → Valid dec s (c ∷ cs)
      → Valid dec (remove_oldest dec s) (drop_last (c ∷ cs))
        × ((remove_oldest dec s).max_size ≡ s.max_size)
  remove_oldest-Valid s c cs v =
      let (p, e, a, b, d) = last_cell c cs v.links.distinct in
      rw (remove_tail s p (v.links.tail ∙ a), ← d)
        (drop_node-Valid dec s (c ∷ cs) p e v b, drop_node-max_size dec s p)

  -- With more fuel than nodes the loop ends, and keeps the first `m`.
  pub evict-Valid :
      (fuel m : ℕ) (s : TtlMap K V) (cs : Cells K V)
      → Valid dec s cs
      → length cs < fuel
      → (t : TtlMap K V) × (evict dec fuel s (pos m) ≡ some t)
        × Valid dec t (take m cs)
        × (t.max_size ≡ s.max_size)
  unfolding evict
  evict-Valid zero m s cs v h = absurd (omega arith)
  evict-Valid (suc fuel) m s [] v h =
      (s, ground (arith, v.count), subst (Valid dec s) (sym (take_all m [] (omega arith))) v, refl)
  evict-Valid (suc fuel) m s (c ∷ cs) v h = elim (Bool-cases (ltb m (length (c ∷ cs)))) [
    | inl more ↦
        let (w, same) = remove_oldest-Valid s c cs v in
        let (t, a, b, d) =
          evict-Valid fuel m (remove_oldest dec s) (drop_last (c ∷ cs)) w
            (omega (arith, h, length-drop_last c cs)) in
        (
          t,
          ground (arith, v.count, more, a),
          rw (← take-drop_last m c cs (ground (arith, more))) b,
          d ∙ same,
        )
    | inr few ↦ (
      s,
      ground (arith, v.count, few),
      subst (Valid dec s) (sym (take_all m (c ∷ cs) (ground (arith, few)))) v,
      refl,
    )
  ]
