-- ===== src/Xlimits/Usage.antt =====
-- How many use each id, and which semaphore they share.
use common_lib_go.Prelude.{
  ℕ, suc, ◌+◌, ◌-◌, ◌<◌, ◌==◌, ◌≡◌, ◌≢◌, sym, subst, ap, ite, Bool-cases, Option, Option-cases, inl,
  inr, none, some, arith, Distinct, lookup, insert, delete, if◌then◌else◌, lookup-insert,
  lookup-delete, insert-Distinct, delete-Distinct,
}
use common_lib_go.Prelude.Int.{ℤ, pos, ◌+ℤ◌, ◌-ℤ◌}
use common_lib_go.Xlimits.{Consumer, Blocker, take_consumer, put}

-- How many users each id has.
abbrev pub Users : Type 0 → Type 0
Users K = K → ℕ

module _ {K : Type 0} (dec : Discrete K) where
  abbrev pub usage_of : Blocker K → K → Option ℤ
  usage_of s k = elim (lookup dec k s.consumers) [ none ↦ none | some c ↦ some c.usage ]

  -- The semaphore of an id.
  abbrev pub limit_of : Blocker K → K → Option ℕ
  limit_of s k = elim (lookup dec k s.consumers) [ none ↦ none | some c ↦ some c.limit ]

  -- An id has a consumer just while it has users, and its `usage` is their number.
  pub record Counts (s : Blocker K) (h : Users K) : Type 0 where
    pub distinct : Distinct s.consumers
    pub entries : (k : K) → usage_of s k ≡ (if h k == 0 then none else some (pos (h k)))

  abbrev pub one_more : K → Users K → Users K
  one_more k h j = ite (dec j k) (h j + 1) (h j)

  abbrev pub one_less : K → Users K → Users K
  one_less k h j = ite (dec j k) (h j - 1) (h j)

  abbrev put_in : Blocker K → K → Consumer → Blocker K
  put_in s id c = record s { consumers = insert dec id c s.consumers }

  take_absent :
      (s : Blocker K) (id : K)
      → lookup dec id s.consumers ≡ none
      → take_consumer dec s id ≡ (
        record (put_in s id (record { limit = s.fresh; usage = pos 1 })) { fresh = suc s.fresh },
        s.fresh,
      )
  unfolding take_consumer ◌+ℤ◌
  take_absent s id e = ground (arith, e)

  take_there :
      (s : Blocker K) (id : K) (c : Consumer) (n : ℕ)
      → lookup dec id s.consumers ≡ some c
      → c.usage ≡ pos n
      → take_consumer dec s id
        ≡ (put_in s id (record { limit = c.limit; usage = pos (suc n) }), c.limit)
  unfolding take_consumer ◌+ℤ◌
  take_there s id c n e u = ground (arith, e, u)

  put_there :
      (s : Blocker K) (id : K) (c : Consumer) (n : ℕ)
      → lookup dec id s.consumers ≡ some c
      → c.usage ≡ pos (suc n)
      → put dec s id ≡ (
          if n == 0
          then record s { consumers = delete dec id s.consumers }
          else put_in s id (record { limit = c.limit; usage = pos n }))
  unfolding put ◌-ℤ◌
  put_there s id c n e u = ground (arith, e, u)

  used :
      {s : Blocker K} {h : Users K} (k : K)
      → Counts s h
      → 0 < h k
      → (c : Consumer) × (lookup dec k s.consumers ≡ some c) × (c.usage ≡ pos (h k))
  used {s} k v held = elim (Option-cases (lookup dec k s.consumers)) [
    | inl absent ↦ absurd (ground (arith, absent, v.entries k, held))
    | inr (c, there) ↦ (c, there, ground (arith, there, v.entries k, held))
  ]

  -- What a written consumer changes.
  usage-put_in :
      (s : Blocker K) (h g : Users K) (id : K) (c : Consumer)
      → Counts s h
      → 0 < g id
      → c.usage ≡ pos (g id)
      → ((k : K) → k ≢ id → g k ≡ h k)
      → Counts (put_in s id c) g
  usage-put_in s h g id c v some_user u others = record {
    distinct = insert-Distinct dec id c s.consumers v.distinct;
    entries = λ k. elim (dec k id) [
      | yes same ↦
          subst (λ j. usage_of (put_in s id c) j ≡ (if g j == 0 then none else some (pos (g j))))
            (sym same) (ground (arith, lookup-insert dec id id c s.consumers, u, some_user))
      | no other ↦ ground (arith, lookup-insert dec k id c s.consumers, v.entries k, others k other)
    ];
  }

  limit-put_in :
      (s : Blocker K) (id : K) (c : Consumer)
      → (limit_of (put_in s id c) id ≡ some c.limit)
        × ((k : K) → k ≢ id → limit_of (put_in s id c) k ≡ limit_of s k)
  limit-put_in s id c = (
    ground (arith, lookup-insert dec id id c s.consumers),
    λ k other. ground (arith, lookup-insert dec k id c s.consumers),
  )

  -- A taken id has one user more, and no id that is in use changes its semaphore. The id's own is
  -- the one that is returned.
  pub take-Counts :
      {s : Blocker K} {h : Users K} (id : K)
      → Counts s h
      → let r = take_consumer dec s id in
        Counts r.0 (one_more id h)
        × (limit_of r.0 id ≡ some r.1)
        × ((k : K) → 0 < h k → limit_of r.0 k ≡ limit_of s k)
  take-Counts {s} {h} id v = elim (Option-cases (lookup dec id s.consumers)) [
    | inl absent ↦
        let c : Consumer = record { limit = s.fresh; usage = pos 1 } in
        let unused : h id ≡ 0 = ground (arith, absent, v.entries id) in
        let r =
          usage-put_in s h (one_more id h) id c v (ground arith) (ground (arith, unused))
            (λ k other. ground (arith, other)) in
        let (own, others) = limit-put_in s id c in
        rw (take_absent s id absent) (
          record { distinct = r.distinct; entries = r.entries },
          own,
          λ k held. others k (λ same. ground (arith, held, unused, ap h same)),
        )
    | inr (x, there) ↦
        let n = h id in
        let u : x.usage ≡ pos n = ground (arith, there, v.entries id) in
        let c : Consumer = record { limit = x.limit; usage = pos (suc n) } in
        let r =
          usage-put_in s h (one_more id h) id c v (ground arith) (ground arith)
            (λ k other. ground (arith, other)) in
        let (own, others) = limit-put_in s id c in
        rw (take_there s id x n there u) (
          r,
          own,
          λ k held. elim (dec k id) [
            | yes same ↦
                subst (λ j. limit_of (put_in s id c) j ≡ limit_of s j) (sym same)
                  (ground (arith, own, there))
            | no other ↦ others k other
          ],
        )
  ]

  -- An id that is put has one user less, and no id that is then in use changes its semaphore.
  pub put-Counts :
      {s : Blocker K} {h : Users K} (id : K)
      → Counts s h
      → 0 < h id
      → Counts (put dec s id) (one_less id h)
        × ((k : K) → 0 < one_less id h k → limit_of (put dec s id) k ≡ limit_of s k)
  put-Counts {s} {h} id v held =
      let (x, there, u) = used id v held in
      let n = h id - 1 in
      let u' : x.usage ≡ pos (suc n) = ground (arith, u, held) in
      rw (put_there s id x n there u') (elim (Bool-cases (n == 0)) [
        | inl last ↦ rw last (
          record {
            distinct = delete-Distinct dec id s.consumers v.distinct;
            entries = λ k. elim (dec k id) [
              | yes same ↦
                  subst
                    (λ j.
                      usage_of (record s { consumers = delete dec id s.consumers }) j
                      ≡ (if one_less id h j == 0 then none else some (pos (one_less id h j))))
                    (sym same)
                    (ground (arith, last, lookup-delete dec id id s.consumers v.distinct))
              | no other ↦
                  ground (arith, other, v.entries k, lookup-delete dec k id s.consumers v.distinct)
            ];
          },
          λ k some_user.
              ground (arith, some_user, last, lookup-delete dec k id s.consumers v.distinct),
        )
        | inr more ↦
            let c : Consumer = record { limit = x.limit; usage = pos n } in
            let r =
              usage-put_in s h (one_less id h) id c v (ground (arith, more)) (ground arith)
                (λ k other. ground (arith, other)) in
            let (own, others) = limit-put_in s id c in
            rw more (
              r,
              λ k some_user. elim (dec k id) [
                | yes same ↦
                    subst (λ j. limit_of (put_in s id c) j ≡ limit_of s j) (sym same)
                      (ground (arith, own, there))
                | no other ↦ others k other
              ],
            )
      ])
