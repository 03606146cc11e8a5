-- ===== src/Xdns/Cached/Lookup.antt =====
-- `Lookup` of the cached resolver: what it answers, and what the map shows afterwards.
use common_lib_go.Prelude.{
  ℕ, ◌+◌, ◌≤◌, ◌<◌, ◌≡◌, refl, sym, ◌∙◌, Bool, true, false, Bool-cases, ◌⊎◌, inl, inr, Option, none,
  some, Option-cases, ltb, if◌then◌else◌, arith,
}
use common_lib_go.Xttlmap.{TtlMap, get, set_key}
use common_lib_go.Xttlmap.Recent.{Recent, recent_get, recent_set}
use common_lib_go.Xttlmap.Holds.{Holds}
use common_lib_go.Xttlmap.Methods.{get_lem}
use common_lib_go.Xttlmap.SetKey.{set_key_lem}
use common_lib_go.Xdns.{
  Response, zero_response, Request, Error, Answer, failed, answered, response_expired,
}
use common_lib_go.Xdns.Cached.{
  CacheKey, key_of_request, CachedResolver, kept_response, keep_until, cache_result, ask_nested,
  lookup_cached,
}

-- The expiry of a kept response lies between the least and the greatest time to live from now.
pub kept_response-bounds :
    (r : CachedResolver) (result : Response) (now t : ℕ)
    → r.min_ttl ≤ r.max_ttl
    → result.expires ≡ some t
    → (u : ℕ) × ((kept_response r result now).expires ≡ some u)
      × (now + r.min_ttl ≤ u)
      × (u ≤ now + r.max_ttl)
      × (now + r.min_ttl ≤ t → t ≤ now + r.max_ttl → u ≡ t)
unfolding kept_response
kept_response-bounds r result now t order e =
    let raised : ℕ = if ltb t (now + r.min_ttl) then now + r.min_ttl else t in
    let kept : ℕ = if ltb (now + r.max_ttl) t then now + r.max_ttl else raised in
    (
      kept,
      ground (arith, e),
      ground (arith, order),
      ground (arith, order),
      λ low high. ground (arith, low, high),
    )

module _ (dec : Discrete CacheKey) where
  answered_by_cache :
      (fuel : ℕ) (r : CachedResolver) (q : Request) (nested : Answer) (now later : ℕ) (v : Response)
      → (get dec r.cache (key_of_request q) now).1 ≡ some v
      → response_expired v now ≡ false
      → lookup_cached dec fuel r q nested now later
        ≡ some (record r { cache = (get dec r.cache (key_of_request q) now).0 }, answered v)
  unfolding lookup_cached
  answered_by_cache fuel r q nested now later v hit live = ground (arith, hit, live)

  asks_for_none :
      (fuel : ℕ) (r : CachedResolver) (q : Request) (nested : Answer) (now later : ℕ)
      → (get dec r.cache (key_of_request q) now).1 ≡ none
      → lookup_cached dec fuel r q nested now later
        ≡ ask_nested dec fuel
            (record r { cache = (get dec r.cache (key_of_request q) now).0 })
            q
            none
            nested
            later
  unfolding lookup_cached
  asks_for_none fuel r q nested now later miss = ground (arith, miss)

  asks_for_old :
      (fuel : ℕ) (r : CachedResolver) (q : Request) (nested : Answer) (now later : ℕ) (v : Response)
      → (get dec r.cache (key_of_request q) now).1 ≡ some v
      → response_expired v now ≡ true
      → lookup_cached dec fuel r q nested now later
        ≡ ask_nested dec fuel
            (record r { cache = (get dec r.cache (key_of_request q) now).0 })
            q
            (some v)
            nested
            later
  unfolding lookup_cached
  asks_for_old fuel r q nested now later v hit old = ground (arith, hit, old)

  nested_failed :
      (fuel : ℕ) (r : CachedResolver) (q : Request) (hit : Option Response) (e : Error) (later : ℕ)
      → ask_nested dec fuel r q hit (failed e) later
        ≡ some (r, answered (elim hit [ none ↦ zero_response | some v ↦ v ]))
  unfolding ask_nested
  nested_failed fuel r q hit e later = refl

  nested_answered :
      (fuel : ℕ) (r : CachedResolver) (q : Request) (hit : Option Response) (v : Response)
      (later : ℕ) (t : TtlMap CacheKey Response) (started : Bool)
      → set_key dec fuel r.cache
          (key_of_request q)
          (kept_response r v later)
          (keep_until r v later)
          later
        ≡ some (t, started)
      → ask_nested dec fuel r q hit (answered v) later ≡ some (record r { cache = t }, answered v)
  unfolding ask_nested cache_result
  nested_answered fuel r q hit v later t started e = ground (arith, e)

  -- There is no response, or it has expired.
  abbrev pub Unusable : Option Response → ℕ → Type 0
  Unusable hit now =
      (hit ≡ none) ⊎ ((v : Response) × (hit ≡ some v) × (response_expired v now ≡ true))

  -- What a lookup that asks the nested resolver gives: its answer, which is kept; or, if it fails, the old
  -- response that the map had, or the zero response.
  abbrev pub Asked :
      CachedResolver
      → ℕ
      → Recent CacheKey Response
      → Request
      → Option Response
      → Answer
      → ℕ
      → CachedResolver
      → Answer
      → Type 0
  Asked r m shown q hit nested later r' a =
      ((e : Error) × (nested ≡ failed e)
        × (a ≡ answered (elim hit [ none ↦ zero_response | some v ↦ v ]))
        × Holds dec r'.cache m shown)
      ⊎ ((v : Response) × (nested ≡ answered v)
          × (a ≡ answered v)
          × Holds dec r'.cache m (
              recent_set dec m shown (key_of_request q) (kept_response r v later)
                (keep_until r v later)))

  asked :
      (fuel : ℕ) (r : CachedResolver) {m : ℕ} {shown : Recent CacheKey Response} (q : Request)
      (hit : Option Response) (nested : Answer) (later : ℕ)
      → Holds dec r.cache m shown
      → 0 < m
      → m < fuel
      → (r' : CachedResolver) × (a : Answer) × (ask_nested dec fuel r q hit nested later
          ≡ some (r', a))
        × Asked r m shown q hit nested later r' a
  asked fuel r q hit (failed e) later c room enough =
      (r, _, nested_failed fuel r q hit e later, inl (e, refl, refl, c))
  asked fuel r {m} {shown} q hit (answered v) later c room enough =
      let (t, started, e, c') =
        set_key_lem dec c fuel (key_of_request q) (kept_response r v later) (keep_until r v later)
          later room (omega (arith, c.bounded)) in
      (
        record r { cache = t },
        answered v,
        nested_answered fuel r q hit v later t started e,
        inr (v, refl, refl, c'),
      )

  -- Over a well-formed map with a positive size, and given more fuel than the size, a lookup ends and
  -- never fails. A response of the map that has not expired is the answer, whatever the nested resolver
  -- says. If the map has no response or an expired one, the nested resolver is asked: its response is
  -- the answer, and is kept as the most recent one; if it fails, the answer is the expired response of
  -- the map, or the zero response. The map stays well-formed.
  pub lookup_cached_lem :
      (fuel : ℕ) (r : CachedResolver) {m : ℕ} {shown : Recent CacheKey Response} (q : Request)
      (nested : Answer) (now later : ℕ)
      → Holds dec r.cache m shown
      → 0 < m
      → m < fuel
      → (r' : CachedResolver) × (a : Answer) × (lookup_cached dec fuel r q nested now later
          ≡ some (r', a))
        × (((v : Response) × ((recent_get dec shown (key_of_request q) now).1 ≡ some v)
              × (response_expired v now ≡ false)
              × (a ≡ answered v)
              × Holds dec r'.cache m (recent_get dec shown (key_of_request q) now).0)
            ⊎ ((hit : Option Response) × ((recent_get dec shown (key_of_request q) now).1 ≡ hit)
                × Unusable hit now
                × Asked r m
                    (recent_get dec shown (key_of_request q) now).0
                    q
                    hit
                    nested
                    later
                    r'
                    a))
  unfolding kept_response keep_until
  lookup_cached_lem fuel r {m} {shown} q nested now later c room enough =
      let k = key_of_request q in
      let (same, c') = get_lem dec c k now in
      let r1 = record r { cache = (get dec r.cache k now).0 } in
      elim (Option-cases ((get dec r.cache k now).1)) [
        | inl miss ↦
            let (r', a, e, rest) = asked fuel r1 q none nested later c' room enough in
            (
              r',
              a,
              asks_for_none fuel r q nested now later miss ∙ e,
              inr (none, sym same ∙ miss, inl refl, rest),
            )
        | inr (v, hit) ↦ elim (Bool-cases (response_expired v now)) [
          | inr live ↦ (
            _,
            _,
            answered_by_cache fuel r q nested now later v hit live,
            inl (v, sym same ∙ hit, live, refl, c'),
          )
          | inl old ↦
              let (r', a, e, rest) = asked fuel r1 q (some v) nested later c' room enough in
              (
                r',
                a,
                asks_for_old fuel r q nested now later v hit old ∙ e,
                inr (some v, sym same ∙ hit, inr (v, refl, old), rest),
              )
        ]
      ]
