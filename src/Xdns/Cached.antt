-- ===== src/Xdns/Cached.antt =====
-- xdns/client/cached.go: a resolver that keeps answers in a map of Xttlmap. `now` is the time of a method,
-- and `later` the time when the nested resolver has answered. Durations are not negative.
pub mod Lookup
use common_lib_go.Prelude.{ℕ, ◌+◌, Bool, true, false, Option, none, some, List, ltb, if◌then◌else◌}
use common_lib_go.Prelude.Int.{ℤ}
use common_lib_go.Xttlmap.{TtlMap, new, get, set_key, delete_key, resize}
use common_lib_go.Xdns.{
  Response, zero_response, Request, Error, Answer, failed, answered, response_expired,
}

-- `cacheKey`: a domain and a query type.
abbrev pub CacheKey : Type 0
CacheKey = List ℕ × ℕ

abbrev pub key_of_request : Request → CacheKey
key_of_request q = (q.domain, q.query_type)

pub record CachedResolver : Type 0 where
  pub cache : TtlMap CacheKey Response
  pub min_ttl : ℕ
  pub max_ttl : ℕ
  pub keep_time : ℕ

-- `NewCachedResolver`
unfoldable pub new_cached : ℤ → ℕ → ℕ → ℕ → ℕ → CachedResolver
unfolding new
new_cached max_size min_ttl max_ttl keep_time now = record {
  cache = new max_size now;
  min_ttl = min_ttl;
  max_ttl = max_ttl;
  keep_time = keep_time;
}

-- The response that `cacheResult` keeps, and until when: a time to live below the least one or above
-- the greatest one is replaced.
unfoldable pub kept_response : CachedResolver → Response → ℕ → Response
kept_response r result now = elim result.expires [
  | none ↦ result
  | some t ↦
      let raised : ℕ = if ltb t (now + r.min_ttl) then now + r.min_ttl else t in
      record result { expires = some (if ltb (now + r.max_ttl) t then now + r.max_ttl else raised) }
]

unfoldable pub keep_until : CachedResolver → Response → ℕ → Option ℕ
keep_until r result now = elim result.expires [ none ↦ none | some t ↦ some (now + r.keep_time) ]

module _ (dec : Discrete CacheKey) where
  -- `cacheResult`, with the fuel of `Set`.
  unfoldable pub cache_result : ℕ → CachedResolver → CacheKey → Response → ℕ → Option CachedResolver
  unfolding set_key kept_response keep_until
  cache_result fuel r key result now =
      elim (set_key dec fuel r.cache key (kept_response r result now) (keep_until r result now)
        now) [ none ↦ none | some (cache, _) ↦ some (record r { cache = cache }) ]

  -- `Lookup`, after the look into the cache.
  unfoldable pub ask_nested :
      ℕ → CachedResolver → Request → Option Response → Answer → ℕ → Option (CachedResolver × Answer)
  unfolding cache_result
  ask_nested fuel r q hit nested later = elim nested [
    | failed e ↦ some (r, answered (elim hit [ none ↦ zero_response | some v ↦ v ]))
    | answered response ↦ elim (cache_result fuel r (key_of_request q) response later) [
      | none ↦ none
      | some r' ↦ some (r', answered response)
    ]
  ]

  unfoldable pub lookup_cached :
      ℕ → CachedResolver → Request → Answer → ℕ → ℕ → Option (CachedResolver × Answer)
  unfolding get ask_nested response_expired
  lookup_cached fuel r q nested now later =
      let r' = record r { cache = (get dec r.cache (key_of_request q) now).0 } in
      elim ((get dec r.cache (key_of_request q) now).1) [
        | none ↦ ask_nested fuel r' q none nested later
        | some v ↦
            if response_expired v now
            then ask_nested fuel r' q (some v) nested later
            else some (r', answered v)
      ]

  -- `Preset`
  unfoldable pub preset :
      ℕ → CachedResolver → CacheKey → Option Response → ℕ → Option CachedResolver
  unfolding cache_result delete_key
  preset fuel r key response now = elim response [
    | none ↦ some (record r { cache = (delete_key dec r.cache key now).0 })
    | some v ↦ cache_result fuel r key v now
  ]

  -- `WithMaxSize`, with the fuel of `Resize`.
  unfoldable pub with_max_size : ℕ → CachedResolver → ℤ → Option CachedResolver
  unfolding resize
  with_max_size fuel r value = elim (resize dec fuel r.cache value) [
    | none ↦ none
    | some cache ↦ some (record r { cache = cache })
  ]
