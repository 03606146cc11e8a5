-- ===== src/Xdns/Tests.antt =====
-- Concrete runs of the resolvers, and the witnesses of the theorems.
use mathlib.Core.HLevel.{×_discrete}
use mathlib.Core.List.{List-discrete}
use common_lib_go.Prelude.{
  ℕ, ◌+◌, ◌*◌, ◌≡◌, refl, true, false, ◌⊎◌, Option, none, some, [], ◌∷◌, ◌++◌, All, arith,
  ℕ_discrete, ltb, if◌then◌else◌,
}
use common_lib_go.Prelude.Int.{pos}
use common_lib_go.Xttlmap.Holds.{Holds, new-Holds}
use common_lib_go.Xttlmap.Recent.{recent_get}
use common_lib_go.Xdns.{
  Response, Request, no_response, empty_response, Answer, failed, answered, successful,
  response_expired,
}
use common_lib_go.Xdns.Cached.{CacheKey, CachedResolver, key_of_request, new_cached, lookup_cached}
use common_lib_go.Xdns.Cached.Lookup.{Asked, Unusable, lookup_cached_lem}
use common_lib_go.Xdns.LastActive.{Entity, Entities, lookup_active}
use common_lib_go.Xdns.LastActive.Order.{Fails, lookup_active_lem}
use common_lib_go.Xdns.Direct.{Message, read_message, nanoseconds}
use common_lib_go.Xdns.Direct.Answers.{addresses_of, LivesLong, read_message_lem}

unfoldable same_key : Discrete CacheKey
same_key = ×_discrete (List-discrete ℕ_discrete) ℕ_discrete

abbrev one_request : Request
one_request = record { domain = 97 ∷ []; query_type = 1; no_lazy = false }

unfoldable one_resolver : CachedResolver
unfolding new_cached
one_resolver = new_cached (pos 4) 60 3600 86400 0

one_resolver-Holds : Holds same_key (one_resolver.cache) 4 []
unfolding one_resolver new_cached
one_resolver-Holds = new-Holds same_key 4 0

abbrev one_response : Response
one_response = record {
  found = true;
  addresses = (10 ∷ []) ∷ [];
  expires = some 5;
  protection_required = false;
}

lookup_cached_lem_example :
    (r' : CachedResolver) × (a : Answer) × (lookup_cached same_key 9 one_resolver one_request
        (answered one_response)
        1
        2
      ≡ some (r', a))
    × (((v : Response) × ((recent_get same_key [] (key_of_request one_request) 1).1 ≡ some v)
          × (response_expired v 1 ≡ false)
          × (a ≡ answered v)
          × Holds same_key r'.cache 4 (recent_get same_key [] (key_of_request one_request) 1).0)
        ⊎ ((hit : Option Response) × ((recent_get same_key [] (key_of_request one_request) 1).1
              ≡ hit)
            × Unusable same_key hit 1
            × Asked same_key one_resolver 4
                (recent_get same_key [] (key_of_request one_request) 1).0
                one_request
                hit
                (answered one_response)
                2
                r'
                a))
lookup_cached_lem_example =
    lookup_cached_lem same_key 9 one_resolver one_request (answered one_response) 1 2
      one_resolver-Holds (omega arith) (omega arith)

-- Three resolvers, of which those above 1 answer.
abbrev three : Entities ℕ
three =
    record { element = 0; tag = 10; resolver = 1 }
    ∷ record { element = 1; tag = 11; resolver = 2 }
    ∷ record { element = 2; tag = 12; resolver = 3 }
    ∷ []

abbrev above_one : ℕ → Answer
above_one n = if ltb 1 n then answered one_response else failed no_response

lookup_active_lem_example :
    ((lookup_active above_one three three ≡ (three, failed no_response))
      × All (Fails above_one) three)
    ⊎ ((before after : Entities ℕ) × (e : Entity ℕ) × (v : Response) × (three
          ≡ before ++ (e ∷ after))
        × All (Fails above_one) before
        × (above_one e.resolver ≡ answered v)
        × (successful v ≡ true)
        × (lookup_active above_one three three ≡ (e ∷ (before ++ after), answered v)))
lookup_active_lem_example =
    lookup_active_lem above_one three
      ((omega arith, (omega arith, tt)), ((omega arith, tt), (tt, tt)))

-- A message of a server that knows no such name, and one with two addresses.
abbrev no_such_name : Message
no_such_name = record { opcode = 0; rcode = 3; answer = [] }

no_such_name_is_empty :
    read_message one_request false (some no_such_name) none 0 ≡ some (failed empty_response)
unfolding read_message
no_such_name_is_empty = refl

abbrev two_addresses : Message
two_addresses = record {
  opcode = 0;
  rcode = 0;
  answer =
      record { rrtype = 1; ttl = 300; address = some (some (10 ∷ [])) }
      ∷ record { rrtype = 5; ttl = 20; address = none }
      ∷ record { rrtype = 1; ttl = 60; address = some (some (11 ∷ [])) }
      ∷ [];
}

read_message_lem_example :
    ((addresses_of 1 two_addresses.answer ≡ [])
      × (read_message one_request true (some two_addresses) none 7 ≡ some (failed empty_response)))
    ⊎ ((v : Response) × (ttl : ℕ) × (read_message one_request true (some two_addresses) none 7
          ≡ some (answered v))
        × (v.addresses ≡ addresses_of 1 two_addresses.answer)
        × (v.expires ≡ some (7 + ttl * nanoseconds))
        × All (LivesLong 1 ttl) two_addresses.answer)
read_message_lem_example = read_message_lem one_request true two_addresses 7 (omega arith)
