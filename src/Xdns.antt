-- ===== src/Xdns.antt =====
-- xdns/client: resolvers that are put together from other resolvers. What a nested resolver answers to a
-- request is an argument of the method that asks it. An answer without an error has a response.
pub mod Cached
pub mod LastActive
pub mod Direct
mod Tests
use common_lib_go.Prelude.{
  ℕ, Bool, true, false, not, ◌&&◌, Option, none, some, List, [], ◌∷◌, ◌==◌, ltb, length,
}

-- `netip.Addr`, as its bytes.
abbrev pub Addr : Type 0
Addr = List ℕ

-- `Response`; the zero `time.Time` is `none`.
pub record Response : Type 0 where
  pub found : Bool
  pub addresses : List Addr
  pub expires : Option ℕ
  pub protection_required : Bool

abbrev pub zero_response : Response
zero_response = record {
  found = false;
  addresses = [];
  expires = none;
  protection_required = false;
}

pub record Request : Type 0 where
  pub domain : List ℕ
  pub query_type : ℕ
  pub no_lazy : Bool

-- The errors of the package, and those of the libraries below.
pub data Error : Type 0 where
  already_exists not_exists dns_not_exists no_response empty_response : Error
  other : ℕ → Error

-- What a `Lookup` returns.
pub data Answer : Type 0 where
  failed : Error → Answer
  answered : Response → Answer

unfoldable pub successful : Response → Bool
successful r = r.found && not (length r.addresses == 0)

-- `Expired`, at a time.
unfoldable pub response_expired : Response → ℕ → Bool
response_expired r now = elim r.expires [ none ↦ false | some t ↦ ltb t now ]
