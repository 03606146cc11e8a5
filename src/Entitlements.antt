-- ===== src/Entitlements.antt =====
-- entitlements/entity.go: a map of names to values of any type. `Value` has the types that the switches of
-- the source tell apart; the JSON and base64 libraries and `strconv.Atoi` are arguments. A text is a list of bytes.
pub mod Utf8
pub mod Json
mod Tests
use common_lib_go.Prelude.{
  ℕ, Bool, true, false, not, ◌&&◌, Option, none, some, List, [], ◌∷◌, ◌==◌, if◌then◌else◌, lookup,
  insert, ℕ_discrete, ◌>>=◌,
}
use common_lib_go.Prelude.Int.{ℤ}
use common_lib_go.Xcache.{same_bytes}

abbrev pub Text : Type 0
Text = List ℕ

-- A value of type `any`: nil, a bool, a string, one of the integer types (by what `int` makes of it), a
-- finite float64 (by its whole part), or anything else.
pub data Value : Type 0 where
  nil_value : Value
  bool_value : Bool → Value
  text_value : Text → Value
  int_value : ℤ → Value
  float_value : ℤ → Value
  other_value : Value

-- The names of the entitlements; the others are numbers from 7 on.
abbrev pub wireguard : ℕ
wireguard = 0

abbrev pub iprose : ℕ
iprose = 1

abbrev pub proxy : ℕ
proxy = 2

abbrev pub shape_downstream : ℕ
shape_downstream = 3

abbrev pub shape_upstream : ℕ
shape_upstream = 4

abbrev pub ads : ℕ
ads = 5

abbrev pub restrictions_name : ℕ
restrictions_name = 6

-- A map of Go is nil, or it was made: then it has pairs. What may panic returns an `Option`, with
-- `none` for the panic.
pub data Entitlements : Type 0 where
  nil_map : Entitlements
  map_of : List (ℕ × Value) → Entitlements

-- `v, ok := s[name]`; a nil map has no entries.
unfoldable pub entry : Entitlements → ℕ → Option Value
entry nil_map name = none
entry (map_of m) name = lookup ℕ_discrete name m

-- `s[name]`
unfoldable pub value_at : Entitlements → ℕ → Value
unfolding entry
value_at s name = elim (entry s name) [ none ↦ nil_value | some v ↦ v ]

-- `s[name] = v`, which panics on a nil map.
unfoldable pub assign : Entitlements → ℕ → Value → Option Entitlements
assign nil_map name v = none
assign (map_of m) name v = some (map_of (insert ℕ_discrete name v m))

abbrev pub true_text : Text
true_text = 116 ∷ 114 ∷ 117 ∷ 101 ∷ []

abbrev pub false_text : Text
false_text = 102 ∷ 97 ∷ 108 ∷ 115 ∷ 101 ∷ []

unfoldable pub as_bool : Value → Bool × Bool
as_bool v = elim v [
  | bool_value b ↦ (b, true)
  | text_value t ↦
      if same_bytes t true_text
      then (true, true)
      else if same_bytes t false_text
      then (false, true)
      else (false, false)
  | _ ↦ (false, false)
]

-- `asInt`, with `strconv.Atoi`; an error of it is `none`.
unfoldable pub as_int : (Text → Option ℤ) → Value → Option ℤ
as_int atoi v = elim v [ int_value i ↦ some i | text_value t ↦ atoi t | _ ↦ none ]

-- What the methods `SetWireguard` to `SetAds` do, by the name.
unfoldable pub set_flag : Entitlements → ℕ → Bool → Option Entitlements
unfolding assign
set_flag s name b = assign s name (bool_value b)

-- What the methods `HasWireguard` to `HasAds` do, by the name of the entitlement.
unfoldable pub has_flag : Entitlements → ℕ → Bool
unfolding value_at as_bool
has_flag s name = (as_bool (value_at s name)).0

abbrev pub set_wireguard : Entitlements → Bool → Option Entitlements
set_wireguard s b = set_flag s wireguard b

abbrev pub has_wireguard : Entitlements → Bool
has_wireguard s = has_flag s wireguard

abbrev pub set_iprose : Entitlements → Bool → Option Entitlements
set_iprose s b = set_flag s iprose b

abbrev pub has_iprose : Entitlements → Bool
has_iprose s = has_flag s iprose

abbrev pub set_proxy : Entitlements → Bool → Option Entitlements
set_proxy s b = set_flag s proxy b

abbrev pub has_proxy : Entitlements → Bool
has_proxy s = has_flag s proxy

abbrev pub set_ads : Entitlements → Bool → Option Entitlements
set_ads s b = set_flag s ads b

abbrev pub has_ads : Entitlements → Bool
has_ads s = has_flag s ads

abbrev pub is_paid : Entitlements → Bool
is_paid s = not (has_ads s)

abbrev pub is_free : Entitlements → Bool
is_free s = has_ads s

-- What `SetShapeUpstream` and `SetShapeDownstream` do, by the name.
unfoldable pub set_shape : Entitlements → ℕ → ℤ → Option Entitlements
unfolding assign
set_shape s name v = assign s name (int_value v)

-- What `ShapeUpstream` and `ShapeDownstream` do, by the name.
unfoldable pub shape : (Text → Option ℤ) → Entitlements → ℕ → Option ℤ
unfolding value_at as_int
shape atoi s name = as_int atoi (value_at s name)

abbrev pub set_shape_upstream_limit : Entitlements → ℤ → Option Entitlements
set_shape_upstream_limit s v = set_shape s shape_upstream v

abbrev pub shape_upstream_limit : (Text → Option ℤ) → Entitlements → Option ℤ
shape_upstream_limit atoi s = shape atoi s shape_upstream

abbrev pub set_shape_downstream_limit : Entitlements → ℤ → Option Entitlements
set_shape_downstream_limit s v = set_shape s shape_downstream v

abbrev pub shape_downstream_limit : (Text → Option ℤ) → Entitlements → Option ℤ
shape_downstream_limit atoi s = shape atoi s shape_downstream

unfoldable pub set_restrictions : Entitlements → Text → Option Entitlements
unfolding assign
set_restrictions s v = assign s restrictions_name (text_value v)

unfoldable pub restrictions : Entitlements → Option Text
unfolding entry
restrictions s = elim (entry s restrictions_name) [ some (text_value t) ↦ some t | _ ↦ none ]

-- The calls of encoding/json and of encoding/base64; an error is `none`. `unmarshal` decodes a text
-- into a map that is there.
pub record Library : Type 0 where
  pub marshal : Entitlements → Option Text
  pub unmarshal : Text → Entitlements → Option Entitlements
  pub encode : Text → Text
  pub decode : Text → Option Text

module _ (lib : Library) where
  abbrev pub to_json : Entitlements → Option Text
  to_json s = lib.marshal s

  abbrev pub parse_json : Text → Option Entitlements
  parse_json v = lib.unmarshal v (map_of [])

  abbrev pub base64_string : Entitlements → Option Text
  base64_string s = do j ← to_json s; some (lib.encode j)

  abbrev pub from_base64_string : Text → Option Entitlements
  from_base64_string v = do j ← lib.decode v; parse_json j
