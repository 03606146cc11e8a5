-- ===== src/Entitlements/Json.antt =====
-- What of the entitlements survives `JSON` and `ParseJSON`, and the same in base64.
use common_lib_go.Prelude.{
  ℕ, ◌<◌, ◌≡◌, Bool, true, Option, some, List, All, Distinct, lookup, ℕ_discrete, ◌>>=◌,
}
use common_lib_go.Prelude.Int.{ℤ}
use common_lib_go.Entitlements.{
  Text, Value, bool_value, text_value, int_value, float_value, other_value, Entitlements, map_of,
  entry, Library, to_json, parse_json, base64_string, from_base64_string,
}
use common_lib_go.Entitlements.Utf8.{is_utf8}

-- `JSON`, and `ParseJSON` of what it gives.
abbrev pub reread : Library → Entitlements → Option Entitlements
reread lib s = do j ← to_json lib s; parse_json lib j

-- `Base64String`, and `FromBase64String` of what it gives.
abbrev pub reread_base64 : Library → Entitlements → Option Entitlements
reread_base64 lib s = do x ← base64_string lib s; from_base64_string lib x

-- A value that is no number, text or Boolean may be one that JSON cannot express.
abbrev pub Plain : Value → Type 0
Plain other_value = ⊥
Plain _ = Unit

-- The pairs of a map, in which no name stands twice, all with plain values.
abbrev pub PlainPairs : List (ℕ × Value) → Type 0
PlainPairs m = Distinct m × All (λ e. Plain e.1) m

-- The documented way of encoding/json with a map of any, for the names that the source declares. A map
-- of plain values is encoded, and decoded again. A bool comes back as it was, and a string too if it is
-- valid UTF-8; any number comes back as a float64, perhaps a rounded one. encoding/base64 decodes what it
-- has encoded.
pub record DecodesAsAny (lib : Library) : Type 0 where
  pub succeeds :
      (m : List (ℕ × Value)) → PlainPairs m → (t : Entitlements) × (reread lib (map_of m) ≡ some t)
  pub bools :
      (m : List (ℕ × Value)) (t : Entitlements) (name : ℕ) (b : Bool)
      → PlainPairs m
      → reread lib (map_of m) ≡ some t
      → name < 7
      → lookup ℕ_discrete name m ≡ some (bool_value b)
      → entry t name ≡ some (bool_value b)
  pub texts :
      (m : List (ℕ × Value)) (t : Entitlements) (name : ℕ) (v : Text)
      → PlainPairs m
      → reread lib (map_of m) ≡ some t
      → name < 7
      → is_utf8 v ≡ true
      → lookup ℕ_discrete name m ≡ some (text_value v)
      → entry t name ≡ some (text_value v)
  pub ints :
      (m : List (ℕ × Value)) (t : Entitlements) (name : ℕ) (i : ℤ)
      → PlainPairs m
      → reread lib (map_of m) ≡ some t
      → name < 7
      → lookup ℕ_discrete name m ≡ some (int_value i)
      → (j : ℤ) × (entry t name ≡ some (float_value j))
  pub base64 : (x : Text) → lib.decode (lib.encode x) ≡ some x

-- Assigning `v` to the name gives entitlements with `Before`, which are reread, from JSON and from
-- base64, as entitlements with `After`.
abbrev pub Rereads :
    Library → Option Entitlements → (Entitlements → Type 0) → (Entitlements → Type 0) → Type 0
Rereads lib made Before After =
    (s : Entitlements) × (made ≡ some s)
    × Before s
    × (t : Entitlements) × (reread lib s ≡ some t)
    × (reread_base64 lib s ≡ some t)
    × After t
