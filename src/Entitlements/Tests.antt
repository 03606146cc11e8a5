-- ===== src/Entitlements/Tests.antt =====
-- A JSON library that gives every number back as a float64, and the witness of the theorem.
use common_lib_go.Prelude.{
  ℕ, ◌≡◌, refl, true, false, Option, none, some, List, [], ◌∷◌, ◌==◌, if◌then◌else◌, ◌>>=◌,
}
use common_lib_go.Prelude.Int.{ℤ, pos, negsuc}
use common_lib_go.Entitlements.{
  Text, Value, nil_value, bool_value, text_value, int_value, float_value, other_value, Entitlements,
  nil_map, map_of, assign, set_flag, shape_upstream, Library,
}
use common_lib_go.Entitlements.Utf8.{is_utf8}

-- A pair as numbers: an operation and its argument, of which 0 is a character of a text or the size of
-- a number, and the others end the pair with the argument as its name.
abbrev characters : Text → List ℕ → List ℕ
characters [] rest = rest
characters (c ∷ cs) rest = 0 ∷ c ∷ characters cs rest

abbrev write_value : ℕ → Value → List ℕ → List ℕ
write_value name nil_value rest = 4 ∷ name ∷ rest
write_value name other_value rest = 4 ∷ name ∷ rest
write_value name (bool_value true) rest = 2 ∷ name ∷ rest
write_value name (bool_value false) rest = 3 ∷ name ∷ rest
write_value name (text_value t) rest = 1 ∷ name ∷ characters t rest
write_value name (int_value (pos n)) rest = 5 ∷ name ∷ 0 ∷ n ∷ rest
write_value name (int_value (negsuc n)) rest = 6 ∷ name ∷ 0 ∷ n ∷ rest
write_value name (float_value (pos n)) rest = 5 ∷ name ∷ 0 ∷ n ∷ rest
write_value name (float_value (negsuc n)) rest = 6 ∷ name ∷ 0 ∷ n ∷ rest

abbrev write_pairs : List (ℕ × Value) → List ℕ
write_pairs [] = []
write_pairs ((name, v) ∷ m) = write_value name v (write_pairs m)

abbrev first_of : Text → ℕ
first_of [] = 0
first_of (n ∷ t) = n

abbrev ended : ℕ → Text → Value
ended op t =
    if op == 1
    then text_value t
    else if op == 2
    then bool_value true
    else if op == 3
    then bool_value false
    else if op == 5
    then float_value (pos (first_of t))
    else if op == 6
    then float_value (negsuc (first_of t))
    else nil_value

abbrev act : ℕ → ℕ → List ℕ × List (ℕ × Value) → List ℕ × List (ℕ × Value)
act op arg (t, m) = if op == 0 then (arg ∷ t, m) else ([], (arg, ended op t) ∷ m)

abbrev read_pairs : List ℕ → List ℕ × List (ℕ × Value)
read_pairs (op ∷ arg ∷ rest) = act op arg (read_pairs rest)
read_pairs _ = ([], [])

abbrev as_any : Value → Value
as_any (int_value i) = float_value i
as_any other_value = nil_value
as_any v = v

abbrev through_json : List (ℕ × Value) → List (ℕ × Value)
through_json [] = []
through_json ((name, v) ∷ m) = (name, as_any v) ∷ through_json m

-- The first number tells a map from `null`, the JSON of a nil map.
abbrev write_json : Entitlements → Option Text
write_json nil_map = some (0 ∷ [])
write_json (map_of m) = some (1 ∷ write_pairs m)

abbrev read_json : Text → Entitlements → Option Entitlements
read_json [] target = none
read_json (kind ∷ j) target = some (if kind == 0 then nil_map else map_of (read_pairs j).1)

abbrev without_mark : Text → Option Text
without_mark [] = none
without_mark (_ ∷ j) = some j

abbrev pairs_library : Library
pairs_library = record {
  marshal = write_json;
  unmarshal = read_json;
  encode = λ x. 0 ∷ x;
  decode = without_mark;
}

-- `Atoi` of no text.
abbrev no_number : Text → Option ℤ
no_number t = none

-- The text "é" is valid UTF-8; its second byte alone is not, nor a surrogate.
utf8_examples :
    (is_utf8 (195 ∷ 169 ∷ []) ≡ true)
    × (is_utf8 (169 ∷ []) ≡ false)
    × (is_utf8 (237 ∷ 160 ∷ 128 ∷ []) ≡ false)
utf8_examples = (refl, refl, refl)

-- A setter panics on the entitlements that `ParseJSON` makes of `null`.
set_after_null : (read_json (0 ∷ []) (map_of []) >>= λ s. set_flag s shape_upstream true) ≡ none
unfolding set_flag assign
set_after_null = refl

abbrev some_pairs : List (ℕ × Value)
some_pairs = (0, bool_value true) ∷ (9, text_value (98 ∷ [])) ∷ []
