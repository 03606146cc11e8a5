-- ===== src/Entitlements/Utf8.antt =====
-- Which texts are valid UTF-8 (RFC 3629): encoding/json, which entitlements/entity.go calls, keeps those
-- as they are.
use common_lib_go.Prelude.{
  ℕ, ◌-◌, ◌==◌, leb, ◌&&◌, Bool, false, Option, none, some, List, [], ◌∷◌, if◌then◌else◌,
}

-- How many bytes of a character are still to come, with the bounds of the next one; `none` after an
-- invalid byte.
abbrev Expected : Type 0
Expected = Option (ℕ × ℕ × ℕ)

abbrev between : ℕ → ℕ → ℕ → Bool
between lo b hi = leb lo b && leb b hi

abbrev first_byte : ℕ → Expected
first_byte b =
    if leb b 127
    then some (0, 0, 0)
    else if between 194 b 223
    then some (1, 128, 191)
    else if b == 224
    then some (2, 160, 191)
    else if b == 237
    then some (2, 128, 159)
    else if between 225 b 239
    then some (2, 128, 191)
    else if b == 240
    then some (3, 144, 191)
    else if between 241 b 243
    then some (3, 128, 191)
    else if b == 244
    then some (3, 128, 143)
    else none

abbrev next_byte : Expected → ℕ → Expected
next_byte none b = none
next_byte (some (left, lo, hi)) b =
    if left == 0 then first_byte b else if between lo b hi then some (left - 1, 128, 191) else none

abbrev utf8_from : Expected → List ℕ → Bool
utf8_from none [] = false
utf8_from (some (left, lo, hi)) [] = left == 0
utf8_from at (b ∷ bs) = utf8_from (next_byte at b) bs

abbrev pub is_utf8 : List ℕ → Bool
is_utf8 t = utf8_from (some (0, 0, 0)) t
