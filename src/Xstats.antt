-- ===== src/Xstats.antt =====
-- xstats/utils.go: the counters at the head of a byte string. A byte string that is too short is `none`
-- where the source panics.
pub mod Service
pub mod Codec
pub mod RoundTrip
pub mod Reports
pub mod Totals
mod Tests
use common_lib_go.Prelude.{
  ℕ, zero, suc, ◌+◌, ◌*◌, ◌/◌, ◌%◌, ◌^◌, ◌&&◌, Option, none, some, List, [], ◌∷◌, ◌++◌, ◌==◌, ltb,
  if◌then◌else◌, length, take, drop, replicate,
}
use common_lib_go.Xcache.{Bytes}

-- `binary.LittleEndian`: the lowest byte comes first.
abbrev pub le_bytes : ℕ → ℕ → Bytes
le_bytes zero v = []
le_bytes (suc n) v = (v % 256) ∷ le_bytes n (v / 256)

abbrev pub le_value : Bytes → ℕ
le_value [] = 0
le_value (b ∷ bs) = b + 256 * le_value bs

unfoldable pub parse_uint64 : Bytes → ℕ
parse_uint64 d = if ltb (length d) 8 then 0 else le_value (take 8 d)

unfoldable pub set_uint64 : ℕ → Bytes → Bytes
set_uint64 v d = if ltb (length d) 8 then d else le_bytes 8 v ++ drop 8 d

unfoldable pub parse_uint16 : Bytes → ℕ
parse_uint16 d = if ltb (length d) 2 then 0 else le_value (take 2 d)

unfoldable pub set_uint16 : ℕ → Bytes → Bytes
set_uint16 v d = if ltb (length d) 2 then d else le_bytes 2 v ++ drop 2 d

-- `binary.LittleEndian.PutUint64(d[i:], v)`
abbrev pub put_uint64 : ℕ → ℕ → Bytes → Option Bytes
put_uint64 i v d =
    if ltb (length d) (i + 8) then none else some (take i d ++ (le_bytes 8 v ++ drop (i + 8) d))

-- Sixteen zeros for an empty slice.
abbrev pub or_zeros : Bytes → Bytes
or_zeros [] = replicate 16 0
or_zeros (b ∷ bs) = b ∷ bs

unfoldable pub rx_tx : ℕ → ℕ → Bytes → Option Bytes
rx_tx rx tx d = elim (put_uint64 0 rx (or_zeros d)) [ none ↦ none | some d' ↦ put_uint64 8 tx d' ]

unfoldable pub set_rx : ℕ → Bytes → Option Bytes
set_rx rx d = put_uint64 0 rx (or_zeros d)

unfoldable pub set_tx : ℕ → Bytes → Option Bytes
set_tx tx d = put_uint64 8 tx (or_zeros d)

unfoldable pub parse_rx_tx : Bytes → ℕ × ℕ
parse_rx_tx d =
    if ltb (length d) 16 then (0, 0) else (le_value (take 8 d), le_value (take 8 (drop 8 d)))

unfoldable pub parse_rx : Bytes → ℕ
parse_rx d = if ltb (length d) 8 then 0 else le_value (take 8 d)

unfoldable pub parse_tx : Bytes → ℕ
parse_tx d = if ltb (length d) 16 then 0 else le_value (take 8 (drop 8 d))

unfoldable pub add_rx_tx : ℕ → ℕ → Bytes → Option Bytes
unfolding rx_tx parse_rx_tx
add_rx_tx drx dtx d =
    if (drx == 0) && (dtx == 0)
    then some d
    else rx_tx (((parse_rx_tx d).0 + drx) % 2 ^ 64) (((parse_rx_tx d).1 + dtx) % 2 ^ 64) d

unfoldable pub add_rx : ℕ → Bytes → Option Bytes
unfolding set_rx parse_rx
add_rx drx d = if drx == 0 then some d else set_rx ((parse_rx d + drx) % 2 ^ 64) d

unfoldable pub add_tx : ℕ → Bytes → Option Bytes
unfolding set_tx parse_tx
add_tx dtx d = if dtx == 0 then some d else set_tx ((parse_tx d + dtx) % 2 ^ 64) d
