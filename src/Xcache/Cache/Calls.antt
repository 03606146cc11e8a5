-- ===== src/Xcache/Cache/Calls.antt =====
-- Sequences of calls of `Set` and `Del`, and the map that a cache stands for after them.
use common_lib_go.Prelude.{
  ℕ, Bool, ◌&&◌, Option, none, some, List, [], ◌∷◌, ltb, if◌then◌else◌, length,
}
use common_lib_go.Xcache.{Bytes, chunk_size, max_key_len, same_bytes}
use common_lib_go.Xcache.Invariant.{pair_size}
use common_lib_go.Xcache.Cache.{Cache, delete_key, set_key}

-- A call of `Set` or `Del`.
pub data Call : Type 0 where
  put : Bytes → Bytes → Call
  drop : Bytes → Call

-- The map that the cache stands for: a value that can be stored replaces the one before.
abbrev pub View : Type 0
View = Bytes → Option Bytes

abbrev pub is_storable : Bytes → Bytes → Bool
is_storable k x =
    ltb (length k) max_key_len && ltb (length x) max_key_len && ltb (pair_size k x) chunk_size

abbrev pub view_after : View → Call → View
view_after v (put k x) j = if is_storable k x && same_bytes k j then some x else v j
view_after v (drop k) j = if same_bytes k j then none else v j

abbrev pub view : View → List Call → View
view v [] = v
view v (c ∷ cs) = view (view_after v c) cs

module _ (sum64 : Bytes → ℕ) (blank : ℕ → ℕ) where
  unfoldable pub perform : Cache → Call → Option Cache
  unfolding set_key delete_key
  perform c (put k x) = elim (set_key sum64 blank c k x) [ none ↦ none | some (c', _, _) ↦ some c' ]
  perform c (drop k) = some (delete_key sum64 c k)

  -- The calls one after the other; `none` is a panic.
  unfoldable pub run : Cache → List Call → Option Cache
  unfolding perform
  run c [] = some c
  run c (call ∷ calls) = elim (perform c call) [ none ↦ none | some c' ↦ run c' calls ]
