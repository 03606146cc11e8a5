-- ===== src/Xttlmap.antt =====
-- xttlmap/ttlmap.go: a map with a size limit and deadlines. Its nodes stand on a heap and form a
-- doubly linked list, the most recently used first; `items` finds the node of a key.
-- A time is a number; the zero `time.Time`, a deadline that never comes, is `none`. Each method
-- takes the time at which it runs. `max_size` is an `int`, which may be negative.
pub mod Dll
pub mod Links
pub mod Moves
pub mod Front
pub mod Index
pub mod Valid
pub mod Add
pub mod Overwrite
pub mod Evict
pub mod Recent
pub mod View
pub mod Holds
pub mod Methods
pub mod SetKey
pub mod Live
pub mod Cleanup
pub mod Hang
pub mod Race
mod Tests
use common_lib_go.Prelude.{
  ℕ, zero, suc, ◌+◌, ◌-◌, Bool, true, false, not, ◌&&◌, ◌||◌, Option, none, some, List, [], ◌∷◌,
  ◌++◌, ltb, leb, ◌==◌, if◌then◌else◌, length, lookup, insert, delete,
}
use common_lib_go.Prelude.Int.{ℤ, pos, negsuc, ltb_ℤ}

abbrev pub Ptr : Type 0
Ptr = ℕ

-- The key of a node, and its `item`.
pub record Entry (K V : Type 0) : Type 0 where
  pub key : K
  pub value : V
  pub deadline : Option ℕ

-- `node[K, V]`
pub record Node (K V : Type 0) : Type 0 where
  pub entry : Entry K V
  pub prev : Option Ptr
  pub next : Option Ptr

abbrev pub Heap : Type 0 → Type 0 → Type 0
Heap K V = Ptr → Option (Node K V)

-- `TTLMap[K, V]`. No node stands at `fresh` or above.
pub record TtlMap (K V : Type 0) : Type 0 where
  pub nodes : Heap K V
  pub fresh : Ptr
  pub items : List (K × Ptr)
  pub head : Option Ptr
  pub tail : Option Ptr
  pub last_cleanup : ℕ
  pub cleaning : Bool
  pub max_size : ℤ

-- `item.expired`
unfoldable pub expired : {K V : Type 0} → Entry K V → ℕ → Bool
expired e now = elim e.deadline [ none ↦ false | some d ↦ ltb d now ]

-- `time.Second`, in nanoseconds
abbrev pub second : ℕ
second = 1_000_000_000

abbrev pub or_else {ℓ} : {A : Type ℓ} → Option A → Option A → Option A
or_else none b = b
or_else (some a) b = some a

abbrev pub is_head : Option Ptr → Ptr → Bool
is_head none p = false
is_head (some q) p = p == q

abbrev pub minus_one : ℤ → ℤ
minus_one (pos zero) = negsuc 0
minus_one (pos (suc n)) = pos n
minus_one (negsuc n) = negsuc (n + 1)

module _ {K V : Type 0} where
  -- A change of the node at `p`.
  unfoldable pub update : Heap K V → Ptr → (Node K V → Node K V) → Heap K V
  update h p f q = if q == p then elim (h q) [ none ↦ none | some n ↦ some (f n) ] else h q

  -- `p.next = x` and `p.prev = x`, for a pointer that may be nil.
  abbrev pub link_next : Heap K V → Option Ptr → Option Ptr → Heap K V
  link_next h none x = h
  link_next h (some p) x = update h p (λ n. record n { next = x })

  abbrev pub link_prev : Heap K V → Option Ptr → Option Ptr → Heap K V
  link_prev h none x = h
  link_prev h (some p) x = update h p (λ n. record n { prev = x })

  unfoldable pub new : ℤ → ℕ → TtlMap K V
  new max_size now = record {
    nodes = λ p. none;
    fresh = 0;
    items = [];
    head = none;
    tail = none;
    last_cleanup = now;
    cleaning = false;
    max_size = max_size;
  }

  unfoldable pub add_to_front : TtlMap K V → Ptr → TtlMap K V
  add_to_front s p =
      let h = update s.nodes p (λ n. record n { next = s.head; prev = none }) in
      record s {
        nodes = link_prev h s.head (some p);
        head = some p;
        tail = or_else s.tail (some p);
      }

  abbrev pub unlink : TtlMap K V → Node K V → TtlMap K V
  unlink s n = record s {
    nodes = link_prev (link_next s.nodes n.prev n.next) n.next n.prev;
    head = elim n.prev [ none ↦ n.next | some _ ↦ s.head ];
    tail = elim n.next [ none ↦ n.prev | some _ ↦ s.tail ];
  }

  unfoldable pub remove_node : TtlMap K V → Ptr → TtlMap K V
  remove_node s p = elim (s.nodes p) [ none ↦ s | some n ↦ unlink s n ]

  unfoldable pub move_to_front : TtlMap K V → Ptr → TtlMap K V
  move_to_front s p = if is_head s.head p then s else add_to_front (remove_node s p) p

  -- The branch of `Set` for a key that is there.
  unfoldable pub overwrite : TtlMap K V → Ptr → V → Option ℕ → TtlMap K V
  unfolding move_to_front
  overwrite s p v deadline =
      move_to_front
        (record s {
          nodes = update s.nodes p (λ n. record n {
            entry = record { key = n.entry.key; value = v; deadline = deadline };
          });
        })
        p

  -- A round of a cleanup may start: more than a second after the last, and none is running. The
  -- goroutine itself is `cleanup_expired`, a later step.
  unfoldable pub start_cleanup : TtlMap K V → ℕ → TtlMap K V × Bool
  start_cleanup s now =
      if ltb second (now - s.last_cleanup) && not s.cleaning
      then (record s { cleaning = true; last_cleanup = now }, true)
      else (s, false)

module _ {K V : Type 0} (dec : Discrete K) where
  -- `delete(s.items, node.key)` and `s.removeNode(node)`
  unfoldable pub drop_node : TtlMap K V → Ptr → TtlMap K V
  unfolding remove_node
  drop_node s p = elim (s.nodes p) [
    | none ↦ s
    | some n ↦ remove_node (record s { items = delete dec n.entry.key s.items }) p
  ]

  unfoldable pub remove_oldest : TtlMap K V → TtlMap K V
  unfolding drop_node
  remove_oldest s = elim s.tail [ none ↦ s | some p ↦ drop_node s p ]

  -- `for len(s.items) > limit`, on fuel; `none` means that the fuel ran out.
  unfoldable pub evict : ℕ → TtlMap K V → ℤ → Option (TtlMap K V)
  unfolding remove_oldest
  evict zero s limit = none
  evict (suc fuel) s limit =
      let rest = evict fuel (remove_oldest s) limit in
      if ltb_ℤ limit (pos (length s.items)) then rest else some s

  unfoldable pub resize : ℕ → TtlMap K V → ℤ → Option (TtlMap K V)
  unfolding evict
  resize fuel s max_size =
      elim (if ltb_ℤ max_size s.max_size then evict fuel s max_size else some s) [
        | none ↦ none
        | some s' ↦ some (record s' { max_size = max_size })
      ]

  -- `newNode`, `addToFront` and `s.items[key] = newNode`
  unfoldable pub add_entry : TtlMap K V → Entry K V → TtlMap K V
  unfolding add_to_front
  add_entry s e =
      let p = s.fresh in
      let n : Node K V = record { entry = e; prev = none; next = none } in
      let s' =
        add_to_front (record s { nodes = λ q. if q == p then some n else s.nodes q; fresh = suc p })
          p in
      record s' { items = insert dec e.key p s'.items }

  -- `Set`; `len(s.items) >= s.maxSize` is `len(s.items) > s.maxSize - 1`. The Boolean says that
  -- the goroutine of a cleanup is started.
  unfoldable pub set_key : ℕ → TtlMap K V → K → V → Option ℕ → ℕ → Option (TtlMap K V × Bool)
  unfolding evict add_entry overwrite start_cleanup
  set_key fuel s k v deadline now = elim (lookup dec k s.items) [
    | some p ↦ some (overwrite s p v deadline, false)
    | none ↦ elim (evict fuel s (minus_one s.max_size)) [
      | none ↦ none
      | some s' ↦
          some
            (start_cleanup (add_entry s' (record { key = k; value = v; deadline = deadline })) now)
    ]
  ]

  -- `Get` reads the node under the read lock, and goes on with it under the lock.
  unfoldable pub get_node : TtlMap K V → K → Option Ptr
  get_node s k = lookup dec k s.items

  -- The second check of an expired node: the key may have another node by now.
  unfoldable pub drop_expired : TtlMap K V → K → ℕ → TtlMap K V
  unfolding drop_node expired
  drop_expired s k now = elim (lookup dec k s.items) [
    | none ↦ s
    | some p ↦ elim (s.nodes p) [
      | none ↦ s
      | some n ↦ if expired n.entry now then drop_node s p else s
    ]
  ]

  unfoldable pub get_finish : TtlMap K V → Option Ptr → K → ℕ → TtlMap K V × Option V
  unfolding drop_expired move_to_front
  get_finish s found k now = elim found [
    | none ↦ (s, none)
    | some p ↦ elim (s.nodes p) [
      | none ↦ (s, none)
      | some n ↦
          if expired n.entry now
          then (drop_expired s k now, none)
          else (move_to_front s p, some n.entry.value)
    ]
  ]

  -- `Get` when nothing comes between its two parts.
  unfoldable pub get : TtlMap K V → K → ℕ → TtlMap K V × Option V
  unfolding get_node get_finish
  get s k now = get_finish s (get_node s k) k now

  unfoldable pub delete_key : TtlMap K V → K → ℕ → TtlMap K V × Bool
  unfolding drop_node start_cleanup
  delete_key s k now =
      start_cleanup (elim (lookup dec k s.items) [ none ↦ s | some p ↦ drop_node s p ]) now

  -- The first part of `cleanupExpired`, under the read lock.
  unfoldable pub expired_keys : Heap K V → List (K × Ptr) → ℕ → List K
  unfolding expired
  expired_keys h [] now = []
  expired_keys h ((k, p) ∷ m) now =
      let rest = expired_keys h m now in
      elim (h p) [ none ↦ rest | some n ↦ if expired n.entry now then k ∷ rest else rest ]

  -- The second part, under the lock.
  unfoldable pub sweep : TtlMap K V → List K → ℕ → TtlMap K V
  unfolding drop_expired
  sweep s [] now = s
  sweep s (k ∷ ks) now = sweep (drop_expired s k now) ks now

  unfoldable pub cleanup_expired : TtlMap K V → ℕ → TtlMap K V
  unfolding expired_keys sweep
  cleanup_expired s now = record (sweep s (expired_keys s.nodes s.items now) now) {
    cleaning = false;
  }
