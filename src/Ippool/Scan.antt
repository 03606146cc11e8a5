-- ===== src/Ippool/Scan.antt =====
-- The search loop: it ends, and it misses no free address.
use common_lib_go.Prelude.{
  ℕ, zero, suc, ◌+◌, ◌-◌, ◌%◌, ◌^◌, ◌≤◌, ◌<◌, ◌≡◌, ◌⊎◌, inl, inr, refl, Bool, true, false, some,
  Option, arith, Bool-cases, ltb, ◌==◌, ==_iff, ◌&&◌, ◌||◌,
}
use common_lib_go.Xnet.{Ip, uint32_to_ip}
use common_lib_go.Ippool.{
  Pool, Result, ok, fatal, next_addr, is_used, capacity, scan, start, get_unused_ip,
}
use common_lib_go.Ippool.Invariant.{IsValid, InRange}

-- The loop gives an address of the pool that is not used.
abbrev pub Found : Pool → Option (Result Ip) → Type 0
Found pool r =
    (n : ℕ) × (r ≡ some (ok (uint32_to_ip n))) × InRange pool n × (is_used pool n ≡ false)

-- Every address from `lo` up to but not including `hi` is used.
abbrev pub AllUsed : Pool → ℕ → ℕ → Type 0
AllUsed pool lo hi = (n : ℕ) → lo ≤ n → n < hi → is_used pool n ≡ true

abbrev pub Outcome : Pool → ℕ → ℕ → Option (Result Ip) → Type 0
Outcome pool lo hi r = Found pool r ⊎ ((r ≡ some fatal) × AllUsed pool lo hi)

AllUsed-cons :
    (pool : Pool) (lo hi : ℕ)
    → is_used pool lo ≡ true
    → AllUsed pool (lo + 1) hi
    → AllUsed pool lo hi
AllUsed-cons pool lo hi u rest n h k = elim (Bool-cases (lo == n)) [
  | inl e ↦ rw (← (==_iff lo n).0 e) u
  | inr e ↦ rest n (ground arith) k
]

-- One round of the loop, as an equation for each of its branches.
module _ (pool : Pool) (stop fuel next : ℕ) (cycled : Bool) where
  scan_hit :
      (cycled && (next == stop)) ≡ false
      → is_used pool next ≡ false
      → scan (suc fuel) pool stop cycled next ≡ some (ok (uint32_to_ip next))
  unfolding scan
  scan_hit go free = ground arith

  scan_next :
      (cycled && (next == stop)) ≡ false
      → is_used pool next ≡ true
      → scan (suc fuel) pool stop cycled next
        ≡ scan fuel pool stop (cycled || (next_addr pool next).1) (next_addr pool next).0
  unfolding scan
  scan_next go taken = ground arith

  scan_end : (cycled && (next == stop)) ≡ true → scan (suc fuel) pool stop cycled next ≡ some fatal
  unfolding scan
  scan_end go = ground arith

next_addr-inner : (pool : Pool) (n : ℕ) → n < pool.max → next_addr pool n ≡ (n + 1, false)
unfolding next_addr
next_addr-inner pool n h = ground arith

next_addr-last : (pool : Pool) (n : ℕ) → pool.max ≤ n → next_addr pool n ≡ (pool.min, true)
unfolding next_addr
next_addr-last pool n h = ground arith

-- What the first part of the round, up to the last address, and the second part have seen.
abbrev Swept : Pool → ℕ → ℕ → Option (Result Ip) → Type 0
Swept pool stop next r =
    Found pool r
    ⊎ ((r ≡ some fatal) × AllUsed pool next (pool.max + 1) × AllUsed pool pool.min stop)

module _ {pool : Pool} (v : IsValid pool) (stop : ℕ) (inside : InRange pool stop) where
  below_stop : (n : ℕ) → (n == stop) ≡ false → n ≤ stop → n < pool.max
  below_stop n e k = ground (arith, inside)

  -- Once the round has wrapped, it goes up to the address that it began at.
  scan_wrapped :
      (fuel next : ℕ)
      → pool.min ≤ next
      → next ≤ stop
      → stop < next + fuel
      → Outcome pool next stop (scan fuel pool stop true next)
  scan_wrapped zero next h k l = absurd (omega arith)
  scan_wrapped (suc fuel) next h k l = elim (Bool-cases (next == stop)) [
    | inl e ↦ inr (scan_end pool stop fuel next true e, λ n a b. absurd (ground arith))
    | inr e ↦ elim (Bool-cases (is_used pool next)) [
      | inr free ↦
          inl (next, scan_hit pool stop fuel next true e free, (h, omega (arith, inside)), free)
      | inl taken ↦
          rw
            (
              scan_next pool stop fuel next true e taken,
              next_addr-inner pool next (below_stop next e k),
            )
            (widen (scan_wrapped fuel (next + 1) (omega arith) (ground arith) (omega arith)) taken)
    ]
  ]
    where
      widen :
          {r : Option (Result Ip)}
          → Outcome pool (next + 1) stop r
          → is_used pool next ≡ true
          → Outcome pool next stop r
      widen (inl f) taken = inl f
      widen (inr (e, all)) taken = inr (e, AllUsed-cons pool next stop taken all)

  scan_first :
      (fuel next : ℕ)
      → stop ≤ next
      → next ≤ pool.max
      → pool.max + stop + 2 ≤ next + pool.min + fuel
      → Swept pool stop next (scan fuel pool stop false next)
  scan_first zero next h k l = absurd (omega (arith, inside))
  scan_first (suc fuel) next h k l = elim (Bool-cases (is_used pool next)) [
    | inr free ↦
        inl (next, scan_hit pool stop fuel next false refl free, (omega (arith, inside), k), free)
    | inl taken ↦
        rw (scan_next pool stop fuel next false refl taken) (elim (Bool-cases (next == pool.max)) [
          | inl e ↦ rw (next_addr-last pool next (ground arith)) (
              wrap (scan_wrapped fuel pool.min (omega arith) (omega (arith, inside)) (omega arith))
                (ground arith) taken)
          | inr e ↦
              rw (next_addr-inner pool next (ground arith)) (
                widen (scan_first fuel (next + 1) (omega arith) (ground arith) (omega arith)) taken)
        ])
  ]
    where
      wrap :
          {r : Option (Result Ip)}
          → Outcome pool pool.min stop r
          → pool.max ≤ next
          → is_used pool next ≡ true
          → Swept pool stop next r
      wrap (inl f) last taken = inl f
      wrap (inr (e, all)) last taken =
          inr (e, AllUsed-cons pool next (pool.max + 1) taken (λ n a b. absurd (omega arith)), all)

      widen :
          {r : Option (Result Ip)}
          → Swept pool stop (next + 1) r
          → is_used pool next ≡ true
          → Swept pool stop next r
      widen (inl f) taken = inl f
      widen (inr (e, all, low)) taken =
          inr (e, AllUsed-cons pool next (pool.max + 1) taken all, low)

module _ {pool : Pool} (v : IsValid pool) where
  span_lem : (pool.max + 2 ^ 32 - pool.min + 1) % 2 ^ 32 ≡ pool.max - pool.min + 1
  span_lem = omega (arith, v)

  offset : (random : ℕ) → InRange pool (random % (pool.max - pool.min + 1) + pool.min)
  offset random = omega (arith, v)

  -- The random start lies in the pool, and the `uint32` arithmetic does not wrap.
  pub start-InRange : (random : ℕ) → (n : ℕ) × (start pool random ≡ some n) × InRange pool n
  unfolding start
  start-InRange random = (
    random % (pool.max - pool.min + 1) + pool.min,
    rw span_lem (ground (arith, offset random)),
    offset random,
  )

  -- The loop ends within its fuel. It gives an address of the pool that is not used, or it has
  -- seen that there is none.
  pub get_unused_ip_lem :
      (random : ℕ) → Outcome pool pool.min (pool.max + 1) (get_unused_ip pool random)
  unfolding get_unused_ip capacity
  get_unused_ip_lem random =
      let (n, e, inside) = start-InRange random in
      rw (e, get_unused_ip)
        (join n (
          scan_first v n inside (pool.max + 1 - pool.min + 2) n (omega arith) inside.1
            (omega arith)))
    where
      join :
          {r : Option (Result Ip)} (n : ℕ)
          → Swept pool n n r
          → Outcome pool pool.min (pool.max + 1) r
      join n (inl f) = inl f
      join n (inr (e, high, low)) = inr (
        e,
        λ k a b. elim (Bool-cases (ltb k n)) [
          | inl lt ↦ low k a (ground arith)
          | inr ge ↦ high k (ground arith) b
        ],
      )
