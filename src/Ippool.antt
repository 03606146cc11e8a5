-- ===== src/Ippool.antt =====
-- ippool/poolv4.go and ippool/internal.go: a pool of IPv4 addresses.
-- The mutex makes each method one step. `logFunc` does nothing in production.
pub mod Invariant
pub mod Scan
pub mod Alloc
pub mod Register
pub mod History
mod Tests
use common_lib_go.Prelude.{
  ℕ, zero, suc, ◌+◌, ◌-◌, ◌%◌, ◌^◌, Bool, true, false, not, ◌||◌, ◌&&◌, Option, none, some, List,
  [], ◌∷◌, ltb, leb, ◌==◌, if◌then◌else◌, length, lookup, insert, delete, ℕ_discrete,
}
use common_lib_go.Xnet.{
  Ip, IpNet, isv4, to_uint32, uint32_to_ip, first_usable, last_usable, mask_size, network_addr,
}

-- `xerror.EInvalidArgument` around `ErrInvalidAddress` and so on, and `fatal` for `zap.L().Fatal`
-- and for a run-time panic, which end the process.
pub data Error : Type 0 where
  invalid_address not_in_range address_in_use not_enough_space entry_not_found : Error
  non_ipv4_subnet subnet_too_small : Error

pub data Result {ℓ} (A : Type ℓ) : Type ℓ where
  ok : A → Result A
  err : Error → Result A
  fatal : Result A

infixl 5 ◌>>=◌
abbrev pub ◌>>=◌ {ℓ κ} : {A : Type ℓ} {B : Type κ} → Result A → (A → Result B) → Result B
ok a >>= f = f a
err e >>= f = err e
fatal >>= f = fatal

-- A panic of `xnet`.
abbrev pub or_panic {ℓ} : {A : Type ℓ} → Option A → Result A
or_panic none = fatal
or_panic (some a) = ok a

-- `IPv4pool`; `used` is the Go map from addresses to `true`.
pub record Pool : Type 0 where
  pub server_ip : Ip
  pub used : List (ℕ × Bool)
  pub min : ℕ
  pub max : ℕ
  pub running : Bool

unfoldable pub default_used : ℕ → List (ℕ × Bool)
default_used server_ip = (server_ip, true) ∷ []

-- `subnet.String()` comes first, for the log; of it only the panic of `NetworkAddr` matters here.
unfoldable pub new_ipv4_from_subnet : IpNet → Result Pool
unfolding default_used
new_ipv4_from_subnet subnet = or_panic (network_addr subnet) >>= λ _.
    if not (isv4 subnet.ip)
    then err non_ipv4_subnet
    else if ltb 30 (mask_size subnet.mask).0
    then err subnet_too_small
    else do
      min_ip ← or_panic (first_usable subnet)
      max_ip ← or_panic (last_usable subnet)
      lo ← or_panic (to_uint32 min_ip)
      hi ← or_panic (to_uint32 max_ip)
      ok (record { server_ip = min_ip; used = default_used lo; min = lo; max = hi; running = true })

unfoldable pub shutdown : Pool → Result Pool
unfolding default_used
shutdown pool = do
  server ← or_panic (to_uint32 pool.server_ip)
  ok (record pool { running = false; used = default_used server })

-- The next address of the round, and whether it went back to the start.
unfoldable pub next_addr : Pool → ℕ → ℕ × Bool
next_addr pool ip = if leb pool.max ip then (pool.min, true) else (ip + 1, false)

unfoldable pub is_used : Pool → ℕ → Bool
is_used pool uip = elim (lookup ℕ_discrete uip pool.used) [ none ↦ false | some _ ↦ true ]

-- `int(pool.max) - int(pool.min) + 1`; `min` is never above `max + 1` in a pool that was built.
unfoldable pub capacity : Pool → ℕ
capacity pool = pool.max + 1 - pool.min

unfoldable pub allocated : Pool → ℕ
allocated pool = length pool.used

unfoldable pub free : Pool → Result ℕ
unfolding capacity allocated
free pool =
    if ltb (capacity pool) (allocated pool) then fatal else ok (capacity pool - allocated pool)

-- The loop of `getUnusedIP`, on fuel. Running out of fuel is `none`, the end of the loop without
-- a free address is `some fatal`.
unfoldable pub scan : ℕ → Pool → ℕ → Bool → ℕ → Option (Result Ip)
scan zero pool stop cycled next = none
scan (suc fuel) pool stop cycled next =
    let (next', cycled_round) = next_addr pool next in
    let rest = scan fuel pool stop (cycled || cycled_round) next' in
    if not cycled || not (next == stop)
    then (if not (is_used pool next) then some (ok (uint32_to_ip next)) else rest)
    else some fatal

-- `rand.Uint32()%(pool.max-pool.min+1) + pool.min`; the modulus 0 panics.
unfoldable pub start : Pool → ℕ → Option ℕ
start pool random =
    let span = (pool.max + 2 ^ 32 - pool.min + 1) % 2 ^ 32 in
    if span == 0 then none else some ((random % span + pool.min) % 2 ^ 32)

-- Two rounds of fuel are enough: `Scan` proves that the fuel never runs out.
unfoldable pub get_unused_ip : Pool → ℕ → Option (Result Ip)
unfolding scan start
get_unused_ip pool random = elim (start pool random) [
  | none ↦ some fatal
  | some next ↦ scan (capacity pool + 2) pool next false next
]

abbrev pub finished : Option (Result Ip) → Result Ip
finished none = fatal
finished (some r) = r

unfoldable pub check_running : Pool → Result (Unit {0})
check_running pool = if not pool.running then fatal else ok tt

-- `Alloc`; the `rand` package gives `random`.
unfoldable pub alloc : Pool → ℕ → Result (Pool × Ip)
unfolding check_running
alloc pool random = do
  _ ← check_running pool
  n ← free pool
  if n == 0 then err not_enough_space else (do
    ip ← finished (get_unused_ip pool random)
    uip ← or_panic (to_uint32 ip)
    ok (record pool { used = insert ℕ_discrete uip true pool.used }, ip))

-- `Set`
unfoldable pub register : Pool → Ip → Result Pool
unfolding check_running
register pool ip = if not (isv4 ip) then err invalid_address else do
  uip ← or_panic (to_uint32 ip)
  if ltb uip pool.min || ltb pool.max uip then err not_in_range else (do
    _ ← check_running pool
    if is_used pool uip
        then err address_in_use
        else ok (record pool { used = insert ℕ_discrete uip true pool.used }))

-- `Unset`
unfoldable pub unset : Pool → Ip → Result Pool
unfolding check_running
unset pool ip = if not (isv4 ip) then err invalid_address else do
  uip ← or_panic (to_uint32 ip)
  _ ← check_running pool
  if not (is_used pool uip)
      then err entry_not_found
      else ok (record pool { used = delete ℕ_discrete uip pool.used })

unfoldable pub is_available : Pool → Ip → Result Bool
is_available pool ip = if not (isv4 ip) then ok false else do
  uip ← or_panic (to_uint32 ip)
  ok (if ltb uip pool.min || ltb pool.max uip then false else not (is_used pool uip))

-- `Available`: what `Alloc` does, without the write.
unfoldable pub available : Pool → ℕ → Result Ip
unfolding check_running
available pool random = do
  _ ← check_running pool
  n ← free pool
  if n == 0 then err not_enough_space else finished (get_unused_ip pool random)
