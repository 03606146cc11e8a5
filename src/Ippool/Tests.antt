-- ===== src/Ippool/Tests.antt =====
-- Tests and instances: a pool over 10.0.0.0/30, which has two addresses.
use common_lib_go.Prelude.{
  ℕ, ◌≡◌, ◌≢◌, ◌↔◌, ◌⊎◌, refl, some, [], ◌∷◌, true, false, arith, ◌+◌, ◌-◌, ◌==◌, lookup, insert,
  delete, ℕ_discrete,
}
use common_lib_go.Xnet.{
  Ip, IpNet, to4, isv4, bytes_to_uint32, to_uint32, uint32_to_ip, mask_to_uint32, byte_ones, zeros,
  slice_ones, mask_size, network_addr, broadcast_addr, first_usable, last_usable,
}
use common_lib_go.Xnet.Subnet.{IsSubnet, base, size}
use common_lib_go.Ippool.{
  Pool, ok, err, fatal, not_enough_space, entry_not_found, address_in_use, not_in_range,
  invalid_address, default_used, new_ipv4_from_subnet, shutdown, next_addr, is_used, capacity,
  allocated, free, scan, start, get_unused_ip, check_running, alloc, register, unset, is_available,
  available,
}
use common_lib_go.Ippool.Invariant.{IsValid, InRange, Taken, Released}
use common_lib_go.Ippool.Scan
use common_lib_go.Ippool.Alloc
use common_lib_go.Ippool.Register
use common_lib_go.Ippool.History

xnet : Unit {0}
unfolding to4 isv4 bytes_to_uint32 to_uint32 uint32_to_ip mask_to_uint32 byte_ones zeros slice_ones
    mask_size network_addr broadcast_addr first_usable last_usable
xnet = tt

program : Unit {0}
unfolding xnet lookup insert delete ℕ_discrete default_used new_ipv4_from_subnet shutdown next_addr
    is_used capacity allocated free scan start get_unused_ip check_running alloc register unset
    is_available available
program = tt

abbrev tiny : IpNet
tiny = record { ip = record { bytes = 10 ∷ 0 ∷ 0 ∷ 0 ∷ [] }; mask = 255 ∷ 255 ∷ 255 ∷ 252 ∷ [] }

abbrev first : Ip
first = record { bytes = 10 ∷ 0 ∷ 0 ∷ 1 ∷ [] }

abbrev second : Ip
second = record { bytes = 10 ∷ 0 ∷ 0 ∷ 2 ∷ [] }

abbrev fresh : Pool
fresh = record {
  server_ip = first;
  used = (0x0a000001, true) ∷ [];
  min = 0x0a000001;
  max = 0x0a000002;
  running = true;
}

abbrev full : Pool
full = record fresh { used = (0x0a000001, true) ∷ (0x0a000002, true) ∷ [] }

calls :
    (new_ipv4_from_subnet tiny ≡ ok fresh)
    × (alloc fresh 0 ≡ ok (full, second))
    × (alloc full 5 ≡ err not_enough_space)
    × (register full second ≡ err address_in_use)
    × (unset full second ≡ ok fresh)
unfolding program
calls = (refl, refl, refl, refl, refl)

tiny-IsSubnet : IsSubnet tiny 0x0a000000 30
unfolding xnet
tiny-IsSubnet = record { address = refl; fits = omega arith; prefix = refl; short = omega arith }

fresh-IsValid : IsValid fresh
fresh-IsValid = record {
  positive = omega arith;
  ordered = omega arith;
  bounded = omega arith;
  distinct = (tt, tt);
  within = ((omega arith, omega arith), tt);
}

full-IsValid : IsValid full
full-IsValid = record {
  positive = omega arith;
  ordered = omega arith;
  bounded = omega arith;
  distinct = ((omega arith, tt), (tt, tt));
  within = ((omega arith, omega arith), ((omega arith, omega arith), tt));
}

full_used : Scan.AllUsed full 0x0a000001 0x0a000003
unfolding program
full_used n h k = ground arith

abbrev v6 : Ip
v6 = record { bytes = [] }

alloc-Taken_example :
    (n : ℕ) × (pool' : Pool) × (alloc fresh 7 ≡ ok (pool', uint32_to_ip n))
    × (to_uint32 (uint32_to_ip n) ≡ some n)
    × Taken fresh pool' n
unfolding program
alloc-Taken_example = Alloc.alloc-Taken fresh-IsValid 7 refl (omega arith)

alloc_full_example :
    (alloc full 9 ≡ err not_enough_space) × (available full 9 ≡ err not_enough_space)
alloc_full_example = Alloc.alloc_full full-IsValid 9 refl full_used

register_lem_example :
    ((pool' : Pool) × (register fresh second ≡ ok pool') × Taken fresh pool' 0x0a000002)
    ⊎ ((register fresh second ≡ err address_in_use)
        × InRange fresh 0x0a000002
        × (is_used fresh 0x0a000002 ≡ true))
    ⊎ ((register fresh second ≡ err not_in_range) × (¬ InRange fresh 0x0a000002))
unfolding program
register_lem_example = Register.register_lem fresh-IsValid refl second 0x0a000002 refl

unset_lem_example :
    ((pool' : Pool) × (unset full second ≡ ok pool') × Released full pool' 0x0a000002)
    ⊎ ((unset full second ≡ err entry_not_found) × (is_used full 0x0a000002 ≡ false))
unfolding program
unset_lem_example = Register.unset_lem full-IsValid refl second 0x0a000002 refl

is_available-register_example :
    (is_available fresh second ≡ ok true) ↔ ((pool' : Pool) × (register fresh second ≡ ok pool'))
unfolding program
is_available-register_example =
    Register.is_available-register fresh-IsValid refl second 0x0a000002 refl

not_v4_refused_example :
    (register fresh v6 ≡ err invalid_address)
    × (unset fresh v6 ≡ err invalid_address)
    × (is_available fresh v6 ≡ ok false)
unfolding program
not_v4_refused_example = Register.not_v4_refused fresh v6 refl

new_ipv4_from_subnet_lem_example :
    (pool : Pool) × (new_ipv4_from_subnet tiny ≡ ok pool)
    × IsValid pool
    × (pool.running ≡ true)
    × (pool.min ≡ base 0x0a000000 30 + 1)
    × (pool.max ≡ base 0x0a000000 30 + (size 30 - 2))
    × (capacity pool ≡ size 30 - 2)
    × (to_uint32 pool.server_ip ≡ some pool.min)
    × ((m : ℕ) → is_used pool m ≡ (m == pool.min))
new_ipv4_from_subnet_lem_example = Register.new_ipv4_from_subnet_lem tiny-IsSubnet (omega arith)

shutdown_lem_example :
    (pool' : Pool) × (shutdown full ≡ ok pool')
    × IsValid pool'
    × ((m : ℕ) → is_used pool' m ≡ (m == 0x0a000001))
    × ((random : ℕ) → (alloc pool' random ≡ fatal) × (available pool' random ≡ fatal))
unfolding program
shutdown_lem_example = Register.shutdown_lem full-IsValid refl (omega arith, omega arith)

-- A second `Alloc` fails here; with room it gives another address.
abbrev wide : Pool
wide = record fresh { max = 0x0a000003 }

wide-IsValid : IsValid wide
wide-IsValid = record {
  positive = omega arith;
  ordered = omega arith;
  bounded = omega arith;
  distinct = (tt, tt);
  within = ((omega arith, omega arith), tt);
}

alloc_again_ne_example : ◌≢◌ {A = ℕ} 0x0a000003 0x0a000002
unfolding program
alloc_again_ne_example =
    History.alloc_again_ne {pool = wide} 1 0 wide-IsValid refl refl History.Run.here refl refl
