-- ===== src/Xnet/Tests.antt =====
-- Tests and instances: the network 10.0.0.0/24 and others.
use common_lib_go.Prelude.{◌≡◌, refl, some, [], ◌∷◌, false, arith}
use common_lib_go.Xnet.{
  Ip, IpNet, to4, isv4, bytes_to_uint32, to_uint32, uint32_to_ip, mask_to_uint32, byte_ones, zeros,
  slice_ones, mask_size, network_addr, broadcast_addr, first_usable, last_usable,
}
use common_lib_go.Xnet.Subnet.{IsSubnet}

program : Unit {0}
unfolding to4 isv4 bytes_to_uint32 to_uint32 uint32_to_ip mask_to_uint32 byte_ones zeros slice_ones
    mask_size network_addr broadcast_addr first_usable last_usable
program = tt

abbrev gateway : Ip
gateway = record { bytes = 10 ∷ 0 ∷ 0 ∷ 1 ∷ [] }

abbrev office : IpNet
office = record { ip = record { bytes = 10 ∷ 0 ∷ 0 ∷ 0 ∷ [] }; mask = 255 ∷ 255 ∷ 255 ∷ 0 ∷ [] }

usable :
    (first_usable office ≡ some gateway)
    × (last_usable office ≡ some (record { bytes = 10 ∷ 0 ∷ 0 ∷ 254 ∷ [] }))
unfolding program
usable = (refl, refl)

odd_mask : mask_size (255 ∷ 0 ∷ 255 ∷ 0 ∷ []) ≡ (0, 0)
unfolding program
odd_mask = refl

ipv6 : isv4 (record { bytes = 1 ∷ 0 ∷ [] }) ≡ false
unfolding program
ipv6 = refl

office-IsSubnet : IsSubnet office 0x0a000000 24
unfolding program
office-IsSubnet = record { address = refl; fits = omega arith; prefix = refl; short = omega arith }
