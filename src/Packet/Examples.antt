-- ===== src/Packet/Examples.antt =====
-- The theorems on src/packet.rs at concrete inputs.
use mesh_vpn.Base.{◌/◌, ◌^◌, ◌≡◌, ◌↔◌, true, arith, ok}
use mesh_vpn.Packet.{Ipv4Subnet, contains, from_str, to_string}
use mesh_vpn.Packet.Subnet.{contains_iff, from_str-to_string}

abbrev subnet : Ipv4Subnet
subnet = record { addr = 167797504; prefix_len = 24 }

contains_iff_example : (contains subnet 167797506 ≡ true) ↔ (167797504 / 2 ^ 8 ≡ 167797506 / 2 ^ 8)
contains_iff_example = contains_iff subnet 167797506 (omega arith) (omega arith) (omega arith)

from_str-to_string_example : from_str (to_string subnet) ≡ ok subnet
from_str-to_string_example = from_str-to_string subnet (omega arith) (omega arith)
