-- ===== src/Coordinator/Examples.antt =====
-- The theorems on src/coordinator.rs at concrete inputs.
use mesh_vpn.Base.{
  ℕ, ◌<◌, ◌≡◌, refl, Bool, true, false, none, some, List, [], ◌∷◌, Bytes, ok, arith, ◌==◌, ◌||◌,
}
use mesh_vpn.Text.{
  codes, split_once, parse_ipv4, parse_u8, read_octet, read_dot_octet, octet_digits, u8_digits,
  strip_plus, print_ipv4, print_u8,
}
use mesh_vpn.Coordinator
use mesh_vpn.Coordinator.{
  IpAllocator, Registry, Disk, new_allocator, next_free, register, whitelisted, allocate, lookup,
  host_range, first_free, is_used, used_ips, persist, fresh_node,
}
use mesh_vpn.Coordinator.Pool.{IsHost, next_free-new_allocator}
use mesh_vpn.Coordinator.Calls.{Call, register_call, poll_call, calls}
use mesh_vpn.Coordinator.Assigned.{IsValid, calls-IsValid}
use mesh_vpn.Coordinator.Leases.{Steps, no_leases, leases_of}
use mesh_vpn.Coordinator.Refine.{calls-Steps}

abbrev cidr : Bytes
cidr = codes "10.0.99.0/24"

abbrev allocator : IpAllocator
allocator = record { network = 167797504; prefix = 24 }

cidr-allocator : new_allocator cidr ≡ ok allocator
unfolding new_allocator split_once parse_ipv4 parse_u8 read_octet read_dot_octet octet_digits
    u8_digits strip_plus
cidr-allocator = refl

-- The first two hosts are used.
abbrev two_used : ℕ → Bool
two_used ip = ip == 167797505 || ip == 167797506

next_free-new_allocator_example :
    ((ip : ℕ)
      → next_free allocator two_used ≡ some ip
      → IsHost allocator ip
        × (two_used ip ≡ false)
        × ((j : ℕ) → IsHost allocator j → j < ip → two_used j ≡ true))
    × (next_free allocator two_used ≡ none → (j : ℕ) → IsHost allocator j → two_used j ≡ true)
next_free-new_allocator_example =
    next_free-new_allocator cidr allocator two_used cidr-allocator (omega arith)

-- A file system that writes everything, and one that writes nothing.
abbrev good_disk : Disk
good_disk = record { exists = λ p. false; load = λ p. none; save = λ p nodes. true }

abbrev full_disk : Disk
full_disk = record { exists = λ p. false; load = λ p. none; save = λ p nodes. false }

abbrev history : List (Disk × Call)
history =
    (good_disk, register_call (codes "a") (codes "e") none none)
    ∷ (full_disk, register_call (codes "b") (codes "f") none none)
    ∷ (good_disk, poll_call (codes "c") (codes "g") none)
    ∷ (good_disk, register_call (codes "a") (codes "h") none none)
    ∷ []

abbrev fresh : Registry
fresh = record { allocator = allocator; nodes = []; path = none; whitelist = none }

cidr-new : Coordinator.new cidr ≡ ok fresh
unfolding Coordinator.new new_allocator split_once parse_ipv4 parse_u8 read_octet read_dot_octet
    octet_digits u8_digits strip_plus
cidr-new = refl

calls-IsValid_example : IsValid (calls history fresh)
calls-IsValid_example = calls-IsValid cidr fresh history cidr-new (omega arith)

succeeds :
    (register good_disk (codes "a") (codes "e") none none fresh).0 ≡ ok (print_ipv4 167797505, none)
unfolding register allocate lookup next_free host_range first_free is_used used_ips persist
    print_ipv4 print_u8
succeeds = refl

-- The registry with one node.
abbrev one : Registry
one = record {
  allocator = allocator;
  nodes = (codes "a", fresh_node (codes "a") 167797505 (codes "e") none none) ∷ [];
  path = none;
  whitelist = none;
}

calls-Steps_example : Steps allocator none history no_leases (leases_of (calls history fresh).nodes)
calls-Steps_example = calls-Steps cidr fresh none history cidr-new (omega arith)
