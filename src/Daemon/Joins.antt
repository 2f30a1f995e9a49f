-- ===== src/Daemon/Joins.antt =====
-- The theorems on a daemon of src/daemon.rs that joins the network, at concrete inputs.
use mesh_vpn.Base.{
  ℕ, ◌≡◌, refl, false, true, some, none, List, [], ◌∷◌, Bytes, ok, replicate, arith, ℕ_discrete,
}
use mesh_vpn.Text.{
  codes, split, split_once, trim, trim_start, trim_end, parse_ipv4, parse_u8, read_octet,
  read_dot_octet, octet_digits, u8_digits, strip_plus, print_ipv4, print_u8,
}
use mesh_vpn.Net.{socket_v4, Bytes-discrete, IpAddr-discrete}
use mesh_vpn.Net.Plain.{plain_parsers}
use mesh_vpn.Packet.{from_str}
use mesh_vpn.Config.{ParsedPeer, to_spec, parse_peer_arg, parse_key, parse_endpoint, parse_subnets}
use mesh_vpn.Config.Settings.{DaemonSettings}
use mesh_vpn.Coordinator
use mesh_vpn.Coordinator.{
  NodeRecord, fresh_node, Registry, Disk, new_allocator, next_free, host_range, first_free, is_used,
  used_ips, persist, lookup, insert, allocate, peers_for,
}
use mesh_vpn.Coordinator.Pool.{IsHost}
use mesh_vpn.Coordinator.Calls.{Call, call, calls, register_call, assigned}
use mesh_vpn.Coordinatord
use mesh_vpn.Coordinatord.{AppState, RegisterRequest, check_auth, register_allowed, last_reg}
use mesh_vpn.Daemon.Setup.{
  Host, Started, run_with_settings, resolve_network_setup, coordinator_peers, started, peer_of,
  trim_slashes,
}
use mesh_vpn.Manager.{find_best_peer_idx}
use mesh_vpn.Daemon.Mesh.{descriptor_of}
use mesh_vpn.Daemon.Reaches.{Reaches, run_with_settings-Reaches}
use mesh_vpn.Daemon.Join.{Server, serve, request_of, decoded, run_with_settings-address}

abbrev disk : Disk
disk = record { exists = λ p. false; load = λ p. none; save = λ p nodes. true }

abbrev cidr : Bytes
cidr = codes "10.0.99.0/24"

abbrev fresh : Registry
fresh = record {
  allocator = record { network = 167797504; prefix = 24 };
  nodes = [];
  path = none;
  whitelist = none;
}

cidr-new : Coordinator.new cidr ≡ ok fresh
unfolding Coordinator.new new_allocator split_once parse_ipv4 parse_u8 read_octet read_dot_octet
    octet_digits u8_digits strip_plus
cidr-new = refl

-- Another node has registered before.
abbrev history : List (Disk × Call)
history = (disk, register_call (replicate 32 8) [] none none) ∷ []

abbrev server : Server
server = record {
  disk = disk;
  show_addr = λ addr. [];
  now = 9;
  client_addr = socket_v4 7 40000;
  state = record { registry = calls history fresh; auth_key = codes "secret"; rate_limits = [] };
}

abbrev settings : DaemonSettings
settings = record {
  tun_name = codes "arax0";
  tun_ip = none;
  tun_netmask = codes "255.255.255.0";
  local_udp = socket_v4 0 50001;
  private_key_hex = replicate 32 5;
  peer_specs = [];
  coordinator_url = some (codes "http://c/");
  relay_addr = none;
  auth_key = some (codes "secret");
  hostname = none;
  public_endpoint = none;
  magic_handshake_init = 17;
  magic_handshake_resp = 2;
  magic_data = 3;
  magic_probe = 4;
}

abbrev host : Host
host = record {
  public_of = λ key. replicate 32 6;
  encode_hex = λ bytes. bytes;
  show_addr = λ addr. [];
  post_register = λ place req. decoded (serve server req).0;
  build_device = λ name mtu ip mask. true;
  bind = λ addr. true;
}

abbrev joined : Started ℕ ℕ
joined =
    started plain_parsers 0 host settings (replicate 32 5) (replicate 32 6) (codes "10.0.99.2") (
      peer_of plain_parsers 0 (record {
        pubkey = replicate 32 8;
        endpoint = none;
        allowed_ips = record { addr = 167797505; prefix_len = 32 } ∷ [];
      })
      ∷ [])

joins : run_with_settings plain_parsers 0 host settings ≡ ok joined
unfolding run_with_settings resolve_network_setup coordinator_peers trim_slashes
    Coordinatord.register register_allowed check_auth last_reg Coordinator.register allocate lookup
    insert next_free host_range first_free is_used used_ips persist peers_for calls call print_ipv4
    print_u8 parse_peer_arg to_spec parse_key parse_endpoint parse_subnets split trim trim_start
    trim_end from_str parse_ipv4 read_octet read_dot_octet octet_digits Bytes-discrete
    IpAddr-discrete ℕ_discrete
joins = refl

-- The registry once the daemon has joined.
abbrev enrolled : Registry
enrolled = (serve server (request_of host settings joined.pubkey)).1.registry

run_with_settings-address_example :
    (assigned enrolled.nodes (replicate 32 6) ≡ some (codes "10.0.99.2"))
    × ((ip : ℕ) × (codes "10.0.99.2" ≡ print_ipv4 ip) × IsHost fresh.allocator ip)
    × ((key : Bytes)
        → assigned enrolled.nodes key ≡ some (codes "10.0.99.2")
        → key ≡ replicate 32 6)
run_with_settings-address_example =
    run_with_settings-address plain_parsers 0 host server settings (codes "http://c/") joined cidr
      fresh history cidr-new (omega arith) refl refl (λ place req. refl) joins

-- The node that had registered before.
abbrev other : NodeRecord
other = fresh_node (replicate 32 8) 167797505 [] none none

abbrev other_peer : ParsedPeer
other_peer = record {
  pubkey = replicate 32 8;
  endpoint = none;
  allowed_ips = record { addr = 167797505; prefix_len = 32 } ∷ [];
}

other_listed : lookup (replicate 32 8) enrolled.nodes ≡ some other
unfolding Coordinatord.register register_allowed check_auth last_reg Coordinator.register allocate
    lookup insert next_free host_range first_free is_used used_ips persist calls call print_ipv4
    print_u8 Bytes-discrete IpAddr-discrete ℕ_discrete parse_ipv4 read_octet read_dot_octet
    octet_digits
other_listed = refl

other_differs : Path Bytes (replicate 32 8) (replicate 32 6) → ⊥
other_differs e = cc

other_parses : parse_peer_arg plain_parsers (to_spec (descriptor_of other)) ≡ ok other_peer
unfolding parse_peer_arg to_spec parse_key parse_endpoint parse_subnets split trim trim_start
    trim_end from_str parse_ipv4 read_octet read_dot_octet octet_digits print_ipv4 print_u8
other_parses = refl

run_with_settings-Reaches_example :
    (ip : ℕ) × (other.allowed_ip ≡ print_ipv4 ip)
    × (i : ℕ) × (find_best_peer_idx ip joined.shared.manager ≡ some i)
    × Reaches joined.shared.manager.peers ip i (replicate 32 8)
run_with_settings-Reaches_example =
    run_with_settings-Reaches plain_parsers 0 host server settings (codes "http://c/") joined cidr
      fresh history (replicate 32 8) other other_peer cidr-new (omega arith) refl refl
      (λ place req. refl) joins other_listed other_differs other_parses
