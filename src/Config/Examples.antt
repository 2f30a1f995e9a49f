-- ===== src/Config/Examples.antt =====
-- The theorems on src/config.rs at concrete inputs.
use mesh_vpn.Base.{◌≡◌, ◌↔◌, inr, refl, false, none, some, [], ◌∷◌, ok, replicate}
use mesh_vpn.Text.{codes}
use mesh_vpn.Net.{SocketAddr, Parsers, socket_v4}
use mesh_vpn.Net.Plain.{plain_parsers}
use mesh_vpn.Config.{PeerDescriptor, ParsedPeer, to_spec, parse_peer_arg}
use mesh_vpn.Config.Spec.{IsClean, Reads, parse_peer_arg-to_spec}
use mesh_vpn.Config.Settings.{Args, FileConfig, Sources, resolve_settings}
use mesh_vpn.Config.Settings.Mirror.{Mirrors, resolve_settings-Mirrors}

abbrev descriptor : PeerDescriptor
descriptor = record { public_key = replicate 32 7; allowed_ip = codes "8.8.8.8"; endpoint = none }

abbrev parsed : ParsedPeer
parsed = record {
  pubkey = replicate 32 7;
  endpoint = none;
  allowed_ips = record { addr = 134744072; prefix_len = 32 } ∷ [];
}

parse_peer_arg-to_spec_example :
    (parse_peer_arg plain_parsers (to_spec descriptor) ≡ ok parsed)
    ↔ (IsClean descriptor × Reads plain_parsers descriptor parsed)
parse_peer_arg-to_spec_example = parse_peer_arg-to_spec plain_parsers descriptor parsed

-- Parsers that know one socket address, and a disk with one file that holds one configuration.
abbrev listen : SocketAddr
listen = socket_v4 0 50001

abbrev parsers : Parsers
parsers = record { decode_hex = λ s. some s; parse_socket_addr = λ s. some listen }

abbrev cfg : FileConfig
cfg = record {
  private_key = replicate 32 5;
  tun_ip = some (codes "10.0.99.1");
  tun_name = some (codes "mesh0");
  tun_netmask = some (codes "255.255.0.0");
  local_udp = none;
  peer = some (descriptor ∷ []);
  coordinator_url = none;
  relay_addr = none;
  auth_key = none;
  hostname = none;
  public_endpoint = none;
  magic_handshake_init = some 17;
  magic_handshake_resp = none;
  magic_data = none;
  magic_probe = none;
}

abbrev sources : Sources
sources = record {
  read_to_string = λ path. some path;
  parse_toml = λ text. some cfg;
  url_host = λ url. none;
}

-- The flags that say the same.
abbrev args : Args
args = record {
  tun_name = codes "mesh0";
  tun_ip = some (codes "10.0.99.1");
  tun_netmask = codes "255.255.0.0";
  local_udp = listen;
  peer = to_spec descriptor ∷ [];
  private_key = some (replicate 32 5);
  gen_keys = false;
  config = none;
  coordinator_url = none;
  auth_key = none;
  hostname = none;
  public_endpoint = none;
  relay_addr = none;
  magic_handshake_init = some 17;
  magic_handshake_resp = none;
  magic_data = none;
  magic_probe = none;
}

-- No flags but the path of the file.
abbrev with_file : Args
with_file = record args {
  tun_name = codes "arax0";
  tun_ip = none;
  private_key = none;
  peer = [];
  config = some (codes "node.toml");
}

args-Mirrors : Mirrors parsers args cfg
args-Mirrors = record {
  tun_name = refl;
  tun_ip = refl;
  tun_netmask = refl;
  local_udp = refl;
  private_key = refl;
  peer = refl;
  coordinator_url = refl;
  relay_addr = refl;
  auth_key = refl;
  hostname = refl;
  public_endpoint = refl;
  magic_handshake_init = refl;
  magic_handshake_resp = refl;
  magic_data = refl;
  magic_probe = refl;
}

resolve_settings-Mirrors_example :
    resolve_settings parsers sources with_file ≡ resolve_settings parsers sources args
resolve_settings-Mirrors_example =
    resolve_settings-Mirrors parsers sources args with_file (codes "node.toml") (codes "node.toml")
      cfg refl refl refl refl args-Mirrors (inr (λ e. absurd (cc (e))))
