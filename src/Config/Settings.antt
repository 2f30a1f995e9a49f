-- ===== src/Config/Settings.antt =====
-- The rest of src/config.rs: the settings of the daemon, from the command line or from a file.
pub mod Mirror
use mesh_vpn.Base.{
  ℕ, Bool, true, false, Option, none, some, List, [], ◌∷◌, ◌++◌, Bytes, Result, ok, err, map,
}
use mesh_vpn.Text.{codes}
use mesh_vpn.Net.{SocketAddr, Parsers}
use mesh_vpn.Packet.{ok_or, ◌>>=◌}
use mesh_vpn.Config.{PeerDescriptor, to_spec, unwrap_or}

-- The command line, as the `clap` crate hands it over, its defaults filled in.
pub record Args : Type 0 where
  pub tun_name : Bytes
  pub tun_ip : Option Bytes
  pub tun_netmask : Bytes
  pub local_udp : SocketAddr
  pub peer : List Bytes
  pub private_key : Option Bytes
  pub gen_keys : Bool
  pub config : Option Bytes
  pub coordinator_url : Option Bytes
  pub auth_key : Option Bytes
  pub hostname : Option Bytes
  pub public_endpoint : Option Bytes
  pub relay_addr : Option Bytes
  pub magic_handshake_init : Option ℕ
  pub magic_handshake_resp : Option ℕ
  pub magic_data : Option ℕ
  pub magic_probe : Option ℕ

-- The fields of a configuration file, before the defaults for the fields that it leaves out.
pub record FileConfig : Type 0 where
  pub private_key : Bytes
  pub tun_ip : Option Bytes
  pub tun_name : Option Bytes
  pub tun_netmask : Option Bytes
  pub local_udp : Option Bytes
  pub peer : Option (List PeerDescriptor)
  pub coordinator_url : Option Bytes
  pub relay_addr : Option Bytes
  pub auth_key : Option Bytes
  pub hostname : Option Bytes
  pub public_endpoint : Option Bytes
  pub magic_handshake_init : Option ℕ
  pub magic_handshake_resp : Option ℕ
  pub magic_data : Option ℕ
  pub magic_probe : Option ℕ

pub record DaemonSettings : Type 0 where
  pub tun_name : Bytes
  pub tun_ip : Option Bytes
  pub tun_netmask : Bytes
  pub local_udp : SocketAddr
  pub private_key_hex : Bytes
  pub peer_specs : List Bytes
  pub coordinator_url : Option Bytes
  pub relay_addr : Option Bytes
  pub auth_key : Option Bytes
  pub hostname : Option Bytes
  pub public_endpoint : Option Bytes
  pub magic_handshake_init : ℕ
  pub magic_handshake_resp : ℕ
  pub magic_data : ℕ
  pub magic_probe : ℕ

abbrev pub default_tun_name : Bytes
default_tun_name = codes "arax0"

abbrev pub default_tun_netmask : Bytes
default_tun_netmask = codes "255.255.255.0"

abbrev pub default_local_udp : Bytes
default_local_udp = codes "0.0.0.0:50001"

-- The messages of `resolve_settings`, each an `AraxError::Config`.
pub data SettingsError : Type 0 where
  unreadable_file unparsed_file invalid_local_udp missing_tun_ip missing_private_key : SettingsError

-- What surrounds the settings: the file system, the TOML parser with `FileConfig`'s schema, and the
-- host of a URL in `reqwest`.
pub record Sources : Type 0 where
  pub read_to_string : Bytes → Option Bytes
  pub parse_toml : Bytes → Option FileConfig
  pub url_host : Bytes → Option Bytes

module _ (P : Parsers) (S : Sources) where
  open S use {read_to_string, parse_toml, url_host}

  -- A relay address is given, or is that of the coordinator's host.
  unfoldable pub relay_of : Option Bytes → Option Bytes → Option Bytes
  relay_of (some addr) url = some addr
  relay_of none none = none
  relay_of none (some url) = elim (url_host url) [
    | none ↦ none
    | some host ↦ some (host ++ codes ":51821")
  ]

  unfoldable pub from_file : FileConfig → Result DaemonSettings SettingsError
  unfolding relay_of
  from_file cfg = do
    local_udp ←
        ok_or (P.parse_socket_addr (unwrap_or cfg.local_udp default_local_udp)) invalid_local_udp
    ok (record {
      tun_name = unwrap_or cfg.tun_name default_tun_name;
      tun_ip = cfg.tun_ip;
      tun_netmask = unwrap_or cfg.tun_netmask default_tun_netmask;
      local_udp = local_udp;
      private_key_hex = cfg.private_key;
      peer_specs = map to_spec (unwrap_or cfg.peer []);
      coordinator_url = cfg.coordinator_url;
      relay_addr = relay_of cfg.relay_addr cfg.coordinator_url;
      auth_key = cfg.auth_key;
      hostname = cfg.hostname;
      public_endpoint = cfg.public_endpoint;
      magic_handshake_init = unwrap_or cfg.magic_handshake_init 1;
      magic_handshake_resp = unwrap_or cfg.magic_handshake_resp 2;
      magic_data = unwrap_or cfg.magic_data 3;
      magic_probe = unwrap_or cfg.magic_probe 4;
    })

  -- An address of the TUN device is needed where no coordinator assigns one.
  abbrev pub required_tun_ip : Option Bytes → Option Bytes → Result (Option Bytes) SettingsError
  required_tun_ip none none = err missing_tun_ip
  required_tun_ip none (some ip) = ok (some ip)
  required_tun_ip (some url) tun_ip = ok tun_ip

  unfoldable pub from_args : Args → Result DaemonSettings SettingsError
  unfolding relay_of
  from_args args = do
    tun_ip ← required_tun_ip args.coordinator_url args.tun_ip
    private_key_hex ← ok_or args.private_key missing_private_key
    ok (record {
      tun_name = args.tun_name;
      tun_ip = tun_ip;
      tun_netmask = args.tun_netmask;
      local_udp = args.local_udp;
      private_key_hex = private_key_hex;
      peer_specs = args.peer;
      coordinator_url = args.coordinator_url;
      relay_addr = relay_of args.relay_addr args.coordinator_url;
      auth_key = args.auth_key;
      hostname = args.hostname;
      public_endpoint = args.public_endpoint;
      magic_handshake_init = unwrap_or args.magic_handshake_init 1;
      magic_handshake_resp = unwrap_or args.magic_handshake_resp 2;
      magic_data = unwrap_or args.magic_data 3;
      magic_probe = unwrap_or args.magic_probe 4;
    })

  unfoldable pub resolve_settings : Args → Result DaemonSettings SettingsError
  unfolding from_file from_args
  resolve_settings args = elim args.config [
    | some path ↦ do
      text ← ok_or (read_to_string path) unreadable_file
      cfg ← ok_or (parse_toml text) unparsed_file
      from_file cfg
    | none ↦ from_args args
  ]

-- What the command line asks for.
pub data Startup : Type 0 where
  generate_keys : Startup
  run_with : DaemonSettings → Startup

unfoldable pub parse_startup : Parsers → Sources → Args → Result Startup SettingsError
unfolding resolve_settings
parse_startup P S args = elim args.gen_keys [
  | true ↦ ok generate_keys
  | false ↦ resolve_settings P S args >>= λ settings. ok (run_with settings)
]
