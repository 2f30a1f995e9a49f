-- ===== src/Daemon/Setup.antt =====
-- `run_with_settings` and `resolve_network_setup` of src/daemon.rs, up to the tasks that they start.
use mesh_vpn.Base.{
  ℕ, Bool, Option, none, some, List, [], ◌∷◌, ◌++◌, Bytes, Result, ok, err, ◌==◌, if◌then◌else◌,
  length,
}
use mesh_vpn.Text.{codes}
use mesh_vpn.Net.{SocketAddr, Parsers}
use mesh_vpn.Packet.{ok_or, ◌>>=◌}
use mesh_vpn.Config.{PeerDescriptor, ParsedPeer, PeerError, to_spec, unwrap_or, parse_peer_arg}
use mesh_vpn.Config.Settings.{DaemonSettings}
use mesh_vpn.Coordinatord.{RegisterRequest, RegisterResponse}
use mesh_vpn.Peer
use mesh_vpn.Peer.{Peer, MagicConfig, is_some}
use mesh_vpn.Manager
use mesh_vpn.Metrics
use mesh_vpn.Daemon.State.{Shared}

-- Why the daemon does not start, by the place in the code that returns the `AraxError`.
pub data SetupError : Type 0 where
  private_key_hex private_key_length tun_ip_required register_failed no_tun_device no_udp_socket :
      SetupError
  invalid_static_peer : PeerError → SetupError

-- What the set-up takes of its surroundings: the public key of a secret one in `x25519_dalek`, the text
-- forms of bytes and of a socket address, the HTTP client with its JSON, which gives nothing where the
-- request or the decoding of the response fails, the TUN device and the UDP socket.
pub record Host : Type 0 where
  pub public_of : Bytes → Bytes
  pub encode_hex : Bytes → Bytes
  pub show_addr : SocketAddr → Bytes
  pub post_register : Bytes → RegisterRequest → Option RegisterResponse
  pub build_device : Bytes → ℕ → Bytes → Bytes → Bool
  pub bind : SocketAddr → Bool

-- `trim_end_matches('/')`
unfoldable pub trim_slashes : Bytes → Bytes
trim_slashes [] = []
trim_slashes (c ∷ s) = elim (trim_slashes s) [
  | [] ↦ if c == b'/' then [] else c ∷ []
  | d ∷ t ↦ c ∷ d ∷ t
]

-- The public endpoint that the settings name, or else the address to listen on.
abbrev pub endpoint_or : Option Bytes → Bytes → Bytes
endpoint_or (some ep) local_udp = ep
endpoint_or none local_udp = local_udp

abbrev pub register_request : DaemonSettings → Bytes → Bytes → RegisterRequest
register_request settings pubkey_hex public_endpoint = record {
  public_key = pubkey_hex;
  auth_key = unwrap_or settings.auth_key [];
  endpoint = public_endpoint;
  hostname = settings.hostname;
}

abbrev pub magic_of : DaemonSettings → MagicConfig
magic_of settings = record {
  handshake_init = settings.magic_handshake_init;
  handshake_resp = settings.magic_handshake_resp;
  data_byte = settings.magic_data;
  probe = settings.magic_probe;
}

abbrev pub mtu : ℕ
mtu = 1411

-- `?` on a call whose result is used elsewhere.
abbrev pub ensure : Bool → SetupError → Result (Unit {0}) SetupError
ensure done e = if done then ok tt else err e

-- What the tasks start with.
pub record Started (H T : Type 0) : Type 0 where
  pub shared : Shared H T
  pub tun_ip : Bytes
  pub pubkey : Bytes
  pub pubkey_hex : Bytes
  pub public_endpoint : Bytes
  pub has_relay : Bool

module _ {H T : Type 0} (P : Parsers) (now : ℕ) where
  abbrev pub peer_of : ParsedPeer → Peer H T
  peer_of p = Peer.new now p.pubkey p.endpoint p.allowed_ips

  -- The coordinator's descriptors; one that does not parse is skipped.
  unfoldable pub coordinator_peers : List PeerDescriptor → List (Peer H T)
  coordinator_peers [] = []
  coordinator_peers (d ∷ ds) =
      let rest = coordinator_peers ds in
      elim (parse_peer_arg P (to_spec d)) [ ok p ↦ peer_of p ∷ rest | err e ↦ rest ]

  -- The peers of the settings; the first that does not parse is an error.
  unfoldable pub static_peers : List Bytes → Result (List (Peer H T)) SetupError
  static_peers [] = ok []
  static_peers (arg ∷ args) = elim (parse_peer_arg P arg) [
    | err e ↦ err (invalid_static_peer e)
    | ok p ↦ static_peers args >>= λ peers. ok (peer_of p ∷ peers)
  ]

  module _ (M : Host) where
    open M use {public_of, encode_hex, show_addr, post_register, build_device, bind}

    unfoldable pub resolve_network_setup :
        DaemonSettings → Bytes → Bytes → Result (Bytes × List (Peer H T)) SetupError
    unfolding coordinator_peers static_peers trim_slashes
    resolve_network_setup settings pubkey_hex public_endpoint = elim settings.coordinator_url [
      | some url ↦ do
        resp ←
            ok_or
              (post_register (trim_slashes url ++ codes "/register")
                (register_request settings pubkey_hex public_endpoint))
              register_failed
        ok (resp.assigned_ip, coordinator_peers resp.peers)
      | none ↦ do
        peers ← static_peers settings.peer_specs
        tun_ip ← ok_or settings.tun_ip tun_ip_required
        ok (tun_ip, peers)
    ]

    -- The shared state that the tasks find, and what else they are given.
    abbrev pub started : DaemonSettings → Bytes → Bytes → Bytes → List (Peer H T) → Started H T
    started settings local_priv pubkey tun_ip peers = record {
      shared = record {
        manager = Manager.new local_priv peers (magic_of settings);
        metrics = Metrics.new;
      };
      tun_ip = tun_ip;
      pubkey = pubkey;
      pubkey_hex = encode_hex pubkey;
      public_endpoint = endpoint_or settings.public_endpoint (show_addr settings.local_udp);
      has_relay = is_some settings.relay_addr;
    }

    unfoldable pub run_with_settings : DaemonSettings → Result (Started H T) SetupError
    unfolding resolve_network_setup
    run_with_settings settings = do
      local_priv ← ok_or (P.decode_hex settings.private_key_hex) private_key_hex
      secret ← if length local_priv == 32 then ok local_priv else err private_key_length
      let pubkey = public_of secret
      let public_endpoint = endpoint_or settings.public_endpoint (show_addr settings.local_udp)
      network ← resolve_network_setup settings (encode_hex pubkey) public_endpoint
      device ←
          ensure (build_device settings.tun_name mtu network.0 settings.tun_netmask) no_tun_device
      socket ← ensure (bind settings.local_udp) no_udp_socket
      ok (started settings local_priv pubkey network.0 network.1)
