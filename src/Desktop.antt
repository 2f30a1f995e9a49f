-- ===== src/Desktop.antt =====
-- desktop-app/src-tauri/src/lib.rs: the commands of the desktop application, which starts and stops one
-- daemon, as operations on the state behind its mutex.
pub mod Runs
mod Examples
use mesh_vpn.Base.{
  ℕ, Bool, true, false, Option, none, some, List, [], ◌∷◌, Bytes, Result, ok, err, if◌then◌else◌,
}
use mesh_vpn.Text.{codes}
use mesh_vpn.Net.{SocketAddr, Parsers}
use mesh_vpn.Packet.{ok_or, ◌>>=◌}
use mesh_vpn.Config.{unwrap_or}
use mesh_vpn.Config.Settings.{
  DaemonSettings, default_tun_name, default_tun_netmask, default_local_udp,
}
use mesh_vpn.Peer.{is_empty}
use mesh_vpn.Daemon.Status.{DaemonStatus}

pub record FrontendSettings : Type 0 where
  pub private_key : Bytes
  pub tun_name : Option Bytes
  pub tun_ip : Option Bytes
  pub tun_netmask : Option Bytes
  pub local_udp : Option Bytes
  pub coordinator_url : Option Bytes
  pub auth_key : Option Bytes
  pub hostname : Option Bytes
  pub public_endpoint : Option Bytes
  pub relay_addr : Option Bytes
  pub peers : Option (List Bytes)
  pub magic_handshake_init : Option ℕ
  pub magic_handshake_resp : Option ℕ
  pub magic_data : Option ℕ
  pub magic_probe : Option ℕ

-- A status: one that the daemon has reported, or the application's own with the connection state, in
-- which all else is zero or empty.
pub data Snapshot : Type 0 where
  reported : DaemonStatus → Snapshot
  placeholder : Bytes → Snapshot

-- The sender of the shutdown signal is that of the daemon with the number.
pub record DaemonState : Type 0 where
  pub shutdown_tx : Option ℕ
  pub latest_status : Option Snapshot
  pub running : Bool
  pub last_error : Option Bytes

-- The state in `run`.
abbrev pub initial : DaemonState
initial = record { shutdown_tx = none; latest_status = none; running = false; last_error = none }

-- The messages of the refused commands.
pub data CommandError : Type 0 where
  no_private_key invalid_local_udp already_running not_running no_shutdown_channel : CommandError

unfoldable pub to_daemon_settings : Parsers → FrontendSettings → Result DaemonSettings CommandError
to_daemon_settings P fs =
    if is_empty fs.private_key
    then err no_private_key
    else ok_or (P.parse_socket_addr (unwrap_or fs.local_udp default_local_udp)) invalid_local_udp
      >>= λ local_udp. ok (record {
        tun_name = unwrap_or fs.tun_name default_tun_name;
        tun_ip = fs.tun_ip;
        tun_netmask = unwrap_or fs.tun_netmask default_tun_netmask;
        local_udp = local_udp;
        private_key_hex = fs.private_key;
        peer_specs = unwrap_or fs.peers [];
        coordinator_url = fs.coordinator_url;
        relay_addr = fs.relay_addr;
        auth_key = fs.auth_key;
        hostname = fs.hostname;
        public_endpoint = fs.public_endpoint;
        magic_handshake_init = unwrap_or fs.magic_handshake_init 1;
        magic_handshake_resp = unwrap_or fs.magic_handshake_resp 2;
        magic_data = unwrap_or fs.magic_data 3;
        magic_probe = unwrap_or fs.magic_probe 4;
      })

-- `start_vpn`, which starts the daemon with the number: the settings that the daemon gets.
unfoldable pub start_vpn :
    Parsers → FrontendSettings → ℕ → DaemonState → Result DaemonSettings CommandError × DaemonState
unfolding to_daemon_settings
start_vpn P settings number s =
    if s.running then (err already_running, s) else elim (to_daemon_settings P settings) [
      | err e ↦ (err e, s)
      | ok daemon_settings ↦ (
        ok daemon_settings,
        record s {
          shutdown_tx = some number;
          running = true;
          last_error = none;
          latest_status = some (placeholder (codes "Connecting"));
        },
      )
    ]

-- The status reader: one status of the channel.
unfoldable pub on_status : DaemonStatus → DaemonState → DaemonState
on_status status s = record s { latest_status = some (reported status) }

-- The daemon has ended, with the text of an error or without.
unfoldable pub on_exit : Option Bytes → DaemonState → DaemonState
on_exit (some err_str) s = record s {
  running = false;
  shutdown_tx = none;
  last_error = some err_str;
  latest_status = some (placeholder (codes "Error"));
}
on_exit none s = record s {
  running = false;
  shutdown_tx = none;
  latest_status = some (placeholder (codes "Disconnected"));
}

-- `stop_vpn`: the number of the daemon that gets the signal.
unfoldable pub stop_vpn : DaemonState → Result ℕ CommandError × DaemonState
stop_vpn s =
    if s.running
    then elim s.shutdown_tx [
      | none ↦ (err no_shutdown_channel, s)
      | some number ↦ (
        ok number,
        record s { shutdown_tx = none; latest_status = some (placeholder (codes "Disconnecting")) },
      )
    ]
    else (err not_running, s)

pub record VpnStatusResponse : Type 0 where
  pub running : Bool
  pub status : Option Snapshot
  pub error : Option Bytes

unfoldable pub get_vpn_status : DaemonState → VpnStatusResponse
get_vpn_status s = record { running = s.running; status = s.latest_status; error = s.last_error }

pub record KeypairResponse : Type 0 where
  pub private_key : Bytes
  pub public_key : Bytes

-- `generate_keypair`, with the bytes that it draws, the public key of a secret one in `x25519_dalek`,
-- and the text form of bytes.
unfoldable pub generate_keypair : (Bytes → Bytes) → (Bytes → Bytes) → Bytes → KeypairResponse
generate_keypair public_of encode_hex private_bytes = record {
  private_key = encode_hex private_bytes;
  public_key = encode_hex (public_of private_bytes);
}
