-- ===== src/Daemon/Status.antt =====
-- The status report of `spawn_timer_task` in src/daemon.rs.
use mesh_vpn.Base.{ℕ, Bool, Option, none, some, List, Bytes, if◌then◌else◌, any, map}
use mesh_vpn.Text.{codes}
use mesh_vpn.Net.{SocketAddr, elapsed_secs}
use mesh_vpn.Packet.{to_string}
use mesh_vpn.Peer.{Peer, is_some}
use mesh_vpn.Daemon.State.{Shared}

pub record PeerStatus : Type 0 where
  pub pubkey : Bytes
  pub endpoint : Option Bytes
  pub allowed_ips : List Bytes
  pub last_rx_secs_ago : Option ℕ
  pub last_tx_secs_ago : Option ℕ
  pub is_active : Bool

pub record DaemonStatus : Type 0 where
  pub connection_state : Bytes
  pub assigned_ip : Option Bytes
  pub total_uploaded : ℕ
  pub total_downloaded : ℕ
  pub total_rx_packets : ℕ
  pub total_tx_packets : ℕ
  pub handshake_attempts : ℕ
  pub handshake_successes : ℕ
  pub peers : List PeerStatus

-- The text forms of bytes and of a socket address.
module _ {H T : Type 0} (encode_hex : Bytes → Bytes) (show_addr : SocketAddr → Bytes)
    (now : ℕ) where
  unfoldable pub peer_status : Peer H T → PeerStatus
  peer_status peer = record {
    pubkey = encode_hex peer.pubkey;
    endpoint = elim peer.endpoint [ none ↦ none | some e ↦ some (show_addr e) ];
    allowed_ips = map to_string peer.allowed_ips;
    last_rx_secs_ago = elim peer.active [
      | none ↦ none
      | some s ↦ some (elapsed_secs now s.established_at)
    ];
    last_tx_secs_ago = elim peer.active [
      | none ↦ none
      | some s ↦ some (elapsed_secs now s.established_at)
    ];
    is_active = is_some peer.active;
  }

  unfoldable pub daemon_status : Bytes → Shared H T → DaemonStatus
  unfolding peer_status
  daemon_status tun_ip s = record {
    connection_state =
        if any (λ p. is_some p.active) s.manager.peers
        then codes "Connected"
        else codes "Connecting";
    assigned_ip = some tun_ip;
    total_uploaded = s.metrics.total_tx_bytes;
    total_downloaded = s.metrics.total_rx_bytes;
    total_rx_packets = s.metrics.total_rx_packets;
    total_tx_packets = s.metrics.total_tx_packets;
    handshake_attempts = s.metrics.handshake_attempts;
    handshake_successes = s.metrics.handshake_successes;
    peers = map peer_status s.manager.peers;
  }
