-- ===== src/Daemon/State.antt =====
-- What the handlers of src/daemon.rs share: the peer table with its metrics, the lookup of a peer by key
-- or by endpoint, the update of the peer that was found, and the check of cryptokey routing.
use mesh_vpn.Base.{
  Bool, false, not, ◌&&◌, Option, none, some, List, [], ◌∷◌, Bytes, if◌then◌else◌, ite, any,
}
use mesh_vpn.Net.{SocketAddr, endpoint-discrete, Bytes-discrete}
use mesh_vpn.Packet.{parse_ipv4_header, contains}
use mesh_vpn.Peer.{Peer, is_some}
use mesh_vpn.Manager.{PeerManager}
use mesh_vpn.Metrics.{Metrics, record_handshake_success}

pub record Shared (H T : Type 0) : Type 0 where
  pub manager : PeerManager H T
  pub metrics : Metrics

module _ {H T : Type 0} where
  -- `peers.iter_mut().find(|p| p.endpoint == Some(addr))`
  unfoldable pub find_addr : SocketAddr → List (Peer H T) → Option (Peer H T)
  find_addr addr [] = none
  find_addr addr (p ∷ ps) =
      ite (endpoint-discrete p.endpoint (some addr)) (some p) (find_addr addr ps)

  -- The table once the peer that `find_addr` gives has become `q`.
  unfoldable pub put_addr : SocketAddr → Peer H T → List (Peer H T) → List (Peer H T)
  put_addr addr q [] = []
  put_addr addr q (p ∷ ps) =
      ite (endpoint-discrete p.endpoint (some addr)) (q ∷ ps) (p ∷ put_addr addr q ps)

  -- The table once the peer that `find_key` gives has become `q`.
  unfoldable pub put_key : Bytes → Peer H T → List (Peer H T) → List (Peer H T)
  put_key key q [] = []
  put_key key q (p ∷ ps) = ite (Bytes-discrete p.pubkey key) (q ∷ ps) (p ∷ put_key key q ps)

  abbrev pub with_peers : Shared H T → List (Peer H T) → Shared H T
  with_peers s ps = record s { manager = record (s.manager) { peers = ps } }

  -- Cryptokey routing: the plaintext is an IPv4 packet from an address that the peer may use.
  unfoldable pub may_send : Peer H T → Bytes → Bool
  may_send p plaintext = elim (parse_ipv4_header plaintext) [
    | none ↦ false
    | some (src, dst) ↦ any (λ s. contains s src) p.allowed_ips
  ]

  -- What the handlers deliver of a decrypted packet.
  abbrev pub allowed : Peer H T → Option Bytes → Option Bytes
  allowed p none = none
  allowed p (some plaintext) = if may_send p plaintext then some plaintext else none

  -- `if !was_active && peer.active.is_some() { record_handshake_success() }`
  abbrev pub count_success : Peer H T → Peer H T → Metrics → Metrics
  count_success before after m =
      if not (is_some before.active) && is_some after.active then record_handshake_success m else m
