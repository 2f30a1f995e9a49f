-- ===== src/Manager.antt =====
-- `PeerManager` of src/peer.rs: the peer table, its reconciliation with the coordinator's list, and the
-- choice of the peer that a packet is routed to.
pub mod Routes
pub mod Sync
mod Examples
use mesh_vpn.Base.{
  ℕ, zero, suc, ◌+◌, Bool, true, false, ◌&&◌, Option, none, some, List, [], ◌∷◌, ◌++◌, Bytes, ok,
  err, ltb, if◌then◌else◌, ite, map,
}
use mesh_vpn.Text.{Ipv4Addr}
use mesh_vpn.Net.{SocketAddr, Bytes-discrete, Parsers}
use mesh_vpn.Packet.{Ipv4Subnet, contains}
use mesh_vpn.Config.{PeerDescriptor, ParsedPeer, to_spec, parse_peer_arg}
use mesh_vpn.Peer.{Peer, MagicConfig}
use mesh_vpn.Peer

pub record PeerManager (H T : Type 0) : Type 0 where
  pub local_priv : Bytes
  pub peers : List (Peer H T)
  pub magic : MagicConfig

-- The descriptors that parse; the others are skipped.
unfoldable pub parse_wanted : Parsers → List PeerDescriptor → List ParsedPeer
parse_wanted P [] = []
parse_wanted P (d ∷ ds) = elim (parse_peer_arg P (to_spec d)) [
  | ok w ↦ w ∷ parse_wanted P ds
  | err e ↦ parse_wanted P ds
]

-- `wanted.iter().any(|w| w.pubkey == key)`
unfoldable pub is_wanted : List ParsedPeer → Bytes → Bool
is_wanted [] key = false
is_wanted (w ∷ ws) key = ite (Bytes-discrete w.pubkey key) true (is_wanted ws key)

-- The loops of `find_best_peer_idx`. The best prefix length so far is kept one up, so that the -1 at
-- the start is 0.
unfoldable pub scan_subnets : Ipv4Addr → ℕ → List Ipv4Subnet → Option ℕ × ℕ → Option ℕ × ℕ
scan_subnets dst idx [] best = best
scan_subnets dst idx (subnet ∷ subnets) best = scan_subnets dst idx subnets (
    if contains subnet dst && ltb best.1 (suc subnet.prefix_len)
    then (some idx, suc subnet.prefix_len)
    else best)

module _ {H T : Type 0} where
  abbrev with_magic : MagicConfig → Peer H T → Peer H T
  with_magic magic p = record p { magic = magic }

  unfoldable pub new : Bytes → List (Peer H T) → MagicConfig → PeerManager H T
  new local_priv peers magic = record {
    local_priv = local_priv;
    peers = map (with_magic magic) peers;
    magic = magic;
  }

  unfoldable pub retain_wanted : List ParsedPeer → List (Peer H T) → List (Peer H T)
  retain_wanted wanted [] = []
  retain_wanted wanted (p ∷ ps) =
      let rest = retain_wanted wanted ps in if is_wanted wanted p.pubkey then p ∷ rest else rest

  -- `peers.iter().find(|p| p.pubkey == key)`
  unfoldable pub find_key : Bytes → List (Peer H T) → Option (Peer H T)
  find_key key [] = none
  find_key key (p ∷ ps) = ite (Bytes-discrete p.pubkey key) (some p) (find_key key ps)

  -- A peer that is new to the table; `Peer::new` with or without an endpoint.
  abbrev pub new_peer : ℕ → MagicConfig → ParsedPeer → Peer H T
  new_peer now magic w = record (Peer.new now w.pubkey w.endpoint w.allowed_ips) { magic = magic }

  -- One round of the loop over the wanted peers: an existing peer, the first with the key, is updated
  -- in place, a new one goes to the end.
  unfoldable pub upsert : ℕ → MagicConfig → ParsedPeer → List (Peer H T) → List (Peer H T)
  upsert now magic w [] = new_peer now magic w ∷ []
  upsert now magic w (p ∷ ps) =
      ite (Bytes-discrete p.pubkey w.pubkey)
        (record p { endpoint = w.endpoint; allowed_ips = w.allowed_ips } ∷ ps)
        (p ∷ upsert now magic w ps)

  -- The endpoint that such a round reports.
  unfoldable pub reported : ParsedPeer → List (Peer H T) → List SocketAddr
  reported w ps = elim (find_key w.pubkey ps) [
    | some p ↦ []
    | none ↦ elim w.endpoint [ none ↦ [] | some ep ↦ ep ∷ [] ]
  ]

  unfoldable pub merge :
      ℕ → MagicConfig → List ParsedPeer → List (Peer H T) → List SocketAddr × List (Peer H T)
  merge now magic [] ps = ([], ps)
  merge now magic (w ∷ ws) ps =
      let (eps, qs) = merge now magic ws (upsert now magic w ps) in (reported w ps ++ eps, qs)

  unfoldable pub sync_peers :
      Parsers → ℕ → List PeerDescriptor → PeerManager H T → List SocketAddr × PeerManager H T
  sync_peers P now descriptors pm =
      let wanted = parse_wanted P descriptors in
      let (eps, peers) = merge now pm.magic wanted (retain_wanted wanted pm.peers) in
      (eps, record pm { peers = peers })

  unfoldable pub scan_peers : Ipv4Addr → ℕ → List (Peer H T) → Option ℕ × ℕ → Option ℕ × ℕ
  scan_peers dst idx [] best = best
  scan_peers dst idx (p ∷ ps) best =
      scan_peers dst (idx + 1) ps (scan_subnets dst idx p.allowed_ips best)

  unfoldable pub find_best_peer_idx : Ipv4Addr → PeerManager H T → Option ℕ
  find_best_peer_idx dst pm = (scan_peers dst 0 pm.peers (none, 0)).0
