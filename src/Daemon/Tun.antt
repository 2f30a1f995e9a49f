-- ===== src/Daemon/Tun.antt =====
-- `spawn_tun_to_udp_task` of src/daemon.rs: what one IP packet from the TUN device does.
-- Its bytes are those in the task's buffer of 2048 bytes, which Daemon/Tunnel fills.
use mesh_vpn.Base.{
  ℕ, Bool, ◌&&◌, Option, none, some, [], ◌∷◌, Bytes, if◌then◌else◌, length, get_elem?, set,
}
use mesh_vpn.Net.{Noise, Draw}
use mesh_vpn.Packet.{parse_ipv4_header}
use mesh_vpn.Peer.{
  Peer, encrypt_packet, initiate_handshake, determine_dest, OutboundDest, is_none, is_some,
}
use mesh_vpn.Manager.{find_best_peer_idx}
use mesh_vpn.Metrics.{add_tx}
use mesh_vpn.Daemon.State.{Shared, with_peers}

abbrev pub Action : Type 0
Action = Bytes × OutboundDest

-- A packet with the place that it goes to, if there is one.
abbrev pub addressed : Option Bytes → Option OutboundDest → Option Action
addressed none dest = none
addressed (some packet) none = none
addressed (some packet) (some dest) = some (packet, dest)

-- What a packet of the TUN device leads to: the task ends on an empty read.
pub data TunStep (H T : Type 0) : Type 0 where
  stop : TunStep H T
  step : Option Action → Shared H T → TunStep H T

module _ {H T : Type 0} (N : Noise H T) (now : ℕ) (pad_draw hs_draw : Draw) (has_relay : Bool) where
  -- The peer that the packet is routed to encrypts it, or begins a handshake where it has no session.
  unfoldable pub send_by : Bytes → Bytes → Peer H T → Option Action × Peer H T
  send_by local_priv packet p =
      let (sealed, q) = encrypt_packet N now pad_draw packet p in
      let (greeting, r) = initiate_handshake N now hs_draw local_priv q in
      if is_some sealed
      then (addressed sealed (determine_dest now has_relay q), q)
      else if is_none q.active && is_none q.handshake
      then (addressed greeting (determine_dest now has_relay r), r)
      else (none, q)

  unfoldable pub on_tun_packet : Bytes → Shared H T → TunStep H T
  unfolding send_by
  on_tun_packet [] s = stop
  on_tun_packet (b ∷ bs) s = elim (parse_ipv4_header (b ∷ bs)) [
    | none ↦ step none s
    | some (src, dst) ↦ elim (find_best_peer_idx dst s.manager) [
      | none ↦ step none s
      | some idx ↦ elim (get_elem? s.manager.peers idx) [
        | none ↦ step none s
        | some p ↦
            let (action, q) = send_by s.manager.local_priv (b ∷ bs) p in
            step action (with_peers s (set s.manager.peers idx q))
      ]
    ]
  ]

-- The packet goes out after the lock is released; it is counted where the socket or the relay channel
-- has taken it.
unfoldable pub account : {H T : Type 0} → Bool → Option Action → Shared H T → Shared H T
account taken none s = s
account taken (some (packet, dest)) s =
    if taken then record s { metrics = add_tx (length packet) s.metrics } else s
