-- ===== src/Daemon/Tunnel.antt =====
-- Two daemons of src/daemon.rs with a session: what enters the TUN device of the one, and what leaves
-- that of the other.
pub mod Sends
pub mod Receives
pub mod Link
pub mod Crosses
pub mod Delivers
pub mod Begins
pub mod Whole
mod Examples
use mesh_vpn.Base.{
  ℕ, Bool, Option, none, some, List, [], ◌∷◌, Bytes, true, if◌then◌else◌, ite, take, leb, length,
}
use mesh_vpn.Net.{SocketAddr, Noise, Draw, SocketAddr-discrete, Bytes-discrete}
use mesh_vpn.Peer.{OutboundDest, udp, relay}
use mesh_vpn.Daemon.State.{Shared}
use mesh_vpn.Daemon.Tun.{on_tun_packet, account, stop, step}
use mesh_vpn.Daemon.Datagram.{Output, quiet, on_datagram}
use mesh_vpn.Daemon.Relayed.{on_relayed}

-- A packet of the TUN device, the instants and the random draws of its way, and whether the network
-- loses it.
pub record Leg : Type 0 where
  pub packet : Bytes
  pub sent_at : ℕ
  pub pad_draw : Draw
  pub hs_draw : Draw
  pub received_at : ℕ
  pub draw : Draw
  pub lost : Bool

-- Both tasks read into a buffer of 2048 bytes: what is longer is cut off.
abbrev pub buffer_len : ℕ
buffer_len = 2048

-- The longest payload that a frame of the relay takes besides the key.
abbrev pub relay_payload_len : ℕ
relay_payload_len = 65504

-- The receiver sees the sender at `addr`, and the relay names it by `key`. Its own socket has the
-- address `home`, and it has logged in to the relay as `name`: nothing else gets to it.
module _ {H T : Type 0} (N : Noise H T) (addr : SocketAddr) (key : Bytes) (home : SocketAddr)
    (name : Bytes) where
  unfoldable pub arrives : Leg → OutboundDest → Bytes → Shared H T → Output × Shared H T
  arrives l (udp to) bytes s =
      ite (SocketAddr-discrete to home)
        (on_datagram N l.received_at l.draw addr (take buffer_len bytes) s) (quiet, s)
  arrives l (relay to) bytes s =
      if leb (length bytes) relay_payload_len
      then ite (Bytes-discrete to name)
          (on_relayed N l.received_at l.draw (record { from_key = key; payload = bytes }) s)
          (quiet, s)
      else (quiet, s)

module _ {H T : Type 0} (N : Noise H T) (has_relay : Bool) (addr : SocketAddr) (key : Bytes)
    (home : SocketAddr) (name : Bytes) where
  -- What one packet delivers at the receiver, and both states after it.
  unfoldable pub cross : Leg → Shared H T → Shared H T → Option Bytes × Shared H T × Shared H T
  unfolding arrives
  cross l a b =
      elim (on_tun_packet N l.sent_at l.pad_draw l.hs_draw has_relay (take buffer_len l.packet) a) [
        | stop ↦ (none, a, b)
        | step action a' ↦ elim action [
          | none ↦ (none, a', b)
          | some (bytes, dest) ↦
              let (out, b') = arrives N addr key home name l dest bytes b in
              let after = account true (some (bytes, dest)) a' in
              if l.lost then (none, after, b) else (out.deliver, after, b')
        ]
      ]

  unfoldable pub carry : List Leg → Shared H T → Shared H T → List Bytes
  unfolding cross
  carry [] a b = []
  carry (l ∷ ls) a b =
      let (delivered, a', b') = cross l a b in
      let rest = carry ls a' b' in elim delivered [ none ↦ rest | some packet ↦ packet ∷ rest ]

-- The packets that the network does not lose, in order.
unfoldable pub kept : List Leg → List Bytes
kept [] = []
kept (l ∷ ls) = let rest = kept ls in if l.lost then rest else l.packet ∷ rest
