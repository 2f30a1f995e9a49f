-- ===== src/Daemon/Tunnel/Link.antt =====
-- Two linked daemons of src/daemon.rs, the packets that fit between them, and what the receiver does with
-- one that arrives.
use mesh_vpn.Base.{
  ℕ, ◌+◌, ◌≤◌, ◌≡◌, ◌≢◌, refl, sym, ap, ◌∙◌, subst, Bool, true, false, some, List, [], ◌∷◌, Bytes,
  length, get_elem?, arith, any, if_pos, inl, inr, ◌⊎◌, take-all,
}
use mesh_vpn.Net.{SocketAddr, Noise, SocketAddr-discrete, Bytes-discrete}
use mesh_vpn.Text.{Ipv4Addr}
use mesh_vpn.Packet.{Ipv4Subnet, parse_ipv4_header, contains}
use mesh_vpn.Session.Spent.{IsBehind}
use mesh_vpn.Peer.{Peer, ActiveSession, OutboundDest, udp, relay, decrypt_packet, is_empty}
use mesh_vpn.Peer.Transport.{Pairs, IsSized}
use mesh_vpn.Peer.Handshake.{Writes}
use mesh_vpn.Manager.{find_key, find_best_peer_idx}
use mesh_vpn.Daemon.State.{Shared, find_addr, may_send}
use mesh_vpn.Daemon.Lookup.{
  find_addr-endpoint, find_key-pubkey, find_addr-put_addr, find_key-put_key,
}
use mesh_vpn.Daemon.Datagram.{quiet, on_datagram}
use mesh_vpn.Daemon.Relayed.{on_relayed}
use mesh_vpn.Daemon.Tunnel.{Leg, arrives, buffer_len}
use mesh_vpn.Daemon.Tunnel.Receives.{
  receiver, on_datagram-receives, on_relayed-receives, find_key-put_addr, find_addr-put_key,
}
use mesh_vpn.Daemon.Tunnel.Sends.{StandsAt}

-- The peer with index `i` of the sender has a session that pairs with that of the receiver's peer, which
-- stands at the sender's address and under its key; the receiver has seen no nonce from `n` on. The
-- sender has the receiver's address and key, or its key and a relay.
module _ {H T : Type 0} (N : Noise H T) (has_relay : Bool) (addr : SocketAddr) (key : Bytes)
    (home : SocketAddr) (name : Bytes) where
  pub record Linked (i n : ℕ) (ips : List Ipv4Subnet) (a b : Shared H T) : Type 0 where
    pub p : Peer H T
    pub s : ActiveSession T
    pub q : Peer H T
    pub r : ActiveSession T
    pub listed : get_elem? a.manager.peers i ≡ some p
    pub speaks : p.active ≡ some s
    pub counter : s.tx_nonce ≡ n
    pub named : p.pubkey ≡ name
    pub place : StandsAt has_relay home p
    pub at_addr : find_addr addr b.manager.peers ≡ some q
    pub by_key : find_key key b.manager.peers ≡ some q
    pub hears : q.active ≡ some r
    pub subnets : q.allowed_ips ≡ ips
    pub behind : IsBehind n r.replay
    pub pairs : Pairs N s.state r.state
    pub writes : Writes N s.state
    pub type_byte : p.magic.data_byte ≡ b.manager.magic.data_byte
    pub not_init : b.manager.magic.handshake_init ≢ b.manager.magic.data_byte
    pub not_resp : b.manager.magic.handshake_resp ≢ b.manager.magic.data_byte

  -- An IPv4 packet that the sender routes to that peer, from an address that the receiver lets the peer
  -- use, and short enough for the buffers of both with its padding and 25 bytes of the session.
  pub record Fits (i : ℕ) (ips : List Ipv4Subnet) (a : Shared H T) (l : Leg) : Type 0 where
    pub src : Ipv4Addr
    pub dst : Ipv4Addr
    pub header : parse_ipv4_header l.packet ≡ some (src, dst)
    pub routed : find_best_peer_idx dst a.manager ≡ some i
    pub permitted : any (λ s. contains s src) ips ≡ true
    pub sized : IsSized l.packet
    pub short : length l.packet + length l.pad_draw.padding ≤ 2023

  abbrev pub AllFit : ℕ → List Ipv4Subnet → Shared H T → List Leg → Type 0
  AllFit i ips a [] = Unit
  AllFit i ips a (l ∷ ls) = Fits i ips a l × AllFit i ips a ls

  pub permitted-may_send :
      (ips : List Ipv4Subnet) (packet : Bytes) (src dst : Ipv4Addr) (q : Peer H T)
      → parse_ipv4_header packet ≡ some (src, dst)
      → any (λ s. contains s src) ips ≡ true
      → q.allowed_ips ≡ ips
      → may_send q packet ≡ true
  unfolding may_send
  permitted-may_send ips packet src dst q h m e =
      let mine = subst (λ (x : List Ipv4Subnet). any (λ s. contains s src) x ≡ true) (sym e) m in
      ground (arith, h, mine)

  pub full_packet :
      (packet : Bytes) (src dst : Ipv4Addr)
      → parse_ipv4_header packet ≡ some (src, dst)
      → is_empty packet ≡ false
  unfolding parse_ipv4_header
  full_packet [] src dst h = absurd (ground (arith, h))
  full_packet (x ∷ xs) src dst h = refl

  -- What the receiver has of the sender once a packet has arrived.
  pub record Arrived (ips : List Ipv4Subnet) (r' : ActiveSession T) (b b' : Shared H T)
      : Type 0 where
    pub q' : Peer H T
    pub at_addr : find_addr addr b'.manager.peers ≡ some q'
    pub by_key : find_key key b'.manager.peers ≡ some q'
    pub hears : q'.active ≡ some r'
    pub subnets : q'.allowed_ips ≡ ips
    pub magic : b'.manager.magic ≡ b.manager.magic

  module _ (ips : List Ipv4Subnet) (l : Leg) (b : Shared H T) (q : Peer H T) (r' : ActiveSession T)
      (payload packet : Bytes)
      (not_init : b.manager.magic.handshake_init ≢ b.manager.magic.data_byte)
      (not_resp : b.manager.magic.handshake_resp ≢ b.manager.magic.data_byte)
      (at_addr : find_addr addr b.manager.peers ≡ some q)
      (by_key : find_key key b.manager.peers ≡ some q) (subnets : q.allowed_ips ≡ ips)
      (reads : decrypt_packet N l.received_at payload q
        ≡ (some packet, receiver l.received_at r' q))
      (may : may_send q packet ≡ true) (full : is_empty packet ≡ false) where
    here : q.endpoint ≡ some addr
    here = find_addr-endpoint addr b.manager.peers q at_addr

    named : q.pubkey ≡ key
    named = find_key-pubkey key b.manager.peers q by_key

    heard : Peer H T
    heard = record (receiver l.received_at r' q) { last_direct_rx = l.received_at }

    bytes : Bytes
    bytes = b.manager.magic.data_byte ∷ payload

    arrives-Datagram :
        length bytes ≤ buffer_len
        → arrives N addr key home name l (udp home) bytes b
          ≡ on_datagram N l.received_at l.draw addr bytes b
    unfolding arrives
    arrives-Datagram short =
        if_pos (SocketAddr-discrete home home) refl _ _
        ∙ ap (λ x. on_datagram N l.received_at l.draw addr x b) (take-all buffer_len bytes short)

    arrives-Relayed :
        length bytes ≤ buffer_len
        → arrives N addr key home name l (relay name) bytes b
          ≡ on_relayed N l.received_at l.draw (record { from_key = key; payload = bytes }) b
    unfolding arrives
    arrives-Relayed short = ground (arith, short)

    pub arrives-Arrived :
        (dest : OutboundDest)
        → (dest ≡ udp home) ⊎ (dest ≡ relay name)
        → length (b.manager.magic.data_byte ∷ payload) ≤ buffer_len
        → (b' : Shared H T) × (arrives N addr key home name l dest
              (b.manager.magic.data_byte ∷ payload)
              b
            ≡ (record quiet { deliver = some packet }, b'))
          × Arrived ips r' b b'
    unfolding heard bytes
    arrives-Arrived dest (inl to) short = (
      _,
      ap (λ d. arrives N addr key home name l d bytes b) to
          ∙ arrives-Datagram short
          ∙ on_datagram-receives N l.received_at l.draw addr payload packet b q
              (receiver l.received_at r' q) not_init not_resp at_addr reads may full,
      record {
        q' = heard;
        at_addr = find_addr-put_addr addr heard q b.manager.peers at_addr here;
        by_key = find_key-put_addr addr key q heard here named b.manager.peers here at_addr by_key;
        hears = refl;
        subnets = subnets;
        magic = refl;
      },
    )
    arrives-Arrived dest (inr to) short = (
      _,
      ap (λ d. arrives N addr key home name l d bytes b) to
          ∙ arrives-Relayed short
          ∙ on_relayed-receives N l.received_at l.draw key payload packet b q
              (receiver l.received_at r' q) not_init not_resp by_key reads may full,
      record {
        q' = receiver l.received_at r' q;
        at_addr =
            find_addr-put_key addr key q (receiver l.received_at r' q) here named b.manager.peers
              named at_addr by_key;
        by_key =
            find_key-put_key key (receiver l.received_at r' q) q b.manager.peers key by_key named
            ∙ if_pos (Bytes-discrete key key) refl _ _;
        hears = refl;
        subnets = subnets;
        magic = refl;
      },
    )
