-- ===== src/Daemon/Tunnel/Crosses.antt =====
-- One packet on its way between two linked daemons of src/daemon.rs leaves them linked.
use mesh_vpn.Base.{
  ℕ, suc, ◌+◌, ◌-◌, ◌≤◌, ◌<◌, ◌≡◌, refl, sym, ap, ◌∙◌, subst, Bool, true, false, none, some, List,
  ◌∷◌, ◌++◌, Bytes, u64_mod, length, set, arith, ◌⊎◌, take, take-all, length-append,
}
use mesh_vpn.Net.{SocketAddr, Noise, to_be_bytes, length-to_be_bytes}
use mesh_vpn.Text.{Ipv4Addr}
use mesh_vpn.Packet.{Ipv4Subnet}
use mesh_vpn.Session.{check_and_update}
use mesh_vpn.Session.Spent.{IsBehind, check_and_update-next, IsBehind-weaken}
use mesh_vpn.Peer.{ActiveSession, OutboundDest, udp, relay, pad, decrypt_packet}
use mesh_vpn.Peer.Transport.{strip_padding-pad}
use mesh_vpn.Peer.Handshake.{length-pad}
use mesh_vpn.Manager.{find_best_peer_idx}
use mesh_vpn.Daemon.State.{Shared, with_peers}
use mesh_vpn.Daemon.Tun.{on_tun_packet, account, step}
use mesh_vpn.Daemon.Datagram.{Output, quiet}
use mesh_vpn.Daemon.Tunnel.{Leg, arrives, cross, buffer_len}
use mesh_vpn.Daemon.Tunnel.Sends.{
  sent_by, sender, on_tun_packet-sends, get_elem?-set, find_best_peer_idx-set,
}
use mesh_vpn.Daemon.Tunnel.Receives.{received_by, receiver, decrypt_packet-receives}
use mesh_vpn.Daemon.Tunnel.Link.{
  Linked, Fits, Arrived, permitted-may_send, full_packet, arrives-Arrived,
}

module _ {H T : Type 0} (N : Noise H T) (has_relay : Bool) (addr : SocketAddr) (key : Bytes)
    (home : SocketAddr) (name : Bytes) where
  -- One packet, by what the sender and the receiver do.
  module _ (l : Leg) (a a' b b' : Shared H T) (bytes : Bytes) (dest : OutboundDest) (out : Output)
      (sends : on_tun_packet N l.sent_at l.pad_draw l.hs_draw has_relay (take buffer_len l.packet) a
        ≡ step (some (bytes, dest)) a')
      (gets : arrives N addr key home name l dest bytes b ≡ (out, b')) where
    lost_lem :
        l.lost ≡ true
        → cross N has_relay addr key home name l a b
          ≡ (none, account true (some (bytes, dest)) a', b)
    unfolding cross
    lost_lem h = ground (arith, sends, gets, h)

    arrived_lem :
        l.lost ≡ false
        → cross N has_relay addr key home name l a b
          ≡ (out.deliver, account true (some (bytes, dest)) a', b')
    unfolding cross
    arrived_lem h = ground (arith, sends, gets, h)

  -- A packet on its way: both sides keep what they have, for the next nonce.
  module _ (i n : ℕ) (ips : List Ipv4Subnet) (a b : Shared H T) (l : Leg)
      (L : Linked N has_relay addr key home name i n ips a b)
      (F : Fits N has_relay addr key home name i ips a l) (small : n + 1 < u64_mod) where
    pub padded : Bytes
    padded = pad l.pad_draw.padding l.packet

    fits : length padded ≤ 2023
    unfolding padded
    fits = omega (arith, length-pad l.pad_draw.padding l.packet, F.short)

    nonce_fits : L.s.tx_nonce + 1 < u64_mod
    nonce_fits = omega (arith, L.counter, small)

    pub sealed :
        (c : Bytes) × (N.write_transport L.s.state L.s.tx_nonce padded (length padded + 16)
          ≡ some c)
    sealed = L.writes L.s.tx_nonce padded (omega (arith, nonce_fits)) (omega (arith, fits))

    pub payload : Bytes
    payload = to_be_bytes 8 L.s.tx_nonce ++ sealed.0

    new_one :
        ((check_and_update L.r.replay L.s.tx_nonce).1 ≡ true)
        × IsBehind (suc n) (check_and_update L.r.replay L.s.tx_nonce).0
    new_one =
        subst
          (λ m.
            ((check_and_update L.r.replay m).1 ≡ true)
            × IsBehind (suc n) (check_and_update L.r.replay m).0)
          (sym L.counter) (check_and_update-next L.r.replay n L.behind)

    pub after_it : ActiveSession T
    after_it = received_by L.s.tx_nonce (length payload) L.r

    reads :
        decrypt_packet N l.received_at payload L.q
        ≡ (some l.packet, receiver l.received_at after_it L.q)
    unfolding payload after_it sealed padded
    reads =
        let (long, back) = L.pairs L.s.tx_nonce padded sealed.0 sealed.1 in
        let exact : length sealed.0 - 16 ≡ length padded = omega (arith, long) in
        decrypt_packet-receives N l.received_at L.s.tx_nonce sealed.0 padded L.q L.r
          (omega (arith, nonce_fits)) (omega (arith, long)) L.hears
          (ap (N.read_transport L.r.state L.s.tx_nonce sealed.0) exact ∙ back) new_one.0
        ∙ ap (λ x. (some x, receiver l.received_at after_it L.q))
            (strip_padding-pad l.pad_draw.padding l.packet F.sized)

    pub after_sending : OutboundDest → Shared H T
    after_sending dest =
        account true (some (L.p.magic.data_byte ∷ payload, dest))
          (with_peers a (set a.manager.peers i (sender l.sent_at l.packet L.s L.p)))

    pub sending :
        (dest : OutboundDest) × (on_tun_packet N l.sent_at l.pad_draw l.hs_draw has_relay l.packet a
          ≡ step
              (some (L.p.magic.data_byte ∷ payload, dest))
              (with_peers a (set a.manager.peers i (sender l.sent_at l.packet L.s L.p))))
        × ((dest ≡ udp home) ⊎ (dest ≡ relay name))
    unfolding payload sealed padded
    sending =
        on_tun_packet-sends N l.sent_at l.pad_draw l.hs_draw has_relay l.packet sealed.0 F.src F.dst
          i a L.p L.s home name F.header F.routed L.listed L.speaks L.named L.place sealed.1

    bytes_fit : length (b.manager.magic.data_byte ∷ payload) ≤ buffer_len
    unfolding payload sealed padded
    bytes_fit =
        let (long, back) = L.pairs L.s.tx_nonce padded sealed.0 sealed.1 in
        omega (
          arith,
          fits,
          long,
          length-append (to_be_bytes 8 L.s.tx_nonce) sealed.0,
          length-to_be_bytes 8 L.s.tx_nonce,
        )

    pub arriving :
        (dest : OutboundDest)
        → (dest ≡ udp home) ⊎ (dest ≡ relay name)
        → (b' : Shared H T) × (arrives N addr key home name l dest (L.p.magic.data_byte ∷ payload) b
            ≡ (record quiet { deliver = some l.packet }, b'))
          × Arrived N has_relay addr key home name ips after_it b b'
    arriving dest right =
        let (b', arrived, rest) =
          arrives-Arrived N has_relay addr key home name ips l b L.q after_it payload l.packet
            L.not_init L.not_resp L.at_addr L.by_key L.subnets reads
            (permitted-may_send N has_relay addr key home name ips l.packet F.src F.dst L.q F.header
              F.permitted L.subnets)
            (full_packet N has_relay addr key home name l.packet F.src F.dst F.header) dest right
            bytes_fit in
        (
          b',
          ap (λ x. arrives N addr key home name l dest (x ∷ payload) b) L.type_byte ∙ arrived,
          rest,
        )

    pub routes_same :
        (dest : OutboundDest) (dst : Ipv4Addr)
        → find_best_peer_idx dst (after_sending dest).manager ≡ find_best_peer_idx dst a.manager
    unfolding after_sending account
    routes_same dest dst =
        find_best_peer_idx-set a i L.p (sender l.sent_at l.packet L.s L.p) dst L.listed refl

    pub lost-Linked :
        (dest : OutboundDest)
        → Linked N has_relay addr key home name i (suc n) ips (after_sending dest) b
    unfolding after_sending account
    lost-Linked dest = record {
      p = sender l.sent_at l.packet L.s L.p;
      s = sent_by l.packet L.s;
      q = L.q;
      r = L.r;
      listed = get_elem?-set a.manager.peers i L.p _ L.listed;
      speaks = refl;
      counter = omega (arith, L.counter, nonce_fits);
      named = L.named;
      place = L.place;
      at_addr = L.at_addr;
      by_key = L.by_key;
      hears = L.hears;
      subnets = L.subnets;
      behind = IsBehind-weaken n L.r.replay L.behind;
      pairs = L.pairs;
      writes = L.writes;
      type_byte = L.type_byte;
      not_init = L.not_init;
      not_resp = L.not_resp;
    }

    pub arrived-Linked :
        (dest : OutboundDest) (b' : Shared H T)
        → Arrived N has_relay addr key home name ips after_it b b'
        → Linked N has_relay addr key home name i (suc n) ips (after_sending dest) b'
    unfolding after_sending account after_it
    arrived-Linked dest b' A = record {
      p = sender l.sent_at l.packet L.s L.p;
      s = sent_by l.packet L.s;
      q = A.q';
      r = after_it;
      listed = get_elem?-set a.manager.peers i L.p _ L.listed;
      speaks = refl;
      counter = omega (arith, L.counter, nonce_fits);
      named = L.named;
      place = L.place;
      at_addr = A.at_addr;
      by_key = A.by_key;
      hears = A.hears;
      subnets = A.subnets;
      behind = new_one.1;
      pairs = L.pairs;
      writes = L.writes;
      type_byte = rw A.magic L.type_byte;
      not_init = rw A.magic L.not_init;
      not_resp = rw A.magic L.not_resp;
    }

    whole_sending :
        on_tun_packet N l.sent_at l.pad_draw l.hs_draw has_relay (take buffer_len l.packet) a
        ≡ step
            (some (L.p.magic.data_byte ∷ payload, sending.0))
            (with_peers a (set a.manager.peers i (sender l.sent_at l.packet L.s L.p)))
    whole_sending =
        ap (λ x. on_tun_packet N l.sent_at l.pad_draw l.hs_draw has_relay x a)
          (take-all buffer_len l.packet (omega (arith, F.short)))
        ∙ sending.1

    pub cross-lost :
        l.lost ≡ true
        → cross N has_relay addr key home name l a b ≡ (none, after_sending sending.0, b)
    unfolding after_sending
    cross-lost h = lost_lem l a _ b _ _ sending.0 _ whole_sending (arriving sending.0 sending.2).1 h

    pub cross-arrived :
        l.lost ≡ false
        → cross N has_relay addr key home name l a b
          ≡ (some l.packet, after_sending sending.0, (arriving sending.0 sending.2).0)
    unfolding after_sending
    cross-arrived h =
        arrived_lem l a _ b _ _ sending.0 _ whole_sending (arriving sending.0 sending.2).1 h
