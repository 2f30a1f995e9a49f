-- ===== src/Daemon/Tunnel/Sends.antt =====
-- The sending side of a tunnel of src/daemon.rs: a packet of the TUN device that is routed to a peer with
-- a session goes out encrypted, and changes nothing but that session's counters.
use mesh_vpn.Base.{
  ℕ, zero, suc, ◌+◌, ◌≡◌, refl, ap, Bool, true, Option, none, some, List, [], ◌∷◌, ◌++◌, ◌⊎◌, Bytes,
  length, get_elem?, set, arith, Bool-cases, inl, inr, ◌&&◌, leb,
}
use mesh_vpn.Net.{SocketAddr, Noise, Draw, to_be_bytes, elapsed_secs}
use mesh_vpn.Text.{Ipv4Addr}
use mesh_vpn.Packet.{parse_ipv4_header}
use mesh_vpn.Peer.{
  Peer, ActiveSession, OutboundDest, udp, relay, pad, encrypt_packet, determine_dest, add_u64,
}
use mesh_vpn.Manager.{scan_peers, scan_subnets, find_best_peer_idx}
use mesh_vpn.Daemon.State.{Shared, with_peers}
use mesh_vpn.Daemon.Tun.{on_tun_packet, send_by, step}

-- The sender sends to `home`, or over the relay alone.
abbrev pub StandsAt : {H T : Type 0} → Bool → SocketAddr → Peer H T → Type 0
StandsAt has_relay home p = (p.endpoint ≡ some home) ⊎ ((p.endpoint ≡ none) × (has_relay ≡ true))

module _ {H T : Type 0} where
  pub get_elem?-set :
      (ps : List (Peer H T)) (i : ℕ) (p q : Peer H T)
      → get_elem? ps i ≡ some p
      → get_elem? (set ps i q) i ≡ some q
  get_elem?-set [] i p q e = absurd (cc)
  get_elem?-set (x ∷ ps) zero p q e = refl
  get_elem?-set (x ∷ ps) (suc i) p q e = get_elem?-set ps i p q e

  -- The route search looks at the subnets only.
  scan_peers-set :
      (ps : List (Peer H T)) (i : ℕ) (p q : Peer H T) (dst : Ipv4Addr) (idx : ℕ)
      (best : Option ℕ × ℕ)
      → get_elem? ps i ≡ some p
      → q.allowed_ips ≡ p.allowed_ips
      → scan_peers dst idx (set ps i q) best ≡ scan_peers dst idx ps best
  unfolding scan_peers
  scan_peers-set [] i p q dst idx best e a = refl
  scan_peers-set (x ∷ ps) zero p q dst idx best e a = ground (arith, e, a)
  scan_peers-set (x ∷ ps) (suc i) p q dst idx best e a =
      scan_peers-set ps i p q dst (idx + 1) (scan_subnets dst idx x.allowed_ips best) e a

  pub find_best_peer_idx-set :
      (a : Shared H T) (i : ℕ) (p q : Peer H T) (dst : Ipv4Addr)
      → get_elem? a.manager.peers i ≡ some p
      → q.allowed_ips ≡ p.allowed_ips
      → find_best_peer_idx dst (with_peers a (set a.manager.peers i q)).manager
        ≡ find_best_peer_idx dst a.manager
  unfolding find_best_peer_idx
  find_best_peer_idx-set a i p q dst e same =
      ap (λ r. r.0) (scan_peers-set a.manager.peers i p q dst 0 (none, 0) e same)

  -- The peer's address, if it has one, is `home`, and its key `name`: all that is sent goes to these.
  determine_dest-Reaches :
      (now : ℕ) (has_relay : Bool) (home : SocketAddr) (name : Bytes) (p : Peer H T)
      → p.pubkey ≡ name
      → StandsAt has_relay home p
      → (dest : OutboundDest) × (determine_dest now has_relay p ≡ some dest)
        × ((dest ≡ udp home) ⊎ (dest ≡ relay name))
  unfolding determine_dest
  determine_dest-Reaches now has_relay home name p k (inr (e, r)) =
      (relay name, ground (arith, k, e, r), inr refl)
  determine_dest-Reaches now has_relay home name p k (inl e) =
      elim (Bool-cases (has_relay && leb 10 (elapsed_secs now p.last_direct_rx))) [
        | inl b ↦ (relay name, ground (arith, k, e, b), inr refl)
        | inr b ↦ (udp home, ground (arith, k, e, b), inl refl)
      ]

-- The session once it has sent `payload`, and its peer.
abbrev pub sent_by : {T : Type 0} → Bytes → ActiveSession T → ActiveSession T
sent_by payload s = record s {
  tx_nonce = add_u64 s.tx_nonce 1;
  tx_bytes = add_u64 s.tx_bytes (length payload);
}

abbrev pub sender : {H T : Type 0} → ℕ → Bytes → ActiveSession T → Peer H T → Peer H T
sender now payload s p = record p { active = some (sent_by payload s); last_tx = now }

module _ {H T : Type 0} (N : Noise H T) (now : ℕ) (pad_draw hs_draw : Draw) (has_relay : Bool) where
  encrypt_packet-active :
      (payload c : Bytes) (p : Peer H T) (s : ActiveSession T)
      → p.active ≡ some s
      → N.write_transport s.state s.tx_nonce
          (pad pad_draw.padding payload)
          (length (pad pad_draw.padding payload) + 16)
        ≡ some c
      → encrypt_packet N now pad_draw payload p
        ≡ (some (p.magic.data_byte ∷ (to_be_bytes 8 s.tx_nonce ++ c)), sender now payload s p)
  unfolding encrypt_packet
  encrypt_packet-active payload c p s e w = ground (arith, e, w)

  send_by-sends :
      (priv packet bytes : Bytes) (dest : OutboundDest) (p q : Peer H T)
      → encrypt_packet N now pad_draw packet p ≡ (some bytes, q)
      → determine_dest now has_relay q ≡ some dest
      → send_by N now pad_draw hs_draw has_relay priv packet p ≡ (some (bytes, dest), q)
  unfolding send_by
  send_by-sends priv packet bytes dest p q e d = rw (e, d) refl

  pub on_tun_packet-sends :
      (packet c : Bytes) (src dst : Ipv4Addr) (i : ℕ) (a : Shared H T) (p : Peer H T)
      (s : ActiveSession T) (home : SocketAddr) (name : Bytes)
      → parse_ipv4_header packet ≡ some (src, dst)
      → find_best_peer_idx dst a.manager ≡ some i
      → get_elem? a.manager.peers i ≡ some p
      → p.active ≡ some s
      → p.pubkey ≡ name
      → StandsAt has_relay home p
      → N.write_transport s.state s.tx_nonce
          (pad pad_draw.padding packet)
          (length (pad pad_draw.padding packet) + 16)
        ≡ some c
      → (dest : OutboundDest) × (on_tun_packet N now pad_draw hs_draw has_relay packet a
          ≡ step
              (some (p.magic.data_byte ∷ (to_be_bytes 8 s.tx_nonce ++ c), dest))
              (with_peers a (set a.manager.peers i (sender now packet s p))))
        × ((dest ≡ udp home) ⊎ (dest ≡ relay name))
  unfolding on_tun_packet
  on_tun_packet-sends [] c src dst i a p s home name header route at e named reach w =
      absurd (unfold parse_ipv4_header in ground (arith, header))
  on_tun_packet-sends (b ∷ bs) c src dst i a p s home name header route at e named reach w =
      let (dest, d, right) =
        determine_dest-Reaches now has_relay home name (sender now (b ∷ bs) s p) named reach in
      let sends =
        send_by-sends a.manager.local_priv (b ∷ bs) _ dest p (sender now (b ∷ bs) s p)
          (encrypt_packet-active (b ∷ bs) c p s e w) d in
      (dest, ground (arith, header, route, at, sends), right)
