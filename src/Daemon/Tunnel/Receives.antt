-- ===== src/Daemon/Tunnel/Receives.antt =====
-- The receiving side of a tunnel of src/daemon.rs: a data packet of the peer at the sender's address, or
-- under the key that the relay names, is delivered, and changes nothing but that peer.
use mesh_vpn.Base.{
  ℕ, ◌-◌, ◌≤◌, ◌<◌, ◌≡◌, ◌≢◌, ap, ◌∙◌, true, false, some, List, [], ◌∷◌, ◌++◌, Bytes, u64_mod,
  length, arith,
}
use mesh_vpn.Net.{
  SocketAddr, Noise, Draw, to_be_bytes, length-to_be_bytes, from_be_bytes-to_be_bytes,
  endpoint-discrete, Bytes-discrete,
}
use mesh_vpn.Session.{check_and_update}
use mesh_vpn.Peer.{
  Peer, ActiveSession, strip_padding, receive, decrypt_packet, decrypt_active, add_u64, is_empty,
}
use mesh_vpn.Peer.Transport.{decrypt_packet-append}
use mesh_vpn.Manager.{find_key}
use mesh_vpn.Metrics.{add_rx}
use mesh_vpn.Daemon.State.{Shared, find_addr, put_addr, put_key, with_peers, may_send}
use mesh_vpn.Daemon.Datagram.{quiet, by_endpoint, decrypt_any, on_data, on_datagram}
use mesh_vpn.Daemon.Relayed.{on_relayed_data, process_relayed_packet, on_relayed}

-- The session once it has received a payload with a new nonce, and its peer.
abbrev pub received_by : {T : Type 0} → ℕ → ℕ → ActiveSession T → ActiveSession T
received_by nonce len r = record r {
  replay = (check_and_update r.replay nonce).0;
  rx_bytes = add_u64 r.rx_bytes len;
}

abbrev pub receiver : {H T : Type 0} → ℕ → ActiveSession T → Peer H T → Peer H T
receiver now r q = record q { active = some r; last_rx = now }

module _ {H T : Type 0} (N : Noise H T) (now : ℕ) where
  decrypt_active-receives :
      (nonce len : ℕ) (c plain : Bytes) (q : Peer H T) (r : ActiveSession T)
      → q.active ≡ some r
      → N.read_transport r.state nonce c (length c - 16) ≡ some plain
      → (check_and_update r.replay nonce).1 ≡ true
      → decrypt_active N now nonce c len q
        ≡ (some (strip_padding plain), receiver now (received_by nonce len r) q)
  unfolding decrypt_active receive
  decrypt_active-receives nonce len c plain q r e reads new_one = ground (arith, e, reads, new_one)

  -- A payload of its nonce and its ciphertext.
  pub decrypt_packet-receives :
      (nonce : ℕ) (c plain : Bytes) (q : Peer H T) (r : ActiveSession T)
      → nonce < u64_mod
      → 16 ≤ length c
      → q.active ≡ some r
      → N.read_transport r.state nonce c (length c - 16) ≡ some plain
      → (check_and_update r.replay nonce).1 ≡ true
      → decrypt_packet N now (to_be_bytes 8 nonce ++ c) q ≡ (
        some (strip_padding plain),
        receiver now (received_by nonce (length (to_be_bytes 8 nonce ++ c)) r) q,
      )
  decrypt_packet-receives nonce c plain q r small long e reads new_one =
      decrypt_packet-append N now (to_be_bytes 8 nonce) c q (length-to_be_bytes 8 nonce) long
      ∙ ap (λ n. decrypt_active N now n c (length (to_be_bytes 8 nonce ++ c)) q)
          (from_be_bytes-to_be_bytes 8 nonce small)
      ∙ decrypt_active-receives nonce (length (to_be_bytes 8 nonce ++ c)) c plain q r e reads
          new_one

abbrev pub counted : {H T : Type 0} → Bytes → Shared H T → Shared H T
counted bytes s = record s { metrics = add_rx (length bytes) s.metrics }

module _ {H T : Type 0} (N : Noise H T) (now : ℕ) (draw : Draw) where
  by_endpoint-receives :
      (addr : SocketAddr) (payload packet : Bytes) (ps : List (Peer H T)) (q q' : Peer H T)
      → find_addr addr ps ≡ some q
      → decrypt_packet N now payload q ≡ (some packet, q')
      → may_send q packet ≡ true
      → by_endpoint N now addr payload ps
        ≡ (some packet, put_addr addr (record q' { last_direct_rx = now }) ps)
  unfolding by_endpoint
  by_endpoint-receives addr payload packet ps q q' f d m = ground (arith, f, d, m)

  pub on_datagram-receives :
      (addr : SocketAddr) (payload packet : Bytes) (s : Shared H T) (q q' : Peer H T)
      → s.manager.magic.handshake_init ≢ s.manager.magic.data_byte
      → s.manager.magic.handshake_resp ≢ s.manager.magic.data_byte
      → find_addr addr s.manager.peers ≡ some q
      → decrypt_packet N now payload q ≡ (some packet, q')
      → may_send q packet ≡ true
      → is_empty packet ≡ false
      → on_datagram N now draw addr (s.manager.magic.data_byte ∷ payload) s ≡ (
        record quiet { deliver = some packet },
        with_peers
            (counted (s.manager.magic.data_byte ∷ payload) s)
            (put_addr addr (record q' { last_direct_rx = now }) s.manager.peers),
      )
  unfolding on_datagram on_data decrypt_any
  on_datagram-receives addr payload packet s q q' n m f d may full =
      let found = by_endpoint-receives addr payload packet s.manager.peers q q' f d may in
      ground (arith, found, full, n, m)

  pub on_relayed-receives :
      (key payload packet : Bytes) (s : Shared H T) (q q' : Peer H T)
      → s.manager.magic.handshake_init ≢ s.manager.magic.data_byte
      → s.manager.magic.handshake_resp ≢ s.manager.magic.data_byte
      → find_key key s.manager.peers ≡ some q
      → decrypt_packet N now payload q ≡ (some packet, q')
      → may_send q packet ≡ true
      → is_empty packet ≡ false
      → on_relayed N now draw
          (record { from_key = key; payload = s.manager.magic.data_byte ∷ payload })
          s
        ≡ (
          record quiet { deliver = some packet },
          with_peers
              (counted (s.manager.magic.data_byte ∷ payload) s)
              (put_key key q' s.manager.peers),
        )
  unfolding on_relayed process_relayed_packet on_relayed_data
  on_relayed-receives key payload packet s q q' n m f d may full =
      ground (arith, f, d, may, full, n, m)

-- The peer of an address and of a key stays so when it is updated by either.
module _ {H T : Type 0} (addr : SocketAddr) (key : Bytes) (q q' : Peer H T)
    (here : q'.endpoint ≡ some addr) (named : q'.pubkey ≡ key) where
  pub find_key-put_addr :
      (ps : List (Peer H T))
      → q.endpoint ≡ some addr
      → find_addr addr ps ≡ some q
      → find_key key ps ≡ some q
      → find_key key (put_addr addr q' ps) ≡ some q'
  unfolding find_addr find_key put_addr
  find_key-put_addr [] there f k = absurd (cc)
  find_key-put_addr (x ∷ ps) there f k = elim (endpoint-discrete x.endpoint (some addr)) [
    | yes h ↦ ground (arith, h)
    | no h ↦ elim (Bytes-discrete x.pubkey key) [
      | yes n ↦ absurd (ground (arith, h, n))
      | no n ↦ ground (arith, h, n, find_key-put_addr ps there (ground arith) (ground arith))
    ]
  ]

  pub find_addr-put_key :
      (ps : List (Peer H T))
      → q.pubkey ≡ key
      → find_addr addr ps ≡ some q
      → find_key key ps ≡ some q
      → find_addr addr (put_key key q' ps) ≡ some q'
  unfolding find_addr find_key put_key
  find_addr-put_key [] there f k = absurd (cc)
  find_addr-put_key (x ∷ ps) there f k = elim (Bytes-discrete x.pubkey key) [
    | yes h ↦ ground (arith, h)
    | no h ↦ elim (endpoint-discrete x.endpoint (some addr)) [
      | yes n ↦ absurd (ground (arith, h, n))
      | no n ↦ ground (arith, h, n, find_addr-put_key ps there (ground arith) (ground arith))
    ]
  ]
