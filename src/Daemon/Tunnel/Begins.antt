-- ===== src/Daemon/Tunnel/Begins.antt =====
-- A handshake between two daemons of src/daemon.rs links them, so that a tunnel begins.
use mesh_vpn.Base.{
  ℕ, zero, suc, ◌≡◌, ◌≢◌, refl, sym, ap, ◌∙◌, ◌⊎◌, inl, inr, Bool, none, some, List, [], ◌∷◌, ◌++◌,
  Bytes, get_elem?, set, take, arith, if_pos,
}
use mesh_vpn.Net.{SocketAddr, Noise, Draw, endpoint-discrete, Bytes-discrete}
use mesh_vpn.Session.Spent.{new-IsBehind}
use mesh_vpn.Peer.{
  Peer, MagicConfig, fresh_session, establish, initiate_handshake, read_initiation,
  handle_handshake_packet,
}
use mesh_vpn.Peer.Handshake.{
  Completes, initiate_handshake-Completes, read_initiation-Completes, answer-Completes,
  finish-Completes,
}
use mesh_vpn.Manager.{find_key, PeerManager}
use mesh_vpn.Daemon.State.{Shared, find_addr, put_addr, put_key}
use mesh_vpn.Daemon.Datagram.{on_initiation, on_response}
use mesh_vpn.Daemon.Lookup.{find_key-pubkey, find_key-put_key}
use mesh_vpn.Daemon.Handshake.{answered, answered_peer}
use mesh_vpn.Daemon.Tunnel.Sends.{get_elem?-set}
use mesh_vpn.Daemon.Tunnel.Receives.{find_addr-put_key}
use mesh_vpn.Daemon.Tunnel.Link.{Linked}

module _ {H T : Type 0} (addr : SocketAddr) where
  -- The first peer at an address, by its index.
  find_addr-first :
      (ps : List (Peer H T)) (j : ℕ) (p : Peer H T)
      → get_elem? ps j ≡ some p
      → p.endpoint ≡ some addr
      → find_addr addr (take j ps) ≡ none
      → find_addr addr ps ≡ some p
  unfolding find_addr
  find_addr-first [] j p e a h = absurd (cc)
  find_addr-first (x ∷ ps) zero p e a h = ground (arith, e, a)
  find_addr-first (x ∷ ps) (suc j) p e a h = elim (endpoint-discrete x.endpoint (some addr)) [
    | yes y ↦ absurd (ground (arith, y))
    | no n ↦ ground (arith, n, find_addr-first ps j p e a (ground (arith, n)))
  ]

  put_addr-first :
      (ps : List (Peer H T)) (j : ℕ) (p q : Peer H T)
      → get_elem? ps j ≡ some p
      → p.endpoint ≡ some addr
      → find_addr addr (take j ps) ≡ none
      → put_addr addr q ps ≡ set ps j q
  unfolding find_addr put_addr
  put_addr-first [] j p q e a h = absurd (cc)
  put_addr-first (x ∷ ps) zero p q e a h = ground (arith, e, a)
  put_addr-first (x ∷ ps) (suc j) p q e a h = elim (endpoint-discrete x.endpoint (some addr)) [
    | yes y ↦ absurd (ground (arith, y))
    | no n ↦ ground (arith, n, put_addr-first ps j p q e a (ground (arith, n)))
  ]

  -- A peer that is moved to an address where there was none.
  find_addr-arrived :
      (key : Bytes) (q q' : Peer H T) (ps : List (Peer H T))
      → q'.endpoint ≡ some addr
      → find_key key ps ≡ some q
      → find_addr addr ps ≡ none
      → find_addr addr (put_key key q' ps) ≡ some q'
  unfolding find_addr find_key put_key
  find_addr-arrived key q q' [] a k h = absurd (cc)
  find_addr-arrived key q q' (x ∷ ps) a k h = elim (Bytes-discrete x.pubkey key) [
    | yes y ↦ ground (arith, y)
    | no n ↦ elim (endpoint-discrete x.endpoint (some addr)) [
      | yes y ↦ absurd (ground (arith, y))
      | no m ↦
          ground
            (arith, n, m, find_addr-arrived key q q' ps a (ground (arith, n)) (ground (arith, m)))
    ]
  ]

module _ {H T : Type 0} (N : Noise H T) where
  -- The initiator's table.
  pub manager-on_response :
      (now : ℕ) (draw : Draw) (addr : SocketAddr) (payload : Bytes) (kind j : ℕ) (s : Shared H T)
      (p q : Peer H T)
      → get_elem? s.manager.peers j ≡ some p
      → p.endpoint ≡ some addr
      → find_addr addr (take j s.manager.peers) ≡ none
      → record ((handle_handshake_packet N now draw s.manager.local_priv kind payload p).1) {
        last_direct_rx = now;
      }
        ≡ q
      → (on_response N now draw addr kind payload s).manager
        ≡ record (s.manager) { peers = set s.manager.peers j q }
  unfolding on_response
  manager-on_response now draw addr payload kind j s p q e a h g =
      let first = find_addr-first addr s.manager.peers j p e a h in
      let there = put_addr-first addr s.manager.peers j p q e a h in ground (arith, first, there, g)

module _ {H T : Type 0} (N : Noise H T) (seed_i seed_r : ℕ) (priv_i priv_r pub_i pub_r : Bytes)
    (c : Completes N seed_i seed_r priv_i priv_r pub_i pub_r) where
  -- The responder's table.
  pub manager-on_initiation :
      (now : ℕ) (draw : Draw) (addr : SocketAddr) (padding : Bytes) (s : Shared H T) (p : Peer H T)
      → draw.seed ≡ seed_r
      → s.manager.local_priv ≡ priv_r
      → find_key pub_i s.manager.peers ≡ some p
      → (on_initiation N now draw addr (c.message ++ padding) s).1.manager ≡ record (s.manager) {
        peers =
            put_key pub_i
              (answered N seed_i seed_r priv_i priv_r pub_i pub_r c now addr p)
              s.manager.peers;
      }
  unfolding on_initiation answered establish
  manager-on_initiation now draw addr padding s p sd pr f =
      let r =
        ap (λ k. read_initiation N draw k (c.message ++ padding)) pr
        ∙ read_initiation-Completes N seed_i seed_r priv_i priv_r pub_i pub_r c draw padding sd in
      let a = answer-Completes N seed_i seed_r priv_i priv_r pub_i pub_r c draw s.manager.magic in
      ground (arith, r, a, f)

  -- What the initiator's peer is once the answer is in.
  pub concluded :
      (t0 t2 : ℕ) (draw_i : Draw) (padding : Bytes) (a : Peer H T)
      → draw_i.seed ≡ seed_i
      → a.pubkey ≡ pub_r
      → (p : Peer H T) × (p
          ≡ answered_peer N seed_i seed_r priv_i priv_r pub_i pub_r c t2 padding
              (initiate_handshake N t0 draw_i priv_i a).1)
        × (p.active ≡ some (fresh_session t2 c.tr_i))
        × (p.endpoint ≡ a.endpoint)
        × (p.allowed_ips ≡ a.allowed_ips)
        × (p.magic ≡ a.magic)
        × (p.pubkey ≡ pub_r)
  unfolding answered_peer establish
  concluded t0 t2 draw_i padding a sd k =
      let p0 : Peer H T = (initiate_handshake N t0 draw_i priv_i a).1 in
      let begun =
        initiate_handshake-Completes N seed_i seed_r priv_i priv_r pub_i pub_r c t0 draw_i a sd k in
      let over =
        finish-Completes N seed_i seed_r priv_i priv_r pub_i pub_r c t2 padding p0
          (ap (λ x. x.1.handshake) begun) in
      (
        _,
        refl,
        ap (λ (q : Peer H T). q.active) over,
        ap (λ (q : Peer H T). q.endpoint) over ∙ ap (λ x. x.1.endpoint) begun,
        ap (λ (q : Peer H T). q.allowed_ips) over ∙ ap (λ x. x.1.allowed_ips) begun,
        ap (λ (q : Peer H T). q.magic) over ∙ ap (λ x. x.1.magic) begun,
        ap (λ (q : Peer H T). q.pubkey) over ∙ ap (λ x. x.1.pubkey) begun ∙ k,
      )

  -- The managers after a handshake are linked.
  module _ (t1 t2 : ℕ) (addr_i addr_r : SocketAddr) (has_relay : Bool) (j : ℕ)
      (i i' r r' : Shared H T) (p b : Peer H T) (p0 : Peer H T)
      (at : get_elem? i.manager.peers j ≡ some p0)
      (active : p.active ≡ some (fresh_session t2 c.tr_i)) (there : p.endpoint ≡ some addr_r)
      (keyed : p.pubkey ≡ pub_r) (known : find_key pub_i r.manager.peers ≡ some b)
      (free : (find_addr addr_i r.manager.peers ≡ none)
        ⊎ (find_addr addr_i r.manager.peers ≡ some b))
      (mi : i'.manager ≡ record (i.manager) { peers = set i.manager.peers j p })
      (mr : r'.manager ≡ record (r.manager) {
        peers =
            put_key pub_i
              (answered N seed_i seed_r priv_i priv_r pub_i pub_r c t1 addr_i b)
              r.manager.peers;
      })
      (kinds : p.magic ≡ r.manager.magic)
      (not_init : r.manager.magic.handshake_init ≢ r.manager.magic.data_byte)
      (not_resp : r.manager.magic.handshake_resp ≢ r.manager.magic.data_byte) where
    q : Peer H T
    q = answered N seed_i seed_r priv_i priv_r pub_i pub_r c t1 addr_i b

    named : q.pubkey ≡ pub_i
    unfolding q answered establish
    named = find_key-pubkey pub_i r.manager.peers b known

    stands : find_addr addr_i (put_key pub_i q r.manager.peers) ≡ some q
    unfolding q answered establish
    stands = elim free [
      | inl none_there ↦ find_addr-arrived addr_i pub_i b q r.manager.peers refl known none_there
      | inr mine ↦ find_addr-put_key addr_i pub_i b q refl named r.manager.peers named mine known
    ]

    same_magic : r'.manager.magic ≡ r.manager.magic
    same_magic = ap (λ (m : PeerManager H T). m.magic) mr

    pub begins-Linked : Linked N has_relay addr_i pub_i addr_r pub_r j 0 b.allowed_ips i' r'
    unfolding q answered establish
    begins-Linked = record {
      p = p;
      s = fresh_session t2 c.tr_i;
      q = q;
      r = fresh_session t1 c.tr_r;
      listed =
          ap (λ (m : PeerManager H T). get_elem? m.peers j) mi
          ∙ get_elem?-set i.manager.peers j p0 p at;
      speaks = active;
      counter = refl;
      named = keyed;
      place = inl there;
      at_addr = ap (λ (m : PeerManager H T). find_addr addr_i m.peers) mr ∙ stands;
      by_key =
          ap (λ (m : PeerManager H T). find_key pub_i m.peers) mr
          ∙ find_key-put_key pub_i q b r.manager.peers pub_i known named
          ∙ if_pos (Bytes-discrete pub_i pub_i) refl _ _;
      hears = refl;
      subnets = refl;
      behind = new-IsBehind;
      pairs = c.forth;
      writes = c.writes_i;
      type_byte = ap (λ (m : MagicConfig). m.data_byte) (kinds ∙ sym same_magic);
      not_init = rw same_magic not_init;
      not_resp = rw same_magic not_resp;
    }
