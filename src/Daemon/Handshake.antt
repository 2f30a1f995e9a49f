-- ===== src/Daemon/Handshake.antt =====
-- A handshake between two daemons of src/daemon.rs, and the data that then passes.
use mesh_vpn.Base.{ℕ, ◌≡◌, ◌≢◌, refl, ◌∙◌, ap, sym, some, ◌∷◌, ◌++◌, Bytes, arith, length}
use mesh_vpn.Net.{Noise, Draw, SocketAddr}
use mesh_vpn.Peer.{
  Peer, MagicConfig, initiate_handshake, establish, fresh_session, finish, read_initiation,
  handle_handshake_packet,
}
use mesh_vpn.Peer.Handshake.{
  Completes, Talks, fresh-Talks, initiate_handshake-Completes, read_initiation-Completes,
  answer-Completes, finish-Completes,
}
use mesh_vpn.Manager.{find_key}
use mesh_vpn.Metrics.{add_rx}
use mesh_vpn.Daemon.State.{Shared, find_addr, put_addr}
use mesh_vpn.Daemon.Lookup.{
  find_addr-endpoint, find_addr-put_addr, find_key-pubkey, find_key-put_key,
}
use mesh_vpn.Daemon.Datagram.{quiet, on_initiation, on_response, on_datagram}

-- A datagram is counted before it is dispatched.
abbrev pub counted : {H T : Type 0} → Bytes → Shared H T → Shared H T
counted datagram s = record s { metrics = add_rx (length datagram) s.metrics }

module _ {H T : Type 0} (N : Noise H T) (now : ℕ) (draw : Draw) (addr : SocketAddr)
    (payload : Bytes) (s : Shared H T) where
  pub dispatch-initiation :
      on_datagram N now draw addr (s.manager.magic.handshake_init ∷ payload) s
      ≡ on_initiation N now draw addr payload (counted (s.manager.magic.handshake_init ∷ payload) s)
  unfolding on_datagram
  dispatch-initiation = ground arith

  pub dispatch-response :
      s.manager.magic.handshake_init ≢ s.manager.magic.handshake_resp
      → on_datagram N now draw addr (s.manager.magic.handshake_resp ∷ payload) s ≡ (
        quiet,
        on_response N now draw addr s.manager.magic.handshake_resp payload
            (counted (s.manager.magic.handshake_resp ∷ payload) s),
      )
  unfolding on_datagram
  dispatch-response n = ground arith

  pub peers-on_response :
      (kind : ℕ) (p : Peer H T)
      → find_addr addr s.manager.peers ≡ some p
      → (on_response N now draw addr kind payload s).manager.peers
        ≡ put_addr addr
            (record ((handle_handshake_packet N now draw s.manager.local_priv kind payload p).1) {
              last_direct_rx = now;
            })
            s.manager.peers
  unfolding on_response
  peers-on_response kind p f = ground (arith, f)

pub handle-finish :
    {H T : Type 0} (N : Noise H T) (now : ℕ) (draw : Draw) (priv payload : Bytes) (kind : ℕ)
    (p : Peer H T)
    → kind ≢ p.magic.handshake_init
    → kind ≡ p.magic.handshake_resp
    → (handle_handshake_packet N now draw priv kind payload p).1 ≡ finish N now payload p
unfolding handle_handshake_packet
handle-finish N now draw priv payload kind p n e = ground (arith, n, e)

module _ {H T : Type 0} (N : Noise H T) (seed_i seed_r : ℕ) (priv_i priv_r pub_i pub_r : Bytes)
    (c : Completes N seed_i seed_r priv_i priv_r pub_i pub_r) where
  -- The responder's peer, once it has been moved and answered.
  unfoldable pub answered : ℕ → SocketAddr → Peer H T → Peer H T
  answered now addr p =
      establish now c.tr_r (record p { endpoint = some addr; last_direct_rx = now })

  pub on_initiation-Completes :
      (now : ℕ) (draw : Draw) (addr : SocketAddr) (padding : Bytes) (s : Shared H T) (p : Peer H T)
      → draw.seed ≡ seed_r
      → s.manager.local_priv ≡ priv_r
      → find_key pub_i s.manager.peers ≡ some p
      → ((on_initiation N now draw addr (c.message ++ padding) s).0.reply
          ≡ some (s.manager.magic.handshake_resp ∷ (c.reply ++ draw.padding)))
        × (find_key pub_i (on_initiation N now draw addr (c.message ++ padding) s).1.manager.peers
            ≡ some (answered now addr p))
  unfolding on_initiation answered establish
  on_initiation-Completes now draw addr padding s p sd pr f =
      let r =
        ap (λ k. read_initiation N draw k (c.message ++ padding)) pr
        ∙ read_initiation-Completes N seed_i seed_r priv_i priv_r pub_i pub_r c draw padding sd in
      let a = answer-Completes N seed_i seed_r priv_i priv_r pub_i pub_r c draw s.manager.magic in
      let found =
        find_key-put_key pub_i (answered now addr p) p s.manager.peers pub_i f
          (find_key-pubkey pub_i s.manager.peers p f) in
      (ground (arith, r, a, f), ground (arith, r, a, f, found))

  -- The peer that the initiator has once the answer is in.
  unfoldable pub answered_peer : ℕ → Bytes → Peer H T → Peer H T
  answered_peer now padding p = record (finish N now (c.reply ++ padding) p) {
    last_direct_rx = now;
  }

  pub on_response-Completes :
      (now : ℕ) (draw : Draw) (addr : SocketAddr) (padding : Bytes) (s : Shared H T) (p : Peer H T)
      → p.handshake ≡ some c.i1
      → p.magic ≡ s.manager.magic
      → s.manager.magic.handshake_init ≢ s.manager.magic.handshake_resp
      → find_addr addr s.manager.peers ≡ some p
      → (find_addr addr
            (on_response N now draw addr s.manager.magic.handshake_resp
              (c.reply ++ padding)
              s).manager.peers
          ≡ some (answered_peer now padding p))
        × ((answered_peer now padding p).active ≡ some (fresh_session now c.tr_i))
  unfolding answered_peer establish
  on_response-Completes now draw addr padding s p h m n f =
      let over = finish-Completes N seed_i seed_r priv_i priv_r pub_i pub_r c now padding p h in
      let handled =
        handle-finish N now draw s.manager.local_priv (c.reply ++ padding)
          s.manager.magic.handshake_resp p
          (λ e. n (sym (e ∙ ap (λ (x : MagicConfig). x.handshake_init) m)))
          (sym (ap (λ (x : MagicConfig). x.handshake_resp) m)) in
      let table =
        peers-on_response N now draw addr (c.reply ++ padding) s s.manager.magic.handshake_resp p
          f in
      let there : (answered_peer now padding p).endpoint ≡ some addr =
        ap (λ (q : Peer H T). q.endpoint) over ∙ find_addr-endpoint addr s.manager.peers p f in
      let put = find_addr-put_addr addr (answered_peer now padding p) p s.manager.peers f there in
      (
        ap (find_addr addr) (
              table
              ∙ ap
                  (λ (q : Peer H T).
                    put_addr addr (record q { last_direct_rx = now }) s.manager.peers)
                  handled)
            ∙ put,
        ap (λ (q : Peer H T). q.active) over,
      )

  -- One daemon begins a handshake with a peer, its initiation reaches the daemon of that peer, which
  -- knows the initiator's key, and the answer comes back. Where both daemons use the same type bytes,
  -- with those of the handshake messages different, and the protocol completes, both then have a
  -- session: the responder's peer has moved to the initiator's address, and any payload that fits
  -- passes in both directions.
  pub handshake-Talks :
      (t0 t1 t2 : ℕ) (draw_i draw_r draw : Draw) (addr_i addr_r : SocketAddr) (a b : Peer H T)
      (i r : Shared H T)
      → draw_i.seed ≡ seed_i
      → draw_r.seed ≡ seed_r
      → a.pubkey ≡ pub_r
      → a.magic ≡ i.manager.magic
      → r.manager.magic ≡ i.manager.magic
      → i.manager.magic.handshake_init ≢ i.manager.magic.handshake_resp
      → r.manager.local_priv ≡ priv_r
      → find_key pub_i r.manager.peers ≡ some b
      → find_addr addr_r i.manager.peers ≡ some (initiate_handshake N t0 draw_i priv_i a).1
      → (first : Bytes) × (answer : Bytes) × (p : Peer H T) × (q : Peer H T) × ((initiate_handshake
            N t0 draw_i priv_i a).0
          ≡ some first)
        × ((on_datagram N t1 draw_r addr_i first r).0.reply ≡ some answer)
        × (find_key pub_i (on_datagram N t1 draw_r addr_i first r).1.manager.peers ≡ some q)
        × (find_addr addr_r (on_datagram N t2 draw addr_r answer i).1.manager.peers ≡ some p)
        × (q.endpoint ≡ some addr_i)
        × Talks N p q
        × Talks N q p
  unfolding answered establish
  handshake-Talks t0 t1 t2 draw_i draw_r draw addr_i addr_r a b i r si sr ka ma mr ne pr fb fa =
      let begun =
        initiate_handshake-Completes N seed_i seed_r priv_i priv_r pub_i pub_r c t0 draw_i a si
          ka in
      let message = c.message ++ draw_i.padding in
      let reply = c.reply ++ draw_r.padding in
      let kind_i = r.manager.magic.handshake_init in
      let kind_r = i.manager.magic.handshake_resp in
      let p0 : Peer H T = (initiate_handshake N t0 draw_i priv_i a).1 in
      let at_r = dispatch-initiation N t1 draw_r addr_i message r in
      let (said, known) =
        on_initiation-Completes t1 draw_r addr_i draw_i.padding (counted (kind_i ∷ message) r) b sr
          pr fb in
      let at_i = dispatch-response N t2 draw addr_r reply i ne in
      let (there, active) =
        on_response-Completes t2 draw addr_r draw_r.padding (counted (kind_r ∷ reply) i) p0
          (ap (λ x. x.1.handshake) begun) (ap (λ x. x.1.magic) begun ∙ ma) ne fa in
      let p = answered_peer t2 draw_r.padding p0 in
      let q = answered t1 addr_i b in
      (
        kind_i ∷ message,
        kind_r ∷ reply,
        p,
        q,
        ap (λ x. x.0) begun
            ∙ ap (λ (m : MagicConfig). some (m.handshake_init ∷ message)) (ma ∙ sym mr),
        ap (λ x. x.0.reply) at_r
            ∙ said
            ∙ ap (λ (m : MagicConfig). some (m.handshake_resp ∷ reply)) mr,
        ap (λ x. find_key pub_i x.1.manager.peers) at_r ∙ known,
        ap (λ x. find_addr addr_r x.1.manager.peers) at_i ∙ there,
        refl,
        fresh-Talks N p q c.tr_i c.tr_r t2 t1 active refl c.forth c.writes_i,
        fresh-Talks N q p c.tr_r c.tr_i t1 t2 refl active c.back c.writes_r,
      )
