-- ===== src/Daemon/Tunnel/Whole.antt =====
-- Two daemons of src/daemon.rs from the first handshake message to the packets that they carry.
use mesh_vpn.Base.{
  ℕ, ◌<◌, ◌≡◌, ◌≢◌, sym, ap, ◌∙◌, ◌⊎◌, Bool, none, some, List, ◌∷◌, ◌++◌, Bytes, u64_mod, length,
  get_elem?, set, take, arith,
}
use mesh_vpn.Net.{SocketAddr, Noise, Draw}
use mesh_vpn.Text.{Ipv4Addr}
use mesh_vpn.Peer.{Peer, MagicConfig, initiate_handshake}
use mesh_vpn.Peer.Handshake.{Completes, initiate_handshake-Completes}
use mesh_vpn.Manager.{find_key, find_best_peer_idx}
use mesh_vpn.Daemon.State.{Shared, find_addr, put_key}
use mesh_vpn.Daemon.Datagram.{on_datagram}
use mesh_vpn.Daemon.Handshake.{
  answered, answered_peer, counted, dispatch-initiation, dispatch-response, on_initiation-Completes,
  handle-finish,
}
use mesh_vpn.Daemon.Tunnel.{Leg, carry, kept}
use mesh_vpn.Daemon.Tunnel.Sends.{find_best_peer_idx-set}
use mesh_vpn.Daemon.Tunnel.Link.{Linked, AllFit}
use mesh_vpn.Daemon.Tunnel.Delivers.{carry-kept, AllFit-moved}
use mesh_vpn.Daemon.Tunnel.Begins.{
  manager-on_initiation, manager-on_response, concluded, begins-Linked,
}

module _ {H T : Type 0} (N : Noise H T) (seed_i seed_r : ℕ) (priv_i priv_r pub_i pub_r : Bytes)
    (c : Completes N seed_i seed_r priv_i priv_r pub_i pub_r) where
  -- The initiator has the responder's peer `a` with index `j`, first at the responder's address, and has
  -- just built the initiation. The responder knows the initiator's key, as that of `b`, and has no other
  -- peer at the initiator's address. Both use the same type bytes, which differ from one another.
  pub record Meets (t0 j : ℕ) (draw_i : Draw) (addr_i addr_r : SocketAddr) (a b : Peer H T)
      (i r : Shared H T) : Type 0 where
    pub seeded : draw_i.seed ≡ seed_i
    pub key : a.pubkey ≡ pub_r
    pub there : a.endpoint ≡ some addr_r
    pub listed : get_elem? i.manager.peers j ≡ some (initiate_handshake N t0 draw_i priv_i a).1
    pub first : find_addr addr_r (take j i.manager.peers) ≡ none
    pub private_key : r.manager.local_priv ≡ priv_r
    pub known : find_key pub_i r.manager.peers ≡ some b
    pub free :
        (find_addr addr_i r.manager.peers ≡ none) ⊎ (find_addr addr_i r.manager.peers ≡ some b)
    pub own_bytes : a.magic ≡ i.manager.magic
    pub same_bytes : r.manager.magic ≡ i.manager.magic
    pub not_resp : i.manager.magic.handshake_init ≢ i.manager.magic.handshake_resp
    pub init_data : i.manager.magic.handshake_init ≢ i.manager.magic.data_byte
    pub resp_data : i.manager.magic.handshake_resp ≢ i.manager.magic.data_byte

  -- The managers of both once the messages are exchanged.
  module _ (t0 t1 t2 j : ℕ) (draw_i draw_r draw : Draw) (addr_i addr_r : SocketAddr)
      (a b : Peer H T) (i r : Shared H T) (m : Meets t0 j draw_i addr_i addr_r a b i r)
      (sr : draw_r.seed ≡ seed_r) where
    initiation : Bytes
    initiation = r.manager.magic.handshake_init ∷ (c.message ++ draw_i.padding)

    answer : Bytes
    answer = i.manager.magic.handshake_resp ∷ (c.reply ++ draw_r.padding)

    begun : Peer H T
    begun = (initiate_handshake N t0 draw_i priv_i a).1

    built : initiate_handshake N t0 draw_i priv_i a ≡ (
      some (a.magic.handshake_init ∷ (c.message ++ draw_i.padding)),
      record a {
        handshake = some c.i1;
        last_handshake_attempt = some t0;
        last_handshake_packet = some (a.magic.handshake_init ∷ (c.message ++ draw_i.padding));
        last_tx = t0;
      },
    )
    built =
        initiate_handshake-Completes N seed_i seed_r priv_i priv_r pub_i pub_r c t0 draw_i a
          m.seeded m.key

    begun-endpoint : begun.endpoint ≡ some addr_r
    unfolding begun
    begun-endpoint = ap (λ x. x.1.endpoint) built ∙ m.there

    begun-magic : begun.magic ≡ i.manager.magic
    unfolding begun
    begun-magic = ap (λ x. x.1.magic) built ∙ m.own_bytes

    begun-allowed_ips : begun.allowed_ips ≡ a.allowed_ips
    unfolding begun
    begun-allowed_ips = ap (λ x. x.1.allowed_ips) built

    manager_r : (on_datagram N t1 draw_r addr_i initiation r).1.manager ≡ record (r.manager) {
      peers =
          put_key pub_i
            (answered N seed_i seed_r priv_i priv_r pub_i pub_r c t1 addr_i b)
            r.manager.peers;
    }
    unfolding initiation
    manager_r =
        ap (λ x. x.1.manager)
          (dispatch-initiation N t1 draw_r addr_i (c.message ++ draw_i.padding) r)
        ∙ manager-on_initiation N seed_i seed_r priv_i priv_r pub_i pub_r c t1 draw_r addr_i
            draw_i.padding (counted initiation r) b sr m.private_key m.known

    replied : (on_datagram N t1 draw_r addr_i initiation r).0.reply ≡ some answer
    unfolding initiation answer
    replied =
        ap (λ x. x.0.reply) (dispatch-initiation N t1 draw_r addr_i (c.message ++ draw_i.padding) r)
        ∙ (on_initiation-Completes N seed_i seed_r priv_i priv_r pub_i pub_r c t1 draw_r addr_i
            draw_i.padding (counted initiation r) b sr m.private_key m.known).0
        ∙ ap (λ (x : MagicConfig). some (x.handshake_resp ∷ (c.reply ++ draw_r.padding)))
            m.same_bytes

    manager_i :
        (p : Peer H T)
        → p ≡ answered_peer N seed_i seed_r priv_i priv_r pub_i pub_r c t2 draw_r.padding begun
        → (on_datagram N t2 draw addr_r answer i).1.manager
          ≡ record (i.manager) { peers = set i.manager.peers j p }
    unfolding answer answered_peer begun
    manager_i p made =
        ap (λ x. x.1.manager)
          (dispatch-response N t2 draw addr_r (c.reply ++ draw_r.padding) i m.not_resp)
        ∙ manager-on_response N t2 draw addr_r (c.reply ++ draw_r.padding)
            i.manager.magic.handshake_resp j (counted answer i) begun p m.listed begun-endpoint
            m.first
            (ap (λ (x : Peer H T). record x { last_direct_rx = t2 })
                (handle-finish N t2 draw i.manager.local_priv (c.reply ++ draw_r.padding)
                  i.manager.magic.handshake_resp begun
                  (λ e.
                    m.not_resp (sym (e ∙ ap (λ (x : MagicConfig). x.handshake_init) begun-magic)))
                  (sym (ap (λ (x : MagicConfig). x.handshake_resp) begun-magic)))
              ∙ sym made)

    meeting-Linked :
        (has_relay : Bool)
        → Linked N has_relay addr_i pub_i addr_r pub_r j 0 b.allowed_ips
            (on_datagram N t2 draw addr_r answer i).1
            (on_datagram N t1 draw_r addr_i initiation r).1
    unfolding begun
    meeting-Linked has_relay =
        let (p, made, active, place, ips, bytes, keyed) =
          concluded N seed_i seed_r priv_i priv_r pub_i pub_r c t0 t2 draw_i draw_r.padding a
            m.seeded m.key in
        begins-Linked N seed_i seed_r priv_i priv_r pub_i pub_r c t1 t2 addr_i addr_r has_relay j i
          _ r _ p b (initiate_handshake N t0 draw_i priv_i a).1 m.listed active (place ∙ m.there)
          keyed m.known m.free (manager_i p made) manager_r (bytes ∙ m.own_bytes ∙ sym m.same_bytes)
          (rw m.same_bytes m.init_data) (rw m.same_bytes m.resp_data)

    -- The answer leaves the initiator's routes as they were.
    routes_same :
        (dst : Ipv4Addr)
        → find_best_peer_idx dst (on_datagram N t2 draw addr_r answer i).1.manager
          ≡ find_best_peer_idx dst i.manager
    unfolding begun
    routes_same dst =
        let (p, made, active, place, ips, bytes, keyed) =
          concluded N seed_i seed_r priv_i priv_r pub_i pub_r c t0 t2 draw_i draw_r.padding a
            m.seeded m.key in
        ap (find_best_peer_idx dst) (manager_i p made)
        ∙ find_best_peer_idx-set i j begun p dst m.listed (ips ∙ sym begun-allowed_ips)

  -- Two daemons that meet exchange the initiation and its answer. Then any packets of the initiator that
  -- fit come out of the responder's TUN device, all that the network does not lose, unchanged and in
  -- order: each is sent to the responder's own address, or over the relay to its key.
  pub handshake-carry :
      (t0 t1 t2 j : ℕ) (draw_i draw_r draw : Draw) (addr_i addr_r : SocketAddr) (has_relay : Bool)
      (a b : Peer H T) (i r : Shared H T) (ls : List Leg)
      → Meets t0 j draw_i addr_i addr_r a b i r
      → draw_r.seed ≡ seed_r
      → AllFit N has_relay addr_i pub_i addr_r pub_r j b.allowed_ips i ls
      → length ls < u64_mod
      → (first : Bytes) × (answer : Bytes) × ((initiate_handshake N t0 draw_i priv_i a).0
          ≡ some first)
        × ((on_datagram N t1 draw_r addr_i first r).0.reply ≡ some answer)
        × (carry N has_relay addr_i pub_i addr_r pub_r ls
              (on_datagram N t2 draw addr_r answer i).1
              (on_datagram N t1 draw_r addr_i first r).1
            ≡ kept ls)
  unfolding initiation answer
  handshake-carry t0 t1 t2 j draw_i draw_r draw addr_i addr_r has_relay a b i r ls m sr fits few = (
    initiation t0 t1 t2 j draw_i draw_r draw addr_i addr_r a b i r m sr,
    answer t0 t1 t2 j draw_i draw_r draw addr_i addr_r a b i r m sr,
    ap (λ x. x.0) (built t0 t1 t2 j draw_i draw_r draw addr_i addr_r a b i r m sr)
        ∙ ap (λ (x : MagicConfig). some (x.handshake_init ∷ (c.message ++ draw_i.padding)))
            (m.own_bytes ∙ sym m.same_bytes),
    replied t0 t1 t2 j draw_i draw_r draw addr_i addr_r a b i r m sr,
    carry-kept N has_relay addr_i pub_i addr_r pub_r ls j 0 b.allowed_ips _ _
        (meeting-Linked t0 t1 t2 j draw_i draw_r draw addr_i addr_r a b i r m sr has_relay)
        (AllFit-moved N has_relay addr_i pub_i addr_r pub_r j b.allowed_ips i _ ls
          (routes_same t0 t1 t2 j draw_i draw_r draw addr_i addr_r a b i r m sr) fits)
        (omega (arith, few)),
  )
