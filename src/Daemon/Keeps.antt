-- ===== src/Daemon/Keeps.antt =====
-- What each handler of src/daemon.rs that a datagram, a relayed packet or a packet of the TUN device
-- runs keeps of the shared state.
pub mod Others
use mesh_vpn.Base.{
  ℕ, ◌≡◌, refl, ap, sym, Bool, Option, some, List, [], ◌∷◌, Bytes, arith, subst, inl, inr,
  Option-cases, get_elem?, set, length,
}
use mesh_vpn.Net.{SocketAddr, Noise, Draw, Bytes-discrete}
use mesh_vpn.Packet.{parse_ipv4_header}
use mesh_vpn.Peer.{
  Peer, MagicConfig, read_initiation, answer, establish, handle_handshake_packet, decrypt_packet,
  encrypt_packet,
}
use mesh_vpn.Manager.{find_key, find_best_peer_idx}
use mesh_vpn.Metrics.{add_rx}
use mesh_vpn.Daemon.State.{Shared, find_addr, put_addr, put_key}
use mesh_vpn.Daemon.Table.{
  All, All-find_addr, All-find_key, All-get_elem?, All-put_addr, All-put_key, All-set,
}
use mesh_vpn.Daemon.Datagram.{
  on_initiation, on_response, by_endpoint, by_trial, decrypt_any, on_data, on_datagram,
}
use mesh_vpn.Daemon.Relayed.{
  RelayedPacket, on_relayed_initiation, on_relayed_response, on_relayed_data,
  process_relayed_packet, on_relayed,
}
use mesh_vpn.Daemon.Tun.{Action, step, send_by, on_tun_packet}
use mesh_vpn.Daemon.Laws.{Laws, IsParsed}
use mesh_vpn.Net.{Parsers}

-- The key and the type bytes stay, and so does a property of all peers.
pub record Keeps {H T : Type 0} (Q : MagicConfig → Peer H T → Type 0) (s s' : Shared H T)
    : Type 0 where
  pub local_priv : s'.manager.local_priv ≡ s.manager.local_priv
  pub magic : s'.manager.magic ≡ s.manager.magic
  pub peers : All (Q s.manager.magic) s.manager.peers → All (Q s.manager.magic) s'.manager.peers

module _ {H T : Type 0} (Q : MagicConfig → Peer H T → Type 0) where
  pub Keeps-refl : (s s' : Shared H T) → s'.manager ≡ s.manager → Keeps Q s s'
  Keeps-refl s s' e = record {
    local_priv = ap (λ m. m.local_priv) e;
    magic = ap (λ m. m.magic) e;
    peers = λ a. subst (λ m. All (Q s.manager.magic) m.peers) (sym e) a;
  }

  -- Only the peers have changed.
  pub Keeps-peers :
      (s s' : Shared H T) (qs : List (Peer H T))
      → s'.manager ≡ record (s.manager) { peers = qs }
      → (All (Q s.manager.magic) s.manager.peers → All (Q s.manager.magic) qs)
      → Keeps Q s s'
  Keeps-peers s s' qs e f = record {
    local_priv = ap (λ m. m.local_priv) e;
    magic = ap (λ m. m.magic) e;
    peers = λ a. subst (λ m. All (Q s.manager.magic) m.peers) (sym e) (f a);
  }

module _ {H T : Type 0} (N : Noise H T) (P : Parsers) (Q : MagicConfig → Peer H T → Type 0)
    (L : Laws N P Q) (now : ℕ) (draw : Draw) (addr : SocketAddr) where
  on_initiation-Keeps :
      (payload : Bytes) (s : Shared H T) → Keeps Q s (on_initiation N now draw addr payload s).1
  unfolding on_initiation
  on_initiation-Keeps payload s =
      elim (Option-cases (read_initiation N draw s.manager.local_priv payload)) [
        | inl r ↦ Keeps-refl Q s _ (ground (arith, r))
        | inr ((key, hs), r) ↦ elim (Option-cases (find_key key s.manager.peers)) [
          | inl f ↦ Keeps-refl Q s _ (ground (arith, r, f))
          | inr (p, f) ↦
              let moved : Peer H T = record p { endpoint = some addr; last_direct_rx = now } in
              let sound : All (Q s.manager.magic) s.manager.peers → Q s.manager.magic moved = λ a.
                L.touched s.manager.magic (some addr) p.last_rx p.last_tx now p
                  (All-find_key (Q s.manager.magic) key s.manager.peers p a f) in
              elim (Option-cases (answer N draw s.manager.magic hs)) [
                | inl w ↦
                    Keeps-peers Q s _ (put_key key moved s.manager.peers) (ground (arith, r, f, w))
                      (λ a. All-put_key (Q s.manager.magic) key moved s.manager.peers a (sound a))
                | inr ((packet, t), w) ↦
                    Keeps-peers Q s _ (put_key key (establish now t moved) s.manager.peers)
                      (ground (arith, r, f, w))
                      (λ a.
                        All-put_key (Q s.manager.magic) key (establish now t moved) s.manager.peers
                          a (L.established s.manager.magic now t moved (sound a)))
              ]
        ]
      ]

  on_response-Keeps :
      (kind : ℕ) (payload : Bytes) (s : Shared H T)
      → Keeps Q s (on_response N now draw addr kind payload s)
  unfolding on_response
  on_response-Keeps kind payload s = elim (Option-cases (find_addr addr s.manager.peers)) [
    | inl f ↦ Keeps-refl Q s _ (ground (arith, f))
    | inr (p, f) ↦
        let q : Peer H T =
          (handle_handshake_packet N now draw s.manager.local_priv kind payload p).1 in
        let heard : Peer H T = record q { last_direct_rx = now } in
        Keeps-peers Q s _ (put_addr addr heard s.manager.peers) (ground (arith, f)) (λ a.
          All-put_addr (Q s.manager.magic) addr heard s.manager.peers a (
            L.touched s.manager.magic q.endpoint q.last_rx q.last_tx now q (
              L.shaken s.manager.magic now draw s.manager.local_priv kind payload p
                (All-find_addr (Q s.manager.magic) addr s.manager.peers p a f))))
  ]

  module _ (magic : MagicConfig) where
    by_trial-All :
        (payload : Bytes) (ps : List (Peer H T))
        → All (Q magic) ps
        → All (Q magic) (by_trial N now addr payload ps).1
    unfolding by_trial
    by_trial-All payload [] a = tt
    by_trial-All payload (p ∷ ps) a =
        let q : Peer H T = (decrypt_packet N now payload p).1 in
        let sound = L.decrypted magic now payload p a.0 in
        let roamed = L.touched magic (some addr) q.last_rx q.last_tx now q sound in
        ground (arith, by_trial-All payload ps a.1, sound, roamed)

    by_endpoint-All :
        (payload : Bytes) (ps : List (Peer H T))
        → All (Q magic) ps
        → All (Q magic) (by_endpoint N now addr payload ps).1
    unfolding by_endpoint
    by_endpoint-All payload ps a = elim (Option-cases (find_addr addr ps)) [
      | inl f ↦ ground (arith, f)
      | inr (p, f) ↦
          let q : Peer H T = (decrypt_packet N now payload p).1 in
          let sound = L.decrypted magic now payload p (All-find_addr (Q magic) addr ps p a f) in
          let heard = L.touched magic q.endpoint q.last_rx q.last_tx now q sound in
          ground (
            arith,
            f,
            All-put_addr (Q magic) addr q ps a sound,
            All-put_addr (Q magic) addr (record q { last_direct_rx = now }) ps a heard,
          )
    ]

  on_data-Keeps : (payload : Bytes) (s : Shared H T) → Keeps Q s (on_data N now addr payload s).1
  unfolding on_data decrypt_any
  on_data-Keeps payload s = Keeps-peers Q s _ _ refl (λ a.
      let b = by_endpoint-All s.manager.magic payload s.manager.peers a in
      ground (
        arith,
        b,
        by_trial-All s.manager.magic payload (by_endpoint N now addr payload s.manager.peers).1 b,
      ))

  pub on_datagram-Keeps :
      (bytes : Bytes) (s : Shared H T) → Keeps Q s (on_datagram N now draw addr bytes s).1
  unfolding on_datagram
  on_datagram-Keeps [] s = Keeps-refl Q s s refl
  on_datagram-Keeps (kind ∷ payload) s =
      let counted : Shared H T = record s {
        metrics = add_rx (length (kind ∷ payload)) s.metrics;
      } in
      ground (
        arith,
        Keeps-refl Q counted counted refl,
        on_initiation-Keeps payload counted,
        on_response-Keeps kind payload counted,
        on_data-Keeps payload counted,
      )
