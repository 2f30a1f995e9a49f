-- ===== src/Daemon/Keeps/Others.antt =====
-- What the handlers of src/daemon.rs for relayed packets and for packets of the TUN device keep.
use mesh_vpn.Base.{
  ℕ, ◌≡◌, refl, Bool, Option, [], ◌∷◌, Bytes, arith, inl, inr, Option-cases, get_elem?, set, length,
}
use mesh_vpn.Net.{Noise, Draw, Bytes-discrete}
use mesh_vpn.Packet.{parse_ipv4_header}
use mesh_vpn.Peer.{
  Peer, MagicConfig, read_initiation, answer, establish, handle_handshake_packet, decrypt_packet,
  encrypt_packet,
}
use mesh_vpn.Manager.{find_key, find_best_peer_idx}
use mesh_vpn.Metrics.{add_rx}
use mesh_vpn.Daemon.State.{Shared, put_key}
use mesh_vpn.Daemon.Table.{All-find_key, All-get_elem?, All-put_key, All-set}
use mesh_vpn.Daemon.Relayed.{
  RelayedPacket, on_relayed_initiation, on_relayed_response, on_relayed_data,
  process_relayed_packet, on_relayed,
}
use mesh_vpn.Daemon.Tun.{Action, step, send_by, on_tun_packet}
use mesh_vpn.Daemon.Keeps.{Keeps, Keeps-refl, Keeps-peers}
use mesh_vpn.Daemon.Laws.{Laws}
use mesh_vpn.Net.{Parsers}

module _ {H T : Type 0} (N : Noise H T) (P : Parsers) (Q : MagicConfig → Peer H T → Type 0)
    (L : Laws N P Q) (now : ℕ) (draw : Draw) (from_key : Bytes) where
  on_relayed_initiation-Keeps :
      (payload : Bytes) (s : Shared H T)
      → Keeps Q s (on_relayed_initiation N now draw from_key payload s).1
  unfolding on_relayed_initiation
  on_relayed_initiation-Keeps payload s =
      elim (Option-cases (read_initiation N draw s.manager.local_priv payload)) [
        | inl r ↦ Keeps-refl Q s _ (ground (arith, r))
        | inr ((key, hs), r) ↦ elim (Option-cases (find_key key s.manager.peers)) [
          | inl f ↦ Keeps-refl Q s _ (ground (arith, r, f))
          | inr (p, f) ↦ elim (Option-cases (answer N draw s.manager.magic hs)) [
            | inl w ↦ Keeps-refl Q s _ (ground (arith, r, f, w))
            | inr ((packet, t), w) ↦ elim (Bytes-discrete key from_key) [
              | no ne ↦ Keeps-refl Q s _ (ground (arith, r, f, w))
              | yes e ↦
                  Keeps-peers Q s _ (put_key key (establish now t p) s.manager.peers)
                    (ground (arith, r, f, w))
                    (λ a.
                      All-put_key (Q s.manager.magic) key (establish now t p) s.manager.peers a (
                        L.established s.manager.magic now t p
                          (All-find_key (Q s.manager.magic) key s.manager.peers p a f)))
            ]
          ]
        ]
      ]

  on_relayed_response-Keeps :
      (kind : ℕ) (payload : Bytes) (s : Shared H T)
      → Keeps Q s (on_relayed_response N now draw from_key kind payload s)
  unfolding on_relayed_response
  on_relayed_response-Keeps kind payload s =
      elim (Option-cases (find_key from_key s.manager.peers)) [
        | inl f ↦ Keeps-refl Q s _ (ground (arith, f))
        | inr (p, f) ↦
            let q : Peer H T =
              (handle_handshake_packet N now draw s.manager.local_priv kind payload p).1 in
            Keeps-peers Q s _ (put_key from_key q s.manager.peers) (ground (arith, f)) (λ a.
              All-put_key (Q s.manager.magic) from_key q s.manager.peers a (
                L.shaken s.manager.magic now draw s.manager.local_priv kind payload p
                  (All-find_key (Q s.manager.magic) from_key s.manager.peers p a f)))
      ]

  on_relayed_data-Keeps :
      (payload : Bytes) (s : Shared H T)
      → Keeps Q s (on_relayed_data N now draw from_key payload s).1
  unfolding on_relayed_data
  on_relayed_data-Keeps payload s = elim (Option-cases (find_key from_key s.manager.peers)) [
    | inl f ↦ Keeps-refl Q s _ (ground (arith, f))
    | inr (p, f) ↦
        let q : Peer H T = (decrypt_packet N now payload p).1 in
        Keeps-peers Q s _ (put_key from_key q s.manager.peers) (ground (arith, f)) (λ a.
          All-put_key (Q s.manager.magic) from_key q s.manager.peers a (
            L.decrypted s.manager.magic now payload p
              (All-find_key (Q s.manager.magic) from_key s.manager.peers p a f)))
  ]

pub on_relayed-Keeps :
    {H T : Type 0} (N : Noise H T) (P : Parsers) (Q : MagicConfig → Peer H T → Type 0)
    (L : Laws N P Q) (now : ℕ) (draw : Draw) (pkt : RelayedPacket) (s : Shared H T)
    → Keeps Q s (on_relayed N now draw pkt s).1
unfolding on_relayed process_relayed_packet
on_relayed-Keeps {H} {T} N P Q L now draw pkt s = go pkt.payload refl
  where
    go : (bytes : Bytes) → pkt.payload ≡ bytes → Keeps Q s (on_relayed N now draw pkt s).1
    go [] e = Keeps-refl Q s _ (ground (arith, e))
    go (kind ∷ payload) e =
        let counted : Shared H T = record s { metrics = add_rx (length pkt.payload) s.metrics } in
        ground (
          arith,
          e,
          Keeps-refl Q counted counted refl,
          on_relayed_initiation-Keeps N P Q L now draw pkt.from_key payload counted,
          on_relayed_response-Keeps N P Q L now draw pkt.from_key kind payload counted,
          on_relayed_data-Keeps N P Q L now draw pkt.from_key payload counted,
        )

module _ {H T : Type 0} (N : Noise H T) (P : Parsers) (Q : MagicConfig → Peer H T → Type 0)
    (L : Laws N P Q) (now : ℕ) (pad_draw hs_draw : Draw) (has_relay : Bool) where
  send_by_lem :
      (magic : MagicConfig) (priv packet : Bytes) (p : Peer H T)
      → Q magic p
      → Q magic (send_by N now pad_draw hs_draw has_relay priv packet p).1
  unfolding send_by
  send_by_lem magic priv packet p s =
      let sealed = L.encrypted magic now pad_draw packet p s in
      let q : Peer H T = (encrypt_packet N now pad_draw packet p).1 in
      ground (arith, sealed, L.initiated magic now hs_draw priv q sealed)

  pub on_tun_packet-Keeps :
      (bytes : Bytes) (s s' : Shared H T) (action : Option Action)
      → on_tun_packet N now pad_draw hs_draw has_relay bytes s ≡ step action s'
      → Keeps Q s s'
  unfolding on_tun_packet
  on_tun_packet-Keeps [] s s' action e = absurd (cc)
  on_tun_packet-Keeps (b ∷ bs) s s' action e = elim (Option-cases (parse_ipv4_header (b ∷ bs))) [
    | inl h ↦ Keeps-refl Q s s' (ground (arith, h, e))
    | inr ((src, dst), h) ↦ elim (Option-cases (find_best_peer_idx dst s.manager)) [
      | inl f ↦ Keeps-refl Q s s' (ground (arith, h, f, e))
      | inr (idx, f) ↦ elim (Option-cases (get_elem? s.manager.peers idx)) [
        | inl g ↦ Keeps-refl Q s s' (ground (arith, h, f, g, e))
        | inr (p, g) ↦
            let q : Peer H T =
              (send_by N now pad_draw hs_draw has_relay s.manager.local_priv (b ∷ bs) p).1 in
            Keeps-peers Q s s' (set s.manager.peers idx q) (ground (arith, h, f, g, e)) (λ a.
              All-set (Q s.manager.magic) s.manager.peers idx q a (
                send_by_lem s.manager.magic s.manager.local_priv (b ∷ bs) p
                  (All-get_elem? (Q s.manager.magic) s.manager.peers idx p a g)))
      ]
    ]
  ]
