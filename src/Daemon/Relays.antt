-- ===== src/Daemon/Relays.antt =====
-- What a packet from the relay can bring to the TUN device in src/daemon.rs.
use mesh_vpn.Base.{
  ℕ, ◌≡◌, refl, ap, ◌∙◌, true, ◌==◌, ==→eq, none, some, List, [], ◌∷◌, Bytes, length, arith, inl,
  inr, Option-cases, Bool-cases,
}
use mesh_vpn.Net.{Noise, Draw, Bytes-discrete}
use mesh_vpn.Peer.{Peer, decrypt_packet, read_initiation, answer}
use mesh_vpn.Manager.{find_key}
use mesh_vpn.Metrics.{add_rx}
use mesh_vpn.Daemon.State.{Shared, may_send, allowed}
use mesh_vpn.Daemon.Delivery.{allowed-some}
use mesh_vpn.Daemon.Relayed.{
  RelayedPacket, on_relayed_initiation, on_relayed_data, process_relayed_packet, on_relayed,
}

module _ {H T : Type 0} (N : Noise H T) (now : ℕ) where
  -- The peer of the sender's key decrypts the payload, and may send what it decrypts.
  pub record KeySource (key payload plaintext : Bytes) (ps : List (Peer H T)) : Type 0 where
    pub peer : Peer H T
    pub known : find_key key ps ≡ some peer
    pub decrypts : (decrypt_packet N now payload peer).0 ≡ some plaintext
    pub permitted : may_send peer plaintext ≡ true

  on_relayed_data-KeySource :
      (draw : Draw) (key payload plaintext : Bytes) (s : Shared H T)
      → (on_relayed_data N now draw key payload s).0.deliver ≡ some plaintext
      → KeySource key payload plaintext s.manager.peers
  unfolding on_relayed_data
  on_relayed_data-KeySource draw key payload plaintext s e =
      elim (Option-cases (find_key key s.manager.peers)) [
        | inl f ↦ absurd (ground (arith, e, f))
        | inr (p, f) ↦ elim (Option-cases (allowed p (decrypt_packet N now payload p).0)) [
          | inl a ↦ absurd (ground (arith, e, f, a))
          | inr (text, a) ↦
              let (d, m) =
                allowed-some p (decrypt_packet N now payload p).0 plaintext
                  (ground (arith, e, f, a)) in
              record { peer = p; known = f; decrypts = d; permitted = m }
        ]
      ]

  initiation-quiet :
      (draw : Draw) (key payload : Bytes) (s : Shared H T)
      → (on_relayed_initiation N now draw key payload s).0.deliver ≡ none
  unfolding on_relayed_initiation
  initiation-quiet draw key payload s =
      elim (Option-cases (read_initiation N draw s.manager.local_priv payload)) [
        | inl r ↦ ground (arith, r)
        | inr ((k, hs), r) ↦ elim (Bytes-discrete k key) [
          | no ne ↦ ground (arith, r, ne)
          | yes y ↦ elim (Option-cases (find_key k s.manager.peers)) [
            | inl f ↦ ground (arith, r, y, f)
            | inr (p, f) ↦ elim (Option-cases (answer N draw s.manager.magic hs)) [
              | inl a ↦ ground (arith, r, y, f, a)
              | inr ((packet, t), a) ↦ ground (arith, r, y, f, a)
            ]
          ]
        ]
      ]

  -- What a packet from the relay writes to the TUN device was its data: the peer of the key that the relay
  -- names decrypts it, and that peer may send it.
  pub on_relayed-KeySource :
      (draw : Draw) (pkt : RelayedPacket) (s : Shared H T) (plaintext : Bytes)
      → (on_relayed N now draw pkt s).0.deliver ≡ some plaintext
      → (payload : Bytes) × (pkt.payload ≡ s.manager.magic.data_byte ∷ payload)
        × KeySource pkt.from_key payload plaintext s.manager.peers
  unfolding on_relayed process_relayed_packet
  on_relayed-KeySource draw pkt s plaintext e = go pkt.payload refl
    where
      counted : Shared H T
      counted = record s { metrics = add_rx (length pkt.payload) s.metrics }

      go :
          (bytes : Bytes)
          → pkt.payload ≡ bytes
          → (payload : Bytes) × (pkt.payload ≡ s.manager.magic.data_byte ∷ payload)
            × KeySource pkt.from_key payload plaintext s.manager.peers
      go [] b = absurd (ground (arith, e, b))
      go (kind ∷ payload) b = elim (Bool-cases (kind == s.manager.magic.handshake_init)) [
        | inl i ↦
            absurd (ground (arith, e, b, i, initiation-quiet draw pkt.from_key payload counted))
        | inr i ↦ elim (Bool-cases (kind == s.manager.magic.handshake_resp)) [
          | inl r ↦ absurd (ground (arith, e, b, i, r))
          | inr r ↦ elim (Bool-cases (kind == s.manager.magic.data_byte)) [
            | inr d ↦ absurd (ground (arith, e, b, i, r, d))
            | inl d ↦ (
              payload,
              b ∙ ap (λ k. k ∷ payload) (==→eq kind s.manager.magic.data_byte d),
              on_relayed_data-KeySource draw pkt.from_key payload plaintext counted
                  (ground (arith, e, b, i, r, d)),
            )
          ]
        ]
      ]
