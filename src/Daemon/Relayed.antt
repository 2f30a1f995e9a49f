-- ===== src/Daemon/Relayed.antt =====
-- `process_relayed_packet` of src/daemon.rs: what a packet that came over the relay does.
use mesh_vpn.Base.{ℕ, none, some, [], ◌∷◌, Bytes, ◌==◌, if◌then◌else◌, ite, length}
use mesh_vpn.Net.{Noise, Draw, Bytes-discrete}
use mesh_vpn.Peer.{
  read_initiation, answer, establish, handle_handshake_packet, decrypt_packet, is_empty,
}
use mesh_vpn.Manager.{find_key}
use mesh_vpn.Metrics.{add_rx, record_handshake_success}
use mesh_vpn.Daemon.State.{Shared, put_key, with_peers, allowed, count_success}
use mesh_vpn.Daemon.Datagram.{Output, quiet}

-- `RelayedPacket` of src/relay.rs.
pub record RelayedPacket : Type 0 where
  pub from_key : Bytes
  pub payload : Bytes

module _ {H T : Type 0} (N : Noise H T) (now : ℕ) (draw : Draw) (from_key : Bytes) where
  -- The relay's claim about the sender must agree with the key that the handshake authenticates.
  unfoldable pub on_relayed_initiation : Bytes → Shared H T → Output × Shared H T
  on_relayed_initiation payload s = elim (read_initiation N draw s.manager.local_priv payload) [
    | none ↦ (quiet, s)
    | some (key, hs) ↦
        ite (Bytes-discrete key from_key)
          (elim (find_key key s.manager.peers) [
            | none ↦ (quiet, s)
            | some p ↦ elim (answer N draw s.manager.magic hs) [
              | none ↦ (quiet, s)
              | some (packet, t) ↦ (
                record quiet { reply = some packet },
                record (with_peers s (put_key key (establish now t p) s.manager.peers)) {
                  metrics = record_handshake_success s.metrics;
                },
              )
            ]
          ])
          (quiet, s)
  ]

  unfoldable pub on_relayed_response : ℕ → Bytes → Shared H T → Shared H T
  on_relayed_response packet_type payload s = elim (find_key from_key s.manager.peers) [
    | none ↦ s
    | some p ↦
        let (resp, q) =
          handle_handshake_packet N now draw s.manager.local_priv packet_type payload p in
        record (with_peers s (put_key from_key q s.manager.peers)) {
          metrics = count_success p q s.metrics;
        }
  ]

  unfoldable pub on_relayed_data : Bytes → Shared H T → Output × Shared H T
  on_relayed_data payload s = elim (find_key from_key s.manager.peers) [
    | none ↦ (quiet, s)
    | some p ↦
        let (plaintext, q) = decrypt_packet N now payload p in
        (
          record quiet {
            deliver = elim (allowed p plaintext) [
              | none ↦ none
              | some bytes ↦ if is_empty bytes then none else some bytes
            ];
          },
          with_peers s (put_key from_key q s.manager.peers),
        )
  ]

-- The reply, if any, goes back over the relay to `from_key`.
unfoldable pub process_relayed_packet :
    {H T : Type 0} → Noise H T → ℕ → Draw → RelayedPacket → Shared H T → Output × Shared H T
process_relayed_packet N now draw pkt s = elim pkt.payload [
  | [] ↦ (quiet, s)
  | packet_type ∷ payload ↦
      let magic = s.manager.magic in
      if packet_type == magic.handshake_init
      then on_relayed_initiation N now draw pkt.from_key payload s
      else if packet_type == magic.handshake_resp
      then (quiet, on_relayed_response N now draw pkt.from_key packet_type payload s)
      else if packet_type == magic.data_byte
      then on_relayed_data N now draw pkt.from_key payload s
      else (quiet, s)
]

-- One round of `rx_forward`: the packet is counted, then processed.
unfoldable pub on_relayed :
    {H T : Type 0} → Noise H T → ℕ → Draw → RelayedPacket → Shared H T → Output × Shared H T
unfolding process_relayed_packet
on_relayed N now draw pkt s =
    process_relayed_packet N now draw pkt
      (record s { metrics = add_rx (length pkt.payload) s.metrics })
