-- ===== src/Daemon/Datagram.antt =====
-- `spawn_udp_to_tun_task` of src/daemon.rs: what one UDP datagram from `addr` does.
-- Its bytes are those in the task's buffer of 2048 bytes, which Daemon/Tunnel fills.
use mesh_vpn.Base.{ℕ, Option, none, some, List, [], ◌∷◌, Bytes, ◌==◌, if◌then◌else◌, length, ite}
use mesh_vpn.Net.{SocketAddr, Noise, Draw, endpoint-discrete}
use mesh_vpn.Peer.{
  Peer, read_initiation, answer, establish, handle_handshake_packet, decrypt_packet, is_some,
  is_empty,
}
use mesh_vpn.Manager.{find_key}
use mesh_vpn.Metrics.{add_rx, record_handshake_success}
use mesh_vpn.Daemon.State.{Shared, find_addr, put_addr, put_key, with_peers, allowed, count_success}

-- What goes back to the sender, and what goes to the TUN device.
pub record Output : Type 0 where
  pub reply : Option Bytes
  pub deliver : Option Bytes

abbrev pub quiet : Output
quiet = record { reply = none; deliver = none }

module _ {H T : Type 0} (N : Noise H T) (now : ℕ) (draw : Draw) (addr : SocketAddr) where
  -- The peer moves to the sender's address before the answer is built.
  unfoldable pub on_initiation : Bytes → Shared H T → Output × Shared H T
  on_initiation payload s = elim (read_initiation N draw s.manager.local_priv payload) [
    | none ↦ (quiet, s)
    | some (key, hs) ↦ elim (find_key key s.manager.peers) [
      | none ↦ (quiet, s)
      | some p ↦
          let moved : Peer H T = record p { endpoint = some addr; last_direct_rx = now } in
          elim (answer N draw s.manager.magic hs) [
            | none ↦ (quiet, with_peers s (put_key key moved s.manager.peers))
            | some (packet, t) ↦ (
              record quiet { reply = some packet },
              record (with_peers s (put_key key (establish now t moved) s.manager.peers)) {
                metrics = record_handshake_success s.metrics;
              },
            )
          ]
    ]
  ]

  unfoldable pub on_response : ℕ → Bytes → Shared H T → Shared H T
  on_response packet_type payload s = elim (find_addr addr s.manager.peers) [
    | none ↦ s
    | some p ↦
        let (resp, q) =
          handle_handshake_packet N now draw s.manager.local_priv packet_type payload p in
        let heard : Peer H T = record q { last_direct_rx = now } in
        record (with_peers s (put_addr addr heard s.manager.peers)) {
          metrics = count_success p heard s.metrics;
        }
  ]

module _ {H T : Type 0} (N : Noise H T) (now : ℕ) (addr : SocketAddr) where
  -- The first peer at the sender's address.
  unfoldable pub by_endpoint : Bytes → List (Peer H T) → Option Bytes × List (Peer H T)
  by_endpoint payload ps = elim (find_addr addr ps) [
    | none ↦ (none, ps)
    | some p ↦
        let (plaintext, q) = decrypt_packet N now payload p in
        let result = allowed p plaintext in
        let heard : Peer H T = if is_some result then record q { last_direct_rx = now } else q in
        (result, put_addr addr heard ps)
  ]

  -- The trial decryption by all peers that are elsewhere; the first that succeeds has roamed.
  unfoldable pub by_trial : Bytes → List (Peer H T) → Option Bytes × List (Peer H T)
  by_trial payload [] = (none, [])
  by_trial payload (p ∷ ps) =
      let (plaintext, q) = decrypt_packet N now payload p in
      let result = allowed p plaintext in
      let (rest_result, rest) = by_trial payload ps in
      ite (endpoint-discrete p.endpoint (some addr)) (rest_result, p ∷ rest)
        (if is_some result
          then (result, record q { endpoint = some addr; last_direct_rx = now } ∷ ps)
          else (rest_result, q ∷ rest))

  unfoldable pub decrypt_any : Bytes → List (Peer H T) → Option Bytes × List (Peer H T)
  unfolding by_endpoint by_trial
  decrypt_any payload ps =
      let (result, qs) = by_endpoint payload ps in
      if is_some result then (result, qs) else by_trial payload qs

  -- An empty plaintext would not be written to the TUN device.
  unfoldable pub on_data : Bytes → Shared H T → Output × Shared H T
  unfolding decrypt_any
  on_data payload s =
      let (result, ps) = decrypt_any payload s.manager.peers in
      (
        record quiet {
          deliver = elim result [
            | none ↦ none
            | some plaintext ↦ if is_empty plaintext then none else some plaintext
          ];
        },
        with_peers s ps,
      )

module _ {H T : Type 0} (N : Noise H T) (now : ℕ) (draw : Draw) (addr : SocketAddr) where
  -- One datagram, by its type byte; an empty one is skipped. A probe or an unknown type does nothing.
  unfoldable pub on_datagram : Bytes → Shared H T → Output × Shared H T
  on_datagram [] s = (quiet, s)
  on_datagram (packet_type ∷ payload) s =
      let magic = s.manager.magic in
      let counted : Shared H T = record s {
        metrics = add_rx (length (packet_type ∷ payload)) s.metrics;
      } in
      if packet_type == magic.handshake_init
      then on_initiation N now draw addr payload counted
      else if packet_type == magic.handshake_resp
      then (quiet, on_response N now draw addr packet_type payload counted)
      else if packet_type == magic.data_byte
      then on_data N now addr payload counted
      else (quiet, counted)
