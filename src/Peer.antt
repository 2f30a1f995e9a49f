-- ===== src/Peer.antt =====
-- src/peer.rs: one peer, its two sessions and its handshake. A method takes the instant at which it
-- runs as `now`, and what it draws of the random generator; it returns its result and the new peer.
pub mod Transport
pub mod Replay
pub mod Routing
pub mod Nonces
pub mod Authentic
pub mod Lifecycle
pub mod Handshake
pub mod Plain
pub mod Sound
pub mod Typed
pub mod Calls
pub mod Moves
pub mod Tracked
pub mod Shut
pub mod Once
mod Examples
use mesh_vpn.Base.{
  ℕ, zero, suc, ◌+◌, ◌-◌, ◌%◌, Bool, true, false, ◌&&◌, ◌||◌, not, Option, none, some, List, [],
  ◌∷◌, ◌++◌, Bytes, u64_mod, ltb, leb, ◌==◌, if◌then◌else◌, length, take, drop, ite, map,
}
use mesh_vpn.Net.{SocketAddr, elapsed_secs, to_be_bytes, from_be_bytes, Draw, Noise, Bytes-discrete}
use mesh_vpn.Packet.{Ipv4Subnet, parse_ipv4_total_length}
use mesh_vpn.Session.{ReplayWindow, check_and_update}
use mesh_vpn.Session
use mesh_vpn.Text.{◌>>=◌}

-- `MagicConfig` of src/daemon.rs: the type bytes of the four kinds of packets.
pub record MagicConfig : Type 0 where
  pub handshake_init : ℕ
  pub handshake_resp : ℕ
  pub data_byte : ℕ
  pub probe : ℕ

abbrev pub default_magic : MagicConfig
default_magic = record { handshake_init = 1; handshake_resp = 2; data_byte = 3; probe = 4 }

pub record ActiveSession (T : Type 0) : Type 0 where
  pub state : T
  pub tx_nonce : ℕ
  pub established_at : ℕ
  pub tx_bytes : ℕ
  pub rx_bytes : ℕ
  pub replay : ReplayWindow

pub record Peer (H T : Type 0) : Type 0 where
  pub pubkey : Bytes
  pub endpoint : Option SocketAddr
  pub allowed_ips : List Ipv4Subnet
  pub active : Option (ActiveSession T)
  pub previous : Option (ActiveSession T)
  pub handshake : Option H
  pub last_handshake_attempt : Option ℕ
  pub last_handshake_packet : Option Bytes
  pub last_rx : ℕ
  pub last_tx : ℕ
  pub last_direct_rx : ℕ
  pub magic : MagicConfig

pub data OutboundDest : Type 0 where
  udp : SocketAddr → OutboundDest
  relay : Bytes → OutboundDest

abbrev pub is_some {ℓ} : {A : Type ℓ} → Option A → Bool
is_some none = false
is_some (some a) = true

abbrev pub is_none {ℓ} : {A : Type ℓ} → Option A → Bool
is_none none = true
is_none (some a) = false

abbrev pub is_empty {ℓ} : {A : Type ℓ} → List A → Bool
is_empty [] = true
is_empty (x ∷ xs) = false

abbrev pub add_u64 : ℕ → ℕ → ℕ
add_u64 a b = (a + b) % u64_mod

-- `payload[..n.min(payload.len())]` is `take n payload`.
abbrev pub init_message_len : ℕ
init_message_len = 96

abbrev pub resp_message_len : ℕ
resp_message_len = 48

-- A session as each handshake starts it.
abbrev pub fresh_session : {T : Type 0} → ℕ → T → ActiveSession T
fresh_session now t = record {
  state = t;
  tx_nonce = 0;
  established_at = now;
  tx_bytes = 0;
  rx_bytes = 0;
  replay = Session.new;
}

module _ {H T : Type 0} where
  unfoldable pub new : ℕ → Bytes → Option SocketAddr → List Ipv4Subnet → Peer H T
  new now pubkey endpoint allowed_ips = record {
    pubkey = pubkey;
    endpoint = endpoint;
    allowed_ips = allowed_ips;
    active = none;
    previous = none;
    handshake = none;
    last_handshake_attempt = none;
    last_handshake_packet = none;
    last_rx = now;
    last_tx = now;
    last_direct_rx = now;
    magic = default_magic;
  }

  -- The code copies the key into 32 bytes: `parse_peer_arg` lets no other length through.
  unfoldable pub determine_dest : ℕ → Bool → Peer H T → Option OutboundDest
  determine_dest now has_relay p =
      if has_relay && (is_none p.endpoint || leb 10 (elapsed_secs now p.last_direct_rx))
      then some (relay p.pubkey)
      else elim p.endpoint [ none ↦ none | some addr ↦ some (udp addr) ]

  -- The end of a handshake: the active session, if any, becomes the previous one.
  unfoldable pub establish : ℕ → T → Peer H T → Peer H T
  establish now t p = record p {
    previous = elim p.active [ none ↦ p.previous | some s ↦ some s ];
    active = some (fresh_session now t);
    last_rx = now;
    last_tx = now;
  }

  -- Previous sessions live 15 seconds; an active one rotates after 120 seconds or 10^9 bytes.
  unfoldable pub check_rotation : ℕ → Peer H T → Bool × Peer H T
  check_rotation now p = (
    elim p.active [
      | none ↦ false
      | some s ↦ ltb 120 (elapsed_secs now s.established_at) || ltb 1_000_000_000 s.tx_bytes
    ],
    record p {
      previous = elim p.previous [
        | none ↦ none
        | some s ↦ if leb 15 (elapsed_secs now s.established_at) then none else some s
      ];
    },
  )

-- What is padded is cut back to the total length of its IPv4 header.
unfoldable pub strip_padding : Bytes → Bytes
strip_padding plaintext =
    if is_empty plaintext then plaintext else elim (parse_ipv4_total_length plaintext) [
      | none ↦ plaintext
      | some total_len ↦
          if leb total_len (length plaintext) then take total_len plaintext else plaintext
    ]

unfoldable pub pad : Bytes → Bytes → Bytes
pad padding payload =
    if not (is_empty payload) && is_some (parse_ipv4_total_length payload)
    then payload ++ padding
    else payload

-- What the code does with a plaintext that a session has authenticated.
unfoldable pub receive :
    {T : Type 0} → ℕ → ℕ → Bytes → ActiveSession T → Option Bytes × ActiveSession T
receive nonce payload_len plaintext s =
    let (replay, is_new) = check_and_update s.replay nonce in
    if is_new
    then (
      some (strip_padding plaintext),
      record s { replay = replay; rx_bytes = add_u64 s.rx_bytes payload_len },
    )
    else (none, record s { replay = replay })

module _ {H T : Type 0} (N : Noise H T) where
  open N use {
    build_initiator, build_responder, write_handshake, read_handshake, remote_static,
    into_transport, write_transport, read_transport,
  }

  unfoldable pub initiate_handshake : ℕ → Draw → Bytes → Peer H T → Option Bytes × Peer H T
  initiate_handshake now draw local_priv p =
      elim (build_initiator draw.seed local_priv p.pubkey >>= λ hs. write_handshake hs 128) [
        | none ↦ (none, p)
        | some (msg, hs) ↦
            let packet = p.magic.handshake_init ∷ (msg ++ draw.padding) in
            (
              some packet,
              record p {
                handshake = some hs;
                last_handshake_attempt = some now;
                last_handshake_packet = some packet;
                last_tx = now;
              },
            )
      ]

  -- A responder that has read an initiation: its key, and the state to answer from.
  unfoldable pub read_initiation : Draw → Bytes → Bytes → Option (Bytes × H)
  read_initiation draw local_priv payload = do
    hs ← build_responder draw.seed local_priv
    let (good, hs') = read_handshake hs (take init_message_len payload) 128
    key ← if good then remote_static hs' else none
    some (key, hs')

  -- The answer to an initiation, and the transport state that it leads to.
  unfoldable pub answer : Draw → MagicConfig → H → Option (Bytes × T)
  answer draw magic hs = do
    (msg, hs') ← write_handshake hs 128
    t ← into_transport hs'
    some (magic.handshake_resp ∷ (msg ++ draw.padding), t)

  -- `handle_handshake_packet`, for an initiation.
  unfoldable pub respond : ℕ → Draw → Bytes → Bytes → Peer H T → Option Bytes × Peer H T
  unfolding read_initiation answer
  respond now draw local_priv payload p = elim (read_initiation draw local_priv payload) [
    | none ↦ (none, p)
    | some (key, hs) ↦
        ite (Bytes-discrete key p.pubkey)
          (elim (answer draw p.magic hs) [
            | none ↦ (none, p)
            | some (packet, t) ↦ (some packet, establish now t p)
          ])
          (none, p)
  ]

  -- `handle_handshake_packet`, for a response.
  unfoldable pub finish : ℕ → Bytes → Peer H T → Peer H T
  unfolding establish
  finish now payload p = elim p.handshake [
    | none ↦ p
    | some hs ↦
        let (good, hs') = read_handshake hs (take resp_message_len payload) 128 in
        if good
        then elim (into_transport hs') [
          | none ↦ record p { handshake = none }
          | some t ↦ record (establish now t p) {
            handshake = none;
            last_handshake_attempt = none;
            last_handshake_packet = none;
          }
        ]
        else record p { handshake = some hs' }
  ]

  unfoldable pub handle_handshake_packet :
      ℕ → Draw → Bytes → ℕ → Bytes → Peer H T → Option Bytes × Peer H T
  unfolding respond finish
  handle_handshake_packet now draw local_priv packet_type payload p =
      if packet_type == p.magic.handshake_init
      then respond now draw local_priv payload p
      else if packet_type == p.magic.handshake_resp
      then (none, finish now payload p)
      else (none, p)

  unfoldable pub encrypt_packet : ℕ → Draw → Bytes → Peer H T → Option Bytes × Peer H T
  unfolding pad
  encrypt_packet now draw payload p = elim p.active [
    | none ↦ (none, p)
    | some s ↦
        let nonce = s.tx_nonce in
        let sent : ActiveSession T = record s {
          tx_nonce = add_u64 s.tx_nonce 1;
          tx_bytes = add_u64 s.tx_bytes (length payload);
        } in
        let padded = pad draw.padding payload in
        elim (write_transport s.state nonce padded (length padded + 16)) [
          | none ↦ (none, record p { active = some sent })
          | some ciphertext ↦ (
            some (p.magic.data_byte ∷ (to_be_bytes 8 nonce ++ ciphertext)),
            record p { active = some sent; last_tx = now },
          )
        ]
  ]

  -- The previous session is tried for 15 seconds.
  unfoldable pub decrypt_previous : ℕ → ℕ → Bytes → ℕ → Peer H T → Option Bytes × Peer H T
  unfolding receive
  decrypt_previous now nonce ciphertext payload_len p = elim p.previous [
    | none ↦ (none, p)
    | some s ↦
        if ltb (elapsed_secs now s.established_at) 15
        then elim (read_transport s.state nonce ciphertext (length ciphertext - 16)) [
          | none ↦ (none, p)
          | some plaintext ↦
              let (result, s') = receive nonce payload_len plaintext s in
              (
                result,
                record p {
                  previous = some s';
                  last_rx = if is_some result then now else p.last_rx;
                },
              )
        ]
        else (none, p)
  ]

  unfoldable pub decrypt_active : ℕ → ℕ → Bytes → ℕ → Peer H T → Option Bytes × Peer H T
  unfolding decrypt_previous receive
  decrypt_active now nonce ciphertext payload_len p = elim p.active [
    | none ↦ decrypt_previous now nonce ciphertext payload_len p
    | some s ↦ elim (read_transport s.state nonce ciphertext (length ciphertext - 16)) [
      | none ↦ decrypt_previous now nonce ciphertext payload_len p
      | some plaintext ↦
          let (result, s') = receive nonce payload_len plaintext s in
          (
            result,
            record p { active = some s'; last_rx = if is_some result then now else p.last_rx },
          )
    ]
  ]

  unfoldable pub decrypt_packet : ℕ → Bytes → Peer H T → Option Bytes × Peer H T
  unfolding decrypt_active
  decrypt_packet now payload p =
      if ltb (length payload) 8
      then (none, p)
      else (let ciphertext = drop 8 payload in
          if ltb (length ciphertext) 16
          then (none, p)
          else decrypt_active now (from_be_bytes (take 8 payload)) ciphertext (length payload) p)
