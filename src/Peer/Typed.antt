-- ===== src/Peer/Typed.antt =====
-- What the types of src/peer.rs promise of a peer and the model's numbers and lists do not: the key's 32
-- bytes, subnets of 32 bits, and counters of 64 bits. Every method keeps it.
use mesh_vpn.Base.{
  ℕ, ◌-◌, ◌<◌, ◌≡◌, Option, none, some, Bytes, u64_mod, length, take, drop, arith, Option-cases,
  inl, inr,
}
use mesh_vpn.Net.{Draw, Noise, from_be_bytes}
use mesh_vpn.Packet.Ranges.{HaveRanges}
use mesh_vpn.Peer.{
  Peer, ActiveSession, receive, decrypt_packet, decrypt_active, decrypt_previous, encrypt_packet,
  establish, read_initiation, answer, respond, finish, handle_handshake_packet, initiate_handshake,
  check_rotation,
}

abbrev pub HasCounters : {T : Type 0} → Option (ActiveSession T) → Type 0
HasCounters none = Unit
HasCounters (some s) = (s.tx_nonce < u64_mod) × (s.tx_bytes < u64_mod) × (s.rx_bytes < u64_mod)

pub record IsTyped {H T : Type 0} (p : Peer H T) : Type 0 where
  pub key : length p.pubkey ≡ 32
  pub subnets : HaveRanges p.allowed_ips
  pub active_counters : HasCounters p.active
  pub previous_counters : HasCounters p.previous

receive-HasCounters :
    {T : Type 0} (nonce len : ℕ) (text : Bytes) (s : ActiveSession T)
    → HasCounters (some s)
    → HasCounters (some (receive nonce len text s).1)
unfolding receive
receive-HasCounters nonce len text s v = ground arith

module _ {H T : Type 0} where
  pub establish-IsTyped : (now : ℕ) (t : T) (p : Peer H T) → IsTyped p → IsTyped (establish now t p)
  unfolding establish
  establish-IsTyped now t p v = ground arith

  pub check_rotation-IsTyped :
      (now : ℕ) (p : Peer H T) → IsTyped p → IsTyped (check_rotation now p).1
  unfolding check_rotation
  check_rotation-IsTyped now p v = ground arith

module _ {H T : Type 0} (N : Noise H T) where
  pub initiate_handshake-IsTyped :
      (now : ℕ) (draw : Draw) (priv : Bytes) (p : Peer H T)
      → IsTyped p
      → IsTyped (initiate_handshake N now draw priv p).1
  unfolding initiate_handshake
  initiate_handshake-IsTyped now draw priv p v = ground arith

  finish-IsTyped :
      (now : ℕ) (payload : Bytes) (p : Peer H T) → IsTyped p → IsTyped (finish N now payload p)
  unfolding finish establish
  finish-IsTyped now payload p v = ground arith

  respond-IsTyped :
      (now : ℕ) (draw : Draw) (priv payload : Bytes) (p : Peer H T)
      → IsTyped p
      → IsTyped (respond N now draw priv payload p).1
  unfolding respond
  respond-IsTyped now draw priv payload p v =
      elim (Option-cases (read_initiation N draw priv payload)) [
        | inl r ↦ ground (arith, r)
        | inr ((key, hs), r) ↦ elim (Option-cases (answer N draw p.magic hs)) [
          | inl a ↦ ground (arith, r, a)
          | inr ((packet, t), a) ↦ ground (arith, r, a, establish-IsTyped now t p v)
        ]
      ]

  pub handle_handshake_packet-IsTyped :
      (now : ℕ) (draw : Draw) (priv : Bytes) (kind : ℕ) (payload : Bytes) (p : Peer H T)
      → IsTyped p
      → IsTyped (handle_handshake_packet N now draw priv kind payload p).1
  unfolding handle_handshake_packet
  handle_handshake_packet-IsTyped now draw priv kind payload p v =
      ground (arith, respond-IsTyped now draw priv payload p v, finish-IsTyped now payload p v)

  pub encrypt_packet-IsTyped :
      (now : ℕ) (draw : Draw) (payload : Bytes) (p : Peer H T)
      → IsTyped p
      → IsTyped (encrypt_packet N now draw payload p).1
  unfolding encrypt_packet
  encrypt_packet-IsTyped now draw payload p v = ground arith

  decrypt_previous-IsTyped :
      (now nonce len : ℕ) (c : Bytes) (p : Peer H T)
      → IsTyped p
      → IsTyped (decrypt_previous N now nonce c len p).1
  unfolding decrypt_previous
  decrypt_previous-IsTyped now nonce len c p v = elim (Option-cases p.previous) [
    | inl e ↦ ground (arith, e)
    | inr (s, e) ↦ elim (Option-cases (N.read_transport s.state nonce c (length c - 16))) [
      | inl r ↦ ground (arith, e, r)
      | inr (text, r) ↦ ground (arith, e, r, receive-HasCounters nonce len text s)
    ]
  ]

  decrypt_active-IsTyped :
      (now nonce len : ℕ) (c : Bytes) (p : Peer H T)
      → IsTyped p
      → IsTyped (decrypt_active N now nonce c len p).1
  unfolding decrypt_active
  decrypt_active-IsTyped now nonce len c p v = elim (Option-cases p.active) [
    | inl e ↦ ground (arith, e, decrypt_previous-IsTyped now nonce len c p v)
    | inr (s, e) ↦ elim (Option-cases (N.read_transport s.state nonce c (length c - 16))) [
      | inl r ↦ ground (arith, e, r, decrypt_previous-IsTyped now nonce len c p v)
      | inr (text, r) ↦ ground (arith, e, r, receive-HasCounters nonce len text s)
    ]
  ]

  pub decrypt_packet-IsTyped :
      (now : ℕ) (payload : Bytes) (p : Peer H T)
      → IsTyped p
      → IsTyped (decrypt_packet N now payload p).1
  unfolding decrypt_packet
  decrypt_packet-IsTyped now payload p v = ground (
    arith,
    decrypt_active-IsTyped now (from_be_bytes (take 8 payload)) (length payload) (drop 8 payload) p
        v,
  )
