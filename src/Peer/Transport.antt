-- ===== src/Peer/Transport.antt =====
-- The data packets of src/peer.rs: what one side encrypts the other decrypts, once.
use mesh_vpn.Base.{
  ℕ, ◌+◌, ◌-◌, ◌≤◌, ◌<◌, ◌≡◌, refl, ◌∙◌, ap, sym, inl, inr, true, some, [], ◌∷◌, ◌++◌, Bytes,
  u64_mod, length, drop, length-append, take-append_left, drop-append_left, arith, le→ltb,
  Option-cases,
}
use mesh_vpn.Net.{
  Draw, Noise, to_be_bytes, from_be_bytes, length-to_be_bytes, from_be_bytes-to_be_bytes,
}
use mesh_vpn.Packet.{parse_ipv4_total_length}
use mesh_vpn.Packet.Header.{total_length-append}
use mesh_vpn.Session.{check_and_update}
use mesh_vpn.Peer.{
  Peer, ActiveSession, strip_padding, pad, receive, encrypt_packet, decrypt_packet, decrypt_active,
}

-- A packet that states its own length, or states none.
abbrev pub IsSized : Bytes → Type 0
IsSized payload = (n : ℕ) → parse_ipv4_total_length payload ≡ some n → n ≡ length payload

pub strip_padding-pad :
    (padding payload : Bytes) → IsSized payload → strip_padding (pad padding payload) ≡ payload
unfolding strip_padding pad
strip_padding-pad padding [] h = refl
strip_padding-pad padding (c ∷ s) h = elim (Option-cases (parse_ipv4_total_length (c ∷ s))) [
  | inl e ↦ ground (arith, e)
  | inr (n, e) ↦ ground (
    arith,
    e,
    h n e,
    total_length-append (c ∷ s) padding n e,
    length-append (c ∷ s) padding,
    take-append_left (c ∷ s) padding n (h n e),
  )
]

module _ {H T : Type 0} (N : Noise H T) where
  -- What the transport states of one handshake promise: what `s` writes, `r` reads back, and the
  -- authentication tag takes 16 bytes.
  abbrev pub Pairs : T → T → Type 0
  Pairs s r =
      (nonce : ℕ) (plaintext ciphertext : Bytes)
      → N.write_transport s nonce plaintext (length plaintext + 16) ≡ some ciphertext
      → (length ciphertext ≡ length plaintext + 16)
        × (N.read_transport r nonce ciphertext (length plaintext) ≡ some plaintext)

  -- A packet of an active session: its type byte, its nonce and the ciphertext of the padded payload.
  pub encrypt_packet-lem :
      (now : ℕ) (draw : Draw) (payload packet : Bytes) (p : Peer H T) (s : ActiveSession T)
      → p.active ≡ some s
      → (encrypt_packet N now draw payload p).0 ≡ some packet
      → (c : Bytes) × (packet ≡ p.magic.data_byte ∷ (to_be_bytes 8 s.tx_nonce ++ c))
        × (N.write_transport s.state s.tx_nonce
              (pad draw.padding payload)
              (length (pad draw.padding payload) + 16)
            ≡ some c)
  unfolding encrypt_packet
  encrypt_packet-lem now draw payload packet p s e h =
      elim (Option-cases (
        N.write_transport s.state s.tx_nonce (pad draw.padding payload)
          (length (pad draw.padding payload) + 16))) [
            | inl w ↦ absurd (ground (arith, e, w))
            | inr (c, w) ↦ (c, ground (arith, e, w), w)
          ]

  -- A payload is its nonce of eight bytes and its ciphertext.
  pub decrypt_packet-append :
      (now : ℕ) (b c : Bytes) (q : Peer H T)
      → length b ≡ 8
      → 16 ≤ length c
      → decrypt_packet N now (b ++ c) q
        ≡ decrypt_active N now (from_be_bytes b) c (length (b ++ c)) q
  unfolding decrypt_packet
  decrypt_packet-append now b c q l long = rw (
    le→ltb (length (b ++ c)) 8 (omega (arith, length-append b c)),
    take-append_left b c 8 (sym l),
    drop-append_left b c 8 (sym l),
    le→ltb (length c) 16 long,
  )

  decrypt_active-lem :
      (now nonce len : ℕ) (c plain : Bytes) (q : Peer H T) (r : ActiveSession T)
      → q.active ≡ some r
      → N.read_transport r.state nonce c (length c - 16) ≡ some plain
      → (check_and_update r.replay nonce).1 ≡ true
      → (decrypt_active N now nonce c len q).0 ≡ some (strip_padding plain)
  unfolding decrypt_active receive
  decrypt_active-lem now nonce len c plain q r e reads isnew = ground (arith, e, reads, isnew)

  -- Two peers whose active sessions pair: for a payload that is empty, no IPv4 packet, or an IPv4
  -- packet of the length that its header states, what one encrypts the other decrypts to the payload,
  -- provided that the nonce fits 64 bits and is new to the receiver.
  pub decrypt-encrypt :
      (now later : ℕ) (draw : Draw) (payload packet : Bytes) (p q : Peer H T)
      (s r : ActiveSession T)
      → p.active ≡ some s
      → q.active ≡ some r
      → Pairs s.state r.state
      → IsSized payload
      → s.tx_nonce < u64_mod
      → (check_and_update r.replay s.tx_nonce).1 ≡ true
      → (encrypt_packet N now draw payload p).0 ≡ some packet
      → (decrypt_packet N later (drop 1 packet) q).0 ≡ some payload
  decrypt-encrypt now later draw payload packet p q s r ep eq pairs sized small isnew sent =
      let (c, shape, wrote) = encrypt_packet-lem now draw payload packet p s ep sent in
      let (long, reads) = pairs s.tx_nonce (pad draw.padding payload) c wrote in
      let exact : length c - 16 ≡ length (pad draw.padding payload) = omega (arith, long) in
      ap (λ x. (decrypt_packet N later (drop 1 x) q).0) shape
      ∙ ap (λ x. x.0)
          (decrypt_packet-append later (to_be_bytes 8 s.tx_nonce) c q
            (length-to_be_bytes 8 s.tx_nonce) (omega (arith, long)))
      ∙ decrypt_active-lem later _ _ c (pad draw.padding payload) q r eq
          (rw (from_be_bytes-to_be_bytes 8 s.tx_nonce small, exact) reads)
          (rw (from_be_bytes-to_be_bytes 8 s.tx_nonce small) isnew)
      ∙ ap some (strip_padding-pad draw.padding payload sized)
