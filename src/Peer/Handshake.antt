-- ===== src/Peer/Handshake.antt =====
-- A whole handshake between two peers of src/peer.rs, each seen from the other side.
use mesh_vpn.Base.{
  ℕ, drop, length-append, ◌+◌, ◌<◌, ◌≤◌, ◌-◌, ◌≡◌, refl, sym, ap₂, ◌∙◌, true, none, some, ◌∷◌, ◌++◌,
  Bytes, arith, take, length, take-append_left, u64_mod,
}
use mesh_vpn.Net.{Noise, Draw, to_be_bytes}
use mesh_vpn.Peer.{
  Peer, MagicConfig, ActiveSession, pad, encrypt_packet, decrypt_packet, initiate_handshake,
  read_initiation, answer, finish, fresh_session, establish, init_message_len, resp_message_len,
}
use mesh_vpn.Session
use mesh_vpn.Session.{check_and_update}
use mesh_vpn.Peer.Transport.{Pairs, IsSized, decrypt-encrypt}

-- The transport of the Noise protocol takes messages of at most 65535 bytes, tag included.
abbrev pub Writes : {H T : Type 0} → Noise H T → T → Type 0
Writes N t =
    (nonce : ℕ) (plaintext : Bytes)
    → nonce < u64_mod - 1
    → length plaintext ≤ 65519
    → (c : Bytes) × (N.write_transport t nonce plaintext (length plaintext + 16) ≡ some c)

-- What the IK pattern of the Noise protocol promises of an initiator and a responder that know their
-- own private keys, where the initiator knows the responder's public key: the messages have 96 and 48
-- bytes, each is read by the other side, the responder learns the initiator's key, and the transport
-- states of both sides pair and write.
pub record Completes {H T : Type 0} (N : Noise H T) (seed_i seed_r : ℕ)
    (priv_i priv_r pub_i pub_r : Bytes) : Type 0 where
  pub i0 : H
  pub i1 : H
  pub i2 : H
  pub r0 : H
  pub r1 : H
  pub r2 : H
  pub message : Bytes
  pub reply : Bytes
  pub tr_i : T
  pub tr_r : T
  pub starts : N.build_initiator seed_i priv_i pub_r ≡ some i0
  pub writes : N.write_handshake i0 128 ≡ some (message, i1)
  pub message_len : length message ≡ 96
  pub listens : N.build_responder seed_r priv_r ≡ some r0
  pub reads : N.read_handshake r0 message 128 ≡ (true, r1)
  pub learns : N.remote_static r1 ≡ some pub_i
  pub replies : N.write_handshake r1 128 ≡ some (reply, r2)
  pub reply_len : length reply ≡ 48
  pub ends_r : N.into_transport r2 ≡ some tr_r
  pub reads_reply : N.read_handshake i1 reply 128 ≡ (true, i2)
  pub ends_i : N.into_transport i2 ≡ some tr_i
  pub forth : Pairs N tr_i tr_r
  pub back : Pairs N tr_r tr_i
  pub writes_i : Writes N tr_i
  pub writes_r : Writes N tr_r

-- Any payload of a length that fits goes from the one peer to the other: it is encrypted to a packet,
-- which the other decrypts to the payload.
abbrev pub Talks : {H T : Type 0} → Noise H T → Peer H T → Peer H T → Type 0
Talks N p q =
    (now later : ℕ) (draw : Draw) (payload : Bytes)
    → IsSized payload
    → length payload + length draw.padding ≤ 65519
    → (packet : Bytes) × ((encrypt_packet N now draw payload p).0 ≡ some packet)
      × ((decrypt_packet N later (drop 1 packet) q).0 ≡ some payload)

pub length-pad :
    (padding payload : Bytes) → length (pad padding payload) ≤ length payload + length padding
unfolding pad
length-pad padding payload = ground (arith, length-append payload padding)

encrypt_packet-some :
    {H T : Type 0} (N : Noise H T) (now : ℕ) (draw : Draw) (payload c : Bytes) (p : Peer H T)
    (s : ActiveSession T)
    → p.active ≡ some s
    → N.write_transport s.state s.tx_nonce
        (pad draw.padding payload)
        (length (pad draw.padding payload) + 16)
      ≡ some c
    → (encrypt_packet N now draw payload p).0
      ≡ some (p.magic.data_byte ∷ (to_be_bytes 8 s.tx_nonce ++ c))
unfolding encrypt_packet
encrypt_packet-some N now draw payload c p s a w = ground (arith, a, w)

-- What a fresh session receives first is new.
first-is_new : (check_and_update Session.new 0).1 ≡ true
unfolding check_and_update Session.new
first-is_new = refl

-- Peers whose active sessions are fresh and pair can talk.
pub fresh-Talks :
    {H T : Type 0} (N : Noise H T) (p q : Peer H T) (s r : T) (t u : ℕ)
    → p.active ≡ some (fresh_session t s)
    → q.active ≡ some (fresh_session u r)
    → Pairs N s r
    → Writes N s
    → Talks N p q
fresh-Talks N p q s r t u a b pairs writes now later draw payload sized fits =
    let (c, w) =
      writes 0 (pad draw.padding payload) (omega arith)
        (omega (arith, fits, length-pad draw.padding payload)) in
    let sent = encrypt_packet-some N now draw payload c p (fresh_session t s) a w in
    (
      p.magic.data_byte ∷ (to_be_bytes 8 0 ++ c),
      sent,
      decrypt-encrypt N now later draw payload _ p q (fresh_session t s) (fresh_session u r) a b
          pairs sized (omega arith) first-is_new sent,
    )

module _ {H T : Type 0} (N : Noise H T) (seed_i seed_r : ℕ) (priv_i priv_r pub_i pub_r : Bytes)
    (c : Completes N seed_i seed_r priv_i priv_r pub_i pub_r) where
  -- The padding behind a message is cut off before it is read.
  cut_message : (padding : Bytes) → take init_message_len (c.message ++ padding) ≡ c.message
  cut_message padding = take-append_left c.message padding 96 (sym c.message_len)

  cut_reply : (padding : Bytes) → take resp_message_len (c.reply ++ padding) ≡ c.reply
  cut_reply padding = take-append_left c.reply padding 48 (sym c.reply_len)

  pub initiate_handshake-Completes :
      (now : ℕ) (draw : Draw) (p : Peer H T)
      → draw.seed ≡ seed_i
      → p.pubkey ≡ pub_r
      → initiate_handshake N now draw priv_i p ≡ (
        some (p.magic.handshake_init ∷ (c.message ++ draw.padding)),
        record p {
          handshake = some c.i1;
          last_handshake_attempt = some now;
          last_handshake_packet = some (p.magic.handshake_init ∷ (c.message ++ draw.padding));
          last_tx = now;
        },
      )
  unfolding initiate_handshake
  initiate_handshake-Completes now draw p s k =
      let built : N.build_initiator draw.seed priv_i p.pubkey ≡ some c.i0 =
        ap₂ (λ x y. N.build_initiator x priv_i y) s k ∙ c.starts in
      ground (arith, built, c.writes)

  pub read_initiation-Completes :
      (draw : Draw) (padding : Bytes)
      → draw.seed ≡ seed_r
      → read_initiation N draw priv_r (c.message ++ padding) ≡ some (pub_i, c.r1)
  unfolding read_initiation
  read_initiation-Completes draw padding s =
      rw (s, c.listens, cut_message padding, c.reads, c.learns) refl

  pub answer-Completes :
      (draw : Draw) (magic : MagicConfig)
      → answer N draw magic c.r1 ≡ some (magic.handshake_resp ∷ (c.reply ++ draw.padding), c.tr_r)
  unfolding answer
  answer-Completes draw magic = rw (c.replies, c.ends_r) refl

  pub finish-Completes :
      (now : ℕ) (padding : Bytes) (p : Peer H T)
      → p.handshake ≡ some c.i1
      → finish N now (c.reply ++ padding) p ≡ record (establish now c.tr_i p) {
        handshake = none;
        last_handshake_attempt = none;
        last_handshake_packet = none;
      }
  unfolding finish
  finish-Completes now padding p h =
      let go = cut_reply padding in ground (arith, h, go, c.reads_reply, c.ends_i)
