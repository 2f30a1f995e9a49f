-- ===== src/Peer/Lifecycle.antt =====
-- The life of a peer's sessions in src/peer.rs: how a handshake may change them, and that no operation
-- damages a replay window.
use mesh_vpn.Base.{
  ℕ, ◌-◌, ◌≡◌, refl, ◌∙◌, ap, ◌⊎◌, inl, inr, ◌≢◌, Bool, true, Option, none, some, Bytes, length,
  arith, Option-cases, Bool-cases, take, drop,
}
use mesh_vpn.Net.{Draw, Noise, from_be_bytes, Bytes-discrete}
use mesh_vpn.Session.Again.{check_and_update-IsValid, new-IsValid}
use mesh_vpn.Peer.Replay.{words, IsValid}
use mesh_vpn.Peer.Authentic.{
  Authenticates, Answers, read_initiation-Authenticates, Authenticates-read_initiation,
  answer-Answers, Answers-answer,
}
use mesh_vpn.Peer.{
  Peer, ActiveSession, receive, decrypt_packet, decrypt_active, decrypt_previous, encrypt_packet,
  establish, fresh_session, read_initiation, answer, respond, finish, initiate_handshake,
  check_rotation, resp_message_len,
}

module _ {H T : Type 0} where
  pub establish-IsValid : (now : ℕ) (t : T) (p : Peer H T) → IsValid p → IsValid (establish now t p)
  unfolding establish
  establish-IsValid now t p v = ground (arith, new-IsValid)

  pub check_rotation-IsValid :
      (now : ℕ) (p : Peer H T) → IsValid p → IsValid (check_rotation now p).1
  unfolding check_rotation
  check_rotation-IsValid now p v = ground arith

words-receive :
    {T : Type 0} (nonce len : ℕ) (text : Bytes) (s : ActiveSession T)
    → words (some s) ≡ 16
    → words (some (receive nonce len text s).1) ≡ 16
unfolding receive
words-receive nonce len text s v = ground (arith, check_and_update-IsValid s.replay nonce v)

module _ {H T : Type 0} (N : Noise H T) where
  pub initiate_handshake-IsValid :
      (now : ℕ) (draw : Draw) (priv : Bytes) (p : Peer H T)
      → IsValid p
      → IsValid (initiate_handshake N now draw priv p).1
  unfolding initiate_handshake
  initiate_handshake-IsValid now draw priv p v = ground arith

  pub finish-IsValid :
      (now : ℕ) (payload : Bytes) (p : Peer H T) → IsValid p → IsValid (finish N now payload p)
  unfolding finish
  finish-IsValid now payload p v = ground (arith, new-IsValid)

  pub respond-IsValid :
      (now : ℕ) (draw : Draw) (priv payload : Bytes) (p : Peer H T)
      → IsValid p
      → IsValid (respond N now draw priv payload p).1
  unfolding respond
  respond-IsValid now draw priv payload p v =
      elim (Option-cases (read_initiation N draw priv payload)) [
        | inl r ↦ ground (arith, r)
        | inr ((key, hs), r) ↦ elim (Option-cases (answer N draw p.magic hs)) [
          | inl a ↦ ground (arith, r, a)
          | inr ((packet, t), a) ↦ ground (arith, r, a, establish-IsValid now t p v)
        ]
      ]

  pub encrypt_packet-IsValid :
      (now : ℕ) (draw : Draw) (payload : Bytes) (p : Peer H T)
      → IsValid p
      → IsValid (encrypt_packet N now draw payload p).1
  unfolding encrypt_packet
  encrypt_packet-IsValid now draw payload p v = ground arith

  decrypt_previous-IsValid :
      (now nonce len : ℕ) (c : Bytes) (p : Peer H T)
      → IsValid p
      → IsValid (decrypt_previous N now nonce c len p).1
  unfolding decrypt_previous
  decrypt_previous-IsValid now nonce len c p v = go p.previous refl
    where
      go :
          (o : Option (ActiveSession T))
          → p.previous ≡ o
          → IsValid (decrypt_previous N now nonce c len p).1
      go none e = ground (arith, e)
      go (some s) e = elim (Option-cases (N.read_transport s.state nonce c (length c - 16))) [
        | inl r ↦ ground (arith, e, r)
        | inr (text, r) ↦ ground (arith, e, r, words-receive nonce len text s)
      ]

  decrypt_active-IsValid :
      (now nonce len : ℕ) (c : Bytes) (p : Peer H T)
      → IsValid p
      → IsValid (decrypt_active N now nonce c len p).1
  unfolding decrypt_active
  decrypt_active-IsValid now nonce len c p v = go p.active refl
    where
      go :
          (o : Option (ActiveSession T))
          → p.active ≡ o
          → IsValid (decrypt_active N now nonce c len p).1
      go none e = ground (arith, e, decrypt_previous-IsValid now nonce len c p v)
      go (some s) e = elim (Option-cases (N.read_transport s.state nonce c (length c - 16))) [
        | inl r ↦ ground (arith, e, r, decrypt_previous-IsValid now nonce len c p v)
        | inr (text, r) ↦ ground (arith, e, r, words-receive nonce len text s)
      ]

  pub decrypt_packet-IsValid :
      (now : ℕ) (payload : Bytes) (p : Peer H T)
      → IsValid p
      → IsValid (decrypt_packet N now payload p).1
  unfolding decrypt_packet
  decrypt_packet-IsValid now payload p v = ground (
    arith,
    decrypt_active-IsValid now (from_be_bytes (take 8 payload)) (length payload) (drop 8 payload) p
        v,
  )

  -- A handshake initiation that is answered: snow's responder reads it without an error and then
  -- knows the peer's own key, writes an answer and goes over into a transport state. The peer then has
  -- a fresh session of that state, whose nonce counter is 0, the session that was active, if any,
  -- becomes the previous one, and no other field changes but the two instants. Any other initiation
  -- leaves the peer as it was and gets no answer.
  pub respond-authentic :
      (now : ℕ) (draw : Draw) (priv payload : Bytes) (p : Peer H T)
      → (((respond N now draw priv payload p ≡ (none, p))
            × ((hs : H) (packet : Bytes) (t : T)
                → Authenticates N draw priv payload p.pubkey hs
                → ¬ Answers N draw p.magic hs packet t))
          ⊎ ((hs : H) × (packet : Bytes) × (t : T) × Authenticates N draw priv payload p.pubkey hs
              × Answers N draw p.magic hs packet t
              × (respond N now draw priv payload p ≡ (
                some packet,
                record p {
                  active = some (fresh_session now t);
                  previous = elim p.active [ none ↦ p.previous | some s ↦ some s ];
                  last_rx = now;
                  last_tx = now;
                },
              ))))
  unfolding respond establish
  respond-authentic now draw priv payload p =
      elim (Option-cases (read_initiation N draw priv payload)) [
        | inl r ↦ inl (
          ground (arith, r),
          λ i packet t f g.
              absurd (cc (r, Authenticates-read_initiation N draw priv payload p.pubkey i f)),
        )
        | inr ((key, hs), r) ↦ elim (Bytes-discrete key p.pubkey) [
          | no ne ↦ inl (
            ground (arith, r, ne),
            λ i packet t f g. absurd (
                let f' = Authenticates-read_initiation N draw priv payload p.pubkey i f in
                ground (arith, r, f', ne)),
          )
          | yes e ↦ elim (Option-cases (answer N draw p.magic hs)) [
            | inl a ↦ inl (
              ground (arith, r, a),
              λ i packet t f g. absurd (
                  let f' = Authenticates-read_initiation N draw priv payload p.pubkey i f in
                  let g' = Answers-answer N draw p.magic i packet t g in
                  ground (arith, r, f', a, g')),
            )
            | inr ((packet, t), a) ↦ inr (
              hs,
              packet,
              t,
              read_initiation-Authenticates N draw priv payload p.pubkey hs
                  (r ∙ ap (λ k. some (k, hs)) e),
              answer-Answers N draw p.magic hs packet t a,
              ground (arith, r, a, e),
            )
          ]
        ]
      ]

  -- No handshake is in progress whose state reads the message and goes over into a transport state.
  abbrev pub Unfinished : ℕ → Bytes → Peer H T → Type 0
  Unfinished now payload p =
      (hs : H) (t : T)
      → p.handshake ≡ some hs
      → (N.read_handshake hs (take resp_message_len payload) 128).0 ≡ true
      → N.into_transport (N.read_handshake hs (take resp_message_len payload) 128).1 ≢ some t

  -- A handshake response keeps the sessions exactly where no handshake is in progress whose state
  -- reads the message and goes over into a transport state; else the peer is in the new session, its
  -- active session, if any, has become the previous one, and no handshake is left to retransmit.
  pub finish-in_progress :
      (now : ℕ) (payload : Bytes) (p : Peer H T)
      → (((finish N now payload p).active ≡ p.active)
          × ((finish N now payload p).previous ≡ p.previous)
          × Unfinished now payload p)
        ⊎ ((hs : H) × (t : T) × (p.handshake ≡ some hs)
            × ((N.read_handshake hs (take resp_message_len payload) 128).0 ≡ true)
            × (N.into_transport (N.read_handshake hs (take resp_message_len payload) 128).1
                ≡ some t)
            × ((finish N now payload p).active ≡ some (fresh_session now t))
            × (p.active ≢ none → (finish N now payload p).previous ≡ p.active)
            × ((finish N now payload p).handshake ≡ none)
            × ((finish N now payload p).last_handshake_packet ≡ none))
  unfolding finish
  finish-in_progress now payload p = go p.handshake refl
    where
      go :
          (o : Option H)
          → p.handshake ≡ o
          → (((finish N now payload p).active ≡ p.active)
              × ((finish N now payload p).previous ≡ p.previous)
              × Unfinished now payload p)
            ⊎ ((hs : H) × (t : T) × (p.handshake ≡ some hs)
                × ((N.read_handshake hs (take resp_message_len payload) 128).0 ≡ true)
                × (N.into_transport (N.read_handshake hs (take resp_message_len payload) 128).1
                    ≡ some t)
                × ((finish N now payload p).active ≡ some (fresh_session now t))
                × (p.active ≢ none → (finish N now payload p).previous ≡ p.active)
                × ((finish N now payload p).handshake ≡ none)
                × ((finish N now payload p).last_handshake_packet ≡ none))
      go none e = inl (ground (arith, e), ground (arith, e), λ i t f r g. absurd (cc (e, f)))
      go (some hs) e =
          let good : Bool = (N.read_handshake hs (take resp_message_len payload) 128).0 in
          let hs' : H = (N.read_handshake hs (take resp_message_len payload) 128).1 in
          elim (Bool-cases good) [
            | inr g ↦ inl (
              ground (arith, e, g),
              ground (arith, e, g),
              λ i t f r h. absurd (ground (arith, e, f, g, r)),
            )
            | inl g ↦ elim (Option-cases (N.into_transport hs')) [
              | inl i ↦ inl (
                ground (arith, e, g, i),
                ground (arith, e, g, i),
                λ j t f r h. absurd (ground (arith, e, f, i, h)),
              )
              | inr (t, i) ↦ inr (
                hs,
                t,
                e,
                g,
                i,
                ground (arith, e, g, i),
                λ h. ground (arith, e, g, i, h),
                ground (arith, e, g, i),
                ground (arith, e, g, i),
              )
            ]
          ]
