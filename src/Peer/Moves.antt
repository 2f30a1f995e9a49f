-- ===== src/Peer/Moves.antt =====
-- What a call does to the two sessions of a peer of src/peer.rs.
use mesh_vpn.Base.{
  ℕ, ◌-◌, ◌≡◌, refl, ap, ◌⊎◌, inl, inr, ◌∙◌, Bool, true, false, ltb, leb, ◌==◌, subst, Option, none,
  some, Bytes, length, arith, Option-cases, Bool-cases, take, drop,
}
use mesh_vpn.Net.{Draw, Noise, from_be_bytes, Bytes-discrete, elapsed_secs}
use mesh_vpn.Session.{check_and_update}
use mesh_vpn.Peer.{
  Peer, ActiveSession, receive, establish, respond, finish, read_initiation, answer,
  initiate_handshake, handle_handshake_packet, encrypt_packet, decrypt_previous, decrypt_active,
  decrypt_packet, check_rotation, resp_message_len, add_u64,
}
use mesh_vpn.Peer.Authentic.{read_initiation-Authenticates, answer-Answers}
use mesh_vpn.Peer.Replay.{active-Passes}
use mesh_vpn.Peer.Calls.{
  Call, initiates, shakes, encrypts, decrypts, rotates, forgets, touches, call, LeadsTo, Leads,
}

-- The same transport state, and a window that has seen at most one nonce more.
pub record Continues {T : Type 0} (s s' : ActiveSession T) : Type 0 where
  pub state : s'.state ≡ s.state
  pub window : (s'.replay ≡ s.replay) ⊎ ((n : ℕ) × (s'.replay ≡ (check_and_update s.replay n).0))

-- The active session, which no method drops.
abbrev pub GoesOn : {T : Type 0} → Option (ActiveSession T) → Option (ActiveSession T) → Type 0
GoesOn none none = Unit
GoesOn none (some s') = ⊥
GoesOn (some s) none = ⊥
GoesOn (some s) (some s') = Continues s s'

-- The previous session, which may be dropped.
abbrev pub Remains : {T : Type 0} → Option (ActiveSession T) → Option (ActiveSession T) → Type 0
Remains o none = Unit
Remains none (some s') = ⊥
Remains (some s) (some s') = Continues s s'

-- Both sessions stay; or a handshake has put a new one in place of the active one, which is now the
-- previous one; or there is none left.
pub data Move {H T : Type 0} (P : T → Type 0) (p q : Peer H T) : Type 0 where
  stays : GoesOn p.active q.active → Remains p.previous q.previous → Move P p q
  renews :
      (now : ℕ) (t : T)
      → P t
      → q.active ≡ (establish now t p).active
      → q.previous ≡ (establish now t p).previous
      → Move P p q
  drops : q.active ≡ none → q.previous ≡ none → Move P p q

module _ {T : Type 0} where
  Continues-same : (s : ActiveSession T) → Continues s s
  Continues-same s = record { state = refl; window = inl refl }

  GoesOn-same : (o o' : Option (ActiveSession T)) → o' ≡ o → GoesOn o o'
  GoesOn-same none o' e = rw e tt
  GoesOn-same (some s) o' e = rw e (Continues-same s)

  Remains-same : (o o' : Option (ActiveSession T)) → o' ≡ o → Remains o o'
  Remains-same none o' e = rw e tt
  Remains-same (some s) o' e = rw e (Continues-same s)

  GoesOn-some :
      (o o' : Option (ActiveSession T)) (s s' : ActiveSession T)
      → o ≡ some s
      → o' ≡ some s'
      → Continues s s'
      → GoesOn o o'
  GoesOn-some o o' s s' e e' c = rw (e, e') c

  Remains-some :
      (o o' : Option (ActiveSession T)) (s s' : ActiveSession T)
      → o ≡ some s
      → o' ≡ some s'
      → Continues s s'
      → Remains o o'
  Remains-some o o' s s' e e' c = rw (e, e') c

  receive-Continues :
      (nonce len : ℕ) (text : Bytes) (s : ActiveSession T)
      → Continues s (receive nonce len text s).1
  unfolding receive
  receive-Continues nonce len text s = record {
    state = ground arith;
    window = inr (nonce, ground arith);
  }

module _ {H T : Type 0} (N : Noise H T) (P : T → Type 0) where
  same-Move : (p q : Peer H T) → q.active ≡ p.active → q.previous ≡ p.previous → Move P p q
  same-Move p q a b = stays (GoesOn-same p.active q.active a) (Remains-same p.previous q.previous b)

  encrypt_packet-Move :
      (now : ℕ) (draw : Draw) (payload : Bytes) (p : Peer H T)
      → Move P p (encrypt_packet N now draw payload p).1
  unfolding encrypt_packet
  encrypt_packet-Move now draw payload p = go p.active refl
    where
      sent : ActiveSession T → ActiveSession T
      sent s = record s {
        tx_nonce = add_u64 s.tx_nonce 1;
        tx_bytes = add_u64 s.tx_bytes (length payload);
      }

      go :
          (o : Option (ActiveSession T))
          → p.active ≡ o
          → Move P p (encrypt_packet N now draw payload p).1
      go none e = same-Move p _ (ground (arith, e)) (ground (arith, e))
      go (some s) e =
          stays
            (GoesOn-some p.active _ s (sent s) e (ground (arith, e))
              (record { state = refl; window = inl refl }))
            (Remains-same p.previous _ (ground (arith, e)))

  decrypt_previous-Move :
      (now nonce len : ℕ) (c : Bytes) (p : Peer H T)
      → Move P p (decrypt_previous N now nonce c len p).1
  unfolding decrypt_previous
  decrypt_previous-Move now nonce len c p = go p.previous refl
    where
      go :
          (o : Option (ActiveSession T))
          → p.previous ≡ o
          → Move P p (decrypt_previous N now nonce c len p).1
      go none e = same-Move p _ (ground (arith, e)) (ground (arith, e))
      go (some s) e = elim (Bool-cases (ltb (elapsed_secs now s.established_at) 15)) [
        | inr late ↦ same-Move p _ (ground (arith, e, late)) (ground (arith, e, late))
        | inl soon ↦ elim (Option-cases (N.read_transport s.state nonce c (length c - 16))) [
          | inl r ↦ same-Move p _ (ground (arith, e, r)) (ground (arith, e, r))
          | inr (text, r) ↦ stays (GoesOn-same p.active _ (ground (arith, e, soon, r))) (
              Remains-some p.previous _ s (receive nonce len text s).1 e
                (ground (arith, e, soon, r)) (receive-Continues nonce len text s))
        ]
      ]

  pub active_reads :
      (now nonce len : ℕ) (c : Bytes) (p : Peer H T) (s : ActiveSession T) (text : Bytes)
      → p.active ≡ some s
      → N.read_transport s.state nonce c (length c - 16) ≡ some text
      → ((decrypt_active N now nonce c len p).1.active ≡ some (receive nonce len text s).1)
        × ((decrypt_active N now nonce c len p).1.previous ≡ p.previous)
  unfolding decrypt_active
  active_reads now nonce len c p s text e r = (ground (arith, e, r), ground (arith, e, r))

  decrypt_active-Move :
      (now nonce len : ℕ) (c : Bytes) (p : Peer H T)
      → Move P p (decrypt_active N now nonce c len p).1
  decrypt_active-Move now nonce len c p = go p.active refl
    where
      go :
          (o : Option (ActiveSession T))
          → p.active ≡ o
          → Move P p (decrypt_active N now nonce c len p).1
      go none e =
          rw (active-Passes N nonce len c now p none e tt) (decrypt_previous-Move now nonce len c p)
      go (some s) e = elim (Option-cases (N.read_transport s.state nonce c (length c - 16))) [
        | inl r ↦
            rw (active-Passes N nonce len c now p (some s) e r)
              (decrypt_previous-Move now nonce len c p)
        | inr (text, r) ↦
            let (a, b) = active_reads now nonce len c p s text e r in
            stays
              (GoesOn-some p.active _ s (receive nonce len text s).1 e a
                (receive-Continues nonce len text s))
              (Remains-same p.previous _ b)
      ]

  decrypt_packet-Move :
      (now : ℕ) (payload : Bytes) (p : Peer H T) → Move P p (decrypt_packet N now payload p).1
  unfolding decrypt_packet
  decrypt_packet-Move now payload p = elim (Bool-cases (ltb (length payload) 8)) [
    | inl short ↦ rw short (same-Move p p refl refl)
    | inr long ↦ elim (Bool-cases (ltb (length (drop 8 payload)) 16)) [
      | inl short ↦ rw (long, short) (same-Move p p refl refl)
      | inr enough ↦
          rw (long, enough)
            (decrypt_active-Move now (from_be_bytes (take 8 payload)) (length payload)
              (drop 8 payload) p)
    ]
  ]

  respond-Move :
      (now : ℕ) (draw : Draw) (priv payload : Bytes) (p : Peer H T)
      → ((t : T) → LeadsTo N draw priv payload p t → P t)
      → Move P p (respond N now draw priv payload p).1
  unfolding respond
  respond-Move now draw priv payload p h =
      elim (Option-cases (read_initiation N draw priv payload)) [
        | inl r ↦ same-Move p _ (ground (arith, r)) (ground (arith, r))
        | inr ((key, hs), r) ↦ elim (Bytes-discrete key p.pubkey) [
          | no ne ↦ same-Move p _ (ground (arith, r, ne)) (ground (arith, r, ne))
          | yes e ↦ elim (Option-cases (answer N draw p.magic hs)) [
            | inl a ↦ same-Move p _ (ground (arith, r, e, a)) (ground (arith, r, e, a))
            | inr ((packet, t), a) ↦
                renews now t
                  (h t (
                    inl (
                      hs,
                      packet,
                      read_initiation-Authenticates N draw priv payload p.pubkey hs
                          (r ∙ ap (λ k. some (k, hs)) e),
                      answer-Answers N draw p.magic hs packet t a,
                    )))
                  (ground (arith, r, e, a)) (ground (arith, r, e, a))
          ]
        ]
      ]

  finish-Move :
      (now : ℕ) (draw : Draw) (priv payload : Bytes) (p : Peer H T)
      → ((t : T) → LeadsTo N draw priv payload p t → P t)
      → Move P p (finish N now payload p)
  unfolding finish
  finish-Move now draw priv payload p h = elim (Option-cases p.handshake) [
    | inl e ↦ same-Move p _ (ground (arith, e)) (ground (arith, e))
    | inr (hs, e) ↦ read hs e (N.read_handshake hs (take resp_message_len payload) 128) refl
  ]
    where
      read :
          (hs : H)
          → p.handshake ≡ some hs
          → (r : Bool × H) → N.read_handshake hs (take resp_message_len payload) 128 ≡ r
          → Move P p (finish N now payload p)
      read hs e (false, hs') r = same-Move p _ (ground (arith, e, r)) (ground (arith, e, r))
      read hs e (true, hs') r = elim (Option-cases (N.into_transport hs')) [
        | inl none_left ↦
            same-Move p _ (ground (arith, e, r, none_left)) (ground (arith, e, r, none_left))
        | inr (t, made) ↦
            renews now t
              (h t (inr (hs, e, ap (λ x. x.0) r, ap (λ x. N.into_transport x.1) r ∙ made)))
              (ground (arith, e, r, made)) (ground (arith, e, r, made))
      ]

  handle_handshake_packet-Move :
      (now : ℕ) (draw : Draw) (priv : Bytes) (kind : ℕ) (payload : Bytes) (p : Peer H T)
      → ((t : T) → LeadsTo N draw priv payload p t → P t)
      → Move P p (handle_handshake_packet N now draw priv kind payload p).1
  unfolding handle_handshake_packet
  handle_handshake_packet-Move now draw priv kind payload p h =
      elim (Bool-cases (kind == p.magic.handshake_init)) [
        | inl i ↦ rw i (respond-Move now draw priv payload p h)
        | inr i ↦ elim (Bool-cases (kind == p.magic.handshake_resp)) [
          | inl r ↦ rw (i, r) (finish-Move now draw priv payload p h)
          | inr r ↦ rw (i, r) (same-Move p p refl refl)
        ]
      ]

  initiate_handshake-Move :
      (now : ℕ) (draw : Draw) (priv : Bytes) (p : Peer H T)
      → Move P p (initiate_handshake N now draw priv p).1
  unfolding initiate_handshake
  initiate_handshake-Move now draw priv p = same-Move p _ (ground arith) (ground arith)

  check_rotation-Move : (now : ℕ) (p : Peer H T) → Move P p (check_rotation now p).1
  unfolding check_rotation
  check_rotation-Move now p = stays (GoesOn-same p.active _ refl) (left p.previous refl)
    where
      left :
          (o : Option (ActiveSession T))
          → p.previous ≡ o
          → Remains p.previous (check_rotation now p).1.previous
      left none e = Remains-same p.previous _ (ground (arith, e))
      left (some s) e = elim (Bool-cases (leb 15 (elapsed_secs now s.established_at))) [
        | inl old ↦ subst (Remains p.previous) {x = none} (ground (arith, e, old)) tt
        | inr young ↦ Remains-same p.previous _ (ground (arith, e, young))
      ]

  -- Every call moves the sessions, to a new transport state only by a handshake that leads to it.
  pub call-Move : (c : Call) (p : Peer H T) → Leads N P c p → Move P p (call N c p)
  unfolding call Leads
  call-Move (initiates now draw priv) p h = initiate_handshake-Move now draw priv p
  call-Move (shakes now draw priv kind payload) p h =
      handle_handshake_packet-Move now draw priv kind payload p h
  call-Move (encrypts now draw payload) p h = encrypt_packet-Move now draw payload p
  call-Move (decrypts now payload) p h = decrypt_packet-Move now payload p
  call-Move (rotates now) p h = check_rotation-Move now p
  call-Move forgets p h = drops refl refl
  call-Move (touches endpoint ips attempt rx tx direct) p h = same-Move p _ refl refl
