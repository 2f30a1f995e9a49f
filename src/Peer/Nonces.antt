-- ===== src/Peer/Nonces.antt =====
-- The nonces of the data packets that a peer of src/peer.rs sends, whatever else is called on it.
use mesh_vpn.Base.{
  ℕ, suc, ◌+◌, ◌≤◌, ◌<◌, ◌≡◌, refl, ◌∙◌, ap, sym, Option, none, some, List, [], ◌∷◌, Bytes, u64_mod,
  length, take, drop, take-append_left, arith, ◌-◌, ◌⊎◌, inl, inr, Option-cases,
}
use mesh_vpn.Net.{
  Draw, Noise, to_be_bytes, from_be_bytes, length-to_be_bytes, from_be_bytes-to_be_bytes,
}
use mesh_vpn.Peer.{
  Peer, ActiveSession, add_u64, encrypt_packet, receive, decrypt_previous, decrypt_active,
  decrypt_packet, respond, finish, handle_handshake_packet, initiate_handshake, check_rotation,
}
use mesh_vpn.Peer.Calls.{
  Call, initiates, shakes, encrypts, decrypts, rotates, forgets, touches, call, LeadsTo, Leads,
  AllLead,
}
use mesh_vpn.Peer.Lifecycle.{respond-authentic, finish-in_progress}
use mesh_vpn.Peer.Transport.{encrypt_packet-lem}

-- The nonce that a data packet carries behind its type byte.
abbrev pub nonce_of : Bytes → ℕ
nonce_of packet = from_be_bytes (take 8 (drop 1 packet))

-- A strictly increasing list that starts at `low` or above.
abbrev pub Increasing : ℕ → List ℕ → Type 0
Increasing low [] = Unit
Increasing low (n ∷ ns) = (low ≤ n) × Increasing (suc n) ns

Increasing-weaken :
    (low high : ℕ) (ns : List ℕ) → low ≤ high → Increasing high ns → Increasing low ns
Increasing-weaken low high [] h v = tt
Increasing-weaken low high (n ∷ ns) h v = (omega (arith, v.0), v.1)

abbrev pub put_nonce : Option Bytes → List ℕ → List ℕ
put_nonce none rest = rest
put_nonce (some packet) rest = nonce_of packet ∷ rest

put_nonce-Increasing :
    (o : Option Bytes) (low : ℕ) (rest : List ℕ)
    → ((packet : Bytes) → o ≡ some packet → nonce_of packet ≡ low)
    → Increasing (suc low) rest
    → Increasing low (put_nonce o rest)
put_nonce-Increasing none low rest h v = Increasing-weaken low (suc low) rest (omega arith) v
put_nonce-Increasing (some packet) low rest h v = rw (h packet refl) (omega arith, v)

-- The counter of a session, if there is one.
abbrev pub counter : {T : Type 0} → Option (ActiveSession T) → Option ℕ
counter none = none
counter (some s) = some s.tx_nonce

module _ {H T : Type 0} (N : Noise H T) where
  -- The packet that a call gives out to be sent.
  abbrev pub gives_out : Call → Peer H T → Option Bytes
  gives_out (initiates now draw priv) p = none
  gives_out (shakes now draw priv kind payload) p = none
  gives_out (encrypts now draw payload) p = (encrypt_packet N now draw payload p).0
  gives_out (decrypts now payload) p = none
  gives_out (rotates now) p = none
  gives_out forgets p = none
  gives_out (touches endpoint ips attempt rx tx direct) p = none

  -- The nonces of the data packets that the calls give out.
  unfoldable pub sent_nonces : List Call → Peer H T → List ℕ
  sent_nonces [] p = []
  sent_nonces (c ∷ cs) p = put_nonce (gives_out c p) (sent_nonces cs (call N c p))

  nonce_of-encrypt_packet :
      (now : ℕ) (draw : Draw) (payload packet : Bytes) (p : Peer H T) (s : ActiveSession T)
      → p.active ≡ some s
      → s.tx_nonce < u64_mod
      → (encrypt_packet N now draw payload p).0 ≡ some packet
      → nonce_of packet ≡ s.tx_nonce
  nonce_of-encrypt_packet now draw payload packet p s e small h =
      let (c, shape, wrote) = encrypt_packet-lem N now draw payload packet p s e h in
      ap nonce_of shape
      ∙ ap from_be_bytes
          (take-append_left (to_be_bytes 8 s.tx_nonce) c 8 (sym (length-to_be_bytes 8 s.tx_nonce)))
      ∙ from_be_bytes-to_be_bytes 8 s.tx_nonce small

  -- A nonce is used up also where the encryption fails.
  counter-encrypt_packet :
      (now : ℕ) (draw : Draw) (payload : Bytes) (p : Peer H T) (s : ActiveSession T)
      → p.active ≡ some s
      → counter (encrypt_packet N now draw payload p).1.active ≡ some (add_u64 s.tx_nonce 1)
  unfolding encrypt_packet
  counter-encrypt_packet now draw payload p s e = ground (arith, e)

  encrypt_packet-silent :
      (now : ℕ) (draw : Draw) (payload : Bytes) (p : Peer H T)
      → p.active ≡ none
      → ((encrypt_packet N now draw payload p).0 ≡ none)
        × ((encrypt_packet N now draw payload p).1.active ≡ none)
  unfolding encrypt_packet
  encrypt_packet-silent now draw payload p e = (ground (arith, e), ground (arith, e))

  -- Receiving leaves the counter as it is.
  counter-receive :
      (nonce len : ℕ) (text : Bytes) (s : ActiveSession T)
      → (receive nonce len text s).1.tx_nonce ≡ s.tx_nonce
  unfolding receive
  counter-receive nonce len text s = ground arith

  active-decrypt_previous :
      (now nonce len : ℕ) (c : Bytes) (p : Peer H T)
      → (decrypt_previous N now nonce c len p).1.active ≡ p.active
  unfolding decrypt_previous
  active-decrypt_previous now nonce len c p = elim (Option-cases p.previous) [
    | inl e ↦ ground (arith, e)
    | inr (s, e) ↦ elim (Option-cases (N.read_transport s.state nonce c (length c - 16))) [
      | inl r ↦ ground (arith, e, r)
      | inr (text, r) ↦ ground (arith, e, r)
    ]
  ]

  counter-decrypt_active :
      (now nonce len : ℕ) (c : Bytes) (p : Peer H T)
      → counter (decrypt_active N now nonce c len p).1.active ≡ counter p.active
  unfolding decrypt_active
  counter-decrypt_active now nonce len c p =
      let kept = active-decrypt_previous now nonce len c p in
      elim (Option-cases p.active) [
        | inl e ↦ ground (arith, e, kept)
        | inr (s, e) ↦ elim (Option-cases (N.read_transport s.state nonce c (length c - 16))) [
          | inl r ↦ ground (arith, e, r, kept)
          | inr (text, r) ↦ ground (arith, e, r, counter-receive nonce len text s)
        ]
      ]

  counter-decrypt_packet :
      (now : ℕ) (payload : Bytes) (p : Peer H T)
      → counter (decrypt_packet N now payload p).1.active ≡ counter p.active
  unfolding decrypt_packet
  counter-decrypt_packet now payload p = ground (
    arith,
    counter-decrypt_active now (from_be_bytes (take 8 payload)) (length payload) (drop 8 payload) p,
  )

  active-handle_handshake_packet :
      (now : ℕ) (draw : Draw) (priv : Bytes) (kind : ℕ) (payload : Bytes) (p : Peer H T)
      → ((t : T) → LeadsTo N draw priv payload p t → ⊥)
      → (handle_handshake_packet N now draw priv kind payload p).1.active ≡ p.active
  unfolding handle_handshake_packet
  active-handle_handshake_packet now draw priv kind payload p h =
      let responds : (respond N now draw priv payload p).1.active ≡ p.active =
        elim (respond-authentic N now draw priv payload p) [
          | inl (same, no_answer) ↦ ap (λ x. x.1.active) same
          | inr (hs, packet, t, a, b, done) ↦ absurd (h t (inl (hs, packet, a, b)))
        ] in
      let finishes : (finish N now payload p).active ≡ p.active =
        elim (finish-in_progress N now payload p) [
          | inl (same, kept, unfinished) ↦ same
          | inr (hs, t, e, r, i, begun, before, over, quiet) ↦ absurd (h t (inr (hs, e, r, i)))
        ] in
      ground (arith, responds, finishes)

  active-initiate_handshake :
      (now : ℕ) (draw : Draw) (priv : Bytes) (p : Peer H T)
      → (initiate_handshake N now draw priv p).1.active ≡ p.active
  unfolding initiate_handshake
  active-initiate_handshake now draw priv p = ground arith

  active-check_rotation : (now : ℕ) (p : Peer H T) → (check_rotation now p).1.active ≡ p.active
  unfolding check_rotation
  active-check_rotation now p = refl

  -- The active session, if any, has the counter `n`.
  abbrev Counts : ℕ → Peer H T → Type 0
  Counts n p = (counter p.active ≡ none) ⊎ (counter p.active ≡ some n)

  Counts-same :
      (n : ℕ) (p q : Peer H T) → counter q.active ≡ counter p.active → Counts n p → Counts n q
  Counts-same n p q same (inl e) = inl (same ∙ e)
  Counts-same n p q same (inr e) = inr (same ∙ e)

  sent_nonces-Counts :
      (calls : List Call) (n : ℕ) (p : Peer H T)
      → Counts n p
      → AllLead N (λ t. ⊥) calls p
      → n + length calls < u64_mod
      → Increasing n (sent_nonces calls p)
  unfolding sent_nonces AllLead Leads call
  sent_nonces-Counts [] n p c f h = tt
  sent_nonces-Counts (encrypts now draw payload ∷ cs) n p c (f, fs) h =
      elim (Option-cases p.active) [
        | inl e ↦
            let (silent, still) = encrypt_packet-silent now draw payload p e in
            rw silent (
              sent_nonces-Counts cs n (encrypt_packet N now draw payload p).1
                (inl (ap counter still)) fs (omega (arith, h)))
        | inr (s, e) ↦
            let at : s.tx_nonce ≡ n = ground (arith, c, e) in
            put_nonce-Increasing (encrypt_packet N now draw payload p).0 n _
              (λ packet g.
                nonce_of-encrypt_packet now draw payload packet p s e (omega (arith, at, h)) g ∙ at)
              (sent_nonces-Counts cs (suc n) (encrypt_packet N now draw payload p).1
                (inr
                  (counter-encrypt_packet now draw payload p s e ∙ ap some (omega (arith, at, h))))
                fs (omega (arith, h)))
      ]
  sent_nonces-Counts (initiates now draw priv ∷ cs) n p c (f, fs) h =
      sent_nonces-Counts cs n (call N (initiates now draw priv) p)
        (Counts-same n p (call N (initiates now draw priv) p)
          (ap counter (active-initiate_handshake now draw priv p)) c)
        fs (omega (arith, h))
  sent_nonces-Counts (shakes now draw priv kind payload ∷ cs) n p c (f, fs) h =
      sent_nonces-Counts cs n (call N (shakes now draw priv kind payload) p)
        (Counts-same n p (call N (shakes now draw priv kind payload) p)
          (ap counter (active-handle_handshake_packet now draw priv kind payload p f)) c)
        fs (omega (arith, h))
  sent_nonces-Counts (decrypts now payload ∷ cs) n p c (f, fs) h =
      sent_nonces-Counts cs n (call N (decrypts now payload) p)
        (Counts-same n p (call N (decrypts now payload) p) (counter-decrypt_packet now payload p) c)
        fs (omega (arith, h))
  sent_nonces-Counts (rotates now ∷ cs) n p c (f, fs) h =
      sent_nonces-Counts cs n (call N (rotates now) p)
        (Counts-same n p (call N (rotates now) p) (ap counter (active-check_rotation now p)) c) fs
        (omega (arith, h))
  sent_nonces-Counts (forgets ∷ cs) n p c (f, fs) h =
      sent_nonces-Counts cs n (call N forgets p) (inl refl) fs (omega (arith, h))
  sent_nonces-Counts (touches endpoint ips attempt rx tx direct ∷ cs) n p c (f, fs) h =
      sent_nonces-Counts cs n (call N (touches endpoint ips attempt rx tx direct) p)
        (Counts-same n p (call N (touches endpoint ips attempt rx tx direct) p) refl c) fs
        (omega (arith, h))

  -- Whatever is called on a peer, sending, receiving, handshakes and rotation in any order, until a
  -- handshake completes and while the counter of the active session does not reach 2^64: the data
  -- packets that are sent carry strictly increasing nonces, from the counter on, so that none is used
  -- twice.
  pub sent_nonces-Increasing :
      (calls : List Call) (p : Peer H T) (s : ActiveSession T)
      → p.active ≡ some s
      → AllLead N (λ t. ⊥) calls p
      → s.tx_nonce + length calls < u64_mod
      → Increasing s.tx_nonce (sent_nonces calls p)
  sent_nonces-Increasing calls p s e f h =
      sent_nonces-Counts calls s.tx_nonce p (inr (ap counter e)) f h
