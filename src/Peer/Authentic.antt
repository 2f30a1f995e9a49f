-- ===== src/Peer/Authentic.antt =====
-- What the responder's code in src/peer.rs and src/daemon.rs asks of the Noise crate, call by call.
use mesh_vpn.Base.{
  ◌≡◌, refl, sym, ap, ◌∙◌, Bool, true, false, some, ◌∷◌, ◌++◌, Bytes, arith, Option-cases, inl, inr,
  take,
}
use mesh_vpn.Net.{Draw, Noise}
use mesh_vpn.Peer.{MagicConfig, read_initiation, answer, init_message_len}

module _ {H T : Type 0} (N : Noise H T) (draw : Draw) where
  -- A responder is built, reads the first 96 bytes of the payload without an error, and then knows
  -- the static key of the other side.
  pub record Authenticates (priv payload key : Bytes) (hs : H) : Type 0 where
    pub start : H
    pub builds : N.build_responder draw.seed priv ≡ some start
    pub reads : N.read_handshake start (take init_message_len payload) 128 ≡ (true, hs)
    pub names : N.remote_static hs ≡ some key

  -- The state writes a message, which goes out behind its type byte and before the padding, and goes
  -- over into a transport state.
  pub record Answers (magic : MagicConfig) (hs : H) (packet : Bytes) (t : T) : Type 0 where
    pub message : Bytes
    pub written : H
    pub writes : N.write_handshake hs 128 ≡ some (message, written)
    pub turns : N.into_transport written ≡ some t
    pub shape : packet ≡ magic.handshake_resp ∷ (message ++ draw.padding)

  pub read_initiation-Authenticates :
      (priv payload key : Bytes) (hs : H)
      → read_initiation N draw priv payload ≡ some (key, hs)
      → Authenticates priv payload key hs
  unfolding read_initiation
  read_initiation-Authenticates priv payload key hs e =
      elim (Option-cases (N.build_responder draw.seed priv)) [
        | inl b ↦ absurd (ground (arith, b, e))
        | inr (h, b) ↦ read h b (N.read_handshake h (take init_message_len payload) 128) refl
      ]
    where
      read :
          (h : H)
          → N.build_responder draw.seed priv ≡ some h
          → (r : Bool × H) → N.read_handshake h (take init_message_len payload) 128 ≡ r
          → Authenticates priv payload key hs
      read h b (false, h') r = absurd (ground (arith, b, r, e))
      read h b (true, h') r = elim (Option-cases (N.remote_static h')) [
        | inl n ↦ absurd (ground (arith, b, r, n, e))
        | inr (k, n) ↦
            let same_state : h' ≡ hs = ground (arith, b, r, n, e) in
            let same_key : k ≡ key = ground (arith, b, r, n, e) in
            record {
              start = h;
              builds = b;
              reads = r ∙ ap (λ x. (true, x)) same_state;
              names = ap N.remote_static (sym same_state) ∙ n ∙ ap some same_key;
            }
      ]

  pub Authenticates-read_initiation :
      (priv payload key : Bytes) (hs : H)
      → Authenticates priv payload key hs
      → read_initiation N draw priv payload ≡ some (key, hs)
  unfolding read_initiation
  Authenticates-read_initiation priv payload key hs a = ground (arith, a.builds, a.reads, a.names)

  pub answer-Answers :
      (magic : MagicConfig) (hs : H) (packet : Bytes) (t : T)
      → answer N draw magic hs ≡ some (packet, t)
      → Answers magic hs packet t
  unfolding answer
  answer-Answers magic hs packet t e = elim (Option-cases (N.write_handshake hs 128)) [
    | inl w ↦ absurd (ground (arith, w, e))
    | inr ((msg, h), w) ↦ elim (Option-cases (N.into_transport h)) [
      | inl i ↦ absurd (ground (arith, w, i, e))
      | inr (u, i) ↦
          let same : u ≡ t = ground (arith, w, i, e) in
          record {
            message = msg;
            written = h;
            writes = w;
            turns = i ∙ ap some same;
            shape = ground (arith, w, i, e);
          }
    ]
  ]

  pub Answers-answer :
      (magic : MagicConfig) (hs : H) (packet : Bytes) (t : T)
      → Answers magic hs packet t
      → answer N draw magic hs ≡ some (packet, t)
  unfolding answer
  Answers-answer magic hs packet t a = ground (arith, a.writes, a.turns, a.shape)
