-- ===== src/Daemon/Roaming.antt =====
-- Whom a handshake initiation moves in the peer table of src/daemon.rs, and where to.
use mesh_vpn.Base.{
  ℕ, ◌≡◌, ◌≢◌, refl, ◌∙◌, ◌⊎◌, inl, inr, none, some, Bytes, arith, Option-cases, ite,
}
use mesh_vpn.Net.{Noise, Draw, SocketAddr, Bytes-discrete}
use mesh_vpn.Peer.{Peer, read_initiation, answer, establish, fresh_session}
use mesh_vpn.Peer.Authentic.{
  Authenticates, Answers, read_initiation-Authenticates, Authenticates-read_initiation,
  answer-Answers, Answers-answer,
}
use mesh_vpn.Manager.{find_key}
use mesh_vpn.Daemon.State.{Shared, put_key}
use mesh_vpn.Daemon.Lookup.{find_key-pubkey, find_key-put_key}
use mesh_vpn.Daemon.Datagram.{Output, quiet, on_initiation}

module _ {H T : Type 0} (N : Noise H T) (now : ℕ) (draw : Draw) (addr : SocketAddr)
    (payload : Bytes) where
  -- No peer of the table has the key that the initiation authenticates, or it authenticates none.
  abbrev pub Unknown : Shared H T → Type 0
  Unknown s =
      (key : Bytes) (hs : H) (p : Peer H T)
      → Authenticates N draw s.manager.local_priv payload key hs
      → find_key key s.manager.peers ≢ some p

  -- What the initiation has done: in the table the peer whose key it authenticates is replaced, by one
  -- that is now at the sender's address, with a fresh session where an answer went out, and is else
  -- as it was; every other key has the peer that it had.
  pub record Moved (s s' : Shared H T) (out : Output) : Type 0 where
    pub key : Bytes
    pub hs : H
    pub before : Peer H T
    pub now_there : Peer H T
    pub reads : Authenticates N draw s.manager.local_priv payload key hs
    pub known : find_key key s.manager.peers ≡ some before
    pub manager : s'.manager ≡ record (s.manager) { peers = put_key key now_there s.manager.peers }
    pub found : find_key key s'.manager.peers ≡ some now_there
    pub others : (k : Bytes) → key ≢ k → find_key k s'.manager.peers ≡ find_key k s.manager.peers
    pub outcome :
        ((out ≡ quiet)
          × ((packet : Bytes) (t : T) → ¬ Answers N draw s.manager.magic hs packet t)
          × (now_there ≡ record before { endpoint = some addr; last_direct_rx = now }))
        ⊎ ((packet : Bytes) × (t : T) × Answers N draw s.manager.magic hs packet t
            × (out ≡ record quiet { reply = some packet })
            × (now_there ≡ record before {
              endpoint = some addr;
              active = some (fresh_session now t);
              previous = elim before.active [ none ↦ before.previous | some a ↦ some a ];
              last_rx = now;
              last_tx = now;
              last_direct_rx = now;
            }))

  -- The peer of the key is replaced by one with the same key.
  replaced :
      (s : Shared H T) (key : Bytes) (p q : Peer H T) (k : Bytes)
      → find_key key s.manager.peers ≡ some p
      → q.pubkey ≡ p.pubkey
      → find_key k (put_key key q s.manager.peers)
        ≡ ite (Bytes-discrete key k) (some q) (find_key k s.manager.peers)
  replaced s key p q k f e =
      find_key-put_key key q p s.manager.peers k f (e ∙ find_key-pubkey key s.manager.peers p f)

  -- An initiation changes nothing and gets no answer, unless snow's responder reads it without an error
  -- and then knows the key of a peer of the table. Then that peer alone changes, in the table and in
  -- the daemon's keys and type bytes: it moves to the address that the initiation came from, and it
  -- starts a fresh session if snow writes an answer, which then goes out.
  pub on_initiation-Moved :
      (s : Shared H T)
      → ((on_initiation N now draw addr payload s ≡ (quiet, s)) × Unknown s)
        ⊎ Moved s
            (on_initiation N now draw addr payload s).1
            (on_initiation N now draw addr payload s).0
  unfolding on_initiation establish
  on_initiation-Moved s =
      elim (Option-cases (read_initiation N draw s.manager.local_priv payload)) [
        | inl r ↦ inl (
          ground (arith, r),
          λ k h p f g.
              absurd
                (cc (r, Authenticates-read_initiation N draw s.manager.local_priv payload k h f)),
        )
        | inr ((key, hs), r) ↦
            let auth = read_initiation-Authenticates N draw s.manager.local_priv payload key hs r in
            elim (Option-cases (find_key key s.manager.peers)) [
              | inl f ↦ inl (
                ground (arith, r, f),
                λ k h p u g. absurd (
                    let u' =
                      Authenticates-read_initiation N draw s.manager.local_priv payload k h u in
                    ground (arith, r, f, u', g)),
              )
              | inr (p, f) ↦
                  let moved : Peer H T = record p { endpoint = some addr; last_direct_rx = now } in
                  elim (Option-cases (answer N draw s.manager.magic hs)) [
                    | inl a ↦
                        let at = λ (k : Bytes). replaced s key p moved k f refl in
                        inr (record {
                          key = key;
                          hs = hs;
                          before = p;
                          now_there = moved;
                          reads = auth;
                          known = f;
                          manager = ground (arith, r, f, a);
                          found = ground (arith, r, f, a, at key);
                          others = λ k n. ground (arith, r, f, a, at k, n);
                          outcome = inl (
                            ground (arith, r, f, a),
                            λ packet t g.
                                absurd
                                  (cc (a, Answers-answer N draw s.manager.magic hs packet t g)),
                            refl,
                          );
                        })
                    | inr ((packet, t), a) ↦
                        let q : Peer H T = establish now t moved in
                        let at = λ (k : Bytes). replaced s key p q k f refl in
                        inr (record {
                          key = key;
                          hs = hs;
                          before = p;
                          now_there = q;
                          reads = auth;
                          known = f;
                          manager = ground (arith, r, f, a);
                          found = ground (arith, r, f, a, at key);
                          others = λ k n. ground (arith, r, f, a, at k, n);
                          outcome = inr (
                            packet,
                            t,
                            answer-Answers N draw s.manager.magic hs packet t a,
                            ground (arith, r, f, a),
                            refl,
                          );
                        })
                  ]
            ]
      ]
