-- ===== src/Peer/Shut.antt =====
-- A peer of src/peer.rs that has given out a packet is shut to it, and stays so.
use mesh_vpn.Base.{
  ℕ, ◌-◌, ◌≡◌, refl, sym, ap, ◌∙◌, subst, ◌⊎◌, inl, inr, false, Option, none, some, List, [], ◌∷◌,
  Bytes, length, arith, Option-cases,
}
use mesh_vpn.Net.{Noise}
use mesh_vpn.Session.{check_and_update}
use mesh_vpn.Session.Spent.{
  HasHistory, IsSpent, check_and_update-accepted, check_and_update-IsSpent,
  check_and_update-refused,
}
use mesh_vpn.Peer.{Peer, ActiveSession, new, receive, establish, decrypt_active, decrypt_previous}
use mesh_vpn.Peer.Replay.{
  Passes, active-Passes, active-Refuses, previous-Refuses, Took, Refuses, active-Took,
  previous-Took, receive-some, state-receive,
}
use mesh_vpn.Peer.Calls.{Call, call, run, AllLead}
use mesh_vpn.Peer.Moves.{Continues, GoesOn, Remains, Move, stays, renews, drops, call-Move}
use mesh_vpn.Peer.Tracked.{Recorded, IsTracked, Continues-window}

module _ {H T : Type 0} (N : Noise H T) (nonce : ℕ) (c : Bytes) where
  -- The session has given out the packet.
  abbrev Spent : Option (ActiveSession T) → Type 0
  Spent none = ⊥
  Spent (some s) =
      (text : Bytes) × (N.read_transport s.state nonce c (length c - 16) ≡ some text)
      × IsSpent nonce s.replay

  -- The session does not give it out.
  abbrev Closed : Option (ActiveSession T) → Type 0
  Closed none = Unit
  Closed (some s) = (N.read_transport s.state nonce c (length c - 16) ≡ none) ⊎ Spent (some s)

  -- The peer does not give it out.
  abbrev pub Shut : Peer H T → Type 0
  Shut p = Spent p.active ⊎ (Passes N nonce 0 c p.active × Closed p.previous)

  receive-replay :
      (len : ℕ) (text : Bytes) (s : ActiveSession T)
      → (receive nonce len text s).1.replay ≡ (check_and_update s.replay nonce).0
  unfolding receive
  receive-replay len text s = ground arith

  receive-refused :
      (len : ℕ) (text : Bytes) (s : ActiveSession T)
      → (check_and_update s.replay nonce).1 ≡ false
      → (receive nonce len text s).0 ≡ none
  unfolding receive
  receive-refused len text s h = ground arith

  Took-Spent :
      (len : ℕ) (s s' : ActiveSession T)
      → Took N nonce len c s s'
      → HasHistory s.replay
      → Spent (some s')
  Took-Spent len s s' t h = rw t.after (
    t.text,
    ap (λ x. N.read_transport x nonce c (length c - 16)) (state-receive nonce len t.text s)
        ∙ t.reads,
    subst (IsSpent nonce) (sym (receive-replay len t.text s))
        (check_and_update-accepted s.replay nonce h (receive-some nonce len t.text s t.passed)),
  )

  Spent-Refuses : (len : ℕ) (s : ActiveSession T) → Spent (some s) → Refuses N nonce len c s
  Spent-Refuses len s (text, reads, spent) = record {
    text = text;
    reads = reads;
    stopped = receive-refused len text s (check_and_update-refused s.replay nonce spent);
  }

  -- What the previous session gives out, the peer does not give out again.
  previous-Shut :
      (now len : ℕ) (p : Peer H T) (plain : Bytes)
      → IsTracked p
      → Passes N nonce len c p.active
      → (decrypt_previous N now nonce c len p).0 ≡ some plain
      → Shut (decrypt_previous N now nonce c len p).1
  previous-Shut now len p plain v pass h =
      let (s, s', old, new, same, took) =
        previous-Took N nonce len c now p p.previous plain refl h in
      inr (
        subst (Passes N nonce len c) (sym same) pass,
        subst Closed (sym new) (inr (Took-Spent len s s' took (subst Recorded old v.before_it))),
      )

  pub active-Shut :
      (now len : ℕ) (p : Peer H T) (plain : Bytes)
      → IsTracked p
      → (decrypt_active N now nonce c len p).0 ≡ some plain
      → Shut (decrypt_active N now nonce c len p).1
  active-Shut now len p plain v h = go p.active refl
    where
      passes :
          (o : Option (ActiveSession T))
          → p.active ≡ o
          → Passes N nonce len c o
          → Shut (decrypt_active N now nonce c len p).1
      passes o e pass =
          let same = active-Passes N nonce len c now p o e pass in
          subst (λ r. Shut r.1) (sym same)
            (previous-Shut now len p plain v (subst (Passes N nonce len c) (sym e) pass)
              (ap (λ r. r.0) (sym same) ∙ h))

      go :
          (o : Option (ActiveSession T))
          → p.active ≡ o
          → Shut (decrypt_active N now nonce c len p).1
      go none e = passes none e tt
      go (some s) e = elim (Option-cases (N.read_transport s.state nonce c (length c - 16))) [
        | inl r ↦ passes (some s) e r
        | inr (text, r) ↦
            let (s', new, took) = active-Took N nonce len c now p s text plain e r h in
            inl (subst Spent (sym new) (Took-Spent len s s' took (subst Recorded e v.now_active)))
      ]

  pub Shut-none :
      (later len : ℕ) (p : Peer H T) → Shut p → (decrypt_active N later nonce c len p).0 ≡ none
  Shut-none later len p (inl spent) = go p.active refl spent
    where
      go :
          (o : Option (ActiveSession T))
          → p.active ≡ o
          → Spent o
          → (decrypt_active N later nonce c len p).0 ≡ none
      go none e sp = absurd sp
      go (some s) e sp = active-Refuses N nonce len c later p s e (Spent-Refuses len s sp)
  Shut-none later len p (inr (pass, closed)) =
      ap (λ r. r.0) (active-Passes N nonce len c later p p.active refl pass)
      ∙ go p.previous refl closed
    where
      go :
          (o : Option (ActiveSession T))
          → p.previous ≡ o
          → Closed o
          → (decrypt_previous N later nonce c len p).0 ≡ none
      go none e cl = unfold decrypt_previous in ground (arith, e)
      go (some s) e (inl r) = unfold decrypt_previous in ground (arith, e, r)
      go (some s) e (inr sp) = previous-Refuses N nonce len c later p s e (Spent-Refuses len s sp)

  -- A transport state that does not read the packet.
  abbrev pub Unread : T → Type 0
  Unread t = N.read_transport t nonce c (length c - 16) ≡ none

  Continues-reads :
      (s s' : ActiveSession T)
      → Continues s s'
      → N.read_transport s'.state nonce c (length c - 16)
        ≡ N.read_transport s.state nonce c (length c - 16)
  Continues-reads s s' k = ap (λ x. N.read_transport x nonce c (length c - 16)) k.state

  Continues-Spent : (s s' : ActiveSession T) → Continues s s' → Spent (some s) → Spent (some s')
  Continues-Spent s s' k (text, reads, spent) = (
    text,
    Continues-reads s s' k ∙ reads,
    Continues-window (IsSpent nonce) s s' (check_and_update-IsSpent s.replay nonce) k spent,
  )

  GoesOn-Spent : (o o' : Option (ActiveSession T)) → GoesOn o o' → Spent o → Spent o'
  GoesOn-Spent none o' g sp = absurd sp
  GoesOn-Spent (some s) none g sp = absurd g
  GoesOn-Spent (some s) (some s') g sp = Continues-Spent s s' g sp

  GoesOn-Passes :
      (o o' : Option (ActiveSession T)) → GoesOn o o' → Passes N nonce 0 c o → Passes N nonce 0 c o'
  GoesOn-Passes o none g h = tt
  GoesOn-Passes none (some s') g h = absurd g
  GoesOn-Passes (some s) (some s') g h = Continues-reads s s' g ∙ h

  Remains-Closed : (o o' : Option (ActiveSession T)) → Remains o o' → Closed o → Closed o'
  Remains-Closed o none g h = tt
  Remains-Closed none (some s') g h = absurd g
  Remains-Closed (some s) (some s') g (inl r) = inl (Continues-reads s s' g ∙ r)
  Remains-Closed (some s) (some s') g (inr sp) = inr (Continues-Spent s s' g sp)

  -- The session that a handshake replaces.
  establish-Closed : (now : ℕ) (t : T) (p : Peer H T) → Shut p → Closed (establish now t p).previous
  unfolding establish
  establish-Closed now t p h = go p.active refl h
    where
      go :
          (o : Option (ActiveSession T))
          → p.active ≡ o
          → Spent o ⊎ (Passes N nonce 0 c o × Closed p.previous)
          → Closed (establish now t p).previous
      go none e (inl sp) = absurd sp
      go none e (inr (pass, closed)) = rw e closed
      go (some s) e (inl sp) = rw e (inr sp)
      go (some s) e (inr (pass, closed)) = rw e (inl pass)

  establish-Passes :
      (now : ℕ) (t : T) (p : Peer H T) → Unread t → Passes N nonce 0 c (establish now t p).active
  unfolding establish
  establish-Passes now t p h = h

  Move-Shut : (p q : Peer H T) → Move Unread p q → Shut p → Shut q
  Move-Shut p q (stays a b) (inl sp) = inl (GoesOn-Spent p.active q.active a sp)
  Move-Shut p q (stays a b) (inr (pass, closed)) =
      inr (GoesOn-Passes p.active q.active a pass, Remains-Closed p.previous q.previous b closed)
  Move-Shut p q (renews now t h a b) sh = inr (
    subst (Passes N nonce 0 c) (sym a) (establish-Passes now t p h),
    subst Closed (sym b) (establish-Closed now t p sh),
  )
  Move-Shut p q (drops a b) sh = inr (rw a tt, rw b tt)

  pub run-Shut :
      (cs : List Call) (p : Peer H T) → AllLead N Unread cs p → Shut p → Shut (run N cs p)
  unfolding run AllLead
  run-Shut [] p h sh = sh
  run-Shut (k ∷ cs) p (h, hs) sh =
      run-Shut cs (call N k p) hs (Move-Shut p (call N k p) (call-Move N Unread k p h) sh)
