-- ===== src/Peer/Tracked.antt =====
-- The replay windows of a peer of src/peer.rs have recorded the nonces of some sequence, whatever the
-- peer is called with.
use mesh_vpn.Base.{ℕ, ◌≡◌, refl, sym, subst, inl, inr, Option, none, some, List, [], ◌∷◌, Bytes}
use mesh_vpn.Net.{Noise, SocketAddr}
use mesh_vpn.Packet.{Ipv4Subnet}
use mesh_vpn.Session.{ReplayWindow, check_and_update}
use mesh_vpn.Session.Spent.{HasHistory, new-HasHistory, check_and_update-HasHistory}
use mesh_vpn.Peer.{Peer, ActiveSession, new, establish}
use mesh_vpn.Peer.Calls.{
  Call, initiates, shakes, encrypts, decrypts, rotates, forgets, touches, call, run, Leads,
}
use mesh_vpn.Peer.Moves.{Continues, GoesOn, Remains, Move, stays, renews, drops, call-Move}

-- The window of the session, if there is one, has recorded the nonces of some sequence.
abbrev pub Recorded : {T : Type 0} → Option (ActiveSession T) → Type 0
Recorded none = Unit
Recorded (some s) = HasHistory s.replay

pub record IsTracked {H T : Type 0} (p : Peer H T) : Type 0 where
  pub now_active : Recorded p.active
  pub before_it : Recorded p.previous

module _ {T : Type 0} where
  pub Continues-window :
      (Q : ReplayWindow → Type 0) (s s' : ActiveSession T)
      → ((n : ℕ) → Q s.replay → Q (check_and_update s.replay n).0)
      → Continues s s'
      → Q s.replay
      → Q s'.replay
  Continues-window Q s s' step c q = elim c.window [
    | inl e ↦ subst Q (sym e) q
    | inr (n, e) ↦ subst Q (sym e) (step n q)
  ]

  Continues-HasHistory :
      (s s' : ActiveSession T) → Continues s s' → HasHistory s.replay → HasHistory s'.replay
  Continues-HasHistory s s' c q =
      Continues-window HasHistory s s' (check_and_update-HasHistory s.replay) c q

  GoesOn-Recorded : (o o' : Option (ActiveSession T)) → GoesOn o o' → Recorded o → Recorded o'
  GoesOn-Recorded none none g r = tt
  GoesOn-Recorded none (some s') g r = absurd g
  GoesOn-Recorded (some s) none g r = absurd g
  GoesOn-Recorded (some s) (some s') g r = Continues-HasHistory s s' g r

  Remains-Recorded : (o o' : Option (ActiveSession T)) → Remains o o' → Recorded o → Recorded o'
  Remains-Recorded o none g r = tt
  Remains-Recorded none (some s') g r = absurd g
  Remains-Recorded (some s) (some s') g r = Continues-HasHistory s s' g r

module _ {H T : Type 0} where
  establish-Recorded :
      (now : ℕ) (t : T) (p : Peer H T)
      → IsTracked p
      → Recorded (establish now t p).active × Recorded (establish now t p).previous
  unfolding establish
  establish-Recorded now t p v = (new-HasHistory, old p.active refl)
    where
      old : (o : Option (ActiveSession T)) → p.active ≡ o → Recorded (establish now t p).previous
      old none e = rw e v.before_it
      old (some s) e = rw e (subst Recorded e v.now_active)

  pub Move-IsTracked : (P : T → Type 0) (p q : Peer H T) → Move P p q → IsTracked p → IsTracked q
  Move-IsTracked P p q (stays a b) v = record {
    now_active = GoesOn-Recorded p.active q.active a v.now_active;
    before_it = Remains-Recorded p.previous q.previous b v.before_it;
  }
  Move-IsTracked P p q (renews now t h a b) v = record {
    now_active = subst Recorded (sym a) (establish-Recorded now t p v).0;
    before_it = subst Recorded (sym b) (establish-Recorded now t p v).1;
  }
  Move-IsTracked P p q (drops a b) v = record { now_active = rw a tt; before_it = rw b tt }

module _ {H T : Type 0} (N : Noise H T) where
  Leads-anywhere : (c : Call) (p : Peer H T) → Leads N (λ t. Unit) c p
  unfolding Leads
  Leads-anywhere (initiates now draw priv) p = tt
  Leads-anywhere (shakes now draw priv kind payload) p = λ t h. tt
  Leads-anywhere (encrypts now draw payload) p = tt
  Leads-anywhere (decrypts now payload) p = tt
  Leads-anywhere (rotates now) p = tt
  Leads-anywhere forgets p = tt
  Leads-anywhere (touches endpoint ips attempt rx tx direct) p = tt

  pub run-IsTracked : (cs : List Call) (p : Peer H T) → IsTracked p → IsTracked (run N cs p)
  unfolding run
  run-IsTracked [] p v = v
  run-IsTracked (k ∷ cs) p v = run-IsTracked cs (call N k p) (
      Move-IsTracked (λ t. Unit) p (call N k p) (call-Move N (λ t. Unit) k p (Leads-anywhere k p))
        v)

  pub new-IsTracked :
      (now : ℕ) (key : Bytes) (endpoint : Option SocketAddr) (ips : List Ipv4Subnet)
      → IsTracked {H = H} {T = T} (new now key endpoint ips)
  unfolding new
  new-IsTracked now key endpoint ips = record { now_active = tt; before_it = tt }
