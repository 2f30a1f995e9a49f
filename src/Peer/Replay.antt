-- ===== src/Peer/Replay.antt =====
-- A peer of src/peer.rs gives out no data packet twice.
use mesh_vpn.Base.{
  ℕ, ◌-◌, ◌≡◌, refl, ◌∙◌, ap, inl, inr, true, Option, none, some, Bytes, length, arith,
  Option-cases, drop, take,
}
use mesh_vpn.Net.{Noise, from_be_bytes}
use mesh_vpn.Session.{check_and_update}
use mesh_vpn.Session.Again
use mesh_vpn.Session.Again.{check_and_update-again, check_and_update-IsValid}
use mesh_vpn.Peer.{
  Peer, ActiveSession, receive, decrypt_packet, decrypt_active, decrypt_previous, is_some,
}

-- The replay window of a session, if there is one, has its words.
abbrev pub words : {T : Type 0} → Option (ActiveSession T) → ℕ
words none = 16
words (some s) = length s.replay.bitmap

abbrev pub HasWindow : {T : Type 0} → Option (ActiveSession T) → Type 0
HasWindow o = words o ≡ 16

pub record IsValid {H T : Type 0} (p : Peer H T) : Type 0 where
  pub active_window : HasWindow p.active
  pub previous_window : HasWindow p.previous

pub receive-some :
    {T : Type 0} (nonce len : ℕ) (text : Bytes) (s : ActiveSession T)
    → is_some (receive nonce len text s).0 ≡ true
    → (check_and_update s.replay nonce).1 ≡ true
unfolding receive
receive-some nonce len text s h = ground arith

receive_again :
    {T : Type 0} (nonce len later : ℕ) (text other : Bytes) (s : ActiveSession T)
    → Again.IsValid s.replay
    → is_some (receive nonce len text s).0 ≡ true
    → (receive nonce later other (receive nonce len text s).1).0 ≡ none
unfolding receive
receive_again nonce len later text other s v h =
    ground (arith, check_and_update-again s.replay nonce v (receive-some nonce len text s h))

pub state-receive :
    {T : Type 0} (nonce len : ℕ) (text : Bytes) (s : ActiveSession T)
    → (receive nonce len text s).1.state ≡ s.state
unfolding receive
state-receive nonce len text s = ground arith

module _ {H T : Type 0} (N : Noise H T) (nonce len : ℕ) (c : Bytes) where
  -- The session `s` has read the packet and let its nonce pass.
  pub record Took (s s' : ActiveSession T) : Type 0 where
    pub text : Bytes
    pub reads : N.read_transport s.state nonce c (length c - 16) ≡ some text
    pub passed : is_some (receive nonce len text s).0 ≡ true
    pub after : s' ≡ (receive nonce len text s).1

  -- The session reads the packet and does not let its nonce pass.
  pub record Refuses (s : ActiveSession T) : Type 0 where
    pub text : Bytes
    pub reads : N.read_transport s.state nonce c (length c - 16) ≡ some text
    pub stopped : (receive nonce len text s).0 ≡ none

  Took-Refuses : (s s' : ActiveSession T) → Again.IsValid s.replay → Took s s' → Refuses s'
  Took-Refuses s s' v t = rw t.after (record {
    text = t.text;
    reads = rw (state-receive nonce len t.text s) t.reads;
    stopped = receive_again nonce len len t.text t.text s v t.passed;
  })

  -- A packet that comes through by the previous session.
  pub previous-Took :
      (now : ℕ) (q : Peer H T) (o : Option (ActiveSession T)) (plain : Bytes)
      → q.previous ≡ o
      → (decrypt_previous N now nonce c len q).0 ≡ some plain
      → (s s' : ActiveSession T) × (o ≡ some s)
        × ((decrypt_previous N now nonce c len q).1.previous ≡ some s')
        × ((decrypt_previous N now nonce c len q).1.active ≡ q.active)
        × Took s s'
  unfolding decrypt_previous
  previous-Took now q none plain e h = absurd (ground (arith, e))
  previous-Took now q (some s) plain e h =
      elim (Option-cases (N.read_transport s.state nonce c (length c - 16))) [
        | inl r ↦ absurd (ground (arith, e, r))
        | inr (text, r) ↦ (
          s,
          (receive nonce len text s).1,
          refl,
          ground (arith, e, r),
          ground (arith, e, r),
          record { text = text; reads = r; passed = ground (arith, e, r); after = refl },
        )
      ]

  pub previous-Refuses :
      (later : ℕ) (q : Peer H T) (s : ActiveSession T)
      → q.previous ≡ some s
      → Refuses s
      → (decrypt_previous N later nonce c len q).0 ≡ none
  unfolding decrypt_previous
  previous-Refuses later q s e r = ground (arith, e, r.reads, r.stopped)

  pub active-Refuses :
      (later : ℕ) (q : Peer H T) (s : ActiveSession T)
      → q.active ≡ some s
      → Refuses s
      → (decrypt_active N later nonce c len q).0 ≡ none
  unfolding decrypt_active
  active-Refuses later q s e r = ground (arith, e, r.reads, r.stopped)

  -- Where the active session does not read a packet, the previous one decides.
  abbrev pub Passes : Option (ActiveSession T) → Type 0
  Passes none = Unit
  Passes (some s) = N.read_transport s.state nonce c (length c - 16) ≡ none

  pub active-Passes :
      (now : ℕ) (q : Peer H T) (o : Option (ActiveSession T))
      → q.active ≡ o
      → Passes o
      → decrypt_active N now nonce c len q ≡ decrypt_previous N now nonce c len q
  unfolding decrypt_active
  active-Passes now q none e h = ground (arith, e)
  active-Passes now q (some s) e h = ground (arith, e, h)

  -- A packet that came through by the previous session.
  previous_again :
      (now later : ℕ) (q : Peer H T) (o : Option (ActiveSession T)) (plain : Bytes)
      → q.active ≡ o
      → Passes o
      → HasWindow q.previous
      → (decrypt_previous N now nonce c len q).0 ≡ some plain
      → (decrypt_active N later nonce c len (decrypt_previous N now nonce c len q).1).0 ≡ none
  previous_again now later q o plain e passes w h =
      let (s, s', old, new, same, took) = previous-Took now q q.previous plain refl h in
      ap (λ r. r.0) (active-Passes later _ o (same ∙ e) passes)
      ∙ previous-Refuses later _ s' new (Took-Refuses s s' (rw old at w) took)

  -- A packet that the active session reads.
  pub active-Took :
      (now : ℕ) (q : Peer H T) (s : ActiveSession T) (text plain : Bytes)
      → q.active ≡ some s
      → N.read_transport s.state nonce c (length c - 16) ≡ some text
      → (decrypt_active N now nonce c len q).0 ≡ some plain
      → (s' : ActiveSession T) × ((decrypt_active N now nonce c len q).1.active ≡ some s')
        × Took s s'
  unfolding decrypt_active
  active-Took now q s text plain e r h = (
    (receive nonce len text s).1,
    ground (arith, e, r),
    record { text = text; reads = r; passed = ground (arith, e, r); after = refl },
  )

  active_again :
      (now later : ℕ) (q : Peer H T) (o : Option (ActiveSession T)) (plain : Bytes)
      → q.active ≡ o
      → HasWindow o
      → HasWindow q.previous
      → (decrypt_active N now nonce c len q).0 ≡ some plain
      → (decrypt_active N later nonce c len (decrypt_active N now nonce c len q).1).0 ≡ none
  active_again now later q none plain e v w h =
      rw (active-Passes now q none e tt)
        (previous_again now later q none plain e tt w (rw (active-Passes now q none e tt) at h))
  active_again now later q (some s) plain e v w h =
      elim (Option-cases (N.read_transport s.state nonce c (length c - 16))) [
        | inl r ↦ rw (active-Passes now q (some s) e r) (
            previous_again now later q (some s) plain e r w
              (rw (active-Passes now q (some s) e r) at h))
        | inr (text, r) ↦
            let (s', new, took) = active-Took now q s text plain e r h in
            active-Refuses later _ s' new (Took-Refuses s s' v took)
      ]

-- If a peer whose replay windows have their sixteen words gives out a packet, the next call with the
-- same bytes, at any instant, gives nothing.
pub decrypt_packet-again :
    {H T : Type 0} (N : Noise H T) (now later : ℕ) (payload plain : Bytes) (q : Peer H T)
    → IsValid q
    → (decrypt_packet N now payload q).0 ≡ some plain
    → (decrypt_packet N later payload (decrypt_packet N now payload q).1).0 ≡ none
unfolding decrypt_packet
decrypt_packet-again N now later payload plain q v h = ground (
  arith,
  active_again N (from_be_bytes (take 8 payload)) (length payload) (drop 8 payload) now later q
      q.active plain refl v.active_window v.previous_window,
)
