-- ===== src/Desktop/Runs.antt =====
-- The daemons that the commands of desktop-app/src-tauri/src/lib.rs start, over any use of them.
use mesh_vpn.Base.{
  ℕ, suc, ◌≡◌, ◌≢◌, refl, ◌∙◌, ap, sym, inl, inr, true, false, Option, none, some, List, [], ◌∷◌,
  ◌++◌, Bytes, ok, err, arith, Bool-cases, subst,
}
use mesh_vpn.Net.{Parsers}
use mesh_vpn.Packet.{Result-cases}
use mesh_vpn.Config.Settings.{DaemonSettings}
use mesh_vpn.Daemon.Status.{DaemonStatus}
use mesh_vpn.Desktop.{
  DaemonState, FrontendSettings, CommandError, initial, start_vpn, to_daemon_settings, on_status,
  on_exit, stop_vpn,
}

-- The application's state, the daemons that have been started and have not ended, and how many have
-- been started.
pub record World : Type 0 where
  pub state : DaemonState
  pub live : List ℕ
  pub count : ℕ

abbrev pub fresh_world : World
fresh_world = record { state = initial; live = []; count = 0 }

module _ (P : Parsers) where
  -- The commands, in whatever order the user gives them, and what the tasks of the daemons do: a status
  -- arrives, also late, and a daemon that is live ends.
  pub data Step : World → World → Type 0 where
    started :
        (w : World) (settings : FrontendSettings) (ds : DaemonSettings) (s : DaemonState)
        → start_vpn P settings w.count w.state ≡ (ok ds, s)
        → Step w (record { state = s; live = w.count ∷ w.live; count = suc w.count })
    refused :
        (w : World) (settings : FrontendSettings) (e : CommandError) (s : DaemonState)
        → start_vpn P settings w.count w.state ≡ (err e, s)
        → Step w (record w { state = s })
    stopped : (w : World) → Step w (record w { state = (stop_vpn w.state).1 })
    status_arrives :
        (w : World) (status : DaemonStatus) → Step w (record w { state = on_status status w.state })
    exits :
        (w : World) (before after : List ℕ) (number : ℕ) (error : Option Bytes)
        → w.live ≡ before ++ (number ∷ after)
        → Step w (record w { state = on_exit error w.state; live = before ++ after })

  pub data Reach : World → Type 0 where
    here : Reach fresh_world
    next : {u v : World} → Reach u → Step u v → Reach v

-- The signal, if it can still be sent, goes to the daemon with the number.
abbrev pub Signals : Option ℕ → ℕ → Type 0
Signals none number = Unit
Signals (some n) number = n ≡ number

-- One daemon is live, or none is, and the application knows which.
pub data IsTracked (w : World) : Type 0 where
  one :
      (number : ℕ)
      → w.live ≡ number ∷ []
      → w.state.running ≡ true
      → Signals w.state.shutdown_tx number
      → IsTracked w
  no_one : w.live ≡ [] → w.state.running ≡ false → w.state.shutdown_tx ≡ none → IsTracked w

only :
    (before after : List ℕ) (n number : ℕ)
    → number ∷ [] ≡ before ++ (n ∷ after)
    → before ++ after ≡ []
only [] [] n number e = refl
only [] (a ∷ after) n number e = absurd (cc)
only (b ∷ []) after n number e = absurd (cc)
only (b ∷ c ∷ before) after n number e = absurd (cc)

not_empty : (before after : List ℕ) (n : ℕ) → [] ≢ before ++ (n ∷ after)
not_empty [] after n e = absurd (cc)
not_empty (b ∷ before) after n e = absurd (cc)

on_exit-state :
    (error : Option Bytes) (s : DaemonState)
    → ((on_exit error s).running ≡ false) × ((on_exit error s).shutdown_tx ≡ none)
unfolding on_exit
on_exit-state none s = (refl, refl)
on_exit-state (some e) s = (refl, refl)

stop_vpn-state :
    (s : DaemonState) (number : ℕ)
    → Signals s.shutdown_tx number
    → ((stop_vpn s).1.running ≡ s.running) × Signals (stop_vpn s).1.shutdown_tx number
unfolding stop_vpn
stop_vpn-state s number h = (ground arith, ground arith)

stop_vpn-not_running : (s : DaemonState) → s.running ≡ false → (stop_vpn s).1 ≡ s
unfolding stop_vpn
stop_vpn-not_running s h = ground arith

start_vpn-ok :
    (P : Parsers) (settings : FrontendSettings) (number : ℕ) (s t : DaemonState)
    (ds : DaemonSettings)
    → start_vpn P settings number s ≡ (ok ds, t)
    → (s.running ≡ false) × (t.running ≡ true) × (t.shutdown_tx ≡ some number)
unfolding start_vpn
start_vpn-ok P settings number s t ds e = elim (Bool-cases s.running) [
  | inl r ↦ absurd (ground (arith, r, e))
  | inr r ↦ elim (Result-cases (to_daemon_settings P settings)) [
    | inl (x, f) ↦ absurd (ground (arith, r, f, e))
    | inr (d, f) ↦ (r, ground (arith, r, f, e), ground (arith, r, f, e))
  ]
]

start_vpn-err :
    (P : Parsers) (settings : FrontendSettings) (number : ℕ) (s t : DaemonState) (x : CommandError)
    → start_vpn P settings number s ≡ (err x, t)
    → s ≡ t
unfolding start_vpn
start_vpn-err P settings number s t x e = elim (Bool-cases s.running) [
  | inl r ↦ ground (arith, r, e)
  | inr r ↦ elim (Result-cases (to_daemon_settings P settings)) [
    | inl (y, f) ↦ ground (arith, r, f, e)
    | inr (d, f) ↦ absurd (ground (arith, r, f, e))
  ]
]

Step-IsTracked : (P : Parsers) {w v : World} → Step P w v → IsTracked w → IsTracked v
unfolding on_status
Step-IsTracked P (started w settings ds s e) (one n l r h) =
    absurd (cc ((start_vpn-ok P settings w.count w.state s ds e).0, r))
Step-IsTracked P (started w settings ds s e) (no_one l r h) =
    let (idle, running, tx) = start_vpn-ok P settings w.count w.state s ds e in
    one w.count (ap (λ ns. w.count ∷ ns) l) running (subst (λ o. Signals o w.count) (sym tx) refl)
Step-IsTracked P (refused w settings x s e) (one n l r h) =
    let same = start_vpn-err P settings w.count w.state s x e in
    one n l (ap (λ t. t.running) (sym same) ∙ r) (subst (λ t. Signals t.shutdown_tx n) same h)
Step-IsTracked P (refused w settings x s e) (no_one l r h) =
    let same = start_vpn-err P settings w.count w.state s x e in
    no_one l (ap (λ t. t.running) (sym same) ∙ r) (ap (λ t. t.shutdown_tx) (sym same) ∙ h)
Step-IsTracked P (stopped w) (one n l r h) =
    let (running, signals) = stop_vpn-state w.state n h in one n l (running ∙ r) signals
Step-IsTracked P (stopped w) (no_one l r h) =
    let same = stop_vpn-not_running w.state r in
    no_one l (ap (λ t. t.running) same ∙ r) (ap (λ t. t.shutdown_tx) same ∙ h)
Step-IsTracked P (status_arrives w status) (one n l r h) = one n l r h
Step-IsTracked P (status_arrives w status) (no_one l r h) = no_one l r h
Step-IsTracked P (exits w before after n error e) (one m l r h) =
    let (running, tx) = on_exit-state error w.state in
    no_one (only before after n m (sym l ∙ e)) running tx
Step-IsTracked P (exits w before after n error e) (no_one l r h) =
    absurd (not_empty before after n (sym l ∙ e))

-- However the commands are used and whatever the daemons do, at most one daemon is live. The
-- application says that one is running exactly if one is, and its shutdown signal, while it has one,
-- goes to that daemon.
pub Reach-IsTracked : (P : Parsers) (w : World) → Reach P w → IsTracked w
Reach-IsTracked P w here = no_one refl refl refl
Reach-IsTracked P w (next {u} r s) = Step-IsTracked P s (Reach-IsTracked P u r)
