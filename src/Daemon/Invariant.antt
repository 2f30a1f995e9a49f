-- ===== src/Daemon/Invariant.antt =====
-- What every run of the daemon of src/daemon.rs keeps: a property of a peer that obeys the laws, of all
-- peers.
use mesh_vpn.Base.{
  ℕ, suc, refl, ◌∙◌, sym, subst, Bool, none, some, List, [], ◌∷◌, Bytes, Option, arith,
}
use mesh_vpn.Net.{Noise, Draw, Parsers}
use mesh_vpn.Coordinatord.{PollResponse}
use mesh_vpn.Peer.{Peer, MagicConfig, check_rotation}
use mesh_vpn.Manager.{sync_peers, parse_wanted}
use mesh_vpn.Metrics.{Metrics}
use mesh_vpn.Daemon.State.{Shared}
use mesh_vpn.Daemon.Table.{All, All-sync, Carries}
use mesh_vpn.Daemon.Tun.{Action, account}
use mesh_vpn.Daemon.Timer.{
  Turn, Draws, attempt, rotate, bury, keep_alive, retransmit, renew, turn, turns, tick,
}
use mesh_vpn.Daemon.Poll.{on_poll_response}
use mesh_vpn.Daemon.Run.{
  Step, Run, datagram, relayed, from_tun, accounted, ticked, polled, start, next,
}
use mesh_vpn.Daemon.Keeps.{Keeps, Keeps-refl, Keeps-peers, on_datagram-Keeps}
use mesh_vpn.Daemon.Keeps.Others.{on_relayed-Keeps, on_tun_packet-Keeps}
use mesh_vpn.Daemon.Laws.{Laws, IsParsed, parse_wanted-IsParsed}

module _ {H T : Type 0} (N : Noise H T) (P : Parsers) (Q : MagicConfig → Peer H T → Type 0)
    (L : Laws N P Q) (now : ℕ) (has_relay : Bool) (priv : Bytes) (magic : MagicConfig) where
  attempt_lem :
      (draw : Draw) (t : Turn H T)
      → Q magic t.peer
      → Q magic (attempt N now has_relay priv draw t).peer
  unfolding attempt
  attempt_lem draw t s = L.initiated magic now draw priv t.peer s

  rotate_lem :
      (draw : Draw) (t : Turn H T)
      → Q magic t.peer
      → Q magic (rotate N now has_relay priv draw t).peer
  unfolding rotate
  rotate_lem draw t s =
      let checked : Turn H T = record t { peer = (check_rotation now t.peer).1 } in
      let sound = L.rotated magic now t.peer s in
      ground (arith, sound, attempt_lem draw checked sound)

  bury_lem : (t : Turn H T) → Q magic t.peer → Q magic (bury N now has_relay priv t).peer
  unfolding bury
  bury_lem t s = ground (arith, s, L.buried magic t.peer s)

  keep_alive_lem :
      (draw : Draw) (t : Turn H T)
      → Q magic t.peer
      → Q magic (keep_alive N now has_relay priv draw t).peer
  unfolding keep_alive
  keep_alive_lem draw t s = ground (arith, s, L.encrypted magic now draw [] t.peer s)

  retransmit_lem :
      (t : Turn H T) → Q magic t.peer → Q magic (retransmit N now has_relay priv t).peer
  unfolding retransmit
  retransmit_lem t s = ground (arith, s, L.resent magic now t.peer s)

  renew_lem :
      (draw : Draw) (t : Turn H T)
      → Q magic t.peer
      → Q magic (renew N now has_relay priv draw t).peer
  unfolding renew
  renew_lem draw t s = ground (arith, attempt_lem draw t s, retransmit_lem t s)

  turn_lem :
      (draws : Draws) (t : Turn H T)
      → Q magic t.peer
      → Q magic (turn N now has_relay priv draws t).peer
  unfolding turn
  turn_lem draws t s =
      renew_lem draws.renewal _
        (keep_alive_lem draws.keepalive _ (bury_lem _ (rotate_lem draws.rotation t s)))

  turns-All :
      (draws : ℕ → Draws) (i : ℕ) (ps : List (Peer H T)) (actions : List Action) (m : Metrics)
      → All (Q magic) ps
      → All (Q magic) (turns N now has_relay priv draws i ps actions m).2
  unfolding turns
  turns-All draws i [] actions m a = tt
  turns-All draws i (p ∷ ps) actions m a = (
    turn_lem (draws i) (record { actions = actions; metrics = m; peer = p }) a.0,
    turns-All draws (suc i) ps _ _ a.1,
  )

module _ {H T : Type 0} (N : Noise H T) (P : Parsers) (Q : MagicConfig → Peer H T → Type 0)
    (L : Laws N P Q) where
  account-Keeps :
      (taken : Bool) (action : Option Action) (s : Shared H T) → Keeps Q s (account taken action s)
  unfolding account
  account-Keeps taken none s = Keeps-refl Q s s refl
  account-Keeps taken (some (packet, dest)) s = Keeps-refl Q s _ (ground arith)

  sync-Carries : (now : ℕ) (magic : MagicConfig) → Carries (Q magic) (IsParsed P) now magic
  sync-Carries now magic = record { fresh = L.fresh magic now; moved = L.moved magic }

  on_poll_response-Keeps :
      (now : ℕ) (resp : Option PollResponse) (s : Shared H T)
      → Keeps Q s (on_poll_response P now resp s).1
  unfolding on_poll_response sync_peers
  on_poll_response-Keeps now none s = Keeps-refl Q s s refl
  on_poll_response-Keeps now (some resp) s = Keeps-peers Q s _ _ refl (λ a.
      All-sync (Q s.manager.magic) (IsParsed P) now s.manager.magic
        (sync-Carries now s.manager.magic) (parse_wanted P resp.peers)
        (parse_wanted-IsParsed P resp.peers) s.manager.peers a)

  tick-Keeps :
      (now : ℕ) (has_relay : Bool) (draws : ℕ → Draws) (s : Shared H T)
      → Keeps Q s (tick N now has_relay draws s).1
  unfolding tick
  tick-Keeps now has_relay draws s = Keeps-peers Q s _ _ refl (λ a.
      turns-All N P Q L now has_relay s.manager.local_priv s.manager.magic draws 0 s.manager.peers
        [] s.metrics a)

module _ {H T : Type 0} (N : Noise H T) (P : Parsers) (Q : MagicConfig → Peer H T → Type 0)
    (L : Laws N P Q) where
  Step-Keeps : {s s' : Shared H T} → Step N P s s' → Keeps Q s s'
  Step-Keeps (datagram s now draw addr bytes) = on_datagram-Keeps N P Q L now draw addr bytes s
  Step-Keeps (relayed s now draw pkt) = on_relayed-Keeps N P Q L now draw pkt s
  Step-Keeps (from_tun s s' now pad_draw hs_draw has_relay bytes action e) =
      on_tun_packet-Keeps N P Q L now pad_draw hs_draw has_relay bytes s s' action e
  Step-Keeps (accounted s taken action) = account-Keeps N P Q L taken action s
  Step-Keeps (ticked s now has_relay draws) = tick-Keeps N P Q L now has_relay draws s
  Step-Keeps (polled s now resp) = on_poll_response-Keeps N P Q L now resp s

  pub Run-Keeps : {s s' : Shared H T} → Run N P s s' → Keeps Q s s'
  Run-Keeps {s} start = Keeps-refl Q s s refl
  Run-Keeps {s} {s'} (next {t} r st) =
      let before = Run-Keeps r in
      let after = Step-Keeps st in
      record {
        local_priv = after.local_priv ∙ before.local_priv;
        magic = after.magic ∙ before.magic;
        peers = λ a.
            subst (λ m. All (Q m) s'.manager.peers) before.magic
              (after.peers
                (subst (λ m. All (Q m) t.manager.peers) (sym before.magic) (before.peers a)));
      }
