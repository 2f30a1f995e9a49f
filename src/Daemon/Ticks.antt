-- ===== src/Daemon/Ticks.antt =====
-- What a tick of the timer in src/daemon.rs guarantees of each peer.
use mathlib.Core.Option.{some-injective}
use mesh_vpn.Base.{
  ℕ, zero, suc, ◌<◌, ◌≡◌, subst, ◌⊎◌, Bool, none, some, List, [], ◌∷◌, Bytes, arith, get_elem?,
}
use mesh_vpn.Net.{Noise, Draw, elapsed_secs}
use mesh_vpn.Peer.{Peer, initiate_handshake, encrypt_packet}
use mesh_vpn.Metrics.{Metrics}
use mesh_vpn.Daemon.State.{Shared}
use mesh_vpn.Daemon.Tun.{Action}
use mesh_vpn.Daemon.Timer.{
  Turn, Draws, attempt, rotate, bury, keep_alive, retransmit, renew, turn, turns, tick,
}

-- A session that is still active was heard less than 15 seconds ago.
abbrev pub IsAlive : {H T : Type 0} → ℕ → Peer H T → Type 0
IsAlive now p = (p.active ≡ none) ⊎ (elapsed_secs now p.last_rx < 15)

module _ {H T : Type 0} (N : Noise H T) (now : ℕ) (has_relay : Bool) (priv : Bytes) where
  bury-IsAlive : (t : Turn H T) → IsAlive now (bury N now has_relay priv t).peer
  unfolding bury
  bury-IsAlive t = ground arith

  last_rx-encrypt_packet :
      (draw : Draw) (payload : Bytes) (p : Peer H T)
      → (encrypt_packet N now draw payload p).1.last_rx ≡ p.last_rx
  unfolding encrypt_packet
  last_rx-encrypt_packet draw payload p = ground arith

  last_rx-initiate_handshake :
      (draw : Draw) (p : Peer H T)
      → ((initiate_handshake N now draw priv p).1.last_rx ≡ p.last_rx)
        × ((initiate_handshake N now draw priv p).1.active ≡ p.active)
  unfolding initiate_handshake
  last_rx-initiate_handshake draw p = (ground arith, ground arith)

  keep_alive-IsAlive :
      (draw : Draw) (t : Turn H T)
      → IsAlive now t.peer
      → IsAlive now (keep_alive N now has_relay priv draw t).peer
  unfolding keep_alive
  keep_alive-IsAlive draw t v = ground (arith, last_rx-encrypt_packet draw [] t.peer)

  renew-IsAlive :
      (draw : Draw) (t : Turn H T)
      → IsAlive now t.peer
      → IsAlive now (renew N now has_relay priv draw t).peer
  unfolding renew attempt retransmit
  renew-IsAlive draw t v = ground (arith, last_rx-initiate_handshake draw t.peer)

  turn-IsAlive :
      (draws : Draws) (t : Turn H T) → IsAlive now (turn N now has_relay priv draws t).peer
  unfolding turn
  turn-IsAlive draws t = renew-IsAlive draws.renewal _ (
      keep_alive-IsAlive draws.keepalive _
        (bury-IsAlive (rotate N now has_relay priv draws.rotation t)))

  turns-IsAlive :
      (draws : ℕ → Draws) (i : ℕ) (ps : List (Peer H T)) (actions : List Action) (m : Metrics)
      (j : ℕ) (q : Peer H T)
      → get_elem? (turns N now has_relay priv draws i ps actions m).2 j ≡ some q
      → IsAlive now q
  unfolding turns
  turns-IsAlive draws i [] actions m j q e = absurd (cc)
  turns-IsAlive draws i (p ∷ ps) actions m zero q e =
      subst (IsAlive now) (some-injective _ _ e)
        (turn-IsAlive (draws i) (record { actions = actions; metrics = m; peer = p }))
  turns-IsAlive draws i (p ∷ ps) actions m (suc j) q e = turns-IsAlive draws (suc i) ps _ _ j q e

-- After a tick every session that is still active belongs to a peer that was heard less than 15
-- seconds before it: the others are gone.
pub tick-IsAlive :
    {H T : Type 0} (N : Noise H T) (now : ℕ) (has_relay : Bool) (draws : ℕ → Draws) (s : Shared H T)
    (j : ℕ) (q : Peer H T)
    → get_elem? (tick N now has_relay draws s).1.manager.peers j ≡ some q
    → IsAlive now q
unfolding tick
tick-IsAlive N now has_relay draws s j q e =
    turns-IsAlive N now has_relay s.manager.local_priv draws 0 s.manager.peers [] s.metrics j q e
