-- ===== src/Daemon/Timer.antt =====
-- `spawn_timer_task` of src/daemon.rs: what one tick of the timer does to each peer.
use mesh_vpn.Base.{
  ℕ, suc, Bool, ◌&&◌, ◌||◌, Option, none, some, List, [], ◌∷◌, ◌++◌, Bytes, if◌then◌else◌, leb,
}
use mesh_vpn.Net.{Noise, Draw, elapsed_secs}
use mesh_vpn.Peer.{
  Peer, check_rotation, initiate_handshake, encrypt_packet, determine_dest, is_none, is_some,
}
use mesh_vpn.Metrics.{Metrics, record_handshake_attempt}
use mesh_vpn.Daemon.State.{Shared, with_peers}
use mesh_vpn.Daemon.Tun.{Action, addressed}

-- The actions and the metrics of the tick so far, and the peer under the loop.
pub record Turn (H T : Type 0) : Type 0 where
  pub actions : List Action
  pub metrics : Metrics
  pub peer : Peer H T

-- `actions.push`, where there is something to send and a place to send it to.
abbrev pub push : List Action → Option Action → List Action
push actions none = actions
push actions (some a) = actions ++ (a ∷ [])

-- What a turn draws: for the rotation, the keepalive and the new handshake.
pub record Draws : Type 0 where
  pub rotation : Draw
  pub keepalive : Draw
  pub renewal : Draw

module _ {H T : Type 0} (N : Noise H T) (now : ℕ) (has_relay : Bool) (local_priv : Bytes) where
  -- A handshake attempt, counted whether or not it can be built.
  unfoldable pub attempt : Draw → Turn H T → Turn H T
  attempt draw t =
      let (packet, q) = initiate_handshake N now draw local_priv t.peer in
      record {
        actions = push t.actions (addressed packet (determine_dest now has_relay q));
        metrics = record_handshake_attempt t.metrics;
        peer = q;
      }

  -- 1. Rotation.
  unfoldable pub rotate : Draw → Turn H T → Turn H T
  unfolding attempt
  rotate draw t =
      let (due, p) = check_rotation now t.peer in
      let checked : Turn H T = record t { peer = p } in
      if due && is_none p.handshake then attempt draw checked else checked

  -- 2. A session that has received nothing for 15 seconds is dead.
  unfoldable pub bury : Turn H T → Turn H T
  bury t =
      if is_some t.peer.active && leb 15 (elapsed_secs now t.peer.last_rx)
      then record t { peer = record (t.peer) { active = none; previous = none } }
      else t

  -- 3. An empty data packet after 10 seconds without sending.
  unfoldable pub keep_alive : Draw → Turn H T → Turn H T
  keep_alive draw t =
      if is_some t.peer.active && leb 10 (elapsed_secs now t.peer.last_tx)
      then (let (packet, q) = encrypt_packet N now draw [] t.peer in
          record t {
            actions = push t.actions (addressed packet (determine_dest now has_relay q));
            peer = q;
          })
      else t

  -- 4. A new handshake where there is none, or the last message again after 2 seconds.
  unfoldable pub retransmit : Turn H T → Turn H T
  retransmit t = elim t.peer.last_handshake_attempt [
    | none ↦ t
    | some at ↦
        if leb 2 (elapsed_secs now at)
        then (let q : Peer H T = record (t.peer) { last_handshake_attempt = some now } in
            record t {
              actions =
                  push t.actions
                    (addressed q.last_handshake_packet (determine_dest now has_relay q));
              peer = q;
            })
        else t
  ]

  unfoldable pub renew : Draw → Turn H T → Turn H T
  unfolding attempt retransmit
  renew draw t =
      if is_none t.peer.active && is_none t.peer.handshake && (is_some t.peer.endpoint || has_relay)
      then attempt draw t
      else retransmit t

  unfoldable pub turn : Draws → Turn H T → Turn H T
  unfolding rotate bury keep_alive renew
  turn draws t = renew draws.renewal (keep_alive draws.keepalive (bury (rotate draws.rotation t)))

  -- The loop over the peers; `draws` says what each draws, by its place in the table.
  unfoldable pub turns :
      (ℕ → Draws)
      → ℕ
      → List (Peer H T)
      → List Action
      → Metrics
      → List Action × Metrics × List (Peer H T)
  unfolding turn
  turns draws i [] actions m = (actions, m, [])
  turns draws i (p ∷ ps) actions m =
      let t = turn (draws i) (record { actions = actions; metrics = m; peer = p }) in
      let (sent, m', qs) = turns draws (suc i) ps t.actions t.metrics in (sent, m', t.peer ∷ qs)

-- One tick: the actions are sent once the lock is released.
unfoldable pub tick :
    {H T : Type 0} → Noise H T → ℕ → Bool → (ℕ → Draws) → Shared H T → List Action × Shared H T
unfolding turns
tick N now has_relay draws s =
    let (actions, m, peers) =
      turns N now has_relay s.manager.local_priv draws 0 s.manager.peers [] s.metrics in
    (actions, record (with_peers s peers) { metrics = m })
