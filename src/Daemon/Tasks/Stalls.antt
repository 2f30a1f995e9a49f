-- ===== src/Daemon/Tasks/Stalls.antt =====
-- A relay that is not connected stalls the task of the TUN device in src/daemon.rs once the channel is full.
use mesh_vpn.Base.{◌≡◌, ◌≢◌, refl, Bool, true, false, arith}
use mesh_vpn.Daemon.Tasks.{
  Loop, tun_to_udp, udp_to_tun, timer, poll, Phase, waiting, working, sending, ended, pending,
  connected, link_ended, Tasks, Step, ready, finished_body, hands_over, sent, not_sent, token,
  empty_read, begins, gives_up, connects, refused, drains, answers, drops, cut_off, backed_off,
  gave_up, noticed, link_noticed, shutdown, Steps, here, then_, spawn, phase_of, with_phase,
  relay_capacity,
}
use mesh_vpn.Daemon.Tasks.Stopping.{Any, IsOrderly, others_ended, Steps-IsOrderly, spawn-IsOrderly}

-- The relay is not connected, and nobody has cancelled.
abbrev pub IsApart : Tasks → Type 0
IsApart s = (s.link ≢ connected) × (s.cancelled ≡ false)

-- The TUN device's task waits for room in the full channel.
abbrev pub IsStalled : Tasks → Type 0
IsStalled s = (s.tun ≡ sending) × (s.queued ≡ relay_capacity)

abbrev pub is_sending : Phase → Bool
is_sending waiting = false
is_sending working = false
is_sending sending = true
is_sending ended = false
is_sending pending = false

with_phase-IsStalled :
    (l : Loop) (p q : Phase) (s : Tasks)
    → phase_of l s ≡ q
    → is_sending q ≡ false
    → IsStalled s
    → IsStalled (with_phase l p s)
with_phase-IsStalled tun_to_udp p q s e f h = absurd (ground (arith, e, f, h))
with_phase-IsStalled udp_to_tun p q s e f h = h
with_phase-IsStalled timer p q s e f h = h
with_phase-IsStalled poll p q s e f h = h

link_open : (s : Tasks) → IsOrderly s → s.cancelled ≡ false → s.link ≢ link_ended
unfolding others_ended
link_open s v c e = let h = v.ends c in ground (arith, e, h)

Step-IsStalled : {s t : Tasks} → Step s t → IsOrderly s → IsApart s → IsStalled s → IsStalled t
Step-IsStalled (ready l s e) v a h = with_phase-IsStalled l working waiting s e refl h
Step-IsStalled (finished_body l s e) v a h = with_phase-IsStalled l waiting working s e refl h
Step-IsStalled (hands_over l s e k) v a h = with_phase-IsStalled l sending working s e refl h
Step-IsStalled (sent l s e q) v a h = absurd (omega (arith, q, h.1))
Step-IsStalled (not_sent l s e k) v a h = absurd (link_open s v a.1 k)
Step-IsStalled (token l s e c) v a h = with_phase-IsStalled l ended waiting s e refl h
Step-IsStalled (empty_read s e) v a h = absurd (ground (arith, e, h))
Step-IsStalled (begins s e c) v a h = h
Step-IsStalled (gives_up s e c) v a h = h
Step-IsStalled (connects s e) v a h = h
Step-IsStalled (refused s e) v a h = h
Step-IsStalled (drains s e q) v a h = absurd (a.0 e)
Step-IsStalled (answers s e q) v a h = absurd (a.0 e)
Step-IsStalled (drops s e) v a h = h
Step-IsStalled (cut_off s e c) v a h = h
Step-IsStalled (backed_off s e) v a h = h
Step-IsStalled (gave_up s e c) v a h = h
Step-IsStalled (noticed l s m e) v a h = h
Step-IsStalled (link_noticed s m e) v a h = h
Step-IsStalled (shutdown s m) v a h = h

Steps-IsApart : {s t : Tasks} → Steps IsApart s t → IsApart s → IsApart t
Steps-IsApart here a = a
Steps-IsApart (then_ r st c) a = c

Steps-IsStalled :
    {s t : Tasks} → Steps IsApart s t → IsOrderly s → IsApart s → IsStalled s → IsStalled t
Steps-IsStalled here v a h = h
Steps-IsStalled (then_ r st c) v a h =
    Step-IsStalled st (Steps-IsOrderly r v) (Steps-IsApart r a) (Steps-IsStalled r v a h)

-- If, in a run of the tasks, the TUN device's task waits for room in the relay's channel, which has its
-- 128 packets, then it does so, and reads no packet for any peer, as long as the relay is not connected
-- and the token is not cancelled, whatever the other tasks do.
pub spawn-IsStalled :
    (has_coordinator has_relay : Bool) (s t : Tasks)
    → Steps Any (spawn has_coordinator has_relay) s
    → IsStalled s
    → IsApart s
    → Steps IsApart s t
    → IsStalled t
spawn-IsStalled has_coordinator has_relay s t r h a q =
    Steps-IsStalled q (Steps-IsOrderly r (spawn-IsOrderly has_coordinator has_relay)) a h
