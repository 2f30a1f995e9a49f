-- ===== src/Daemon/Tasks/Examples.antt =====
-- Runs of the tasks of src/daemon.rs: one that the TUN device ends, and one that stalls.
use mesh_vpn.Base.{ℕ, zero, suc, ◌≤◌, ◌<◌, ◌≡◌, ◌≢◌, refl, Bool, true, false, arith}
use mesh_vpn.Daemon.Tasks.{
  shutdown, Tasks, Link, connected, link_ended, no_relay, tun_to_udp, timer, waiting, working,
  sending, ended, at_head, connecting, backing_off, selecting, returned, ready, finished_body,
  hands_over, sent, empty_read, begins, refused, noticed, Steps, here, then_, spawn, relay_capacity,
}
use mesh_vpn.Daemon.Tasks.Stopping.{Any, others_ended, spawn-abandoned}
use mesh_vpn.Daemon.Tasks.Ends.{joined, all_stopped, spawn-stops}
use mesh_vpn.Daemon.Tasks.Stalls.{IsApart, IsStalled, spawn-IsStalled}

-- The TUN device ends, the function returns, and the timer goes on.
abbrev gone : Tasks
gone = record {
  tun = ended;
  udp = waiting;
  tick = waiting;
  polling = waiting;
  link = at_head;
  queued = 0;
  cancelled = false;
  main = returned;
}

to_gone : Steps Any (spawn true true) gone
unfolding spawn
to_gone =
    then_ (then_ here (empty_read (spawn true true) refl) tt)
      (noticed tun_to_udp (record gone { main = selecting }) refl refl) tt

goes_on : Steps Any gone (record gone { tick = working })
goes_on = then_ here (ready timer gone refl) tt

spawn-abandoned_example :
    (gone.tun ≡ ended)
    × ((record gone { tick = working }).cancelled ≡ false)
    × (others_ended (record gone { tick = working }) ≡ false)
spawn-abandoned_example =
    spawn-abandoned true true gone (record gone { tick = working }) to_gone refl refl goes_on

-- The relay has refused, and the channel holds `n` packets.
abbrev down : ℕ → Tasks
down n = record {
  tun = waiting;
  udp = waiting;
  tick = waiting;
  polling = waiting;
  link = backing_off;
  queued = n;
  cancelled = false;
  main = selecting;
}

fills : (n : ℕ) → n < relay_capacity → Steps Any (down n) (down (suc n))
fills n h =
    then_
      (then_
        (then_ (then_ here (ready tun_to_udp (down n) refl) tt)
          (hands_over tun_to_udp (record (down n) { tun = working }) refl refl) tt)
        (sent tun_to_udp (record (down n) { tun = sending }) refl h) tt)
      (finished_body tun_to_udp (record (down (suc n)) { tun = working }) refl) tt

filled : (n : ℕ) → n ≤ relay_capacity → Steps Any (spawn true true) (down n)
unfolding spawn
filled zero h =
    then_ (then_ here (begins (spawn true true) refl refl) tt)
      (refused (record (down 0) { link = connecting }) refl) tt
filled (suc n) h = joined (filled n (omega (arith, h))) (fills n (omega (arith, h)))

abbrev is_connected : Link → Bool
is_connected at_head = false
is_connected connecting = false
is_connected connected = true
is_connected backing_off = false
is_connected link_ended = false
is_connected no_relay = false

abbrev full : Tasks
full = record (down relay_capacity) { tun = sending }

to_full : Steps Any (spawn true true) full
to_full =
    then_
      (then_ (filled relay_capacity (omega arith)) (ready tun_to_udp (down relay_capacity) refl) tt)
      (hands_over tun_to_udp (record (down relay_capacity) { tun = working }) refl refl) tt

apart : (k : Link) → is_connected k ≡ false → k ≢ connected
apart k h e = ground (arith, h, e)

-- Another packet's way is blocked while the timer turns.
turning : Steps IsApart full (record full { tick = working })
turning = then_ here (ready timer full refl) (apart backing_off refl, refl)

spawn-IsStalled_example : IsStalled (record full { tick = working })
spawn-IsStalled_example =
    spawn-IsStalled true true full (record full { tick = working }) to_full (refl, refl)
      (apart backing_off refl, refl) turning

-- The shutdown signal comes while the task waits.
abbrev closing : Tasks
closing = record full { main = returned; cancelled = true }

spawn-stops_example : (t : Tasks) × Steps Any closing t × (all_stopped t ≡ true)
spawn-stops_example = spawn-stops true true closing (then_ to_full (shutdown full refl) tt) refl
