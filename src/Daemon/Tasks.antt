-- ===== src/Daemon/Tasks.antt =====
-- The tasks of src/daemon.rs as `run_with_settings` starts them: how they wait, hand packets to the relay
-- task and stop.

pub mod Stopping
pub mod Stalls
pub mod Ends
mod Examples
use mesh_vpn.Base.{ℕ, suc, ◌-◌, ◌<◌, ◌≡◌, Bool, true, false, if◌then◌else◌}

-- The loops that wait at one `select!`.
pub data Loop : Type 0 where
  tun_to_udp udp_to_tun timer poll : Loop

-- At its `select!`, in its body, at `relay_tx.send(...)`, ended, or a future that never ends.
pub data Phase : Type 0 where
  waiting working sending ended pending : Phase

-- The relay task: at the head of its loop, in `connect`, at the `select!` of a connection, at that of the
-- backoff, ended, or pending where there is no relay.
pub data Link : Type 0 where
  at_head connecting connected backing_off link_ended no_relay : Link

pub data Main : Type 0 where
  selecting returned : Main

pub record Tasks : Type 0 where
  pub tun : Phase
  pub udp : Phase
  pub tick : Phase
  pub polling : Phase
  pub link : Link
  pub queued : ℕ
  pub cancelled : Bool
  pub main : Main

-- `mpsc::channel::<OutboundRelayPacket>(128)`
abbrev pub relay_capacity : ℕ
relay_capacity = 128

unfoldable pub spawn : Bool → Bool → Tasks
spawn has_coordinator has_relay = record {
  tun = waiting;
  udp = waiting;
  tick = waiting;
  polling = if has_coordinator then waiting else pending;
  link = if has_relay then at_head else no_relay;
  queued = 0;
  cancelled = false;
  main = selecting;
}

abbrev pub phase_of : Loop → Tasks → Phase
phase_of tun_to_udp s = s.tun
phase_of udp_to_tun s = s.udp
phase_of timer s = s.tick
phase_of poll s = s.polling

abbrev pub with_phase : Loop → Phase → Tasks → Tasks
with_phase tun_to_udp p s = record s { tun = p }
with_phase udp_to_tun p s = record s { udp = p }
with_phase timer p s = record s { tick = p }
with_phase poll p s = record s { polling = p }

abbrev pub with_link : Link → Tasks → Tasks
with_link k s = record s { link = k }

-- The tasks that are given a sender of the relay channel, where there is a relay.
abbrev pub has_sender : Loop → Link → Bool
has_sender l no_relay = false
has_sender tun_to_udp k = true
has_sender timer k = true
has_sender udp_to_tun k = false
has_sender poll k = false

-- What can happen next. A body runs to its end without a look at the token; where both branches of a
-- `select!` are ready, either is taken. A full channel makes a sender wait, and its receiver is dropped
-- with the relay task.
pub data Step : Tasks → Tasks → Type 0 where
  ready : (l : Loop) (s : Tasks) → phase_of l s ≡ waiting → Step s (with_phase l working s)
  finished_body : (l : Loop) (s : Tasks) → phase_of l s ≡ working → Step s (with_phase l waiting s)
  hands_over :
      (l : Loop) (s : Tasks)
      → phase_of l s ≡ working
      → has_sender l s.link ≡ true
      → Step s (with_phase l sending s)
  sent :
      (l : Loop) (s : Tasks)
      → phase_of l s ≡ sending
      → s.queued < relay_capacity
      → Step s (record (with_phase l working s) { queued = suc s.queued })
  not_sent :
      (l : Loop) (s : Tasks)
      → phase_of l s ≡ sending
      → s.link ≡ link_ended
      → Step s (with_phase l working s)
  token :
      (l : Loop) (s : Tasks)
      → phase_of l s ≡ waiting
      → s.cancelled ≡ true
      → Step s (with_phase l ended s)
  empty_read : (s : Tasks) → s.tun ≡ waiting → Step s (record s { tun = ended })
  begins : (s : Tasks) → s.link ≡ at_head → s.cancelled ≡ false → Step s (with_link connecting s)
  gives_up : (s : Tasks) → s.link ≡ at_head → s.cancelled ≡ true → Step s (with_link link_ended s)
  connects : (s : Tasks) → s.link ≡ connecting → Step s (with_link connected s)
  refused : (s : Tasks) → s.link ≡ connecting → Step s (with_link backing_off s)
  drains :
      (s : Tasks) → s.link ≡ connected → 0 < s.queued → Step s (record s { queued = s.queued - 1 })
  answers :
      (s : Tasks)
      → s.link ≡ connected
      → s.queued < relay_capacity
      → Step s (record s { queued = suc s.queued })
  drops : (s : Tasks) → s.link ≡ connected → Step s (with_link backing_off s)
  cut_off : (s : Tasks) → s.link ≡ connected → s.cancelled ≡ true → Step s (with_link link_ended s)
  backed_off : (s : Tasks) → s.link ≡ backing_off → Step s (with_link at_head s)
  gave_up :
      (s : Tasks) → s.link ≡ backing_off → s.cancelled ≡ true → Step s (with_link link_ended s)
  noticed :
      (l : Loop) (s : Tasks)
      → s.main ≡ selecting
      → phase_of l s ≡ ended
      → Step s (record s { main = returned })
  link_noticed :
      (s : Tasks) → s.main ≡ selecting → s.link ≡ link_ended → Step s (record s { main = returned })
  shutdown :
      (s : Tasks) → s.main ≡ selecting → Step s (record s { main = returned; cancelled = true })

-- Steps one after the other, after each of which `C` holds.
pub data Steps (C : Tasks → Type 0) : Tasks → Tasks → Type 0 where
  here : {s : Tasks} → Steps C s s
  then_ : {s t u : Tasks} → Steps C s t → Step t u → C u → Steps C s u
