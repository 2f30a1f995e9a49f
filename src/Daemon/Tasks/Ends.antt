-- ===== src/Daemon/Tasks/Ends.antt =====
-- After the shutdown signal, every task of src/daemon.rs can come to its end.
use mesh_vpn.Base.{◌≡◌, refl, sym, ◌∙◌, Bool, true, false, ◌||◌, ◌&&◌, arith, ap, subst, not}
use mesh_vpn.Daemon.Tasks.{
  Loop, tun_to_udp, udp_to_tun, timer, poll, Phase, waiting, working, sending, ended, pending, Link,
  at_head, connecting, connected, backing_off, link_ended, no_relay, Tasks, Step, ready,
  finished_body, hands_over, sent, not_sent, token, empty_read, begins, gives_up, connects, refused,
  drains, answers, drops, cut_off, backed_off, gave_up, noticed, link_noticed, shutdown, Steps,
  here, then_, spawn, phase_of, with_phase, with_link, has_sender,
}
use mesh_vpn.Daemon.Tasks.Stopping.{Any, same_cancelled, same_link}
use mesh_vpn.Daemon.Tasks.Stalls.{is_sending}

abbrev has_link : Link → Bool
has_link at_head = true
has_link connecting = true
has_link connected = true
has_link backing_off = true
has_link link_ended = true
has_link no_relay = false

abbrev pub is_stopped : Phase → Bool
is_stopped waiting = false
is_stopped working = false
is_stopped sending = false
is_stopped ended = true
is_stopped pending = true

abbrev pub is_link_final : Link → Bool
is_link_final at_head = false
is_link_final connecting = false
is_link_final connected = false
is_link_final backing_off = false
is_link_final link_ended = true
is_link_final no_relay = true

abbrev pub all_stopped : Tasks → Bool
all_stopped s =
    is_stopped s.tun
    && is_stopped s.udp
    && is_stopped s.tick
    && is_stopped s.polling
    && is_link_final s.link

abbrev any_sending : Tasks → Bool
any_sending s = is_sending s.tun || is_sending s.udp || is_sending s.tick || is_sending s.polling

-- Where there is no relay, no task sends to it.
unfoldable IsTidy : Tasks → Type 0
IsTidy s = (has_link s.link || not (any_sending s)) ≡ true

with_phase-IsTidy :
    (l : Loop) (p : Phase) (s : Tasks) → is_sending p ≡ false → IsTidy s → IsTidy (with_phase l p s)
unfolding IsTidy
with_phase-IsTidy tun_to_udp p s e h = ground arith
with_phase-IsTidy udp_to_tun p s e h = ground arith
with_phase-IsTidy timer p s e h = ground arith
with_phase-IsTidy poll p s e h = ground arith

linked-IsTidy : (s : Tasks) → has_link s.link ≡ true → IsTidy s
unfolding IsTidy
linked-IsTidy s e = rw e refl

has_sender-has_link : (l : Loop) (k : Link) → has_sender l k ≡ true → has_link k ≡ true
has_sender-has_link l at_head h = refl
has_sender-has_link l connecting h = refl
has_sender-has_link l connected h = refl
has_sender-has_link l backing_off h = refl
has_sender-has_link l link_ended h = refl
has_sender-has_link l no_relay h = absurd (cc)

Step-IsTidy : {s t : Tasks} → Step s t → IsTidy s → IsTidy t
unfolding IsTidy
Step-IsTidy (ready l s e) v = with_phase-IsTidy l working s refl v
Step-IsTidy (finished_body l s e) v = with_phase-IsTidy l waiting s refl v
Step-IsTidy (hands_over l s e h) v =
    linked-IsTidy (with_phase l sending s)
      (ap has_link (same_link sending s l) ∙ has_sender-has_link l s.link h)
Step-IsTidy (sent l s e q) v = with_phase-IsTidy l working s refl v
Step-IsTidy (not_sent l s e k) v = with_phase-IsTidy l working s refl v
Step-IsTidy (token l s e c) v = with_phase-IsTidy l ended s refl v
Step-IsTidy (empty_read s e) v = with_phase-IsTidy tun_to_udp ended s refl v
Step-IsTidy (begins s e c) v = refl
Step-IsTidy (gives_up s e c) v = refl
Step-IsTidy (connects s e) v = refl
Step-IsTidy (refused s e) v = refl
Step-IsTidy (drains s e q) v = v
Step-IsTidy (answers s e q) v = v
Step-IsTidy (drops s e) v = refl
Step-IsTidy (cut_off s e c) v = refl
Step-IsTidy (backed_off s e) v = refl
Step-IsTidy (gave_up s e c) v = refl
Step-IsTidy (noticed l s m e) v = v
Step-IsTidy (link_noticed s m e) v = v
Step-IsTidy (shutdown s m) v = v

Steps-IsTidy : {C : Tasks → Type 0} {s t : Tasks} → Steps C s t → IsTidy s → IsTidy t
Steps-IsTidy here v = v
Steps-IsTidy (then_ r st c) v = Step-IsTidy st (Steps-IsTidy r v)

spawn-IsTidy : (a b : Bool) → IsTidy (spawn a b)
unfolding IsTidy spawn
spawn-IsTidy a b = ground arith

pub joined : {s t u : Tasks} → Steps Any s t → Steps Any t u → Steps Any s u
joined r here = r
joined r (then_ q st c) = then_ (joined r q) st c

once : {s t : Tasks} → Step s t → Steps Any s t
once st = then_ here st tt

-- A loop that has stopped for good; a future that never ends was never a loop.
abbrev pub final : Phase → Phase
final waiting = ended
final working = ended
final sending = ended
final ended = ended
final pending = pending

abbrev pub final_link : Link → Link
final_link at_head = link_ended
final_link connecting = link_ended
final_link connected = link_ended
final_link backing_off = link_ended
final_link link_ended = link_ended
final_link no_relay = no_relay

link_ends :
    (k : Link) (s : Tasks)
    → s.link ≡ k
    → s.cancelled ≡ true
    → Steps Any s (with_link (final_link k) s)
link_ends at_head s e c = once (gives_up s e c)
link_ends connecting s e c =
    then_ (once (refused s e)) (gave_up (with_link backing_off s) refl c) tt
link_ends connected s e c = once (cut_off s e c)
link_ends backing_off s e c = once (gave_up s e c)
link_ends link_ended s e c = subst (λ k. Steps Any s (with_link k s)) e here
link_ends no_relay s e c = subst (λ k. Steps Any s (with_link k s)) e here

phase-with_phase : (l : Loop) (p : Phase) (s : Tasks) → phase_of l (with_phase l p s) ≡ p
phase-with_phase tun_to_udp p s = refl
phase-with_phase udp_to_tun p s = refl
phase-with_phase timer p s = refl
phase-with_phase poll p s = refl

with_phase-twice :
    (l : Loop) (p q : Phase) (s : Tasks) → with_phase l q (with_phase l p s) ≡ with_phase l q s
with_phase-twice tun_to_udp p q s = refl
with_phase-twice udp_to_tun p q s = refl
with_phase-twice timer p q s = refl
with_phase-twice poll p q s = refl

with_phase-same : (l : Loop) (s : Tasks) → with_phase l (phase_of l s) s ≡ s
with_phase-same tun_to_udp s = refl
with_phase-same udp_to_tun s = refl
with_phase-same timer s = refl
with_phase-same poll s = refl

-- The relay task is over, the token is cancelled, and a task that sends can notice the first.
record IsClosing (s : Tasks) : Type 0 where
  tidy : IsTidy s
  over : is_link_final s.link ≡ true
  off : s.cancelled ≡ true

with_phase-IsClosing :
    (l : Loop) (p : Phase) (s : Tasks)
    → is_sending p ≡ false
    → IsClosing s
    → IsClosing (with_phase l p s)
with_phase-IsClosing l p s e v = record {
  tidy = with_phase-IsTidy l p s e v.tidy;
  over = ap is_link_final (same_link p s l) ∙ v.over;
  off = same_cancelled p s l ∙ v.off;
}

sending-link_ended :
    (l : Loop) (s : Tasks) → phase_of l s ≡ sending → IsClosing s → s.link ≡ link_ended
unfolding IsTidy
sending-link_ended l s e v = go s.link refl
  where
    quiet : (k : Loop) → phase_of k s ≡ sending → s.link ≡ no_relay → s.link ≡ link_ended
    quiet tun_to_udp f n = let h = v.tidy in absurd (ground (arith, f, n, h))
    quiet udp_to_tun f n = let h = v.tidy in absurd (ground (arith, f, n, h))
    quiet timer f n = let h = v.tidy in absurd (ground (arith, f, n, h))
    quiet poll f n = let h = v.tidy in absurd (ground (arith, f, n, h))

    go : (k : Link) → s.link ≡ k → s.link ≡ link_ended
    go at_head n = let h = v.over in absurd (ground (arith, n, h))
    go connecting n = let h = v.over in absurd (ground (arith, n, h))
    go connected n = let h = v.over in absurd (ground (arith, n, h))
    go backing_off n = let h = v.over in absurd (ground (arith, n, h))
    go link_ended n = n
    go no_relay n = quiet l e n

working_ends :
    (l : Loop) (s : Tasks)
    → phase_of l s ≡ working
    → s.cancelled ≡ true
    → Steps Any s (with_phase l ended s)
working_ends l s e c = subst (Steps Any s) (with_phase-twice l waiting ended s) (
    then_ (once (finished_body l s e))
      (token l (with_phase l waiting s) (phase-with_phase l waiting s)
        (same_cancelled waiting s l ∙ c))
      tt)

loop_ends :
    (l : Loop) (p : Phase) (s : Tasks)
    → phase_of l s ≡ p
    → IsClosing s
    → Steps Any s (with_phase l (final p) s)
loop_ends l waiting s e v = once (token l s e v.off)
loop_ends l working s e v = working_ends l s e v.off
loop_ends l sending s e v = subst (Steps Any s) (with_phase-twice l working ended s) (
    joined (once (not_sent l s e (sending-link_ended l s e v))) (
      working_ends l (with_phase l working s) (phase-with_phase l working s)
        (same_cancelled working s l ∙ v.off)))
loop_ends l ended s e v =
    subst (Steps Any s) (sym (ap (λ p. with_phase l p s) (sym e) ∙ with_phase-same l s)) here
loop_ends l pending s e v =
    subst (Steps Any s) (sym (ap (λ p. with_phase l p s) (sym e) ∙ with_phase-same l s)) here

final-still : (p : Phase) → is_sending (final p) ≡ false
final-still waiting = refl
final-still working = refl
final-still sending = refl
final-still ended = refl
final-still pending = refl

final-is_stopped : (p : Phase) → is_stopped (final p) ≡ true
final-is_stopped waiting = refl
final-is_stopped working = refl
final-is_stopped sending = refl
final-is_stopped ended = refl
final-is_stopped pending = refl

final_link-is_link_final : (k : Link) → is_link_final (final_link k) ≡ true
final_link-is_link_final at_head = refl
final_link-is_link_final connecting = refl
final_link-is_link_final connected = refl
final_link-is_link_final backing_off = refl
final_link-is_link_final link_ended = refl
final_link-is_link_final no_relay = refl

-- One loop after the other.
stops : Loop → Tasks → Tasks
stops l s = with_phase l (final (phase_of l s)) s

stops-IsClosing :
    (l : Loop) (s : Tasks) → IsClosing s → Steps Any s (stops l s) × IsClosing (stops l s)
unfolding stops
stops-IsClosing l s v = (
  loop_ends l (phase_of l s) s refl v,
  with_phase-IsClosing l (final (phase_of l s)) s (final-still (phase_of l s)) v,
)

-- In every run of the tasks, once the token is cancelled, there are steps after which each task has ended
-- or was never a loop, also where a task waits for room in the full channel.
pub spawn-stops :
    (has_coordinator has_relay : Bool) (s : Tasks)
    → Steps Any (spawn has_coordinator has_relay) s
    → s.cancelled ≡ true
    → (t : Tasks) × Steps Any s t × (all_stopped t ≡ true)
unfolding stops
spawn-stops has_coordinator has_relay s r c =
    let s0 = with_link (final_link s.link) s in
    let r0 = link_ends s.link s refl c in
    let v0 : IsClosing s0 = record {
      tidy = Steps-IsTidy r0 (Steps-IsTidy r (spawn-IsTidy has_coordinator has_relay));
      over = final_link-is_link_final s.link;
      off = c;
    } in
    let (r1, v1) = stops-IsClosing tun_to_udp s0 v0 in
    let (r2, v2) = stops-IsClosing udp_to_tun (stops tun_to_udp s0) v1 in
    let (r3, v3) = stops-IsClosing timer (stops udp_to_tun (stops tun_to_udp s0)) v2 in
    let (r4, v4) = stops-IsClosing poll (stops timer (stops udp_to_tun (stops tun_to_udp s0))) v3 in
    (
      _,
      joined r0 (joined r1 (joined r2 (joined r3 r4))),
      ground (
        arith,
        final-is_stopped s.tun,
        final-is_stopped s.udp,
        final-is_stopped s.tick,
        final-is_stopped s.polling,
        final_link-is_link_final s.link,
      ),
    )
