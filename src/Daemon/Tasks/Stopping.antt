-- ===== src/Daemon/Tasks/Stopping.antt =====
-- Which tasks of src/daemon.rs end, and when.
use mesh_vpn.Base.{
  ℕ, suc, ◌≡◌, refl, sym, ◌∙◌, Bool, true, false, ◌||◌, arith, ◌⊎◌, inl, inr, Bool-cases, ◌-◌,
}
use mesh_vpn.Daemon.Tasks.{
  Loop, tun_to_udp, udp_to_tun, timer, poll, Phase, waiting, working, sending, ended, pending, Link,
  at_head, connecting, connected, backing_off, link_ended, no_relay, returned, Tasks, Step, ready,
  finished_body, hands_over, sent, not_sent, token, empty_read, begins, gives_up, connects, refused,
  drains, answers, drops, cut_off, backed_off, gave_up, noticed, link_noticed, shutdown, Steps,
  here, then_, spawn, phase_of, with_phase, with_link,
}

abbrev pub is_ended : Phase → Bool
is_ended waiting = false
is_ended working = false
is_ended sending = false
is_ended ended = true
is_ended pending = false

abbrev pub is_link_ended : Link → Bool
is_link_ended at_head = false
is_link_ended connecting = false
is_link_ended connected = false
is_link_ended backing_off = false
is_link_ended link_ended = true
is_link_ended no_relay = false

-- A task other than that of the TUN device has ended.
unfoldable pub others_ended : Tasks → Bool
others_ended s = is_ended s.udp || is_ended s.tick || is_ended s.polling || is_link_ended s.link

pub record IsOrderly (s : Tasks) : Type 0 where
  pub ends : s.cancelled ≡ false → others_ended s ≡ false
  pub returns : s.main ≡ returned → (s.cancelled ≡ true) ⊎ (s.tun ≡ ended)

-- A step of a loop changes its phase only.
module _ (p : Phase) (s : Tasks) where
  pub same_cancelled : (l : Loop) → (with_phase l p s).cancelled ≡ s.cancelled
  same_cancelled tun_to_udp = refl
  same_cancelled udp_to_tun = refl
  same_cancelled timer = refl
  same_cancelled poll = refl

  same_main : (l : Loop) → (with_phase l p s).main ≡ s.main
  same_main tun_to_udp = refl
  same_main udp_to_tun = refl
  same_main timer = refl
  same_main poll = refl

  pub same_link : (l : Loop) → (with_phase l p s).link ≡ s.link
  same_link tun_to_udp = refl
  same_link udp_to_tun = refl
  same_link timer = refl
  same_link poll = refl

  others_ended-with_phase :
      (l : Loop)
      → is_ended p ≡ false
      → others_ended s ≡ false
      → others_ended (with_phase l p s) ≡ false
  unfolding others_ended
  others_ended-with_phase tun_to_udp e h = h
  others_ended-with_phase udp_to_tun e h = ground arith
  others_ended-with_phase timer e h = ground arith
  others_ended-with_phase poll e h = ground arith

others_ended-with_link :
    (k : Link) (s : Tasks)
    → is_link_ended k ≡ false
    → others_ended s ≡ false
    → others_ended (with_link k s) ≡ false
unfolding others_ended
others_ended-with_link k s e h = ground arith

-- The task of the TUN device stays ended.
tun-with_phase :
    (l : Loop) (p q : Phase) (s : Tasks)
    → phase_of l s ≡ q
    → is_ended q ≡ false
    → s.tun ≡ ended
    → (with_phase l p s).tun ≡ ended
tun-with_phase tun_to_udp p q s e f h = absurd (ground (arith, e, f, h))
tun-with_phase udp_to_tun p q s e f h = h
tun-with_phase timer p q s e f h = h
tun-with_phase poll p q s e f h = h

-- A step of a loop that does not end it.
loop-IsOrderly :
    (l : Loop) (p q : Phase) (s : Tasks)
    → phase_of l s ≡ q
    → is_ended q ≡ false
    → is_ended p ≡ false
    → IsOrderly s
    → IsOrderly (with_phase l p s)
loop-IsOrderly l p q s e f g v = record {
  ends = λ c. others_ended-with_phase p s l g (v.ends (sym (same_cancelled p s l) ∙ c));
  returns = λ m. elim (v.returns (sym (same_main p s l) ∙ m)) [
    | inl c ↦ inl (same_cancelled p s l ∙ c)
    | inr t ↦ inr (tun-with_phase l p q s e f t)
  ];
}

-- A step of the relay task that does not end it.
link-IsOrderly :
    (k : Link) (s : Tasks) → is_link_ended k ≡ false → IsOrderly s → IsOrderly (with_link k s)
link-IsOrderly k s e v = record {
  ends = λ c. others_ended-with_link k s e (v.ends c);
  returns = v.returns;
}

tun_ended-IsOrderly : (s : Tasks) → IsOrderly s → IsOrderly (record s { tun = ended })
unfolding others_ended
tun_ended-IsOrderly s v = record { ends = v.ends; returns = λ m. inr refl }

-- Once the token is cancelled, all may end.
cancelled-IsOrderly : (s : Tasks) → s.cancelled ≡ true → IsOrderly s
cancelled-IsOrderly s c = record { ends = λ f. absurd (cc); returns = λ m. inl c }

queue-IsOrderly : (n : ℕ) (s : Tasks) → IsOrderly s → IsOrderly (record s { queued = n })
unfolding others_ended
queue-IsOrderly n s v = record { ends = v.ends; returns = v.returns }

returned-IsOrderly :
    (s : Tasks)
    → (s.cancelled ≡ true) ⊎ (s.tun ≡ ended)
    → IsOrderly s
    → IsOrderly (record s { main = returned })
unfolding others_ended
returned-IsOrderly s why v = record { ends = v.ends; returns = λ m. why }

ended-why :
    (l : Loop) (s : Tasks)
    → phase_of l s ≡ ended
    → IsOrderly s
    → (s.cancelled ≡ true) ⊎ (s.tun ≡ ended)
unfolding others_ended
ended-why l s e v = elim (Bool-cases s.cancelled) [
  | inl c ↦ inl c
  | inr c ↦ inr (which l e (v.ends c))
]
  where
    which : (k : Loop) → phase_of k s ≡ ended → others_ended s ≡ false → s.tun ≡ ended
    which tun_to_udp f h = f
    which udp_to_tun f h = absurd (ground (arith, f, h))
    which timer f h = absurd (ground (arith, f, h))
    which poll f h = absurd (ground (arith, f, h))

link_ended-why :
    (s : Tasks) → s.link ≡ link_ended → IsOrderly s → (s.cancelled ≡ true) ⊎ (s.tun ≡ ended)
unfolding others_ended
link_ended-why s e v = elim (Bool-cases s.cancelled) [
  | inl c ↦ inl c
  | inr c ↦ let h = v.ends c in absurd (ground (arith, e, h))
]

pub Step-IsOrderly : {s t : Tasks} → Step s t → IsOrderly s → IsOrderly t
Step-IsOrderly (ready l s e) v = loop-IsOrderly l working waiting s e refl refl v
Step-IsOrderly (finished_body l s e) v = loop-IsOrderly l waiting working s e refl refl v
Step-IsOrderly (hands_over l s e h) v = loop-IsOrderly l sending working s e refl refl v
Step-IsOrderly (sent l s e q) v =
    queue-IsOrderly (suc s.queued) (with_phase l working s)
      (loop-IsOrderly l working sending s e refl refl v)
Step-IsOrderly (not_sent l s e k) v = loop-IsOrderly l working sending s e refl refl v
Step-IsOrderly (token l s e c) v =
    cancelled-IsOrderly (with_phase l ended s) (same_cancelled ended s l ∙ c)
Step-IsOrderly (empty_read s e) v = tun_ended-IsOrderly s v
Step-IsOrderly (begins s e c) v = link-IsOrderly connecting s refl v
Step-IsOrderly (gives_up s e c) v = cancelled-IsOrderly (with_link link_ended s) c
Step-IsOrderly (connects s e) v = link-IsOrderly connected s refl v
Step-IsOrderly (refused s e) v = link-IsOrderly backing_off s refl v
Step-IsOrderly (drains s e q) v = queue-IsOrderly (s.queued - 1) s v
Step-IsOrderly (answers s e q) v = queue-IsOrderly (suc s.queued) s v
Step-IsOrderly (drops s e) v = link-IsOrderly backing_off s refl v
Step-IsOrderly (cut_off s e c) v = cancelled-IsOrderly (with_link link_ended s) c
Step-IsOrderly (backed_off s e) v = link-IsOrderly at_head s refl v
Step-IsOrderly (gave_up s e c) v = cancelled-IsOrderly (with_link link_ended s) c
Step-IsOrderly (noticed l s m e) v = returned-IsOrderly s (ended-why l s e v) v
Step-IsOrderly (link_noticed s m e) v = returned-IsOrderly s (link_ended-why s e v) v
Step-IsOrderly (shutdown s m) v =
    cancelled-IsOrderly (record s { main = returned; cancelled = true }) refl

pub Steps-IsOrderly : {C : Tasks → Type 0} {s t : Tasks} → Steps C s t → IsOrderly s → IsOrderly t
Steps-IsOrderly here v = v
Steps-IsOrderly (then_ r st c) v = Step-IsOrderly st (Steps-IsOrderly r v)

pub spawn-IsOrderly : (a b : Bool) → IsOrderly (spawn a b)
unfolding spawn others_ended
spawn-IsOrderly a b = record { ends = λ c. ground arith; returns = λ m. absurd (cc) }

-- After the return, nobody cancels the token.
-- Any run.
abbrev pub Any : Tasks → Type 0
Any s = Unit

abbrev Abandoned : Tasks → Type 0
Abandoned t = (t.main ≡ returned) × (t.cancelled ≡ false)

with_phase-Abandoned :
    (l : Loop) (p : Phase) (s : Tasks) → Abandoned s → Abandoned (with_phase l p s)
with_phase-Abandoned l p s a = (same_main p s l ∙ a.0, same_cancelled p s l ∙ a.1)

only_tun : (s : Tasks) → IsOrderly s → s.main ≡ returned → s.cancelled ≡ false → s.tun ≡ ended
only_tun s v m c = elim (v.returns m) [ inl d ↦ absurd (ground (arith, c, d)) | inr e ↦ e ]

Step-Abandoned : {s t : Tasks} → Step s t → Abandoned s → Abandoned t
Step-Abandoned (ready l s e) a = with_phase-Abandoned l working s a
Step-Abandoned (finished_body l s e) a = with_phase-Abandoned l waiting s a
Step-Abandoned (hands_over l s e h) a = with_phase-Abandoned l sending s a
Step-Abandoned (sent l s e q) a = with_phase-Abandoned l working s a
Step-Abandoned (not_sent l s e k) a = with_phase-Abandoned l working s a
Step-Abandoned (token l s e c) a = with_phase-Abandoned l ended s a
Step-Abandoned (empty_read s e) a = a
Step-Abandoned (begins s e c) a = a
Step-Abandoned (gives_up s e c) a = a
Step-Abandoned (connects s e) a = a
Step-Abandoned (refused s e) a = a
Step-Abandoned (drains s e q) a = a
Step-Abandoned (answers s e q) a = a
Step-Abandoned (drops s e) a = a
Step-Abandoned (cut_off s e c) a = a
Step-Abandoned (backed_off s e) a = a
Step-Abandoned (gave_up s e c) a = a
Step-Abandoned (noticed l s m e) a = (refl, a.1)
Step-Abandoned (link_noticed s m e) a = (refl, a.1)
Step-Abandoned (shutdown s m) a = absurd (ground (arith, m, a))

Steps-Abandoned : {C : Tasks → Type 0} {s t : Tasks} → Steps C s t → Abandoned s → Abandoned t
Steps-Abandoned here a = a
Steps-Abandoned (then_ r st c) a = Step-Abandoned st (Steps-Abandoned r a)

-- If, in a run of the tasks, the function has returned and the token is not cancelled, then the TUN
-- device's task has ended, and whatever happens afterwards, the token stays as it is and no other task
-- ends.
pub spawn-abandoned :
    (has_coordinator has_relay : Bool) (s t : Tasks)
    → Steps Any (spawn has_coordinator has_relay) s
    → s.main ≡ returned
    → s.cancelled ≡ false
    → Steps Any s t
    → (s.tun ≡ ended) × (t.cancelled ≡ false) × (others_ended t ≡ false)
spawn-abandoned has_coordinator has_relay s t r m c q =
    let v = Steps-IsOrderly r (spawn-IsOrderly has_coordinator has_relay) in
    let later = Steps-Abandoned q (m, c) in
    (only_tun s v m c, later.1, (Steps-IsOrderly q v).ends later.1)
