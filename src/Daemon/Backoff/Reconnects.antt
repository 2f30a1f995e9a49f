-- ===== src/Daemon/Backoff/Reconnects.antt =====
-- How long the relay task of src/daemon.rs waits between its attempts to connect.
use mesh_vpn.Base.{
  ℕ, suc, ◌+◌, ◌*◌, ◌/◌, ◌^◌, ◌≤◌, ◌≡◌, refl, ◌∙◌, ap, min, List, [], ◌∷◌, ◌++◌, arith, some,
  get_elem?, length, map,
}
use mesh_vpn.Daemon.Backoff.{
  Backoff, Attempt, refused, dropped, before_wait, new, reset, advance, delays, reconnects,
  initial_ms, max_ms,
}
use mesh_vpn.Daemon.Backoff.Delays.{delays-reset}

-- The backoff once the attempts are over.
unfoldable after : List (Attempt × ℕ) → Backoff → Backoff
after [] b = b
after ((attempt, jitter) ∷ attempts) b = after attempts (advance jitter (before_wait attempt b)).1

max_delay-after :
    (attempts : List (Attempt × ℕ)) (b : Backoff) → (after attempts b).max_delay ≡ b.max_delay
unfolding after advance reset
max_delay-after [] b = refl
max_delay-after ((refused, jitter) ∷ attempts) b = max_delay-after attempts (advance jitter b).1
max_delay-after ((dropped, jitter) ∷ attempts) b =
    max_delay-after attempts (advance jitter (reset b)).1

-- The attempts that come after others wait as they do from the backoff that those leave.
get_elem?-reconnects :
    (attempts rest : List (Attempt × ℕ)) (b : Backoff) (k : ℕ)
    → get_elem? (reconnects (attempts ++ rest) b) (length attempts + k)
      ≡ get_elem? (reconnects rest (after attempts b)) k
unfolding reconnects after
get_elem?-reconnects [] rest b k = ap (λ n. get_elem? (reconnects rest b) n) (omega arith)
get_elem?-reconnects ((attempt, jitter) ∷ attempts) rest b k =
    ap (λ n. get_elem? (reconnects (((attempt, jitter) ∷ attempts) ++ rest) b) n)
      {y = suc (length attempts + k)} (omega arith)
    ∙ get_elem?-reconnects attempts rest (advance jitter (before_wait attempt b)).1 k

abbrev pub refusals : List ℕ → List (Attempt × ℕ)
refusals jitters = map (λ jitter. (refused, jitter)) jitters

reconnects-refusals :
    (jitters : List ℕ) (b : Backoff) → reconnects (refusals jitters) b ≡ delays jitters b
unfolding reconnects delays
reconnects-refusals [] b = refl
reconnects-refusals (j ∷ js) b =
    ap (λ t. (advance j b).0 ∷ t) (reconnects-refusals js (advance j b).1)

-- Whatever attempts there were before, the wait after a connection that has dropped, and after each
-- refusal that follows it directly, is 2^k seconds, at most 30, with the jitter that was drawn for it,
-- where k counts the refusals since the drop; with a jitter of at most a quarter of that it is not
-- above 37.5 seconds.
pub reconnects-dropped :
    (attempts : List (Attempt × ℕ)) (j : ℕ) (jitters : List ℕ) (k jitter : ℕ)
    → get_elem? (j ∷ jitters) k ≡ some jitter
    → jitter ≤ min (initial_ms * 2 ^ k) max_ms / 4
    → (get_elem?
          (reconnects (attempts ++ ((dropped, j) ∷ refusals jitters)) new)
          (length attempts + k)
        ≡ some (min (initial_ms * 2 ^ k) max_ms + jitter))
      × (min (initial_ms * 2 ^ k) max_ms + jitter ≤ 37_500)
unfolding reconnects delays new
reconnects-dropped attempts j jitters k jitter e h =
    let b = after attempts new in
    let (wait, bound) = delays-reset (j ∷ jitters) b k jitter (max_delay-after attempts new) e h in
    let same : reconnects ((dropped, j) ∷ refusals jitters) b ≡ delays (j ∷ jitters) (reset b) =
      ap (λ t. (advance j (reset b)).0 ∷ t) (reconnects-refusals jitters (advance j (reset b)).1) in
    (
      get_elem?-reconnects attempts ((dropped, j) ∷ refusals jitters) new k
          ∙ ap (λ ts. get_elem? ts k) same
          ∙ wait,
      bound,
    )
