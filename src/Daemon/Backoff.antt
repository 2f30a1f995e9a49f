-- ===== src/Daemon/Backoff.antt =====
-- `Backoff` of src/daemon.rs, the delays between attempts to reconnect, in milliseconds.
pub mod Delays
pub mod Reconnects
mod Examples
use mesh_vpn.Base.{ℕ, ◌+◌, ◌*◌, min, List, [], ◌∷◌}

pub record Backoff : Type 0 where
  pub current : ℕ
  pub max_delay : ℕ

abbrev pub initial_ms : ℕ
initial_ms = 1000

abbrev pub max_ms : ℕ
max_ms = 30_000

unfoldable pub new : Backoff
new = record { current = initial_ms; max_delay = max_ms }

unfoldable pub reset : Backoff → Backoff
reset b = record b { current = initial_ms }

-- The delay with the jitter that was drawn, and the backoff for the next time.
unfoldable pub advance : ℕ → Backoff → ℕ × Backoff
advance jitter_ms b =
    (b.current + jitter_ms, record b { current = min (b.current * 2) b.max_delay })

-- The delays of one attempt after another, by the jitters that are drawn.
unfoldable pub delays : List ℕ → Backoff → List ℕ
unfolding advance
delays [] b = []
delays (jitter ∷ jitters) b = let (delay, b') = advance jitter b in delay ∷ delays jitters b'

-- How an attempt of `spawn_relay_task` to connect ends: the relay refuses, or there is a connection
-- until it drops.
pub data Attempt : Type 0 where
  refused dropped : Attempt

abbrev pub before_wait : Attempt → Backoff → Backoff
before_wait refused b = b
before_wait dropped b = reset b

-- The waits of the task, one after each attempt, by the ends of the attempts and the jitters.
unfoldable pub reconnects : List (Attempt × ℕ) → Backoff → List ℕ
unfolding reset advance
reconnects [] b = []
reconnects ((attempt, jitter) ∷ attempts) b =
    let (delay, b') = advance jitter (before_wait attempt b) in delay ∷ reconnects attempts b'
