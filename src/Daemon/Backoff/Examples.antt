-- ===== src/Daemon/Backoff/Examples.antt =====
-- The theorem on the waits at a concrete input.
use mesh_vpn.Base.{
  ℕ, ◌+◌, ◌*◌, ◌^◌, ◌≤◌, ◌≡◌, refl, min, List, [], ◌∷◌, ◌++◌, some, get_elem?, arith,
}
use mesh_vpn.Daemon.Backoff.{Attempt, refused, dropped, new, reconnects, initial_ms, max_ms}
use mesh_vpn.Daemon.Backoff.Reconnects.{refusals, reconnects-dropped}

-- Two refusals come first.
abbrev before : List (Attempt × ℕ)
before = (refused, 250) ∷ (refused, 7) ∷ []

reconnects-dropped_example :
    (get_elem? (reconnects (before ++ ((dropped, 250) ∷ refusals (0 ∷ 1000 ∷ []))) new) 4
      ≡ some (min (initial_ms * 2 ^ 2) max_ms + 1000))
    × (min (initial_ms * 2 ^ 2) max_ms + 1000 ≤ 37_500)
reconnects-dropped_example = reconnects-dropped before 250 (0 ∷ 1000 ∷ []) 2 1000 refl (omega arith)
