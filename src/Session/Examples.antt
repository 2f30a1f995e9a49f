-- ===== src/Session/Examples.antt =====
-- Runs of the window of src/session.rs, and its theorems at concrete inputs.
use mesh_vpn.Base.{◌≡◌, refl, true, false, List, [], ◌∷◌, ℕ}
use mesh_vpn.Session.{new, verdicts, check_and_update, get_bit, set_bit, clear_bit, clear_bits}
use mesh_vpn.Session.Exact.{spec_verdicts, verdicts-new}

-- The test `replay_window_accepts_in_order_rejects_duplicates_and_old` of src/daemon.rs, in part.
abbrev arrivals : List ℕ
arrivals = 0 ∷ 1 ∷ 1 ∷ 0 ∷ 2000 ∷ 977 ∷ 976 ∷ 1999 ∷ 1999 ∷ []

replay_run :
    verdicts new arrivals ≡ true ∷ true ∷ false ∷ false ∷ true ∷ true ∷ false ∷ true ∷ false ∷ []
unfolding verdicts new check_and_update get_bit set_bit clear_bit clear_bits
replay_run = refl

verdicts-new_example : verdicts new arrivals ≡ spec_verdicts [] arrivals
verdicts-new_example = verdicts-new arrivals
