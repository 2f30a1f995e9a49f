-- ===== src/Session/Again.antt =====
-- One call of the window of src/session.rs: what it does to a nonce that it has just accepted.
use mesh_vpn.Base.{ℕ, ◌+◌, ◌-◌, ◌≡◌, refl, true, false, length, replicate, arith}
use mesh_vpn.Session.{ReplayWindow, clear_bits, advance, check_and_update, new}
use mesh_vpn.Session.Window.{length-set_bit, set_bit-same, length-clear_bits}

-- The bitmap has its sixteen words.
abbrev pub IsValid : ReplayWindow → Type 0
IsValid w = length w.bitmap ≡ 16

pub new-IsValid : IsValid new
unfolding new
new-IsValid = refl

pub check_and_update-IsValid :
    (w : ReplayWindow) (n : ℕ) → IsValid w → IsValid (check_and_update w n).0
unfolding check_and_update advance
check_and_update-IsValid w n v = ground (
  arith,
  length-set_bit w.bitmap n,
  length-set_bit (replicate 16 0) n,
  length-set_bit (clear_bits w.bitmap (w.last + 1) (n - w.last)) n,
  length-clear_bits w.bitmap (w.last + 1) (n - w.last),
)

-- A nonce that a call accepts is refused by the next call.
pub check_and_update-again :
    (w : ReplayWindow) (n : ℕ)
    → IsValid w
    → (check_and_update w n).1 ≡ true
    → (check_and_update (check_and_update w n).0 n).1 ≡ false
unfolding check_and_update advance
check_and_update-again w n v h = ground (
  arith,
  set_bit-same w.bitmap n n v refl,
  set_bit-same (replicate 16 0) n n refl refl,
  set_bit-same (clear_bits w.bitmap (w.last + 1) (n - w.last)) n n,
  length-clear_bits w.bitmap (w.last + 1) (n - w.last),
)
