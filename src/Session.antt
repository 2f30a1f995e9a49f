-- ===== src/Session.antt =====
-- src/session.rs: the sliding anti-replay window of a session.
-- The bitmap is the list of its sixteen 64-bit words.
pub mod Window
pub mod Exact
pub mod Once
pub mod Spent
pub mod Again
mod Examples
use mesh_vpn.Base.{
  ℕ, zero, suc, ◌+◌, ◌-◌, ◌*◌, ◌/◌, ◌%◌, ◌^◌, bit_and, bit_or, Bool, true, false, List, [], ◌∷◌,
  u64_mod, ltb, leb, ◌==◌, if◌then◌else◌, get_or, set, replicate,
}

abbrev pub window_bits : ℕ
window_bits = 1024

abbrev pub bitmap_words : ℕ
bitmap_words = window_bits / 64

pub record ReplayWindow : Type 0 where
  pub bitmap : List ℕ
  pub last : ℕ
  pub initialized : Bool

unfoldable pub new : ReplayWindow
new = record { bitmap = replicate bitmap_words 0; last = 0; initialized = false }

-- `slot`: the word, and the bit in it.
abbrev pub slot : ℕ → ℕ × ℕ
slot nonce = let bit = nonce % window_bits in (bit / 64, bit % 64)

-- `1u64 << bit`
abbrev pub one_shl : ℕ → ℕ
one_shl bit = 2 ^ bit % u64_mod

unfoldable pub get_bit : List ℕ → ℕ → Bool
get_bit bitmap nonce =
    let (word, bit) = slot nonce in bit_and (get_or bitmap word 0 / 2 ^ bit) 1 == 1

unfoldable pub set_bit : List ℕ → ℕ → List ℕ
set_bit bitmap nonce =
    let (word, bit) = slot nonce in set bitmap word (bit_or (get_or bitmap word 0) (one_shl bit))

-- `!m` on 64 bits is `2 ^ 64 - 1 - m`.
unfoldable pub clear_bit : List ℕ → ℕ → List ℕ
clear_bit bitmap nonce =
    let (word, bit) = slot nonce in
    set bitmap word (bit_and (get_or bitmap word 0) (u64_mod - 1 - one_shl bit))

-- The loop `for n in first..first + count`.
unfoldable pub clear_bits : List ℕ → ℕ → ℕ → List ℕ
clear_bits bitmap first zero = bitmap
clear_bits bitmap first (suc count) = clear_bits (clear_bit bitmap first) (first + 1) count

-- The branch for a nonce above `last`.
unfoldable pub advance : ReplayWindow → ℕ → ReplayWindow
advance w nonce =
    let shift = nonce - w.last in
    let cleared =
      if leb window_bits shift
      then replicate bitmap_words 0
      else clear_bits w.bitmap (w.last + 1) shift in
    record w { bitmap = set_bit cleared nonce; last = nonce }

-- `u64` values: the subtractions run only where they do not go below zero.
unfoldable pub check_and_update : ReplayWindow → ℕ → ReplayWindow × Bool
unfolding advance
check_and_update w nonce =
    if w.initialized
    then (if ltb w.last nonce
        then (advance w nonce, true)
        else if leb window_bits (w.last - nonce)
        then (w, false)
        else if get_bit w.bitmap nonce
        then (w, false)
        else (record w { bitmap = set_bit w.bitmap nonce }, true))
    else (record { bitmap = set_bit w.bitmap nonce; last = nonce; initialized = true }, true)

-- The verdicts on nonces that arrive one after another.
unfoldable pub verdicts : ReplayWindow → List ℕ → List Bool
verdicts w [] = []
verdicts w (n ∷ ns) = let (w', b) = check_and_update w n in b ∷ verdicts w' ns

-- The nonces that a window accepts of those that arrive, in order.
unfoldable pub accepted : ReplayWindow → List ℕ → List ℕ
accepted w [] = []
accepted w (n ∷ ns) =
    let (w', b) = check_and_update w n in let rest = accepted w' ns in if b then n ∷ rest else rest
