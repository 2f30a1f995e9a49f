-- ===== src/Base/Bits.antt =====
-- Single bits of `bit_and`, `bit_or`, shifted ones and complements, at every width.
use Prim.Native.Nat.{
  ℕ, zero, suc, ◌+◌, ◌-◌, ◌*◌, ◌/◌, ◌%◌, ◌^◌, ◌≤◌, ◌<◌, min, max, bit_and, bit_or, digits, bitwise,
  bit_and-bitwise, bit_or-bitwise,
}
use mathlib.Core.Path.{◌≡◌, refl, ap, sym, ◌∙◌}
use mathlib.Core.Logic.{◌≢◌}
use native.Mathlib.Nat.{pow-suc, div-div-eq-div-mul}
use native.Mathlib.Omega.{arith}
use native.Mathlib.Decide.{dec_le}

-- The native operations recurse on a count of turns, for which the first number serves: here what a
-- turn does is told without the count.
module _ (z : ℕ → ℕ) (f : ℕ → ℕ → ℕ) where
  settled : (turns x y : ℕ) → x ≤ turns → digits z f (suc turns) x y ≡ digits z f turns x y
  settled turns zero y h = run_out turns
    where
      run_out : (k : ℕ) → digits z f (suc k) zero y ≡ digits z f k zero y
      run_out zero = refl
      run_out (suc k) = refl
  settled zero (suc x) y h = absurd (omega arith)
  settled (suc turns) (suc x) y h =
      ap (λ rest. rest * 2 + f (suc x % 2) (y % 2))
        (settled turns (suc x / 2) (y / 2) (omega arith))

  settled_from : (turns x y : ℕ) → x ≤ turns → digits z f turns x y ≡ bitwise z f x y
  settled_from zero zero y h = refl
  settled_from zero (suc x) y h = absurd (omega arith)
  settled_from (suc turns) x y h = elim (dec_le x turns) [
    | yes l ↦ settled turns x y l ∙ settled_from turns x y l
    | no g ↦ let all : suc turns ≡ x = omega arith in ap (λ k. digits z f k x y) all
  ]

  lowest :
      (x y : ℕ)
      → bitwise z f (suc x) y ≡ bitwise z f (suc x / 2) (y / 2) * 2 + f (suc x % 2) (y % 2)
  lowest x y =
      ap (λ rest. rest * 2 + f (suc x % 2) (y % 2))
        (settled_from x (suc x / 2) (y / 2) (omega arith))

pub bit_or_step : (x y : ℕ) → bit_or x y ≡ bit_or (x / 2) (y / 2) * 2 + max (x % 2) (y % 2)
bit_or_step zero y = simp bit_or-bitwise (omega arith)
bit_or_step (suc x) y = simp bit_or-bitwise (lowest (λ rest. rest) max x y)

pub bit_and_step : (x y : ℕ) → bit_and x y ≡ bit_and (x / 2) (y / 2) * 2 + min (x % 2) (y % 2)
bit_and_step zero y = simp bit_and-bitwise (omega arith)
bit_and_step (suc x) y = simp bit_and-bitwise (lowest (λ rest. 0) min x y)

-- Bit `k` of a number, 0 or 1.
abbrev pub bit_at : ℕ → ℕ → ℕ
bit_at x zero = x % 2
bit_at x (suc k) = bit_at (x / 2) k

pub bit_at-le : (x k : ℕ) → bit_at x k ≤ 1
bit_at-le x zero = omega arith
bit_at-le x (suc k) = bit_at-le (x / 2) k

pub bit_at-bit_or : (a b k : ℕ) → bit_at (bit_or a b) k ≡ max (bit_at a k) (bit_at b k)
bit_at-bit_or a b zero = omega (arith, bit_or_step a b)
bit_at-bit_or a b (suc k) = ap (λ x. bit_at x k) (halves) ∙ bit_at-bit_or (a / 2) (b / 2) k
  where
    halves : bit_or a b / 2 ≡ bit_or (a / 2) (b / 2)
    halves = omega (arith, bit_or_step a b)

pub bit_at-bit_and : (a b k : ℕ) → bit_at (bit_and a b) k ≡ min (bit_at a k) (bit_at b k)
bit_at-bit_and a b zero = omega (arith, bit_and_step a b)
bit_at-bit_and a b (suc k) = ap (λ x. bit_at x k) (halves) ∙ bit_at-bit_and (a / 2) (b / 2) k
  where
    halves : bit_and a b / 2 ≡ bit_and (a / 2) (b / 2)
    halves = omega (arith, bit_and_step a b)

two_pow_suc : (k : ℕ) → 2 ^ suc k ≡ 2 * 2 ^ k
two_pow_suc k = omega (arith, pow-suc 2 k)

-- A shift right and the lowest bit.
pub bit_at-eq-div-mod : (x k : ℕ) → x / 2 ^ k % 2 ≡ bit_at x k
bit_at-eq-div-mod x zero = omega arith
bit_at-eq-div-mod x (suc k) =
    ap (λ y. y % 2) (ap (λ d. x / d) (two_pow_suc k) ∙ sym (div-div-eq-div-mul x 2 (2 ^ k)))
    ∙ bit_at-eq-div-mod (x / 2) k

pub bit_at-zero : (k : ℕ) → bit_at 0 k ≡ 0
bit_at-zero zero = refl
bit_at-zero (suc k) = bit_at-zero k

pub bit_at-pow_self : (k : ℕ) → bit_at (2 ^ k) k ≡ 1
bit_at-pow_self zero = refl
bit_at-pow_self (suc k) = ap (λ x. bit_at x k) (omega (arith, pow-suc 2 k)) ∙ bit_at-pow_self k

pub bit_at-pow_ne : (k j : ℕ) → k ≢ j → bit_at (2 ^ k) j ≡ 0
bit_at-pow_ne zero zero h = absurd (h refl)
bit_at-pow_ne zero (suc j) h = bit_at-zero j
bit_at-pow_ne (suc k) zero h = omega (arith, pow-suc 2 k)
bit_at-pow_ne (suc k) (suc j) h =
    ap (λ x. bit_at x j) (omega (arith, pow-suc 2 k)) ∙ bit_at-pow_ne k j (λ e. h (ap suc e))

-- `!x` on `w` bits.
pub bit_at-complement : (w x k : ℕ) → x < 2 ^ w → k < w → bit_at (2 ^ w - 1 - x) k ≡ 1 - bit_at x k
bit_at-complement zero x k h p = absurd (omega arith)
bit_at-complement (suc w) x zero h p = omega (arith, pow-suc 2 w)
bit_at-complement (suc w) x (suc k) h p =
    ap (λ y. bit_at y k) (omega (arith, pow-suc 2 w))
    ∙ bit_at-complement w (x / 2) k (omega (arith, pow-suc 2 w)) (omega arith)

no_ones : (bound x : ℕ) → x ≤ bound → bit_and x 0 ≡ 0
no_ones zero zero h = refl
no_ones zero (suc x) h = absurd (omega arith)
no_ones (suc bound) zero h = refl
no_ones (suc bound) (suc x) h =
    let halved = no_ones bound (suc x / 2) (omega arith) in
    omega (arith, bit_and_step (suc x) 0, halved)

pub bit_and-zero : (x : ℕ) → bit_and x 0 ≡ 0
bit_and-zero x = no_ones x x (omega arith)

pub bit_and-one : (x : ℕ) → bit_and x 1 ≡ x % 2
bit_and-one x = omega (arith, bit_and-zero (x / 2), bit_and_step x 1)
