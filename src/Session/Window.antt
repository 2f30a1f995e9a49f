-- ===== src/Session/Window.antt =====
-- How `set_bit`, `clear_bit` and the clearing loop of src/session.rs change the bits that `get_bit`
-- reads: two nonces share a bit exactly when they agree modulo the window's size.
use native.Mathlib.Nat.{mod-eq_of_lt, pow-le-pow_right}
use mesh_vpn.Base.{
  ℕ, zero, suc, ◌+◌, ◌-◌, ◌/◌, ◌%◌, ◌^◌, ◌≤◌, ◌<◌, ◌≡◌, refl, sym, ap, ◌∙◌, ◌≢◌, true, false, List,
  u64_mod, ◌==◌, get_or, set, length, replicate, length-set, get_or-set_self, get_or-set_ne,
  get_or-replicate, arith, ℕ_discrete,
}
use mesh_vpn.Base.Bits.{
  bit_at, bit_at-bit_or, bit_at-bit_and, bit_at-eq-div-mod, bit_at-zero, bit_at-pow_self,
  bit_at-pow_ne, bit_at-complement, bit_at-le, bit_and-one,
}
use mesh_vpn.Session.{window_bits, one_shl, get_bit, set_bit, clear_bit, clear_bits}

-- `1 << bit` keeps its only bit below 64, and its complement has all others.
one_shl_lem : (b : ℕ) → b < 64 → (one_shl b ≡ 2 ^ b) × (2 ^ b < u64_mod)
one_shl_lem b h = (mod-eq_of_lt small, small)
  where
    small : 2 ^ b < u64_mod
    small = omega (arith, pow-le-pow_right {n = 2} (omega arith) {i = b} {j = 63} (omega arith))

abbrev word_of : ℕ → ℕ
word_of n = n % window_bits / 64

abbrev bit_of : ℕ → ℕ
bit_of n = n % window_bits % 64

get_bit_lem : (m : List ℕ) (n : ℕ) → get_bit m n ≡ (bit_at (get_or m (word_of n) 0) (bit_of n) == 1)
unfolding get_bit
get_bit_lem m n = rw (bit_and-one, bit_at-eq-div-mod)

pub length-set_bit : (m : List ℕ) (n : ℕ) → length (set_bit m n) ≡ length m
unfolding set_bit
length-set_bit m n = length-set m _ _

pub length-clear_bit : (m : List ℕ) (n : ℕ) → length (clear_bit m n) ≡ length m
unfolding clear_bit
length-clear_bit m n = length-set m _ _

-- Writing one word leaves the bits of another as they were.
other_word :
    (m : List ℕ) (n k v : ℕ) → word_of n ≢ word_of k → get_bit (set m (word_of n) v) k ≡ get_bit m k
other_word m n k v h =
    get_bit_lem (set m (word_of n) v) k
    ∙ ap (λ x. bit_at x (bit_of k) == 1) (get_or-set_ne m (word_of n) (word_of k) v 0 h)
    ∙ sym (get_bit_lem m k)

-- Bits of the word that was written.
same_word :
    (m : List ℕ) (n k v : ℕ)
    → length m ≡ 16
    → word_of n ≡ word_of k
    → get_bit (set m (word_of n) v) k ≡ (bit_at v (bit_of k) == 1)
same_word m n k v l h =
    get_bit_lem (set m (word_of n) v) k
    ∙ ap (λ x. bit_at x (bit_of k) == 1)
        (ap (λ i. get_or (set m (word_of n) v) i 0) (sym h)
          ∙ get_or-set_self m (word_of n) v 0 (omega arith))

pub set_bit-same :
    (m : List ℕ) (n k : ℕ)
    → length m ≡ 16
    → n % window_bits ≡ k % window_bits
    → get_bit (set_bit m n) k ≡ true
unfolding set_bit
set_bit-same m n k l h =
    same_word m n k _ l (omega arith)
    ∙ ground (
      arith,
      one_shl_lem (bit_of n) (omega arith),
      bit_at-bit_or (get_or m (word_of n) 0) (one_shl (bit_of n)) (bit_of k),
      bit_at-pow_self (bit_of k),
      bit_at-le (get_or m (word_of n) 0) (bit_of k),
    )

pub set_bit-other :
    (m : List ℕ) (n k : ℕ)
    → length m ≡ 16
    → n % window_bits ≢ k % window_bits
    → get_bit (set_bit m n) k ≡ get_bit m k
unfolding set_bit
set_bit-other m n k l h = elim (ℕ_discrete (word_of n) (word_of k)) [
  | no ne ↦ other_word m n k _ ne
  | yes e ↦
      same_word m n k _ l e
      ∙ ground (
        arith,
        one_shl_lem (bit_of n) (omega arith),
        bit_at-bit_or (get_or m (word_of n) 0) (one_shl (bit_of n)) (bit_of k),
        bit_at-pow_ne (bit_of n) (bit_of k) (omega arith),
        get_bit_lem m k,
        ap (λ i. bit_at (get_or m i 0) (bit_of k)) e,
      )
]

pub clear_bit-same :
    (m : List ℕ) (n k : ℕ)
    → length m ≡ 16
    → n % window_bits ≡ k % window_bits
    → get_bit (clear_bit m n) k ≡ false
unfolding clear_bit
clear_bit-same m n k l h =
    same_word m n k _ l (omega arith)
    ∙ ground (
      arith,
      one_shl_lem (bit_of n) (omega arith),
      bit_at-bit_and (get_or m (word_of n) 0) (u64_mod - 1 - one_shl (bit_of n)) (bit_of k),
      bit_at-complement 64 (one_shl (bit_of n)) (bit_of k) (omega arith) (omega arith),
      bit_at-pow_self (bit_of k),
    )

pub clear_bit-other :
    (m : List ℕ) (n k : ℕ)
    → length m ≡ 16
    → n % window_bits ≢ k % window_bits
    → get_bit (clear_bit m n) k ≡ get_bit m k
unfolding clear_bit
clear_bit-other m n k l h = elim (ℕ_discrete (word_of n) (word_of k)) [
  | no ne ↦ other_word m n k _ ne
  | yes e ↦
      same_word m n k _ l e
      ∙ ground (
        arith,
        one_shl_lem (bit_of n) (omega arith),
        bit_at-bit_and (get_or m (word_of n) 0) (u64_mod - 1 - one_shl (bit_of n)) (bit_of k),
        bit_at-complement 64 (one_shl (bit_of n)) (bit_of k) (omega arith) (omega arith),
        bit_at-pow_ne (bit_of n) (bit_of k) (omega arith),
        bit_at-le (get_or m (word_of n) 0) (bit_of k),
        get_bit_lem m k,
        ap (λ i. bit_at (get_or m i 0) (bit_of k)) e,
      )
]

pub length-clear_bits : (m : List ℕ) (a c : ℕ) → length (clear_bits m a c) ≡ length m
unfolding clear_bits
length-clear_bits m a zero = refl
length-clear_bits m a (suc c) = length-clear_bits (clear_bit m a) (a + 1) c ∙ length-clear_bit m a

-- A bit that no nonce of the range has is left alone.
pub clear_bits-other :
    (m : List ℕ) (a c k : ℕ)
    → length m ≡ 16
    → ((x : ℕ) → a ≤ x → x < a + c → x % window_bits ≢ k % window_bits)
    → get_bit (clear_bits m a c) k ≡ get_bit m k
unfolding clear_bits
clear_bits-other m a zero k l h = refl
clear_bits-other m a (suc c) k l h =
    clear_bits-other (clear_bit m a) (a + 1) c k (length-clear_bit m a ∙ l)
      (λ x p q. h x (omega arith) (omega arith))
    ∙ clear_bit-other m a k l (h a (omega arith) (omega arith))

-- Once clear, a bit stays clear.
clear_bits-clear :
    (m : List ℕ) (a c k : ℕ)
    → length m ≡ 16
    → get_bit m k ≡ false
    → get_bit (clear_bits m a c) k ≡ false
unfolding clear_bits
clear_bits-clear m a zero k l h = h
clear_bits-clear m a (suc c) k l h =
    clear_bits-clear (clear_bit m a) (a + 1) c k (length-clear_bit m a ∙ l)
      (elim (ℕ_discrete (a % window_bits) (k % window_bits)) [
        | yes e ↦ clear_bit-same m a k l e
        | no ne ↦ clear_bit-other m a k l ne ∙ h
      ])

-- The loop clears the bit of each nonce of its range.
pub clear_bits-same :
    (m : List ℕ) (a c k : ℕ)
    → length m ≡ 16
    → a ≤ k
    → k < a + c
    → get_bit (clear_bits m a c) k ≡ false
unfolding clear_bits
clear_bits-same m a zero k l p q = absurd (omega arith)
clear_bits-same m a (suc c) k l p q = elim (ℕ_discrete a k) [
  | yes e ↦
      clear_bits-clear (clear_bit m a) (a + 1) c k (length-clear_bit m a ∙ l)
        (clear_bit-same m a k l (omega arith))
  | no ne ↦
      clear_bits-same (clear_bit m a) (a + 1) c k (length-clear_bit m a ∙ l) (omega arith)
        (omega arith)
]

pub get_bit-zero : (k : ℕ) → get_bit (replicate 16 0) k ≡ false
get_bit-zero k =
    get_bit_lem (replicate 16 0) k
    ∙ ground (arith, get_or-replicate {A = ℕ} 16 (word_of k) 0, bit_at-zero (bit_of k))
