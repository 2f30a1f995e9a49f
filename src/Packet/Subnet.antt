-- ===== src/Packet/Subnet.antt =====
-- `Ipv4Subnet` of src/packet.rs: membership as agreement of the leading bits, and the text form.
use native.Mathlib.Nat.{pow-suc, mul_assoc, div-div-eq-div-mul, one-le-pow, eq_of_mul-eq-mul_right}
use mesh_vpn.Base.{
  ℕ, zero, suc, ◌+◌, ◌-◌, ◌*◌, ◌/◌, ◌%◌, ◌^◌, ◌≤◌, ◌<◌, ◌≡◌, refl, ◌∙◌, ap, sym, ◌↔◌, bit_and, Bool,
  true, ◌∷◌, ◌++◌, Bytes, u32_mod, ok, ◌==◌, arith, min, ap₂, check_below, check_below_sound, ◌&&◌,
  le→ltb, ℕ_discrete,
}
use mesh_vpn.Base.Bits.{bit_and_step, bit_and-zero}
use mesh_vpn.Text.{print_ipv4, print_u8}
use mesh_vpn.Text.RoundTrip.{
  parse_ipv4-print_ipv4, parse_u8-print_u8, Lacks, Lacks-append, split-one, split-cons,
}
use mesh_vpn.Packet.{Ipv4Subnet, shl_ones, contains, from_str, to_string, ok_or, from_parts}

two_pow_suc : (k : ℕ) → 2 ^ suc k ≡ 2 * 2 ^ k
two_pow_suc k = omega (arith, pow-suc 2 k)

pow_pos : (k : ℕ) → 1 ≤ 2 ^ k
pow_pos k = one-le-pow k 2 (omega arith)

bit_and_ones : (w a : ℕ) → a < 2 ^ w → bit_and a (2 ^ w - 1) ≡ a
bit_and_ones zero a h = bit_and-zero a ∙ omega arith
bit_and_ones (suc w) a h =
    bit_and_step a (2 ^ suc w - 1)
    ∙ ap₂ (λ x y. bit_and (a / 2) x * 2 + min (a % 2) y) half odd
    ∙ omega (arith, bit_and_ones w (a / 2) (omega (arith, two_pow_suc w)))
  where
    half : (2 ^ suc w - 1) / 2 ≡ 2 ^ w - 1
    half = omega (arith, two_pow_suc w)

    odd : (2 ^ suc w - 1) % 2 ≡ 1
    odd = omega (arith, two_pow_suc w, pow_pos w)

-- Masking with `w` ones above `k` zeros keeps what is above bit `k`.
bit_and_high : (w k a : ℕ) → a < 2 ^ k * 2 ^ w → bit_and a (2 ^ k * (2 ^ w - 1)) ≡ a / 2 ^ k * 2 ^ k
bit_and_high w zero a h =
    ap (bit_and a) (omega arith) ∙ bit_and_ones w a (omega arith) ∙ omega arith
bit_and_high w (suc k) a h =
    ap (bit_and a) double
    ∙ bit_and_step a (2 * ones)
    ∙ ap₂ (λ x y. bit_and (a / 2) x * 2 + min (a % 2) y) half even
    ∙ ap (λ x. x * 2 + min (a % 2) 0) (bit_and_high w k (a / 2) fits)
    ∙ back
  where
    ones : ℕ
    ones = 2 ^ k * (2 ^ w - 1)

    double : 2 ^ suc k * (2 ^ w - 1) ≡ 2 * ones
    double = ap (λ t. t * (2 ^ w - 1)) (two_pow_suc k) ∙ mul_assoc 2 (2 ^ k) (2 ^ w - 1)

    half : 2 * ones / 2 ≡ ones
    half = omega arith

    even : 2 * ones % 2 ≡ 0
    even = omega arith

    fits : a / 2 < 2 ^ k * 2 ^ w
    fits = omega (arith, ap (λ (t : ℕ). t * 2 ^ w) (two_pow_suc k))

    quotient : a / 2 / 2 ^ k ≡ a / 2 ^ suc k
    quotient = div-div-eq-div-mul a 2 (2 ^ k) ∙ ap (λ d. a / d) (sym (two_pow_suc k))

    back : a / 2 / 2 ^ k * 2 ^ k * 2 + min (a % 2) 0 ≡ a / 2 ^ suc k * 2 ^ suc k
    back = rw quotient (omega (arith, ap (λ (t : ℕ). a / 2 ^ suc k * t) (two_pow_suc k)))

-- The 32 masks.
abbrev mask_fits : ℕ → Bool
mask_fits k = shl_ones k == 2 ^ k * (2 ^ (32 - k) - 1) && 2 ^ k * 2 ^ (32 - k) == u32_mod

mask_table : check_below 32 mask_fits ≡ true
mask_table = refl

pub shl_ones_lem :
    (k : ℕ) → k < 32 → (shl_ones k ≡ 2 ^ k * (2 ^ (32 - k) - 1)) × (2 ^ k * 2 ^ (32 - k) ≡ u32_mod)
shl_ones_lem k h = ground (arith, check_below_sound 32 mask_fits k mask_table h)

-- The mask of the code keeps exactly the bits above bit `k`.
pub mask_lem : (k a : ℕ) → k < 32 → a < u32_mod → bit_and a (shl_ones k) ≡ a / 2 ^ k * 2 ^ k
mask_lem k a h fits =
    ap (bit_and a) (shl_ones_lem k h).0
    ∙ bit_and_high (32 - k) k a (omega (arith, (shl_ones_lem k h).1))

scaled : (k a b : ℕ) → (a * 2 ^ k ≡ b * 2 ^ k) ↔ (a ≡ b)
scaled k a b = (eq_of_mul-eq-mul_right (2 ^ k) (pow_pos k) a b, ap (λ x. x * 2 ^ k))

whole : (a p : ℕ) → p ≡ 0 → a < u32_mod → a / 2 ^ (32 - p) ≡ 0
whole a p e h = rw e (omega arith)

-- For a prefix length of at most 32 and addresses of 32 bits, a subnet contains exactly the addresses
-- that agree with its own in the leading `prefix_len` bits.
pub contains_iff :
    (subnet : Ipv4Subnet) (ip : ℕ)
    → subnet.prefix_len ≤ 32
    → subnet.addr < u32_mod
    → ip < u32_mod
    → (contains subnet ip ≡ true)
      ↔ (subnet.addr / 2 ^ (32 - subnet.prefix_len) ≡ ip / 2 ^ (32 - subnet.prefix_len))
unfolding contains
contains_iff subnet ip hp ha hi = elim (ℕ_discrete subnet.prefix_len 0) [
  | yes e ↦ (λ _. whole subnet.addr _ e ha ∙ sym (whole ip _ e hi), λ _. ground arith)
  | no ne ↦ ground (
    arith,
    mask_lem (32 - subnet.prefix_len) subnet.addr (omega arith) ha,
    mask_lem (32 - subnet.prefix_len) ip (omega arith) hi,
    scaled (32 - subnet.prefix_len) (subnet.addr / 2 ^ (32 - subnet.prefix_len))
        (ip / 2 ^ (32 - subnet.prefix_len)),
  )
]

print_u8-Lacks : (n : ℕ) → Lacks b'/' (print_u8 n)
unfolding print_u8
print_u8-Lacks n = ground arith

pub print_ipv4-Lacks : (ip : ℕ) → Lacks b'/' (print_ipv4 ip)
unfolding print_ipv4
print_ipv4-Lacks ip = octet _ _ (octet _ _ (octet _ _ (print_u8-Lacks _)))
  where
    octet : (n : ℕ) (s : Bytes) → Lacks b'/' s → Lacks b'/' (print_u8 n ++ (b'.' ∷ s))
    octet n s h = Lacks-append b'/' (print_u8 n) (b'.' ∷ s) (print_u8-Lacks n) (omega arith, h)

-- A subnet with a 32-bit address and a prefix length of at most 32 is read back from its text.
pub from_str-to_string :
    (subnet : Ipv4Subnet)
    → subnet.addr < u32_mod
    → subnet.prefix_len ≤ 32
    → from_str (to_string subnet) ≡ ok subnet
unfolding from_str to_string
from_str-to_string subnet ha hp = rw (
  split-cons b'/' (print_ipv4 subnet.addr) (print_u8 subnet.prefix_len)
      (print_ipv4-Lacks subnet.addr),
  split-one b'/' (print_u8 subnet.prefix_len) (print_u8-Lacks subnet.prefix_len),
  from_parts,
  parse_ipv4-print_ipv4 subnet.addr ha,
  ok_or,
  parse_u8-print_u8 subnet.prefix_len (omega arith),
  le→ltb 32 subnet.prefix_len hp,
)
