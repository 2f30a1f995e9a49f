-- ===== src/Coordinator/Pool.antt =====
-- The pool of src/coordinator.rs: which address the allocator of a CIDR block hands out.
use native.Mathlib.Nat.{pow-suc, one-le-pow, div-add-mod, mul-le-mul_right}
use mesh_vpn.Base.{
  ◌-◌, ◌*◌, err, ◌^◌, ◌/◌, ◌%◌, bit_and, bit_or, Bytes, refl, max, ap₂, u32_mod, ok, Result, subst,
  Option-cases, ltb, ◌==◌, if◌then◌else◌, sym, ℕ, zero, suc, ◌+◌, ◌≤◌, ◌<◌, ◌≡◌, ◌∙◌, ap, Bool,
  true, false, none, some, arith, Bool-cases, inl, inr, dec_lt,
}
use mesh_vpn.Base.Bits.{bit_or_step, bit_and-zero}
use mesh_vpn.Text.{split_once, parse_ipv4, parse_u8}
use mesh_vpn.Text.Range.{parse_ipv4-lt}
use mesh_vpn.Packet.{shl_ones}
use mesh_vpn.Packet.Subnet.{mask_lem, shl_ones_lem}
use mesh_vpn.Coordinator.{
  IpAllocator, RegistryError, host_range, next_free, new_allocator, first_free,
}

ok-injective : {A E : Type 0} (a b : A) → Path (Result A E) (ok a) (ok b) → a ≡ b
ok-injective a b e = ap (λ r. elim r [ ok x ↦ x | err x ↦ a ]) e

-- The lowest unused one of `count` addresses.
record IsLowest (first count : ℕ) (used : ℕ → Bool) (ip : ℕ) : Type 0 where
  above : first ≤ ip
  below : ip < first + count
  free : used ip ≡ false
  lowest : (j : ℕ) → first ≤ j → j < ip → used j ≡ true

first_free-IsLowest :
    (first count : ℕ) (used : ℕ → Bool) (ip : ℕ)
    → first_free first count used ≡ some ip
    → IsLowest first count used ip
unfolding first_free
first_free-IsLowest first zero used ip e = absurd (cc)
first_free-IsLowest first (suc count) used ip e = elim (Bool-cases (used first)) [
  | inr f ↦ record {
    above = ground (arith, f);
    below = ground (arith, f);
    free = ground (arith, f);
    lowest = λ j p q. absurd (ground (arith, f));
  }
  | inl f ↦
      let rest = first_free-IsLowest (suc first) count used ip (ground (arith, f)) in
      record {
        above = omega (arith, rest.above);
        below = omega (arith, rest.below);
        free = rest.free;
        lowest = λ j p q. elim (dec_lt first j) [
          | yes l ↦ rest.lowest j (omega arith) q
          | no n ↦ ap used (omega arith) ∙ f
        ];
      }
]

first_free-none :
    (first count : ℕ) (used : ℕ → Bool)
    → first_free first count used ≡ none
    → (j : ℕ) → first ≤ j
    → j < first + count
    → used j ≡ true
unfolding first_free
first_free-none first zero used e j p q = absurd (omega arith)
first_free-none first (suc count) used e j p q = elim (Bool-cases (used first)) [
  | inr f ↦ absurd (ground (arith, f))
  | inl f ↦ elim (dec_lt first j) [
    | yes l ↦
        first_free-none (suc first) count used (ground (arith, f)) j (omega arith) (omega arith)
    | no n ↦ ap used (omega arith) ∙ f
  ]
]

bit_or-zero_fuel : (n a : ℕ) → a ≤ n → bit_or a 0 ≡ a
bit_or-zero_fuel n zero h = refl
bit_or-zero_fuel zero (suc a) h = absurd (omega arith)
bit_or-zero_fuel (suc n) (suc a) h =
    omega (arith, bit_or_step (suc a) 0, bit_or-zero_fuel n (suc a / 2) (omega arith))

-- The bits below an aligned number.
bit_or_low : (k n : ℕ) → bit_or (n * 2 ^ k) (2 ^ k - 1) ≡ n * 2 ^ k + (2 ^ k - 1)
bit_or_low zero n =
    ap (λ x. bit_or x 0) (omega arith) ∙ bit_or-zero_fuel n n (omega arith) ∙ omega arith
bit_or_low (suc k) n =
    bit_or_step (n * 2 ^ suc k) (2 ^ suc k - 1)
    ∙ ap₂ (λ x y. bit_or x y * 2 + max (n * 2 ^ suc k % 2) ((2 ^ suc k - 1) % 2)) half half_ones
    ∙ omega (arith, bit_or_low k n, double, pow-suc 2 k, one-le-pow k 2 (omega arith))
  where
    double : n * 2 ^ suc k ≡ 2 * (n * 2 ^ k)
    double = omega (arith, ap (λ t. n * t) (pow-suc 2 k))

    half : n * 2 ^ suc k / 2 ≡ n * 2 ^ k
    half = omega (arith, double)

    half_ones : (2 ^ suc k - 1) / 2 ≡ 2 ^ k - 1
    half_ones = omega (arith, pow-suc 2 k)

-- The allocator that a CIDR text gives: aligned to its block, which has at least four addresses.
pub record IsBlock (a : IpAllocator) : Type 0 where
  pub short : a.prefix ≤ 30
  pub index : ℕ
  pub aligned : a.network ≡ index * 2 ^ (32 - a.prefix)
  pub fits : (index + 1) * 2 ^ (32 - a.prefix) ≤ u32_mod

-- A block of size `s` around an address lies below a multiple of `s` that is above the address.
block_fits : (q s n addr : ℕ) → s * q + addr % s ≡ addr → addr < s * n → (q + 1) * s ≤ s * n
block_fits q s n addr e h = elim (dec_lt q n) [
  | yes l ↦ omega (arith, mul-le-mul_right s l)
  | no g ↦ absurd (omega (arith, mul-le-mul_right {m = n} {n = q} s (omega arith)))
]

four_le : (k : ℕ) → 2 ≤ k → 4 ≤ 2 ^ k
four_le zero h = absurd (omega arith)
four_le (suc zero) h = absurd (omega arith)
four_le (suc (suc k)) h =
    omega (arith, pow-suc 2 (suc k), pow-suc 2 k, one-le-pow k 2 (omega arith))

masked-IsBlock :
    (addr len : ℕ)
    → addr < u32_mod
    → len ≤ 30
    → IsBlock (record {
      network = bit_and addr (if len == 0 then 0 else shl_ones (32 - len));
      prefix = len;
    })
masked-IsBlock addr zero h l = record {
  short = omega arith;
  index = 0;
  aligned = bit_and-zero addr;
  fits = omega arith;
}
masked-IsBlock addr (suc n) h l = record {
  short = l;
  index = addr / 2 ^ k;
  aligned = ap (bit_and addr) (ground arith) ∙ mask_lem k addr (omega arith) h;
  fits = fit;
}
  where
    k : ℕ
    k = 32 - suc n

    fit : (addr / 2 ^ k + 1) * 2 ^ k ≤ u32_mod
    fit = omega (
      arith,
      block_fits (addr / 2 ^ k) (2 ^ k) (2 ^ (32 - k)) addr (div-add-mod addr (2 ^ k))
          (omega (arith, (shl_ones_lem k (omega arith)).1)),
      (shl_ones_lem k (omega arith)).1,
    )

pub new_allocator-IsBlock : (cidr : Bytes) (a : IpAllocator) → new_allocator cidr ≡ ok a → IsBlock a
unfolding new_allocator
new_allocator-IsBlock cidr a e = elim (Option-cases (split_once b'/' cidr)) [
  | inl o ↦ absurd (ground (arith, o))
  | inr ((addr_text, len_text), o) ↦ elim (Option-cases (parse_ipv4 addr_text)) [
    | inl p ↦ absurd (ground (arith, o, p))
    | inr (addr, p) ↦ elim (Option-cases (parse_u8 len_text)) [
      | inl q ↦ absurd (ground (arith, o, p, q))
      | inr (len, q) ↦ elim (Bool-cases (ltb 30 len)) [
        | inl l ↦ absurd (ground (arith, o, p, q, l))
        | inr l ↦
            subst IsBlock (ok-injective {E = RegistryError} _ a (ground (arith, o, p, q, l)))
              (masked-IsBlock addr len (parse_ipv4-lt addr_text addr p) (ground arith))
      ]
    ]
  ]
]

-- The hosts of a block: all but its first and its last address.
pub host_range-IsBlock :
    (a : IpAllocator)
    → 1 ≤ a.prefix
    → IsBlock a
    → host_range a ≡ (a.network + 1, a.network + 2 ^ (32 - a.prefix) - 2)
unfolding host_range
host_range-IsBlock a h b = ap₂ (λ x y. (x, y)) first last
  where
    size : ℕ
    size = 2 ^ (32 - a.prefix)

    shift : (32 - a.prefix) % 32 ≡ 32 - a.prefix
    shift = omega arith

    room : a.network + size ≤ u32_mod
    room = omega (arith, b.aligned, b.fits)

    first : (a.network + 1) % u32_mod ≡ a.network + 1
    first = omega (arith, room, four_le (32 - a.prefix) (omega arith))

    broadcast : bit_or a.network (2 ^ ((32 - a.prefix) % 32) - 1) ≡ a.network + (size - 1)
    broadcast =
        ap₂ (λ x y. bit_or x (2 ^ y - 1)) b.aligned shift
        ∙ bit_or_low (32 - a.prefix) b.index
        ∙ ap (λ x. x + (size - 1)) (sym b.aligned)

    last :
        (bit_or a.network (2 ^ ((32 - a.prefix) % 32) - 1) + (u32_mod - 1)) % u32_mod
        ≡ a.network + size - 2
    last =
        ap (λ x. (x + (u32_mod - 1)) % u32_mod) broadcast
        ∙ omega (arith, room, four_le (32 - a.prefix) (omega arith))

-- An address of the block that is neither its first nor its last.
abbrev pub IsHost : IpAllocator → ℕ → Type 0
IsHost a ip = (a.network < ip) × (ip + 1 < a.network + 2 ^ (32 - a.prefix))

pub next_free-IsHost :
    (a : IpAllocator) (used : ℕ → Bool) (ip : ℕ)
    → 1 ≤ a.prefix
    → IsBlock a
    → next_free a used ≡ some ip
    → IsHost a ip × (used ip ≡ false) × ((j : ℕ) → IsHost a j → j < ip → used j ≡ true)
unfolding next_free
next_free-IsHost a used ip h b e =
    let lo = a.network + 1 in
    let hi = a.network + 2 ^ (32 - a.prefix) - 2 in
    let r = first_free-IsLowest lo (suc hi - lo) used ip (
      ap (λ (p : ℕ × ℕ). first_free p.0 (suc p.1 - p.0) used) (sym (host_range-IsBlock a h b))
      ∙ e) in
    let size = four_le (32 - a.prefix) (omega (arith, b.short)) in
    (
      (omega (arith, r.above), omega (arith, r.below, r.above, size)),
      r.free,
      λ j p q. r.lowest j (omega (arith, p.0)) q,
    )

pub next_free-none :
    (a : IpAllocator) (used : ℕ → Bool) (j : ℕ)
    → 1 ≤ a.prefix
    → IsBlock a
    → next_free a used ≡ none
    → IsHost a j
    → used j ≡ true
unfolding next_free
next_free-none a used j h b e p =
    let lo = a.network + 1 in
    let hi = a.network + 2 ^ (32 - a.prefix) - 2 in
    first_free-none lo (suc hi - lo) used
      (ap (λ (p : ℕ × ℕ). first_free p.0 (suc p.1 - p.0) used) (sym (host_range-IsBlock a h b)) ∙ e)
      j (omega (arith, p.0)) (omega (arith, p.0, p.1))

-- The allocator of a CIDR block with a prefix length of at least 1 gives out the lowest unused
-- address of the block that is neither its first nor its last, and nothing only if all of those are
-- used.
pub next_free-new_allocator :
    (cidr : Bytes) (a : IpAllocator) (used : ℕ → Bool)
    → new_allocator cidr ≡ ok a
    → 1 ≤ a.prefix
    → ((ip : ℕ)
        → next_free a used ≡ some ip
        → IsHost a ip × (used ip ≡ false) × ((j : ℕ) → IsHost a j → j < ip → used j ≡ true))
      × (next_free a used ≡ none → (j : ℕ) → IsHost a j → used j ≡ true)
next_free-new_allocator cidr a used e h =
    let b = new_allocator-IsBlock cidr a e in
    (λ ip f. next_free-IsHost a used ip h b f, λ f j p. next_free-none a used j h b f p)
