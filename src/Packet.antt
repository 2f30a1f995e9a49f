-- ===== src/Packet.antt =====
-- src/packet.rs: the fields of an IPv4 header, and subnets.
pub mod Subnet
pub mod Ranges
pub mod Header
mod Examples
use mesh_vpn.Base.{
  ◌≡◌, refl, arith, ◌⊎◌, inl, inr, ℕ, zero, suc, ◌+◌, ◌-◌, ◌*◌, ◌/◌, ◌%◌, ◌^◌, bit_and, Bool, true,
  false, Option, none, some, List, [], ◌∷◌, ◌++◌, Bytes, u32_mod, Result, ok, err, ltb, ◌==◌,
  if◌then◌else◌, length, get_or,
}
use mesh_vpn.Text.{Ipv4Addr, ipv4_new, split, parse_ipv4, parse_u8, print_ipv4, print_u8}

-- `packet[i]`, read only below the length that the code has checked.
abbrev pub byte_at : Bytes → ℕ → ℕ
byte_at packet i = get_or packet i 0

unfoldable pub parse_ipv4_header : Bytes → Option (Ipv4Addr × Ipv4Addr)
parse_ipv4_header packet =
    if ltb (length packet) 20
    then none
    else (let version = byte_at packet 0 / 2 ^ 4 in
        if version == 4
        then some (
          ipv4_new (byte_at packet 12) (byte_at packet 13) (byte_at packet 14) (byte_at packet 15),
          ipv4_new (byte_at packet 16) (byte_at packet 17) (byte_at packet 18) (byte_at packet 19),
        )
        else none)

unfoldable pub parse_ipv4_total_length : Bytes → Option ℕ
parse_ipv4_total_length packet =
    if ltb (length packet) 20
    then none
    else (let version = byte_at packet 0 / 2 ^ 4 in
        if version == 4 then some (byte_at packet 2 * 256 + byte_at packet 3) else none)

pub record Ipv4Subnet : Type 0 where
  pub addr : Ipv4Addr
  pub prefix_len : ℕ

-- `!0u32 << k`: the bits shifted out are lost. Rust refuses a shift by 32 or more; `k` is below 32
-- where the code shifts.
abbrev pub shl_ones : ℕ → ℕ
shl_ones k = (u32_mod - 1) * 2 ^ k % u32_mod

unfoldable pub contains : Ipv4Subnet → Ipv4Addr → Bool
contains subnet ip =
    if subnet.prefix_len == 0
    then true
    else (let mask = shl_ones (32 - subnet.prefix_len) in
        bit_and subnet.addr mask == bit_and ip mask)

-- The messages of `Ipv4Subnet::from_str`.
pub data SubnetError : Type 0 where
  invalid_format invalid_address invalid_prefix prefix_too_long : SubnetError

abbrev pub ok_or {ℓ κ} : {A : Type ℓ} {E : Type κ} → Option A → E → Result A E
ok_or none e = err e
ok_or (some a) e = ok a

infixl 5 ◌>>=◌
abbrev pub ◌>>=◌ {ℓ κ ι} :
    {A : Type ℓ} {B : Type κ} {E : Type ι} → Result A E → (A → Result B E) → Result B E
ok a >>= f = f a
err e >>= f = err e

pub Result-cases {ℓ κ} :
    {A : Type ℓ} {E : Type κ} (r : Result A E) → ((x : E) × (r ≡ err x)) ⊎ ((a : A) × (r ≡ ok a))
Result-cases (err x) = inl (x, refl)
Result-cases (ok a) = inr (a, refl)

-- A chain that succeeds has succeeded in its first step.
pub bind-ok {ℓ κ ι} :
    {A : Type ℓ} {B : Type κ} {E : Type ι} (r : Result A E) (f : A → Result B E) (b : B)
    → (r >>= f) ≡ ok b
    → (a : A) × (r ≡ ok a) × (f a ≡ ok b)
bind-ok (ok a) f b e = (a, refl, e)
bind-ok (err x) f b e = absurd (cc)

pub ok_or-ok {ℓ κ} :
    {A : Type ℓ} {E : Type κ} (o : Option A) (x : E) (a : A) → ok_or o x ≡ ok a → o ≡ some a
ok_or-ok none x a e = absurd (cc)
ok_or-ok (some b) x a e = ground arith

abbrev prefix_of : Bytes → Result ℕ SubnetError
prefix_of s = do
  len ← ok_or (parse_u8 s) invalid_prefix
  if ltb 32 len then err prefix_too_long else ok len

abbrev pub from_parts : List Bytes → Result Ipv4Subnet SubnetError
from_parts [] = err invalid_format
from_parts (a ∷ []) = do
  addr ← ok_or (parse_ipv4 a) invalid_address
  ok (record { addr = addr; prefix_len = 32 })
from_parts (a ∷ p ∷ []) = do
  addr ← ok_or (parse_ipv4 a) invalid_address
  prefix_len ← prefix_of p
  ok (record { addr = addr; prefix_len = prefix_len })
from_parts (a ∷ p ∷ q ∷ ps) = err invalid_format

unfoldable pub from_str : Bytes → Result Ipv4Subnet SubnetError
from_str s = from_parts (split b'/' s)

-- `Display`
unfoldable pub to_string : Ipv4Subnet → Bytes
to_string subnet = print_ipv4 subnet.addr ++ (b'/' ∷ print_u8 subnet.prefix_len)
