-- ===== src/Packet/Ranges.antt =====
-- A subnet that src/packet.rs reads has an address of 32 bits and a prefix of at most 32.
use mesh_vpn.Base.{
  ℕ, ◌≤◌, ◌<◌, ◌≡◌, List, [], ◌∷◌, Bytes, u32_mod, ok, arith, inl, inr, Option-cases,
}
use mesh_vpn.Text.{split, parse_ipv4, parse_u8}
use mesh_vpn.Text.Range.{parse_ipv4-lt}
use mesh_vpn.Packet.{Ipv4Subnet, Result-cases, prefix_of, from_parts, from_str}

abbrev pub HasRange : Ipv4Subnet → Type 0
HasRange s = (s.addr < u32_mod) × (s.prefix_len ≤ 32)

abbrev pub HaveRanges : List Ipv4Subnet → Type 0
HaveRanges [] = Unit
HaveRanges (s ∷ ss) = HasRange s × HaveRanges ss

prefix_of-le : (p : Bytes) (n : ℕ) → prefix_of p ≡ ok n → n ≤ 32
prefix_of-le p n e = elim (Option-cases (parse_u8 p)) [
  | inl h ↦ absurd (ground (arith, e, h))
  | inr (m, h) ↦ ground (arith, e, h)
]

from_parts-HasRange :
    (ps : List Bytes) (subnet : Ipv4Subnet) → from_parts ps ≡ ok subnet → HasRange subnet
from_parts-HasRange [] subnet e = absurd (cc)
from_parts-HasRange (a ∷ []) subnet e = elim (Option-cases (parse_ipv4 a)) [
  | inl h ↦ absurd (ground (arith, e, h))
  | inr (ip, h) ↦ ground (arith, e, h, parse_ipv4-lt a ip h)
]
from_parts-HasRange (a ∷ p ∷ []) subnet e = elim (Option-cases (parse_ipv4 a)) [
  | inl h ↦ absurd (ground (arith, e, h))
  | inr (ip, h) ↦ elim (Result-cases (prefix_of p)) [
    | inl (x, k) ↦ absurd (ground (arith, e, h, k))
    | inr (n, k) ↦ ground (arith, e, h, k, parse_ipv4-lt a ip h, prefix_of-le p n k)
  ]
]
from_parts-HasRange (a ∷ p ∷ q ∷ ps) subnet e = absurd (cc)

pub from_str-HasRange : (s : Bytes) (subnet : Ipv4Subnet) → from_str s ≡ ok subnet → HasRange subnet
unfolding from_str
from_str-HasRange s subnet e = from_parts-HasRange (split b'/' s) subnet e
