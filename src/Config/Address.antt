-- ===== src/Config/Address.antt =====
-- The text of an address, as the coordinator hands it out, read by the peer parser of src/config.rs.
use mesh_vpn.Base.{ℕ, ◌≤◌, ◌<◌, ◌≡◌, refl, ◌∙◌, ap, [], ◌∷◌, ◌++◌, Bytes, ok, arith, u32_mod, true}
use mesh_vpn.Text.{split, trim, trim_start, trim_end, print_ipv4, print_u8}
use mesh_vpn.Text.RoundTrip.{Lacks, split-one, parse_ipv4-print_ipv4}
use mesh_vpn.Net.{Parsers}
use mesh_vpn.Packet.{Ipv4Subnet, from_str, from_parts, ok_or, contains}
use mesh_vpn.Packet.Subnet.{contains_iff, print_ipv4-Lacks}
use mesh_vpn.Config.{parse_subnets}

-- Only digits and dots, and no other byte between them.
abbrev IsDotted : Bytes → Type 0
IsDotted [] = Unit
IsDotted (c ∷ s) = (46 ≤ c) × (c ≤ 57) × IsDotted s

IsDotted-append : (s t : Bytes) → IsDotted s → IsDotted t → IsDotted (s ++ t)
IsDotted-append [] t h k = k
IsDotted-append (c ∷ s) t (a, b, h) k = (a, b, IsDotted-append s t h k)

print_u8-IsDotted : (n : ℕ) → n < 256 → IsDotted (print_u8 n)
unfolding print_u8
print_u8-IsDotted n h = ground (arith, h)

print_ipv4-IsDotted : (ip : ℕ) → IsDotted (print_ipv4 ip)
unfolding print_ipv4
print_ipv4-IsDotted ip =
    octet _ (omega arith) _
      (octet _ (omega arith) _ (octet _ (omega arith) _ (print_u8-IsDotted _ (omega arith))))
  where
    octet : (n : ℕ) → n < 256 → (s : Bytes) → IsDotted s → IsDotted (print_u8 n ++ (b'.' ∷ s))
    octet n l s h =
        IsDotted-append (print_u8 n) (b'.' ∷ s) (print_u8-IsDotted n l)
          (omega arith, omega arith, h)

IsDotted-Lacks : (s : Bytes) → IsDotted s → Lacks b',' s
IsDotted-Lacks [] h = tt
IsDotted-Lacks (c ∷ s) (a, b, h) = ((λ e. omega (arith, e, a)), IsDotted-Lacks s h)

trim_end-dotted : (s : Bytes) → IsDotted s → trim_end s ≡ s
unfolding trim_end
trim_end-dotted [] h = refl
trim_end-dotted (c ∷ []) (a, b, h) = ground (arith, a)
trim_end-dotted (c ∷ d ∷ s) (a, b, h) = rw (trim_end-dotted (d ∷ s) h) refl

trim-dotted : (s : Bytes) → IsDotted s → trim s ≡ s
unfolding trim trim_start trim_end
trim-dotted [] h = refl
trim-dotted (c ∷ s) (a, b, h) =
    let start : trim_start (c ∷ s) ≡ c ∷ s = ground (arith, a) in
    ap trim_end start ∙ trim_end-dotted (c ∷ s) (a, b, h)

-- The subnet of one address.
abbrev pub only : ℕ → Ipv4Subnet
only ip = record { addr = ip; prefix_len = 32 }

from_str-print_ipv4 : (ip : ℕ) → ip < u32_mod → from_str (print_ipv4 ip) ≡ ok (only ip)
unfolding from_str
from_str-print_ipv4 ip h =
    rw
      (
        split-one b'/' (print_ipv4 ip) (print_ipv4-Lacks ip),
        from_parts,
        parse_ipv4-print_ipv4 ip h,
        ok_or,
      )
      refl

pub parse_subnets-print_ipv4 :
    (P : Parsers) (ip : ℕ)
    → ip < u32_mod
    → parse_subnets P (split b',' (print_ipv4 ip)) ≡ ok (only ip ∷ [])
unfolding parse_subnets
parse_subnets-print_ipv4 P ip h =
    rw
      (
        split-one b',' (print_ipv4 ip) (IsDotted-Lacks (print_ipv4 ip) (print_ipv4-IsDotted ip)),
        parse_subnets,
        trim-dotted (print_ipv4 ip) (print_ipv4-IsDotted ip),
        from_str-print_ipv4 ip h,
      )
      refl

-- It contains its own address and no other.
pub contains-only :
    (ip dst : ℕ)
    → ip < u32_mod
    → dst < u32_mod
    → (contains (only ip) dst ≡ true → ip ≡ dst) × (ip ≡ dst → contains (only ip) dst ≡ true)
contains-only ip dst h k =
    let c = contains_iff (only ip) dst (omega arith) h k in
    ((λ e. omega (arith, c.0 e)), (λ e. c.1 (omega (arith, e))))
