-- ===== src/Packet/Header.antt =====
-- What src/packet.rs accepts as an IPv4 header and as a subnet, and the ranges of what it returns.
use mesh_vpn.Base.{
  ℕ, zero, suc, ◌/◌, ◌≤◌, ◌<◌, ◌≡◌, ◌↔◌, ◌≢◌, none, some, [], ◌∷◌, ◌++◌, Bytes, u32_mod, length,
  arith, length-append, get_or-append_left,
}
use mesh_vpn.Text.{Ipv4Addr}
use mesh_vpn.Packet.{parse_ipv4_header, parse_ipv4_total_length, byte_at}

-- Every entry is a byte.
abbrev pub AreBytes : Bytes → Type 0
AreBytes [] = Unit
AreBytes (b ∷ bs) = (b < 256) × AreBytes bs

pub byte_at-lt : (bs : Bytes) (i : ℕ) → AreBytes bs → byte_at bs i < 256
byte_at-lt [] i h = omega arith
byte_at-lt (b ∷ bs) zero h = h.0
byte_at-lt (b ∷ bs) (suc i) h = byte_at-lt bs i h.1

-- A header is read exactly from a packet of at least 20 bytes whose first four bits are 4; the two
-- addresses then fit 32 bits.
pub parse_ipv4_header_iff :
    (packet : Bytes)
    → AreBytes packet
    → ((parse_ipv4_header packet ≢ none) ↔ ((20 ≤ length packet) × (byte_at packet 0 / 16 ≡ 4)))
      × ((src dst : Ipv4Addr)
          → parse_ipv4_header packet ≡ some (src, dst)
          → (src < u32_mod) × (dst < u32_mod))
unfolding parse_ipv4_header
parse_ipv4_header_iff packet h = (
  (λ some_header. ground arith, λ good. ground arith),
  λ src dst e. ground (arith, at 12, at 13, at 14, at 15, at 16, at 17, at 18, at 19),
)
  where
    at : (i : ℕ) → byte_at packet i < 256
    at i = byte_at-lt packet i h

-- Both header readers accept the same packets.
pub total_length-header :
    (packet : Bytes) → (parse_ipv4_total_length packet ≡ none) ↔ (parse_ipv4_header packet ≡ none)
unfolding parse_ipv4_total_length parse_ipv4_header
total_length-header packet = ground arith

-- What follows a packet does not change the total length that is read from it.
pub total_length-append :
    (packet padding : Bytes) (n : ℕ)
    → parse_ipv4_total_length packet ≡ some n
    → parse_ipv4_total_length (packet ++ padding) ≡ some n
unfolding parse_ipv4_total_length
total_length-append packet padding n h =
    ground (arith, length-append packet padding, kept 0, kept 2, kept 3)
  where
    kept : (i : ℕ) → i < length packet → byte_at (packet ++ padding) i ≡ byte_at packet i
    kept i p = get_or-append_left packet padding i 0 p
