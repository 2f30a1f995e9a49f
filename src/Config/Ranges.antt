-- ===== src/Config/Ranges.antt =====
-- A peer that `parse_peer_arg` of src/config.rs returns has a key of 32 bytes and subnets of 32 bits.
use mesh_vpn.Base.{
  ◌≡◌, List, [], ◌∷◌, Bytes, ok, arith, length, ◌==◌, ==→eq, Bool-cases, Option-cases, inl, inr,
}
use mesh_vpn.Text.{split, trim}
use mesh_vpn.Net.{Parsers}
use mesh_vpn.Packet.{Ipv4Subnet, Result-cases, from_str}
use mesh_vpn.Packet.Ranges.{HaveRanges, from_str-HasRange}
use mesh_vpn.Config.{
  ParsedPeer, parse_key, parse_endpoint, parse_subnets, parse_fields, parse_peer_arg,
}

module _ (P : Parsers) where
  parse_subnets-HaveRanges :
      (ss : List Bytes) (subnets : List Ipv4Subnet)
      → parse_subnets P ss ≡ ok subnets
      → HaveRanges subnets
  unfolding parse_subnets
  parse_subnets-HaveRanges [] subnets e = ground arith
  parse_subnets-HaveRanges (s ∷ ss) subnets e = elim (Result-cases (from_str (trim s))) [
    | inl (x, f) ↦ absurd (ground (arith, e, f))
    | inr (subnet, f) ↦ elim (Result-cases (parse_subnets P ss)) [
      | inl (x, g) ↦ absurd (ground (arith, e, f, g))
      | inr (rest, g) ↦
          ground (
            arith,
            e,
            f,
            g,
            from_str-HasRange (trim s) subnet f,
            parse_subnets-HaveRanges ss rest g,
          )
    ]
  ]

  parse_key-length : (s key : Bytes) → parse_key P s ≡ ok key → length key ≡ 32
  unfolding parse_key
  parse_key-length s key e = elim (Option-cases (P.decode_hex s)) [
    | inl d ↦ absurd (ground (arith, e, d))
    | inr (k, d) ↦ elim (Bool-cases (length k == 32)) [
      | inl l ↦ ground (arith, e, d, l, ==→eq (length k) 32 l)
      | inr l ↦ absurd (ground (arith, e, d, l))
    ]
  ]

  -- What the fields of an argument give.
  parse_fields-ranges :
      (parts : List Bytes) (w : ParsedPeer)
      → parse_fields P parts ≡ ok w
      → (length w.pubkey ≡ 32) × HaveRanges w.allowed_ips
  parse_fields-ranges [] w e = absurd (cc)
  parse_fields-ranges (a ∷ []) w e = absurd (cc)
  parse_fields-ranges (a ∷ b ∷ []) w e = absurd (cc)
  parse_fields-ranges (a ∷ b ∷ c ∷ []) w e = elim (Result-cases (parse_key P a)) [
    | inl (x, f) ↦ absurd (ground (arith, e, f))
    | inr (key, f) ↦ elim (Result-cases (parse_endpoint P b)) [
      | inl (x, g) ↦ absurd (ground (arith, e, f, g))
      | inr (ep, g) ↦ elim (Result-cases (parse_subnets P (split b',' c))) [
        | inl (x, h) ↦ absurd (ground (arith, e, f, g, h))
        | inr (ips, h) ↦ ground (
          arith,
          e,
          f,
          g,
          h,
          parse_key-length a key f,
          parse_subnets-HaveRanges (split b',' c) ips h,
        )
      ]
    ]
  ]
  parse_fields-ranges (a ∷ b ∷ c ∷ d ∷ ps) w e = absurd (cc)

  pub parse_peer_arg-ranges :
      (s : Bytes) (w : ParsedPeer)
      → parse_peer_arg P s ≡ ok w
      → (length w.pubkey ≡ 32) × HaveRanges w.allowed_ips
  unfolding parse_peer_arg
  parse_peer_arg-ranges s w e = parse_fields-ranges (split b';' s) w e
