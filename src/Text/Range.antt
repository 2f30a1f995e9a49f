-- ===== src/Text/Range.antt =====
-- What the parsers of src/packet.rs' addresses can return.
use mesh_vpn.Base.{
  ℕ, ◌+◌, ◌-◌, ◌*◌, ◌<◌, ◌≡◌, some, [], ◌∷◌, Bytes, u32_mod, arith, Option-cases, inl, inr, ltb,
  ◌==◌, ◌&&◌, Bool-cases,
}
use mesh_vpn.Text.{
  octet_digits, read_octet, read_dot_octet, parse_ipv4, is_digit, Ipv4Addr, ipv4_new, at_end,
}

octet_digits-lt :
    (s : Bytes) (count n k m : ℕ) (rest : Bytes)
    → n < 256
    → octet_digits s count n ≡ some (k, m, rest)
    → m < 256
unfolding octet_digits
octet_digits-lt [] count n k m rest h e = ground arith
octet_digits-lt (c ∷ s) count n k m rest h e = elim (Bool-cases (is_digit c)) [
  | inr d ↦ ground (arith, d)
  | inl d ↦ elim (Bool-cases (ltb (n * 10 + (c - b'0')) 256 && ltb count 3)) [
    | inr l ↦ absurd (ground (arith, d, l))
    | inl l ↦
        octet_digits-lt s (count + 1) (n * 10 + (c - b'0')) k m rest (ground arith)
          (ground (arith, d, l))
  ]
]

read_octet-lt : (s : Bytes) (n : ℕ) (rest : Bytes) → read_octet s ≡ some (n, rest) → n < 256
unfolding read_octet
read_octet-lt s n rest e = elim (Option-cases (octet_digits s 0 0)) [
  | inl o ↦ absurd (ground (arith, o))
  | inr ((k, m, r), o) ↦ ground (arith, o, octet_digits-lt s 0 0 k m r (omega arith) o)
]

read_dot_octet-lt : (s : Bytes) (n : ℕ) (rest : Bytes) → read_dot_octet s ≡ some (n, rest) → n < 256
unfolding read_dot_octet
read_dot_octet-lt [] n rest e = absurd (cc)
read_dot_octet-lt (c ∷ s) n rest e = elim (Bool-cases (c == b'.')) [
  | inl d ↦ read_octet-lt s n rest (ground (arith, d))
  | inr d ↦ absurd (ground (arith, d))
]

-- An address that is read has 32 bits.
pub parse_ipv4-lt : (s : Bytes) (ip : Ipv4Addr) → parse_ipv4 s ≡ some ip → ip < u32_mod
unfolding parse_ipv4
parse_ipv4-lt s ip e = elim (Option-cases (read_octet s)) [
  | inl o ↦ absurd (ground (arith, o))
  | inr ((a, s1), o) ↦ elim (Option-cases (read_dot_octet s1)) [
    | inl o1 ↦ absurd (ground (arith, o, o1))
    | inr ((b, s2), o1) ↦ elim (Option-cases (read_dot_octet s2)) [
      | inl o2 ↦ absurd (ground (arith, o, o1, o2))
      | inr ((c, s3), o2) ↦ elim (Option-cases (read_dot_octet s3)) [
        | inl o3 ↦ absurd (ground (arith, o, o1, o2, o3))
        | inr ((d, s4), o3) ↦
            let ha = read_octet-lt s a s1 o in
            let hb = read_dot_octet-lt s1 b s2 o1 in
            let hc = read_dot_octet-lt s2 c s3 o2 in
            let hd = read_dot_octet-lt s3 d s4 o3 in
            whole s4 a b c d ha hb hc hd (ground (arith, o, o1, o2, o3))
      ]
    ]
  ]
]
  where
    whole :
        (t : Bytes) (a b c d : ℕ)
        → a < 256
        → b < 256
        → c < 256
        → d < 256
        → at_end t (ipv4_new a b c d) ≡ some ip
        → ip < u32_mod
    whole [] a b c d ha hb hc hd h = ground arith
    whole (x ∷ t) a b c d ha hb hc hd h = absurd (cc)
