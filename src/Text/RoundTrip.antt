-- ===== src/Text/RoundTrip.antt =====
-- What the printers of Text.antt write, its parsers read back; splitting at a separator that the
-- parts do not hold gives the parts.
use mathlib.Core.List.{append-nil}
use mesh_vpn.Base.{
  ℕ, ◌+◌, ◌-◌, lt→ltb, le→ltb, ◌*◌, ◌/◌, ◌%◌, ◌^◌, ◌≤◌, ◌<◌, ◌≡◌, refl, ◌∙◌, ap, sym, ◌≢◌, false,
  ◌&&◌, ◌||◌, some, List, [], ◌∷◌, ◌++◌, Bytes, u32_mod, ltb, ◌==◌, if◌then◌else◌, length,
  length-append, arith, dec_lt,
}
use mesh_vpn.Text.{
  is_digit, starts_with_zero, split, parse_u8, u8_digits, strip_plus, print_u8, Ipv4Addr, ipv4_new,
  print_ipv4, octet_digits, read_octet, read_dot_octet, parse_ipv4, ◌>>=◌,
}

-- A text that does not go on with a digit.
abbrev pub EndsNumber : Bytes → Type 0
EndsNumber [] = Unit
EndsNumber (c ∷ s) = is_digit c ≡ false

octet_digits_end :
    (s : Bytes) (count n : ℕ) → EndsNumber s → octet_digits s count n ≡ some (count, n, s)
unfolding octet_digits
octet_digits_end [] count n h = refl
octet_digits_end (c ∷ s) count n h = ground arith

digit_value : (d : ℕ) → b'0' + d - b'0' ≡ d
digit_value d = omega arith

octet_digits_step :
    (s : Bytes) (count n d m : ℕ)
    → d < 10
    → m ≡ n * 10 + d
    → m < 256
    → count < 3
    → octet_digits ((b'0' + d) ∷ s) count n ≡ octet_digits s (count + 1) m
unfolding octet_digits
octet_digits_step s count n d m h e k l = rw (digit_value d, ← e) (ground arith)

abbrev digit_count : ℕ → ℕ
digit_count n = if ltb n 10 then 1 else if ltb n 100 then 2 else 3

-- The reader stops behind the digits of a printed octet.
octet_digits-print :
    (n : ℕ) (s : Bytes)
    → n < 256
    → EndsNumber s
    → octet_digits (print_u8 n ++ s) 0 0 ≡ some (digit_count n, n, s)
unfolding print_u8
octet_digits-print n s h e = elim (dec_lt n 10) [
  | yes p ↦
      rw (lt→ltb n 10 p)
        (octet_digits_step s 0 0 n n p (omega arith) h (omega arith) ∙ octet_digits_end s 1 n e)
  | no p ↦ elim (dec_lt n 100) [
    | yes q ↦
        rw (le→ltb n 10 (omega arith), lt→ltb n 100 q)
          (octet_digits_step _ 0 0 (n / 10) (n / 10) (omega arith) (omega arith) (omega arith)
              (omega arith)
            ∙ octet_digits_step s 1 (n / 10) (n % 10) n (omega arith) (omega arith) h (omega arith)
            ∙ octet_digits_end s 2 n e)
    | no q ↦
        rw (le→ltb n 10 (omega arith), le→ltb n 100 (omega arith))
          (octet_digits_step _ 0 0 (n / 100) (n / 100) (omega arith) (omega arith) (omega arith)
              (omega arith)
            ∙ octet_digits_step _ 1 (n / 100) (n / 10 % 10) (n / 10) (omega arith) (omega arith)
                (omega arith) (omega arith)
            ∙ octet_digits_step s 2 (n / 10) (n % 10) n (omega arith) (omega arith) h (omega arith)
            ∙ octet_digits_end s 3 n e)
  ]
]

-- Only a single digit may be zero.
no_leading_zero :
    (n : ℕ) (s : Bytes)
    → n < 256
    → ((digit_count n == 0) || (starts_with_zero (print_u8 n ++ s) && ltb 1 (digit_count n)))
      ≡ false
unfolding print_u8
no_leading_zero n s h = elim (dec_lt n 10) [
  | yes p ↦ ground arith
  | no p ↦ elim (dec_lt n 100) [ yes q ↦ ground arith | no q ↦ ground arith ]
]

-- A printed octet reads back, whatever follows it but a digit.
read_octet-print_u8 :
    (n : ℕ) (s : Bytes) → n < 256 → EndsNumber s → read_octet (print_u8 n ++ s) ≡ some (n, s)
unfolding read_octet
read_octet-print_u8 n s h e = rw (octet_digits-print n s h e, read_octet, no_leading_zero n s h)

read_dot_octet-print_u8 :
    (n : ℕ) (s : Bytes)
    → n < 256
    → EndsNumber s
    → read_dot_octet (b'.' ∷ (print_u8 n ++ s)) ≡ some (n, s)
unfolding read_dot_octet
read_dot_octet-print_u8 n s h e = read_octet-print_u8 n s h e

length-print_u8 : (n : ℕ) → length (print_u8 n) ≤ 3
unfolding print_u8
length-print_u8 n = ground arith

module _ (a b c d : ℕ) where
  dotted : Bytes
  dotted = print_u8 a ++ (b'.' ∷ (print_u8 b ++ (b'.' ∷ (print_u8 c ++ (b'.' ∷ print_u8 d)))))

  length-dotted : length dotted ≤ 15
  unfolding dotted
  length-dotted = omega (
    arith,
    length-append {0} (print_u8 a),
    length-append {0} (print_u8 b),
    length-append {0} (print_u8 c),
    length-print_u8,
  )

  parse_ipv4-dotted :
      a < 256 → b < 256 → c < 256 → d < 256 → parse_ipv4 dotted ≡ some (ipv4_new a b c d)
  unfolding parse_ipv4 dotted
  parse_ipv4-dotted ha hb hc hd = rw (
    le→ltb 15 (length dotted) length-dotted,
    read_octet-print_u8 a _ ha refl,
    ◌>>=◌,
    read_dot_octet-print_u8 b _ hb refl,
    ◌>>=◌,
    read_dot_octet-print_u8 c _ hc refl,
    ◌>>=◌,
    last,
  )
    where
      last : read_dot_octet (b'.' ∷ print_u8 d) ≡ some (d, [])
      last =
          ap (λ s. read_dot_octet (b'.' ∷ s)) (sym (append-nil (print_u8 d)))
          ∙ read_dot_octet-print_u8 d [] hd tt

-- An address that is printed reads back as itself.
pub parse_ipv4-print_ipv4 : (ip : Ipv4Addr) → ip < u32_mod → parse_ipv4 (print_ipv4 ip) ≡ some ip
unfolding print_ipv4 dotted
parse_ipv4-print_ipv4 ip h =
    parse_ipv4-dotted (ip / 2 ^ 24 % 256) (ip / 2 ^ 16 % 256) (ip / 2 ^ 8 % 256) (ip % 256)
      (omega arith) (omega arith) (omega arith) (omega arith)
    ∙ ap some (omega arith)

u8_digits_step :
    (s : Bytes) (n d m : ℕ)
    → d < 10
    → m ≡ n * 10 + d
    → m < 256
    → u8_digits ((b'0' + d) ∷ s) n ≡ u8_digits s m
unfolding u8_digits
u8_digits_step s n d m h e k = rw (digit_value d, ← e) (ground arith)

strip_plus-digit : (d : ℕ) (s : Bytes) → strip_plus ((b'0' + d) ∷ s) ≡ (b'0' + d) ∷ s
unfolding strip_plus
strip_plus-digit d s = ground arith

-- A printed byte reads back.
pub parse_u8-print_u8 : (n : ℕ) → n < 256 → parse_u8 (print_u8 n) ≡ some n
unfolding parse_u8 print_u8
parse_u8-print_u8 n h = elim (dec_lt n 10) [
  | yes p ↦
      rw (lt→ltb n 10 p, parse_u8, strip_plus-digit n [])
        (u8_digits_step [] 0 n n p (omega arith) h ∙ u8_digits_end n)
  | no p ↦ elim (dec_lt n 100) [
    | yes q ↦
        rw (le→ltb n 10 (omega arith), lt→ltb n 100 q, parse_u8, strip_plus-digit (n / 10) ones)
          (u8_digits_step ones 0 (n / 10) (n / 10) (omega arith) (omega arith) (omega arith)
            ∙ u8_digits_step [] (n / 10) (n % 10) n (omega arith) (omega arith) h
            ∙ u8_digits_end n)
    | no q ↦
        rw
          (
            le→ltb n 10 (omega arith),
            le→ltb n 100 (omega arith),
            parse_u8,
            strip_plus-digit (n / 100) tens,
          )
          (u8_digits_step tens 0 (n / 100) (n / 100) (omega arith) (omega arith) (omega arith)
            ∙ u8_digits_step ones (n / 100) (n / 10 % 10) (n / 10) (omega arith) (omega arith)
                (omega arith)
            ∙ u8_digits_step [] (n / 10) (n % 10) n (omega arith) (omega arith) h
            ∙ u8_digits_end n)
  ]
]
  where
    ones : Bytes
    ones = (b'0' + n % 10) ∷ []

    tens : Bytes
    tens = (b'0' + n / 10 % 10) ∷ ones

    u8_digits_end : (k : ℕ) → u8_digits [] k ≡ some k
    u8_digits_end k = unfold u8_digits in refl

-- No byte of the text is the separator.
abbrev pub Lacks : ℕ → Bytes → Type 0
Lacks sep [] = Unit
Lacks sep (c ∷ s) = (c ≢ sep) × Lacks sep s

pub Lacks-append : (sep : ℕ) (s t : Bytes) → Lacks sep s → Lacks sep t → Lacks sep (s ++ t)
Lacks-append sep [] t h k = k
Lacks-append sep (c ∷ s) t h k = (h.0, Lacks-append sep s t h.1 k)

-- A text without the separator is one part.
pub split-one : (sep : ℕ) (s : Bytes) → Lacks sep s → split sep s ≡ s ∷ []
unfolding split
split-one sep [] h = refl
split-one sep (c ∷ s) h = rw (split-one sep s h.1, split) (ground arith)

split-ne-nil : (sep : ℕ) (s : Bytes) → (p : Bytes) × (ps : List Bytes) × (split sep s ≡ p ∷ ps)
unfolding split
split-ne-nil sep [] = ([], [], refl)
split-ne-nil sep (c ∷ s) =
    let (p, ps, e) = split-ne-nil sep s in
    (if c == sep then [] else c ∷ p, if c == sep then p ∷ ps else ps, rw (e, split) (ground arith))

split_head : (sep : ℕ) (t : Bytes) → split sep (sep ∷ t) ≡ [] ∷ split sep t
unfolding split
split_head sep t = let (p, ps, e) = split-ne-nil sep t in rw (e, split) (ground arith)

-- The first part of a split ends at the first separator.
pub split-cons :
    (sep : ℕ) (s t : Bytes) → Lacks sep s → split sep (s ++ (sep ∷ t)) ≡ s ∷ split sep t
unfolding split
split-cons sep [] t h = split_head sep t
split-cons sep (c ∷ s) t h = rw (split-cons sep s t h.1, split) (ground arith)
