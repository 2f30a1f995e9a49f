-- ===== src/Text.antt =====
-- The parts of Rust's standard library that src/packet.rs, src/config.rs and src/coordinator.rs call on
-- text: `str::split`, `split_once`, `trim`, and the parsers and printers of `u8` and `Ipv4Addr`.
-- A text is the list of its bytes.
pub mod RoundTrip
pub mod Range
use Prim.Native.Char.{code}
use Prim.Native.String
use Prim.Native.String.{String}
use mesh_vpn.Base.{
  ℕ, zero, suc, ◌+◌, ◌-◌, ◌*◌, ◌/◌, ◌%◌, ◌^◌, Bool, true, false, ◌&&◌, ◌||◌, Option, none, some,
  List, [], ◌∷◌, ◌++◌, ◌≡◌, refl, Bytes, ltb, leb, ◌==◌, if◌then◌else◌, length,
}

-- The bytes of an ASCII literal.
abbrev pub codes : String → Bytes
codes String.[] = []
codes (String.◌∷◌ c s) = code c ∷ codes s

-- `split(sep)`: always at least one part.
unfoldable pub split : ℕ → Bytes → List Bytes
split sep [] = [] ∷ []
split sep (c ∷ s) = elim (split sep s) [
  | [] ↦ [] ∷ []
  | part ∷ parts ↦ if c == sep then [] ∷ part ∷ parts else (c ∷ part) ∷ parts
]

-- `split_once(sep)`
unfoldable pub split_once : ℕ → Bytes → Option (Bytes × Bytes)
split_once sep [] = none
split_once sep (c ∷ s) =
    if c == sep
    then some ([], s)
    else elim (split_once sep s) [ none ↦ none | some (a, b) ↦ some (c ∷ a, b) ]

-- ASCII white space: the model's texts are ASCII.
abbrev pub is_space : ℕ → Bool
is_space c = c == 32 || (leb 9 c && leb c 13)

unfoldable pub trim_start : Bytes → Bytes
trim_start [] = []
trim_start (c ∷ s) = let rest = trim_start s in if is_space c then rest else c ∷ s

unfoldable pub trim_end : Bytes → Bytes
trim_end [] = []
trim_end (c ∷ s) = elim (trim_end s) [ [] ↦ if is_space c then [] else c ∷ [] | d ∷ t ↦ c ∷ d ∷ t ]

unfoldable pub trim : Bytes → Bytes
unfolding trim_start trim_end
trim s = trim_end (trim_start s)

abbrev pub is_digit : ℕ → Bool
is_digit c = leb b'0' c && leb c b'9'

-- `u8::from_str`: an optional sign `+`, then digits; leading zeros are allowed.
unfoldable pub u8_digits : Bytes → ℕ → Option ℕ
u8_digits [] n = some n
u8_digits (c ∷ s) n =
    let m = n * 10 + (c - b'0') in
    let rest = u8_digits s m in if is_digit c && ltb m 256 then rest else none

unfoldable pub strip_plus : Bytes → Bytes
strip_plus [] = []
strip_plus (c ∷ s) = if c == b'+' then s else c ∷ s

unfoldable pub parse_u8 : Bytes → Option ℕ
unfolding u8_digits strip_plus
parse_u8 s = elim (strip_plus s) [ [] ↦ none | c ∷ t ↦ u8_digits (c ∷ t) 0 ]

-- `u8`'s `Display`
unfoldable pub print_u8 : ℕ → Bytes
print_u8 n =
    if ltb n 10
    then (b'0' + n) ∷ []
    else if ltb n 100
    then (b'0' + n / 10) ∷ (b'0' + n % 10) ∷ []
    else (b'0' + n / 100) ∷ (b'0' + n / 10 % 10) ∷ (b'0' + n % 10) ∷ []

-- `std::net::Ipv4Addr`, as the number of `u32::from`.
abbrev pub Ipv4Addr : Type 0
Ipv4Addr = ℕ

abbrev pub ipv4_new : ℕ → ℕ → ℕ → ℕ → Ipv4Addr
ipv4_new a b c d = ((a * 256 + b) * 256 + c) * 256 + d

-- `Ipv4Addr`'s `Display`
unfoldable pub print_ipv4 : Ipv4Addr → Bytes
print_ipv4 ip =
    print_u8 (ip / 2 ^ 24 % 256)
    ++ (b'.'
        ∷ (print_u8 (ip / 2 ^ 16 % 256)
            ++ (b'.' ∷ (print_u8 (ip / 2 ^ 8 % 256) ++ (b'.' ∷ print_u8 (ip % 256))))))

-- `read_number` of the address parser: at most three digits, no leading zero, at most 255.
-- `count` digits were read, of value `n`.
unfoldable pub octet_digits : Bytes → ℕ → ℕ → Option (ℕ × ℕ × Bytes)
octet_digits [] count n = some (count, n, [])
octet_digits (c ∷ s) count n =
    let m = n * 10 + (c - b'0') in
    let rest = octet_digits s (count + 1) m in
    if is_digit c then (if ltb m 256 && ltb count 3 then rest else none) else some (count, n, c ∷ s)

abbrev starts_with_zero : Bytes → Bool
starts_with_zero [] = false
starts_with_zero (c ∷ s) = c == b'0'

unfoldable pub read_octet : Bytes → Option (ℕ × Bytes)
unfolding octet_digits
read_octet s = elim (octet_digits s 0 0) [
  | none ↦ none
  | some (count, n, rest) ↦
      if count == 0 || (starts_with_zero s && ltb 1 count) then none else some (n, rest)
]

-- A further octet comes behind a dot.
unfoldable pub read_dot_octet : Bytes → Option (ℕ × Bytes)
unfolding read_octet
read_dot_octet [] = none
read_dot_octet (c ∷ s) = if c == b'.' then read_octet s else none

infixl 5 ◌>>=◌
abbrev pub ◌>>=◌ {ℓ κ} : {A : Type ℓ} {B : Type κ} → Option A → (A → Option B) → Option B
none >>= f = none
some a >>= f = f a

abbrev pub at_end : Bytes → Ipv4Addr → Option Ipv4Addr
at_end [] ip = some ip
at_end (c ∷ s) ip = none

-- `Ipv4Addr::from_str`; a text of more than 15 bytes is refused at once.
unfoldable pub parse_ipv4 : Bytes → Option Ipv4Addr
unfolding read_octet read_dot_octet
parse_ipv4 s = if ltb 15 (length s) then none else do
  (a, s1) ← read_octet s
  (b, s2) ← read_dot_octet s1
  (c, s3) ← read_dot_octet s2
  (d, s4) ← read_dot_octet s3
  at_end s4 (ipv4_new a b c d)

parses : parse_ipv4 (codes "10.0.99.2") ≡ some (ipv4_new 10 0 99 2)
unfolding parse_ipv4
parses = refl

prints : print_ipv4 (ipv4_new 192 168 1 254) ≡ codes "192.168.1.254"
unfolding print_ipv4 print_u8
prints = refl

refuses :
    (parse_ipv4 (codes "10.0.99") ≡ none)
    × (parse_ipv4 (codes "10.0.99.256") ≡ none)
    × (parse_ipv4 (codes "10.0.09.2") ≡ none)
    × (parse_ipv4 (codes "10.0.99.2 ") ≡ none)
unfolding parse_ipv4
refuses = (refl, refl, refl, refl)

splits : split b'/' (codes "a//b") ≡ codes "a" ∷ [] ∷ codes "b" ∷ []
unfolding split
splits = refl

trims : trim (codes "  a b ") ≡ codes "a b"
unfolding trim
trims = refl
