-- ===== src/Net.antt =====
-- Socket addresses and big-endian integers of Rust's standard library, and what the program takes of
-- its surroundings: the clock, random bytes, and the crates that it only calls.
pub mod Plain
use mesh_vpn.Base.{
  ℕ, zero, suc, ◌+◌, ◌-◌, ◌*◌, ◌/◌, ◌%◌, ◌^◌, ◌≤◌, ◌<◌, ◌≡◌, refl, ◌∙◌, ap, ap₂, List, [], ◌∷◌,
  Bytes, Option, Bool, ℕ_discrete, arith, length,
}
use native.Mathlib.Nat.{
  pow-suc, mod-lt, mod-eq_of_lt, one-le-pow, div-add-mod, add-mul-mod_self_right,
}

pub data IpAddr : Type 0 where
  v4 : ℕ → IpAddr
  v6 : ℕ → IpAddr

-- An address and a port; a V6 address also has its flow label and scope.
pub data SocketAddr : Type 0 where
  socket_v4 : ℕ → ℕ → SocketAddr
  socket_v6 : ℕ → ℕ → ℕ → ℕ → SocketAddr

unfoldable pub SocketAddr-discrete : Discrete SocketAddr
SocketAddr-discrete = hlevel ℕ_discrete

unfoldable pub IpAddr-discrete : Discrete IpAddr
IpAddr-discrete = hlevel ℕ_discrete

unfoldable pub Bytes-discrete : Discrete Bytes
Bytes-discrete = hlevel ℕ_discrete

unfoldable pub endpoint-discrete : Discrete (Option SocketAddr)
endpoint-discrete = hlevel SocketAddr-discrete

-- `SocketAddr::ip`
abbrev pub ip_of : SocketAddr → IpAddr
ip_of (socket_v4 ip port) = v4 ip
ip_of (socket_v6 ip port flow scope) = v6 ip

-- `Instant` counts nanoseconds; `elapsed` is 0 for an instant that is still to come.
abbrev pub elapsed_secs : ℕ → ℕ → ℕ
elapsed_secs now t = (now - t) / 1_000_000_000

-- `to_be_bytes` of an integer of `k` bytes.
unfoldable pub to_be_bytes : ℕ → ℕ → Bytes
to_be_bytes zero n = []
to_be_bytes (suc k) n = (n / 256 ^ k % 256) ∷ to_be_bytes k n

from_be_onto : ℕ → Bytes → ℕ
from_be_onto acc [] = acc
from_be_onto acc (b ∷ bs) = from_be_onto (acc * 256 + b) bs

-- `from_be_bytes`
unfoldable pub from_be_bytes : Bytes → ℕ
unfolding from_be_onto
from_be_bytes bs = from_be_onto 0 bs

pub length-to_be_bytes : (k n : ℕ) → length (to_be_bytes k n) ≡ k
unfolding to_be_bytes
length-to_be_bytes zero n = refl
length-to_be_bytes (suc k) n = ap suc (length-to_be_bytes k n)

-- The remainder by 256 ^ (k + 1), from its leading digit and the rest.
mod-pow-suc : (k n : ℕ) → n % 256 ^ suc k ≡ n / 256 ^ k % 256 * 256 ^ k + n % 256 ^ k
mod-pow-suc k n =
    ap₂ ◌%◌ split (pow-suc 256 k)
    ∙ add-mul-mod_self_right low (n / 256 ^ k / 256) (256 ^ k * 256)
    ∙ mod-eq_of_lt small
  where
    low : ℕ
    low = n / 256 ^ k % 256 * 256 ^ k + n % 256 ^ k

    digit : n / 256 ^ k % 256 * 256 ^ k ≤ 255 * 256 ^ k
    digit = grind arith

    small : low < 256 ^ k * 256
    small = omega (arith, digit, mod-lt n (one-le-pow k 256 (omega arith)))

    split : n ≡ low + n / 256 ^ k / 256 * (256 ^ k * 256)
    split = omega (
      arith,
      div-add-mod n (256 ^ k),
      ap (λ (t : ℕ). t * 256 ^ k) (div-add-mod (n / 256 ^ k) 256),
    )

from_be_onto-to_be_bytes :
    (k n acc : ℕ) → from_be_onto acc (to_be_bytes k n) ≡ acc * 256 ^ k + n % 256 ^ k
unfolding from_be_onto to_be_bytes
from_be_onto-to_be_bytes zero n acc = omega arith
from_be_onto-to_be_bytes (suc k) n acc =
    from_be_onto-to_be_bytes k n (acc * 256 + n / 256 ^ k % 256)
    ∙ omega (arith, mod-pow-suc k n, ap (λ (t : ℕ). acc * t) (pow-suc 256 k))

-- An integer of `k` bytes reads back.
pub from_be_bytes-to_be_bytes : (k n : ℕ) → n < 256 ^ k → from_be_bytes (to_be_bytes k n) ≡ n
unfolding from_be_bytes
from_be_bytes-to_be_bytes k n h = from_be_onto-to_be_bytes k n 0 ∙ grind arith

-- What one call draws of the random generator: a seed for an ephemeral key and the padding bytes.
pub record Draw : Type 0 where
  pub seed : ℕ
  pub padding : Bytes

-- The `snow` crate. `H` is its handshake state and `T` its stateless transport state. A call that
-- writes takes the size of its output buffer. Reading a handshake message returns the state also
-- where it fails.
pub record Noise (H T : Type 0) : Type 0 where
  pub build_initiator : ℕ → Bytes → Bytes → Option H
  pub build_responder : ℕ → Bytes → Option H
  pub write_handshake : H → ℕ → Option (Bytes × H)
  pub read_handshake : H → Bytes → ℕ → Bool × H
  pub remote_static : H → Option Bytes
  pub into_transport : H → Option T
  pub write_transport : T → ℕ → Bytes → ℕ → Option Bytes
  pub read_transport : T → ℕ → Bytes → ℕ → Option Bytes

-- The `hex` crate's decoder and `SocketAddr`'s parser.
pub record Parsers : Type 0 where
  pub decode_hex : Bytes → Option Bytes
  pub parse_socket_addr : Bytes → Option SocketAddr
