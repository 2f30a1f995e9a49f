-- ===== src/Peer/Sound.antt =====
-- What every method of src/peer.rs keeps: the replay windows, the type bytes, and what it takes to send
-- the message of a handshake in progress again.
pub mod Methods
use mesh_vpn.Base.{
  ℕ, ◌≡◌, refl, true, Option, none, some, List, Bytes, length, arith, take, drop, ◌∷◌, [], sym,
  subst,
}
use mesh_vpn.Net.{Draw, Noise, from_be_bytes, SocketAddr}
use mesh_vpn.Packet.{Ipv4Subnet}
use mesh_vpn.Peer.Replay.{IsValid}
use mesh_vpn.Peer.Lifecycle.{
  initiate_handshake-IsValid, establish-IsValid, respond-IsValid, finish-IsValid,
  encrypt_packet-IsValid, decrypt_packet-IsValid, check_rotation-IsValid,
}
use mesh_vpn.Peer.{
  Peer, MagicConfig, new, decrypt_packet, decrypt_active, decrypt_previous, encrypt_packet,
  establish, respond, finish, handle_handshake_packet, initiate_handshake, check_rotation, is_some,
}

-- A handshake in progress has its message, and the instant at which that was last sent.
abbrev pub CanResend : {H : Type 0} → Option H → Option ℕ → Option Bytes → Type 0
CanResend none at packet = Unit
CanResend (some hs) at packet = (is_some at ≡ true) × (is_some packet ≡ true)

-- The message of a handshake has the type byte of an initiation.
abbrev pub Opens : ℕ → Option Bytes → Type 0
Opens kind none = Unit
Opens kind (some packet) = (rest : Bytes) × (packet ≡ kind ∷ rest)

pub record IsSound {H T : Type 0} (magic : MagicConfig) (p : Peer H T) : Type 0 where
  pub windows : IsValid p
  pub type_bytes : p.magic ≡ magic
  pub resend : CanResend p.handshake p.last_handshake_attempt p.last_handshake_packet
  pub opens : Opens magic.handshake_init p.last_handshake_packet

-- The part of a peer that the data packets leave alone.
unfoldable pub SameRest : {H T : Type 0} → Peer H T → Peer H T → Type 0
SameRest p q =
    (q.magic ≡ p.magic)
    × (q.handshake ≡ p.handshake)
    × (q.last_handshake_attempt ≡ p.last_handshake_attempt)
    × (q.last_handshake_packet ≡ p.last_handshake_packet)

pub SameRest-IsSound :
    {H T : Type 0} (magic : MagicConfig) (p q : Peer H T)
    → IsSound magic p
    → SameRest p q
    → IsValid q
    → IsSound magic q
unfolding SameRest
SameRest-IsSound magic p q s (m, h, a, k) v = record {
  windows = v;
  type_bytes = rw m s.type_bytes;
  resend = rw (h, a, k) s.resend;
  opens = rw k s.opens;
}

module _ {H T : Type 0} where
  pub establish-SameRest : (now : ℕ) (t : T) (p : Peer H T) → SameRest p (establish now t p)
  unfolding SameRest establish
  establish-SameRest now t p = (refl, refl, refl, refl)

  pub check_rotation-SameRest : (now : ℕ) (p : Peer H T) → SameRest p (check_rotation now p).1
  unfolding SameRest check_rotation
  check_rotation-SameRest now p = (refl, refl, refl, refl)

module _ {H T : Type 0} (N : Noise H T) where
  pub encrypt_packet-SameRest :
      (now : ℕ) (draw : Draw) (payload : Bytes) (p : Peer H T)
      → SameRest p (encrypt_packet N now draw payload p).1
  unfolding SameRest encrypt_packet
  encrypt_packet-SameRest now draw payload p =
      (ground arith, ground arith, ground arith, ground arith)

  decrypt_previous-SameRest :
      (now nonce len : ℕ) (c : Bytes) (p : Peer H T)
      → SameRest p (decrypt_previous N now nonce c len p).1
  unfolding SameRest decrypt_previous
  decrypt_previous-SameRest now nonce len c p =
      (ground arith, ground arith, ground arith, ground arith)

  decrypt_active-SameRest :
      (now nonce len : ℕ) (c : Bytes) (p : Peer H T)
      → SameRest p (decrypt_active N now nonce c len p).1
  unfolding SameRest decrypt_active
  decrypt_active-SameRest now nonce len c p =
      let rest = decrypt_previous-SameRest now nonce len c p in
      (ground (arith, rest), ground (arith, rest), ground (arith, rest), ground (arith, rest))

  pub decrypt_packet-SameRest :
      (now : ℕ) (payload : Bytes) (p : Peer H T) → SameRest p (decrypt_packet N now payload p).1
  unfolding SameRest decrypt_packet
  decrypt_packet-SameRest now payload p =
      let rest =
        decrypt_active-SameRest now (from_be_bytes (take 8 payload)) (length payload)
          (drop 8 payload) p in
      (ground (arith, rest), ground (arith, rest), ground (arith, rest), ground (arith, rest))

  pub respond-SameRest :
      (now : ℕ) (draw : Draw) (priv payload : Bytes) (p : Peer H T)
      → SameRest p (respond N now draw priv payload p).1
  unfolding SameRest respond establish
  respond-SameRest now draw priv payload p =
      (ground arith, ground arith, ground arith, ground arith)

  -- A response ends the handshake, or leaves it with its message.
  pub finish-CanResend :
      (now : ℕ) (payload : Bytes) (p : Peer H T)
      → CanResend p.handshake p.last_handshake_attempt p.last_handshake_packet
      → CanResend
          (finish N now payload p).handshake
          (finish N now payload p).last_handshake_attempt
          (finish N now payload p).last_handshake_packet
  unfolding finish establish
  finish-CanResend now payload p c = ground arith

  pub finish-Opens :
      (now : ℕ) (payload : Bytes) (p : Peer H T) (kind : ℕ)
      → Opens kind p.last_handshake_packet
      → Opens kind (finish N now payload p).last_handshake_packet
  unfolding finish establish
  finish-Opens now payload p kind c = ground arith

  pub finish-magic :
      (now : ℕ) (payload : Bytes) (p : Peer H T) → (finish N now payload p).magic ≡ p.magic
  unfolding finish establish
  finish-magic now payload p = ground arith
