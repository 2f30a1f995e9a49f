-- ===== src/Peer/Sound/Methods.antt =====
-- Every method of src/peer.rs keeps a peer sound.
use mesh_vpn.Base.{ℕ, ◌≡◌, refl, Option, none, some, List, Bytes, arith, sym, subst}
use mesh_vpn.Net.{Draw, Noise, SocketAddr}
use mesh_vpn.Packet.{Ipv4Subnet}
use mesh_vpn.Peer.Replay.{IsValid}
use mesh_vpn.Peer.Lifecycle.{
  initiate_handshake-IsValid, establish-IsValid, respond-IsValid, finish-IsValid,
  encrypt_packet-IsValid, decrypt_packet-IsValid, check_rotation-IsValid,
}
use mesh_vpn.Peer.{
  Peer, MagicConfig, new, decrypt_packet, encrypt_packet, establish, respond, finish,
  handle_handshake_packet, initiate_handshake, check_rotation,
}
use mesh_vpn.Peer.Sound.{
  CanResend, Opens, IsSound, SameRest-IsSound, establish-SameRest, check_rotation-SameRest,
  encrypt_packet-SameRest, decrypt_packet-SameRest, respond-SameRest, finish-CanResend,
  finish-Opens, finish-magic,
}

module _ {H T : Type 0} (N : Noise H T) where
  initiate_handshake-CanResend :
      (now : ℕ) (draw : Draw) (priv : Bytes) (p : Peer H T)
      → CanResend p.handshake p.last_handshake_attempt p.last_handshake_packet
      → CanResend
          (initiate_handshake N now draw priv p).1.handshake
          (initiate_handshake N now draw priv p).1.last_handshake_attempt
          (initiate_handshake N now draw priv p).1.last_handshake_packet
  unfolding initiate_handshake
  initiate_handshake-CanResend now draw priv p c = ground arith

  initiate_handshake-Opens :
      (now : ℕ) (draw : Draw) (priv : Bytes) (p : Peer H T)
      → Opens p.magic.handshake_init p.last_handshake_packet
      → Opens p.magic.handshake_init (initiate_handshake N now draw priv p).1.last_handshake_packet
  unfolding initiate_handshake
  initiate_handshake-Opens now draw priv p c = ground arith

  initiate_handshake-magic :
      (now : ℕ) (draw : Draw) (priv : Bytes) (p : Peer H T)
      → (initiate_handshake N now draw priv p).1.magic ≡ p.magic
  unfolding initiate_handshake
  initiate_handshake-magic now draw priv p = ground arith

  pub initiate_handshake-IsSound :
      (magic : MagicConfig) (now : ℕ) (draw : Draw) (priv : Bytes) (p : Peer H T)
      → IsSound magic p
      → IsSound magic (initiate_handshake N now draw priv p).1
  initiate_handshake-IsSound magic now draw priv p s = record {
    windows = initiate_handshake-IsValid N now draw priv p s.windows;
    type_bytes = rw (initiate_handshake-magic now draw priv p) s.type_bytes;
    resend = initiate_handshake-CanResend now draw priv p s.resend;
    opens =
        subst
          (λ m.
            Opens m.handshake_init (initiate_handshake N now draw priv p).1.last_handshake_packet)
          s.type_bytes
          (initiate_handshake-Opens now draw priv p (
            subst (λ m. Opens m.handshake_init p.last_handshake_packet) (sym s.type_bytes)
              s.opens));
  }

  finish-IsSound :
      (magic : MagicConfig) (now : ℕ) (payload : Bytes) (p : Peer H T)
      → IsSound magic p
      → IsValid (finish N now payload p)
      → IsSound magic (finish N now payload p)
  finish-IsSound magic now payload p s v = record {
    windows = v;
    type_bytes = rw (finish-magic N now payload p) s.type_bytes;
    resend = finish-CanResend N now payload p s.resend;
    opens = finish-Opens N now payload p magic.handshake_init s.opens;
  }

  pub handle_handshake_packet-IsSound :
      (magic : MagicConfig) (now : ℕ) (draw : Draw) (priv : Bytes) (kind : ℕ) (payload : Bytes)
      (p : Peer H T)
      → IsSound magic p
      → IsSound magic (handle_handshake_packet N now draw priv kind payload p).1
  unfolding handle_handshake_packet
  handle_handshake_packet-IsSound magic now draw priv kind payload p s = ground (
    arith,
    SameRest-IsSound magic p (respond N now draw priv payload p).1 s
        (respond-SameRest N now draw priv payload p)
        (respond-IsValid N now draw priv payload p s.windows),
    finish-IsSound magic now payload p s (finish-IsValid N now payload p s.windows),
  )

  pub encrypt_packet-IsSound :
      (magic : MagicConfig) (now : ℕ) (draw : Draw) (payload : Bytes) (p : Peer H T)
      → IsSound magic p
      → IsSound magic (encrypt_packet N now draw payload p).1
  encrypt_packet-IsSound magic now draw payload p s =
      SameRest-IsSound magic p _ s (encrypt_packet-SameRest N now draw payload p)
        (encrypt_packet-IsValid N now draw payload p s.windows)

  pub decrypt_packet-IsSound :
      (magic : MagicConfig) (now : ℕ) (payload : Bytes) (p : Peer H T)
      → IsSound magic p
      → IsSound magic (decrypt_packet N now payload p).1
  decrypt_packet-IsSound magic now payload p s =
      SameRest-IsSound magic p _ s (decrypt_packet-SameRest N now payload p)
        (decrypt_packet-IsValid N now payload p s.windows)

module _ {H T : Type 0} (magic : MagicConfig) where
  pub check_rotation-IsSound :
      (now : ℕ) (p : Peer H T) → IsSound magic p → IsSound magic (check_rotation now p).1
  check_rotation-IsSound now p s =
      SameRest-IsSound magic p _ s (check_rotation-SameRest now p)
        (check_rotation-IsValid now p s.windows)

  pub establish-IsSound :
      (now : ℕ) (t : T) (p : Peer H T) → IsSound magic p → IsSound magic (establish now t p)
  establish-IsSound now t p s =
      SameRest-IsSound magic p _ s (establish-SameRest now t p)
        (establish-IsValid now t p s.windows)

  pub new-IsSound :
      (now : ℕ) (key : Bytes) (endpoint : Option SocketAddr) (ips : List Ipv4Subnet)
      → IsSound {H = H} {T = T} magic (record (new now key endpoint ips) { magic = magic })
  unfolding new
  new-IsSound now key endpoint ips = record {
    windows = record { active_window = refl; previous_window = refl };
    type_bytes = refl;
    resend = tt;
    opens = tt;
  }

  -- The address, the subnets, the timestamps and the absence of sessions do not matter.
  pub touch-IsSound :
      (endpoint : Option SocketAddr) (ips : List Ipv4Subnet) (rx tx direct : ℕ) (p : Peer H T)
      → IsSound magic p
      → IsSound magic (record p {
        endpoint = endpoint;
        allowed_ips = ips;
        last_rx = rx;
        last_tx = tx;
        last_direct_rx = direct;
      })
  touch-IsSound endpoint ips rx tx direct p s = record {
    windows = record {
      active_window = s.windows.active_window;
      previous_window = s.windows.previous_window;
    };
    type_bytes = s.type_bytes;
    resend = s.resend;
    opens = s.opens;
  }

  pub bury-IsSound :
      (p : Peer H T) → IsSound magic p → IsSound magic (record p { active = none; previous = none })
  bury-IsSound p s = record {
    windows = record { active_window = refl; previous_window = refl };
    type_bytes = s.type_bytes;
    resend = s.resend;
    opens = s.opens;
  }

  -- The message is sent again.
  pub resent-IsSound :
      (now : ℕ) (p : Peer H T)
      → IsSound magic p
      → IsSound magic (record p { last_handshake_attempt = some now })
  resent-IsSound now p s = record {
    windows = record {
      active_window = s.windows.active_window;
      previous_window = s.windows.previous_window;
    };
    type_bytes = s.type_bytes;
    resend = resend_at p.handshake p.last_handshake_attempt p.last_handshake_packet s.resend;
    opens = s.opens;
  }
    where
      resend_at :
          (o : Option H) (at : Option ℕ) (packet : Option Bytes)
          → CanResend o at packet
          → CanResend o (some now) packet
      resend_at none at packet c = tt
      resend_at (some hs) at packet c = (refl, c.1)
