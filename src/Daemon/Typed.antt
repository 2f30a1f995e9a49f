-- ===== src/Daemon/Typed.antt =====
-- The peers of the daemon of src/daemon.rs stay within the types of src/peer.rs, whatever the tasks meet.
use mesh_vpn.Base.{ℕ, ◌≡◌, ok}
use mesh_vpn.Net.{Noise, Parsers}
use mesh_vpn.Config.{ParsedPeer}
use mesh_vpn.Config.Ranges.{parse_peer_arg-ranges}
use mesh_vpn.Config.Settings.{DaemonSettings}
use mesh_vpn.Peer.{Peer, MagicConfig}
use mesh_vpn.Peer.Typed.{
  IsTyped, establish-IsTyped, check_rotation-IsTyped, initiate_handshake-IsTyped,
  handle_handshake_packet-IsTyped, encrypt_packet-IsTyped, decrypt_packet-IsTyped,
}
use mesh_vpn.Peer
use mesh_vpn.Manager.{new_peer}
use mesh_vpn.Daemon.State.{Shared}
use mesh_vpn.Daemon.Table.{All}
use mesh_vpn.Daemon.Laws.{Laws, IsParsed}
use mesh_vpn.Daemon.Setup.{Host, Started, run_with_settings}
use mesh_vpn.Daemon.Run.{Run}
use mesh_vpn.Daemon.Whole.{run_with_settings-All}

-- The type bytes do not matter.
abbrev Typed : {H T : Type 0} → MagicConfig → Peer H T → Type 0
Typed magic p = IsTyped p

module _ {H T : Type 0} (N : Noise H T) (P : Parsers) where
  new_peer-IsTyped :
      (magic : MagicConfig) (now : ℕ) (w : ParsedPeer)
      → IsParsed P w
      → IsTyped {H = H} {T = T} (new_peer now magic w)
  unfolding Peer.new
  new_peer-IsTyped magic now w (spec, e) =
      let (key, subnets) = parse_peer_arg-ranges P spec w e in
      record { key = key; subnets = subnets; active_counters = tt; previous_counters = tt }

  moved-IsTyped :
      (magic : MagicConfig) (w : ParsedPeer) (p : Peer H T)
      → IsParsed P w
      → IsTyped p
      → IsTyped (record p { endpoint = w.endpoint; allowed_ips = w.allowed_ips })
  moved-IsTyped magic w p (spec, e) v = record {
    key = v.key;
    subnets = (parse_peer_arg-ranges P spec w e).1;
    active_counters = v.active_counters;
    previous_counters = v.previous_counters;
  }

  Typed-Laws : Laws N P Typed
  Typed-Laws = record {
    touched = λ magic endpoint rx tx direct p v. record {
      key = v.key;
      subnets = v.subnets;
      active_counters = v.active_counters;
      previous_counters = v.previous_counters;
    };
    established = λ magic now t p v. establish-IsTyped now t p v;
    shaken = λ magic now draw priv kind payload p v.
        handle_handshake_packet-IsTyped N now draw priv kind payload p v;
    encrypted = λ magic now draw payload p v. encrypt_packet-IsTyped N now draw payload p v;
    decrypted = λ magic now payload p v. decrypt_packet-IsTyped N now payload p v;
    initiated = λ magic now draw priv p v. initiate_handshake-IsTyped N now draw priv p v;
    rotated = λ magic now p v. check_rotation-IsTyped now p v;
    buried = λ magic p v. record {
      key = v.key;
      subnets = v.subnets;
      active_counters = tt;
      previous_counters = tt;
    };
    resent = λ magic now p v. record {
      key = v.key;
      subnets = v.subnets;
      active_counters = v.active_counters;
      previous_counters = v.previous_counters;
    };
    fresh = new_peer-IsTyped;
    moved = moved-IsTyped;
  }

  -- From the start of the daemon on, after any handlers in any order, every peer has a key of 32 bytes,
  -- as the relay's destination and the protocol need it, subnets with an address below 2^32 and a prefix
  -- of at most 32, as the shift in the route search needs them, and in both sessions a nonce and byte
  -- counters below 2^64.
  pub run_with_settings-IsTyped :
      (now : ℕ) (M : Host) (settings : DaemonSettings) (st : Started H T) (s : Shared H T)
      → run_with_settings P now M settings ≡ ok st
      → Run N P st.shared s
      → All IsTyped s.manager.peers
  run_with_settings-IsTyped now M settings st s e r =
      (run_with_settings-All N P Typed Typed-Laws now M settings st s e r).2
