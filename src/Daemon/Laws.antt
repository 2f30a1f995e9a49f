-- ===== src/Daemon/Laws.antt =====
-- What a property of a peer has to survive in the daemon of src/daemon.rs: every method of src/peer.rs, and
-- every write of a handler, of the timer and of the reconciliation with the coordinator's list.
use mesh_vpn.Base.{ℕ, ◌≡◌, Option, none, some, List, [], ◌∷◌, Bytes, ok, inl, inr, subst, arith}
use mesh_vpn.Packet.{Result-cases}
use mesh_vpn.Net.{Noise, Draw, Parsers, SocketAddr}
use mesh_vpn.Config.{PeerDescriptor, ParsedPeer, parse_peer_arg, to_spec}
use mesh_vpn.Peer.{
  Peer, MagicConfig, establish, handle_handshake_packet, encrypt_packet, decrypt_packet,
  initiate_handshake, check_rotation,
}
use mesh_vpn.Manager.{new_peer, parse_wanted}
use mesh_vpn.Daemon.Table.{AllWanted}

-- What the parser of peer arguments can return.
abbrev pub IsParsed : Parsers → ParsedPeer → Type 0
IsParsed P w = (spec : Bytes) × (parse_peer_arg P spec ≡ ok w)

pub parse_wanted-IsParsed :
    (P : Parsers) (ds : List PeerDescriptor) → AllWanted (IsParsed P) (parse_wanted P ds)
unfolding parse_wanted
parse_wanted-IsParsed P [] = tt
parse_wanted-IsParsed P (d ∷ ds) = elim (Result-cases (parse_peer_arg P (to_spec d))) [
  | inl (x, e) ↦
      subst (AllWanted (IsParsed P)) {x = parse_wanted P ds} (ground (arith, e))
        (parse_wanted-IsParsed P ds)
  | inr (w, e) ↦
      subst (AllWanted (IsParsed P)) {x = w ∷ parse_wanted P ds} (ground (arith, e))
        ((to_spec d, e), parse_wanted-IsParsed P ds)
]

-- `Q` may speak of the type bytes of the table.
pub record Laws {H T : Type 0} (N : Noise H T) (P : Parsers) (Q : MagicConfig → Peer H T → Type 0)
    : Type 0 where
  pub touched :
      (magic : MagicConfig) (endpoint : Option SocketAddr) (rx tx direct : ℕ) (p : Peer H T)
      → Q magic p
      → Q magic
          (record p { endpoint = endpoint; last_rx = rx; last_tx = tx; last_direct_rx = direct })
  pub established :
      (magic : MagicConfig) (now : ℕ) (t : T) (p : Peer H T)
      → Q magic p
      → Q magic (establish now t p)
  pub shaken :
      (magic : MagicConfig) (now : ℕ) (draw : Draw) (priv : Bytes) (kind : ℕ) (payload : Bytes)
      (p : Peer H T)
      → Q magic p
      → Q magic (handle_handshake_packet N now draw priv kind payload p).1
  pub encrypted :
      (magic : MagicConfig) (now : ℕ) (draw : Draw) (payload : Bytes) (p : Peer H T)
      → Q magic p
      → Q magic (encrypt_packet N now draw payload p).1
  pub decrypted :
      (magic : MagicConfig) (now : ℕ) (payload : Bytes) (p : Peer H T)
      → Q magic p
      → Q magic (decrypt_packet N now payload p).1
  pub initiated :
      (magic : MagicConfig) (now : ℕ) (draw : Draw) (priv : Bytes) (p : Peer H T)
      → Q magic p
      → Q magic (initiate_handshake N now draw priv p).1
  pub rotated :
      (magic : MagicConfig) (now : ℕ) (p : Peer H T) → Q magic p → Q magic (check_rotation now p).1
  pub buried :
      (magic : MagicConfig) (p : Peer H T)
      → Q magic p
      → Q magic (record p { active = none; previous = none })
  pub resent :
      (magic : MagicConfig) (now : ℕ) (p : Peer H T)
      → Q magic p
      → Q magic (record p { last_handshake_attempt = some now })
  pub fresh :
      (magic : MagicConfig) (now : ℕ) (w : ParsedPeer)
      → IsParsed P w
      → Q magic (new_peer now magic w)
  pub moved :
      (magic : MagicConfig) (w : ParsedPeer) (p : Peer H T)
      → IsParsed P w
      → Q magic p
      → Q magic (record p { endpoint = w.endpoint; allowed_ips = w.allowed_ips })
