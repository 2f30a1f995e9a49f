-- ===== src/Peer/Calls.antt =====
-- The life of a peer of src/peer.rs as a sequence of calls of its methods, and of the changes that the
-- daemon makes to it between them.
use mesh_vpn.Base.{ℕ, ◌≡◌, Option, some, none, List, [], ◌∷◌, Bytes, true, take, ◌⊎◌}
use mesh_vpn.Net.{Draw, Noise, SocketAddr}
use mesh_vpn.Packet.{Ipv4Subnet}
use mesh_vpn.Peer.{
  Peer, initiate_handshake, handle_handshake_packet, encrypt_packet, decrypt_packet, check_rotation,
  resp_message_len,
}
use mesh_vpn.Peer.Authentic.{Authenticates, Answers}

-- The last two are no methods: the daemon drops the sessions of a dead peer, and writes its address,
-- its subnets and its timestamps.
pub data Call : Type 0 where
  initiates : ℕ → Draw → Bytes → Call
  shakes : ℕ → Draw → Bytes → ℕ → Bytes → Call
  encrypts : ℕ → Draw → Bytes → Call
  decrypts : ℕ → Bytes → Call
  rotates : ℕ → Call
  forgets : Call
  touches : Option SocketAddr → List Ipv4Subnet → Option ℕ → ℕ → ℕ → ℕ → Call

module _ {H T : Type 0} (N : Noise H T) where
  unfoldable pub call : Call → Peer H T → Peer H T
  call (initiates now draw priv) p = (initiate_handshake N now draw priv p).1
  call (shakes now draw priv kind payload) p =
      (handle_handshake_packet N now draw priv kind payload p).1
  call (encrypts now draw payload) p = (encrypt_packet N now draw payload p).1
  call (decrypts now payload) p = (decrypt_packet N now payload p).1
  call (rotates now) p = (check_rotation now p).1
  call forgets p = record p { active = none; previous = none }
  call (touches endpoint ips attempt rx tx direct) p = record p {
    endpoint = endpoint;
    allowed_ips = ips;
    last_handshake_attempt = attempt;
    last_rx = rx;
    last_tx = tx;
    last_direct_rx = direct;
  }

  unfoldable pub run : List Call → Peer H T → Peer H T
  run [] p = p
  run (c ∷ cs) p = run cs (call c p)

  -- The transport state that a handshake packet leads to, if it completes a handshake.
  abbrev pub LeadsTo : Draw → Bytes → Bytes → Peer H T → T → Type 0
  LeadsTo draw priv payload p t =
      ((hs : H) × (packet : Bytes) × Authenticates N draw priv payload p.pubkey hs
        × Answers N draw p.magic hs packet t)
      ⊎ ((hs : H) × (p.handshake ≡ some hs)
          × ((N.read_handshake hs (take resp_message_len payload) 128).0 ≡ true)
          × (N.into_transport (N.read_handshake hs (take resp_message_len payload) 128).1 ≡ some t))

  -- Every handshake that a call completes leads to a transport state with `P`.
  unfoldable pub Leads : (T → Type 0) → Call → Peer H T → Type 0
  Leads P (initiates now draw priv) p = Unit
  Leads P (shakes now draw priv kind payload) p = (t : T) → LeadsTo draw priv payload p t → P t
  Leads P (encrypts now draw payload) p = Unit
  Leads P (decrypts now payload) p = Unit
  Leads P (rotates now) p = Unit
  Leads P forgets p = Unit
  Leads P (touches endpoint ips attempt rx tx direct) p = Unit

  unfoldable pub AllLead : (T → Type 0) → List Call → Peer H T → Type 0
  unfolding Leads call
  AllLead P [] p = Unit
  AllLead P (c ∷ cs) p = Leads P c p × AllLead P cs (call c p)
