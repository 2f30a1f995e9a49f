-- ===== src/Daemon/Started.antt =====
-- What `run_with_settings` and `resolve_network_setup` of src/daemon.rs hand to the tasks.
use mesh_vpn.Base.{
  ℕ, ◌≡◌, refl, sym, subst, none, some, List, [], ◌∷◌, Bytes, ok, arith, Option-cases, Bool-cases,
  inl, inr, length, ◌==◌, ==→eq, ◌++◌,
}
use mesh_vpn.Text.{codes}
use mesh_vpn.Net.{Parsers}
use mesh_vpn.Packet.{Result-cases, bind-ok}
use mesh_vpn.Config.{PeerDescriptor, ParsedPeer, parse_peer_arg, to_spec}
use mesh_vpn.Config.Settings.{DaemonSettings}
use mesh_vpn.Coordinatord.{RegisterResponse}
use mesh_vpn.Peer.{Peer}
use mesh_vpn.Daemon.Table.{All}
use mesh_vpn.Daemon.Laws.{IsParsed}
use mesh_vpn.Daemon.Setup.{
  Host, Started, coordinator_peers, static_peers, peer_of, resolve_network_setup, run_with_settings,
  started, register_request, trim_slashes, endpoint_or, mtu,
}

module _ {H T : Type 0} (P : Parsers) (now : ℕ) where
  -- A peer as the constructor makes it of an argument that parses.
  abbrev pub IsNew : Peer H T → Type 0
  IsNew p = (w : ParsedPeer) × IsParsed P w × (p ≡ peer_of P now w)

  coordinator_peers-IsNew :
      (ds : List PeerDescriptor) (ps : List (Peer H T))
      → coordinator_peers P now ds ≡ ps
      → All IsNew ps
  unfolding coordinator_peers
  coordinator_peers-IsNew [] ps e = ground arith
  coordinator_peers-IsNew (d ∷ ds) ps e = elim (Result-cases (parse_peer_arg P (to_spec d))) [
    | inl (x, f) ↦ coordinator_peers-IsNew ds ps (ground (arith, e, f))
    | inr (w, f) ↦
        let rest = coordinator_peers-IsNew ds (coordinator_peers P now ds) refl in
        let all : All IsNew (peer_of P now w ∷ coordinator_peers P now ds) =
          ((w, (to_spec d, f), refl), rest) in
        subst (All IsNew) {x = peer_of P now w ∷ coordinator_peers P now ds} (ground (arith, e, f))
          all
  ]

  static_peers-IsNew :
      (args : List Bytes) (ps : List (Peer H T)) → static_peers P now args ≡ ok ps → All IsNew ps
  unfolding static_peers
  static_peers-IsNew [] ps e = ground arith
  static_peers-IsNew (arg ∷ args) ps e = elim (Result-cases (parse_peer_arg P arg)) [
    | inl (x, f) ↦ absurd (ground (arith, e, f))
    | inr (w, f) ↦
        let (qs, g, h) =
          bind-ok (static_peers P now args) (λ peers. ok (peer_of P now w ∷ peers)) ps
            (ground (arith, e, f)) in
        let all : All IsNew (peer_of P now w ∷ qs) =
          ((w, (arg, f), refl), static_peers-IsNew args qs g) in
        subst (All IsNew) {x = peer_of P now w ∷ qs} (ground (arith, h)) all
  ]

  module _ (M : Host) where
    -- How the set-up of the network can succeed.
    pub data Network (settings : DaemonSettings) (pubkey_hex endpoint tun_ip : Bytes)
        (ps : List (Peer H T)) : Type 0 where
      registered :
          (url : Bytes) (resp : RegisterResponse)
          → settings.coordinator_url ≡ some url
          → M.post_register
              (trim_slashes url ++ codes "/register")
              (register_request settings pubkey_hex endpoint)
            ≡ some resp
          → tun_ip ≡ resp.assigned_ip
          → ps ≡ coordinator_peers P now resp.peers
          → Network settings pubkey_hex endpoint tun_ip ps
      configured :
          settings.coordinator_url ≡ none
          → settings.tun_ip ≡ some tun_ip
          → static_peers P now settings.peer_specs ≡ ok ps
          → Network settings pubkey_hex endpoint tun_ip ps

    resolve_network_setup-Network :
        (settings : DaemonSettings) (pubkey_hex endpoint tun_ip : Bytes) (ps : List (Peer H T))
        → resolve_network_setup P now M settings pubkey_hex endpoint ≡ ok (tun_ip, ps)
        → Network settings pubkey_hex endpoint tun_ip ps
    unfolding resolve_network_setup
    resolve_network_setup-Network settings pubkey_hex endpoint tun_ip ps e =
        elim (Option-cases settings.coordinator_url) [
          | inr (url, u) ↦
              elim (Option-cases (
                M.post_register (trim_slashes url ++ codes "/register")
                  (register_request settings pubkey_hex endpoint))) [
                    | inl f ↦ absurd (ground (arith, e, u, f))
                    | inr (resp, f) ↦
                        registered url resp u f (ground (arith, e, u, f)) (ground (arith, e, u, f))
                  ]
          | inl u ↦ elim (Result-cases (static_peers {H = H} {T = T} P now settings.peer_specs)) [
            | inl (x, f) ↦ absurd (ground (arith, e, u, f))
            | inr (qs, f) ↦ elim (Option-cases settings.tun_ip) [
              | inl h ↦ absurd (ground (arith, e, u, f, h))
              | inr (ip, h) ↦ configured u (ground (arith, e, u, f, h)) (ground (arith, e, u, f, h))
            ]
          ]
        ]

    pub Network-IsNew :
        (settings : DaemonSettings) (pubkey_hex endpoint tun_ip : Bytes) (ps : List (Peer H T))
        → Network settings pubkey_hex endpoint tun_ip ps
        → All IsNew ps
    Network-IsNew settings pubkey_hex endpoint tun_ip ps (registered url resp u f i e) =
        coordinator_peers-IsNew resp.peers ps (sym e)
    Network-IsNew settings pubkey_hex endpoint tun_ip ps (configured u i e) =
        static_peers-IsNew settings.peer_specs ps e

    -- Why the daemon starts, and with what.
    pub record Starts (settings : DaemonSettings) (st : Started H T) : Type 0 where
      pub local_priv : Bytes
      pub peers : List (Peer H T)
      pub private_key : P.decode_hex settings.private_key_hex ≡ some local_priv
      pub key_length : length local_priv ≡ 32
      pub network :
          Network settings
            (M.encode_hex (M.public_of local_priv))
            (endpoint_or settings.public_endpoint (M.show_addr settings.local_udp))
            st.tun_ip
            peers
      pub result : st ≡ started P now M settings local_priv (M.public_of local_priv) st.tun_ip peers

    pub run_with_settings-Starts :
        (settings : DaemonSettings) (st : Started H T)
        → run_with_settings P now M settings ≡ ok st
        → Starts settings st
    unfolding run_with_settings
    run_with_settings-Starts settings st e =
        elim (Option-cases (P.decode_hex settings.private_key_hex)) [
          | inl d ↦ absurd (ground (arith, e, d))
          | inr (key, d) ↦ elim (Bool-cases (length key == 32)) [
            | inr l ↦ absurd (ground (arith, e, d, l))
            | inl l ↦
                let hex = M.encode_hex (M.public_of key) in
                let endpoint =
                  endpoint_or settings.public_endpoint (M.show_addr settings.local_udp) in
                elim (Result-cases
                  (resolve_network_setup {H = H} {T = T} P now M settings hex endpoint)) [
                    | inl (x, n) ↦ absurd (ground (arith, e, d, l, n))
                    | inr ((ip, ps), n) ↦
                        elim (Bool-cases
                          (M.build_device settings.tun_name mtu ip settings.tun_netmask)) [
                            | inr v ↦ absurd (ground (arith, e, d, l, n, v))
                            | inl v ↦ elim (Bool-cases (M.bind settings.local_udp)) [
                              | inr b ↦ absurd (ground (arith, e, d, l, n, v, b))
                              | inl b ↦
                                  let same : started P now M settings key (M.public_of key) ip ps
                                      ≡ st =
                                    ground (arith, e, d, l, n, v, b) in
                                  subst (Starts settings) same (record {
                                    local_priv = key;
                                    peers = ps;
                                    private_key = d;
                                    key_length = ==→eq (length key) 32 l;
                                    network =
                                        resolve_network_setup-Network settings hex endpoint ip ps n;
                                    result = refl;
                                  })
                            ]
                          ]
                  ]
          ]
        ]
