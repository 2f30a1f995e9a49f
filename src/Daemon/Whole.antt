-- ===== src/Daemon/Whole.antt =====
-- The daemon of src/daemon.rs as a whole: what holds from its set-up on, whatever its tasks meet.
use mesh_vpn.Base.{ℕ, ◌≡◌, refl, ◌∙◌, sym, ap, subst, some, List, [], ◌∷◌, Bytes, ok}
use mesh_vpn.Net.{Noise, Parsers}
use mesh_vpn.Config.Settings.{DaemonSettings}
use mesh_vpn.Peer.{Peer, MagicConfig}
use mesh_vpn.Peer.Sound.{IsSound}
use mesh_vpn.Peer.Sound.Methods.{
  touch-IsSound, establish-IsSound, handle_handshake_packet-IsSound, decrypt_packet-IsSound,
  encrypt_packet-IsSound, initiate_handshake-IsSound, check_rotation-IsSound, bury-IsSound,
  resent-IsSound, new-IsSound,
}
use mesh_vpn.Manager
use mesh_vpn.Daemon.State.{Shared}
use mesh_vpn.Daemon.Table.{All}
use mesh_vpn.Daemon.Laws.{Laws}
use mesh_vpn.Daemon.Setup.{Host, Started, magic_of, run_with_settings}
use mesh_vpn.Daemon.Started.{IsNew, Network-IsNew, run_with_settings-Starts}
use mesh_vpn.Daemon.Run.{Run}
use mesh_vpn.Daemon.Invariant.{Run-Keeps}

new-config :
    {H T : Type 0} (local_priv : Bytes) (magic : MagicConfig) (ps : List (Peer H T))
    → ((Manager.new local_priv ps magic).local_priv ≡ local_priv)
      × ((Manager.new local_priv ps magic).magic ≡ magic)
unfolding Manager.new
new-config local_priv magic ps = (refl, refl)

module _ {H T : Type 0} (N : Noise H T) (P : Parsers) (Q : MagicConfig → Peer H T → Type 0)
    (L : Laws N P Q) where
  new-All :
      (now : ℕ) (local_priv : Bytes) (magic : MagicConfig) (ps : List (Peer H T))
      → All (IsNew P now) ps
      → All (Q magic) (Manager.new local_priv ps magic).peers
  unfolding Manager.new
  new-All now local_priv magic [] a = tt
  new-All now local_priv magic (p ∷ ps) ((w, parsed, e), a) = (
    subst (λ q. Q magic (record q { magic = magic })) (sym e) (L.fresh magic now w parsed),
    new-All now local_priv magic ps a,
  )

  -- A property of a peer that obeys the laws holds of all peers, from the start of the daemon on.
  pub run_with_settings-All :
      (now : ℕ) (M : Host) (settings : DaemonSettings) (st : Started H T) (s : Shared H T)
      → run_with_settings P now M settings ≡ ok st
      → Run N P st.shared s
      → (P.decode_hex settings.private_key_hex ≡ some s.manager.local_priv)
        × (s.manager.magic ≡ magic_of settings)
        × All (Q s.manager.magic) s.manager.peers
  run_with_settings-All now M settings st s e r =
      let w = run_with_settings-Starts P now M settings st e in
      let k = Run-Keeps N P Q L r in
      let (key, magic) = new-config w.local_priv (magic_of settings) w.peers in
      let m = ap (λ x. x.shared.manager) w.result in
      let same : s.manager.magic ≡ magic_of settings = k.magic ∙ ap (λ x. x.magic) m ∙ magic in
      let first =
        new-All now w.local_priv (magic_of settings) w.peers
          (Network-IsNew P now M settings _ _ st.tun_ip w.peers w.network) in
      (
        w.private_key ∙ ap some (sym (k.local_priv ∙ ap (λ x. x.local_priv) m ∙ key)),
        same,
        subst (λ x. All (Q x) s.manager.peers) (sym k.magic)
            (k.peers (
              subst (λ x. All (Q x.magic) x.peers) (sym m)
                (subst (λ x. All (Q x) (Manager.new w.local_priv w.peers (magic_of settings)).peers)
                  (sym magic) first))),
      )

IsSound-Laws : {H T : Type 0} (N : Noise H T) (P : Parsers) → Laws N P IsSound
IsSound-Laws N P = record {
  touched = λ magic endpoint rx tx direct p s.
      touch-IsSound magic endpoint p.allowed_ips rx tx direct p s;
  established = establish-IsSound;
  shaken = handle_handshake_packet-IsSound N;
  encrypted = encrypt_packet-IsSound N;
  decrypted = decrypt_packet-IsSound N;
  initiated = initiate_handshake-IsSound N;
  rotated = check_rotation-IsSound;
  buried = bury-IsSound;
  resent = resent-IsSound;
  fresh = λ magic now w parsed. new-IsSound magic now w.pubkey w.endpoint w.allowed_ips;
  moved = λ magic w p parsed s.
      touch-IsSound magic w.endpoint w.allowed_ips p.last_rx p.last_tx p.last_direct_rx p s;
}

-- From the start of the daemon on, after any handlers in any order - datagrams and relayed packets of
-- any bytes and sender, packets of the TUN device, ticks and responses of the coordinator - the private
-- key and the type bytes are those of the settings, every peer has the type bytes, both of its replay
-- windows have their sixteen words, a handshake in progress has the instant of its last attempt and a
-- message to send again, and such a message has the type byte of an initiation.
pub run_with_settings-IsSound :
    {H T : Type 0} (N : Noise H T) (P : Parsers) (now : ℕ) (M : Host) (settings : DaemonSettings)
    (st : Started H T) (s : Shared H T)
    → run_with_settings P now M settings ≡ ok st
    → Run N P st.shared s
    → (P.decode_hex settings.private_key_hex ≡ some s.manager.local_priv)
      × (s.manager.magic ≡ magic_of settings)
      × All (IsSound s.manager.magic) s.manager.peers
run_with_settings-IsSound N P now M settings st s e r =
    run_with_settings-All N P IsSound (IsSound-Laws N P) now M settings st s e r
