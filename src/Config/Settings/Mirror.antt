-- ===== src/Config/Settings/Mirror.antt =====
-- The two sources of the settings in src/config.rs against each other.
use mesh_vpn.Base.{◌≡◌, ◌≢◌, ◌⊎◌, inl, inr, refl, Option, none, some, [], Bytes, ok, map, arith}
use mesh_vpn.Net.{Parsers}
use mesh_vpn.Config.{to_spec, unwrap_or}
use mesh_vpn.Config.Settings.{
  Args, FileConfig, Sources, required_tun_ip, from_file, from_args, resolve_settings,
  default_local_udp,
}

-- The file says what the flags say: each field that both have is the same, and the peers of the file
-- are written as the flags spell them.
pub record Mirrors (P : Parsers) (args : Args) (cfg : FileConfig) : Type 0 where
  pub tun_name : cfg.tun_name ≡ some args.tun_name
  pub tun_ip : cfg.tun_ip ≡ args.tun_ip
  pub tun_netmask : cfg.tun_netmask ≡ some args.tun_netmask
  pub local_udp :
      P.parse_socket_addr (unwrap_or cfg.local_udp default_local_udp) ≡ some args.local_udp
  pub private_key : args.private_key ≡ some cfg.private_key
  pub peer : map to_spec (unwrap_or cfg.peer []) ≡ args.peer
  pub coordinator_url : cfg.coordinator_url ≡ args.coordinator_url
  pub relay_addr : cfg.relay_addr ≡ args.relay_addr
  pub auth_key : cfg.auth_key ≡ args.auth_key
  pub hostname : cfg.hostname ≡ args.hostname
  pub public_endpoint : cfg.public_endpoint ≡ args.public_endpoint
  pub magic_handshake_init : cfg.magic_handshake_init ≡ args.magic_handshake_init
  pub magic_handshake_resp : cfg.magic_handshake_resp ≡ args.magic_handshake_resp
  pub magic_data : cfg.magic_data ≡ args.magic_data
  pub magic_probe : cfg.magic_probe ≡ args.magic_probe

module _ (P : Parsers) (S : Sources) where
  from_file-Mirrors :
      (args : Args) (cfg : FileConfig)
      → Mirrors P args cfg
      → required_tun_ip P S args.coordinator_url args.tun_ip ≡ ok args.tun_ip
      → from_file P S cfg ≡ from_args P S args
  unfolding from_file from_args
  from_file-Mirrors args cfg m t =
      rw
        (
          m.local_udp, m.tun_name, m.tun_netmask, m.peer, m.tun_ip, m.coordinator_url, m.relay_addr,
          m.auth_key, m.hostname, m.public_endpoint, m.magic_handshake_init, m.magic_handshake_resp,
          m.magic_data, m.magic_probe, t, m.private_key,
        )
        refl

  required_tun_ip-ok :
      (url tun_ip : Option Bytes)
      → (url ≢ none) ⊎ (tun_ip ≢ none)
      → required_tun_ip P S url tun_ip ≡ ok tun_ip
  required_tun_ip-ok none none (inl h) = absurd (h refl)
  required_tun_ip-ok none none (inr h) = absurd (h refl)
  required_tun_ip-ok none (some ip) h = refl
  required_tun_ip-ok (some url) tun_ip h = refl

  -- A node can be described by one file: a file that is read and parsed and says what the flags say
  -- gives the settings that the flags give, provided that these give the TUN device an address or a
  -- coordinator. Whatever other flags stand beside the file are without effect.
  pub resolve_settings-Mirrors :
      (args others : Args) (path text : Bytes) (cfg : FileConfig)
      → args.config ≡ none
      → others.config ≡ some path
      → S.read_to_string path ≡ some text
      → S.parse_toml text ≡ some cfg
      → Mirrors P args cfg
      → (args.coordinator_url ≢ none) ⊎ (args.tun_ip ≢ none)
      → resolve_settings P S others ≡ resolve_settings P S args
  unfolding resolve_settings
  resolve_settings-Mirrors args others path text cfg n o r p m h =
      let same =
        from_file-Mirrors args cfg m (required_tun_ip-ok args.coordinator_url args.tun_ip h) in
      ground (arith, n, o, r, p, same)
