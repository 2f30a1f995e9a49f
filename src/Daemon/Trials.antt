-- ===== src/Daemon/Trials.antt =====
-- The theorems on whole runs of src/daemon.rs at concrete inputs.
use mesh_vpn.Base.{map, ℕ, ◌≡◌, refl, true, some, none, [], ◌∷◌, ◌++◌, Bytes, ok, replicate, Option}
use mesh_vpn.Text.{
  codes, split, trim, trim_start, trim_end, parse_ipv4, read_octet, read_dot_octet, octet_digits,
}
use mesh_vpn.Net.{Parsers, socket_v4}
use mesh_vpn.Net.Plain.{plain, plain_parsers, no_draw}
use mesh_vpn.Packet.{from_str}
use mesh_vpn.Config.{parse_peer_arg, parse_key, parse_endpoint, parse_subnets}
use mesh_vpn.Config.Settings.{DaemonSettings}
use mesh_vpn.Peer.Sound.{IsSound}
use mesh_vpn.Daemon.State.{Shared}
use mesh_vpn.Daemon.Table.{All}
use mesh_vpn.Daemon.Timer.{Draws, tick}
use mesh_vpn.Coordinatord.{PollResponse}
use mesh_vpn.Manager
use mesh_vpn.Peer.{Peer}
use mesh_vpn.Manager.{sync_peers, merge, reported, find_key, retain_wanted, parse_wanted, is_wanted}
use mesh_vpn.Daemon.Poll.{on_poll_response}
use mesh_vpn.Daemon.Punch.{on_poll_response-probes, newcomers, three_probes}
use mesh_vpn.Daemon.Datagram.{on_datagram}
use mesh_vpn.Daemon.Setup.{
  Host, Started, magic_of, run_with_settings, resolve_network_setup, static_peers, started, peer_of,
}
use mesh_vpn.Daemon.Run.{Run, start, next, datagram, ticked}
use mesh_vpn.Peer.Typed.{IsTyped}
use mesh_vpn.Daemon.Typed.{run_with_settings-IsTyped}
use mesh_vpn.Daemon.Whole.{run_with_settings-IsSound}

abbrev settings : DaemonSettings
settings = record {
  tun_name = codes "arax0";
  tun_ip = some (codes "10.0.99.1");
  tun_netmask = codes "255.255.255.0";
  local_udp = socket_v4 0 50001;
  private_key_hex = replicate 32 5;
  peer_specs = (replicate 32 7 ++ codes ";;8.8.8.8") ∷ [];
  coordinator_url = none;
  relay_addr = none;
  auth_key = none;
  hostname = none;
  public_endpoint = none;
  magic_handshake_init = 17;
  magic_handshake_resp = 2;
  magic_data = 3;
  magic_probe = 4;
}

abbrev host : Host
host = record {
  public_of = λ key. key;
  encode_hex = λ bytes. bytes;
  show_addr = λ addr. [];
  post_register = λ url req. none;
  build_device = λ name mtu ip mask. true;
  bind = λ addr. true;
}

abbrev first : Started ℕ ℕ
first =
    started plain_parsers 0 host settings (replicate 32 5) (replicate 32 5) (codes "10.0.99.1") (
      peer_of plain_parsers 0 (record {
        pubkey = replicate 32 7;
        endpoint = none;
        allowed_ips = record { addr = 134744072; prefix_len = 32 } ∷ [];
      })
      ∷ [])

starts : run_with_settings plain_parsers 0 host settings ≡ ok first
unfolding run_with_settings resolve_network_setup static_peers parse_peer_arg parse_key
    parse_endpoint parse_subnets split trim trim_start trim_end from_str parse_ipv4 read_octet
    read_dot_octet octet_digits
starts = refl

abbrev draws : ℕ → Draws
draws i = record { rotation = no_draw; keepalive = no_draw; renewal = no_draw }

-- A tick, then an initiation.
abbrev last : Shared ℕ ℕ
last =
    (on_datagram plain 7 no_draw (socket_v4 0 9) (17 ∷ replicate 96 0)
      (tick plain 5 true draws first.shared).1).1

trial : Run plain plain_parsers first.shared last
trial =
    next (next start (ticked first.shared 5 true draws))
      (datagram _ 7 no_draw (socket_v4 0 9) (17 ∷ replicate 96 0))

run_with_settings-IsSound_example :
    (Path (Option Bytes) (some (replicate 32 5)) (some last.manager.local_priv))
    × (last.manager.magic ≡ magic_of settings)
    × All (IsSound last.manager.magic) last.manager.peers
run_with_settings-IsSound_example =
    run_with_settings-IsSound plain plain_parsers 0 host settings first last starts trial

run_with_settings-IsTyped_example : All IsTyped last.manager.peers
run_with_settings-IsTyped_example =
    run_with_settings-IsTyped plain plain_parsers 0 host settings first last starts trial

-- Parsers that know one endpoint, and a response that names one peer there.
abbrev one_place : Parsers
one_place = record { decode_hex = λ s. some s; parse_socket_addr = λ s. some (socket_v4 1 2) }

abbrev response : PollResponse
response = record {
  peers =
      record {
        public_key = replicate 32 8;
        allowed_ip = codes "8.8.8.8";
        endpoint = some (codes "1");
      }
      ∷ [];
}

on_poll_response-probes_example :
    (on_poll_response one_place 9 (some response) first.shared).0
    ≡ map (three_probes 4) (
        newcomers
          (map (λ (p : Peer ℕ ℕ). p.pubkey) first.shared.manager.peers)
          (parse_wanted one_place response.peers))
unfolding Manager.new
on_poll_response-probes_example = on_poll_response-probes one_place 9 (some response) first.shared
