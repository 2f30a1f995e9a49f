-- ===== src/Desktop/Examples.antt =====
-- The theorems on desktop-app/src-tauri/src/lib.rs at concrete inputs.
use mesh_vpn.Base.{◌≡◌, refl, true, none, some, [], ◌∷◌, ok, replicate}
use mesh_vpn.Text.{codes}
use mesh_vpn.Net.{Parsers, socket_v4}
use mesh_vpn.Config.Settings.{DaemonSettings}
use mesh_vpn.Desktop.{
  FrontendSettings, DaemonState, initial, placeholder, to_daemon_settings, start_vpn, stop_vpn,
  on_exit,
}
use mesh_vpn.Desktop.Runs.{
  World, Reach, fresh_world, here, next, started, stopped, exits, IsTracked, Reach-IsTracked,
}

abbrev parsers : Parsers
parsers = record { decode_hex = λ s. some s; parse_socket_addr = λ s. some (socket_v4 0 50001) }

abbrev form : FrontendSettings
form = record {
  private_key = replicate 64 b'5';
  tun_name = none;
  tun_ip = some (codes "10.0.99.1");
  tun_netmask = none;
  local_udp = none;
  coordinator_url = none;
  auth_key = none;
  hostname = none;
  public_endpoint = none;
  relay_addr = none;
  peers = none;
  magic_handshake_init = none;
  magic_handshake_resp = none;
  magic_data = some 33;
  magic_probe = none;
}

abbrev settings : DaemonSettings
settings = record {
  tun_name = codes "arax0";
  tun_ip = some (codes "10.0.99.1");
  tun_netmask = codes "255.255.255.0";
  local_udp = socket_v4 0 50001;
  private_key_hex = replicate 64 b'5';
  peer_specs = [];
  coordinator_url = none;
  relay_addr = none;
  auth_key = none;
  hostname = none;
  public_endpoint = none;
  magic_handshake_init = 1;
  magic_handshake_resp = 2;
  magic_data = 33;
  magic_probe = 4;
}

abbrev connecting : DaemonState
connecting = record {
  shutdown_tx = some 0;
  latest_status = some (placeholder (codes "Connecting"));
  running = true;
  last_error = none;
}

starts : start_vpn parsers form 0 initial ≡ (ok settings, connecting)
unfolding start_vpn to_daemon_settings
starts = refl

-- A daemon is started, told to stop, and ends.
abbrev last : World
last = record { state = on_exit none (stop_vpn connecting).1; live = []; count = 1 }

use_of_it : Reach parsers last
use_of_it =
    next
      (next (next here (started fresh_world form settings connecting starts))
        (stopped (record { state = connecting; live = 0 ∷ []; count = 1 })))
      (exits (record { state = (stop_vpn connecting).1; live = 0 ∷ []; count = 1 }) [] [] 0 none
        refl)

Reach-IsTracked_example : IsTracked last
Reach-IsTracked_example = Reach-IsTracked parsers last use_of_it
