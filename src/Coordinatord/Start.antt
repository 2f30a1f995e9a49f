-- ===== src/Coordinatord/Start.antt =====
-- `main` of src/bin/coordinatord.rs, up to the servers that it starts.
use mesh_vpn.Base.{ℕ, Bool, Option, none, some, List, [], Bytes, Result, ok, map, ltb}
use mesh_vpn.Text.{split, trim}
use mesh_vpn.Packet.{◌>>=◌}
use mesh_vpn.Coordinator
use mesh_vpn.Coordinator.{Registry, RegistryError, Disk, load_or_new, set_whitelist}
use mesh_vpn.Coordinatord.{AppState}

-- The command line, as the `clap` crate hands it over, its defaults filled in.
pub record Args : Type 0 where
  pub listen : Bytes
  pub cidr : Bytes
  pub auth_key : Bytes
  pub state_file : Option Bytes
  pub relay_port : ℕ
  pub whitelist : Option Bytes

-- The registry, from the state file where there is one.
abbrev pub registry_of : Disk → Bytes → Option Bytes → Result Registry RegistryError
registry_of D cidr (some path) = load_or_new D cidr path
registry_of D cidr none = Coordinator.new cidr

-- The keys of the whitelist, without the spaces around them.
abbrev pub keys_of : Bytes → List Bytes
keys_of wl = map trim (split b',' wl)

abbrev pub restrict : Option Bytes → Registry → Registry
restrict none registry = registry
restrict (some wl) registry = set_whitelist (keys_of wl) registry

-- The state of the HTTP handlers, and whether the relay server runs.
unfoldable pub start : Disk → Args → Result (AppState × Bool) RegistryError
start D args = do
  registry ← registry_of D args.cidr args.state_file
  let state : AppState = record {
    registry = restrict args.whitelist registry;
    auth_key = args.auth_key;
    rate_limits = [];
  }
  ok (state, ltb 0 args.relay_port)
