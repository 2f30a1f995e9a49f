-- ===== src/Daemon/Poll.antt =====
-- `spawn_poll_task` of src/daemon.rs: one round of polling the coordinator.
use mesh_vpn.Base.{ℕ, Option, none, some, List, [], ◌++◌, Bytes, map}
use mesh_vpn.Text.{codes}
use mesh_vpn.Net.{Parsers}
use mesh_vpn.Config.{unwrap_or}
use mesh_vpn.Config.Settings.{DaemonSettings}
use mesh_vpn.Coordinatord.{PollRequest, PollResponse}
use mesh_vpn.Manager.{sync_peers}
use mesh_vpn.Nat.{NatStep, punch_hole}
use mesh_vpn.Daemon.State.{Shared}
use mesh_vpn.Daemon.Setup.{trim_slashes}

-- The place and the request of each round, where a coordinator is set.
unfoldable pub poll_of : DaemonSettings → Bytes → Bytes → Option (Bytes × PollRequest)
unfolding trim_slashes
poll_of settings pubkey_hex public_endpoint = elim settings.coordinator_url [
  | none ↦ none
  | some coordinator_url ↦ some (
    trim_slashes coordinator_url ++ codes "/poll",
    record {
      public_key = pubkey_hex;
      auth_key = unwrap_or settings.auth_key [];
      endpoint = public_endpoint;
    },
  )
]

-- What the response leads to: one burst for each new endpoint, sent beside the task. A round whose
-- request fails, or whose response is none, changes nothing.
unfoldable pub on_poll_response :
    {H T : Type 0}
    → Parsers
    → ℕ
    → Option PollResponse
    → Shared H T
    → List (List NatStep) × Shared H T
on_poll_response P now none s = ([], s)
on_poll_response P now (some resp) s =
    let (new_endpoints, manager) = sync_peers P now resp.peers s.manager in
    let probe_byte = manager.magic.probe in
    (map (λ ep. punch_hole ep probe_byte) new_endpoints, record s { manager = manager })
