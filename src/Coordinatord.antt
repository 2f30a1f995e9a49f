-- ===== src/Coordinatord.antt =====
-- The HTTP handlers of src/bin/coordinatord.rs over the registry, with the requests of src/control.rs.
pub mod Access
pub mod Accepted
pub mod Start
mod Examples
use mesh_vpn.Base.{
  ℕ, ◌-◌, Bool, true, false, Option, none, some, List, [], ◌∷◌, Bytes, Result, ok, err,
  if◌then◌else◌, ite, ltb,
}
use mesh_vpn.Net.{IpAddr, SocketAddr, IpAddr-discrete, Bytes-discrete, ip_of}
use mesh_vpn.Config.{PeerDescriptor}
use mesh_vpn.Coordinator
use mesh_vpn.Coordinator.{Registry, RegistryError, NodeRecord, Disk, peers_for}
use mesh_vpn.Coordinator.View.{network_view}

pub record RegisterRequest : Type 0 where
  pub public_key : Bytes
  pub auth_key : Bytes
  pub endpoint : Bytes
  pub hostname : Option Bytes

pub record RegisterResponse : Type 0 where
  pub assigned_ip : Bytes
  pub peers : List PeerDescriptor
  pub observed_endpoint : Option Bytes

pub record PollRequest : Type 0 where
  pub public_key : Bytes
  pub auth_key : Bytes
  pub endpoint : Bytes

pub record PollResponse : Type 0 where
  pub peers : List PeerDescriptor

-- The status codes of the refused requests, with the registry's message.
pub data Refusal : Type 0 where
  unauthorized too_many_requests : Refusal
  conflict not_found : RegistryError → Refusal

-- The instant of the last request is kept for each address, a later entry hiding the earlier ones.
pub record AppState : Type 0 where
  pub registry : Registry
  pub auth_key : Bytes
  pub rate_limits : List (IpAddr × ℕ)

unfoldable pub last_reg : IpAddr → List (IpAddr × ℕ) → Option ℕ
last_reg ip [] = none
last_reg ip ((a, t) ∷ limits) = ite (IpAddr-discrete a ip) (some t) (last_reg ip limits)

abbrev pub window_ns : ℕ
window_ns = 5_000_000_000

-- Whether the address has asked less than 5 seconds ago; an instant still to come is no time ago.
abbrev pub is_limited : ℕ → Option ℕ → Bool
is_limited now none = false
is_limited now (some t) = ltb (now - t) window_ns

unfoldable pub check_auth : AppState → Bytes → Result (Unit {0}) Refusal
check_auth s presented = ite (Bytes-discrete presented s.auth_key) (ok tt) (err unauthorized)

-- What runs the handlers: the file system, and the text form of a socket address.
module _ (D : Disk) (show_addr : SocketAddr → Bytes) where
  -- `register` behind the rate limit.
  unfoldable pub register_allowed :
      SocketAddr → RegisterRequest → AppState → Result RegisterResponse Refusal × AppState
  unfolding check_auth
  register_allowed client_addr req s = elim (check_auth s req.auth_key) [
    | err e ↦ (err e, s)
    | ok _ ↦
        let (result, reg) =
          Coordinator.register D req.public_key req.endpoint req.hostname
            (some (show_addr client_addr)) s.registry in
        let s' : AppState = record s { registry = reg } in
        (
          elim result [
            | err e ↦ err (conflict e)
            | ok (assigned_ip, observed_endpoint) ↦ ok (record {
              assigned_ip = assigned_ip;
              peers = peers_for req.public_key reg.nodes;
              observed_endpoint = observed_endpoint;
            })
          ],
          s',
        )
  ]

  -- The instant is kept before the key is checked.
  unfoldable pub register :
      ℕ → SocketAddr → RegisterRequest → AppState → Result RegisterResponse Refusal × AppState
  unfolding register_allowed last_reg
  register now client_addr req s =
      let ip = ip_of client_addr in
      if is_limited now (last_reg ip s.rate_limits)
      then (err too_many_requests, s)
      else register_allowed client_addr req (record s { rate_limits = (ip, now) ∷ s.rate_limits })

  unfoldable pub poll : SocketAddr → PollRequest → AppState → Result PollResponse Refusal × AppState
  unfolding check_auth
  poll client_addr req s = elim (check_auth s req.auth_key) [
    | err e ↦ (err e, s)
    | ok _ ↦
        let (result, reg) =
          Coordinator.poll D req.public_key req.endpoint (some (show_addr client_addr))
            s.registry in
        let s' : AppState = record s { registry = reg } in
        (
          elim result [
            | err e ↦ err (not_found e)
            | ok _ ↦ ok (record { peers = peers_for req.public_key reg.nodes })
          ],
          s',
        )
  ]

-- `GET /network`, which asks for no key.
abbrev pub network : AppState → List NodeRecord
network s = network_view s.registry.nodes
