-- ===== src/Coordinatord/Accepted.antt =====
-- The registrations that src/bin/coordinatord.rs accepts, as calls of the registry.
use mesh_vpn.Base.{ℕ, ◌≡◌, refl, List, [], ◌∷◌, ◌++◌, some, Bytes, ok, arith, inl, inr, Bool-cases}
use mesh_vpn.Net.{SocketAddr, ip_of, Bytes-discrete}
use mesh_vpn.Packet.{Result-cases}
use mesh_vpn.Coordinator
use mesh_vpn.Coordinator.{Registry, Disk, peers_for}
use mesh_vpn.Coordinator.Calls.{Call, call, calls, register_call}
use mesh_vpn.Coordinatord.{
  AppState, RegisterRequest, RegisterResponse, register, register_allowed, check_auth, is_limited,
  last_reg,
}

-- The call of a request from an address.
abbrev pub call_of : (SocketAddr → Bytes) → SocketAddr → RegisterRequest → Call
call_of show_addr client_addr req =
    register_call req.public_key req.endpoint req.hostname (some (show_addr client_addr))

-- What is accepted comes from the registry.
pub record Accepted (D : Disk) (show_addr : SocketAddr → Bytes) (client_addr : SocketAddr)
    (req : RegisterRequest) (s s' : AppState) (resp : RegisterResponse) : Type 0 where
  pub result :
      (Coordinator.register D req.public_key req.endpoint req.hostname
        (some (show_addr client_addr))
        s.registry).0
      ≡ ok (resp.assigned_ip, resp.observed_endpoint)
  pub registry : s'.registry ≡ call D (call_of show_addr client_addr req) s.registry
  pub peers : resp.peers ≡ peers_for req.public_key s'.registry.nodes

module _ (D : Disk) (show_addr : SocketAddr → Bytes) (client_addr : SocketAddr)
    (req : RegisterRequest) where
  register_allowed-Accepted :
      (s : AppState) (resp : RegisterResponse)
      → (register_allowed D show_addr client_addr req s).0 ≡ ok resp
      → Accepted D show_addr client_addr req s
          (register_allowed D show_addr client_addr req s).1
          resp
  unfolding register_allowed check_auth call
  register_allowed-Accepted s resp e = elim (Bytes-discrete req.auth_key s.auth_key) [
    | no ne ↦ absurd (ground (arith, e))
    | yes y ↦
        elim (Result-cases
          (Coordinator.register D req.public_key req.endpoint req.hostname
            (some (show_addr client_addr)) s.registry).0) [
              | inl (x, f) ↦ absurd (ground (arith, e, f))
              | inr ((ip, seen), f) ↦ record {
                result = ground (arith, e, f);
                registry = ground (arith, e, f);
                peers = ground (arith, e, f);
              }
            ]
  ]

  pub register-Accepted :
      (now : ℕ) (s : AppState) (resp : RegisterResponse)
      → (register D show_addr now client_addr req s).0 ≡ ok resp
      → Accepted D show_addr client_addr req s (register D show_addr now client_addr req s).1 resp
  unfolding register
  register-Accepted now s resp e =
      let limited : AppState = record s {
        rate_limits = (ip_of client_addr, now) ∷ s.rate_limits;
      } in
      elim (Bool-cases (is_limited now (last_reg (ip_of client_addr) s.rate_limits))) [
        | inl l ↦ absurd (ground (arith, e, l))
        | inr l ↦
            let a = register_allowed-Accepted limited resp (ground (arith, e, l)) in
            record {
              result = a.result;
              registry = ground (arith, l, a.registry);
              peers = ground (arith, l, a.peers);
            }
      ]

pub calls-append :
    (cs : List (Disk × Call)) (D : Disk) (c : Call) (r : Registry)
    → calls (cs ++ ((D, c) ∷ [])) r ≡ call D c (calls cs r)
unfolding calls
calls-append [] D c r = refl
calls-append ((E, d) ∷ cs) D c r = calls-append cs D c (call E d r)
