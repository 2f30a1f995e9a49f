-- ===== src/Coordinatord/Access.antt =====
-- Who may change the registry through the handlers of src/bin/coordinatord.rs, and how often.
use mesh_vpn.Base.{
  ℕ, ◌-◌, ◌<◌, ◌≡◌, ◌≢◌, ◌∷◌, [], List, some, ap, ◌∙◌, Bytes, err, arith, Bool-cases, inl, inr,
  if◌then◌else◌,
}
use mesh_vpn.Net.{IpAddr, SocketAddr, IpAddr-discrete, Bytes-discrete, ip_of}
use mesh_vpn.Coordinator.{Disk}
use mesh_vpn.Coordinatord.{
  AppState, RegisterRequest, PollRequest, unauthorized, too_many_requests, last_reg, window_ns,
  is_limited, check_auth, register_allowed, register, poll,
}

-- A request with another key than the coordinator's changes nothing in the registry: a registration
-- is refused as unauthorized or for its rate, a poll as unauthorized and with the whole state kept.
pub register-unauthorized :
    (D : Disk) (show_addr : SocketAddr → Bytes) (now : ℕ) (client_addr : SocketAddr)
    (req : RegisterRequest) (polled : PollRequest) (s : AppState)
    → req.auth_key ≢ s.auth_key
    → polled.auth_key ≢ s.auth_key
    → ((register D show_addr now client_addr req s).1.registry ≡ s.registry)
      × ((register D show_addr now client_addr req s).0
          ≡ err (
              if is_limited now (last_reg (ip_of client_addr) s.rate_limits)
              then too_many_requests
              else unauthorized))
      × (poll D show_addr client_addr polled s ≡ (err unauthorized, s))
unfolding register register_allowed poll check_auth
register-unauthorized D show_addr now client_addr req polled s h g =
    elim (Bool-cases (is_limited now (last_reg (ip_of client_addr) s.rate_limits))) [
      | inl l ↦ (ground (arith, l), ground (arith, l), ground (arith, g))
      | inr l ↦ (ground (arith, l, h), ground (arith, l, h), ground (arith, g))
    ]

limits-register_allowed :
    (D : Disk) (show_addr : SocketAddr → Bytes) (client_addr : SocketAddr) (req : RegisterRequest)
    (s : AppState)
    → (register_allowed D show_addr client_addr req s).1.rate_limits ≡ s.rate_limits
unfolding register_allowed check_auth
limits-register_allowed D show_addr client_addr req s =
    elim (Bytes-discrete req.auth_key s.auth_key) [
      | yes h ↦ ground (arith, h)
      | no h ↦ ground (arith, h)
    ]

limits-poll :
    (D : Disk) (show_addr : SocketAddr → Bytes) (client_addr : SocketAddr) (req : PollRequest)
    (s : AppState)
    → (poll D show_addr client_addr req s).1.rate_limits ≡ s.rate_limits
unfolding poll check_auth
limits-poll D show_addr client_addr req s = elim (Bytes-discrete req.auth_key s.auth_key) [
  | yes h ↦ ground (arith, h)
  | no h ↦ ground (arith, h)
]

-- A request that may change the state, with what the file system does in it.
pub data Request : Type 0 where
  registers : Disk → ℕ → SocketAddr → RegisterRequest → Request
  polls : Disk → SocketAddr → PollRequest → Request

-- Registrations that come less than 5 seconds after `now`.
abbrev pub AllWithin : ℕ → List Request → Type 0
AllWithin now [] = Unit
AllWithin now (registers D at addr req ∷ rs) = (at - now < window_ns) × AllWithin now rs
AllWithin now (polls D addr req ∷ rs) = AllWithin now rs

module _ (show_addr : SocketAddr → Bytes) where
  -- The state after the requests, one after another.
  unfoldable pub serve : List Request → AppState → AppState
  serve [] s = s
  serve (registers D at addr req ∷ rs) s = serve rs (register D show_addr at addr req s).1
  serve (polls D addr req ∷ rs) s = serve rs (poll D show_addr addr req s).1

  last_reg-register :
      (D : Disk) (now at : ℕ) (ip : IpAddr) (addr : SocketAddr) (req : RegisterRequest)
      (s : AppState)
      → last_reg ip s.rate_limits ≡ some now
      → at - now < window_ns
      → last_reg ip (register D show_addr at addr req s).1.rate_limits ≡ some now
  unfolding register last_reg
  last_reg-register D now at ip addr req s e w =
      elim (Bool-cases (is_limited at (last_reg (ip_of addr) s.rate_limits))) [
        | inl k ↦ ground (arith, k, e)
        | inr k ↦
            let s' : AppState = record s { rate_limits = (ip_of addr, at) ∷ s.rate_limits } in
            let kept = limits-register_allowed D show_addr addr req s' in
            elim (IpAddr-discrete (ip_of addr) ip) [
              | yes i ↦ absurd (ground (arith, k, i, e, w))
              | no n ↦ ground (arith, k, e, n, kept)
            ]
      ]

  last_reg-serve :
      (rs : List Request) (now : ℕ) (ip : IpAddr) (s : AppState)
      → last_reg ip s.rate_limits ≡ some now
      → AllWithin now rs
      → last_reg ip (serve rs s).rate_limits ≡ some now
  unfolding serve
  last_reg-serve [] now ip s e w = e
  last_reg-serve (registers D at addr req ∷ rs) now ip s e (w, ws) =
      last_reg-serve rs now ip (register D show_addr at addr req s).1
        (last_reg-register D now at ip addr req s e w) ws
  last_reg-serve (polls D addr req ∷ rs) now ip s e ws =
      last_reg-serve rs now ip (poll D show_addr addr req s).1
        (ap (last_reg ip) (limits-poll D show_addr addr req s) ∙ e) ws

  last_reg-passed :
      (D : Disk) (now : ℕ) (addr : SocketAddr) (req : RegisterRequest) (s : AppState)
      → (register D show_addr now addr req s).0 ≢ err too_many_requests
      → last_reg (ip_of addr) (register D show_addr now addr req s).1.rate_limits ≡ some now
  unfolding register last_reg
  last_reg-passed D now addr req s h =
      elim (Bool-cases (is_limited now (last_reg (ip_of addr) s.rate_limits))) [
        | inl k ↦ absurd (h (ground (arith, k)))
        | inr k ↦
            let s' : AppState = record s { rate_limits = (ip_of addr, now) ∷ s.rate_limits } in
            ground (arith, k, limits-register_allowed D show_addr addr req s')
      ]

  -- A registration that passes the rate limit, whatever comes of it, stops every further registration
  -- from its IP address for 5 seconds: that one is refused and changes nothing, whichever requests, of
  -- this address and of others, have come in between.
  pub register-limited :
      (D E : Disk) (now later : ℕ) (client_addr other_addr : SocketAddr)
      (req next : RegisterRequest) (between : List Request) (s : AppState)
      → (register D show_addr now client_addr req s).0 ≢ err too_many_requests
      → AllWithin now between
      → ip_of other_addr ≡ ip_of client_addr
      → later - now < window_ns
      → register E show_addr later other_addr next
          (serve between (register D show_addr now client_addr req s).1)
        ≡ (err too_many_requests, serve between (register D show_addr now client_addr req s).1)
  unfolding register
  register-limited D E now later client_addr other_addr req next between s h w i l =
      let last =
        last_reg-serve between now (ip_of client_addr)
          (register D show_addr now client_addr req s).1 (last_reg-passed D now client_addr req s h)
          w in
      ground (arith, last, i, l)
