-- ===== src/Coordinatord/Examples.antt =====
-- The theorems on the handlers of src/bin/coordinatord.rs at concrete inputs.
use mesh_vpn.Base.{
  ◌≡◌, ◌≢◌, refl, true, false, none, List, [], ◌∷◌, Bytes, err, arith, if◌then◌else◌,
}
use mesh_vpn.Text.{codes}
use mesh_vpn.Net.{SocketAddr, socket_v4, ip_of}
use mesh_vpn.Coordinator.{Disk}
use mesh_vpn.Coordinatord.{
  AppState, RegisterRequest, PollRequest, is_limited, last_reg, too_many_requests, unauthorized,
  register, poll, register_allowed, check_auth,
}
use mesh_vpn.Coordinatord.Access.{
  register-unauthorized, register-limited, Request, registers, polls, serve,
}

abbrev disk : Disk
disk = record { exists = λ p. false; load = λ p. none; save = λ p nodes. true }

abbrev state : AppState
state = record {
  registry = record {
    allocator = record { network = 167797504; prefix = 24 };
    nodes = [];
    path = none;
    whitelist = none;
  };
  auth_key = codes "key";
  rate_limits = [];
}

abbrev client : SocketAddr
client = socket_v4 3232235777 51820

abbrev show : SocketAddr → Bytes
show a = codes "192.168.1.1:51820"

abbrev wrong_register : RegisterRequest
wrong_register = record {
  public_key = codes "a";
  auth_key = [];
  endpoint = codes "e";
  hostname = none;
}

abbrev wrong_poll : PollRequest
wrong_poll = record { public_key = codes "a"; auth_key = []; endpoint = codes "e" }

key_differs : Path Bytes [] (codes "key") → ⊥
key_differs e = absurd (cc e)

register-unauthorized_example :
    ((register disk show 7 client wrong_register state).1.registry ≡ state.registry)
    × ((register disk show 7 client wrong_register state).0
        ≡ err (
            if is_limited 7 (last_reg (ip_of client) state.rate_limits)
            then too_many_requests
            else unauthorized))
    × (poll disk show client wrong_poll state ≡ (err unauthorized, state))
register-unauthorized_example =
    register-unauthorized disk show 7 client wrong_register wrong_poll state key_differs key_differs

passes : (register disk show 7 client wrong_register state).0 ≢ err too_many_requests
unfolding register register_allowed check_auth last_reg
passes e = absurd (ground (arith, key_differs))

-- Another client registers, the first tries again too early, and it polls.
abbrev elsewhere : SocketAddr
elsewhere = socket_v4 167837953 4000

abbrev between : List Request
between =
    registers disk 8 elsewhere wrong_register
    ∷ (registers disk 8 client wrong_register ∷ (polls disk client wrong_poll ∷ []))

register-limited_example :
    register disk show 9 client wrong_register
      (serve show between (register disk show 7 client wrong_register state).1)
    ≡ (
      err too_many_requests,
      serve show between (register disk show 7 client wrong_register state).1,
    )
register-limited_example =
    register-limited show disk disk 7 9 client client wrong_register wrong_register between state
      passes (omega arith, (omega arith, tt)) refl (omega arith)
