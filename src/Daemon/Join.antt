-- ===== src/Daemon/Join.antt =====
-- A daemon of src/daemon.rs that starts against the coordinator of src/bin/coordinatord.rs.
use mesh_vpn.Base.{
  ℕ, ◌≤◌, ◌≡◌, ◌∙◌, sym, ap, subst, Option, none, some, List, [], ◌∷◌, ◌++◌, Bytes, Result, ok, err,
}
use mathlib.Core.Option.{some-injective}
use mesh_vpn.Text.{print_ipv4}
use mesh_vpn.Net.{SocketAddr, Parsers}
use mesh_vpn.Config.Settings.{DaemonSettings}
use mesh_vpn.Coordinator
use mesh_vpn.Coordinator.{Registry, Disk, peers_for}
use mesh_vpn.Coordinator.Pool.{IsHost}
use mesh_vpn.Coordinator.Calls.{Call, call, calls, assigned, register-assigned}
use mesh_vpn.Coordinator.Assigned.{IsValid, calls-IsValid, allocator-calls}
use mesh_vpn.Coordinatord
use mesh_vpn.Coordinatord.{AppState, RegisterRequest, RegisterResponse, Refusal}
use mesh_vpn.Coordinatord.Accepted.{Accepted, register-Accepted, calls-append, call_of}
use mesh_vpn.Manager
use mesh_vpn.Daemon.Setup.{
  Host, Started, run_with_settings, register_request, endpoint_or, coordinator_peers, magic_of,
}
use mesh_vpn.Daemon.Started.{registered, configured, run_with_settings-Starts}

-- What the HTTP client makes of the handler's result: a refusal does not decode as a response.
abbrev pub decoded : Result RegisterResponse Refusal → Option RegisterResponse
decoded (ok resp) = some resp
decoded (err e) = none

decoded-some :
    (r : Result RegisterResponse Refusal) (resp : RegisterResponse)
    → decoded r ≡ some resp
    → r ≡ ok resp
decoded-some (ok a) resp e = ap ok (some-injective a resp e)
decoded-some (err x) resp e = absurd (cc)

-- The coordinator as it is when the request reaches it, and where the request comes from.
pub record Server : Type 0 where
  pub disk : Disk
  pub show_addr : SocketAddr → Bytes
  pub now : ℕ
  pub client_addr : SocketAddr
  pub state : AppState

-- The coordinator after a request, and what it answers.
abbrev pub serve : Server → RegisterRequest → Result RegisterResponse Refusal × AppState
serve S req = Coordinatord.register S.disk S.show_addr S.now S.client_addr req S.state

-- The request of a daemon.
abbrev pub request_of : Host → DaemonSettings → Bytes → RegisterRequest
request_of M settings pubkey =
    register_request settings (M.encode_hex pubkey)
      (endpoint_or settings.public_endpoint (M.show_addr settings.local_udp))

module _ {H T : Type 0} (P : Parsers) (now : ℕ) (M : Host) (S : Server) where
  -- The daemon has joined the network.
  pub record Joined (settings : DaemonSettings) (st : Started H T) : Type 0 where
    pub response : RegisterResponse
    pub pubkey_hex : st.pubkey_hex ≡ M.encode_hex st.pubkey
    pub address : st.tun_ip ≡ response.assigned_ip
    pub accepted :
        Accepted S.disk S.show_addr S.client_addr
          (request_of M settings st.pubkey)
          S.state
          (serve S (request_of M settings st.pubkey)).1
          response
    pub local_priv : Bytes
    pub manager :
        st.shared.manager
        ≡ Manager.new local_priv
            (coordinator_peers {H = H} {T = T} P now response.peers)
            (magic_of settings)

  pub run_with_settings-Joined :
      (settings : DaemonSettings) (url : Bytes) (st : Started H T)
      → settings.coordinator_url ≡ some url
      → ((place : Bytes) (req : RegisterRequest)
          → M.post_register place req ≡ decoded (serve S req).0)
      → run_with_settings P now M settings ≡ ok st
      → Joined settings st
  run_with_settings-Joined settings url st u post e =
      let w = run_with_settings-Starts P now M settings st e in
      let req = request_of M settings (M.public_of w.local_priv) in
      elim w.network [
        | configured f g h ↦ absurd (cc (f, u))
        | registered url' resp f g h k ↦
            let answered = decoded-some (serve S req).0 resp (sym (post _ req) ∙ g) in
            let a =
              register-Accepted S.disk S.show_addr S.client_addr req S.now S.state resp answered in
            let key : M.public_of w.local_priv ≡ st.pubkey = ap (λ x. x.pubkey) (sym w.result) in
            record {
              response = resp;
              pubkey_hex = ap (λ x. x.pubkey_hex) w.result ∙ ap M.encode_hex key;
              address = h;
              accepted =
                  subst
                    (λ x.
                      Accepted S.disk S.show_addr S.client_addr (request_of M settings x) S.state
                        (serve S (request_of M settings x)).1 resp)
                    key a;
              local_priv = w.local_priv;
              manager =
                  ap (λ x. x.shared.manager) w.result
                  ∙ ap (λ ps. Manager.new w.local_priv ps (magic_of settings)) k;
            }
      ]

  -- The registry once the daemon has joined.
  abbrev pub after : DaemonSettings → Started H T → Registry
  after settings st = (serve S (request_of M settings st.pubkey)).1.registry

  -- The history of the registry, with the call of the daemon.
  abbrev pub with_call : DaemonSettings → Started H T → List (Disk × Call) → List (Disk × Call)
  with_call settings st cs =
      cs ++ ((S.disk, call_of S.show_addr S.client_addr (request_of M settings st.pubkey)) ∷ [])

  pub after-calls :
      (settings : DaemonSettings) (st : Started H T) (r : Registry) (cs : List (Disk × Call))
      → Joined settings st
      → S.state.registry ≡ calls cs r
      → after settings st ≡ calls (with_call settings st cs) r
  after-calls settings st r cs j history =
      let c = call_of S.show_addr S.client_addr (request_of M settings st.pubkey) in
      j.accepted.registry ∙ ap (call S.disk c) history ∙ sym (calls-append cs S.disk c r)

  -- A daemon that starts against a coordinator, which began with an empty registry over a CIDR block
  -- with a prefix length of at least 1 and has served any calls since, gives its TUN device the address
  -- that the coordinator's registry then has for the daemon's public key: a host address of the block,
  -- which the registry has for no other key.
  pub run_with_settings-address :
      (settings : DaemonSettings) (url : Bytes) (st : Started H T) (cidr : Bytes) (r : Registry)
      (cs : List (Disk × Call))
      → Coordinator.new cidr ≡ ok r
      → 1 ≤ r.allocator.prefix
      → S.state.registry ≡ calls cs r
      → settings.coordinator_url ≡ some url
      → ((place : Bytes) (req : RegisterRequest)
          → M.post_register place req ≡ decoded (serve S req).0)
      → run_with_settings P now M settings ≡ ok st
      → (assigned (after settings st).nodes (M.encode_hex st.pubkey) ≡ some st.tun_ip)
        × ((ip : ℕ) × (st.tun_ip ≡ print_ipv4 ip) × IsHost r.allocator ip)
        × ((key : Bytes)
            → assigned (after settings st).nodes key ≡ some st.tun_ip
            → key ≡ M.encode_hex st.pubkey)
  unfolding call
  run_with_settings-address settings url st cidr r cs new prefix history u post e =
      let j = run_with_settings-Joined settings url st u post e in
      let req = request_of M settings st.pubkey in
      let path = after-calls settings st r cs j history in
      let v : IsValid (after settings st) =
        subst IsValid (sym path) (calls-IsValid cidr r (with_call settings st cs) new prefix) in
      let own : assigned (after settings st).nodes (M.encode_hex st.pubkey) ≡ some st.tun_ip =
        ap (λ x. assigned x.nodes (M.encode_hex st.pubkey)) j.accepted.registry
        ∙ (register-assigned S.disk (M.encode_hex st.pubkey) req.endpoint req.hostname
            (some (S.show_addr S.client_addr)) S.state.registry j.response.assigned_ip
            j.response.observed_endpoint j.accepted.result).0
        ∙ ap some (sym j.address) in
      let (ip, t, l, host) = v.hosts (M.encode_hex st.pubkey) st.tun_ip own in
      let same = ap (λ x. x.allocator) path ∙ allocator-calls (with_call settings st cs) r in
      (
        own,
        (ip, t, subst (λ a. IsHost a ip) same host),
        λ key f. v.distinct key (M.encode_hex st.pubkey) st.tun_ip f own,
      )
