-- ===== src/Daemon/Reaches.antt =====
-- The peer to which a daemon of src/daemon.rs that has joined the network routes an address.
use mesh_vpn.Base.{
  ℕ, zero, suc, ◌≤◌, ◌<◌, ◌≡◌, ◌≢◌, refl, ◌∙◌, ap, sym, subst, some, List, [], ◌∷◌, Bytes, Result,
  ok, get_elem?, map, arith, inl, inr, u32_mod, true,
}
use mathlib.Core.Option.{some-injective}
use mesh_vpn.Text.{print_ipv4, Ipv4Addr}
use mesh_vpn.Net.{Parsers}
use mesh_vpn.Packet.{Ipv4Subnet, contains}
use mesh_vpn.Config.{ParsedPeer, to_spec, parse_peer_arg}
use mesh_vpn.Config.Settings.{DaemonSettings}
use mesh_vpn.Config.Address.{only, contains-only}
use mesh_vpn.Coordinator
use mesh_vpn.Coordinator.{Registry, NodeRecord, Disk, lookup, peers_for}
use mesh_vpn.Coordinator.Calls.{Call, calls, assigned}
use mesh_vpn.Coordinator.Assigned.{IsValid, calls-IsValid, new-cases}
use mesh_vpn.Coordinator.Unique.{IsUnique, calls-IsUnique}
use mesh_vpn.Coordinatord.{RegisterRequest}
use mesh_vpn.Peer
use mesh_vpn.Peer.{Peer, MagicConfig}
use mesh_vpn.Manager
use mesh_vpn.Manager.{PeerManager, find_best_peer_idx}
use mesh_vpn.Manager.Routes.{find_best_peer_idx-Routes}
use mesh_vpn.Daemon.Setup.{Host, Started, coordinator_peers, peer_of, magic_of, run_with_settings}
use mesh_vpn.Daemon.Join.{
  Server, serve, decoded, after, with_call, after-calls, run_with_settings-Joined,
}
use mesh_vpn.Daemon.Mesh.{descriptor_of, descriptor-only, Comes, table, table-Comes, table-has}

get_elem?-map {ℓ} :
    {A : Type ℓ} (f : A → A) (xs : List A) (i : ℕ) (x : A)
    → get_elem? xs i ≡ some x
    → get_elem? (map f xs) i ≡ some (f x)
get_elem?-map f [] i x e = absurd (cc)
get_elem?-map f (y ∷ xs) zero x e = ap some (ap f (some-injective y x e))
get_elem?-map f (y ∷ xs) (suc i) x e = get_elem?-map f xs i x e

get_elem?-map_inverse {ℓ} :
    {A : Type ℓ} (f : A → A) (xs : List A) (i : ℕ) (y : A)
    → get_elem? (map f xs) i ≡ some y
    → (x : A) × (get_elem? xs i ≡ some x) × (y ≡ f x)
get_elem?-map_inverse f [] i y e = absurd (cc)
get_elem?-map_inverse f (x ∷ xs) zero y e = (x, refl, sym (some-injective (f x) y e))
get_elem?-map_inverse f (x ∷ xs) (suc i) y e = get_elem?-map_inverse f xs i y e

get_elem?-one {ℓ} : {A : Type ℓ} (a : A) (i : ℕ) (y : A) → get_elem? (a ∷ []) i ≡ some y → a ≡ y
get_elem?-one a zero y e = some-injective a y e
get_elem?-one a (suc i) y e = absurd (cc)

ok-injective {ℓ κ} : {A : Type ℓ} {E : Type κ} {a b : A} → Path (Result A E) (ok a) (ok b) → a ≡ b
ok-injective e = cc

-- The place in the table that an address is routed to, and whose it is.
pub record Reaches {H T : Type 0} (ps : List (Peer H T)) (ip : Ipv4Addr) (i : ℕ) (pubkey : Bytes)
    : Type 0 where
  pub peer : Peer H T
  pub at : get_elem? ps i ≡ some peer
  pub key : peer.pubkey ≡ pubkey
  pub address : peer.allowed_ips ≡ only ip ∷ []

module _ {H T : Type 0} (P : Parsers) (now : ℕ) (own priv : Bytes) (magic : MagicConfig)
    (r : Registry) (v : IsValid r) (u : IsUnique r.nodes) where
  abbrev pub manager : PeerManager H T
  manager = Manager.new priv (table P now own r.nodes) magic

  -- A peer of the table whose subnets hold the address of the node with the key is that node's.
  peer-key :
      (q : Peer H T) (key : Bytes) (n : NodeRecord) (w : ParsedPeer) (ip k : ℕ)
      (subnet : Ipv4Subnet)
      → Comes P now own r.nodes q
      → lookup key r.nodes ≡ some n
      → parse_peer_arg P (to_spec (descriptor_of n)) ≡ ok w
      → n.allowed_ip ≡ print_ipv4 ip
      → ip < u32_mod
      → get_elem? q.allowed_ips k ≡ some subnet
      → contains subnet ip ≡ true
      → (q.pubkey ≡ w.pubkey) × (q.allowed_ips ≡ only ip ∷ [])
  unfolding assigned Peer.new
  peer-key q key n w ip k subnet c l f t h g holds =
      let (other, s, below, host) = v.hosts c.key c.node.allowed_ip (ground (arith, c.listed)) in
      let its : q.allowed_ips ≡ only other ∷ [] =
        ap (λ x. x.allowed_ips) c.same ∙ descriptor-only P c.node c.parsed other c.parses s below in
      let subnet_is : only other ≡ subnet =
        get_elem?-one (only other) k subnet (ap (λ xs. get_elem? xs k) (sym its) ∙ g) in
      let same : other ≡ ip =
        (contains-only other ip below h).0 (ap (λ x. contains x ip) subnet_is ∙ holds) in
      let keys : c.key ≡ key =
        v.distinct c.key key n.allowed_ip (ground (arith, c.listed, s ∙ ap print_ipv4 same ∙ sym t))
          (ground (arith, l)) in
      let nodes : c.node ≡ n =
        some-injective c.node n (sym c.listed ∙ ap (λ x. lookup x r.nodes) keys ∙ l) in
      let parsed : c.parsed ≡ w =
        ok-injective
          (sym c.parses ∙ ap (λ x. parse_peer_arg P (to_spec (descriptor_of x))) nodes ∙ f) in
      (ap (λ x. x.pubkey) c.same ∙ ap (λ x. x.pubkey) parsed, its ∙ ap (λ x. only x ∷ []) same)

  pub find_best_peer_idx-Reaches :
      (key : Bytes) (n : NodeRecord) (w : ParsedPeer) (ip : ℕ)
      → lookup key r.nodes ≡ some n
      → n.public_key ≢ own
      → parse_peer_arg P (to_spec (descriptor_of n)) ≡ ok w
      → n.allowed_ip ≡ print_ipv4 ip
      → ip < u32_mod
      → (i : ℕ) × (find_best_peer_idx ip manager ≡ some i) × Reaches manager.peers ip i w.pubkey
  unfolding Manager.new Peer.new
  find_best_peer_idx-Reaches key n w ip l ne f t h = elim (find_best_peer_idx-Routes ip manager) [
    | inl (none_found, unrouted) ↦
        let (i, e) = table-has P now own r.nodes key n w l ne f in
        let own_subnet = descriptor-only P n w ip f t h in
        absurd (
          unrouted i 0 (record (peer_of P now w) { magic = magic }) (only ip)
            (get_elem?-map (λ p. record p { magic = magic }) (table P now own r.nodes) i
              (peer_of P now w) e)
            (ap (λ xs. get_elem? xs 0) own_subnet) ((contains-only ip ip h h).1 refl))
    | inr (i, e, rt) ↦
        let (p, at, is) =
          get_elem?-map_inverse (λ p. record p { magic = magic }) (table P now own r.nodes) i
            rt.peer rt.at in
        let c = table-Comes P now own r.nodes i p u at in
        let (k, a) =
          peer-key p key n w ip rt.k rt.subnet c l f t h
            (ap (λ x. get_elem? x.allowed_ips rt.k) (sym is) ∙ rt.allowed) rt.holds in
        (
          i,
          e,
          record {
            peer = rt.peer;
            at = rt.at;
            key = ap (λ x. x.pubkey) is ∙ k;
            address = ap (λ x. x.allowed_ips) is ∙ a;
          },
        )
  ]

-- A daemon that starts against a coordinator, which began with an empty registry over a CIDR block
-- with a prefix length of at least 1 and has served any calls since, routes the address of every other
-- node of the registry whose descriptor parses: to a peer with that node's key, of which the address
-- is the only subnet. A node is another one if its public key has another text than the daemon's.
pub run_with_settings-Reaches :
    {H T : Type 0} (P : Parsers) (now : ℕ) (M : Host) (S : Server) (settings : DaemonSettings)
    (url : Bytes) (st : Started H T) (cidr : Bytes) (r : Registry) (cs : List (Disk × Call))
    (key : Bytes) (n : NodeRecord) (w : ParsedPeer)
    → Coordinator.new cidr ≡ ok r
    → 1 ≤ r.allocator.prefix
    → S.state.registry ≡ calls cs r
    → settings.coordinator_url ≡ some url
    → ((place : Bytes) (req : RegisterRequest)
        → M.post_register place req ≡ decoded (serve S req).0)
    → run_with_settings P now M settings ≡ ok st
    → lookup key (after P now M S settings st).nodes ≡ some n
    → n.public_key ≢ M.encode_hex st.pubkey
    → parse_peer_arg P (to_spec (descriptor_of n)) ≡ ok w
    → (ip : ℕ) × (n.allowed_ip ≡ print_ipv4 ip)
      × (i : ℕ) × (find_best_peer_idx ip st.shared.manager ≡ some i)
      × Reaches st.shared.manager.peers ip i w.pubkey
unfolding assigned
run_with_settings-Reaches P now M S settings url st cidr r cs key n w new prefix history u post e l
      ne f =
    let j = run_with_settings-Joined P now M S settings url st u post e in
    let registry = after P now M S settings st in
    let own = M.encode_hex st.pubkey in
    let path = after-calls P now M S settings st r cs j history in
    let all = with_call P now M S settings st cs in
    let v : IsValid registry = subst IsValid (sym path) (calls-IsValid cidr r all new prefix) in
    let unique : IsUnique registry.nodes =
      subst (λ x. IsUnique x.nodes) (sym path)
        (calls-IsUnique all r (subst IsUnique (sym (new-cases cidr r new).1) tt)) in
    let same : manager P now own j.local_priv (magic_of settings) registry v unique
        ≡ st.shared.manager =
      sym (
        j.manager
        ∙ ap (λ ds. Manager.new j.local_priv (coordinator_peers P now ds) (magic_of settings))
            j.accepted.peers) in
    let (ip, t, below, host) = v.hosts key n.allowed_ip (ground (arith, l)) in
    let found =
      find_best_peer_idx-Reaches P now own j.local_priv (magic_of settings) registry v unique key n
        w ip l ne f t below in
    let (i, a, b) =
      subst (λ m. (i : ℕ) × (find_best_peer_idx ip m ≡ some i) × Reaches m.peers ip i w.pubkey) same
        found in
    (ip, t, i, a, b)
