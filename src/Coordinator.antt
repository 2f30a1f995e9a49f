-- ===== src/Coordinator.antt =====
-- src/coordinator.rs: the allocator of overlay addresses and the registry of nodes. The map of nodes is
-- an association list in which each key stands once; the code's hash map fixes no order either.
pub mod Pool
pub mod Calls
pub mod Assigned
pub mod Unique
pub mod View
pub mod Leases
pub mod Refine
mod Examples
use mesh_vpn.Base.{
  ℕ, zero, suc, ◌+◌, ◌-◌, ◌*◌, ◌^◌, ◌%◌, bit_and, bit_or, Bool, true, false, not, Option, none,
  some, List, [], ◌∷◌, Bytes, u32_mod, Result, ok, err, ltb, ◌==◌, if◌then◌else◌, ite, any,
}
use mesh_vpn.Text.{Ipv4Addr, split_once, parse_ipv4, parse_u8, print_ipv4}
use mesh_vpn.Net.{Bytes-discrete}
use mesh_vpn.Packet.{ok_or, shl_ones, ◌>>=◌}
use mesh_vpn.Config.{PeerDescriptor}
use mesh_vpn.Peer.{is_some}

-- The messages of the errors.
pub data RegistryError : Type 0 where
  cidr_format invalid_network invalid_prefix no_host_range : RegistryError
  unreadable_state not_persisted not_whitelisted pool_exhausted unknown_node : RegistryError

pub record IpAllocator : Type 0 where
  pub network : ℕ
  pub prefix : ℕ

-- `IpAllocator::new`
unfoldable pub new_allocator : Bytes → Result IpAllocator RegistryError
new_allocator cidr = do
  parts ← ok_or (split_once b'/' cidr) cidr_format
  addr ← ok_or (parse_ipv4 parts.0) invalid_network
  len ← ok_or (parse_u8 parts.1) invalid_prefix
  let mask = if len == 0 then 0 else shl_ones (32 - len)
  if ltb 30 len
      then err no_host_range
      else ok (record { network = bit_and addr mask; prefix = len })

-- The arithmetic is that of a release build, on 32 bits: a shift by 32 shifts by 0. A debug build
-- panics there, which only the prefix 0 reaches.
unfoldable pub host_range : IpAllocator → ℕ × ℕ
host_range a =
    let size = 2 ^ ((32 - a.prefix) % 32) in
    let broadcast = bit_or a.network (size - 1) in
    ((a.network + 1) % u32_mod, (broadcast + (u32_mod - 1)) % u32_mod)

-- The first of `count` addresses that is not used.
unfoldable pub first_free : ℕ → ℕ → (Ipv4Addr → Bool) → Option Ipv4Addr
first_free first zero used = none
first_free first (suc count) used = elim (used first) [
  | false ↦ some first
  | true ↦ first_free (suc first) count used
]

unfoldable pub next_free : IpAllocator → (Ipv4Addr → Bool) → Option Ipv4Addr
unfolding host_range first_free
next_free a used = let (first, last) = host_range a in first_free first (suc last - first) used

pub record NodeRecord : Type 0 where
  pub public_key : Bytes
  pub allowed_ip : Bytes
  pub endpoint : Option Bytes
  pub hostname : Option Bytes
  pub observed_endpoint : Option Bytes

abbrev pub Nodes : Type 0
Nodes = List (Bytes × NodeRecord)

-- `HashMap::get`
unfoldable pub lookup : Bytes → Nodes → Option NodeRecord
lookup key [] = none
lookup key ((k, n) ∷ nodes) = ite (Bytes-discrete k key) (some n) (lookup key nodes)

-- `HashMap::insert`, and a write through `HashMap::get_mut`.
unfoldable pub insert : Bytes → NodeRecord → Nodes → Nodes
insert key n [] = (key, n) ∷ []
insert key n ((k, m) ∷ nodes) =
    ite (Bytes-discrete k key) ((k, n) ∷ nodes) ((k, m) ∷ insert key n nodes)

abbrev pub contains_key : Bytes → List Bytes → Bool
contains_key key [] = false
contains_key key (k ∷ ks) = ite (Bytes-discrete k key) true (contains_key key ks)

-- The addresses of the registered nodes; a text that is no address is left out.
unfoldable pub used_ips : Nodes → List Ipv4Addr
used_ips [] = []
used_ips ((k, n) ∷ nodes) = elim (parse_ipv4 n.allowed_ip) [
  | none ↦ used_ips nodes
  | some ip ↦ ip ∷ used_ips nodes
]

unfoldable pub is_used : Nodes → Ipv4Addr → Bool
unfolding used_ips
is_used nodes ip = any (λ u. u == ip) (used_ips nodes)

pub record Registry : Type 0 where
  pub allocator : IpAllocator
  pub nodes : Nodes
  pub path : Option Bytes
  pub whitelist : Option (List Bytes)

-- The file system and the JSON of the state file: whether the path exists, the nodes read from it, and
-- whether the nodes were written.
pub record Disk : Type 0 where
  pub exists : Bytes → Bool
  pub load : Bytes → Option Nodes
  pub save : Bytes → Nodes → Bool

-- `Registry::new`
unfoldable pub new : Bytes → Result Registry RegistryError
new cidr = do
  allocator ← new_allocator cidr
  ok (record { allocator = allocator; nodes = []; path = none; whitelist = none })

unfoldable pub set_whitelist : List Bytes → Registry → Registry
set_whitelist keys r = record r { whitelist = some keys }

abbrev pub whitelisted : Option (List Bytes) → Bytes → Bool
whitelisted none key = true
whitelisted (some keys) key = contains_key key keys

-- The node of a key that registers again: a host name is kept where none is given.
abbrev pub updated : Bytes → Option Bytes → Option Bytes → NodeRecord → NodeRecord
updated endpoint hostname observed n = record n {
  endpoint = some endpoint;
  hostname = if is_some hostname then hostname else n.hostname;
  observed_endpoint = observed;
}

abbrev pub polled : Bytes → Option Bytes → NodeRecord → NodeRecord
polled endpoint observed n = record n { endpoint = some endpoint; observed_endpoint = observed }

abbrev pub fresh_node : Bytes → Ipv4Addr → Bytes → Option Bytes → Option Bytes → NodeRecord
fresh_node key ip endpoint hostname observed = record {
  public_key = key;
  allowed_ip = print_ipv4 ip;
  endpoint = some endpoint;
  hostname = hostname;
  observed_endpoint = observed;
}

module _ (D : Disk) where
  open D use {exists, load, save}

  unfoldable pub load_or_new : Bytes → Bytes → Result Registry RegistryError
  load_or_new cidr path = do
    reg ← new cidr
    nodes ← if exists path then ok_or (load path) unreadable_state else ok reg.nodes
    ok (record reg { nodes = nodes; path = some path })

  -- An in-memory registry has nothing to write.
  unfoldable pub persist : Registry → Bool
  persist r = elim r.path [ none ↦ true | some path ↦ save path r.nodes ]

  -- The table has changed also where the registry could not be written.
  abbrev pub saved {ℓ} : {A : Type ℓ} → A → Registry → Result A RegistryError × Registry
  saved a r = (if persist r then ok a else err not_persisted, r)

  -- `register`, for a key that has a node.
  unfoldable pub update :
      Bytes
      → Bytes
      → Option Bytes
      → Option Bytes
      → NodeRecord
      → Registry
      → Result (Bytes × Option Bytes) RegistryError × Registry
  update key endpoint hostname observed n r =
      let n' = updated endpoint hostname observed n in
      saved (n.allowed_ip, observed) (record r { nodes = insert key n' r.nodes })

  -- `register`, for a key that has none.
  unfoldable pub allocate :
      Bytes
      → Bytes
      → Option Bytes
      → Option Bytes
      → Registry
      → Result (Bytes × Option Bytes) RegistryError × Registry
  allocate key endpoint hostname observed r = elim (next_free r.allocator (is_used r.nodes)) [
    | none ↦ (err pool_exhausted, r)
    | some ip ↦
        let n = fresh_node key ip endpoint hostname observed in
        saved (print_ipv4 ip, observed) (record r { nodes = insert key n r.nodes })
  ]

  unfoldable pub register :
      Bytes
      → Bytes
      → Option Bytes
      → Option Bytes
      → Registry
      → Result (Bytes × Option Bytes) RegistryError × Registry
  unfolding update allocate
  register key endpoint hostname observed r =
      if whitelisted r.whitelist key
      then elim (lookup key r.nodes) [
        | some n ↦ update key endpoint hostname observed n r
        | none ↦ allocate key endpoint hostname observed r
      ]
      else (err not_whitelisted, r)

  unfoldable pub poll :
      Bytes → Bytes → Option Bytes → Registry → Result (Unit {0}) RegistryError × Registry
  poll key endpoint observed r = elim (lookup key r.nodes) [
    | none ↦ (err unknown_node, r)
    | some n ↦
        let n' = polled endpoint observed n in saved tt (record r { nodes = insert key n' r.nodes })
  ]

-- Every node but the one with the key.
unfoldable pub peers_for : Bytes → Nodes → List PeerDescriptor
peers_for key [] = []
peers_for key ((k, n) ∷ nodes) =
    let rest = peers_for key nodes in
    let d : PeerDescriptor = record {
      public_key = n.public_key;
      allowed_ip = n.allowed_ip;
      endpoint = n.endpoint;
    } in
    ite (Bytes-discrete n.public_key key) rest (d ∷ rest)

abbrev pub is_registered : Registry → Bytes → Bool
is_registered r key = is_some (lookup key r.nodes)
