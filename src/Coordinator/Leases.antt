-- ===== src/Coordinator/Leases.antt =====
-- What the registry of src/coordinator.rs promises, without its table: which key holds which address.
use mesh_vpn.Base.{ℕ, ◌<◌, ◌≡◌, Option, none, some, List, [], ◌∷◌, Bytes, ite, ◌≢◌, if◌then◌else◌}
use mesh_vpn.Text.{parse_ipv4}
use mesh_vpn.Net.{Bytes-discrete}
use mesh_vpn.Coordinator.{IpAllocator, Nodes, Disk, whitelisted}
use mesh_vpn.Coordinator.Pool.{IsHost}
use mesh_vpn.Coordinator.Calls.{Call, register_call, poll_call, assigned}

-- The address of each key that has one.
abbrev pub Leases : Type 0
Leases = Bytes → Option ℕ

abbrev pub IsHeld : Leases → ℕ → Type 0
IsHeld l ip = (key : Bytes) × (l key ≡ some ip)

-- The key that a call asks an address for: a registration does, if its key is on the whitelist.
abbrev pub asks : Option (List Bytes) → Call → Option Bytes
asks white (register_call key endpoint hostname observed) =
    if whitelisted white key then some key else none
asks white (poll_call key endpoint observed) = none

-- A key that asks and has no address gets the lowest host address that no key holds. All stays where
-- no key asks, the key has an address, or all host addresses are held.
pub data Step (a : IpAllocator) : Option Bytes → Leases → Leases → Type 0 where
  idle : (l l' : Leases) → ((k : Bytes) → l' k ≡ l k) → Step a none l l'
  again :
      (l l' : Leases) (key : Bytes)
      → l key ≢ none
      → ((k : Bytes) → l' k ≡ l k)
      → Step a (some key) l l'
  exhausted :
      (l l' : Leases) (key : Bytes)
      → ((j : ℕ) → IsHost a j → IsHeld l j)
      → ((k : Bytes) → l' k ≡ l k)
      → Step a (some key) l l'
  lease :
      (l l' : Leases) (key : Bytes) (ip : ℕ)
      → l key ≡ none
      → IsHost a ip
      → ¬ (IsHeld l ip)
      → ((j : ℕ) → IsHost a j → j < ip → IsHeld l j)
      → ((k : Bytes) → l' k ≡ ite (Bytes-discrete key k) (some ip) (l k))
      → Step a (some key) l l'

-- One step for each call.
pub data Steps (a : IpAllocator) (white : Option (List Bytes))
    : List (Disk × Call) → Leases → Leases → Type 0 where
  done : (l : Leases) → Steps a white [] l l
  more :
      (D : Disk) (c : Call) (cs : List (Disk × Call)) (l m n : Leases)
      → Step a (asks white c) l m
      → Steps a white cs m n
      → Steps a white ((D, c) ∷ cs) l n

abbrev pub no_leases : Leases
no_leases key = none

abbrev pub read_lease : Option Bytes → Option ℕ
read_lease none = none
read_lease (some text) = parse_ipv4 text

-- What the table says.
unfoldable pub leases_of : Nodes → Leases
leases_of nodes key = read_lease (assigned nodes key)
