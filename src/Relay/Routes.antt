-- ===== src/Relay/Routes.antt =====
-- The routes of the relay server in src/bin/coordinatord.rs.
use mesh_vpn.Base.{ℕ, Option, none, some, List, [], ◌∷◌, Bytes, ite}
use mesh_vpn.Net.{Bytes-discrete}
use mesh_vpn.Relay.{RelayEvent, identified, received, ended}

-- The last event that concerns a key: the connection that identified itself last, if none ended since.
unfoldable pub last_route : Bytes → List RelayEvent → Option ℕ → Option ℕ
last_route key [] o = o
last_route key (identified c k ∷ es) o = last_route key es (ite (Bytes-discrete k key) (some c) o)
last_route key (received c k p ∷ es) o = last_route key es o
last_route key (ended c k ∷ es) o = last_route key es (ite (Bytes-discrete k key) none o)
