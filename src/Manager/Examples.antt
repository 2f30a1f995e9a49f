-- ===== src/Manager/Examples.antt =====
-- The theorems on the peer table of src/peer.rs at concrete inputs.
use mesh_vpn.Base.{ℕ, ◌≡◌, ◌⊎◌, none, some, List, [], ◌∷◌, replicate}
use mesh_vpn.Net.Plain.{their_key, plain_parsers}
use mesh_vpn.Config.{PeerDescriptor}
use mesh_vpn.Peer
use mesh_vpn.Peer.{Peer, default_magic}
use mesh_vpn.Manager
use mesh_vpn.Manager.{PeerManager, find_best_peer_idx, find_key, sync_peers, parse_wanted}
use mesh_vpn.Manager.Routes.{Routes, Unrouted, find_best_peer_idx-Routes}
use mesh_vpn.Manager.Sync.{last_wanted, adopt, find_key-sync_peers}

-- 10.0.0.0/8 at the first peer, 10.0.99.0/24 at the second.
abbrev wide : Peer ℕ ℕ
wide = Peer.new 0 their_key none (record { addr = 167772160; prefix_len = 8 } ∷ [])

abbrev narrow : Peer ℕ ℕ
narrow = Peer.new 0 (replicate 32 7) none (record { addr = 167797504; prefix_len = 24 } ∷ [])

abbrev table : PeerManager ℕ ℕ
table = Manager.new [] (wide ∷ narrow ∷ []) default_magic

find_best_peer_idx-Routes_example :
    ((find_best_peer_idx 167797506 table ≡ none) × Unrouted 167797506 table.peers)
    ⊎ ((i : ℕ) × (find_best_peer_idx 167797506 table ≡ some i) × Routes 167797506 table.peers i)
find_best_peer_idx-Routes_example = find_best_peer_idx-Routes 167797506 table

-- The descriptor of the second peer with another address, and no endpoint.
abbrev descriptors : List PeerDescriptor
descriptors =
    record {
      public_key = replicate 32 7;
      allowed_ip = b'8' ∷ b'.' ∷ b'8' ∷ b'.' ∷ b'8' ∷ b'.' ∷ b'8' ∷ [];
      endpoint = none;
    }
    ∷ []

find_key-sync_peers_example :
    find_key (replicate 32 7) (sync_peers plain_parsers 9 descriptors table).1.peers
    ≡ elim (last_wanted (replicate 32 7) (parse_wanted plain_parsers descriptors)) [
      | none ↦ none
      | some w ↦ some (adopt 9 table.magic w (find_key (replicate 32 7) table.peers))
    ]
find_key-sync_peers_example = find_key-sync_peers plain_parsers 9 descriptors table (replicate 32 7)
