-- ===== src/Manager/Sync.antt =====
-- What reconciliation leaves in the peer table of src/peer.rs, read by key.
use mesh_vpn.Base.{
  ℕ, ◌≡◌, refl, ◌∙◌, ap, sym, Bool, true, false, Option, none, some, List, [], ◌∷◌, Bytes, arith,
  if◌then◌else◌, ite, if_pos, if_neg,
}
use mesh_vpn.Net.{Bytes-discrete, Parsers}
use mesh_vpn.Config.{PeerDescriptor, ParsedPeer}
use mesh_vpn.Peer
use mesh_vpn.Peer.{Peer, MagicConfig}
use mesh_vpn.Manager.{
  PeerManager, is_wanted, retain_wanted, find_key, new_peer, upsert, merge, sync_peers,
  parse_wanted,
}

abbrev or_last : ParsedPeer → Bytes → Option ParsedPeer → Option ParsedPeer
or_last w key (some v) = some v
or_last w key none = ite (Bytes-discrete w.pubkey key) (some w) none

-- The last of the wanted peers with a key.
unfoldable pub last_wanted : Bytes → List ParsedPeer → Option ParsedPeer
last_wanted key [] = none
last_wanted key (w ∷ ws) = or_last w key (last_wanted key ws)

last_wanted-pubkey :
    (key : Bytes) (ws : List ParsedPeer) (w : ParsedPeer)
    → last_wanted key ws ≡ some w
    → w.pubkey ≡ key
unfolding last_wanted
last_wanted-pubkey key [] w h = absurd (cc)
last_wanted-pubkey key (v ∷ ws) w h = ground (arith, last_wanted-pubkey key ws w)

module _ {H T : Type 0} (now : ℕ) (magic : MagicConfig) where
  -- A wanted peer takes over all that a known peer with its key has but the endpoint and the subnets.
  abbrev pub adopt : ParsedPeer → Option (Peer H T) → Peer H T
  adopt w none = new_peer now magic w
  adopt w (some p) = record p { endpoint = w.endpoint; allowed_ips = w.allowed_ips }

  find_key-upsert :
      (key : Bytes) (w : ParsedPeer) (ps : List (Peer H T))
      → find_key key (upsert now magic w ps)
        ≡ ite (Bytes-discrete w.pubkey key) (some (adopt w (find_key key ps))) (find_key key ps)
  unfolding find_key upsert Peer.new
  find_key-upsert key w [] = refl
  find_key-upsert key w (p ∷ ps) = ground (arith, find_key-upsert key w ps)

  adopt-adopt :
      (v w : ParsedPeer) (o : Option (Peer H T))
      → v.pubkey ≡ w.pubkey
      → adopt v (some (adopt w o)) ≡ adopt v o
  unfolding Peer.new
  adopt-adopt v w none e = ground arith
  adopt-adopt v w (some p) e = refl

  -- The table after the loop, at each key: the last wanted peer with the key decides.
  abbrev pub merged : Option ParsedPeer → Option (Peer H T) → Option (Peer H T)
  merged none o = o
  merged (some w) o = some (adopt w o)

  merged-ite :
      (key : Bytes) (w : ParsedPeer) (l : Option ParsedPeer) (o : Option (Peer H T))
      → ((v : ParsedPeer) → l ≡ some v → v.pubkey ≡ key)
      → merged l (ite (Bytes-discrete w.pubkey key) (some (adopt w o)) o)
        ≡ merged (or_last w key l) o
  merged-ite key w none o h = elim (Bytes-discrete w.pubkey key) [
    | yes e ↦ rw (if_pos (Bytes-discrete w.pubkey key) e, if_pos (Bytes-discrete w.pubkey key) e)
    | no ne ↦ rw (if_neg (Bytes-discrete w.pubkey key) ne, if_neg (Bytes-discrete w.pubkey key) ne)
  ]
  merged-ite key w (some v) o h = elim (Bytes-discrete w.pubkey key) [
    | yes e ↦
        rw (if_pos (Bytes-discrete w.pubkey key) e) (ap some (adopt-adopt v w o (h v refl ∙ sym e)))
    | no ne ↦ rw (if_neg (Bytes-discrete w.pubkey key) ne)
  ]

  find_key-merge :
      (key : Bytes) (ws : List ParsedPeer) (ps : List (Peer H T))
      → find_key key (merge now magic ws ps).1 ≡ merged (last_wanted key ws) (find_key key ps)
  unfolding merge last_wanted
  find_key-merge key [] ps = refl
  find_key-merge key (w ∷ ws) ps =
      find_key-merge key ws (upsert now magic w ps)
      ∙ ap (merged (last_wanted key ws)) (find_key-upsert key w ps)
      ∙ merged-ite key w (last_wanted key ws) (find_key key ps) (last_wanted-pubkey key ws)

-- A key is wanted exactly if it has a last wanted peer.
abbrev found : Option ParsedPeer → Bool
found none = false
found (some w) = true

is_wanted-last_wanted :
    (key : Bytes) (ws : List ParsedPeer) → is_wanted ws key ≡ found (last_wanted key ws)
unfolding is_wanted last_wanted
is_wanted-last_wanted key [] = refl
is_wanted-last_wanted key (w ∷ ws) = ground (arith, is_wanted-last_wanted key ws)

pub find_key-retain_wanted :
    {H T : Type 0} (key : Bytes) (ws : List ParsedPeer) (ps : List (Peer H T))
    → find_key key (retain_wanted ws ps) ≡ (if is_wanted ws key then find_key key ps else none)
unfolding find_key retain_wanted
find_key-retain_wanted key ws [] = ground arith
find_key-retain_wanted key ws (p ∷ ps) = elim (Bytes-discrete p.pubkey key) [
  | yes e ↦ ground (arith, find_key-retain_wanted key ws ps, ap (is_wanted ws) e)
  | no ne ↦ ground (arith, find_key-retain_wanted key ws ps)
]

-- After reconciliation a key that no descriptor names, or only ones that do not parse, has no peer. A
-- key that some descriptor names has the endpoint and the subnets of the last such descriptor, and all
-- else - sessions, handshake, timestamps - as the table had it before, or fresh if it had none.
pub find_key-sync_peers :
    {H T : Type 0} (P : Parsers) (now : ℕ) (ds : List PeerDescriptor) (pm : PeerManager H T)
    (key : Bytes)
    → find_key key (sync_peers P now ds pm).1.peers ≡ elim (last_wanted key (parse_wanted P ds)) [
      | none ↦ none
      | some w ↦ some (adopt now pm.magic w (find_key key pm.peers))
    ]
unfolding sync_peers
find_key-sync_peers P now ds pm key =
    let ws : List ParsedPeer = parse_wanted P ds in
    find_key-merge now pm.magic key ws (retain_wanted ws pm.peers)
    ∙ ground (arith, find_key-retain_wanted key ws pm.peers, is_wanted-last_wanted key ws)
