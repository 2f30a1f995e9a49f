-- ===== src/Daemon/Punch.antt =====
-- The bursts of src/nat.rs that a polling round of src/daemon.rs begins.
use mesh_vpn.Base.{
  ℕ, ◌≡◌, refl, ◌∙◌, ap, ap₂, sym, Bool, true, false, Option, none, some, List, [], ◌∷◌, ◌++◌,
  Bytes, map, arith, ite, Option-cases, inl, inr, if◌then◌else◌,
}
use mesh_vpn.Net.{SocketAddr, Parsers, Bytes-discrete}
use mesh_vpn.Config.{ParsedPeer}
use mesh_vpn.Coordinatord.{PollResponse}
use mesh_vpn.Peer.{Peer, MagicConfig, is_some}
use mesh_vpn.Peer
use mesh_vpn.Manager.{
  sync_peers, parse_wanted, is_wanted, retain_wanted, find_key, reported, merge, upsert,
}
use mesh_vpn.Manager.Sync.{find_key-retain_wanted}
use mesh_vpn.Nat.{NatStep, send_to, sleep_ms, burst, punch_hole}
use mesh_vpn.Daemon.State.{Shared}
use mesh_vpn.Daemon.Poll.{on_poll_response}

-- Whether a key is among the known ones.
unfoldable pub knows : Bytes → List Bytes → Bool
knows key [] = false
knows key (k ∷ ks) = ite (Bytes-discrete k key) true (knows key ks)

abbrev pub endpoint_list : Option SocketAddr → List SocketAddr
endpoint_list none = []
endpoint_list (some ep) = ep ∷ []

-- The addresses of the peers that come in, in order: those whose key is not known and stands in no
-- earlier descriptor.
unfoldable pub newcomers : List Bytes → List ParsedPeer → List SocketAddr
unfolding knows
newcomers known [] = []
newcomers known (w ∷ ws) =
    (if knows w.pubkey known then [] else endpoint_list w.endpoint)
    ++ newcomers (w.pubkey ∷ known) ws

-- Three probes of one byte to one address, 200 milliseconds apart.
abbrev pub three_probes : ℕ → SocketAddr → List NatStep
three_probes b ep =
    send_to (b ∷ []) ep
    ∷ sleep_ms 200
    ∷ send_to (b ∷ []) ep
    ∷ sleep_ms 200
    ∷ send_to (b ∷ []) ep
    ∷ []

map-punch_hole :
    (b : ℕ) (eps : List SocketAddr) → map (λ ep. punch_hole ep b) eps ≡ map (three_probes b) eps
unfolding punch_hole burst
map-punch_hole b [] = refl
map-punch_hole b (ep ∷ eps) = ap (λ steps. three_probes b ep ∷ steps) (map-punch_hole b eps)

first_wanted : (w : ParsedPeer) (ws : List ParsedPeer) → is_wanted (w ∷ ws) w.pubkey ≡ true
unfolding is_wanted
first_wanted w ws = ground arith

module _ {H T : Type 0} where
  -- The known keys are those of the table, as far as they are wanted.
  abbrev Agrees : List Bytes → List ParsedPeer → List (Peer H T) → Type 0
  Agrees known ws ps =
      (key : Bytes) → is_wanted ws key ≡ true → knows key known ≡ is_some (find_key key ps)

  is_some-upsert :
      (now : ℕ) (magic : MagicConfig) (w : ParsedPeer) (key : Bytes) (ps : List (Peer H T))
      → is_some (find_key key (upsert now magic w ps))
        ≡ ite (Bytes-discrete w.pubkey key) true (is_some (find_key key ps))
  unfolding find_key upsert Peer.new
  is_some-upsert now magic w key [] = ground arith
  is_some-upsert now magic w key (p ∷ ps) = ground (arith, is_some-upsert now magic w key ps)

  reported-knows :
      (w : ParsedPeer) (known : List Bytes) (ps : List (Peer H T))
      → knows w.pubkey known ≡ is_some (find_key w.pubkey ps)
      → reported w ps ≡ (if knows w.pubkey known then [] else endpoint_list w.endpoint)
  unfolding reported
  reported-knows w known ps h = elim (Option-cases (find_key w.pubkey ps)) [
    | inr (p, f) ↦ ground (arith, h, f)
    | inl f ↦ elim (Option-cases w.endpoint) [
      | inl e ↦ ground (arith, h, f, e)
      | inr (ep, e) ↦ ground (arith, h, f, e)
    ]
  ]

  knows-upsert :
      (now : ℕ) (magic : MagicConfig) (w : ParsedPeer) (ws : List ParsedPeer) (known : List Bytes)
      (ps : List (Peer H T)) (key : Bytes)
      → is_wanted ws key ≡ true
      → Agrees known (w ∷ ws) ps
      → knows key (w.pubkey ∷ known) ≡ is_some (find_key key (upsert now magic w ps))
  unfolding is_wanted knows
  knows-upsert now magic w ws known ps key k a = elim (Bytes-discrete w.pubkey key) [
    | yes e ↦ ground (arith, e, is_some-upsert now magic w key ps)
    | no n ↦
        let before : knows key known ≡ is_some (find_key key ps) = a key (ground (arith, n, k)) in
        ground (arith, n, before, is_some-upsert now magic w key ps)
  ]

  knows-find_key :
      (key : Bytes) (ps : List (Peer H T))
      → knows key (map (λ (p : Peer H T). p.pubkey) ps) ≡ is_some (find_key key ps)
  unfolding knows find_key
  knows-find_key key [] = refl
  knows-find_key key (p ∷ ps) = ground (arith, knows-find_key key ps)

  retained-Agrees :
      (ws : List ParsedPeer) (ps : List (Peer H T))
      → Agrees (map (λ (p : Peer H T). p.pubkey) ps) ws (retain_wanted ws ps)
  retained-Agrees ws ps key k =
      knows-find_key key ps
      ∙ ap is_some
          (sym (find_key-retain_wanted key ws ps ∙ ap (λ b. if b then find_key key ps else none) k))

  merge-newcomers :
      (now : ℕ) (magic : MagicConfig) (ws : List ParsedPeer) (known : List Bytes)
      (ps : List (Peer H T))
      → Agrees known ws ps
      → (merge now magic ws ps).0 ≡ newcomers known ws
  unfolding merge newcomers
  merge-newcomers now magic [] known ps a = refl
  merge-newcomers now magic (w ∷ ws) known ps a =
      ap₂ (λ xs ys. xs ++ ys) (reported-knows w known ps (a w.pubkey own))
        (merge-newcomers now magic ws (w.pubkey ∷ known) (upsert now magic w ps) after)
    where
      own : is_wanted (w ∷ ws) w.pubkey ≡ true
      own = first_wanted w ws

      after : Agrees (w.pubkey ∷ known) ws (upsert now magic w ps)
      after key k = knows-upsert now magic w ws known ps key k a

module _ {H T : Type 0} (P : Parsers) where
  -- A polling round begins one burst for each peer that comes in with an address, in the order of the
  -- response: three datagrams of the daemon's probe byte to that address, with a pause of 200
  -- milliseconds between them. A peer whose key the table had, or an earlier descriptor named, is not
  -- probed again, and without a response nobody is.
  pub on_poll_response-probes :
      (now : ℕ) (resp : Option PollResponse) (s : Shared H T)
      → (on_poll_response P now resp s).0 ≡ elim resp [
        | none ↦ []
        | some r ↦
            map (three_probes s.manager.magic.probe) (
              newcomers (map (λ (p : Peer H T). p.pubkey) s.manager.peers) (parse_wanted P r.peers))
      ]
  unfolding on_poll_response sync_peers
  on_poll_response-probes now none s = refl
  on_poll_response-probes now (some r) s =
      let ws : List ParsedPeer = parse_wanted P r.peers in
      map-punch_hole s.manager.magic.probe _
      ∙ ap (map (three_probes s.manager.magic.probe)) (
          merge-newcomers now s.manager.magic ws _ (retain_wanted ws s.manager.peers)
            (retained-Agrees ws s.manager.peers))
