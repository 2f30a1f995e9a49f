-- ===== src/Daemon/Table.antt =====
-- A property of all peers of the table, under the updates of the handlers of src/daemon.rs and of
-- `sync_peers` of src/peer.rs.
use mesh_vpn.Base.{ℕ, zero, suc, ◌≡◌, some, List, [], ◌∷◌, Bytes, get_elem?, set, arith, subst}
use mathlib.Core.Option.{some-injective}
use mesh_vpn.Net.{SocketAddr, endpoint-discrete, Bytes-discrete}
use mesh_vpn.Config.{ParsedPeer}
use mesh_vpn.Peer.{Peer, MagicConfig}
use mesh_vpn.Manager.{find_key, retain_wanted, upsert, merge, new_peer}
use mesh_vpn.Daemon.State.{find_addr, put_addr, put_key}

-- A property of all wanted peers.
abbrev pub AllWanted : (ParsedPeer → Type 0) → List ParsedPeer → Type 0
AllWanted W [] = Unit
AllWanted W (w ∷ ws) = W w × AllWanted W ws

module _ {H T : Type 0} (Q : Peer H T → Type 0) where
  abbrev pub All : List (Peer H T) → Type 0
  All [] = Unit
  All (p ∷ ps) = Q p × All ps

  pub All-find_addr :
      (addr : SocketAddr) (ps : List (Peer H T)) (p : Peer H T)
      → All ps
      → find_addr addr ps ≡ some p
      → Q p
  unfolding find_addr
  All-find_addr addr [] p a e = absurd (cc)
  All-find_addr addr (q ∷ ps) p a e = elim (endpoint-discrete q.endpoint (some addr)) [
    | yes h ↦ subst Q (some-injective q p (ground arith)) a.0
    | no h ↦ All-find_addr addr ps p a.1 (ground arith)
  ]

  pub All-find_key :
      (key : Bytes) (ps : List (Peer H T)) (p : Peer H T) → All ps → find_key key ps ≡ some p → Q p
  unfolding find_key
  All-find_key key [] p a e = absurd (cc)
  All-find_key key (q ∷ ps) p a e = elim (Bytes-discrete q.pubkey key) [
    | yes h ↦ subst Q (some-injective q p (ground arith)) a.0
    | no h ↦ All-find_key key ps p a.1 (ground arith)
  ]

  pub All-get_elem? :
      (ps : List (Peer H T)) (i : ℕ) (p : Peer H T) → All ps → get_elem? ps i ≡ some p → Q p
  All-get_elem? [] i p a e = absurd (cc)
  All-get_elem? (q ∷ ps) zero p a e = subst Q (some-injective q p e) a.0
  All-get_elem? (q ∷ ps) (suc i) p a e = All-get_elem? ps i p a.1 e

  pub All-set : (ps : List (Peer H T)) (i : ℕ) (q : Peer H T) → All ps → Q q → All (set ps i q)
  All-set [] i q a h = tt
  All-set (p ∷ ps) zero q a h = (h, a.1)
  All-set (p ∷ ps) (suc i) q a h = (a.0, All-set ps i q a.1 h)

  pub All-put_addr :
      (addr : SocketAddr) (q : Peer H T) (ps : List (Peer H T))
      → All ps
      → Q q
      → All (put_addr addr q ps)
  unfolding put_addr
  All-put_addr addr q [] a h = tt
  All-put_addr addr q (p ∷ ps) a h = ground (arith, All-put_addr addr q ps a.1 h)

  pub All-put_key :
      (key : Bytes) (q : Peer H T) (ps : List (Peer H T)) → All ps → Q q → All (put_key key q ps)
  unfolding put_key
  All-put_key key q [] a h = tt
  All-put_key key q (p ∷ ps) a h = ground (arith, All-put_key key q ps a.1 h)

  All-retain_wanted :
      (ws : List ParsedPeer) (ps : List (Peer H T)) → All ps → All (retain_wanted ws ps)
  unfolding retain_wanted
  All-retain_wanted ws [] a = tt
  All-retain_wanted ws (p ∷ ps) a = ground (arith, All-retain_wanted ws ps a.1)

  module _ (W : ParsedPeer → Type 0) where
    -- A property that a new peer has, and that an update of the endpoint and the subnets keeps.
    pub record Carries (now : ℕ) (magic : MagicConfig) : Type 0 where
      pub fresh : (w : ParsedPeer) → W w → Q (new_peer now magic w)
      pub moved :
          (w : ParsedPeer) (p : Peer H T)
          → W w
          → Q p
          → Q (record p { endpoint = w.endpoint; allowed_ips = w.allowed_ips })

    module _ (now : ℕ) (magic : MagicConfig) (c : Carries now magic) where
      All-upsert :
          (w : ParsedPeer) (ps : List (Peer H T)) → W w → All ps → All (upsert now magic w ps)
      unfolding upsert
      All-upsert w [] h a = (c.fresh w h, tt)
      All-upsert w (p ∷ ps) h a = ground (arith, All-upsert w ps h a.1, c.moved w p h a.0)

      All-merge :
          (ws : List ParsedPeer) (ps : List (Peer H T))
          → AllWanted W ws
          → All ps
          → All (merge now magic ws ps).1
      unfolding merge
      All-merge [] ps h a = a
      All-merge (w ∷ ws) ps h a = All-merge ws (upsert now magic w ps) h.1 (All-upsert w ps h.0 a)

      pub All-sync :
          (ws : List ParsedPeer)
          → AllWanted W ws
          → (ps : List (Peer H T)) → All ps
          → All (merge now magic ws (retain_wanted ws ps)).1
      All-sync ws h ps a = All-merge ws (retain_wanted ws ps) h (All-retain_wanted ws ps a)
