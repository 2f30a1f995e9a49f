-- ===== src/Daemon/Lookup.antt =====
-- The lookups in the peer table of src/daemon.rs, by address and by key, and the updates of the peer found.
use mesh_vpn.Base.{ℕ, zero, suc, ◌≡◌, some, List, [], ◌∷◌, Bytes, get_elem?, arith, ite}
use mesh_vpn.Net.{SocketAddr, endpoint-discrete, Bytes-discrete}
use mesh_vpn.Peer.{Peer}
use mesh_vpn.Manager.{find_key}
use mesh_vpn.Daemon.State.{find_addr, put_addr, put_key}

module _ {H T : Type 0} (addr : SocketAddr) where
  pub find_addr-listed :
      (ps : List (Peer H T)) (p : Peer H T)
      → find_addr addr ps ≡ some p
      → (i : ℕ) × (get_elem? ps i ≡ some p)
  unfolding find_addr
  find_addr-listed [] p e = absurd (cc)
  find_addr-listed (q ∷ ps) p e = elim (endpoint-discrete q.endpoint (some addr)) [
    | yes h ↦ (zero, ground arith)
    | no h ↦ let (i, f) = find_addr-listed ps p (ground arith) in (suc i, f)
  ]

  pub find_addr-endpoint :
      (ps : List (Peer H T)) (p : Peer H T) → find_addr addr ps ≡ some p → p.endpoint ≡ some addr
  unfolding find_addr
  find_addr-endpoint [] p e = absurd (cc)
  find_addr-endpoint (q ∷ ps) p e = elim (endpoint-discrete q.endpoint (some addr)) [
    | yes h ↦ ground arith
    | no h ↦ find_addr-endpoint ps p (ground arith)
  ]

  -- The peer at the address has become `q`.
  pub find_addr-put_addr :
      (q p : Peer H T) (ps : List (Peer H T))
      → find_addr addr ps ≡ some p
      → q.endpoint ≡ some addr
      → find_addr addr (put_addr addr q ps) ≡ some q
  unfolding find_addr put_addr
  find_addr-put_addr q p [] e h = absurd (cc)
  find_addr-put_addr q p (x ∷ ps) e h = elim (endpoint-discrete x.endpoint (some addr)) [
    | yes y ↦ ground arith
    | no n ↦ ground (arith, find_addr-put_addr q p ps (ground arith) h)
  ]

module _ {H T : Type 0} (key : Bytes) where
  pub find_key-pubkey :
      (ps : List (Peer H T)) (p : Peer H T) → find_key key ps ≡ some p → p.pubkey ≡ key
  unfolding find_key
  find_key-pubkey [] p e = absurd (cc)
  find_key-pubkey (q ∷ ps) p e = elim (Bytes-discrete q.pubkey key) [
    | yes h ↦ ground arith
    | no h ↦ find_key-pubkey ps p (ground arith)
  ]

  -- The peer of the key has become `q`, which keeps its key; the peers of other keys are the same.
  pub find_key-put_key :
      (q p : Peer H T) (ps : List (Peer H T)) (k : Bytes)
      → find_key key ps ≡ some p
      → q.pubkey ≡ key
      → find_key k (put_key key q ps) ≡ ite (Bytes-discrete key k) (some q) (find_key k ps)
  unfolding find_key put_key
  find_key-put_key q p [] k e h = absurd (cc)
  find_key-put_key q p (x ∷ ps) k e h = elim (Bytes-discrete x.pubkey key) [
    | yes y ↦ ground (arith, y, h)
    | no n ↦ elim (Bytes-discrete x.pubkey k) [
      | yes y ↦ ground (arith, y, n)
      | no m ↦ ground (arith, find_key-put_key q p ps k (ground arith) h)
    ]
  ]
