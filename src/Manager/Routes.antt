-- ===== src/Manager/Routes.antt =====
-- `find_best_peer_idx` of src/peer.rs is longest prefix match.
use mesh_vpn.Base.{
  ℕ, zero, suc, ◌+◌, ◌≤◌, ◌<◌, ◌≡◌, refl, ◌∙◌, ap, sym, ◌⊎◌, inl, inr, ◌≢◌, true, ◌&&◌, Option,
  none, some, List, [], ◌∷◌, arith, if◌then◌else◌, ltb, get_elem?, max, Bool-cases, subst, dec_lt,
}
use mesh_vpn.Text.{Ipv4Addr}
use mesh_vpn.Packet.{Ipv4Subnet, contains}
use mesh_vpn.Peer.{Peer}
use mesh_vpn.Manager.{PeerManager, scan_subnets, scan_peers, find_best_peer_idx}

module _ (dst : Ipv4Addr) where
  -- One more than the longest prefix of the subnets that contain the address; 0 if none does.
  score : List Ipv4Subnet → ℕ
  score [] = 0
  score (s ∷ ss) = max (if contains s dst then suc s.prefix_len else 0) (score ss)

  score-ge :
      (ss : List Ipv4Subnet) (k : ℕ) (s : Ipv4Subnet)
      → get_elem? ss k ≡ some s
      → contains s dst ≡ true
      → suc s.prefix_len ≤ score ss
  unfolding score
  score-ge [] k s e h = absurd (cc)
  score-ge (x ∷ xs) zero s e h = ground arith
  score-ge (x ∷ xs) (suc k) s e h = omega (arith, score-ge xs k s e h)

  -- A positive score is that of some subnet.
  score-attained :
      (ss : List Ipv4Subnet)
      → 0 < score ss
      → (k : ℕ) × (s : Ipv4Subnet) × (get_elem? ss k ≡ some s)
        × (contains s dst ≡ true)
        × (suc s.prefix_len ≡ score ss)
  unfolding score
  score-attained [] h = absurd (omega arith)
  score-attained (x ∷ xs) h =
      elim (dec_lt (score xs) (if contains x dst then suc x.prefix_len else 0)) [
        | yes p ↦ (zero, x, refl, ground arith, ground arith)
        | no p ↦
            let (k, s, e, c, q) = score-attained xs (omega arith) in
            (suc k, s, e, c, omega (arith, q))
      ]

  -- The inner loop takes over the index where the score beats the best so far.
  scan_subnets-score :
      (idx : ℕ) (ss : List Ipv4Subnet) (m : Option ℕ) (b : ℕ)
      → scan_subnets dst idx ss (m, b)
        ≡ (if ltb b (score ss) then some idx else m, max b (score ss))
  unfolding scan_subnets score
  scan_subnets-score idx [] m b = ground arith
  scan_subnets-score idx (x ∷ xs) m b =
      elim (Bool-cases (contains x dst && ltb b (suc x.prefix_len))) [
        | inl e ↦ rw e (scan_subnets-score idx xs (some idx) (suc x.prefix_len) ∙ ground arith)
        | inr e ↦ rw e (scan_subnets-score idx xs m b ∙ ground arith)
      ]

module _ {H T : Type 0} (dst : Ipv4Addr) where
  -- What the outer loop over `ps` makes of the index `m` and the best score `b`: either no peer beats
  -- `b`, or `i` is the first of the peers with the highest score.
  record Best (idx : ℕ) (ps : List (Peer H T)) (m : Option ℕ) (b : ℕ) (r : Option ℕ × ℕ)
      : Type 0 where
    grows : b ≤ r.1
    bound : (j : ℕ) (q : Peer H T) → get_elem? ps j ≡ some q → score dst q.allowed_ips ≤ r.1
    choice :
        ((r.0 ≡ m) × (r.1 ≡ b))
        ⊎ ((i : ℕ) × (p : Peer H T) × (r.0 ≡ some (idx + i))
            × (get_elem? ps i ≡ some p)
            × (score dst p.allowed_ips ≡ r.1)
            × (b < r.1)
            × ((j : ℕ) (q : Peer H T)
                → j < i
                → get_elem? ps j ≡ some q
                → score dst q.allowed_ips < r.1))

  same_score :
      (p q : Peer H T) → some p ≡ some q → score dst q.allowed_ips ≡ score dst p.allowed_ips
  same_score p q e = cc

  -- A bound on the scores of all peers, from the first and the rest.
  bound_cons :
      (p : Peer H T) (ps : List (Peer H T)) (top : ℕ)
      → score dst p.allowed_ips ≤ top
      → ((j : ℕ) (q : Peer H T) → get_elem? ps j ≡ some q → score dst q.allowed_ips ≤ top)
      → (j : ℕ) (q : Peer H T) → get_elem? (p ∷ ps) j ≡ some q
      → score dst q.allowed_ips ≤ top
  bound_cons p ps top h rest zero q e = omega (arith, same_score p q e)
  bound_cons p ps top h rest (suc j) q e = rest j q e

  before_cons :
      (p : Peer H T) (ps : List (Peer H T)) (top i : ℕ)
      → score dst p.allowed_ips < top
      → ((j : ℕ) (q : Peer H T) → j < i → get_elem? ps j ≡ some q → score dst q.allowed_ips < top)
      → (j : ℕ) (q : Peer H T) → j < suc i
      → get_elem? (p ∷ ps) j ≡ some q
      → score dst q.allowed_ips < top
  before_cons p ps top i h rest zero q l e = omega (arith, same_score p q e)
  before_cons p ps top i h rest (suc j) q l e = rest j q (omega arith) e

  -- The first peer beats the best so far.
  Best-taken :
      (idx : ℕ) (p : Peer H T) (ps : List (Peer H T)) (m : Option ℕ) (b : ℕ) (r : Option ℕ × ℕ)
      → b < score dst p.allowed_ips
      → Best (idx + 1) ps (some idx) (score dst p.allowed_ips) r
      → Best idx (p ∷ ps) m b r
  Best-taken idx p ps m b r h v = record {
    grows = omega (arith, v.grows);
    bound = bound_cons p ps r.1 v.grows v.bound;
    choice = inr (pick v.choice);
  }
    where
      pick :
          ((r.0 ≡ some idx) × (r.1 ≡ score dst p.allowed_ips))
            ⊎ ((i : ℕ) × (q : Peer H T) × (r.0 ≡ some (idx + 1 + i))
                × (get_elem? ps i ≡ some q)
                × (score dst q.allowed_ips ≡ r.1)
                × (score dst p.allowed_ips < r.1)
                × ((j : ℕ) (q : Peer H T)
                    → j < i
                    → get_elem? ps j ≡ some q
                    → score dst q.allowed_ips < r.1))
          → (i : ℕ) × (q : Peer H T) × (r.0 ≡ some (idx + i))
            × (get_elem? (p ∷ ps) i ≡ some q)
            × (score dst q.allowed_ips ≡ r.1)
            × (b < r.1)
            × ((j : ℕ) (q : Peer H T)
                → j < i
                → get_elem? (p ∷ ps) j ≡ some q
                → score dst q.allowed_ips < r.1)
      pick (inl (e, f)) =
          (zero, p, e ∙ ap some (omega arith), refl, sym f, omega (arith, f), λ j q l g. elim l [ ])
      pick (inr (i, q, e, g, f, l, before)) =
          (suc i, q, e ∙ ap some (omega arith), g, f, omega arith, before_cons p ps r.1 i l before)

  -- The first peer does not.
  Best-passed :
      (idx : ℕ) (p : Peer H T) (ps : List (Peer H T)) (m : Option ℕ) (b : ℕ) (r : Option ℕ × ℕ)
      → ¬ (b < score dst p.allowed_ips)
      → Best (idx + 1) ps m b r
      → Best idx (p ∷ ps) m b r
  Best-passed idx p ps m b r h v = record {
    grows = v.grows;
    bound = bound_cons p ps r.1 (omega (arith, v.grows)) v.bound;
    choice = elim v.choice [
      | inl e ↦ inl e
      | inr (i, q, e, g, f, l, before) ↦ inr (
        suc i,
        q,
        e ∙ ap some (omega arith),
        g,
        f,
        l,
        before_cons p ps r.1 i (omega arith) before,
      )
    ];
  }

  scan_peers-Best :
      (idx : ℕ) (ps : List (Peer H T)) (m : Option ℕ) (b : ℕ)
      → Best idx ps m b (scan_peers dst idx ps (m, b))
  unfolding scan_peers
  scan_peers-Best idx [] m b = record {
    grows = omega arith;
    bound = λ j q e. absurd (cc);
    choice = inl (refl, refl);
  }
  scan_peers-Best idx (p ∷ ps) m b = elim (dec_lt b (score dst p.allowed_ips)) [
    | yes h ↦ Best-taken idx p ps m b _ h (
        subst
          (λ s.
            Best (idx + 1) ps (some idx) (score dst p.allowed_ips) (scan_peers dst (idx + 1) ps s))
          (sym (scan_subnets-score dst idx p.allowed_ips m b ∙ ground arith))
          (scan_peers-Best (idx + 1) ps (some idx) (score dst p.allowed_ips)))
    | no h ↦ Best-passed idx p ps m b _ h (
        subst (λ s. Best (idx + 1) ps m b (scan_peers dst (idx + 1) ps s))
          (sym (scan_subnets-score dst idx p.allowed_ips m b ∙ ground arith))
          (scan_peers-Best (idx + 1) ps m b))
  ]

  -- The peer that is chosen: peer `i` has a subnet with the address, of a prefix at least as long as
  -- that of any subnet of any peer that contains the address, and longer than that of any such subnet
  -- of an earlier peer.
  pub record Routes (ps : List (Peer H T)) (i : ℕ) : Type 0 where
    pub peer : Peer H T
    pub at : get_elem? ps i ≡ some peer
    pub k : ℕ
    pub subnet : Ipv4Subnet
    pub allowed : get_elem? peer.allowed_ips k ≡ some subnet
    pub holds : contains subnet dst ≡ true
    pub longest :
        (j l : ℕ) (q : Peer H T) (other : Ipv4Subnet)
        → get_elem? ps j ≡ some q
        → get_elem? q.allowed_ips l ≡ some other
        → contains other dst ≡ true
        → (other.prefix_len ≤ subnet.prefix_len) × (j < i → other.prefix_len < subnet.prefix_len)

  -- No peer has a subnet with the address.
  abbrev pub Unrouted : List (Peer H T) → Type 0
  Unrouted ps =
      (j l : ℕ) (q : Peer H T) (other : Ipv4Subnet)
      → get_elem? ps j ≡ some q
      → get_elem? q.allowed_ips l ≡ some other
      → contains other dst ≢ true

  no_route :
      (ps : List (Peer H T)) (top : ℕ)
      → top ≡ 0
      → ((j : ℕ) (q : Peer H T) → get_elem? ps j ≡ some q → score dst q.allowed_ips ≤ top)
      → Unrouted ps
  no_route ps top z bound j l q other e f c =
      absurd (omega (arith, bound j q e, score-ge dst q.allowed_ips l other f c))

  a_route :
      (ps : List (Peer H T)) (top i : ℕ) (p : Peer H T)
      → ((j : ℕ) (q : Peer H T) → get_elem? ps j ≡ some q → score dst q.allowed_ips ≤ top)
      → get_elem? ps i ≡ some p
      → score dst p.allowed_ips ≡ top
      → 0 < top
      → ((j : ℕ) (q : Peer H T) → j < i → get_elem? ps j ≡ some q → score dst q.allowed_ips < top)
      → Routes ps i
  a_route ps top i p bound e f pos before =
      let (k, s, a, c, m) = score-attained dst p.allowed_ips (omega (arith, f)) in
      record {
        peer = p;
        at = e;
        k = k;
        subnet = s;
        allowed = a;
        holds = c;
        longest = λ j l q other g h d. (
          omega (arith, bound j q g, score-ge dst q.allowed_ips l other h d),
          λ lt. omega (arith, before j q lt g, score-ge dst q.allowed_ips l other h d),
        );
      }

  -- The search gives an index exactly where some peer has a subnet with the address; then it is the
  -- first of the peers with the longest such prefix.
  pub find_best_peer_idx-Routes :
      (pm : PeerManager H T)
      → ((find_best_peer_idx dst pm ≡ none) × Unrouted pm.peers)
        ⊎ ((i : ℕ) × (find_best_peer_idx dst pm ≡ some i) × Routes pm.peers i)
  unfolding find_best_peer_idx
  find_best_peer_idx-Routes pm =
      let v : Best 0 pm.peers none 0 (scan_peers dst 0 pm.peers (none, 0)) =
        scan_peers-Best 0 pm.peers none 0 in
      elim v.choice [
        | inl (e, f) ↦ inl (e, no_route pm.peers _ f v.bound)
        | inr (i, p, e, g, f, l, before) ↦
            inr (i, e ∙ ap some (omega arith), a_route pm.peers _ i p v.bound g f l before)
      ]
