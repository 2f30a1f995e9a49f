-- ===== src/Daemon/Mesh.antt =====
-- A daemon of src/daemon.rs that has joined the network routes to the nodes of the coordinator's registry.
use mesh_vpn.Base.{
  ℕ, zero, suc, ◌<◌, ◌≡◌, ◌≢◌, ◌∙◌, ap, sym, none, some, List, [], ◌∷◌, Bytes, ok, err, get_elem?,
  arith, inl, inr, ◌⊎◌, u32_mod, Result,
}
use mathlib.Core.Option.{some-injective}
use mesh_vpn.Text.{split, print_ipv4}
use mesh_vpn.Net.{Parsers, Bytes-discrete}
use mesh_vpn.Packet.{Ipv4Subnet, Result-cases}
use mesh_vpn.Config.{PeerDescriptor, ParsedPeer, PeerError, to_spec, parse_peer_arg, parse_subnets}
use mesh_vpn.Config.Spec.{parse_peer_arg-to_spec}
use mesh_vpn.Config.Address.{only, parse_subnets-print_ipv4}
use mesh_vpn.Coordinator.{Nodes, NodeRecord, lookup, peers_for}
use mesh_vpn.Coordinator.Unique.{IsUnique}
use mesh_vpn.Peer.{Peer}
use mesh_vpn.Daemon.Setup.{coordinator_peers, peer_of}

-- The descriptor that the coordinator makes of a node.
abbrev pub descriptor_of : NodeRecord → PeerDescriptor
descriptor_of n = record {
  public_key = n.public_key;
  allowed_ip = n.allowed_ip;
  endpoint = n.endpoint;
}

-- A node with an address text parses to the subnet of that address.
pub descriptor-only :
    (P : Parsers) (n : NodeRecord) (w : ParsedPeer) (ip : ℕ)
    → parse_peer_arg P (to_spec (descriptor_of n)) ≡ ok w
    → n.allowed_ip ≡ print_ipv4 ip
    → ip < u32_mod
    → w.allowed_ips ≡ only ip ∷ []
descriptor-only P n w ip e t h =
    let (clean, reads) = (parse_peer_arg-to_spec P (descriptor_of n) w).0 e in
    ok-injective (
      sym reads.allowed_ips
      ∙ ap (λ s. parse_subnets P (split b',' s)) t
      ∙ parse_subnets-print_ipv4 P ip h)
  where
    ok-injective :
        {a b : List Ipv4Subnet} → Path (Result (List Ipv4Subnet) PeerError) (ok a) (ok b) → a ≡ b
    ok-injective e = cc

lookup-later :
    (k j : Bytes) (n m : NodeRecord) (nodes : Nodes)
    → lookup k nodes ≡ none
    → lookup j nodes ≡ some m
    → lookup j ((k, n) ∷ nodes) ≡ some m
unfolding lookup
lookup-later k j n m nodes u e = elim (Bytes-discrete k j) [
  | yes y ↦ absurd (cc (ap (λ x. lookup x nodes) y, u, e))
  | no ne ↦ ground (arith, e)
]

lookup-head : (k : Bytes) (n : NodeRecord) (nodes : Nodes) → lookup k ((k, n) ∷ nodes) ≡ some n
unfolding lookup
lookup-head k n nodes = ground arith

get_elem?-cons {ℓ} :
    {A : Type ℓ} (x : A) (xs : List A) (i : ℕ) (y : A)
    → get_elem? (x ∷ xs) i ≡ some y
    → (x ≡ y) ⊎ ((j : ℕ) × (get_elem? xs j ≡ some y))
get_elem?-cons x xs zero y e = inl (some-injective x y e)
get_elem?-cons x xs (suc i) y e = inr (i, e)

module _ {H T : Type 0} (P : Parsers) (now : ℕ) (own : Bytes) where
  -- The peer at a place of the table is that of a node.
  pub record Comes (nodes : Nodes) (q : Peer H T) : Type 0 where
    pub key : Bytes
    pub node : NodeRecord
    pub parsed : ParsedPeer
    pub listed : lookup key nodes ≡ some node
    pub parses : parse_peer_arg P (to_spec (descriptor_of node)) ≡ ok parsed
    pub same : q ≡ peer_of P now parsed

  -- The peers that a list of nodes gives the daemon.
  abbrev pub table : Nodes → List (Peer H T)
  table nodes = coordinator_peers P now (peers_for own nodes)

  table-skip :
      (k : Bytes) (n : NodeRecord) (nodes : Nodes)
      → (n.public_key ≡ own)
        ⊎ ((x : PeerError) × (parse_peer_arg P (to_spec (descriptor_of n)) ≡ err x))
      → table ((k, n) ∷ nodes) ≡ table nodes
  unfolding peers_for coordinator_peers
  table-skip k n nodes (inl y) = ground (arith, y)
  table-skip k n nodes (inr (x, f)) = ground (arith, f)

  table-cons :
      (k : Bytes) (n : NodeRecord) (nodes : Nodes) (w : ParsedPeer)
      → n.public_key ≢ own
      → parse_peer_arg P (to_spec (descriptor_of n)) ≡ ok w
      → table ((k, n) ∷ nodes) ≡ peer_of P now w ∷ table nodes
  unfolding peers_for coordinator_peers
  table-cons k n nodes w ne f = ground (arith, ne, f)

  Comes-later :
      (k : Bytes) (n : NodeRecord) (nodes : Nodes) (q : Peer H T)
      → lookup k nodes ≡ none
      → Comes nodes q
      → Comes ((k, n) ∷ nodes) q
  Comes-later k n nodes q u c = record {
    key = c.key;
    node = c.node;
    parsed = c.parsed;
    listed = lookup-later k c.key n c.node nodes u c.listed;
    parses = c.parses;
    same = c.same;
  }

  pub table-Comes :
      (nodes : Nodes) (i : ℕ) (q : Peer H T)
      → IsUnique nodes
      → get_elem? (table nodes) i ≡ some q
      → Comes nodes q
  unfolding peers_for coordinator_peers
  table-Comes [] i q u e = absurd (cc)
  table-Comes ((k, n) ∷ nodes) i q u e = elim (Bytes-discrete n.public_key own) [
    | yes y ↦ Comes-later k n nodes q u.0 (
        table-Comes nodes i q u.1
          (ap (λ ps. get_elem? ps i) (sym (table-skip k n nodes (inl y))) ∙ e))
    | no ne ↦ elim (Result-cases (parse_peer_arg P (to_spec (descriptor_of n)))) [
      | inl x ↦ Comes-later k n nodes q u.0 (
          table-Comes nodes i q u.1
            (ap (λ ps. get_elem? ps i) (sym (table-skip k n nodes (inr x))) ∙ e))
      | inr (w, f) ↦
          elim (get_elem?-cons (peer_of P now w) (table nodes) i q
            (ap (λ ps. get_elem? ps i) (sym (table-cons k n nodes w ne f)) ∙ e)) [
              | inl h ↦ record {
                key = k;
                node = n;
                parsed = w;
                listed = lookup-head k n nodes;
                parses = f;
                same = sym h;
              }
              | inr (j, h) ↦ Comes-later k n nodes q u.0 (table-Comes nodes j q u.1 h)
            ]
    ]
  ]

  pub table-has :
      (nodes : Nodes) (key : Bytes) (n : NodeRecord) (w : ParsedPeer)
      → lookup key nodes ≡ some n
      → n.public_key ≢ own
      → parse_peer_arg P (to_spec (descriptor_of n)) ≡ ok w
      → (i : ℕ) × (get_elem? (table nodes) i ≡ some (peer_of P now w))
  unfolding lookup
  table-has [] key n w l ne f = absurd (cc)
  table-has ((k, m) ∷ nodes) key n w l ne f = elim (Bytes-discrete k key) [
    | yes y ↦
        let same : m ≡ n = some-injective m n (ground (arith, y, l)) in
        (
          0,
          ap (λ ps. get_elem? ps 0)
              (table-cons k m nodes w (λ h. ne (ap (λ x. x.public_key) (sym same) ∙ h))
                (ap (λ x. parse_peer_arg P (to_spec (descriptor_of x))) same ∙ f)),
        )
    | no z ↦
        let (i, e) = table-has nodes key n w (ground (arith, z, l)) ne f in
        elim (Bytes-discrete m.public_key own) [
          | yes y ↦ (i, ap (λ ps. get_elem? ps i) (table-skip k m nodes (inl y)) ∙ e)
          | no o ↦ elim (Result-cases (parse_peer_arg P (to_spec (descriptor_of m)))) [
            | inl x ↦ (i, ap (λ ps. get_elem? ps i) (table-skip k m nodes (inr x)) ∙ e)
            | inr (v, g) ↦ (suc i, ap (λ ps. get_elem? ps (suc i)) (table-cons k m nodes v o g) ∙ e)
          ]
        ]
  ]
