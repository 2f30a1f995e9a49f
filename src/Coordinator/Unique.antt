-- ===== src/Coordinator/Unique.antt =====
-- The registry of src/coordinator.rs keeps one node for each key, and which keys hold the addresses in use.
use mesh_vpn.Base.{
  List, ℕ, ◌≡◌, refl, ◌∙◌, ap, sym, true, none, some, [], ◌∷◌, Bytes, arith, inl, inr, if_neg,
  Option-cases, Bool-cases, ◌==◌, ==→eq,
}
use mesh_vpn.Text.{parse_ipv4}
use mesh_vpn.Net.{Bytes-discrete}
use mesh_vpn.Coordinator.{
  Registry, NodeRecord, Nodes, Disk, lookup, insert, used_ips, is_used, next_free, register, poll,
  update, allocate, whitelisted, updated, polled, fresh_node,
}
use mesh_vpn.Coordinator.Calls.{
  Call, call, calls, register_call, poll_call, assigned, lookup-insert,
}

-- Each key stands once in the table.
abbrev pub IsUnique : Nodes → Type 0
IsUnique [] = Unit
IsUnique ((k, n) ∷ nodes) = (lookup k nodes ≡ none) × IsUnique nodes

insert-IsUnique :
    (key : Bytes) (n : NodeRecord) (nodes : Nodes) → IsUnique nodes → IsUnique (insert key n nodes)
unfolding lookup insert
insert-IsUnique key n [] u = (refl, tt)
insert-IsUnique key n ((k, m) ∷ nodes) u = elim (Bytes-discrete k key) [
  | yes e ↦ ground (arith, u)
  | no ne ↦
      let rest = insert-IsUnique key n nodes u.1 in
      let other : lookup k (insert key n nodes) ≡ none =
        lookup-insert key n nodes k ∙ if_neg (Bytes-discrete key k) (λ e. ne (sym e)) _ _ ∙ u.0 in
      ground (arith, rest, other)
]

pub call-IsUnique :
    (D : Disk) (c : Call) (r : Registry) → IsUnique r.nodes → IsUnique (call D c r).nodes
unfolding call register poll update allocate
call-IsUnique D (register_call key endpoint hostname observed) r u =
    elim (Bool-cases (whitelisted r.whitelist key)) [
      | inr w ↦ ground (arith, w, u)
      | inl w ↦ elim (Option-cases (lookup key r.nodes)) [
        | inr (n, l) ↦
            ground
              (arith, w, l, insert-IsUnique key (updated endpoint hostname observed n) r.nodes u)
        | inl l ↦ elim (Option-cases (next_free r.allocator (is_used r.nodes))) [
          | inl f ↦ ground (arith, w, l, f, u)
          | inr (ip, f) ↦ ground (
            arith,
            w,
            l,
            f,
            insert-IsUnique key (fresh_node key ip endpoint hostname observed) r.nodes u,
          )
        ]
      ]
    ]
call-IsUnique D (poll_call key endpoint observed) r u = elim (Option-cases (lookup key r.nodes)) [
  | inl l ↦ ground (arith, l, u)
  | inr (n, l) ↦ ground (arith, l, insert-IsUnique key (polled endpoint observed n) r.nodes u)
]

assigned-other :
    (k j : Bytes) (n : NodeRecord) (nodes : Nodes) (text : Bytes)
    → lookup k nodes ≡ none
    → assigned nodes j ≡ some text
    → assigned ((k, n) ∷ nodes) j ≡ some text
unfolding assigned lookup
assigned-other k j n nodes text u e = elim (Bytes-discrete k j) [
  | yes y ↦ absurd (ground (arith, ap (λ x. lookup x nodes) y, u, e))
  | no ne ↦ ground (arith, e)
]

assigned-head :
    (k : Bytes) (n : NodeRecord) (nodes : Nodes) → assigned ((k, n) ∷ nodes) k ≡ some n.allowed_ip
unfolding assigned lookup
assigned-head k n nodes = ground arith

-- An address in use is the address of some key.
pub used-assigned :
    (nodes : Nodes) (j : ℕ)
    → IsUnique nodes
    → is_used nodes j ≡ true
    → (k : Bytes) × (text : Bytes) × (assigned nodes k ≡ some text) × (parse_ipv4 text ≡ some j)
unfolding is_used used_ips
used-assigned [] j u e = absurd (cc)
used-assigned ((k, n) ∷ nodes) j u e = elim (Option-cases (parse_ipv4 n.allowed_ip)) [
  | inl p ↦ later (used-assigned nodes j u.1 (ground (arith, p, e)))
  | inr (ip, p) ↦ elim (Bool-cases (ip == j)) [
    | inl q ↦ (k, n.allowed_ip, own, p ∙ ap some (==→eq ip j q))
    | inr q ↦ later (used-assigned nodes j u.1 (ground (arith, p, q, e)))
  ]
]
  where
    own : assigned ((k, n) ∷ nodes) k ≡ some n.allowed_ip
    own = assigned-head k n nodes

    later :
        (i : Bytes) × (text : Bytes) × (assigned nodes i ≡ some text) × (parse_ipv4 text ≡ some j)
        → (i : Bytes) × (text : Bytes) × (assigned ((k, n) ∷ nodes) i ≡ some text)
          × (parse_ipv4 text ≡ some j)
    later (i, text, f, p) = (i, text, assigned-other k i n nodes text u.0 f, p)

pub calls-IsUnique :
    (cs : List (Disk × Call)) (r : Registry) → IsUnique r.nodes → IsUnique (calls cs r).nodes
unfolding calls
calls-IsUnique [] r u = u
calls-IsUnique ((D, c) ∷ cs) r u = calls-IsUnique cs (call D c r) (call-IsUnique D c r u)
