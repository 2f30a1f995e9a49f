-- ===== src/Coordinator/Calls.antt =====
-- The calls of the registry of src/coordinator.rs, and which addresses of its nodes one of them changes.
use mesh_vpn.Base.{
  ℕ, ◌≡◌, refl, ◌∙◌, ap, sym, true, Option, none, some, List, [], ◌∷◌, Bytes, arith, Bool-cases,
  Option-cases, inl, inr, ◌⊎◌, ok, ite,
}
use mesh_vpn.Text.{parse_ipv4, print_ipv4}
use mesh_vpn.Net.{Bytes-discrete}
use mesh_vpn.Coordinator.{
  Registry, Nodes, NodeRecord, updated, polled, fresh_node, Disk, lookup, insert, used_ips, is_used,
  next_free, register, poll, update, allocate, whitelisted,
}

-- What the daemon's clients call.
pub data Call : Type 0 where
  register_call : Bytes → Bytes → Option Bytes → Option Bytes → Call
  poll_call : Bytes → Bytes → Option Bytes → Call

-- The registry after a call; an error leaves what it leaves.
unfoldable pub call : Disk → Call → Registry → Registry
call D (register_call key endpoint hostname observed) r =
    (register D key endpoint hostname observed r).1
call D (poll_call key endpoint observed) r = (poll D key endpoint observed r).1

-- Calls one after the other, each with what the file system does during it.
unfoldable pub calls : List (Disk × Call) → Registry → Registry
calls [] r = r
calls ((D, c) ∷ cs) r = calls cs (call D c r)

-- The address text of a key's node.
abbrev ip_text : Option NodeRecord → Option Bytes
ip_text none = none
ip_text (some n) = some n.allowed_ip

unfoldable pub assigned : Nodes → Bytes → Option Bytes
assigned nodes key = ip_text (lookup key nodes)

pub lookup-insert :
    (key : Bytes) (n : NodeRecord) (nodes : Nodes) (k : Bytes)
    → lookup k (insert key n nodes) ≡ ite (Bytes-discrete key k) (some n) (lookup k nodes)
unfolding lookup insert
lookup-insert key n [] k = refl
lookup-insert key n ((j, m) ∷ nodes) k = ground (arith, lookup-insert key n nodes k)

pub assigned-insert :
    (key : Bytes) (n : NodeRecord) (nodes : Nodes) (k : Bytes)
    → assigned (insert key n nodes) k
      ≡ ite (Bytes-discrete key k) (some n.allowed_ip) (assigned nodes k)
unfolding assigned
assigned-insert key n nodes k = ground (arith, lookup-insert key n nodes k)

-- A write that keeps the address text of the key's node.
pub assigned-rewrite :
    (key : Bytes) (m n : NodeRecord) (nodes : Nodes) (k : Bytes)
    → lookup key nodes ≡ some m
    → n.allowed_ip ≡ m.allowed_ip
    → assigned (insert key n nodes) k ≡ assigned nodes k
unfolding assigned
assigned-rewrite key m n nodes k l e = elim (Bytes-discrete key k) [
  | yes h ↦
      let found = ap (λ j. lookup j nodes) (sym h) ∙ l in
      ground (arith, lookup-insert key n nodes k, found, e)
  | no h ↦ ground (arith, lookup-insert key n nodes k)
]

pub assigned-none :
    (nodes : Nodes) (key : Bytes) → lookup key nodes ≡ none → assigned nodes key ≡ none
unfolding assigned
assigned-none nodes key l = rw l refl

pub is_used-assigned :
    (nodes : Nodes) (k text : Bytes) (ip : ℕ)
    → assigned nodes k ≡ some text
    → parse_ipv4 text ≡ some ip
    → is_used nodes ip ≡ true
unfolding assigned lookup is_used used_ips
is_used-assigned [] k text ip e p = absurd (cc)
is_used-assigned ((j, n) ∷ nodes) k text ip e p = elim (Bytes-discrete j k) [
  | yes h ↦ ground (arith, p)
  | no h ↦
      let rest = is_used-assigned nodes k text ip (ground arith) p in
      elim (Option-cases (parse_ipv4 n.allowed_ip)) [
        | inl o ↦ ground (arith, o, rest)
        | inr (u, o) ↦ ground (arith, o, rest)
      ]
]

-- A call leaves all addresses as they are, or gives the allocator's next one to a key that had none.
unfoldable pub Fresh : Registry → Registry → Type 0
Fresh r r' =
    (key : Bytes) × (ip : ℕ) × (next_free r.allocator (is_used r.nodes) ≡ some ip)
    × (assigned r.nodes key ≡ none)
    × ((k : Bytes)
        → assigned r'.nodes k
          ≡ ite (Bytes-discrete key k) (some (print_ipv4 ip)) (assigned r.nodes k))

unfoldable pub Same : Registry → Registry → Type 0
Same r r' = (k : Bytes) → assigned r'.nodes k ≡ assigned r.nodes k

pub allocator-call : (D : Disk) (c : Call) (r : Registry) → (call D c r).allocator ≡ r.allocator
unfolding call register poll update allocate
allocator-call D (register_call key endpoint hostname observed) r =
    elim (Bool-cases (whitelisted r.whitelist key)) [
      | inr w ↦ ground (arith, w)
      | inl w ↦ elim (Option-cases (lookup key r.nodes)) [
        | inr (n, l) ↦ ground (arith, w, l)
        | inl l ↦ elim (Option-cases (next_free r.allocator (is_used r.nodes))) [
          | inl f ↦ ground (arith, w, l, f)
          | inr (ip, f) ↦ ground (arith, w, l, f)
        ]
      ]
    ]
allocator-call D (poll_call key endpoint observed) r = elim (Option-cases (lookup key r.nodes)) [
  | inl l ↦ ground (arith, l)
  | inr (n, l) ↦ ground (arith, l)
]

pub call-cases : (D : Disk) (c : Call) (r : Registry) → Same r (call D c r) ⊎ Fresh r (call D c r)
unfolding call register poll update allocate Same Fresh
call-cases D (register_call key endpoint hostname observed) r =
    elim (Bool-cases (whitelisted r.whitelist key)) [
      | inr w ↦ inl (λ k. ground (arith, w))
      | inl w ↦ elim (Option-cases (lookup key r.nodes)) [
        | inr (n, l) ↦ inl (λ k. ground (
          arith,
          w,
          l,
          assigned-rewrite key n (updated endpoint hostname observed n) r.nodes k l refl,
        ))
        | inl l ↦ elim (Option-cases (next_free r.allocator (is_used r.nodes))) [
          | inl f ↦ inl (λ k. ground (arith, w, l, f))
          | inr (ip, f) ↦ inr (
            key,
            ip,
            f,
            assigned-none r.nodes key l,
            λ k. ground (
              arith,
              w,
              l,
              f,
              assigned-insert key (fresh_node key ip endpoint hostname observed) r.nodes k,
            ),
          )
        ]
      ]
    ]
call-cases D (poll_call key endpoint observed) r = elim (Option-cases (lookup key r.nodes)) [
  | inl l ↦ inl (λ k. ground (arith, l))
  | inr (n, l) ↦
      inl (λ k.
        ground (arith, l, assigned-rewrite key n (polled endpoint observed n) r.nodes k l refl))
]

-- What `register` returns is the address that the key then has.
pub register-assigned :
    (D : Disk) (key endpoint : Bytes) (hostname observed : Option Bytes) (r : Registry)
    (text : Bytes) (seen : Option Bytes)
    → (register D key endpoint hostname observed r).0 ≡ ok (text, seen)
    → (assigned (register D key endpoint hostname observed r).1.nodes key ≡ some text)
      × (seen ≡ observed)
      × (whitelisted r.whitelist key ≡ true)
unfolding register update allocate
register-assigned D key endpoint hostname observed r text seen e =
    elim (Bool-cases (whitelisted r.whitelist key)) [
      | inr w ↦ absurd (ground (arith, w))
      | inl w ↦ elim (Option-cases (lookup key r.nodes)) [
        | inr (n, l) ↦ (
          ground
              (arith, w, l, assigned-insert key (updated endpoint hostname observed n) r.nodes key),
          ground (arith, w, l),
          w,
        )
        | inl l ↦ elim (Option-cases (next_free r.allocator (is_used r.nodes))) [
          | inl f ↦ absurd (ground (arith, w, l, f))
          | inr (ip, f) ↦ (
            ground (
              arith,
              w,
              l,
              f,
              assigned-insert key (fresh_node key ip endpoint hostname observed) r.nodes key,
            ),
            ground (arith, w, l, f),
            w,
          )
        ]
      ]
    ]
