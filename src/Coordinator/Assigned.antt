-- ===== src/Coordinator/Assigned.antt =====
-- The addresses that the registry of src/coordinator.rs has given to its nodes, over any calls.
use mathlib.Core.Option.{some-injective}
use mesh_vpn.Base.{
  ℕ, ◌≤◌, ◌<◌, ◌≡◌, refl, ◌∙◌, ap, sym, subst, false, some, List, [], ◌∷◌, Bytes, u32_mod, arith,
  inl, inr, ok, if_pos, if_neg, ◌≢◌,
}
use mesh_vpn.Text.{parse_ipv4, print_ipv4}
use mesh_vpn.Text.RoundTrip.{parse_ipv4-print_ipv4}
use mesh_vpn.Net.{Bytes-discrete}
use mesh_vpn.Packet.{Result-cases}
use mesh_vpn.Coordinator.{Registry, Disk, lookup, is_used, new, new_allocator}
use mesh_vpn.Coordinator.Pool.{IsBlock, IsHost, next_free-IsHost, new_allocator-IsBlock}
use mesh_vpn.Coordinator.Calls.{
  Call, call, calls, assigned, Same, Fresh, call-cases, allocator-call, is_used-assigned,
}

-- Every node has a host address of the pool, and no two keys have the same.
pub record IsValid (r : Registry) : Type 0 where
  pub hosts :
      (key text : Bytes)
      → assigned r.nodes key ≡ some text
      → (ip : ℕ) × (text ≡ print_ipv4 ip) × (ip < u32_mod) × IsHost r.allocator ip
  pub distinct :
      (j k text : Bytes) → assigned r.nodes j ≡ some text → assigned r.nodes k ≡ some text → j ≡ k

Same-IsValid : (r r' : Registry) → r'.allocator ≡ r.allocator → Same r r' → IsValid r → IsValid r'
unfolding Same
Same-IsValid r r' a s v = record {
  hosts = λ key text e.
      subst (λ b. (ip : ℕ) × (text ≡ print_ipv4 ip) × (ip < u32_mod) × IsHost b ip) (sym a)
        (v.hosts key text (sym (s key) ∙ e));
  distinct = λ j k text p q. v.distinct j k text (sym (s j) ∙ p) (sym (s k) ∙ q);
}

Fresh-IsValid :
    (r r' : Registry)
    → 1 ≤ r.allocator.prefix
    → IsBlock r.allocator
    → r'.allocator ≡ r.allocator
    → Fresh r r'
    → IsValid r
    → IsValid r'
unfolding Fresh
Fresh-IsValid r r' h b a (key, ip, f, n, u) v = record {
  hosts = λ k text e. elim (Bytes-discrete key k) [
    | yes y ↦ (
      ip,
      some-injective text (print_ipv4 ip) (sym e ∙ u k ∙ if_pos (Bytes-discrete key k) y _ _),
      below,
      subst (λ x. IsHost x ip) (sym a) host,
    )
    | no y ↦
        let (i, t, l, g) = v.hosts k text (old k text y e) in
        (i, t, l, subst (λ x. IsHost x i) (sym a) g)
  ];
  distinct = λ j k text p q. elim (Bytes-discrete key j) [
    | yes y ↦ elim (Bytes-discrete key k) [
      | yes z ↦ sym y ∙ z
      | no z ↦ absurd (taken k text (new_text j text y p) (old k text z q))
    ]
    | no y ↦ elim (Bytes-discrete key k) [
      | yes z ↦ absurd (taken j text (new_text k text z q) (old j text y p))
      | no z ↦ v.distinct j k text (old j text y p) (old k text z q)
    ]
  ];
}
  where
    host : IsHost r.allocator ip
    host = (next_free-IsHost r.allocator (is_used r.nodes) ip h b f).0

    unused : is_used r.nodes ip ≡ false
    unused = (next_free-IsHost r.allocator (is_used r.nodes) ip h b f).1

    below : ip < u32_mod
    below = omega (arith, host.1, b.aligned, b.fits)

    old :
        (k text : Bytes)
        → key ≢ k
        → assigned r'.nodes k ≡ some text
        → assigned r.nodes k ≡ some text
    old k text y e = sym (u k ∙ if_neg (Bytes-discrete key k) y _ _) ∙ e

    new_text : (k text : Bytes) → key ≡ k → assigned r'.nodes k ≡ some text → text ≡ print_ipv4 ip
    new_text k text y e =
        some-injective text (print_ipv4 ip) (sym e ∙ u k ∙ if_pos (Bytes-discrete key k) y _ _)

    taken : (k text : Bytes) → text ≡ print_ipv4 ip → assigned r.nodes k ≡ some text → ⊥
    taken k text t e =
        let used =
          is_used-assigned r.nodes k text ip e (ap parse_ipv4 t ∙ parse_ipv4-print_ipv4 ip below) in
        absurd (cc (used, unused))

pub call-IsValid :
    (D : Disk) (c : Call) (r : Registry)
    → 1 ≤ r.allocator.prefix
    → IsBlock r.allocator
    → IsValid r
    → IsValid (call D c r)
call-IsValid D c r h b v = elim (call-cases D c r) [
  | inl s ↦ Same-IsValid r (call D c r) (allocator-call D c r) s v
  | inr f ↦ Fresh-IsValid r (call D c r) h b (allocator-call D c r) f v
]

calls-IsValid_from :
    (cs : List (Disk × Call)) (r : Registry)
    → 1 ≤ r.allocator.prefix
    → IsBlock r.allocator
    → IsValid r
    → IsValid (calls cs r)
unfolding calls
calls-IsValid_from [] r h b v = v
calls-IsValid_from ((D, c) ∷ cs) r h b v =
    let a = allocator-call D c r in
    calls-IsValid_from cs (call D c r) (subst (λ x. 1 ≤ x.prefix) (sym a) h)
      (subst IsBlock (sym a) b) (call-IsValid D c r h b v)

pub new-cases :
    (cidr : Bytes) (r : Registry)
    → new cidr ≡ ok r
    → (new_allocator cidr ≡ ok r.allocator) × (r.nodes ≡ [])
unfolding new
new-cases cidr r e = elim (Result-cases (new_allocator cidr)) [
  | inl (x, a) ↦ absurd (ground (arith, a))
  | inr (b, a) ↦ (ground (arith, a), ground (arith, a))
]

pub allocator-calls :
    (cs : List (Disk × Call)) (r : Registry) → (calls cs r).allocator ≡ r.allocator
unfolding calls
allocator-calls [] r = refl
allocator-calls ((D, c) ∷ cs) r = allocator-calls cs (call D c r) ∙ allocator-call D c r

pub empty-IsValid : (r : Registry) → r.nodes ≡ [] → IsValid r
unfolding assigned lookup
empty-IsValid r n = record {
  hosts = λ key text f. absurd (ground (arith, n, f));
  distinct = λ j k text p q. absurd (ground (arith, n, p));
}

-- From an empty registry over a CIDR block with a prefix length of at least 1, after any calls of
-- `register` and `poll`, the successful and the refused ones and those whose state file was not
-- written, every node has a host address of the block, in the text form of the address, and no two
-- keys have the same address.
pub calls-IsValid :
    (cidr : Bytes) (r : Registry) (cs : List (Disk × Call))
    → new cidr ≡ ok r
    → 1 ≤ r.allocator.prefix
    → IsValid (calls cs r)
calls-IsValid cidr r cs e h =
    let (a, n) = new-cases cidr r e in
    calls-IsValid_from cs r h (new_allocator-IsBlock cidr r.allocator a) (empty-IsValid r n)

call-assigned :
    (D : Disk) (c : Call) (r : Registry) (key text : Bytes)
    → assigned r.nodes key ≡ some text
    → assigned (call D c r).nodes key ≡ some text
unfolding Same Fresh
call-assigned D c r key text e = elim (call-cases D c r) [
  | inl s ↦ s key ∙ e
  | inr (k, ip, f, n, u) ↦ elim (Bytes-discrete k key) [
    | yes y ↦ absurd (cc (ap (assigned r.nodes) y, n, e))
    | no y ↦ u key ∙ if_neg (Bytes-discrete k key) y _ _ ∙ e
  ]
]

-- The address of a registered key is the same after any later calls, of whatever keys and outcome.
pub calls-assigned :
    (cs : List (Disk × Call)) (r : Registry) (key text : Bytes)
    → assigned r.nodes key ≡ some text
    → assigned (calls cs r).nodes key ≡ some text
unfolding calls
calls-assigned [] r key text e = e
calls-assigned ((D, c) ∷ cs) r key text e =
    calls-assigned cs (call D c r) key text (call-assigned D c r key text e)
