-- ===== src/Coordinator/Refine.antt =====
-- The registry of src/coordinator.rs against the abstract leases.
use mesh_vpn.Base.{
  ℕ, ◌≤◌, ◌<◌, ◌≡◌, refl, ◌∙◌, ap, sym, subst, true, false, Option, none, some, List, [], ◌∷◌,
  Bytes, u32_mod, arith, inl, inr, ok, ite, Option-cases, Bool-cases,
}
use mesh_vpn.Text.{print_ipv4}
use mesh_vpn.Text.RoundTrip.{parse_ipv4-print_ipv4}
use mesh_vpn.Net.{Bytes-discrete}
use mesh_vpn.Coordinator.{
  IpAllocator, Registry, NodeRecord, Disk, lookup, is_used, new, next_free, register, poll, update,
  allocate, whitelisted, updated, polled, fresh_node,
}
use mesh_vpn.Coordinator.Pool.{IsBlock, next_free-IsHost, next_free-none, new_allocator-IsBlock}
use mesh_vpn.Coordinator.Calls.{
  Call, call, calls, register_call, poll_call, assigned, Same, allocator-call, is_used-assigned,
  assigned-rewrite, assigned-none, assigned-insert,
}
use mesh_vpn.Coordinator.Assigned.{IsValid, call-IsValid, new-cases, empty-IsValid}
use mesh_vpn.Coordinator.Leases.{
  IsHeld, asks, Step, idle, again, exhausted, lease, Steps, done, more, no_leases, leases_of,
  read_lease,
}
use mesh_vpn.Coordinator.Unique.{IsUnique, call-IsUnique, used-assigned}

module _ (D : Disk) (c : Call) (r : Registry) (h : 1 ≤ r.allocator.prefix)
    (b : IsBlock r.allocator) where
  -- An address that some key holds is in use.
  unused_free : (ip : ℕ) → is_used r.nodes ip ≡ false → ¬ (IsHeld (leases_of r.nodes) ip)
  unfolding leases_of
  unused_free ip f (k, e) = elim (Option-cases (assigned r.nodes k)) [
    | inl n ↦ absurd (ground (arith, n, e))
    | inr (text, a) ↦ absurd (cc (is_used-assigned r.nodes k text ip a (ground (arith, a, e)), f))
  ]

  held : (j : ℕ) → IsUnique r.nodes → is_used r.nodes j ≡ true → IsHeld (leases_of r.nodes) j
  unfolding leases_of
  held j u e = let (k, text, a, p) = used-assigned r.nodes j u e in (k, ground (arith, a, p))

  Fresh-lease :
      (r' : Registry) (key : Bytes) (ip : ℕ)
      → IsUnique r.nodes
      → next_free r.allocator (is_used r.nodes) ≡ some ip
      → assigned r.nodes key ≡ none
      → ((k : Bytes)
          → assigned r'.nodes k
            ≡ ite (Bytes-discrete key k) (some (print_ipv4 ip)) (assigned r.nodes k))
      → Step r.allocator (some key) (leases_of r.nodes) (leases_of r'.nodes)
  unfolding leases_of
  Fresh-lease r' key ip u f n v =
      let (host, free, lowest) = next_free-IsHost r.allocator (is_used r.nodes) ip h b f in
      let below : ip < u32_mod = omega (arith, host.1, b.aligned, b.fits) in
      lease (leases_of r.nodes) (leases_of r'.nodes) key ip (ap read_lease n) host
        (unused_free ip free) (λ j p q. held j u (lowest j p q))
        (λ k. elim (Bytes-discrete key k) [
          | yes y ↦ ground (arith, v k, parse_ipv4-print_ipv4 ip below)
          | no y ↦ ground (arith, v k)
        ])

  exhausted-Step :
      (r' : Registry) (key : Bytes)
      → IsUnique r.nodes
      → next_free r.allocator (is_used r.nodes) ≡ none
      → Same r r'
      → Step r.allocator (some key) (leases_of r.nodes) (leases_of r'.nodes)
  unfolding Same leases_of
  exhausted-Step r' key u f s =
      exhausted (leases_of r.nodes) (leases_of r'.nodes) key
        (λ j p. held j u (next_free-none r.allocator (is_used r.nodes) j h b f p))
        (λ k. ap read_lease (s k))

  again-Step :
      (r' : Registry) (key : Bytes) (n : NodeRecord)
      → lookup key r.nodes ≡ some n
      → IsValid r
      → Same r r'
      → Step r.allocator (some key) (leases_of r.nodes) (leases_of r'.nodes)
  unfolding Same leases_of assigned
  again-Step r' key n l v s =
      let (ip, p, below, host) = v.hosts key n.allowed_ip (ground (arith, l)) in
      again (leases_of r.nodes) (leases_of r'.nodes) key
        (λ e. absurd (ground (arith, e, l, p, parse_ipv4-print_ipv4 ip below)))
        (λ k. ap read_lease (s k))

register-Step :
    (D : Disk) (key endpoint : Bytes) (hostname observed : Option Bytes) (r : Registry)
    → 1 ≤ r.allocator.prefix
    → IsBlock r.allocator
    → IsValid r
    → IsUnique r.nodes
    → Step r.allocator
        (asks r.whitelist (register_call key endpoint hostname observed))
        (leases_of r.nodes)
        (leases_of (call D (register_call key endpoint hostname observed) r).nodes)
unfolding call register update allocate Same leases_of
register-Step D key endpoint hostname observed r h b v u =
    let c = register_call key endpoint hostname observed in
    let r' = call D c r in
    elim (Bool-cases (whitelisted r.whitelist key)) [
      | inr w ↦
          subst (λ x. Step r.allocator x (leases_of r.nodes) (leases_of r'.nodes)) {x = none}
            (ground (arith, w))
            (idle (leases_of r.nodes) (leases_of r'.nodes) (λ k. ground (arith, w)))
      | inl w ↦
          subst (λ x. Step r.allocator x (leases_of r.nodes) (leases_of r'.nodes)) {x = some key}
            (ground (arith, w))
            (elim (Option-cases (lookup key r.nodes)) [
              | inr (n, l) ↦ again-Step D c r h b r' key n l v (λ k. ground (
                arith,
                w,
                l,
                assigned-rewrite key n (updated endpoint hostname observed n) r.nodes k l refl,
              ))
              | inl l ↦ elim (Option-cases (next_free r.allocator (is_used r.nodes))) [
                | inl f ↦ exhausted-Step D c r h b r' key u f (λ k. ground (arith, w, l, f))
                | inr (ip, f) ↦
                    Fresh-lease D c r h b r' key ip u f (assigned-none r.nodes key l) (λ k. ground (
                      arith,
                      w,
                      l,
                      f,
                      assigned-insert key (fresh_node key ip endpoint hostname observed) r.nodes k,
                    ))
              ]
            ])
    ]

call-Step :
    (D : Disk) (c : Call) (r : Registry)
    → 1 ≤ r.allocator.prefix
    → IsBlock r.allocator
    → IsValid r
    → IsUnique r.nodes
    → Step r.allocator (asks r.whitelist c) (leases_of r.nodes) (leases_of (call D c r).nodes)
unfolding call poll leases_of
call-Step D (register_call key endpoint hostname observed) r h b v u =
    register-Step D key endpoint hostname observed r h b v u
call-Step D (poll_call key endpoint observed) r h b v u =
    idle (leases_of r.nodes) (leases_of (call D (poll_call key endpoint observed) r).nodes) (λ k.
      elim (Option-cases (lookup key r.nodes)) [
        | inl l ↦ ground (arith, l)
        | inr (n, l) ↦
            ground (arith, l, assigned-rewrite key n (polled endpoint observed n) r.nodes k l refl)
      ])

whitelist-call : (D : Disk) (c : Call) (r : Registry) → (call D c r).whitelist ≡ r.whitelist
unfolding call register poll update allocate
whitelist-call D (register_call key endpoint hostname observed) r = ground arith
whitelist-call D (poll_call key endpoint observed) r = ground arith

calls-Steps_from :
    (a : IpAllocator) (white : Option (List Bytes)) (cs : List (Disk × Call)) (r : Registry)
    → r.allocator ≡ a
    → r.whitelist ≡ white
    → 1 ≤ a.prefix
    → IsBlock a
    → IsValid r
    → IsUnique r.nodes
    → Steps a white cs (leases_of r.nodes) (leases_of (calls cs r).nodes)
unfolding calls
calls-Steps_from a white [] r e i h b v u = done (leases_of r.nodes)
calls-Steps_from a white ((D, c) ∷ cs) r e i h b v u =
    let prefix = subst (λ x. 1 ≤ x.prefix) (sym e) h in
    let block = subst IsBlock (sym e) b in
    let one = call-Step D c r prefix block v u in
    more D c cs (leases_of r.nodes) (leases_of (call D c r).nodes)
      (leases_of (calls cs (call D c r)).nodes)
      (subst (λ x. Step x (asks white c) (leases_of r.nodes) (leases_of (call D c r).nodes)) e
        (subst (λ x. Step r.allocator (asks x c) (leases_of r.nodes) (leases_of (call D c r).nodes))
          i one))
      (calls-Steps_from a white cs (call D c r) (allocator-call D c r ∙ e)
        (whitelist-call D c r ∙ i) h b (call-IsValid D c r prefix block v) (call-IsUnique D c r u))

-- From an empty registry over a CIDR block with a prefix length of at least 1, any calls of `register`
-- and `poll`, with or without a whitelist, are one step each of the abstract leases, whether the state
-- file is written or not: a registration of a key on the whitelist that has no address gives it the
-- lowest host address of the block that no key holds, and leaves all as it is if all are held; every
-- other call leaves all as it is.
pub calls-Steps :
    (cidr : Bytes) (r : Registry) (white : Option (List Bytes)) (cs : List (Disk × Call))
    → new cidr ≡ ok r
    → 1 ≤ r.allocator.prefix
    → Steps r.allocator white cs no_leases
        (leases_of (calls cs (record r { whitelist = white })).nodes)
unfolding assigned lookup leases_of
calls-Steps cidr r white cs e h =
    let (a, n) = new-cases cidr r e in
    let listed : Registry = record r { whitelist = white } in
    subst (λ x. Steps r.allocator white cs (leases_of x) (leases_of (calls cs listed).nodes))
      {y = []} n
      (calls-Steps_from r.allocator white cs listed refl refl h
        (new_allocator-IsBlock cidr r.allocator a) (empty-IsValid listed n)
        (subst IsUnique (sym n) tt))
