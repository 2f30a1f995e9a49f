-- ===== src/Daemon/Delivery.antt =====
-- What reaches the TUN device, and whom a datagram may move, in src/daemon.rs.
use mathlib.Core.Option.{some-injective}
use mesh_vpn.Base.{
  ℕ, zero, suc, ◌-◌, take, drop, ◌≡◌, refl, ◌∙◌, ap, sym, inl, inr, ◌≢◌, true, Option, none, some,
  List, [], ◌∷◌, Bytes, if◌then◌else◌, arith, get_elem?, length, Option-cases,
}
use mesh_vpn.Net.{Noise, SocketAddr, endpoint-discrete, from_be_bytes}
use mesh_vpn.Peer.{Peer, decrypt_packet, decrypt_active, decrypt_previous, is_some}
use mesh_vpn.Daemon.State.{Shared, find_addr, put_addr, may_send, allowed}
use mesh_vpn.Daemon.Lookup.{find_addr-listed, find_addr-endpoint}
use mesh_vpn.Daemon.Datagram.{on_data, decrypt_any, by_endpoint, by_trial}

module _ {H T : Type 0} where
  pub allowed-some :
      (p : Peer H T) (o : Option Bytes) (plaintext : Bytes)
      → allowed p o ≡ some plaintext
      → (o ≡ some plaintext) × (may_send p plaintext ≡ true)
  allowed-some p none plaintext e = absurd (cc)
  allowed-some p (some text) plaintext e = ground arith

module _ {H T : Type 0} (N : Noise H T) (now : ℕ) (addr : SocketAddr) (payload : Bytes) where
  -- A peer of the table decrypts the payload, and may send what it decrypts.
  pub record Source (ps : List (Peer H T)) (plaintext : Bytes) : Type 0 where
    pub at : ℕ
    pub peer : Peer H T
    pub listed : get_elem? ps at ≡ some peer
    pub decrypts : (decrypt_packet N now payload peer).0 ≡ some plaintext
    pub permitted : may_send peer plaintext ≡ true

  Source-cons :
      (p : Peer H T) (ps : List (Peer H T)) (plaintext : Bytes)
      → Source ps plaintext
      → Source (p ∷ ps) plaintext
  Source-cons p ps plaintext s = record {
    at = suc s.at;
    peer = s.peer;
    listed = s.listed;
    decrypts = s.decrypts;
    permitted = s.permitted;
  }

  by_endpoint-Source :
      (ps : List (Peer H T)) (plaintext : Bytes)
      → (by_endpoint N now addr payload ps).0 ≡ some plaintext
      → Source ps plaintext
  unfolding by_endpoint
  by_endpoint-Source ps plaintext e = elim (Option-cases (find_addr addr ps)) [
    | inl f ↦ absurd (ground (arith, f))
    | inr (p, f) ↦
        let (i, at) = find_addr-listed addr ps p f in
        let (d, m) =
          allowed-some p (decrypt_packet N now payload p).0 plaintext (ground (arith, f)) in
        record { at = i; peer = p; listed = at; decrypts = d; permitted = m }
  ]

  -- The source that the trial finds is elsewhere.
  by_trial-Source :
      (ps : List (Peer H T)) (plaintext : Bytes)
      → (by_trial N now addr payload ps).0 ≡ some plaintext
      → (s : Source ps plaintext) × (s.peer.endpoint ≢ some addr)
  unfolding by_trial Source-cons
  by_trial-Source [] plaintext e = absurd (cc)
  by_trial-Source (p ∷ ps) plaintext e = elim (endpoint-discrete p.endpoint (some addr)) [
    | yes h ↦
        let (s, n) = by_trial-Source ps plaintext (ground arith) in
        (Source-cons p ps plaintext s, n)
    | no h ↦ elim (Option-cases (allowed p (decrypt_packet N now payload p).0)) [
      | inl f ↦
          let (s, n) = by_trial-Source ps plaintext (ground (arith, f)) in
          (Source-cons p ps plaintext s, n)
      | inr (text, f) ↦
          let (d, m) =
            allowed-some p (decrypt_packet N now payload p).0 plaintext (ground (arith, f)) in
          (record { at = zero; peer = p; listed = refl; decrypts = d; permitted = m }, h)
    ]
  ]

  put_addr-listed :
      (q : Peer H T) (ps : List (Peer H T)) (i : ℕ) (p : Peer H T)
      → q.endpoint ≡ some addr
      → p.endpoint ≢ some addr
      → get_elem? (put_addr addr q ps) i ≡ some p
      → get_elem? ps i ≡ some p
  unfolding put_addr
  put_addr-listed q [] i p a n e = e
  put_addr-listed q (x ∷ xs) zero p a n e = elim (endpoint-discrete x.endpoint (some addr)) [
    | yes h ↦ absurd (n (sym (ap (λ (r : Peer H T). r.endpoint) (same h)) ∙ a))
    | no h ↦ ground arith
  ]
    where
      same : x.endpoint ≡ some addr → q ≡ p
      same h = some-injective q p (ground arith)
  put_addr-listed q (x ∷ xs) (suc i) p a n e = elim (endpoint-discrete x.endpoint (some addr)) [
    | yes h ↦ ground arith
    | no h ↦ put_addr-listed q xs i p a n (ground arith)
  ]

  -- Decryption does not move a peer.
  endpoint-decrypt_previous :
      (nonce payload_len : ℕ) (ciphertext : Bytes) (p : Peer H T)
      → (decrypt_previous N now nonce ciphertext payload_len p).1.endpoint ≡ p.endpoint
  unfolding decrypt_previous
  endpoint-decrypt_previous nonce payload_len ciphertext p = elim (Option-cases p.previous) [
    | inl h ↦ ground (arith, h)
    | inr (s, h) ↦
        elim (Option-cases (N.read_transport s.state nonce ciphertext (length ciphertext - 16))) [
          | inl r ↦ ground (arith, h, r)
          | inr (text, r) ↦ ground (arith, h, r)
        ]
  ]

  endpoint-decrypt_active :
      (nonce payload_len : ℕ) (ciphertext : Bytes) (p : Peer H T)
      → (decrypt_active N now nonce ciphertext payload_len p).1.endpoint ≡ p.endpoint
  unfolding decrypt_active
  endpoint-decrypt_active nonce payload_len ciphertext p =
      let before = endpoint-decrypt_previous nonce payload_len ciphertext p in
      elim (Option-cases p.active) [
        | inl h ↦ ground (arith, h, before)
        | inr (s, h) ↦
            elim (Option-cases
              (N.read_transport s.state nonce ciphertext (length ciphertext - 16))) [
                | inl r ↦ ground (arith, h, r, before)
                | inr (text, r) ↦ ground (arith, h, r)
              ]
      ]

  endpoint-decrypt_packet :
      (p : Peer H T) → (decrypt_packet N now payload p).1.endpoint ≡ p.endpoint
  unfolding decrypt_packet
  endpoint-decrypt_packet p =
      let decrypted =
        endpoint-decrypt_active (from_be_bytes (take 8 payload)) (length payload) (drop 8 payload)
          p in
      ground (arith, decrypted)

  -- The trial runs on the table that the lookup by endpoint has left.
  by_endpoint-listed :
      (ps : List (Peer H T)) (i : ℕ) (p : Peer H T)
      → p.endpoint ≢ some addr
      → get_elem? (by_endpoint N now addr payload ps).1 i ≡ some p
      → get_elem? ps i ≡ some p
  unfolding by_endpoint
  by_endpoint-listed ps i p n e = elim (Option-cases (find_addr addr ps)) [
    | inl f ↦ ground (arith, f)
    | inr (q, f) ↦
        let (plaintext, r) = decrypt_packet N now payload q in
        let heard : Peer H T =
          if is_some (allowed q (decrypt_packet N now payload q).0)
          then record ((decrypt_packet N now payload q).1) { last_direct_rx = now }
          else (decrypt_packet N now payload q).1 in
        put_addr-listed heard ps i p
          (ground (arith, endpoint-decrypt_packet q, find_addr-endpoint addr ps q f)) n
          (ground (arith, f))
  ]

  -- What `on_data` writes to the TUN device, some peer of the table before the call decrypts from the
  -- payload, and that peer may send it.
  pub on_data-Source :
      (s : Shared H T) (plaintext : Bytes)
      → (on_data N now addr payload s).0.deliver ≡ some plaintext
      → Source s.manager.peers plaintext
  unfolding on_data decrypt_any
  on_data-Source s plaintext e =
      let ps = s.manager.peers in
      elim (Option-cases (by_endpoint N now addr payload ps).0) [
        | inr (text, f) ↦ by_endpoint-Source ps plaintext (ground (arith, f))
        | inl f ↦
            let (t, n) =
              by_trial-Source (by_endpoint N now addr payload ps).1 plaintext (ground (arith, f)) in
            record {
              at = t.at;
              peer = t.peer;
              listed = by_endpoint-listed ps t.at t.peer n t.listed;
              decrypts = t.decrypts;
              permitted = t.permitted;
            }
      ]
