-- ===== src/Config/Spec.antt =====
-- The text form of a descriptor in src/types.rs against the parser of src/config.rs that reads it.
use mesh_vpn.Base.{
  ℕ, suc, ◌+◌, ◌≡◌, ◌↔◌, refl, sym, ap, ◌∙◌, ◌++◌, Option, List, [], ◌∷◌, Bytes, Result, ok, err,
  ◌==◌, if◌then◌else◌, length, arith, ℕ_discrete,
}
use mesh_vpn.Text.{split}
use mesh_vpn.Text.RoundTrip.{Lacks, split-one, split-cons}
use mesh_vpn.Net.{Parsers, SocketAddr}
use mesh_vpn.Packet.{◌>>=◌, Ipv4Subnet}
use mesh_vpn.Config.{
  PeerDescriptor, ParsedPeer, PeerError, to_spec, unwrap_or, parse_key, parse_endpoint,
  parse_subnets, parse_fields, parse_peer_arg,
}

-- How often a byte stands in a text.
unfoldable count : ℕ → Bytes → ℕ
count sep [] = 0
count sep (c ∷ s) = (if c == sep then 1 else 0) + count sep s

count-append : (sep : ℕ) (s t : Bytes) → count sep (s ++ t) ≡ count sep s + count sep t
unfolding count
count-append sep [] t = omega arith
count-append sep (c ∷ s) t = omega (arith, count-append sep s t)

count-Lacks : (sep : ℕ) (s : Bytes) → count sep s ≡ 0 → Lacks sep s
unfolding count
count-Lacks sep [] h = tt
count-Lacks sep (c ∷ s) h = elim (ℕ_discrete c sep) [
  | yes e ↦ absurd (ground arith)
  | no n ↦ (n, count-Lacks sep s (ground arith))
]

length-split : (sep : ℕ) (s : Bytes) → length (split sep s) ≡ suc (count sep s)
unfolding split count
length-split sep [] = refl
length-split sep (c ∷ s) = go (split sep s) refl (length-split sep s)
  where
    go :
        (parts : List Bytes)
        → split sep s ≡ parts
        → length (split sep s) ≡ suc (count sep s)
        → length (split sep (c ∷ s)) ≡ suc (count sep (c ∷ s))
    go [] e h = absurd (ground (arith, e, h))
    go (p ∷ ps) e h = ground (arith, e, h)

-- The three fields of a descriptor, as its text form has them.
abbrev pub endpoint_text : PeerDescriptor → Bytes
endpoint_text d = unwrap_or d.endpoint []

-- No field holds the separator.
pub record IsClean (d : PeerDescriptor) : Type 0 where
  pub public_key : Lacks b';' d.public_key
  pub endpoint : Lacks b';' (endpoint_text d)
  pub allowed_ip : Lacks b';' d.allowed_ip

split-to_spec :
    (d : PeerDescriptor)
    → IsClean d
    → split b';' (to_spec d) ≡ d.public_key ∷ endpoint_text d ∷ d.allowed_ip ∷ []
unfolding to_spec
split-to_spec d c =
    split-cons b';' d.public_key (endpoint_text d ++ (b';' ∷ d.allowed_ip)) c.public_key
    ∙ ap (λ t. d.public_key ∷ t)
        (split-cons b';' (endpoint_text d) d.allowed_ip c.endpoint
          ∙ ap (λ t. endpoint_text d ∷ t) (split-one b';' d.allowed_ip c.allowed_ip))

-- A text form of three parts is that of a clean descriptor.
three-IsClean : (d : PeerDescriptor) → length (split b';' (to_spec d)) ≡ 3 → IsClean d
unfolding to_spec count
three-IsClean d h = record {
  public_key = count-Lacks b';' d.public_key (omega (arith, total));
  endpoint = count-Lacks b';' (endpoint_text d) (omega (arith, total));
  allowed_ip = count-Lacks b';' d.allowed_ip (omega (arith, total));
}
  where
    total : count b';' d.public_key + count b';' (endpoint_text d) + count b';' d.allowed_ip ≡ 0
    total = omega (
      arith,
      h,
      length-split b';' (to_spec d),
      count-append b';' d.public_key (b';' ∷ (endpoint_text d ++ (b';' ∷ d.allowed_ip))),
      count-append b';' (endpoint_text d) (b';' ∷ d.allowed_ip),
    )

-- What the chain of the three fields' parsers gives.
abbrev assemble :
    Result Bytes PeerError
    → Result (Option SocketAddr) PeerError
    → Result (List Ipv4Subnet) PeerError
    → Result ParsedPeer PeerError
assemble key endpoint subnets = do
  k ← key
  e ← endpoint
  ips ← subnets
  ok (record { pubkey = k; endpoint = e; allowed_ips = ips })

assemble-ok :
    (a : Result Bytes PeerError) (b : Result (Option SocketAddr) PeerError)
    (c : Result (List Ipv4Subnet) PeerError) (w : ParsedPeer)
    → assemble a b c ≡ ok w
    → (a ≡ ok w.pubkey) × (b ≡ ok w.endpoint) × (c ≡ ok w.allowed_ips)
assemble-ok (err x) b c w e = absurd (cc)
assemble-ok (ok a) (err x) c w e = absurd (cc)
assemble-ok (ok a) (ok b) (err x) w e = absurd (cc)
assemble-ok (ok a) (ok b) (ok c) w e = (ground arith, ground arith, ground arith)

module _ (P : Parsers) where
  -- Each field reads to the part of the parsed peer that it stands for.
  pub record Reads (d : PeerDescriptor) (w : ParsedPeer) : Type 0 where
    pub pubkey : parse_key P d.public_key ≡ ok w.pubkey
    pub endpoint : parse_endpoint P (endpoint_text d) ≡ ok w.endpoint
    pub allowed_ips : parse_subnets P (split b',' d.allowed_ip) ≡ ok w.allowed_ips

  parse_fields-three :
      (parts : List Bytes) (w : ParsedPeer) → parse_fields P parts ≡ ok w → length parts ≡ 3
  parse_fields-three [] w e = absurd (cc)
  parse_fields-three (a ∷ []) w e = absurd (cc)
  parse_fields-three (a ∷ b ∷ []) w e = absurd (cc)
  parse_fields-three (a ∷ b ∷ c ∷ []) w e = refl
  parse_fields-three (a ∷ b ∷ c ∷ d ∷ parts) w e = absurd (cc)

  -- A descriptor parses by way of its text form exactly if none of its fields holds the separator `;`
  -- and each field reads by itself: no field can smuggle text into another one.
  pub parse_peer_arg-to_spec :
      (d : PeerDescriptor) (w : ParsedPeer)
      → (parse_peer_arg P (to_spec d) ≡ ok w) ↔ (IsClean d × Reads d w)
  unfolding parse_peer_arg
  parse_peer_arg-to_spec d w = (
    λ e.
        let c = three-IsClean d (parse_fields-three (split b';' (to_spec d)) w e) in
        let (k, p, a) = assemble-ok _ _ _ w (ap (parse_fields P) (sym (split-to_spec d c)) ∙ e) in
        (c, record { pubkey = k; endpoint = p; allowed_ips = a }),
    λ h.
        ap (parse_fields P) (split-to_spec d h.0)
        ∙ rw (h.1.pubkey, h.1.endpoint, h.1.allowed_ips) refl,
  )
