-- ===== src/Daemon/Tunnel/Examples.antt =====
-- A tunnel between two daemons of src/daemon.rs, at concrete packets.
use mathlib.Core.Option.{some-injective}
use mesh_vpn.Base.{
  ℕ, ◌+◌, ◌≡◌, refl, sym, ◌∙◌, Bool, ℕ_discrete, true, false, none, some, List, [], ◌∷◌, Bytes,
  arith, inl, inr,
}
use mesh_vpn.Net.{SocketAddr, socket_v4, SocketAddr-discrete, endpoint-discrete, Bytes-discrete}
use mesh_vpn.Net.Plain.{plain, their_key, no_draw, padded_draw}
use mesh_vpn.Packet.{Ipv4Subnet, parse_ipv4_header, parse_ipv4_total_length, contains}
use mesh_vpn.Session.Spent.{new-IsBehind}
use mesh_vpn.Peer.{Peer, fresh_session, default_magic, initiate_handshake}
use mesh_vpn.Peer.Transport.{IsSized}
use mesh_vpn.Peer.Plain.{plain-Pairs, plain-Writes, plain-Completes}
use mesh_vpn.Manager.{find_key, find_best_peer_idx, scan_peers, scan_subnets}
use mesh_vpn.Metrics
use mesh_vpn.Daemon.State.{Shared, find_addr}
use mesh_vpn.Daemon.Tunnel.{Leg, carry, kept}
use mesh_vpn.Daemon.Tunnel.Link.{Linked, Fits}
use mesh_vpn.Daemon.Tunnel.Delivers.{carry-kept}
use mesh_vpn.Daemon.Tunnel.Whole.{Meets, handshake-carry}
use mesh_vpn.Daemon.Datagram.{on_datagram}

abbrev here : SocketAddr
here = socket_v4 3232235777 51820

abbrev there : SocketAddr
there = socket_v4 3232235778 51820

-- 10.0.99.2/32 and 10.0.99.3/32
abbrev ours : List Ipv4Subnet
ours = record { addr = 167797506; prefix_len = 32 } ∷ []

abbrev theirs : List Ipv4Subnet
theirs = record { addr = 167797507; prefix_len = 32 } ∷ []

abbrev peer : SocketAddr → List Ipv4Subnet → Peer ℕ ℕ
peer at ips = record {
  pubkey = their_key;
  endpoint = some at;
  allowed_ips = ips;
  active = some (fresh_session 0 1);
  previous = none;
  handshake = none;
  last_handshake_attempt = none;
  last_handshake_packet = none;
  last_rx = 0;
  last_tx = 0;
  last_direct_rx = 0;
  magic = default_magic;
}

abbrev daemon : Peer ℕ ℕ → Shared ℕ ℕ
daemon p = record {
  manager = record { local_priv = []; peers = p ∷ []; magic = default_magic };
  metrics = Metrics.new;
}

-- An IPv4 packet of 20 bytes from 10.0.99.2 to 10.0.99.3, with the protocol `k`.
abbrev packet : ℕ → Bytes
packet k = 69 ∷ 0 ∷ 0 ∷ 20 ∷ 0 ∷ 0 ∷ 0 ∷ 0 ∷ 64 ∷ k ∷ 0 ∷ 0 ∷ 10 ∷ 0 ∷ 99 ∷ 2 ∷ 10 ∷ 0 ∷ 99 ∷ 3 ∷ []

abbrev leg : ℕ → ℕ → Bool → Leg
leg k at lost = record {
  packet = packet k;
  sent_at = at;
  pad_draw = padded_draw;
  hs_draw = no_draw;
  received_at = at + 3;
  draw = no_draw;
  lost = lost;
}

-- The second is lost; the third goes over the relay, since nothing came directly for ten seconds.
abbrev legs : List Leg
legs = leg 17 5 false ∷ leg 6 6 true ∷ leg 1 11_000_000_000 false ∷ []

total : (k : ℕ) → parse_ipv4_total_length (packet k) ≡ some 20
unfolding parse_ipv4_total_length
total k = refl

packet-IsSized : (k : ℕ) → IsSized (packet k)
packet-IsSized k n e = some-injective n 20 (sym e ∙ total k)

leg-Fits :
    (k at : ℕ) (lost : Bool)
    → Fits plain true here their_key there their_key 0 ours
        (daemon (peer there theirs))
        (leg k at lost)
unfolding parse_ipv4_header find_best_peer_idx scan_peers scan_subnets contains
leg-Fits k at lost = record {
  src = 167797506;
  dst = 167797507;
  header = refl;
  routed = refl;
  permitted = refl;
  sized = packet-IsSized k;
  short = omega arith;
}

linked :
    Linked plain true here their_key there their_key 0 0 ours
      (daemon (peer there theirs))
      (daemon (peer here ours))
unfolding find_addr find_key endpoint-discrete SocketAddr-discrete Bytes-discrete ℕ_discrete
linked = record {
  p = peer there theirs;
  s = fresh_session 0 1;
  q = peer here ours;
  r = fresh_session 0 1;
  listed = refl;
  speaks = refl;
  counter = refl;
  named = refl;
  place = inl refl;
  at_addr = refl;
  by_key = refl;
  hears = refl;
  subnets = refl;
  behind = new-IsBehind;
  pairs = plain-Pairs 1;
  writes = plain-Writes 1;
  type_byte = refl;
  not_init = omega arith;
  not_resp = omega arith;
}

kept-legs : kept legs ≡ packet 17 ∷ packet 1 ∷ []
unfolding kept
kept-legs = refl

carry-kept_example :
    carry plain true here their_key there their_key legs
      (daemon (peer there theirs))
      (daemon (peer here ours))
    ≡ kept legs
carry-kept_example =
    carry-kept plain true here their_key there their_key legs 0 0 ours (daemon (peer there theirs))
      (daemon (peer here ours)) linked
      (leg-Fits 17 5 false, (leg-Fits 6 6 true, (leg-Fits 1 11_000_000_000 false, tt)))
      (omega arith)

-- The initiator has just built its initiation.
abbrev initiator : Shared ℕ ℕ
initiator = daemon (initiate_handshake plain 1 no_draw [] (peer there theirs)).1

begun-Fits :
    (k at : ℕ) (lost : Bool)
    → Fits plain true here their_key there their_key 0 ours initiator (leg k at lost)
unfolding parse_ipv4_header find_best_peer_idx scan_peers scan_subnets contains initiate_handshake
begun-Fits k at lost = record {
  src = 167797506;
  dst = 167797507;
  header = refl;
  routed = refl;
  permitted = refl;
  sized = packet-IsSized k;
  short = omega arith;
}

meets :
    Meets plain 0 0 [] [] their_key their_key plain-Completes 1 0 no_draw here there
      (peer there theirs)
      (peer here ours)
      initiator
      (daemon (peer here ours))
unfolding find_addr find_key endpoint-discrete SocketAddr-discrete Bytes-discrete ℕ_discrete
meets = record {
  seeded = refl;
  key = refl;
  there = refl;
  listed = refl;
  first = refl;
  private_key = refl;
  known = refl;
  free = inr refl;
  own_bytes = refl;
  same_bytes = refl;
  not_resp = omega arith;
  init_data = omega arith;
  resp_data = omega arith;
}

handshake-carry_example :
    (first : Bytes) × (answer : Bytes) × ((initiate_handshake plain 1 no_draw []
        (peer there theirs)).0
      ≡ some first)
    × ((on_datagram plain 2 no_draw here first (daemon (peer here ours))).0.reply ≡ some answer)
    × (carry plain true here their_key there their_key legs
          (on_datagram plain 3 no_draw there answer initiator).1
          (on_datagram plain 2 no_draw here first (daemon (peer here ours))).1
        ≡ kept legs)
handshake-carry_example =
    handshake-carry plain 0 0 [] [] their_key their_key plain-Completes 1 2 3 0 no_draw no_draw
      no_draw here there true (peer there theirs) (peer here ours) initiator
      (daemon (peer here ours)) legs meets refl
      (begun-Fits 17 5 false, (begun-Fits 6 6 true, (begun-Fits 1 11_000_000_000 false, tt)))
      (omega arith)
