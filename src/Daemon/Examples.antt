-- ===== src/Daemon/Examples.antt =====
-- The theorems on the tasks of src/daemon.rs at concrete inputs.
use mesh_vpn.Base.{
  arith, ◌≢◌, ◌⊎◌, if_pos, ℕ, ◌≡◌, refl, true, none, some, [], ◌∷◌, ◌++◌, Bytes, replicate,
  get_elem?, ℕ_discrete,
}
use mesh_vpn.Net.{
  SocketAddr, SocketAddr-discrete, socket_v4, from_be_bytes, Bytes-discrete, endpoint-discrete,
}
use mesh_vpn.Net.Plain.{plain, tag, their_key, no_draw}
use mesh_vpn.Packet.{parse_ipv4_total_length, parse_ipv4_header, contains}
use mesh_vpn.Session.{check_and_update, get_bit, set_bit, clear_bit, clear_bits}
use mesh_vpn.Session
use mesh_vpn.Peer.{
  initiate_handshake, Peer, fresh_session, default_magic, decrypt_packet, decrypt_active, receive,
  strip_padding, check_rotation,
}
use mesh_vpn.Metrics
use mesh_vpn.Daemon.State.{Shared, find_addr, put_addr, may_send}
use mesh_vpn.Daemon.Datagram.{on_initiation, on_datagram, quiet, on_data, decrypt_any, by_endpoint}
use mesh_vpn.Peer.Handshake.{Talks}
use mesh_vpn.Peer.Plain.{plain-Completes}
use mesh_vpn.Manager.{find_key}
use mesh_vpn.Daemon.Handshake.{handshake-Talks}
use mesh_vpn.Daemon.Roaming.{Unknown, Moved, on_initiation-Moved}
use mesh_vpn.Daemon.Delivery.{Source, on_data-Source}
use mesh_vpn.Daemon.Relays.{KeySource, on_relayed-KeySource}
use mesh_vpn.Daemon.Relayed.{RelayedPacket, on_relayed, process_relayed_packet, on_relayed_data}
use mesh_vpn.Daemon.Timer.{Draws, tick, turns, turn, rotate, bury, keep_alive, renew, retransmit}
use mesh_vpn.Daemon.Ticks.{IsAlive, tick-IsAlive}

-- An IPv4 packet of 20 bytes from 10.0.99.2.
abbrev payload : Bytes
payload = 69 ∷ 0 ∷ 0 ∷ 20 ∷ 0 ∷ 0 ∷ 0 ∷ 0 ∷ 64 ∷ 17 ∷ 0 ∷ 0 ∷ 10 ∷ 0 ∷ 99 ∷ 2 ∷ 10 ∷ 0 ∷ 99 ∷ 3 ∷ []

abbrev home : SocketAddr
home = socket_v4 3232235777 51820

-- A peer at an address, which may send from 10.0.99.2.
abbrev peer : Peer ℕ ℕ
peer = record {
  pubkey = their_key;
  endpoint = some home;
  allowed_ips = record { addr = 167797506; prefix_len = 32 } ∷ [];
  active = some (fresh_session 0 1);
  previous = none;
  handshake = none;
  last_handshake_attempt = none;
  last_handshake_packet = none;
  last_rx = 0;
  last_tx = 0;
  last_direct_rx = 0;
  magic = default_magic;
}

abbrev shared : Shared ℕ ℕ
shared = record {
  manager = record { local_priv = []; peers = peer ∷ []; magic = default_magic };
  metrics = Metrics.new;
}

abbrev received : Bytes
received = replicate 8 0 ++ (payload ++ tag 1)

delivers : (on_data plain 5 home received shared).0.deliver ≡ some payload
unfolding on_data decrypt_any by_endpoint find_addr put_addr may_send parse_ipv4_header contains
    parse_ipv4_total_length decrypt_packet decrypt_active receive strip_padding check_and_update
    Session.new get_bit set_bit clear_bit clear_bits from_be_bytes endpoint-discrete Bytes-discrete
    SocketAddr-discrete ℕ_discrete
delivers = refl

on_data-Source_example : Source plain 5 home received shared.manager.peers payload
on_data-Source_example = on_data-Source plain 5 home received shared payload delivers

abbrev from_relay : RelayedPacket
from_relay = record { from_key = their_key; payload = 3 ∷ received }

relay_delivers : (on_relayed plain 5 no_draw from_relay shared).0.deliver ≡ some payload
unfolding on_relayed process_relayed_packet on_relayed_data find_key may_send parse_ipv4_header
    contains parse_ipv4_total_length decrypt_packet decrypt_active receive strip_padding
    check_and_update Session.new get_bit set_bit clear_bit clear_bits from_be_bytes Bytes-discrete
    ℕ_discrete
relay_delivers = refl

on_relayed-KeySource_example :
    (bytes : Bytes) × (from_relay.payload ≡ 3 ∷ bytes)
    × KeySource plain 5 their_key bytes payload shared.manager.peers
on_relayed-KeySource_example =
    on_relayed-KeySource plain 5 no_draw from_relay shared payload relay_delivers

abbrev draws : ℕ → Draws
draws i = record { rotation = no_draw; keepalive = no_draw; renewal = no_draw }

stays : get_elem? (tick plain 5 true draws shared).1.manager.peers 0 ≡ some peer
unfolding tick turns turn rotate bury keep_alive renew retransmit check_rotation
stays = refl

tick-IsAlive_example : IsAlive 5 peer
tick-IsAlive_example = tick-IsAlive plain 5 true draws shared 0 peer stays

on_initiation-Moved_example :
    ((on_initiation plain 5 no_draw home (replicate 96 0) shared ≡ (quiet, shared))
      × Unknown plain 5 no_draw home (replicate 96 0) shared)
    ⊎ Moved plain 5 no_draw home
        (replicate 96 0)
        shared
        (on_initiation plain 5 no_draw home (replicate 96 0) shared).1
        (on_initiation plain 5 no_draw home (replicate 96 0) shared).0
on_initiation-Moved_example = on_initiation-Moved plain 5 no_draw home (replicate 96 0) shared

-- A draw for the initiator and the responder of the test protocol, and another address.
abbrev away : SocketAddr
away = socket_v4 167837953 4000

-- The initiator's table once the initiation is built.
abbrev begun : Peer ℕ ℕ
begun = (initiate_handshake plain 4 no_draw [] peer).1

abbrev initiator : Shared ℕ ℕ
initiator = record {
  manager = record { local_priv = []; peers = begun ∷ []; magic = default_magic };
  metrics = Metrics.new;
}

begun-endpoint : begun.endpoint ≡ some home
unfolding initiate_handshake
begun-endpoint = refl

begun_found : find_addr home initiator.manager.peers ≡ some begun
unfolding find_addr
begun_found = if_pos (endpoint-discrete begun.endpoint (some home)) begun-endpoint _ _

peer_known : find_key their_key shared.manager.peers ≡ some peer
unfolding find_key
peer_known = if_pos (Bytes-discrete their_key their_key) refl _ _

kinds_differ : default_magic.handshake_init ≢ default_magic.handshake_resp
kinds_differ e = omega (arith, e)

handshake-Talks_example :
    (first : Bytes) × (answer : Bytes) × (p : Peer ℕ ℕ) × (q : Peer ℕ ℕ) × ((initiate_handshake
        plain 4 no_draw [] peer).0
      ≡ some first)
    × ((on_datagram plain 5 no_draw away first shared).0.reply ≡ some answer)
    × (find_key their_key (on_datagram plain 5 no_draw away first shared).1.manager.peers ≡ some q)
    × (find_addr home (on_datagram plain 6 no_draw home answer initiator).1.manager.peers ≡ some p)
    × (q.endpoint ≡ some away)
    × Talks plain p q
    × Talks plain q p
handshake-Talks_example =
    handshake-Talks plain 0 0 [] [] their_key their_key plain-Completes 4 5 6 no_draw no_draw
      no_draw away home peer peer initiator shared refl refl refl refl refl kinds_differ refl
      peer_known begun_found
