-- ===== src/Lib.antt =====
-- AraxMesh is a mesh VPN: a daemon that carries IP packets of a TUN device between peers over Noise
-- sessions, on UDP or over a TCP relay, and a coordinator that assigns overlay addresses, tells the
-- nodes of each other and relays frames between them. This library models the logic of both as
-- functions on explicit states, and states what makes each part correct.
--
-- The parts, each with the file that models it (paths from the repository's root):
-- - Session: `ReplayWindow` of src/session.rs, a bitmap of sixteen 64-bit words. Session/Window,
--   Session/Exact, Session/Once, Session/Spent and Session/Again prove.
-- - Packet: src/packet.rs, IPv4 headers and subnets. Text holds what the code uses of the standard
--   library's text functions, with the address parser written out; texts are lists of ASCII codes.
-- - Config: the peer descriptor of src/types.rs and `parse_peer_arg` of src/config.rs. Config/Settings:
--   the settings of a daemon, from the command line or from a file.
-- - Peer: src/peer.rs, one peer with its two sessions and its handshake. A method returns its result
--   and the peer after it. Peer/Calls is the life of a peer as a sequence of calls. Manager: the peer
--   table of the same file, with its reconciliation and its route search.
-- - Daemon: src/daemon.rs. Daemon/Setup is `run_with_settings` up to the tasks, with
--   `resolve_network_setup`. Then one handler per event: Daemon/Datagram for a UDP datagram,
--   Daemon/Relayed for a packet from the relay, Daemon/Tun for a packet of the TUN device, Daemon/Timer
--   for a tick, Daemon/Poll for a response of the coordinator; Daemon/Status is the status report of a
--   tick, Daemon/Backoff the waits of the relay task. Each handler takes the shared state (peer table
--   and the counters of Metrics, src/metrics.rs) and returns what is sent or delivered with the new
--   state. The code holds one lock over each such handler, so that a run, in Daemon/Run, is a sequence
--   of handlers in any order. Daemon/Laws is what a property of a peer has to obey to hold of all peers in
--   every run, which Daemon/Whole and Daemon/Typed apply. Daemon/Tasks is the other view of the tasks:
--   not what a handler does, but whether a task waits at its `select!`, runs, waits for room in the
--   relay's channel or has ended, as a step relation.
-- - Nat: the burst of probes of src/nat.rs.
-- - Relay: the framing of src/relay.rs, and the routes of the relay server in
--   src/bin/coordinatord.rs as events on a table.
-- - Coordinator: the allocator and the registry of src/coordinator.rs, with the hash map as an
--   association list; Coordinator/Leases is the abstract view, which key holds which address.
--   Coordinatord: the HTTP handlers of src/bin/coordinatord.rs with their authentication and rate
--   limit; Coordinatord/Start is its `main` up to the servers.
-- - Desktop: the commands of desktop-app/src-tauri/src/lib.rs on the state that they share, and the
--   daemons that they start. The status that the application writes itself is kept as its connection
--   state.
--
-- The parts meet in three places. Daemon/Join and Daemon/Reaches run the set-up of a daemon against
-- the HTTP handler of the coordinator, in the place of the HTTP client that `Host` of Daemon/Setup
-- stands for. Daemon/Handshake runs the handlers of two daemons against each other, and
-- Daemon/Tunnel carries packets from the TUN device of the one to that of the other. Relay/Forward
-- takes what one client writes through the relay server to what another reads.
--
-- What is not code of the repository is a parameter: the snow crate is the record `Noise` of Net, the
-- hex crate and the socket address parser are `Parsers`, the file system with the JSON of the state
-- file is `Disk`, the crates behind the settings are `Sources` of Config/Settings, and those of the
-- daemon's set-up are `Host`. An instant is a number of nanoseconds, and each operation takes the
-- instant at which it runs and the random bytes it draws. A theorem on encryption assumes of a pair of
-- transport states only that one reads back what the other writes, with a tag of 16 bytes; a theorem
-- on a handshake assumes only that each message is read by the other side and that both sides end with
-- such a pair, which writes any message up to the protocol's length. Net/Plain is an instance on which the tests run. Integers are natural numbers with the
-- wrap-around written out, as in a release build; a native number stands for `usize`.
--
-- Loops are structural recursion. Only the receiving loop of the relay runs on fuel: a turn takes at
-- least 36 bytes of the stream, so that one turn more than there are bytes is enough; a loop that has
-- not ended within its fuel has no result.
--
-- Both tasks of the data path read into buffers of 2048 bytes. The handlers take the bytes that are in
-- the buffer; Daemon/Tunnel, where packets go from one daemon to the other, cuts them off.
--
-- Not modelled: opening the TUN device and the sockets beyond whether it succeeds, what the channels
-- between the tasks hold beyond the number of packets in that of the relay, a task that panics, the
-- end of the process when the function of a daemon has returned, the accept loops of the coordinator,
-- the entry points and the fuzz targets: they are input and output, or bindings of frameworks. Log
-- lines are left out everywhere.
pub mod Base
pub mod Session
pub mod Text
pub mod Packet
pub mod Net
pub mod Config
pub mod Peer
pub mod Manager
pub mod Metrics
pub mod Daemon
pub mod Relay
pub mod Coordinator
pub mod Coordinatord
pub mod Nat
pub mod Desktop
