-- ===== src/Daemon.antt =====
-- src/daemon.rs: the handlers of the daemon's tasks, each as a function on the peer table and the
-- metrics that the tasks share behind a mutex. A handler runs under the lock from its first look at a
-- peer to its last, so the tasks interleave as whole handlers.
pub mod State
pub mod Datagram
pub mod Relayed
pub mod Tun
pub mod Timer
pub mod Backoff
pub mod Setup
pub mod Poll
pub mod Status
pub mod Run
pub mod Table
pub mod Laws
pub mod Keeps
pub mod Invariant
pub mod Started
pub mod Whole
pub mod Typed
pub mod Join
pub mod Mesh
pub mod Reaches
pub mod Punch
pub mod Lookup
pub mod Roaming
pub mod Handshake
pub mod Delivery
pub mod Relays
pub mod Tasks
pub mod Ticks
pub mod Tunnel
mod Examples
mod Trials
mod Joins
