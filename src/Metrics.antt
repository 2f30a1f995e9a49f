-- ===== src/Metrics.antt =====
-- src/metrics.rs: the daemon's counters, `AtomicU64`s that wrap around.
use mesh_vpn.Base.{ℕ}
use mesh_vpn.Peer.{add_u64}

pub record Metrics : Type 0 where
  pub total_rx_bytes : ℕ
  pub total_tx_bytes : ℕ
  pub total_rx_packets : ℕ
  pub total_tx_packets : ℕ
  pub handshake_attempts : ℕ
  pub handshake_successes : ℕ

unfoldable pub new : Metrics
new = record {
  total_rx_bytes = 0;
  total_tx_bytes = 0;
  total_rx_packets = 0;
  total_tx_packets = 0;
  handshake_attempts = 0;
  handshake_successes = 0;
}

unfoldable pub add_rx : ℕ → Metrics → Metrics
add_rx bytes m = record m {
  total_rx_bytes = add_u64 m.total_rx_bytes bytes;
  total_rx_packets = add_u64 m.total_rx_packets 1;
}

unfoldable pub add_tx : ℕ → Metrics → Metrics
add_tx bytes m = record m {
  total_tx_bytes = add_u64 m.total_tx_bytes bytes;
  total_tx_packets = add_u64 m.total_tx_packets 1;
}

unfoldable pub record_handshake_attempt : Metrics → Metrics
record_handshake_attempt m = record m { handshake_attempts = add_u64 m.handshake_attempts 1 }

unfoldable pub record_handshake_success : Metrics → Metrics
record_handshake_success m = record m { handshake_successes = add_u64 m.handshake_successes 1 }
