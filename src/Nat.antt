-- ===== src/Nat.antt =====
-- src/nat.rs: the burst of probes that opens the mapping of a NAT.
use mesh_vpn.Base.{ℕ, zero, suc, List, [], ◌∷◌, Bytes, ltb, if◌then◌else◌}
use mesh_vpn.Net.{SocketAddr}

abbrev pub probe_packet_type : ℕ
probe_packet_type = 4

abbrev pub probe_count : ℕ
probe_count = 3

abbrev pub probe_interval_ms : ℕ
probe_interval_ms = 200

-- What the burst does, in its order: a datagram is handed to the socket, or time passes.
pub data NatStep : Type 0 where
  send_to : Bytes → SocketAddr → NatStep
  sleep_ms : ℕ → NatStep

-- The turns from the `i`-th on. A send that fails is only logged: no result of a send is looked at.
unfoldable pub burst : SocketAddr → Bytes → ℕ → ℕ → List NatStep
burst target probe i zero = []
burst target probe i (suc turns) =
    let rest = burst target probe (suc i) turns in
    send_to probe target
    ∷ (if ltb (suc i) probe_count then sleep_ms probe_interval_ms ∷ rest else rest)

unfoldable pub punch_hole : SocketAddr → ℕ → List NatStep
unfolding burst
punch_hole target probe_byte = burst target (probe_byte ∷ []) 0 probe_count
