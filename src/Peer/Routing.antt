-- ===== src/Peer/Routing.antt =====
-- Where src/peer.rs sends a packet, and when a session is due for rotation.
use mesh_vpn.Base.{ℕ, ◌≤◌, ◌<◌, ◌≡◌, refl, ◌⊎◌, ◌↔◌, Bool, true, false, none, some, arith}
use mesh_vpn.Net.{elapsed_secs, SocketAddr}
use mesh_vpn.Peer.{Peer, ActiveSession, check_rotation, determine_dest, udp, relay}

module _ {H T : Type 0} (now : ℕ) (p : Peer H T) where
  -- With a relay at hand a packet goes to the peer's key over the relay exactly when the peer has no
  -- endpoint or was not heard directly for 10 seconds. Otherwise it goes to the endpoint; it goes
  -- nowhere exactly when there is neither an endpoint nor a relay.
  pub determine_dest-cases :
      (has_relay : Bool)
      → ((determine_dest now has_relay p ≡ some (relay p.pubkey))
          ↔ ((has_relay ≡ true) × ((p.endpoint ≡ none) ⊎ (10 ≤ elapsed_secs now p.last_direct_rx))))
        × ((determine_dest now has_relay p ≡ none) ↔ ((has_relay ≡ false) × (p.endpoint ≡ none)))
        × ((addr : SocketAddr)
            → determine_dest now has_relay p ≡ some (udp addr)
            → p.endpoint ≡ some addr)
  unfolding determine_dest
  determine_dest-cases has_relay = (
    (λ e. ground arith, λ e. ground arith),
    (λ e. ground arith, λ e. ground arith),
    λ addr e. ground arith,
  )

  -- Rotation is due exactly for an active session that is older than 120 seconds or has sent more
  -- than 10^9 bytes; the check keeps the active session, and drops the previous one exactly if that is
  -- 15 seconds old or more.
  pub check_rotation-cases :
      (s : ActiveSession T)
      → p.active ≡ some s
      → (((check_rotation now p).0 ≡ true)
          ↔ ((120 < elapsed_secs now s.established_at) ⊎ (1_000_000_000 < s.tx_bytes)))
        × ((check_rotation now p).1.active ≡ p.active)
        × ((r : ActiveSession T)
            → p.previous ≡ some r
            → ((check_rotation now p).1.previous ≡ none) ↔ (15 ≤ elapsed_secs now r.established_at))
  unfolding check_rotation
  check_rotation-cases s e = (
    (λ h. ground (arith, e), λ h. ground (arith, e)),
    refl,
    λ r f. (λ h. ground (arith, f), λ h. ground (arith, f)),
  )
