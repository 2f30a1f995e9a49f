-- ===== src/Daemon/Tunnel/Delivers.antt =====
-- The packets that a tunnel of src/daemon.rs does not lose are delivered, unchanged and in order.
use mesh_vpn.Base.{
  ℕ, suc, ◌+◌, ◌<◌, ◌≡◌, refl, ◌∙◌, Bool, List, [], ◌∷◌, Bytes, u64_mod, length, arith, Bool-cases,
  inl, inr,
}
use mesh_vpn.Net.{SocketAddr, Noise}
use mesh_vpn.Text.{Ipv4Addr}
use mesh_vpn.Packet.{Ipv4Subnet}
use mesh_vpn.Manager.{find_best_peer_idx}
use mesh_vpn.Daemon.State.{Shared}
use mesh_vpn.Daemon.Tunnel.{Leg, carry, kept}
use mesh_vpn.Daemon.Tunnel.Link.{Linked, AllFit}
use mesh_vpn.Daemon.Tunnel.Crosses.{
  after_sending, sending, arriving, routes_same, lost-Linked, arrived-Linked, cross-lost,
  cross-arrived,
}

module _ {H T : Type 0} (N : Noise H T) (has_relay : Bool) (addr : SocketAddr) (key : Bytes)
    (home : SocketAddr) (name : Bytes) where
  pub AllFit-moved :
      (i : ℕ) (ips : List Ipv4Subnet) (a a' : Shared H T) (ls : List Leg)
      → ((dst : Ipv4Addr) → find_best_peer_idx dst a'.manager ≡ find_best_peer_idx dst a.manager)
      → AllFit N has_relay addr key home name i ips a ls
      → AllFit N has_relay addr key home name i ips a' ls
  AllFit-moved i ips a a' [] same f = tt
  AllFit-moved i ips a a' (l ∷ ls) same (f, fs) = (
    record {
      src = f.src;
      dst = f.dst;
      header = f.header;
      routed = same f.dst ∙ f.routed;
      permitted = f.permitted;
      sized = f.sized;
      short = f.short;
    },
    AllFit-moved i ips a a' ls same fs,
  )

  -- Two daemons that are linked, and any packets that fit, as many as the nonces last: what the receiver
  -- writes to its TUN device are the packets that the network does not lose, unchanged and in order.
  -- The network takes a packet only to the address or the key that it is sent to, and both sides read
  -- into buffers of 2048 bytes.
  pub carry-kept :
      (ls : List Leg) (i n : ℕ) (ips : List Ipv4Subnet) (a b : Shared H T)
      → Linked N has_relay addr key home name i n ips a b
      → AllFit N has_relay addr key home name i ips a ls
      → n + length ls < u64_mod
      → carry N has_relay addr key home name ls a b ≡ kept ls
  unfolding carry kept
  carry-kept [] i n ips a b L f h = refl
  carry-kept (l ∷ ls) i n ips a b L (F, Fs) h =
      let small : n + 1 < u64_mod = omega (arith, h) in
      let (dest, sent, right) = sending N has_relay addr key home name i n ips a b l L F small in
      let a' = after_sending N has_relay addr key home name i n ips a b l L F small dest in
      let fits' =
        AllFit-moved i ips a a' ls
          (routes_same N has_relay addr key home name i n ips a b l L F small dest) Fs in
      elim (Bool-cases l.lost) [
        | inl gone ↦ ground (
          arith,
          gone,
          cross-lost N has_relay addr key home name i n ips a b l L F small gone,
          carry-kept ls i (suc n) ips a' b
              (lost-Linked N has_relay addr key home name i n ips a b l L F small dest) fits'
              (omega (arith, h)),
        )
        | inr came ↦
            let (b', gets, A) =
              arriving N has_relay addr key home name i n ips a b l L F small dest right in
            ground (
              arith,
              came,
              cross-arrived N has_relay addr key home name i n ips a b l L F small came,
              carry-kept ls i (suc n) ips a' b'
                  (arrived-Linked N has_relay addr key home name i n ips a b l L F small dest b' A)
                  fits' (omega (arith, h)),
            )
      ]
