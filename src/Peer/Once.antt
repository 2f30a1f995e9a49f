-- ===== src/Peer/Once.antt =====
-- A peer of src/peer.rs gives out no data packet twice in its whole life, whatever it is called with.
use mesh_vpn.Base.{
  ℕ, ◌≡◌, inl, inr, Option, none, some, List, Bytes, length, take, drop, arith, Bool-cases, ltb,
}
use mesh_vpn.Net.{Noise, SocketAddr, from_be_bytes}
use mesh_vpn.Packet.{Ipv4Subnet}
use mesh_vpn.Peer.{Peer, new, decrypt_packet}
use mesh_vpn.Peer.Calls.{Call, run, AllLead}
use mesh_vpn.Peer.Tracked.{IsTracked, new-IsTracked, run-IsTracked}
use mesh_vpn.Peer.Shut.{Shut, Unread, active-Shut, Shut-none, run-Shut}

module _ {H T : Type 0} (N : Noise H T) where
  decrypt_packet-Shut :
      (now : ℕ) (payload plain : Bytes) (p : Peer H T)
      → IsTracked p
      → (decrypt_packet N now payload p).0 ≡ some plain
      → Shut N (from_be_bytes (take 8 payload)) (drop 8 payload) (decrypt_packet N now payload p).1
  unfolding decrypt_packet
  decrypt_packet-Shut now payload plain p v h = elim (Bool-cases (ltb (length payload) 8)) [
    | inl short ↦ absurd (ground (arith, short))
    | inr long ↦ elim (Bool-cases (ltb (length (drop 8 payload)) 16)) [
      | inl short ↦ absurd (ground (arith, long, short))
      | inr enough ↦
          rw (long, enough)
            (active-Shut N (from_be_bytes (take 8 payload)) (drop 8 payload) now (length payload) p
              plain v (ground (arith, long, enough)))
    ]
  ]

  Shut-decrypt_packet :
      (later : ℕ) (payload : Bytes) (p : Peer H T)
      → Shut N (from_be_bytes (take 8 payload)) (drop 8 payload) p
      → (decrypt_packet N later payload p).0 ≡ none
  unfolding decrypt_packet
  Shut-decrypt_packet later payload p sh = ground (
    arith,
    Shut-none N (from_be_bytes (take 8 payload)) (drop 8 payload) later (length payload) p sh,
  )

  -- A peer starts as new, with any key, address and subnets, and is called any number of times, with
  -- any arguments. If it then gives out the payload of a packet, and is called any number of times
  -- again, where no handshake that these calls complete leads to a transport state that reads the
  -- packet, then the same packet gives nothing.
  pub decrypt_packet-once :
      (start now later : ℕ) (key : Bytes) (endpoint : Option SocketAddr) (ips : List Ipv4Subnet)
      (before after : List Call) (payload plain : Bytes)
      → (decrypt_packet N now payload (run N before (new start key endpoint ips))).0 ≡ some plain
      → AllLead N
          (Unread N (from_be_bytes (take 8 payload)) (drop 8 payload))
          after
          (decrypt_packet N now payload (run N before (new start key endpoint ips))).1
      → (decrypt_packet N later payload (
          run N after
            (decrypt_packet N now payload (run N before (new start key endpoint ips))).1)).0
        ≡ none
  decrypt_packet-once start now later key endpoint ips before after payload plain h leads =
      let tracked =
        run-IsTracked N before (new start key endpoint ips)
          (new-IsTracked N start key endpoint ips) in
      Shut-decrypt_packet later payload _ (
        run-Shut N (from_be_bytes (take 8 payload)) (drop 8 payload) after _ leads
          (decrypt_packet-Shut now payload plain _ tracked h))
