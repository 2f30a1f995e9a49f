-- ===== src/Relay/Examples.antt =====
-- The theorems on the relay's frames and routes at concrete inputs.
use mesh_vpn.Base.{suc, some, if_pos, ◌≡◌, refl, List, [], ◌∷◌, Bytes, replicate, length, arith}
use mesh_vpn.Net.{Bytes-discrete}
use mesh_vpn.Relay.{Packet, RelayEvent, frames, read_frames, identified, ended, route}
use mesh_vpn.Text.{◌>>=◌}
use mesh_vpn.Relay.Frames.{AllFit, read_frames-frames}
use mesh_vpn.Relay.Forward.{delivered, addressed_to, received_from, received_from-delivered}

abbrev key : Bytes
key = replicate 32 9

abbrev packets : List Packet
packets = (key, 3 ∷ 1 ∷ 4 ∷ []) ∷ (replicate 32 8, []) ∷ []

packets-AllFit : AllFit packets
packets-AllFit = (
  record { key = refl; payload = omega arith },
  (record { key = refl; payload = omega arith }, tt),
)

read_frames-frames_example :
    read_frames (suc (length (frames packets))) (frames packets) ≡ some packets
read_frames-frames_example = read_frames-frames packets packets-AllFit

abbrev visits : List RelayEvent
visits = identified 1 key ∷ identified 2 (replicate 32 8) ∷ ended 1 key ∷ []

abbrev payloads : List Bytes
payloads = (3 ∷ 1 ∷ 4 ∷ []) ∷ [] ∷ []

key_route : route key ((key, 2) ∷ []) ≡ some 2
unfolding route
key_route = if_pos (Bytes-discrete key key) refl _ _

received_from-delivered_example :
    (received_from (frames (addressed_to key payloads)) >>= λ sent.
    received_from (frames (delivered 1 (replicate 32 8) ((key, 2) ∷ []) 2 sent)))
    ≡ some (addressed_to (replicate 32 8) payloads)
received_from-delivered_example =
    received_from-delivered 1 (replicate 32 8) key ((key, 2) ∷ []) 2 payloads refl refl key_route
      (omega arith, (omega arith, tt))
