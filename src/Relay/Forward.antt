-- ===== src/Relay/Forward.antt =====
-- The receiving loop of src/relay.rs ends, and the relay server of src/bin/coordinatord.rs carries frames
-- from one client to another.
use mesh_vpn.Base.{
  ℕ, suc, Option, ◌≤◌, ◌≡◌, refl, ◌∙◌, ap, none, some, List, [], ◌∷◌, Bytes, length, arith, map,
  ◌==◌, if◌then◌else◌,
}
use mesh_vpn.Text.{◌>>=◌}
use mesh_vpn.Relay.{Packet, RelayRoutes, received, relay_event, route, read_frames, frames}
use mesh_vpn.Relay.Frames.{AllFit, read_frames-frames}

-- The packets in all bytes of a connection.
abbrev pub received_from : Bytes → Option (List Packet)
received_from stream = read_frames (suc (length stream)) stream

-- What the server puts into the channel of the connection `d`, of the packets that the client with the
-- key `identity` has sent over its connection `c`.
unfoldable pub delivered : ℕ → Bytes → RelayRoutes → ℕ → List Packet → List Packet
unfolding relay_event
delivered c identity r d [] = []
delivered c identity r d (p ∷ ps) =
    let rest = delivered c identity r d ps in
    elim (relay_event (received c identity p) r).0 [
      | none ↦ rest
      | some (e, q) ↦ if e == d then q ∷ rest else rest
    ]

abbrev pub addressed_to : Bytes → List Bytes → List Packet
addressed_to key payloads = map (λ x. (key, x)) payloads

delivered-addressed_to :
    (c : ℕ) (from to : Bytes) (r : RelayRoutes) (d : ℕ) (payloads : List Bytes)
    → route to r ≡ some d
    → delivered c from r d (addressed_to to payloads) ≡ addressed_to from payloads
unfolding delivered relay_event
delivered-addressed_to c from to r d [] e = refl
delivered-addressed_to c from to r d (x ∷ xs) e =
    ground (arith, e, delivered-addressed_to c from to r d xs e)

-- Payloads that a receiver accepts.
abbrev pub AllShort : List Bytes → Type 0
AllShort [] = Unit
AllShort (x ∷ xs) = (length x ≤ 65504) × AllShort xs

AllFit-addressed_to :
    (key : Bytes) (payloads : List Bytes)
    → length key ≡ 32
    → AllShort payloads
    → AllFit (addressed_to key payloads)
AllFit-addressed_to key [] k a = tt
AllFit-addressed_to key (x ∷ xs) k a =
    (record { key = k; payload = a.0 }, AllFit-addressed_to key xs k a.1)

-- What one client sends over the relay to a key of 32 bytes whose route leads to the connection `d`,
-- in payloads of at most 65504 bytes, the client at `d` reads: all payloads, in their order, each with
-- the 32-byte key with which the sender has identified itself.
pub received_from-delivered :
    (c : ℕ) (from to : Bytes) (r : RelayRoutes) (d : ℕ) (payloads : List Bytes)
    → length from ≡ 32
    → length to ≡ 32
    → route to r ≡ some d
    → AllShort payloads
    → (received_from (frames (addressed_to to payloads)) >>= λ sent.
        received_from (frames (delivered c from r d sent)))
      ≡ some (addressed_to from payloads)
received_from-delivered c from to r d payloads f t e a =
    ap (λ o. o >>= λ sent. received_from (frames (delivered c from r d sent)))
      (read_frames-frames (addressed_to to payloads) (AllFit-addressed_to to payloads t a))
    ∙ ap (λ ps. received_from (frames ps)) (delivered-addressed_to c from to r d payloads e)
    ∙ read_frames-frames (addressed_to from payloads) (AllFit-addressed_to from payloads f a)
