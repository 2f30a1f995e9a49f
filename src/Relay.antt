-- ===== src/Relay.antt =====
-- The frames of src/relay.rs, which src/bin/coordinatord.rs reads and writes as well, and the routes of
-- its relay server.
pub mod Frames
pub mod Routes
pub mod Forward
mod Examples
use mesh_vpn.Base.{
  ℕ, zero, suc, ◌+◌, ◌%◌, Bool, true, false, ◌||◌, Option, none, some, List, [], ◌∷◌, ◌++◌, Bytes,
  u32_mod, ltb, if◌then◌else◌, length, take, drop, ite,
}
use mesh_vpn.Net.{to_be_bytes, from_be_bytes, Bytes-discrete}
use mesh_vpn.Text.{◌>>=◌}

-- A packet with a key: the recipient's towards the server, the sender's towards a client.
abbrev pub Packet : Type 0
Packet = Bytes × Bytes

-- What the sending loops write for one packet. The length is cast to 32 bits; the key has 32 bytes.
unfoldable pub frame : Packet → Bytes
frame (key, payload) = to_be_bytes 4 ((32 + length payload) % u32_mod) ++ (key ++ payload)

unfoldable pub frames : List Packet → Bytes
unfolding frame
frames [] = []
frames (p ∷ ps) = frame p ++ frames ps

-- `read_exact`: the bytes and what follows them.
unfoldable pub read_exact : ℕ → Bytes → Option (Bytes × Bytes)
read_exact n stream = if ltb (length stream) n then none else some (take n stream, drop n stream)

-- The rest of a frame behind its length.
unfoldable pub read_body : ℕ → Bytes → Option (Packet × Bytes)
unfolding read_exact
read_body frame_len stream =
    if ltb frame_len 32 || ltb 65536 frame_len then none else elim (read_exact frame_len stream) [
      | none ↦ none
      | some (body, rest) ↦ some ((take 32 body, drop 32 body), rest)
    ]

-- One turn of a receiving loop: the packet and the rest of the stream, or the end of the loop.
unfoldable pub read_frame : Bytes → Option (Packet × Bytes)
unfolding read_exact read_body
read_frame stream = elim (read_exact 4 stream) [
  | none ↦ none
  | some (len_buf, rest) ↦ read_body (from_be_bytes len_buf) rest
]

-- The receiving loop, over all bytes that the connection brings: the packets, once the loop has ended,
-- or none if it has not within its fuel.
unfoldable pub read_frames : ℕ → Bytes → Option (List Packet)
unfolding read_frame
read_frames zero stream = none
read_frames (suc fuel) stream = elim (read_frame stream) [
  | none ↦ some []
  | some (p, rest) ↦ read_frames fuel rest >>= λ ps. some (p ∷ ps)
]

-- `RelayRoutes` of src/bin/coordinatord.rs: the connection that serves each key.
abbrev pub RelayRoutes : Type 0
RelayRoutes = List (Bytes × ℕ)

unfoldable pub route : Bytes → RelayRoutes → Option ℕ
route key [] = none
route key ((k, c) ∷ r) = ite (Bytes-discrete k key) (some c) (route key r)

unfoldable pub remove : Bytes → RelayRoutes → RelayRoutes
remove key [] = []
remove key ((k, c) ∷ r) = let rest = remove key r in ite (Bytes-discrete k key) rest ((k, c) ∷ rest)

-- `HashMap::insert`
unfoldable pub connect : Bytes → ℕ → RelayRoutes → RelayRoutes
unfolding remove
connect key c r = (key, c) ∷ remove key r

-- What happens at the relay server: a client identifies itself, one of its frames arrives, its
-- connection ends.
pub data RelayEvent : Type 0 where
  identified : ℕ → Bytes → RelayEvent
  received : ℕ → Bytes → Packet → RelayEvent
  ended : ℕ → Bytes → RelayEvent

-- What the server passes on: to a connection, the sender's key and the payload.
unfoldable pub relay_event : RelayEvent → RelayRoutes → Option (ℕ × Packet) × RelayRoutes
unfolding connect
relay_event (identified c identity) r = (none, connect identity c r)
relay_event (received c identity (dest_key, payload)) r =
    (elim (route dest_key r) [ none ↦ none | some d ↦ some (d, (identity, payload)) ], r)
relay_event (ended c identity) r = (none, remove identity r)

unfoldable pub relay_events : List RelayEvent → RelayRoutes → RelayRoutes
unfolding relay_event
relay_events [] r = r
relay_events (e ∷ es) r = relay_events es (relay_event e r).1
