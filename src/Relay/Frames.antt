-- ===== src/Relay/Frames.antt =====
-- The frames of src/relay.rs: what one side writes, the other side reads.
use mesh_vpn.Base.{
  ℕ, zero, suc, ◌+◌, ◌-◌, ◌%◌, ◌≤◌, ◌<◌, ◌≡◌, refl, ◌∙◌, ap, sym, none, some, List, [], ◌∷◌, ◌++◌,
  Bytes, u32_mod, arith, length, length-append, take-append_left, drop-append_left, le→ltb,
}
use mesh_vpn.Text.{◌>>=◌}
use mesh_vpn.Net.{to_be_bytes, from_be_bytes, length-to_be_bytes, from_be_bytes-to_be_bytes}
use mesh_vpn.Relay.{Packet, frame, frames, read_frame, read_frames, read_exact, read_body}

-- A packet with a key of 32 bytes that a receiver accepts.
pub record Fits (p : Packet) : Type 0 where
  pub key : length p.0 ≡ 32
  pub payload : length p.1 ≤ 65504

read_exact-append :
    (n : ℕ) (xs ys : Bytes) → n ≡ length xs → read_exact n (xs ++ ys) ≡ some (xs, ys)
unfolding read_exact
read_exact-append n xs ys e =
    rw
      (
        le→ltb (length (xs ++ ys)) n (omega (arith, length-append xs ys)),
        take-append_left xs ys n e,
        drop-append_left xs ys n e,
      )
      refl

append_assoc : (xs ys zs : Bytes) → (xs ++ ys) ++ zs ≡ xs ++ (ys ++ zs)
append_assoc [] ys zs = refl
append_assoc (x ∷ xs) ys zs = ap (λ t. x ∷ t) (append_assoc xs ys zs)

read_body-append :
    (p : Packet) (rest : Bytes)
    → Fits p
    → read_body (32 + length p.1) ((p.0 ++ p.1) ++ rest) ≡ some (p, rest)
unfolding read_body
read_body-append (key, payload) rest f = ground (
  arith,
  f.payload,
  read_exact-append (32 + length payload) (key ++ payload) rest
      (omega (arith, length-append key payload, f.key)),
  take-append_left key payload 32 (sym f.key),
  drop-append_left key payload 32 (sym f.key),
)

len_bytes : Bytes → Bytes
len_bytes payload = to_be_bytes 4 ((32 + length payload) % u32_mod)

from_be_bytes-len_bytes :
    (payload : Bytes)
    → length payload < u32_mod - 32
    → from_be_bytes (len_bytes payload) ≡ 32 + length payload
unfolding len_bytes
from_be_bytes-len_bytes payload h =
    from_be_bytes-to_be_bytes 4 ((32 + length payload) % u32_mod) (omega arith) ∙ omega (arith, h)

read_exact-frame :
    (p : Packet) (rest : Bytes)
    → read_exact 4 (frame p ++ rest) ≡ some (len_bytes p.1, (p.0 ++ p.1) ++ rest)
unfolding frame len_bytes
read_exact-frame (key, payload) rest =
    ap (read_exact 4) (append_assoc (len_bytes payload) (key ++ payload) rest)
    ∙ read_exact-append 4 (len_bytes payload) ((key ++ payload) ++ rest)
        (sym (length-to_be_bytes 4 ((32 + length payload) % u32_mod)))

-- A turn of the loop on a frame goes on to the body, with the length that was written.
read_frame-body :
    (p : Packet) (rest : Bytes)
    → length p.1 < u32_mod - 32
    → read_frame (frame p ++ rest) ≡ read_body (32 + length p.1) ((p.0 ++ p.1) ++ rest)
unfolding read_frame
read_frame-body (key, payload) rest h =
    ap (λ o. elim o [ none ↦ none | some c ↦ read_body (from_be_bytes c.0) c.1 ])
      (read_exact-frame (key, payload) rest)
    ∙ ap (λ n. read_body n ((key ++ payload) ++ rest)) (from_be_bytes-len_bytes payload h)

read_frame-frame :
    (p : Packet) (rest : Bytes) → Fits p → read_frame (frame p ++ rest) ≡ some (p, rest)
read_frame-frame p rest f =
    read_frame-body p rest (omega (arith, f.payload)) ∙ read_body-append p rest f

abbrev pub AllFit : List Packet → Type 0
AllFit [] = Unit {0}
AllFit (p ∷ ps) = Fits p × AllFit ps

read_frames-frames_fuel :
    (ps : List Packet) (fuel : ℕ)
    → length ps < fuel
    → AllFit ps
    → read_frames fuel (frames ps) ≡ some ps
unfolding read_frames frames
read_frames-frames_fuel [] zero h a = absurd (omega arith)
read_frames-frames_fuel [] (suc fuel) h a = refl
read_frames-frames_fuel (p ∷ ps) zero h a = absurd (omega arith)
read_frames-frames_fuel (p ∷ ps) (suc fuel) h (f, a) =
    ap (λ o. elim o [ none ↦ some [] | some c ↦ read_frames fuel c.1 >>= λ qs. some (c.0 ∷ qs) ])
      (read_frame-frame p (frames ps) f)
    ∙ ap (λ o. o >>= λ qs. some (p ∷ qs)) (read_frames-frames_fuel ps fuel (omega arith) a)

length-frames : (ps : List Packet) → length ps ≤ length (frames ps)
unfolding frames frame
length-frames [] = omega arith
length-frames ((key, payload) ∷ ps) = omega (
  arith,
  length-append (frame (key, payload)) (frames ps),
  length-append (to_be_bytes 4 ((32 + length payload) % u32_mod)) (key ++ payload),
  length-to_be_bytes 4 ((32 + length payload) % u32_mod),
  length-frames ps,
)

-- Whatever packets one side writes, with keys of 32 bytes and payloads of at most 65504 bytes, the
-- other side reads from the bytes, all of them and in their order, and its loop ends after them.
pub read_frames-frames :
    (ps : List Packet) → AllFit ps → read_frames (suc (length (frames ps))) (frames ps) ≡ some ps
read_frames-frames ps a =
    read_frames-frames_fuel ps (suc (length (frames ps))) (omega (arith, length-frames ps)) a
