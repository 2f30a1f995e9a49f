-- ===== src/Peer/Plain.antt =====
-- The test protocol keeps what src/peer.rs relies on: its transport states pair and write, and its
-- handshake completes.
use mathlib.Core.Option.{some-injective}
use mesh_vpn.Base.{
  ℕ, ◌+◌, ◌≡◌, refl, sym, ap, ◌∙◌, subst, some, [], ◌++◌, length, length-append, drop,
  take-append_left, drop-append_left, if_pos, replicate,
}
use mesh_vpn.Net.{Bytes-discrete}
use mesh_vpn.Net.Plain.{plain, tag, their_key}
use mesh_vpn.Peer.Transport.{Pairs}
use mesh_vpn.Peer.Handshake.{Completes, Writes}

pub plain-Pairs : (t : ℕ) → Pairs plain t t
plain-Pairs t nonce plaintext ciphertext e =
    let shape = some-injective ciphertext (plaintext ++ tag t) (sym e) in
    let behind = drop-append_left plaintext (tag t) (length plaintext) refl in
    let front = take-append_left plaintext (tag t) (length plaintext) refl in
    subst
      (λ c.
        (length c ≡ length plaintext + 16)
        × (plain.read_transport t nonce c (length plaintext) ≡ some plaintext))
      (sym shape)
      (
        length-append plaintext (tag t),
        if_pos (Bytes-discrete (drop (length plaintext) (plaintext ++ tag t)) (tag t)) behind _ _
            ∙ ap some front,
      )

pub plain-Writes : (t : ℕ) → Writes plain t
plain-Writes t nonce plaintext n h = (plaintext ++ tag t, refl)

pub plain-Completes : Completes plain 0 0 [] [] their_key their_key
plain-Completes = record {
  i0 = 0;
  i1 = 1;
  i2 = 2;
  r0 = 10;
  r1 = 11;
  r2 = 12;
  message = replicate 96 0;
  reply = replicate 48 11;
  tr_i = 2;
  tr_r = 2;
  starts = refl;
  writes = refl;
  message_len = refl;
  listens = refl;
  reads = refl;
  learns = refl;
  replies = refl;
  reply_len = refl;
  ends_r = refl;
  reads_reply = refl;
  ends_i = refl;
  forth = plain-Pairs 2;
  back = plain-Pairs 2;
  writes_i = plain-Writes 2;
  writes_r = plain-Writes 2;
}
