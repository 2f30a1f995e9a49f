-- ===== src/Peer/Examples.antt =====
-- The theorems on src/peer.rs at concrete inputs.
use mathlib.Core.Option.{some-injective}
use mesh_vpn.Base.{
  ℕ, ◌≡◌, ◌≢◌, ◌⊎◌, refl, sym, ◌∙◌, true, none, some, List, [], ◌∷◌, ◌++◌, Bytes, replicate, take,
  drop, arith, ℕ_discrete,
}
use mesh_vpn.Net.{to_be_bytes, from_be_bytes, Bytes-discrete}
use mesh_vpn.Net.Plain.{plain, tag, their_key, no_draw, padded_draw}
use mesh_vpn.Session.{check_and_update, get_bit, set_bit, clear_bit, clear_bits}
use mesh_vpn.Packet.{parse_ipv4_total_length}
use mesh_vpn.Session
use mesh_vpn.Peer
use mesh_vpn.Peer.{
  Peer, ActiveSession, fresh_session, encrypt_packet, decrypt_packet, determine_dest,
  check_rotation, respond, finish, pad, initiate_handshake, handle_handshake_packet, relay,
  establish, decrypt_active, receive, strip_padding, read_initiation, answer, resp_message_len,
}
use mesh_vpn.Peer.Plain.{plain-Pairs}
use mesh_vpn.Peer.Transport.{decrypt-encrypt, IsSized}
use mesh_vpn.Peer.Calls.{
  Call, shakes, decrypts, encrypts, rotates, initiates, run, call, AllLead, Leads,
}
use mesh_vpn.Peer.Shut.{Unread}
use mesh_vpn.Peer.Once.{decrypt_packet-once}
use mesh_vpn.Peer.Nonces.{sent_nonces, sent_nonces-Increasing, Increasing}
use mesh_vpn.Peer.Authentic.{Authenticates, Answers}
use mesh_vpn.Peer.Lifecycle.{respond-authentic, finish-in_progress, Unfinished}

-- An IPv4 packet of 20 bytes.
abbrev payload : Bytes
payload = 69 ∷ 0 ∷ 0 ∷ 20 ∷ 0 ∷ 0 ∷ 0 ∷ 0 ∷ 64 ∷ 17 ∷ 0 ∷ 0 ∷ 10 ∷ 0 ∷ 99 ∷ 2 ∷ 10 ∷ 0 ∷ 99 ∷ 3 ∷ []

abbrev session : ActiveSession ℕ
session = fresh_session 0 1

-- A peer with an active session and no endpoint.
abbrev peer : Peer ℕ ℕ
peer = record {
  pubkey = their_key;
  endpoint = none;
  allowed_ips = [];
  active = some session;
  previous = none;
  handshake = none;
  last_handshake_attempt = none;
  last_handshake_packet = none;
  last_rx = 0;
  last_tx = 0;
  last_direct_rx = 0;
  magic = Peer.default_magic;
}

total : parse_ipv4_total_length payload ≡ some 20
unfolding parse_ipv4_total_length
total = refl

payload-IsSized : IsSized payload
payload-IsSized n e = some-injective n 20 (sym e ∙ total)

abbrev sent : Bytes
sent = 3 ∷ (replicate 8 0 ++ (payload ++ (replicate 3 0 ++ tag 1)))

encrypted : (encrypt_packet plain 5 padded_draw payload peer).0 ≡ some sent
unfolding encrypt_packet pad to_be_bytes parse_ipv4_total_length
encrypted = refl

is_new : (check_and_update session.replay 0).1 ≡ true
unfolding check_and_update Session.new get_bit set_bit clear_bit clear_bits
is_new = refl

decrypt-encrypt_example : (decrypt_packet plain 6 (drop 1 sent) peer).0 ≡ some payload
decrypt-encrypt_example =
    decrypt-encrypt plain 5 6 padded_draw payload sent peer peer session session refl refl
      (plain-Pairs 1) payload-IsSized (omega arith) is_new encrypted

-- A peer that answers a handshake, and a packet of the session that this begins.
abbrev beginning : List Call
beginning = shakes 1 no_draw [] 1 (replicate 96 0) ∷ []

abbrev received : Bytes
received = replicate 8 0 ++ (payload ++ tag 2)

abbrev next_one : Bytes
next_one = replicate 7 0 ++ (1 ∷ (payload ++ tag 2))

abbrev answering : Peer ℕ ℕ
answering = run plain beginning (Peer.new 0 their_key none [])

received-once : (decrypt_packet plain 2 received answering).0 ≡ some payload
unfolding run call handle_handshake_packet respond read_initiation answer establish decrypt_packet
    decrypt_active receive check_and_update Session.new get_bit set_bit clear_bit clear_bits
    strip_padding parse_ipv4_total_length from_be_bytes Peer.new Bytes-discrete ℕ_discrete
received-once = refl

abbrev continuation : List Call
continuation =
    decrypts 3 next_one ∷ encrypts 4 no_draw payload ∷ rotates 5 ∷ initiates 6 no_draw [] ∷ []

continuation-AllLead :
    AllLead plain
      (Unread plain (from_be_bytes (take 8 received)) (drop 8 received))
      continuation
      (decrypt_packet plain 2 received answering).1
unfolding AllLead Leads
continuation-AllLead = (tt, (tt, (tt, (tt, tt))))

decrypt_packet-once_example :
    (decrypt_packet plain 7 received
      (run plain continuation (decrypt_packet plain 2 received answering).1)).0
    ≡ none
decrypt_packet-once_example =
    decrypt_packet-once plain 0 2 7 their_key none [] beginning continuation received payload
      received-once continuation-AllLead

-- Packets that are sent and received, with a handshake that is begun in between.
abbrev sendings : List Call
sendings =
    encrypts 5 no_draw payload
    ∷ (decrypts 6 received
        ∷ (encrypts 6 no_draw []
            ∷ (initiates 7 no_draw [] ∷ (rotates 7 ∷ (encrypts 8 padded_draw payload ∷ [])))))

sendings-AllLead : AllLead plain (λ t. ⊥) sendings peer
unfolding AllLead Leads
sendings-AllLead = (tt, (tt, (tt, (tt, (tt, (tt, tt))))))

sent_nonces-Increasing_example : Increasing 0 (sent_nonces plain sendings peer)
sent_nonces-Increasing_example =
    sent_nonces-Increasing plain sendings peer session refl sendings-AllLead (omega arith)

-- A message of an initiator that has the peer's key.
respond-authentic_example :
    ((respond plain 5 no_draw [] (replicate 96 0) peer ≡ (none, peer))
      × ((hs : ℕ) (packet : Bytes) (t : ℕ)
          → Authenticates plain no_draw [] (replicate 96 0) peer.pubkey hs
          → ¬ Answers plain no_draw peer.magic hs packet t))
    ⊎ ((hs : ℕ) × (packet : Bytes) × (t : ℕ) × Authenticates plain no_draw []
          (replicate 96 0)
          peer.pubkey
          hs
        × Answers plain no_draw peer.magic hs packet t
        × (respond plain 5 no_draw [] (replicate 96 0) peer ≡ (
          some packet,
          record peer {
            active = some (fresh_session 5 t);
            previous = elim peer.active [ none ↦ peer.previous | some s ↦ some s ];
            last_rx = 5;
            last_tx = 5;
          },
        )))
respond-authentic_example = respond-authentic plain 5 no_draw [] (replicate 96 0) peer

-- The peer once it has sent an initiation.
abbrev waiting : Peer ℕ ℕ
waiting = record peer { handshake = some 1 }

finish-in_progress_example :
    (((finish plain 5 (replicate 48 0) waiting).active ≡ waiting.active)
      × ((finish plain 5 (replicate 48 0) waiting).previous ≡ waiting.previous)
      × Unfinished plain 5 (replicate 48 0) waiting)
    ⊎ ((hs : ℕ) × (t : ℕ) × (waiting.handshake ≡ some hs)
        × ((plain.read_handshake hs (take resp_message_len (replicate 48 0)) 128).0 ≡ true)
        × (plain.into_transport
              (plain.read_handshake hs (take resp_message_len (replicate 48 0)) 128).1
            ≡ some t)
        × ((finish plain 5 (replicate 48 0) waiting).active ≡ some (fresh_session 5 t))
        × (waiting.active ≢ none
            → (finish plain 5 (replicate 48 0) waiting).previous ≡ waiting.active)
        × ((finish plain 5 (replicate 48 0) waiting).handshake ≡ none)
        × ((finish plain 5 (replicate 48 0) waiting).last_handshake_packet ≡ none))
finish-in_progress_example = finish-in_progress plain 5 (replicate 48 0) waiting
