-- ===== src/Net/Plain.antt =====
-- A protocol in the place of the Noise crate that authenticates by a tag of sixteen equal bytes and
-- hides nothing, on which the tests run. An initiator's handshake states are 0, 1 and 2, a responder's
-- 10, 11 and 12.
use mesh_vpn.Base.{
  ◌%◌, ◌==◌, if◌then◌else◌, ℕ, ◌+◌, none, some, Bytes, ◌++◌, replicate, take, drop, ite, true, [],
}
use mesh_vpn.Net.{Noise, Parsers, Draw, Bytes-discrete}

-- The static key of the other side.
abbrev pub their_key : Bytes
their_key = replicate 32 9

abbrev pub tag : ℕ → Bytes
tag t = replicate 16 t

abbrev pub plain : Noise ℕ ℕ
plain = record {
  build_initiator = λ seed priv key. some 0;
  build_responder = λ seed priv. some 10;
  write_handshake = λ h size. some (replicate (if h == 0 then 96 else 48) h, h + 1);
  read_handshake = λ h msg size. (true, h + 1);
  remote_static = λ h. some their_key;
  into_transport = λ h. some (h % 10);
  write_transport = λ t nonce payload size. some (payload ++ tag t);
  read_transport =
      λ t nonce c size. ite (Bytes-discrete (drop size c) (tag t)) (some (take size c)) none;
}

abbrev pub no_draw : Draw
no_draw = record { seed = 0; padding = [] }

abbrev pub padded_draw : Draw
padded_draw = record { seed = 0; padding = replicate 3 0 }

-- Parsers that take a text for the bytes of a key, and know no endpoint.
abbrev pub plain_parsers : Parsers
plain_parsers = record { decode_hex = λ s. some s; parse_socket_addr = λ s. none }
