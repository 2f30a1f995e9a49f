-- ===== src/Config.antt =====
-- src/types.rs and the peer part of src/config.rs: the descriptor of a peer, its text form, and the
-- one parser through which every descriptor goes.
pub mod Spec
pub mod Ranges
pub mod Settings
pub mod Address
mod Examples
use mesh_vpn.Base.{
  ◌++◌, Option, none, some, List, [], ◌∷◌, Bytes, Result, ok, err, ◌==◌, if◌then◌else◌, length,
}
use mesh_vpn.Text.{split, trim}
use mesh_vpn.Net.{SocketAddr, Parsers}
use mesh_vpn.Packet.{Ipv4Subnet, from_str, ok_or, ◌>>=◌}

pub record PeerDescriptor : Type 0 where
  pub public_key : Bytes
  pub allowed_ip : Bytes
  pub endpoint : Option Bytes

abbrev pub unwrap_or {ℓ} : {A : Type ℓ} → Option A → A → A
unwrap_or none d = d
unwrap_or (some a) d = a

unfoldable pub to_spec : PeerDescriptor → Bytes
to_spec d = d.public_key ++ (b';' ∷ (unwrap_or d.endpoint [] ++ (b';' ∷ d.allowed_ip)))

pub record ParsedPeer : Type 0 where
  pub pubkey : Bytes
  pub endpoint : Option SocketAddr
  pub allowed_ips : List Ipv4Subnet

-- The messages of `parse_peer_arg`, each an `AraxError::Config`.
pub data PeerError : Type 0 where
  peer_format key_hex key_length bad_endpoint bad_allowed_ip : PeerError

module _ (P : Parsers) where
  open P use {decode_hex, parse_socket_addr}

  unfoldable pub parse_key : Bytes → Result Bytes PeerError
  parse_key s = do
    pubkey ← ok_or (decode_hex s) key_hex
    if length pubkey == 32 then ok pubkey else err key_length

  unfoldable pub parse_endpoint : Bytes → Result (Option SocketAddr) PeerError
  parse_endpoint [] = ok none
  parse_endpoint (c ∷ s) = do
    endpoint ← ok_or (parse_socket_addr (c ∷ s)) bad_endpoint
    ok (some endpoint)

  -- The first part that is no subnet fails the whole list.
  unfoldable pub parse_subnets : List Bytes → Result (List Ipv4Subnet) PeerError
  parse_subnets [] = ok []
  parse_subnets (s ∷ ss) = elim (from_str (trim s)) [
    | err e ↦ err bad_allowed_ip
    | ok subnet ↦ parse_subnets ss >>= λ subnets. ok (subnet ∷ subnets)
  ]

  abbrev pub parse_fields : List Bytes → Result ParsedPeer PeerError
  parse_fields (key ∷ endpoint ∷ allowed ∷ []) = do
    pubkey ← parse_key key
    endpoint ← parse_endpoint endpoint
    allowed_ips ← parse_subnets (split b',' allowed)
    ok (record { pubkey = pubkey; endpoint = endpoint; allowed_ips = allowed_ips })
  parse_fields parts = err peer_format

  unfoldable pub parse_peer_arg : Bytes → Result ParsedPeer PeerError
  parse_peer_arg s = parse_fields (split b';' s)
