-- ===== src/Joiner/Peers.antt =====
-- crates/mesh-joiner/src/peer.rs and coordinator/client/decode.rs: a peer as the wire and as the
-- joiner has it. What resolves a host name is an argument.
use tabbify_service_mesh.Formats.{SocketAddr, Formats}
use tabbify_service_mesh.Allocator.{Ipv6Addr, addr_eq}
use tabbify_service_mesh.Shared.{
  if◌then◌else◌, is_some, ◌==◌, nat_eq, list_eq, option_eq, pair_eq, Text, bytes, length, is_empty,
  Result, ok, err, ◌>>=◌, or_err, ℤ, ℕ, Bool, Option, none, some, List, [], ◌∷◌,
}

pub record PeerInfo : Type 0 where
  pub peer_id : ℕ
  pub wg_public_key : Text
  pub ula : Ipv6Addr
  pub listen_endpoint : Option SocketAddr
  pub display_name : Text
  pub tags : List Text
  pub hosted_app_ulas : List Ipv6Addr
  pub software_version : Option Text
  pub mesh_version : Option Text
  pub joined_at_micros : ℤ

pub record RemotePeer : Type 0 where
  pub peer_id : ℕ
  pub wg_public_key : Text
  pub ula : Text
  pub listen_endpoint : Option Text
  pub display_name : Text
  pub tags : List Text
  pub hosted_app_ulas : List Text
  pub software_version : Option Text
  pub mesh_version : Option Text
  pub joined_at_micros : ℤ

pub data PeerEventKind : Type 0 where
  added : PeerEventKind
  updated : PeerEventKind
  removed : PeerEventKind
  hole_punch : PeerEventKind
  relay_wake : PeerEventKind

unfoldable pub from_event_name : Text → Option PeerEventKind
from_event_name s =
    if s == bytes "peer_added"
    then some PeerEventKind.added
    else if s == bytes "peer_updated"
    then some PeerEventKind.updated
    else if s == bytes "peer_removed"
    then some PeerEventKind.removed
    else if s == bytes "holepunch_initiate"
    then some PeerEventKind.hole_punch
    else if s == bytes "relay_wake"
    then some PeerEventKind.relay_wake
    else none

unfoldable pub is_ephemeral_peer : Ipv6Addr → Bool
is_ephemeral_peer ula = ula.s1 == 7938

-- The one error of decoding that the callers meet, without its text.
pub data DecodeError : Type 0 where
  malformed_peer : DecodeError

module _ (formats : Formats) (lookup_host : Text → Option (List SocketAddr)) where
  unfoldable pub decode_pubkey : Text → Result DecodeError Text
  decode_pubkey s =
      or_err (formats.decode_base64 s) malformed_peer
      >>= (λ b. if length b == 32 then ok b else err malformed_peer)

  -- `hosts.next()`
  abbrev first_host : Option (List SocketAddr) → Option SocketAddr
  first_host none = none
  first_host (some []) = none
  first_host (some (a ∷ more)) = some a

  abbrev pub resolve_endpoint : Option Text → Option SocketAddr
  resolve_endpoint none = none
  resolve_endpoint (some s) =
      if is_empty s
      then none
      else if is_some (formats.parse_socket s)
      then formats.parse_socket s
      else first_host (lookup_host s)

  abbrev pub parsed_ulas : List Text → List Ipv6Addr
  parsed_ulas [] = []
  parsed_ulas (s ∷ more) = keep (formats.parse_ipv6 s) (parsed_ulas more)
    where
      keep : Option Ipv6Addr → List Ipv6Addr → List Ipv6Addr
      keep none rest = rest
      keep (some a) rest = a ∷ rest

  unfoldable pub remote_to_info : RemotePeer → Result DecodeError PeerInfo
  remote_to_info r = decode_pubkey r.wg_public_key >>= (λ key.
      or_err (formats.parse_ipv6 r.ula) malformed_peer >>= (λ ula. ok (record {
        peer_id = r.peer_id;
        wg_public_key = key;
        ula = ula;
        listen_endpoint = resolve_endpoint r.listen_endpoint;
        display_name = r.display_name;
        tags = r.tags;
        hosted_app_ulas = parsed_ulas r.hosted_app_ulas;
        software_version = r.software_version;
        mesh_version = r.mesh_version;
        joined_at_micros = r.joined_at_micros;
      })))
