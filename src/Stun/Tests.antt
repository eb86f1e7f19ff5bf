-- ===== src/Stun/Tests.antt =====
-- The theorems on the STUN exchange at concrete inputs: the server's answer over IPv6.
use tabbify_service_mesh.Formats.{v6, SocketAddr, socket_eq}
use tabbify_service_mesh.Allocator.{addr_eq}
use tabbify_service_mesh.Stun.Exchange.{
  find_mapped-ends, parse_xor_mapped_address-build_binding_response,
}
use tabbify_service_mesh.Stun.{
  build_binding_response, txid_of, build_binding_request, find_mapped, parse_xor_mapped_address,
}
use tabbify_service_mesh.Shared.{
  nat_eq, list_eq, option_eq, pair_eq, ℕ, ◌≤◌, ◌≡◌, ◌≢◌, Option, none, some, List, [], ◌∷◌, arith,
}

abbrev seen_at : SocketAddr
seen_at = record {
  ip = v6 (record {
    s0 = 0x2001;
    s1 = 0xdb8;
    s2 = 1;
    s3 = 2;
    s4 = 3;
    s5 = 4;
    s6 = 0xffff;
    s7 = 0x1234;
  });
  port = 51820;
}

parse_xor_mapped_address-build_binding_response_example :
    (resp : List ℕ) × (build_binding_response (build_binding_request 1720000000).0 seen_at
      ≡ some resp)
    × (parse_xor_mapped_address resp (build_binding_request 1720000000).1 ≡ some seen_at)
    × ((txid : List ℕ)
        → txid ≢ (build_binding_request 1720000000).1
        → parse_xor_mapped_address resp txid ≡ none)
parse_xor_mapped_address-build_binding_response_example =
    parse_xor_mapped_address-build_binding_response 1720000000 seen_at (ground arith)

-- An unknown attribute of three bytes, padded, before one that is cut off.
abbrev attributes : List ℕ
attributes = 0 ∷ 6 ∷ 0 ∷ 3 ∷ 1 ∷ 2 ∷ 3 ∷ 0 ∷ 0 ∷ 32 ∷ 0 ∷ 8 ∷ 0 ∷ []

find_mapped-ends_example :
    (found : Option SocketAddr) × ((fuel : ℕ)
      → 13 ≤ fuel
      → find_mapped (txid_of 7) attributes fuel ≡ some found)
find_mapped-ends_example = find_mapped-ends (txid_of 7) attributes
