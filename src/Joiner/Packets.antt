-- ===== src/Joiner/Packets.antt =====
-- The bytes that crates/mesh-joiner/src/wg/loops.rs reads in WireGuard frames and IPv6 packets.
use tabbify_service_mesh.Formats.{socket_eq}
use tabbify_service_mesh.Allocator.{Ipv6Addr, segments, addr_eq}
use tabbify_service_mesh.Shared.{
  ltb, leb, if◌then◌else◌, ◌==◌, nat_eq, list_eq, option_eq, pair_eq, Text, length, take, drop,
  map_option, ℕ, ◌+◌, ◌*◌, ◌/◌, ◌%◌, ◌≡◌, refl, Bool, false, ◌&&◌, Option, none, some, List, [],
  ◌∷◌, ◌++◌, arith,
}

abbrev pub first_byte : Text → Option ℕ
first_byte [] = none
first_byte (b ∷ bs) = some b

unfoldable pub is_wg_keepalive : Text → Bool
is_wg_keepalive frame = (length frame == 32) && (first_byte frame == some 4)

unfoldable pub is_wg_data_frame : Text → Bool
is_wg_data_frame frame = ltb 32 (length frame) && (first_byte frame == some 4)

-- `Some(1..=3)`
abbrev pub is_handshake_type : Option ℕ → Bool
is_handshake_type none = false
is_handshake_type (some b) = leb 1 b && leb b 3

unfoldable pub is_wg_handshake_frame : Text → Bool
is_wg_handshake_frame frame = leb 4 (length frame) && is_handshake_type (first_byte frame)

-- `Ipv6Addr::octets` and the address of sixteen bytes.
abbrev pub octets_of : List ℕ → List ℕ
octets_of [] = []
octets_of (s ∷ ss) = s / 256 ∷ s % 256 ∷ octets_of ss

abbrev pub octets : Ipv6Addr → List ℕ
octets a = octets_of (segments a)

abbrev pub from_octets : List ℕ → Option Ipv6Addr
from_octets (a ∷ b ∷ c ∷ d ∷ e ∷ f ∷ g ∷ h ∷ i ∷ j ∷ k ∷ l ∷ m ∷ n ∷ o ∷ p ∷ []) = some (record {
  s0 = a * 256 + b;
  s1 = c * 256 + d;
  s2 = e * 256 + f;
  s3 = g * 256 + h;
  s4 = i * 256 + j;
  s5 = k * 256 + l;
  s6 = m * 256 + n;
  s7 = o * 256 + p;
})
from_octets other = none

abbrev is_ipv6 : Text → Bool
is_ipv6 packet = leb 40 (length packet) && (map_option (λ b. b / 16) (first_byte packet) == some 6)

unfoldable pub ipv6_destination : Text → Option Ipv6Addr
ipv6_destination packet = if is_ipv6 packet then from_octets (take 16 (drop 24 packet)) else none

unfoldable pub ipv6_source : Text → Option Ipv6Addr
ipv6_source packet = if is_ipv6 packet then from_octets (take 16 (drop 8 packet)) else none

-- Version 6, and 59 for no next header; the other bytes before the addresses are zero.
unfoldable pub direct_probe_packet : (src dst : Ipv6Addr) → Text
direct_probe_packet src dst = 96 ∷ 0 ∷ 0 ∷ 0 ∷ 0 ∷ 0 ∷ 59 ∷ 0 ∷ octets src ++ octets dst

-- A probe is a bare IPv6 header that carries the two addresses: what reads a packet gets them back.
pub direct_probe_packet-addresses :
    (src dst : Ipv6Addr)
    → (ipv6_source (direct_probe_packet src dst) ≡ some src)
      × (ipv6_destination (direct_probe_packet src dst) ≡ some dst)
      × (length (direct_probe_packet src dst) ≡ 40)
unfolding ipv6_source ipv6_destination direct_probe_packet
direct_probe_packet-addresses src dst = (ground arith, ground arith, refl)
