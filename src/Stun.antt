-- ===== src/Stun.antt =====
-- The two ends of a STUN exchange: crates/mesh-coordinator/src/nat/stun_server.rs
-- (build_binding_response) and crates/mesh-joiner/src/nat/stun.rs. A byte is a number below 256.
use tabbify_service_mesh.Formats.{IpAddr, v4, v6, SocketAddr, socket_eq, plain}
use tabbify_service_mesh.Allocator.{addr_eq}
use tabbify_service_mesh.Joiner.Packets.{octets, from_octets}
use Prim.Native.Nat.{bit_xor}
use tabbify_service_mesh.Shared.{
  ltb, leb, if◌then◌else◌, get_or, ◌==◌, nat_eq, list_eq, option_eq, pair_eq, length, take, drop,
  map_option, ℕ, zero, suc, ◌+◌, ◌*◌, ◌/◌, ◌%◌, ◌^◌, not, ◌&&◌, Option, none, some, List, [], ◌∷◌,
  ◌++◌, map,
}
pub mod Exchange
pub mod Tests

abbrev pub stun_magic_cookie : ℕ
stun_magic_cookie = 0x2112a442

abbrev pub stun_binding_request : ℕ
stun_binding_request = 0x0001

abbrev pub stun_binding_success : ℕ
stun_binding_success = 0x0101

abbrev pub attr_xor_mapped_address : ℕ
attr_xor_mapped_address = 0x0020

-- `u16::to_be_bytes`, `u32::to_be_bytes` and `u16::from_be_bytes`.
abbrev pub be16 : ℕ → List ℕ
be16 n = n / 256 % 256 ∷ n % 256 ∷ []

abbrev pub be32 : ℕ → List ℕ
be32 n = n / 16777216 % 256 ∷ n / 65536 % 256 ∷ n / 256 % 256 ∷ n % 256 ∷ []

abbrev pub from_be16 : List ℕ → ℕ
from_be16 (hi ∷ lo ∷ []) = hi * 256 + lo
from_be16 other = 0

abbrev pub cookie : List ℕ
cookie = be32 stun_magic_cookie

-- The bytes of one list mixed with those of another.
abbrev pub xor_bytes : (plain mask : List ℕ) → List ℕ
xor_bytes [] mask = []
xor_bytes (b ∷ bs) [] = []
xor_bytes (b ∷ bs) (k ∷ ks) = bit_xor b k ∷ xor_bytes bs ks

abbrev pub xor_port : ℕ → ℕ
xor_port port = bit_xor port (stun_magic_cookie / 65536)

-- The length of the attribute, and its body.
abbrev pub mapped_body : (txid : List ℕ) (ip : IpAddr) (port : ℕ) → ℕ × List ℕ
mapped_body txid (v4 a b c d) port =
    (8, 0 ∷ 1 ∷ be16 (xor_port port) ++ xor_bytes (a ∷ b ∷ c ∷ d ∷ []) cookie)
mapped_body txid (v6 a) port =
    (20, 0 ∷ 2 ∷ be16 (xor_port port) ++ xor_bytes (octets a) (cookie ++ txid))

abbrev pub binding_response : (txid : List ℕ) → ℕ × List ℕ → List ℕ
binding_response txid (attr_len, body) =
    be16 stun_binding_success
    ++ be16 (4 + attr_len)
    ++ cookie
    ++ txid
    ++ be16 attr_xor_mapped_address
    ++ be16 attr_len
    ++ body

unfoldable pub build_binding_response : (request : List ℕ) (source : SocketAddr) → Option (List ℕ)
build_binding_response request source =
    let txid = take 12 (drop 8 request) in
    if ltb (length request) 20
    then none
    else if not (from_be16 (take 2 request) == stun_binding_request)
    then none
    else if not (take 4 (drop 4 request) == cookie)
    then none
    else some (binding_response txid (mapped_body txid source.ip source.port))

-- `(seed >> (i * 8)) & 0xff`
abbrev pub txid_byte : (seed i : ℕ) → ℕ
txid_byte seed i = seed / 256 ^ i % 256

abbrev pub txid_of : (seed : ℕ) → List ℕ
txid_of seed = map (txid_byte seed) (0 ∷ 1 ∷ 2 ∷ 3 ∷ 4 ∷ 5 ∷ 6 ∷ 7 ∷ 8 ∷ 9 ∷ 10 ∷ 11 ∷ [])

-- The request and its id; `seed` is the time in nanoseconds.
unfoldable pub build_binding_request : (seed : ℕ) → List ℕ × List ℕ
build_binding_request seed =
    (be16 stun_binding_request ++ be16 0 ++ cookie ++ txid_of seed, txid_of seed)

abbrev pub address_v4 : List ℕ → (port : ℕ) → Option SocketAddr
address_v4 (a ∷ b ∷ c ∷ d ∷ []) port = some (record { ip = v4 a b c d; port = port })
address_v4 other port = none

abbrev pub address_v6 : List ℕ → (port : ℕ) → Option SocketAddr
address_v6 ip port = map_option (λ a. record { ip = v6 a; port = port }) (from_octets ip)

-- A value of the attribute, `alen` bytes long and at least eight.
abbrev pub mapped_address : (txid : List ℕ) (alen : ℕ) (value : List ℕ) → Option SocketAddr
mapped_address txid alen (reserved ∷ family ∷ hi ∷ lo ∷ ip) =
    let port = xor_port (hi * 256 + lo) in
    if family == 1
    then address_v4 (xor_bytes (take 4 ip) cookie) port
    else if (family == 2) && leb 20 alen
    then address_v6 (xor_bytes (take 16 ip) (cookie ++ txid)) port
    else none
mapped_address txid alen other = none

-- `alen.div_ceil(4) * 4`
abbrev pub padded : (alen : ℕ) → ℕ
padded alen = (alen + 3) / 4 * 4

-- The attributes from the offset on, for a number of rounds; `none` if these were not enough.
abbrev pub find_mapped : (txid attributes : List ℕ) (fuel : ℕ) → Option (Option SocketAddr)
find_mapped txid (t1 ∷ t0 ∷ l1 ∷ l0 ∷ body) zero = none
find_mapped txid (t1 ∷ t0 ∷ l1 ∷ l0 ∷ body) (suc fuel) =
    let alen = l1 * 256 + l0 in
    let next = find_mapped txid (drop (padded alen) body) fuel in
    if ltb (length body) alen
    then some none
    else if (t1 * 256 + t0 == attr_xor_mapped_address) && leb 8 alen
    then some (mapped_address txid alen body)
    else next
find_mapped txid other fuel = some none

unfoldable pub parse_xor_mapped_address : (resp txid : List ℕ) → Option SocketAddr
parse_xor_mapped_address resp txid =
    if ltb (length resp) 20
    then none
    else if not (from_be16 (take 2 resp) == stun_binding_success)
    then none
    else if not (take 12 (drop 8 resp) == txid)
    then none
    else get_or (find_mapped txid (drop 20 resp) (length resp)) none
