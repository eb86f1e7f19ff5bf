-- ===== src/Stun/Exchange.antt =====
-- The exchange of crates/mesh-joiner/src/nat/stun.rs with the server of
-- crates/mesh-coordinator/src/nat/stun_server.rs, and the client's loop over the attributes.
use Prim.Native.Nat.{bit_xor}
use tabbify_service_mesh.Shared.{
  ltb, leb, if◌then◌else◌, get_or, ◌==◌, nat_eq, eq_refl, list_beq_iff, list_eq, option_eq, pair_eq,
  length, drop, ℕ, zero, suc, ◌+◌, ◌*◌, ◌/◌, ◌%◌, ◌≤◌, ◌<◌, ◌≡◌, refl, ◌∙◌, ◌≢◌, Bool, true, false,
  not, ◌&&◌, Option, none, some, List, [], ◌∷◌, arith,
}
use tabbify_service_mesh.Formats.{IpAddr, v4, v6, SocketAddr, socket_eq}
use tabbify_service_mesh.Allocator.{addr_eq}
use tabbify_service_mesh.Stun.{
  stun_magic_cookie, attr_xor_mapped_address, be16, from_be16, xor_port, mapped_body,
  binding_response, build_binding_response, txid_byte, txid_of, build_binding_request,
  mapped_address, padded, find_mapped, parse_xor_mapped_address,
}
use tabbify_service_mesh.Shared.Bits.{bit_xor_bound, bit_xor_twice}

length-drop {ℓ} : {A : Type ℓ} → (n : ℕ) (xs : List A) → length (drop n xs) ≤ length xs
length-drop zero xs = omega arith
length-drop (suc n) [] = omega arith
length-drop (suc n) (x ∷ xs) = omega (arith, length-drop n xs)

some-if :
    (b c : Bool) (x y : Option SocketAddr) (r : Option (Option SocketAddr))
    → r ≡ some y
    → (if b then some none else if c then some x else r)
      ≡ some (if b then none else if c then x else y)
some-if true c x y r e = refl
some-if false true x y r e = refl
some-if false false x y r e = e

-- The loop ends with this.
abbrev Ends : (txid attributes : List ℕ) → Type 0
Ends txid attributes =
    (found : Option SocketAddr) × ((fuel : ℕ)
      → length attributes ≤ fuel
      → find_mapped txid attributes fuel ≡ some found)

Ends-bounded : (n : ℕ) (txid attributes : List ℕ) → length attributes ≤ n → Ends txid attributes
Ends-bounded n txid [] h = (none, λ fuel e. refl)
Ends-bounded n txid (a ∷ []) h = (none, λ fuel e. refl)
Ends-bounded n txid (a ∷ b ∷ []) h = (none, λ fuel e. refl)
Ends-bounded n txid (a ∷ b ∷ c ∷ []) h = (none, λ fuel e. refl)
Ends-bounded zero txid (t1 ∷ t0 ∷ l1 ∷ l0 ∷ body) h = absurd (omega arith)
Ends-bounded (suc n) txid (t1 ∷ t0 ∷ l1 ∷ l0 ∷ body) h =
    let alen = l1 * 256 + l0 in
    let shorter = length-drop (padded alen) body in
    let later = Ends-bounded n txid (drop (padded alen) body) (omega arith) in
    (
      if ltb (length body) alen
          then none
          else if (t1 * 256 + t0 == attr_xor_mapped_address) && leb 8 alen
          then mapped_address txid alen body
          else later.0,
      ended later shorter,
    )
  where
    ended :
        (later : Ends txid (drop (padded (l1 * 256 + l0)) body))
        → length (drop (padded (l1 * 256 + l0)) body) ≤ length body
        → (fuel : ℕ) → length (t1 ∷ t0 ∷ l1 ∷ l0 ∷ body) ≤ fuel
        → find_mapped txid (t1 ∷ t0 ∷ l1 ∷ l0 ∷ body) fuel
          ≡ some (
              if ltb (length body) (l1 * 256 + l0)
              then none
              else if (t1 * 256 + t0 == attr_xor_mapped_address) && leb 8 (l1 * 256 + l0)
              then mapped_address txid (l1 * 256 + l0) body
              else later.0)
    ended later shorter zero e = absurd (omega arith)
    ended later shorter (suc fuel) e =
        some-if (ltb (length body) (l1 * 256 + l0))
          ((t1 * 256 + t0 == attr_xor_mapped_address) && leb 8 (l1 * 256 + l0))
          (mapped_address txid (l1 * 256 + l0) body) later.0
          (find_mapped txid (drop (padded (l1 * 256 + l0)) body) fuel) (later.1 fuel (omega arith))

-- Whatever the attributes, the loop ends within a round for each of their bytes, and more rounds change
-- nothing.
pub find_mapped-ends :
    (txid attributes : List ℕ)
    → (found : Option SocketAddr) × ((fuel : ℕ)
        → length attributes ≤ fuel
        → find_mapped txid attributes fuel ≡ some found)
find_mapped-ends txid attributes = Ends-bounded (length attributes) txid attributes (omega arith)

xor_port-be16 : (port : ℕ) → port < 65536 → xor_port (from_be16 (be16 (xor_port port))) ≡ port
xor_port-be16 port h =
    let below = bit_xor_bound 16 port (stun_magic_cookie / 65536) (omega arith) (omega arith) in
    let whole : from_be16 (be16 (xor_port port)) ≡ xor_port port = omega arith in
    rw whole (bit_xor_twice port (stun_magic_cookie / 65536))

if_matches : (b : Bool) (r : Option SocketAddr) → b ≡ true → (if not b then none else r) ≡ r
if_matches true r e = refl
if_matches false r e = absurd (ground arith)

not_same : (xs ys : List ℕ) → ys ≢ xs → (xs == ys) ≡ false
not_same xs ys h = ground (arith, list_beq_iff xs ys)

if_differs : (b : Bool) (r : Option SocketAddr) → b ≡ false → (if not b then none else r) ≡ none
if_differs false r e = refl
if_differs true r e = absurd (ground arith)

-- A segment of an address, of which both bytes are mixed in twice.
segment_back :
    (s j k : ℕ) → bit_xor (bit_xor (s / 256) j) j * 256 + bit_xor (bit_xor (s % 256) k) k ≡ s
segment_back s j k = omega (arith, bit_xor_twice (s / 256) j, bit_xor_twice (s % 256) k)

-- The server's answer to the client's request.
abbrev answer : (txid : List ℕ) → SocketAddr → List ℕ
answer txid source = binding_response txid (mapped_body txid source.ip source.port)

address_read :
    (seed : ℕ) (ip : IpAddr) (port : ℕ)
    → port < 65536
    → get_or
        (find_mapped
          (txid_of seed)
          (drop 20 (answer (txid_of seed) (record { ip = ip; port = port })))
          (length (answer (txid_of seed) (record { ip = ip; port = port }))))
        none
      ≡ some (record { ip = ip; port = port })
address_read seed (v4 a b c d) port h =
    rw
      (
        xor_port-be16 port h,
        bit_xor_twice a 0x21,
        bit_xor_twice b 0x12,
        bit_xor_twice c 0xa4,
        bit_xor_twice d 0x42,
      )
      refl
address_read seed (v6 a) port h =
    rw
      (
        xor_port-be16 port h,
        segment_back a.s0 0x21 0x12,
        segment_back a.s1 0xa4 0x42,
        segment_back a.s2 (txid_byte seed 0) (txid_byte seed 1),
        segment_back a.s3 (txid_byte seed 2) (txid_byte seed 3),
        segment_back a.s4 (txid_byte seed 4) (txid_byte seed 5),
        segment_back a.s5 (txid_byte seed 6) (txid_byte seed 7),
        segment_back a.s6 (txid_byte seed 8) (txid_byte seed 9),
        segment_back a.s7 (txid_byte seed 10) (txid_byte seed 11),
      )
      refl

-- The parser on such an answer: it asks for the id, then reads the address.
parse_answer :
    (seed : ℕ) (ip : IpAddr) (port : ℕ) (txid : List ℕ)
    → let resp = answer (txid_of seed) (record { ip = ip; port = port }) in
      parse_xor_mapped_address resp txid ≡ (
        if not (txid_of seed == txid)
        then none
        else get_or (find_mapped txid (drop 20 resp) (length resp)) none)
unfolding parse_xor_mapped_address
parse_answer seed (v4 a b c d) port txid = refl
parse_answer seed (v6 a) port txid = refl

-- The client that asks the server gets back, under the id of its request, the address that the server
-- saw it at, of either family; and under any other id it gets nothing. The port is below 65536.
pub parse_xor_mapped_address-build_binding_response :
    (seed : ℕ) (source : SocketAddr)
    → source.port < 65536
    → (resp : List ℕ) × (build_binding_response (build_binding_request seed).0 source ≡ some resp)
      × (parse_xor_mapped_address resp (build_binding_request seed).1 ≡ some source)
      × ((txid : List ℕ)
          → txid ≢ (build_binding_request seed).1
          → parse_xor_mapped_address resp txid ≡ none)
unfolding build_binding_response build_binding_request
parse_xor_mapped_address-build_binding_response seed source h =
    let id = txid_of seed in
    (
      answer id source,
      refl,
      parse_answer seed source.ip source.port id
          ∙ if_matches (id == id) _ (eq_refl id)
          ∙ address_read seed source.ip source.port h,
      λ txid other.
          parse_answer seed source.ip source.port txid
          ∙ if_differs (id == txid) _ (not_same id txid other),
    )
