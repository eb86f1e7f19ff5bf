-- ===== src/Formats.antt =====
-- The textual forms that the standard library and the `uuid` and `base64` crates read and write. The
-- models take them as this interface; what they rely on is that a printed value reads back.
use tabbify_service_mesh.Allocator.{Ipv6Addr, segments, addr_eq}
use tabbify_service_mesh.Shared.{
  PartialEq, ◌==◌, nat_eq, list_eq, option_eq, pair_eq, Text, ℕ, ◌≡◌, refl, sym, ap, ◌∙◌, ◌≢◌, ◌↔◌,
  Bool, true, false, ◌&&◌, Option, none, some, List, [], ◌∷◌, ◌++◌, arith,
}

-- `std::net::IpAddr` and `std::net::SocketAddr`.
pub data IpAddr : Type 0 where
  v4 : ℕ → ℕ → ℕ → ℕ → IpAddr
  v6 : Ipv6Addr → IpAddr

pub record SocketAddr : Type 0 where
  pub ip : IpAddr
  pub port : ℕ

abbrev pub ip_beq : IpAddr → IpAddr → Bool
ip_beq (v4 a b c d) (v4 e f g h) = (a == e) && ((b == f) && ((c == g) && (d == h)))
ip_beq (v4 a b c d) (v6 e) = false
ip_beq (v6 a) (v4 e f g h) = false
ip_beq (v6 a) (v6 b) = a == b

ip_beq_iff : (a b : IpAddr) → (ip_beq a b ≡ true) ↔ (a ≡ b)
ip_beq_iff (v4 a b c d) (v4 e f g h) = ground arith
ip_beq_iff (v4 a b c d) (v6 e) = ground arith
ip_beq_iff (v6 a) (v4 e f g h) = ground arith
ip_beq_iff (v6 a) (v6 b) = ground (arith, addr_eq.beq_iff a b)

abbrev pub socket_beq : SocketAddr → SocketAddr → Bool
socket_beq a b = ip_beq a.ip b.ip && (a.port == b.port)

pub socket_beq_iff : (a b : SocketAddr) → (socket_beq a b ≡ true) ↔ (a ≡ b)
socket_beq_iff a b = ground (arith, ip_beq_iff a.ip b.ip)

instance abbrev pub socket_eq : PartialEq SocketAddr
socket_eq = record { beq = socket_beq; beq_iff = socket_beq_iff }

pub record Formats : Type 0 where
  pub parse_uuid : Text → Option ℕ
  pub print_uuid : ℕ → Text
  pub parse_ipv6 : Text → Option Ipv6Addr
  pub print_ipv6 : Ipv6Addr → Text
  pub parse_socket : Text → Option SocketAddr
  pub print_socket : SocketAddr → Text
  pub decode_base64 : Text → Option (List ℕ)
  pub encode_base64 : List ℕ → Text
  pub trim : Text → Text
  pub parse-print_uuid : (id : ℕ) → parse_uuid (print_uuid id) ≡ some id
  pub parse-print_ipv6 : (a : Ipv6Addr) → parse_ipv6 (print_ipv6 a) ≡ some a
  pub parse-print_socket : (s : SocketAddr) → parse_socket (print_socket s) ≡ some s
  pub decode-encode_base64 : (b : List ℕ) → decode_base64 (encode_base64 b) ≡ some b

-- A printed socket address is not the empty text.
pub print_socket-ne-nil :
    (f : Formats) (s : SocketAddr) → f.parse_socket [] ≡ none → f.print_socket s ≢ []
print_socket-ne-nil f s h e = cc (sym (f.parse-print_socket s) ∙ ap f.parse_socket e ∙ h)

-- Plain forms that meet the interface: one number for each part of a value.
abbrev pub plain_uuid : Text → Option ℕ
plain_uuid [] = none
plain_uuid (n ∷ []) = some n
plain_uuid (n ∷ m ∷ ms) = none

abbrev pub plain_ipv6 : Text → Option Ipv6Addr
plain_ipv6 (a ∷ b ∷ c ∷ d ∷ e ∷ f ∷ g ∷ h ∷ []) =
    some (record { s0 = a; s1 = b; s2 = c; s3 = d; s4 = e; s5 = f; s6 = g; s7 = h })
plain_ipv6 other = none

abbrev pub plain_socket : Text → Option SocketAddr
plain_socket (a ∷ b ∷ c ∷ d ∷ p ∷ []) = some (record { ip = v4 a b c d; port = p })
plain_socket (a ∷ b ∷ c ∷ d ∷ e ∷ f ∷ g ∷ h ∷ p ∷ []) = some (record {
  ip = v6 (record { s0 = a; s1 = b; s2 = c; s3 = d; s4 = e; s5 = f; s6 = g; s7 = h });
  port = p;
})
plain_socket other = none

abbrev pub show_ip : IpAddr → ℕ → Text
show_ip (v4 a b c d) p = a ∷ b ∷ c ∷ d ∷ p ∷ []
show_ip (v6 a) p = segments a ++ p ∷ []

pub plain_socket_lem :
    (ip : IpAddr) (p : ℕ) → plain_socket (show_ip ip p) ≡ some (record { ip = ip; port = p })
plain_socket_lem (v4 a b c d) p = refl
plain_socket_lem (v6 a) p = refl

abbrev pub plain : Formats
plain = record {
  parse_uuid = plain_uuid;
  print_uuid = λ n. n ∷ [];
  parse_ipv6 = plain_ipv6;
  print_ipv6 = segments;
  parse_socket = plain_socket;
  print_socket = λ s. show_ip s.ip s.port;
  decode_base64 = λ b. some b;
  encode_base64 = λ b. b;
  trim = λ t. t;
  parse-print_uuid = λ id. refl;
  parse-print_ipv6 = λ a. refl;
  parse-print_socket = λ s. plain_socket_lem s.ip s.port;
  decode-encode_base64 = λ b. refl;
}
