-- ===== src/Traversal/Reflexive.antt =====
-- crates/mesh-coordinator/src/nat/reflexive.rs: which endpoint of a peer others are told to dial.
-- Masks of leading bits are written as divisions.
use tabbify_service_mesh.Allocator.{Ipv6Addr, addr_eq}
use tabbify_service_mesh.Formats.{IpAddr, v4, v6, SocketAddr, Formats}
use tabbify_service_mesh.Shared.{
  if◌then◌else◌, Bool-cases, ◌==◌, nat_eq, list_eq, option_eq, pair_eq, Text, is_empty, ℕ, ◌+◌, ◌*◌,
  ◌/◌, ◌^◌, ◌<◌, ◌≡◌, refl, ◌≢◌, ◌⊎◌, inl, inr, Bool, true, false, not, ◌&&◌, ◌||◌, Option, none,
  some, [], ◌∷◌, arith,
}

-- Loopback, private, link-local, unspecified, and the shared 100.64.0.0/10.
unfoldable pub is_unreachable_v4 : ℕ → ℕ → ℕ → ℕ → Bool
is_unreachable_v4 a b c d =
    (a == 127)
    || (((a == 10) || (((a == 172) && (b / 16 == 1)) || ((a == 192) && (b == 168))))
        || (((a == 169) && (b == 254))
            || (((a == 0) && ((b == 0) && ((c == 0) && (d == 0))))
                || ((a == 100) && (b / 64 == 1)))))

unfoldable pub is_unreachable_v6 : Ipv6Addr → Bool
is_unreachable_v6 a =
    (a == record { s0 = 0; s1 = 0; s2 = 0; s3 = 0; s4 = 0; s5 = 0; s6 = 0; s7 = 1 })
    || ((a == record { s0 = 0; s1 = 0; s2 = 0; s3 = 0; s4 = 0; s5 = 0; s6 = 0; s7 = 0 })
        || ((a.s0 / 2 ^ 9 == 0xfc00 / 2 ^ 9) || (a.s0 / 2 ^ 6 == 0xfe80 / 2 ^ 6)))

unfoldable pub is_unreachable_for_peers : IpAddr → Bool
unfolding is_unreachable_v4 is_unreachable_v6
is_unreachable_for_peers (v4 a b c d) = is_unreachable_v4 a b c d
is_unreachable_for_peers (v6 a) = is_unreachable_v6 a

unfoldable pub is_public : IpAddr → Bool
unfolding is_unreachable_for_peers
is_public ip = not (is_unreachable_for_peers ip)

pub record ResolvedEndpoint : Type 0 where
  pub endpoint : Option Text
  pub reflexive : Bool

abbrev pub non_empty : Option Text → Option Text
non_empty none = none
non_empty (some s) = if is_empty s then none else some s

abbrev pub plain_endpoint : Option Text → ResolvedEndpoint
plain_endpoint endpoint = record { endpoint = endpoint; reflexive = false }

-- Any explicit endpoint is sticky.
unfoldable pub is_sticky_explicit_endpoint : Text → Bool
is_sticky_explicit_endpoint endpoint = true

module _ (fmt : Formats) where
  unfoldable pub reflexive_endpoint : IpAddr → ℕ → Text
  reflexive_endpoint ip wg_port = fmt.print_socket (record { ip = ip; port = wg_port })

  unfoldable pub from_observed : Option SocketAddr → Option ℕ → ResolvedEndpoint
  unfolding reflexive_endpoint
  from_observed (some obs) (some port) =
      if is_public obs.ip
      then record { endpoint = some (reflexive_endpoint obs.ip port); reflexive = true }
      else plain_endpoint none
  from_observed (some obs) none = plain_endpoint none
  from_observed none port = plain_endpoint none

  unfoldable pub resolve_listen_endpoint :
      Option Text → Option SocketAddr → Option ℕ → Bool → ResolvedEndpoint
  unfolding from_observed
  resolve_listen_endpoint self_reported observed wg_listen_port relay_only =
      if relay_only then plain_endpoint none else elim (non_empty self_reported) [
        | some reported ↦ plain_endpoint (some reported)
        | none ↦ from_observed observed wg_listen_port
      ]

  from_observed_cases :
      (observed : Option SocketAddr) (port : Option ℕ)
      → ((obs : SocketAddr) × (p : ℕ) × (observed ≡ some obs)
          × (port ≡ some p)
          × (is_public obs.ip ≡ true)
          × (from_observed observed port ≡ record {
            endpoint = some (fmt.print_socket (record { ip = obs.ip; port = p }));
            reflexive = true;
          }))
        ⊎ (((obs : SocketAddr) (p : ℕ)
              → observed ≡ some obs
              → port ≡ some p
              → is_public obs.ip ≡ false)
            × (from_observed observed port ≡ plain_endpoint none))
  unfolding from_observed
  from_observed_cases (some obs) (some p) = elim (Bool-cases (is_public obs.ip)) [
    | inl e ↦ inl (obs, p, refl, refl, e, rw e)
    | inr e ↦ inr ((λ o q f g. ground arith), rw e)
  ]
  from_observed_cases (some obs) none = inr ((λ o q f g. ground arith), refl)
  from_observed_cases none (some p) = inr ((λ o q f g. ground arith), refl)
  from_observed_cases none none = inr ((λ o q f g. ground arith), refl)

  abbrev pub Resolves :
      Option Text → Option SocketAddr → Option ℕ → Bool → ResolvedEndpoint → Type 0
  Resolves self_reported observed port relay_only resolved =
      ((relay_only ≡ true) × (resolved ≡ plain_endpoint none))
      ⊎ ((relay_only ≡ false)
          × (reported : Text) × (reported ≢ [])
          × (self_reported ≡ some reported)
          × (resolved ≡ plain_endpoint (some reported)))
      ⊎ ((relay_only ≡ false)
          × (non_empty self_reported ≡ none)
          × ((obs : SocketAddr) × (p : ℕ) × (observed ≡ some obs)
              × (port ≡ some p)
              × (is_public obs.ip ≡ true)
              × (resolved ≡ record {
                endpoint = some (fmt.print_socket (record { ip = obs.ip; port = p }));
                reflexive = true;
              })))
      ⊎ ((relay_only ≡ false)
          × (non_empty self_reported ≡ none)
          × (((obs : SocketAddr) (p : ℕ)
                → observed ≡ some obs
                → port ≡ some p
                → is_public obs.ip ≡ false)
              × (resolved ≡ plain_endpoint none)))

  -- An endpoint is reflexive exactly when the peer is not relay-only, reported none itself, gave its
  -- WireGuard port and was observed at a public address; then it is that address with that port.
  -- Otherwise it is the peer's own non-empty report, word for word, or there is none; a relay-only
  -- peer has none in any case.
  pub resolve_listen_endpoint_lem :
      (self_reported : Option Text) (observed : Option SocketAddr) (port : Option ℕ)
      (relay_only : Bool)
      → Resolves self_reported observed port relay_only
          (resolve_listen_endpoint self_reported observed port relay_only)
  unfolding resolve_listen_endpoint
  resolve_listen_endpoint_lem s o p true = inl (refl, refl)
  resolve_listen_endpoint_lem (some (c ∷ cs)) o p false =
      inr (inl (refl, c ∷ cs, (λ e. ground arith), refl, refl))
  resolve_listen_endpoint_lem (some []) o p false = elim (from_observed_cases o p) [
    | inl h ↦ inr (inr (inl (refl, refl, h)))
    | inr h ↦ inr (inr (inr (refl, refl, h)))
  ]
  resolve_listen_endpoint_lem none o p false = elim (from_observed_cases o p) [
    | inl h ↦ inr (inr (inl (refl, refl, h)))
    | inr h ↦ inr (inr (inr (refl, refl, h)))
  ]

-- A dotted address as one number, and the address blocks that no peer can reach.
abbrev pub number_v4 : ℕ → ℕ → ℕ → ℕ → ℕ
number_v4 a b c d = ((a * 256 + b) * 256 + c) * 256 + d

-- Whether the first `32 - free` bits are those of the block.
abbrev pub in_block : ℕ → ℕ → ℕ → Bool
in_block n base free = n / 2 ^ free == base / 2 ^ free

module _ (a b c d : ℕ) (p : a < 256) (q : b < 256) (r : c < 256) (s : d < 256) where
  top_eight : number_v4 a b c d / 2 ^ 24 ≡ a
  top_eight = omega arith

  top_ten : (number_v4 a b c d / 2 ^ 22 == 401) ≡ ((a == 100) && (b / 64 == 1))
  top_ten = let e : number_v4 a b c d / 2 ^ 22 ≡ a * 4 + b / 64 = omega arith in rw e (ground arith)

  top_twelve : (number_v4 a b c d / 2 ^ 20 == 2753) ≡ ((a == 172) && (b / 16 == 1))
  top_twelve =
      let e : number_v4 a b c d / 2 ^ 20 ≡ a * 16 + b / 16 = omega arith in rw e (ground arith)

  top_sixteen :
      (k l : ℕ) → l < 256 → (number_v4 a b c d / 2 ^ 16 == k * 256 + l) ≡ ((a == k) && (b == l))
  top_sixteen k l h =
      let e : number_v4 a b c d / 2 ^ 16 ≡ a * 256 + b = omega arith in rw e (ground arith)

  all_zero : (number_v4 a b c d / 2 ^ 0 == 0) ≡ ((a == 0) && ((b == 0) && ((c == 0) && (d == 0))))
  all_zero =
      let e : number_v4 a b c d / 2 ^ 0 ≡ number_v4 a b c d = omega arith in rw e (ground arith)

-- An IPv4 address is held to be unreachable exactly when it lies in 127.0.0.0/8, 10.0.0.0/8,
-- 172.16.0.0/12, 192.168.0.0/16, 169.254.0.0/16, 0.0.0.0/32 or 100.64.0.0/10.
pub is_unreachable_v4-blocks :
    (a b c d : ℕ)
    → a < 256
    → b < 256
    → c < 256
    → d < 256
    → let n = number_v4 a b c d in
      is_unreachable_v4 a b c d ≡ (
        in_block n (number_v4 127 0 0 0) 24
        || ((in_block n (number_v4 10 0 0 0) 24
              || (in_block n (number_v4 172 16 0 0) 20 || in_block n (number_v4 192 168 0 0) 16))
            || (in_block n (number_v4 169 254 0 0) 16
                || (in_block n (number_v4 0 0 0 0) 0 || in_block n (number_v4 100 64 0 0) 22))))
unfolding is_unreachable_v4
is_unreachable_v4-blocks a b c d p q r s = rw (
  top_eight a b c d p q r s,
  top_twelve a b c d p q r s,
  top_sixteen a b c d p q r s 192 168 (omega arith),
  top_sixteen a b c d p q r s 169 254 (omega arith),
  all_zero a b c d p q r s,
  top_ten a b c d p q r s,
)
