-- ===== src/Roster/Access/Gate.antt =====
-- Who gets past the checks of a join request.
use tabbify_service_mesh.Roster.Registration.{register_authenticated}
use tabbify_service_mesh.Allocator.{Ipv6Addr, addr_eq}
use tabbify_service_mesh.Formats.{SocketAddr, Formats}
use tabbify_service_mesh.Roster.{
  RegisterRequest, ValidatedClaims, Clock, CoordinatorError, Coordinator,
}
use tabbify_service_mesh.Roster.Access.{
  ValidationError, Contract, Validator, accepted_claims, authenticate, authorizes,
  authorize_fixed_requested_ula, checked_request,
}
use tabbify_service_mesh.Shared.{
  Bool-cases, Option-cases, ◌==◌, nat_eq, list_eq, option_eq, pair_eq, Text, length, map_option,
  Result, ok, err, Result-cases, ℕ, ◌≡◌, refl, sym, ap, ◌∙◌, ◌⊎◌, inl, inr, true, Option, none,
  some, List, arith,
}
use tabbify_service_mesh.Traversal.Reflexive.{non_empty}

module _ (fmt : Formats) (contract : Contract) (req : RegisterRequest) (bearer : Option Text) where
  -- The claims come from the validator, on a bearer that is not blank, and are valid.
  abbrev pub Vouched : Option Validator → Option ValidatedClaims → Type 0
  Vouched none claims = claims ≡ none
  Vouched (some validate) claims =
      (token : Text) × (c : ValidatedClaims) × (non_empty (map_option fmt.trim bearer) ≡ some token)
      × (validate token (non_empty (some (fmt.trim req.wg_public_key))) ≡ ok c)
      × (c.valid ≡ true)
      × (claims ≡ some c)

  -- A requested fixed infrastructure address stands in the claims.
  abbrev pub Entitled : Option ValidatedClaims → Type 0
  Entitled claims =
      (raw : Text) (addr : Ipv6Addr)
      → req.requested_ula ≡ some raw
      → fmt.parse_ipv6 raw ≡ some addr
      → contract.is_fixed_infra_ula addr ≡ true
      → authorizes fmt claims addr ≡ true

  accepted_claims-valid :
      (r : Result ValidationError ValidatedClaims) (claims : Option ValidatedClaims)
      → accepted_claims r ≡ ok claims
      → (c : ValidatedClaims) × (r ≡ ok c) × (c.valid ≡ true) × (claims ≡ some c)
  accepted_claims-valid r claims h = elim (Result-cases r) [
    | inl (e, is) ↦ ground arith
    | inr (c, is) ↦ elim (Bool-cases c.valid) [
      | inl good ↦ (c, is, good, ground arith)
      | inr bad ↦ ground arith
    ]
  ]

  authenticate-Vouched :
      (validator : Option Validator) (claims : Option ValidatedClaims)
      → authenticate fmt validator bearer (non_empty (some (fmt.trim req.wg_public_key)))
        ≡ ok claims
      → Vouched validator claims
  unfolding authenticate
  authenticate-Vouched none claims h = ground arith
  authenticate-Vouched (some validate) claims h =
      elim (Option-cases (non_empty (map_option fmt.trim bearer))) [
        | inl blank ↦ ground arith
        | inr (token, at) ↦
            let (c, from, good, is) =
              accepted_claims-valid (validate token (non_empty (some (fmt.trim req.wg_public_key))))
                claims (ground arith) in
            (token, c, at, from, good, is)
      ]

  authorize-Entitled :
      (claims : Option ValidatedClaims)
      → authorize_fixed_requested_ula fmt contract req.requested_ula claims ≡ ok tt
      → Entitled claims
  unfolding authorize_fixed_requested_ula
  authorize-Entitled claims h raw addr asked parsed fixed = ground arith

  -- A request that passes the checks is vouched for, entitled to what it asks, and brings a key of 32
  -- bytes.
  pub checked_request-Granted :
      (validator : Option Validator) (claims : Option ValidatedClaims) (pubkey : List ℕ)
      → checked_request fmt contract validator req bearer ≡ ok (claims, pubkey)
      → Vouched validator claims
        × Entitled claims
        × (fmt.decode_base64 req.wg_public_key ≡ some pubkey)
        × (length pubkey ≡ 32)
  unfolding checked_request
  checked_request-Granted validator claims pubkey h =
      elim (Result-cases
        (authenticate fmt validator bearer (non_empty (some (fmt.trim req.wg_public_key))))) [
          | inl (e, a) ↦ absurd (ground arith)
          | inr (claims', a) ↦
              elim (Result-cases
                (authorize_fixed_requested_ula fmt contract req.requested_ula claims')) [
                  | inl (e, b) ↦ absurd (ground arith)
                  | inr (unit, b) ↦ elim (Option-cases (fmt.decode_base64 req.wg_public_key)) [
                    | inl d ↦ absurd (ground arith)
                    | inr (key, d) ↦
                        let whole : (length key == 32) ≡ true = ground arith in
                        let same : claims' ≡ claims = ground arith in
                        let key_same : key ≡ pubkey = ground arith in
                        (
                          authenticate-Vouched validator claims (a ∙ ap ok same),
                          authorize-Entitled claims (
                              ap (authorize_fixed_requested_ula fmt contract req.requested_ula)
                                (sym same)
                              ∙ b),
                          d ∙ ap some key_same,
                          ground arith,
                        )
                  ]
                ]
        ]

  abbrev pub Granted : Option Validator → Type 0
  Granted validator =
      (claims : Option ValidatedClaims) × (pubkey : List ℕ) × Vouched validator claims
      × Entitled claims
      × (fmt.decode_base64 req.wg_public_key ≡ some pubkey)
      × (length pubkey ≡ 32)

  -- A registration fails closed. Either it returns an error and leaves the coordinator as it was, or
  -- the request has a public key of 32 bytes, its claims come from the validator, given a bearer that
  -- is not blank, and are valid (there are none where no validator is configured), and a fixed
  -- infrastructure address that it asks for stands in the claims.
  pub register_authenticated-Granted :
      {Sender : Type 0} (validator : Option Validator) (c : Coordinator Sender)
      (observed : Option SocketAddr) (clock : Clock)
      → ((e : CoordinatorError) × (register_authenticated fmt contract validator c req bearer
              observed clock
            ≡ (c, err e)))
        ⊎ Granted validator
  unfolding register_authenticated
  register_authenticated-Granted validator c observed clock =
      elim (Result-cases (checked_request fmt contract validator req bearer)) [
        | inl (e, at) ↦ inl (e, rw (register_authenticated, at) refl)
        | inr ((claims, pubkey), at) ↦
            let (vouched, entitled, decoded, whole) =
              checked_request-Granted validator claims pubkey at in
            inr (claims, pubkey, vouched, entitled, decoded, whole)
      ]
