-- ===== src/Roster/Access.antt =====
-- crates/mesh-coordinator/src/roster/coordinator/registration.rs: the checks that a join request passes
-- before anything changes. The address contract shared with the auth service and the token
-- validator (auth/validate.rs over HTTP) are parameters.
pub mod Gate
use tabbify_service_mesh.Allocator.{Ipv6Addr, addr_eq}
use tabbify_service_mesh.Formats.{Formats}
use tabbify_service_mesh.Roster.{
  RegisterRequest, ValidatedClaims, CoordinatorError, invalid_pubkey, pubkey_decode,
  invalid_requested_ula, unauthorized,
}
use tabbify_service_mesh.Shared.{
  if◌then◌else◌, ◌==◌, nat_eq, list_eq, option_eq, pair_eq, Text, length, any, map_option, Result,
  ok, err, ◌>>=◌, or_err, ℕ, Bool, false, not, Option, none, some, List,
}
use tabbify_service_mesh.Traversal.Reflexive.{non_empty}

pub data ValidationError : Type 0 where
  transport decode_failed : ValidationError
  status : ℕ → ValidationError
  wrong_kind : Text → ValidationError

-- The crate `tabbify_join_contract`: the hextet of host addresses, and the fixed infrastructure ones.
pub record Contract : Type 0 where
  pub host_ula_slot : ℕ
  pub is_fixed_infra_ula : Ipv6Addr → Bool

abbrev pub Validator : Type 0
Validator = Text → Option Text → Result ValidationError ValidatedClaims

abbrev pub accepted_claims :
    Result ValidationError ValidatedClaims → Result CoordinatorError (Option ValidatedClaims)
accepted_claims (ok claims) = if claims.valid then ok (some claims) else err unauthorized
accepted_claims (err e) = err unauthorized

module _ (fmt : Formats) where
  unfoldable pub authenticate :
      Option Validator
      → Option Text
      → Option Text
      → Result CoordinatorError (Option ValidatedClaims)
  authenticate none bearer pubkey = ok none
  authenticate (some validate) bearer pubkey = elim (non_empty (map_option fmt.trim bearer)) [
    | none ↦ err unauthorized
    | some token ↦ accepted_claims (validate token pubkey)
  ]

  abbrev allows_addr : Ipv6Addr → Text → Bool
  allows_addr addr allowed = elim (fmt.parse_ipv6 allowed) [ none ↦ false | some a ↦ a == addr ]

  abbrev pub authorizes : Option ValidatedClaims → Ipv6Addr → Bool
  authorizes none addr = false
  authorizes (some claims) addr = any (allows_addr addr) claims.requested_ulas

  module _ (contract : Contract) where
    unfoldable pub authorize_fixed_requested_ula :
        Option Text → Option ValidatedClaims → Result CoordinatorError (Unit {0})
    authorize_fixed_requested_ula none claims = ok tt
    authorize_fixed_requested_ula (some raw) claims = elim (fmt.parse_ipv6 raw) [
      | none ↦ err (invalid_requested_ula raw)
      | some addr ↦
          if not (contract.is_fixed_infra_ula addr)
          then ok tt
          else if authorizes claims addr
          then ok tt
          else err unauthorized
    ]

    -- The checks that come before any change of state.
    unfoldable pub checked_request :
        Option Validator
        → RegisterRequest
        → Option Text
        → Result CoordinatorError (Option ValidatedClaims × List ℕ)
    checked_request validator req bearer = do
      claims ← authenticate validator bearer (non_empty (some (fmt.trim req.wg_public_key)))
      _ ← authorize_fixed_requested_ula req.requested_ula claims
      pubkey ← or_err (fmt.decode_base64 req.wg_public_key) pubkey_decode
      if length pubkey == 32 then ok (claims, pubkey) else err (invalid_pubkey (length pubkey))
