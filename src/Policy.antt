-- ===== src/Policy.antt =====
-- crates/mesh-coordinator/src/policy/model.rs: ACL rules over tags, the evaluation of a policy, and
-- its validation. Tags are their bytes.
pub mod Matching
pub mod Isolation
pub mod Store
pub mod Tests
use tabbify_service_mesh.Shared.{
  Bool, true, false, ◌&&◌, ◌||◌, Option, none, some, List, [], ◌∷◌, if◌then◌else◌, map_option, Text,
  bytes, any, select, find_first, ◌==◌, nat_eq, list_eq, option_eq, pair_eq,
}

abbrev pub tag_net_prefix : Text
tag_net_prefix = bytes "tag:net-"

abbrev pub tag_system : Text
tag_system = bytes "tag:system"

abbrev pub star : Text
star = bytes "*"

abbrev pub accept_action : Text
accept_action = bytes "accept"

pub record AclRule : Type 0 where
  pub action : Text
  pub src : List Text
  pub dst : List Text

unfoldable pub accept : List Text → List Text → AclRule
accept src dst = record { action = accept_action; src = src; dst = dst }

unfoldable pub is_accept : AclRule → Bool
is_accept r = r.action == accept_action

pub record Policy : Type 0 where
  pub acls : List AclRule

unfoldable pub bootstrap : Policy
unfolding accept
bootstrap = record { acls = accept (tag_system ∷ []) (tag_system ∷ []) ∷ [] }

-- `strip_suffix('*')`
unfoldable pub strip_star : Text → Option Text
strip_star [] = none
strip_star (c ∷ []) = if c == b'*' then some [] else none
strip_star (c ∷ d ∷ cs) = map_option (λ p. c ∷ p) (strip_star (d ∷ cs))

-- `s.starts_with(prefix)`
unfoldable pub starts_with : Text → Text → Bool
starts_with s [] = true
starts_with [] (p ∷ ps) = false
starts_with (c ∷ cs) (p ∷ ps) = (c == p) && starts_with cs ps

abbrev pub matches_prefix : Text → Text → Option Text → Bool
matches_prefix pattern tag none = pattern == tag
matches_prefix pattern tag (some prefix) = starts_with tag prefix

unfoldable pub tag_matches : Text → Text → Bool
unfolding starts_with strip_star
tag_matches pattern tag =
    if pattern == star then true else matches_prefix pattern tag (strip_star pattern)

unfoldable pub pattern_matches : List Text → Text → Bool
unfolding tag_matches
pattern_matches tags pattern = if pattern == star then true else any (tag_matches pattern) tags

unfoldable pub tags_match_any : List Text → List Text → Bool
unfolding pattern_matches
tags_match_any patterns tags = any (pattern_matches tags) patterns

unfoldable pub allows_directed : Policy → List Text → List Text → Bool
unfolding tags_match_any is_accept
allows_directed p src_tags dst_tags =
    any (λ rule. tags_match_any rule.src src_tags && tags_match_any rule.dst dst_tags)
      (select is_accept p.acls)

unfoldable pub can_see : Policy → List Text → List Text → Bool
unfolding allows_directed
can_see p a_tags b_tags = allows_directed p a_tags b_tags || allows_directed p b_tags a_tags

abbrev pub is_cross_tenant_prefix : Option Text → Bool
unfolding starts_with
is_cross_tenant_prefix none = false
is_cross_tenant_prefix (some prefix) =
    starts_with tag_net_prefix prefix || starts_with prefix tag_net_prefix

unfoldable pub is_cross_tenant_glob_source : Text → Bool
unfolding starts_with strip_star
is_cross_tenant_glob_source pattern =
    if pattern == star then true else is_cross_tenant_prefix (strip_star pattern)

pub data PolicyValidationError : Type 0 where
  cross_tenant_glob_source : Text → PolicyValidationError

-- The loop of `validate`: `none` is `Ok(())`.
unfoldable pub validate_rules : List AclRule → Option PolicyValidationError
unfolding is_cross_tenant_glob_source
validate_rules [] = none
validate_rules (rule ∷ rules) = elim (find_first is_cross_tenant_glob_source rule.src) [
  | some pattern ↦ some (cross_tenant_glob_source pattern)
  | none ↦ validate_rules rules
]

unfoldable pub validate : Policy → Option PolicyValidationError
unfolding validate_rules
validate p = validate_rules p.acls
