-- ===== src/Policy/Tests.antt =====
-- Tests of policy/model.rs and policy/store.rs, and their theorems at concrete inputs.
use tabbify_service_mesh.Formats.{socket_eq}
use tabbify_service_mesh.Allocator.{addr_eq}
use tabbify_service_mesh.Shared.{
  nat_eq, list_eq, option_eq, pair_eq, Text, bytes, length, contains, ℕ, ◌≡◌, refl, ◌↔◌, ◌⊎◌, true,
  false, ◌&&◌, none, some, List, [], ◌∷◌,
}
use tabbify_service_mesh.Policy.{
  tag_system, accept_action, Policy, bootstrap, starts_with, can_see, cross_tenant_glob_source,
  validate,
}
use tabbify_service_mesh.Policy.Isolation.{
  Allows, can_see-Allows, can_see-bootstrap, Tenants, NamedEdge, can_see-NamedEdge,
}
use tabbify_service_mesh.Policy.Store.{PolicyStore, etag_for, new_store}
use tabbify_service_mesh.Policy.Store.Updates.{IsValid, replace_all, replace_all-IsValid}

abbrev alice : Text
alice = bytes "tag:net-alice"

abbrev bob : Text
bob = bytes "tag:net-bob"

-- Alice's self-rule, and shared infrastructure that serves every tenant.
abbrev tenants : Policy
tenants = record {
  acls =
      record { action = accept_action; src = alice ∷ []; dst = alice ∷ [] }
      ∷ record { action = accept_action; src = tag_system ∷ []; dst = bytes "tag:net-*" ∷ [] }
      ∷ [];
}

tenants_valid : validate tenants ≡ none
unfolding validate
tenants_valid = refl

tenants_isolated : can_see tenants (alice ∷ []) (bob ∷ []) ≡ false
unfolding can_see
tenants_isolated = refl

tenants_served : can_see tenants (bob ∷ []) (tag_system ∷ []) ≡ true
unfolding can_see
tenants_served = refl

self_visible : can_see tenants (alice ∷ []) (alice ∷ []) ≡ true
unfolding can_see
self_visible = refl

-- A glob over tenants is refused as a source.
glob_refused :
    validate (record {
      acls = record { action = accept_action; src = bytes "tag:ne*" ∷ []; dst = [] } ∷ [];
    })
    ≡ some (cross_tenant_glob_source (bytes "tag:ne*"))
unfolding validate
glob_refused = refl

can_see-Allows_example :
    (can_see tenants (alice ∷ []) (bob ∷ []) ≡ true)
    ↔ (Allows tenants (alice ∷ []) (bob ∷ []) ⊎ Allows tenants (bob ∷ []) (alice ∷ []))
can_see-Allows_example = can_see-Allows tenants (alice ∷ []) (bob ∷ [])

can_see-bootstrap_example :
    can_see bootstrap (tag_system ∷ []) (alice ∷ [])
    ≡ (contains (tag_system ∷ []) tag_system && contains (alice ∷ []) tag_system)
can_see-bootstrap_example = can_see-bootstrap (tag_system ∷ []) (alice ∷ [])

alice_tenant : Tenants (alice ∷ [])
unfolding starts_with
alice_tenant = (refl, tt)

can_see-NamedEdge_example :
    NamedEdge tenants (alice ∷ []) (alice ∷ []) ⊎ NamedEdge tenants (alice ∷ []) (alice ∷ [])
can_see-NamedEdge_example =
    can_see-NamedEdge tenants (alice ∷ []) (alice ∷ []) tenants_valid alice_tenant alice_tenant
      self_visible

-- A serialiser that keeps the number of rules alone.
abbrev to_vec : Policy → List ℕ
to_vec p = length p.acls ∷ []

abbrev live : PolicyStore
live = record {
  snapshot = record { policy = tenants; etag = etag_for to_vec tenants 0 };
  counter = 1;
}

etag_test : (new_store to_vec tenants 1).snapshot.etag ≡ bytes "\"af63bf4c8601bb45\""
unfolding new_store etag_for
etag_test = refl

replace_all-IsValid_example :
    IsValid to_vec (replace_all to_vec live ((live.snapshot.etag, bootstrap) ∷ ([], tenants) ∷ []))
replace_all-IsValid_example =
    replace_all-IsValid to_vec ((live.snapshot.etag, bootstrap) ∷ ([], tenants) ∷ []) live
      tenants_valid
