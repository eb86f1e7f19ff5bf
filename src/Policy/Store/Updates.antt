-- ===== src/Policy/Store/Updates.antt =====
-- Updates of the policy store (policy/store.rs): what a replace admits, and lost updates.
use tabbify_service_mesh.Formats.{socket_eq}
use tabbify_service_mesh.Allocator.{addr_eq}
use tabbify_service_mesh.Hash.{u64_mod}
use tabbify_service_mesh.Shared.{
  nat_eq, list_beq_iff, list_eq, option_eq, pair_eq, Text, ℕ, ◌<◌, ◌≡◌, ◌↔◌, ◌⊎◌, none, List, [],
  ◌∷◌, arith,
}
use tabbify_service_mesh.Policy.{Policy, validate}
use tabbify_service_mesh.Policy.Store.{PolicySnapshot, installed, PolicyStore, etag_for, replace}

module _ (to_vec : Policy → List ℕ) where
  -- A replace installs the policy exactly when the policy passes validation and `If-Match` is the
  -- current tag; then it is the live policy. Otherwise nothing changes.
  pub replace-installed_iff :
      (store : PolicyStore) (if_match : Text) (policy : Policy)
      → (((snap : PolicySnapshot) × ((replace to_vec store if_match policy).1 ≡ installed snap))
          ↔ ((validate policy ≡ none) × (store.snapshot.etag ≡ if_match)))
        × (((validate policy ≡ none)
              × (store.snapshot.etag ≡ if_match)
              × ((replace to_vec store if_match policy).0.snapshot.policy ≡ policy))
            ⊎ ((replace to_vec store if_match policy).0 ≡ store))
  unfolding replace
  replace-installed_iff store if_match policy =
      let eq = list_beq_iff store.snapshot.etag if_match in
      (
        (
          λ (snap, h). (ground (arith, eq), ground (arith, eq)),
          λ (v, e). (
            record { policy = policy; etag = etag_for to_vec policy store.counter },
            ground (arith, eq),
          ),
        ),
        ground (arith, eq),
      )

  -- The live policy has passed validation.
  abbrev pub IsValid : PolicyStore → Type 0
  IsValid store = validate store.snapshot.policy ≡ none

  -- A run of `PUT /v1/policy` requests.
  unfoldable pub replace_all : PolicyStore → List (Text × Policy) → PolicyStore
  replace_all store [] = store
  replace_all store ((if_match, policy) ∷ rest) =
      replace_all (replace to_vec store if_match policy).0 rest

  replace-IsValid :
      (store : PolicyStore) (if_match : Text) (policy : Policy)
      → IsValid store
      → IsValid (replace to_vec store if_match policy).0
  unfolding replace
  replace-IsValid store if_match policy v = ground arith

  -- No run of replaces, whatever the tags and the payloads, installs a policy that fails validation.
  pub replace_all-IsValid :
      (requests : List (Text × Policy)) (store : PolicyStore)
      → IsValid store
      → IsValid (replace_all store requests)
  unfolding replace_all
  replace_all-IsValid [] store v = v
  replace_all-IsValid ((if_match, policy) ∷ rest) store v =
      replace_all-IsValid rest _ (replace-IsValid store if_match policy v)

  -- The live tag was made from the live policy and a nonce that the counter has passed.
  pub record Minted (store : PolicyStore) : Type 0 where
    pub nonce : ℕ
    pub spent : nonce < store.counter
    pub in_range : store.counter < u64_mod
    pub made : store.snapshot.etag ≡ etag_for to_vec store.snapshot.policy nonce
