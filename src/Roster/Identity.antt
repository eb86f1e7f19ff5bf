-- ===== src/Roster/Identity.antt =====
-- crates/mesh-coordinator/src/roster/identity.rs: where a node's network and tags come from.
use tabbify_service_mesh.Roster.{RegisterRequest, ValidatedClaims}
use tabbify_service_mesh.Shared.{
  if◌then◌else◌, ◌==◌, nat_eq, list_beq_iff, list_eq, option_eq, pair_eq, Text, bytes, contains,
  contains-append, ◌≡◌, refl, ◌∙◌, ◌⊎◌, inl, inr, not, ◌&&◌, ◌||◌, Option, none, some, List, [],
  ◌∷◌, ◌++◌, arith,
}

abbrev pub self_advertisable_capability_tags : List Text
self_advertisable_capability_tags =
    bytes "supervisor" ∷ bytes "firecracker" ∷ bytes "docker" ∷ bytes "builder" ∷ []

pub record NodeIdentity : Type 0 where
  pub network : Text
  pub tags : List Text

-- The loop over the requested tags, on the tags so far: a tag is added if the node may advertise it
-- and does not have it yet.
unfoldable pub merge_capabilities : List Text → List Text → List Text → List Text
merge_capabilities allowed tags [] = tags
merge_capabilities allowed tags (t ∷ ts) =
    merge_capabilities allowed
      (if contains allowed t && not (contains tags t) then tags ++ t ∷ [] else tags) ts

unfoldable pub stamp_identity : RegisterRequest → Option ValidatedClaims → NodeIdentity
unfolding merge_capabilities
stamp_identity req none = record { network = req.network; tags = req.tags }
stamp_identity req (some c) = record {
  network = c.network;
  tags = merge_capabilities self_advertisable_capability_tags c.tags req.tags;
}

merged_step :
    (allowed tags : List Text) (r t : Text)
    → contains (if contains allowed r && not (contains tags r) then tags ++ r ∷ [] else tags) t
      ≡ (contains tags t || (contains allowed t && (r == t)))
merged_step allowed tags r t = ground (arith, contains-append tags (r ∷ []) t, list_beq_iff r t)

contains-merge_capabilities :
    (allowed tags requested : List Text) (t : Text)
    → contains (merge_capabilities allowed tags requested) t
      ≡ (contains tags t || (contains allowed t && contains requested t))
unfolding merge_capabilities
contains-merge_capabilities allowed tags [] t = ground arith
contains-merge_capabilities allowed tags (r ∷ rs) t =
    contains-merge_capabilities allowed
      (if contains allowed r && not (contains tags r) then tags ++ r ∷ [] else tags) rs t
    ∙ rw (merged_step allowed tags r t) (ground arith)

-- With validated claims a node's network is the claimed one, and its tags are the claimed ones
-- together with those capability tags that it asked for: no other requested tag gets through.
-- Without claims both are as requested.
pub stamp_identity_lem :
    (req : RegisterRequest) (claims : Option ValidatedClaims) (t : Text)
    → ((claims ≡ none)
        × (stamp_identity req claims ≡ record { network = req.network; tags = req.tags }))
      ⊎ ((c : ValidatedClaims) × (claims ≡ some c)
          × ((stamp_identity req claims).network ≡ c.network)
          × (contains (stamp_identity req claims).tags t ≡ (
              contains c.tags t
              || (contains self_advertisable_capability_tags t && contains req.tags t))))
unfolding stamp_identity
stamp_identity_lem req none t = inl (refl, refl)
stamp_identity_lem req (some c) t =
    inr (
      c,
      refl,
      refl,
      contains-merge_capabilities self_advertisable_capability_tags c.tags req.tags t,
    )
