-- ===== src/Traversal/Tests.antt =====
-- Tests of nat/direct_flags.rs and nat/reflexive.rs at concrete inputs.
use tabbify_service_mesh.Allocator.{addr_eq}
use tabbify_service_mesh.Formats.{v4, SocketAddr, plain}
use tabbify_service_mesh.Shared.{
  nat_eq, list_eq, option_eq, pair_eq, ◌≡◌, refl, true, false, none, some, [], ◌∷◌,
}
use tabbify_service_mesh.Traversal.Punch.{canonical_pair}
use tabbify_service_mesh.Traversal.Flags.{new_flags, is_direct, set_direct}
use tabbify_service_mesh.Traversal.Reflexive.{is_public, resolve_listen_endpoint}

either_order : is_direct (set_direct new_flags 2 1 true) 1 2 ≡ true
unfolding is_direct set_direct new_flags canonical_pair
either_order = refl

abbrev seen : SocketAddr
seen = record { ip = v4 203 0 113 5; port = 40000 }

resolved_test :
    resolve_listen_endpoint plain none (some seen) (some 51820) false
    ≡ record { endpoint = some (203 ∷ 0 ∷ 113 ∷ 5 ∷ 51820 ∷ []); reflexive = true }
unfolding resolve_listen_endpoint is_public
resolved_test = refl
