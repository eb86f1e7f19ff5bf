-- ===== src/Roster/Tests.antt =====
-- The theorems on roster/ at concrete inputs.
use tabbify_service_mesh.Roster.Sweep.{sweep_once}
use tabbify_service_mesh.Roster.Heartbeat.{Beat, heartbeat}
use tabbify_service_mesh.Roster.Filter.{can_relay, visible_entries}
use tabbify_service_mesh.Roster.Addresses.{resolve_ula, evict_stale_ula_holder}
use tabbify_service_mesh.Relay.Registry.{Frame, Sent, full}
use tabbify_service_mesh.Roster.Heartbeat.Effect.{Beaten, heartbeat-Beaten}
use tabbify_service_mesh.Roster.Sweep.Expiry.{sweep_once-exact}
use tabbify_service_mesh.Roster.Filter.Visible.{can_relay-visible}
use tabbify_service_mesh.Hash.{fnv1a64}
use tabbify_service_mesh.Roster.Registration.{register_new, register_authenticated}
use tabbify_service_mesh.Roster.Identity.{
  self_advertisable_capability_tags, stamp_identity, stamp_identity_lem,
}
use tabbify_service_mesh.Roster.Access.{
  transport, Contract, Validator, authenticate, authorize_fixed_requested_ula, checked_request,
}
use tabbify_service_mesh.Formats.{socket_eq, plain}
use tabbify_service_mesh.Roster.Access.Gate.{Granted, register_authenticated-Granted}
use tabbify_service_mesh.Roster.Registration.Consistency.{register_authenticated-Consistent}
use tabbify_service_mesh.Roster.Apply.Invariant.{Consistent}
use tabbify_service_mesh.Roster.Apply.{apply_peer_joined}
use tabbify_service_mesh.Roster.{
  PeerEntry, RegisterRequest, ValidatedClaims, CoordinatorError, unknown_peer, unauthorized,
  persist_roster, publish, broadcast,
}
use tabbify_service_mesh.Policy.{tag_system}
use tabbify_service_mesh.Shared.{
  leb, if◌then◌else◌, ◌==◌, nat_eq, list_eq, option_eq, pair_eq, bytes, contains, lookup, kept, ok,
  err, pos, ℕ, ◌-◌, ◌≡◌, refl, ◌↔◌, ◌⊎◌, Bool, true, false, ◌&&◌, ◌||◌, none, some, [], ◌∷◌, Memᴰ,
  arith,
}
use tabbify_service_mesh.Allocator.{addr_eq, network_slot, address_for, allocate}
use tabbify_service_mesh.Roster.Fixture.{key, peer, two_peers, two_peers-Consistent, clock}

abbrev contract : Contract
contract = record { host_ula_slot = 0x1f00; is_fixed_infra_ula = λ a. a.s2 == 0xffff }

abbrev join_request : RegisterRequest
join_request = record {
  wg_public_key = key 3;
  listen_endpoint = none;
  wg_listen_port = some 51820;
  display_name = bytes "third";
  network = bytes "home";
  tags = bytes "docker" ∷ [];
  hosted_app_ulas = [];
  kind = bytes "node";
  parent = none;
  app_uuid = none;
  requested_ula = none;
  software_version = none;
  mesh_version = none;
  relay_only = false;
}

abbrev claims : ValidatedClaims
claims = record {
  valid = true;
  subject = bytes "s";
  network = bytes "home";
  tags = tag_system ∷ [];
  requested_ulas = [];
  kind = bytes "node";
  exp = pos 9;
}

abbrev token_check : Validator
token_check token pubkey = if token == bytes "good" then ok claims else err transport

-- The third peer gets in with the token, as a new peer; without one it does not.
admitted_test :
    (register_authenticated plain contract
      (some token_check)
      two_peers
      join_request
      (some (bytes "good"))
      none
      clock).0.by_pubkey
    ≡ (key 1, 1) ∷ (key 2, 2) ∷ (key 3, 3) ∷ []
unfolding register_authenticated checked_request authenticate authorize_fixed_requested_ula
    stamp_identity register_new resolve_ula evict_stale_ula_holder network_slot fnv1a64 allocate
    address_for apply_peer_joined publish persist_roster broadcast
admitted_test = refl

refused_test :
    (register_authenticated plain contract
      (some token_check)
      two_peers
      join_request
      none
      none
      clock).1
    ≡ err unauthorized
unfolding register_authenticated checked_request authenticate
refused_test = refl

register_authenticated-Consistent_example :
    Consistent
      (register_authenticated plain contract
        (some token_check)
        two_peers
        join_request
        (some (bytes "good"))
        none
        clock).0
register_authenticated-Consistent_example =
    register_authenticated-Consistent plain contract (some token_check) two_peers join_request
      (some (bytes "good")) none clock two_peers-Consistent refl

register_authenticated-Granted_example :
    ((e : CoordinatorError) × (register_authenticated plain contract
          (some token_check)
          two_peers
          join_request
          (some (bytes "good"))
          none
          clock
        ≡ (two_peers, err e)))
    ⊎ Granted plain contract join_request (some (bytes "good")) (some token_check)
register_authenticated-Granted_example =
    register_authenticated-Granted plain contract join_request (some (bytes "good"))
      (some token_check) two_peers none clock

stamp_identity_lem_example :
    ((some claims ≡ none)
      × (stamp_identity join_request (some claims)
          ≡ record { network = join_request.network; tags = join_request.tags }))
    ⊎ ((c : ValidatedClaims) × (some claims ≡ some c)
        × ((stamp_identity join_request (some claims)).network ≡ c.network)
        × (contains (stamp_identity join_request (some claims)).tags (bytes "docker") ≡ (
            contains c.tags (bytes "docker")
            || (contains self_advertisable_capability_tags (bytes "docker")
                && contains join_request.tags (bytes "docker")))))
stamp_identity_lem_example = stamp_identity_lem join_request (some claims) (bytes "docker")

can_relay-visible_example :
    ((can_relay two_peers (key 1) (key 2) ≡ true)
      ↔ Memᴰ (peer 2) (visible_entries two_peers 1 (peer 1).tags))
    × (can_relay two_peers (key 1) (key 2) ≡ can_relay two_peers (key 2) (key 1))
can_relay-visible_example =
    can_relay-visible two_peers two_peers-Consistent 1 2 (peer 1) (peer 2) refl refl
      (λ e. absurd (ground arith))

abbrev beat : Beat
beat = record {
  observed_external = 198 ∷ 51 ∷ 100 ∷ 9 ∷ 40000 ∷ [];
  wg_listen_port = some 51820;
  hosted_app_ulas = [];
  software_version = none;
  mesh_version = none;
  relay_only = false;
}

abbrev pub send : Unit {0} → ℕ → Frame → Unit {0} × Sent
send net tx frame = (net, full)

abbrev pub shut : Unit {0} → ℕ → Bool
shut net tx = false

sweep_once-exact_example :
    let c' = sweep_once send shut plain tt two_peers clock in
    ((id : ℕ)
      → lookup id c'.roster
        ≡ kept (λ _ e. leb (clock.instant - e.last_heartbeat) 5) id (lookup id two_peers.roster))
    × Consistent c'
sweep_once-exact_example =
    sweep_once-exact plain send shut tt two_peers clock (refl, (refl, tt)) two_peers-Consistent

heartbeat-Beaten_example :
    ((lookup 2 two_peers.roster ≡ none)
      × (heartbeat plain two_peers 2 beat clock ≡ (two_peers, err (unknown_peer 2))))
    ⊎ ((e e' : PeerEntry) × (lookup 2 two_peers.roster ≡ some e)
        × ((heartbeat plain two_peers 2 beat clock).1 ≡ ok e')
        × (lookup 2 (heartbeat plain two_peers 2 beat clock).0.roster ≡ some e')
        × Beaten e e' beat clock
        × Consistent (heartbeat plain two_peers 2 beat clock).0)
heartbeat-Beaten_example = heartbeat-Beaten plain two_peers 2 beat clock two_peers-Consistent
