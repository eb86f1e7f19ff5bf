-- ===== src/Http/Tests.antt =====
-- The theorems on http/ at concrete inputs, on the two peers of the roster's tests.
use tabbify_service_mesh.Roster.Fixture.{key, two_peers, clock}
use tabbify_service_mesh.Roster.Filter.{viewer_can_see, can_relay}
use tabbify_service_mesh.Roster.{PeerInfo, added, updated}
use tabbify_service_mesh.Http.Uplink.{route_uplink}
use tabbify_service_mesh.Http.Stream.{ViewerFilter, apply, apply_all}
use tabbify_service_mesh.Relay.Frame.{decode_relay_frame}
use tabbify_service_mesh.Policy.{tag_system, can_see}
use tabbify_service_mesh.Formats.{socket_eq, plain}
use tabbify_service_mesh.Allocator.{addr_eq}
use tabbify_service_mesh.Http.Uplink.Routing.{Relayed, Refused, route_uplink-Relayed}
use tabbify_service_mesh.Http.Stream.Frames.{shown, Legal, apply-Sound, apply_all-converges}
use tabbify_service_mesh.Roster.Tests.{send, shut}
use tabbify_service_mesh.Shared.{
  nat_eq, list_eq, option_eq, pair_eq, bytes, contains, ℕ, ◌≡◌, refl, ◌⊎◌, true, false, none, some,
  List, [], ◌∷◌, ◌++◌, map, Memᴰ, arith,
}

abbrev viewer : ViewerFilter
viewer = record { viewer_id = 1; viewer_tags = tag_system ∷ []; revealed = [] }

abbrev news : PeerInfo
news = record {
  peer_id = 2 ∷ [];
  wg_public_key = key 2;
  ula = [];
  listen_endpoint = none;
  display_name = bytes "node";
  network = bytes "home";
  tags = tag_system ∷ [];
  hosted_app_ulas = [];
  joined_at_micros = 0;
  kind = bytes "node";
  parent = none;
  app_uuid = none;
  software_version = none;
  mesh_version = none;
  relay_only = false;
  connectivity = none;
  connectivity_age_ms = none;
}

-- An update of a peer that was not shown reaches the viewer as an addition.
first_frame_test : (apply plain two_peers viewer (updated news)).1 ≡ some (added news)
unfolding apply viewer_can_see can_see
first_frame_test = refl

apply-Sound_example :
    let (f', frame) = apply plain two_peers viewer (updated news) in
    (contains f'.revealed (2 ∷ []) ≡ shown frame (2 ∷ []) (contains viewer.revealed (2 ∷ [])))
    × Legal plain two_peers viewer frame
apply-Sound_example = apply-Sound plain two_peers viewer (updated news) (2 ∷ [])

apply_all-converges_example :
    contains (apply_all plain two_peers viewer (map updated (news ∷ []))).revealed news.peer_id
    ≡ viewer_can_see two_peers viewer.viewer_tags news.tags
apply_all-converges_example =
    apply_all-converges plain two_peers viewer (news ∷ []) news (refl, tt) (Memᴰ.head refl)
      (λ e. absurd (ground arith))

abbrev handshake : List ℕ
handshake = key 2 ++ 1 ∷ 7 ∷ []

route_uplink-Relayed_example :
    (Refused plain send shut two_peers (key 1) handshake
      × (route_uplink plain send shut tt two_peers (key 1) handshake clock ≡ (tt, two_peers, none)))
    ⊎ ((dst payload : List ℕ) × (decode_relay_frame handshake ≡ some (dst, payload))
        × (can_relay two_peers (key 1) dst ≡ true)
        × Relayed plain send shut tt two_peers
            (key 1)
            dst
            payload
            (route_uplink plain send shut tt two_peers (key 1) handshake clock))
route_uplink-Relayed_example =
    route_uplink-Relayed plain send shut tt two_peers (key 1) handshake clock refl
