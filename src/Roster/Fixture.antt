-- ===== src/Roster/Fixture.antt =====
-- A roster of two peers, on which the theorems of the coordinator are tried.
use tabbify_service_mesh.Roster.Apply.Invariant.{Consistent, admit-Consistent}
use tabbify_service_mesh.Roster.Apply.{admit}
use tabbify_service_mesh.Roster.{PeerEntry, Clock, Coordinator}
use tabbify_service_mesh.Policy.{tag_system, accept_action}
use tabbify_service_mesh.Shared.{
  nat_eq, list_eq, option_eq, pair_eq, bytes, ℕ, ◌*◌, refl, inl, true, false, none, some, List, [],
  ◌∷◌, arith,
}
use tabbify_service_mesh.Allocator.{addr_eq, bump_slot_at_least}

abbrev pub key : ℕ → List ℕ
key n =
    n ∷ 2 ∷ 3 ∷ 4 ∷ 5 ∷ 6 ∷ 7 ∷ 8 ∷ 9 ∷ 10 ∷ 11 ∷ 12 ∷ 13 ∷ 14 ∷ 15 ∷ 16 ∷ 17 ∷ 18 ∷ 19 ∷ 20 ∷ 21
    ∷ 22 ∷ 23 ∷ 24 ∷ 25 ∷ 26 ∷ 27 ∷ 28 ∷ 29 ∷ 30 ∷ 31 ∷ 32 ∷ []

abbrev pub peer : ℕ → PeerEntry
peer n = record {
  peer_id = n;
  wg_public_key = key n;
  ula = record { s0 = 0xfd5a; s1 = 0x1f00; s2 = 7; s3 = n; s4 = 0; s5 = 0; s6 = 0; s7 = 1 };
  peer_index = n;
  listen_endpoint = some (203 ∷ 0 ∷ 113 ∷ n ∷ 51820 ∷ []);
  display_name = bytes "node";
  network = bytes "home";
  tags = tag_system ∷ [];
  hosted_app_ulas = [];
  joined_at_micros = 0;
  last_heartbeat = 10 * n;
  observed_external = 203 ∷ 0 ∷ 113 ∷ n ∷ 40000 ∷ [];
  endpoint_is_reflexive = true;
  kind = bytes "node";
  parent = none;
  app_uuid = none;
  software_version = none;
  mesh_version = none;
  relay_only = false;
  paths = [];
  dataplane_healthy = true;
  pending_commands = [];
}

abbrev pub empty : Coordinator ℕ
empty = record {
  roster = [];
  by_pubkey = [];
  allocator = record { per_network = [] };
  policy = record {
    acls = record { action = accept_action; src = tag_system ∷ []; dst = tag_system ∷ [] } ∷ [];
  };
  heartbeat_timeout = 5;
  punch_tracker = record { pairs = []; cold_start = record { window_start = 0; count = 0 } };
  direct_pair_flags = record { direct = []; pinned_to_relay = [] };
  proactive = false;
  relay_forwarded_bytes = 0;
  holepunch_emitted = 0;
  relay_wake_emitted = 0;
  relay_pair_stats = [];
  relay = record { conns = []; spool = []; next_id = 0; wake_cooldown = [] };
  published = [];
  broadcasts = [];
  saved = [];
}

pub empty-Consistent : Consistent empty
empty-Consistent = record {
  keyed = λ id e h. absurd (ground arith);
  unique = λ i j e f h k s. absurd (ground arith);
  covered = λ id e h. absurd (ground arith);
  indexed = λ pk id h. absurd (ground arith);
  listed = λ id e h. absurd (ground arith);
}

abbrev pub two_peers : Coordinator ℕ
two_peers = record empty {
  roster = (1, peer 1) ∷ (2, peer 2) ∷ [];
  by_pubkey = (key 1, 1) ∷ (key 2, 2) ∷ [];
  allocator = record { per_network = (7, 2) ∷ [] };
}

pub two_peers-Consistent : Consistent two_peers
unfolding admit bump_slot_at_least
two_peers-Consistent =
    admit-Consistent (admit empty (peer 1)) (peer 2)
      (admit-Consistent empty (peer 1) empty-Consistent (inl (refl, refl))
        (λ j f h s. absurd (ground arith)))
      (inl (refl, refl)) (λ j f h s. ground arith)

abbrev pub clock : Clock
clock = record { new_id = 3; micros = 1000; instant = 22 }
