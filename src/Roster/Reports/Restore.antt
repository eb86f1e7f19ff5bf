-- ===== src/Roster/Reports/Restore.antt =====
-- A coordinator that restarts from the snapshot of another has the same peers.
use tabbify_service_mesh.Traversal.Reflexive.{non_empty}
use tabbify_service_mesh.Policy.{Policy}
use tabbify_service_mesh.Roster.Apply.Invariant.{Consistent}
use tabbify_service_mesh.Roster.Apply.{joined_entry}
use tabbify_service_mesh.Roster.{PeerEntry, Coordinator, to_joined_event}
use tabbify_service_mesh.Formats.{socket_eq, Formats}
use tabbify_service_mesh.Allocator.{addr_eq}
use tabbify_service_mesh.Shared.{
  ◌==◌, nat_eq, list_eq, option_eq, pair_eq, any, Dict, values, lookup, ℕ, ◌≡◌, true, false, none,
  some, [],
}

-- The entries of a roster: each under its own id, no two with one address or one key.
abbrev Separate : Dict ℕ PeerEntry → Type 0
Separate m =
    ((i : ℕ) (e : PeerEntry) → lookup i m ≡ some e → e.peer_id ≡ i)
    × ((i j : ℕ) (e f : PeerEntry)
        → lookup i m ≡ some e
        → lookup j m ≡ some f
        → e.ula ≡ f.ula
        → i ≡ j)
    × ((i j : ℕ) (e f : PeerEntry)
        → lookup i m ≡ some e
        → lookup j m ≡ some f
        → e.wg_public_key ≡ f.wg_public_key
        → i ≡ j)

-- What comes back of an entry, as the code makes it.
unfoldable rejoined : Formats → ℕ → PeerEntry → PeerEntry
rejoined fmt now e = joined_entry (to_joined_event fmt e) e.peer_id e.ula now

-- What comes back of an entry: all that the peer registered with, under its id and its address; the
-- endpoint, unless it is the empty text; and nothing of what it reported since. It is seen at the
-- time of the restart.
abbrev pub restored : (now : ℕ) → PeerEntry → PeerEntry
restored now e = record {
  peer_id = e.peer_id;
  wg_public_key = e.wg_public_key;
  ula = e.ula;
  peer_index = e.ula.s3;
  listen_endpoint = non_empty e.listen_endpoint;
  display_name = e.display_name;
  network = e.network;
  tags = e.tags;
  hosted_app_ulas = e.hosted_app_ulas;
  joined_at_micros = e.joined_at_micros;
  last_heartbeat = now;
  observed_external = [];
  endpoint_is_reflexive = false;
  kind = e.kind;
  parent = e.parent;
  app_uuid = e.app_uuid;
  software_version = e.software_version;
  mesh_version = e.mesh_version;
  relay_only = e.relay_only;
  paths = [];
  dataplane_healthy = true;
  pending_commands = [];
}

module _ {Sender : Type 0} where
  -- None of the entries meets what the coordinator has already.
  abbrev Apart : Dict ℕ PeerEntry → Coordinator Sender → Type 0
  Apart m d =
      (i : ℕ) (e : PeerEntry)
      → lookup i m ≡ some e
      → (lookup i d.roster ≡ none)
        × (lookup e.wg_public_key d.by_pubkey ≡ none)
        × (any (λ f. f.ula == e.ula) (values d.roster) ≡ false)

  module _ (fmt : Formats) (now : ℕ) where
    abbrev Restores : Dict ℕ PeerEntry → Coordinator Sender → Coordinator Sender → Type 0
    Restores m d d' =
        ((id : ℕ)
          → lookup id d'.roster
            ≡ elim (lookup id m) [ none ↦ lookup id d.roster | some e ↦ some (rejoined fmt now e) ])
        × Consistent d'
