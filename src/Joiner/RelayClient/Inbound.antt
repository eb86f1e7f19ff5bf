-- ===== src/Joiner/RelayClient/Inbound.antt =====
-- What a frame from the relay does, in crates/mesh-joiner/src/relay/client.rs.
use tabbify_service_mesh.Formats.{socket_eq}
use tabbify_service_mesh.Allocator.{addr_eq}
use tabbify_service_mesh.Joiner.DataPlane.{DataPlane}
use tabbify_service_mesh.Joiner.Commands.Once.{after}
use tabbify_service_mesh.Joiner.DataPlane.Filtering.{Received}
use tabbify_service_mesh.Shared.{
  nat_eq, list_eq, option_eq, pair_eq, Text, lookup, ℕ, ◌≡◌, false, some,
}

-- A frame under the key `source` reached a session: that of the peer with this key.
abbrev pub Injected : (source : Text) (before after : DataPlane) → Type 0
Injected source before after =
    (session : ℕ) × ((before.sessions.heap session).peer_pubkey ≡ source)
    × (lookup (before.sessions.heap session).ula before.sessions.by_ula ≡ some session)
    × Received false session before after
