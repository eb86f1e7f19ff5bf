-- ===== src/Joiner/RelayClient.antt =====
-- crates/mesh-joiner/src/relay/client.rs: the list of relays, the walk over it at disconnections, and
-- what a frame from the relay does. The connection is outside the model.
pub mod Failover
pub mod Inbound
use tabbify_service_mesh.Relay.Frame.{decode_relay_frame}
use tabbify_service_mesh.Formats.{socket_eq}
use tabbify_service_mesh.Allocator.{addr_eq}
use tabbify_service_mesh.Joiner.DataPlane.{WgAction, DataPlane, process_inbound_datagram}
use tabbify_service_mesh.Joiner.Sessions.{session_by_pubkey}
use tabbify_service_mesh.Shared.{
  if◌then◌else◌, ◌==◌, nat_eq, list_eq, option_eq, pair_eq, Text, bytes, take, drop, is_empty,
  contains, map_option, ℕ, zero, suc, ◌+◌, ◌-◌, ◌%◌, ◌^◌, min, false, ◌&&◌, ◌||◌, Option, none,
  some, List, [], ◌∷◌, ◌++◌,
}

-- `trim_end_matches('/')`
abbrev pub trim_slashes : Text → Text
trim_slashes [] = []
trim_slashes (c ∷ cs) =
    let rest = trim_slashes cs in if is_empty rest && (c == 47) then [] else c ∷ rest

-- `split_once("://")`
abbrev pub split_scheme : Text → Option (Text × Text)
split_scheme [] = none
split_scheme (c ∷ cs) =
    let later = map_option (λ (p : Text × Text). (c ∷ p.0, p.1)) (split_scheme cs) in
    if take 3 (c ∷ cs) == bytes "://" then some ([], drop 3 (c ∷ cs)) else later

abbrev pub ws_scheme : Text → Text
ws_scheme s = if (s == bytes "https") || (s == bytes "wss") then bytes "wss" else bytes "ws"

abbrev pub relay_url_of : (trimmed : Text) → Option (Text × Text) → Text
relay_url_of trimmed none = bytes "ws" ++ bytes "://" ++ trimmed ++ bytes "/v1/mesh/relay"
relay_url_of trimmed (some (s, r)) = ws_scheme s ++ bytes "://" ++ r ++ bytes "/v1/mesh/relay"

unfoldable pub derive_relay_url : (coordinator_url : Text) (relay_url : Option Text) → Text
derive_relay_url coordinator_url none =
    relay_url_of (trim_slashes coordinator_url) (split_scheme (trim_slashes coordinator_url))
derive_relay_url coordinator_url (some url) = url

-- The urls in turn, without those that are in `out` already.
abbrev pub push_new : (out urls : List Text) → List Text
push_new out [] = out
push_new out (url ∷ urls) = push_new (if contains out url then out else out ++ url ∷ []) urls

unfoldable pub resolve_relay_urls : (coordinator_url : Text) (configured : List Text) → List Text
resolve_relay_urls coordinator_url [] = derive_relay_url coordinator_url none ∷ []
resolve_relay_urls coordinator_url (url ∷ urls) = push_new [] (url ∷ urls)

-- `[1u64, 2, 5, 10]`
abbrev pub backoff_at : (index : ℕ) → ℕ
backoff_at zero = 1
backoff_at (suc zero) = 2
backoff_at (suc (suc zero)) = 5
backoff_at (suc (suc (suc index))) = 10

abbrev pub backoff : (attempt : ℕ) → ℕ
backoff attempt = backoff_at (min attempt 3)

-- The relay in use, and the count of attempts on it.
pub record RelayState : Type 0 where
  pub current : ℕ
  pub attempt : ℕ

abbrev pub usize_max : ℕ
usize_max = 2 ^ 64 - 1

-- A disconnection: the seconds to wait, and the state to go on with. `count` is the number of relays.
unfoldable pub disconnected : (count : ℕ) → RelayState → ℕ × RelayState
disconnected count s =
    let attempt = min (s.attempt + 1) usize_max in
    let next = (s.current + 1) % count in
    (
      backoff s.attempt,
      if next == s.current
          then record { current = s.current; attempt = attempt }
          else record { current = next; attempt = 0 },
    )

abbrev pub inject :
    DataPlane
    → (payload : Text) → (first : ℕ → Text → WgAction) → (queued : ℕ → Text → List WgAction)
    → (now_micros : ℕ) → Option ℕ
    → DataPlane
inject d payload first queued now_micros none = d
inject d payload first queued now_micros (some session) =
    process_inbound_datagram d false session payload (first session payload)
      (queued session payload) now_micros

-- `first` and `queued` are what a session's tunnel makes of a datagram.
abbrev pub inject_frame :
    DataPlane
    → (first : ℕ → Text → WgAction) → (queued : ℕ → Text → List WgAction) → (now_micros : ℕ)
    → Option (Text × Text)
    → DataPlane
inject_frame d first queued now_micros none = d
inject_frame d first queued now_micros (some (src, payload)) =
    inject d payload first queued now_micros (session_by_pubkey d.sessions src)

-- The joiner's relay/frame.rs is the coordinator's.
unfoldable pub handle_inbound :
    DataPlane
    → (buf : Text) → (first : ℕ → Text → WgAction) → (queued : ℕ → Text → List WgAction)
    → (now_micros : ℕ) → DataPlane
handle_inbound d buf first queued now_micros =
    inject_frame d first queued now_micros (decode_relay_frame buf)
