-- ===== src/Joiner/Session/Direct.antt =====
-- When a session of crates/mesh-joiner/src/wg/session/peer_session.rs may send without the relay, and
-- how it loses that.
use tabbify_service_mesh.Formats.{socket_eq}
use tabbify_service_mesh.Joiner.Session.Backoff.{pow-pos, pow_mono}
use tabbify_service_mesh.Allocator.{addr_eq}
use tabbify_service_mesh.Joiner.Session.{
  direct_backoff_cap_micros, i64_max, PeerSession, note_handshake_failure,
  downgrade_direct_if_tx_blackholed, downgrade_direct_if_stale, direct_suppressed,
}
use tabbify_service_mesh.Shared.{
  ltb, leb, nat_eq, list_eq, option_eq, pair_eq, ℕ, ◌+◌, ◌-◌, ◌%◌, ◌^◌, ◌≤◌, min, ◌≡◌, refl, Bool,
  true, false, not, ◌&&◌, ◌||◌, arith,
}

-- The session that a downgrade leaves, before the failure is counted.
abbrev unconfirmed : PeerSession → PeerSession
unconfirmed s = record s { direct_confirmed = false; endpoint_learned = false }

kept_by_failure :
    (s : PeerSession) (now : ℕ)
    → ((note_handshake_failure s now).direct_confirmed ≡ s.direct_confirmed)
      × ((note_handshake_failure s now).endpoint_learned ≡ s.endpoint_learned)
unfolding note_handshake_failure
kept_by_failure s now = (refl, refl)

-- A failure holds the direct path back for two seconds at least.
failure-holds :
    (s : PeerSession) (now : ℕ)
    → now + direct_backoff_cap_micros ≤ i64_max
    → direct_suppressed (note_handshake_failure s now) now ≡ true
unfolding direct_suppressed note_handshake_failure
failure-holds s now h =
    let exp = min (((s.failed_handshake_count + 1) % 2 ^ 32 + 2 ^ 32 - 1) % 2 ^ 32) 30 in
    ground (arith, pow-pos exp, pow_mono exp 30 (omega arith))

-- A check for silence keeps a session as it is, unless its path is confirmed and the last datagram is
-- more than `ttl` old: then the path is unconfirmed, the learned address is dropped and the direct path
-- is held back from that moment, so what the session sends next takes the relay.
pub downgrade_direct_if_stale-lost :
    (s : PeerSession) (now ttl : ℕ)
    → now + direct_backoff_cap_micros ≤ i64_max
    → ((downgrade_direct_if_stale s now ttl).direct_confirmed
        ≡ (s.direct_confirmed && leb now (s.last_direct_rx_micros + ttl)))
      × ((downgrade_direct_if_stale s now ttl).endpoint_learned ≡ (
          s.endpoint_learned
          && (not s.direct_confirmed || leb now (s.last_direct_rx_micros + ttl))))
      × (direct_suppressed (downgrade_direct_if_stale s now ttl) now ≡ (
          direct_suppressed s now
          || (s.direct_confirmed && not (leb now (s.last_direct_rx_micros + ttl)))))
unfolding downgrade_direct_if_stale
downgrade_direct_if_stale-lost s now ttl room =
    let held = failure-holds (unconfirmed s) now room in
    let kept = kept_by_failure (unconfirmed s) now in
    (ground (arith, kept.0), ground (arith, kept.1), ground (arith, held))

-- Data was sent over the confirmed path at most `ttl` ago, and none came back for longer than `ttl`.
abbrev pub swallowed : PeerSession → (now ttl : ℕ) → Bool
swallowed s now ttl =
    s.direct_confirmed
    && (ltb 0 s.last_direct_data_tx_micros
        && (leb now (s.last_direct_data_tx_micros + ttl)
            && ltb (s.last_direct_data_rx_micros + ttl) now))

-- The check for a path that swallows what is sent fires exactly on such a path, which is then
-- unconfirmed, its learned address dropped and the direct path held back; else nothing changes.
pub downgrade_direct_if_tx_blackholed-lost :
    (s : PeerSession) (now ttl : ℕ)
    → now + direct_backoff_cap_micros ≤ i64_max
    → ((downgrade_direct_if_tx_blackholed s now ttl).1 ≡ swallowed s now ttl)
      × ((downgrade_direct_if_tx_blackholed s now ttl).0.direct_confirmed
          ≡ (s.direct_confirmed && not (swallowed s now ttl)))
      × ((downgrade_direct_if_tx_blackholed s now ttl).0.endpoint_learned
          ≡ (s.endpoint_learned && not (swallowed s now ttl)))
      × (direct_suppressed (downgrade_direct_if_tx_blackholed s now ttl).0 now
          ≡ (direct_suppressed s now || swallowed s now ttl))
unfolding downgrade_direct_if_tx_blackholed
downgrade_direct_if_tx_blackholed-lost s now ttl room =
    let held = failure-holds (unconfirmed s) now room in
    let kept = kept_by_failure (unconfirmed s) now in
    (ground arith, ground (arith, kept.0), ground (arith, kept.1), ground (arith, held))
