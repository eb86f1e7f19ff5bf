-- ===== src/Joiner/Session.antt =====
-- crates/mesh-joiner/src/wg/session/peer_session.rs: the state that the joiner keeps for one peer, and
-- `escalating_backoff` of wg/session/table.rs. Times are microseconds since the epoch, so not
-- negative; a difference of two is signed, as in the code. The WireGuard state machine of a session
-- (boringtun's `Tunn`) is not part of the record.
pub mod Backoff
pub mod Direct
use tabbify_service_mesh.Formats.{SocketAddr}
use tabbify_service_mesh.Allocator.{Ipv6Addr, addr_eq}
use tabbify_service_mesh.Shared.{
  ltb, leb, if◌then◌else◌, ◌==◌, nat_eq, list_eq, option_eq, pair_eq, Text, select, contains, ℤ,
  pos, sub_ℕ, leb_ℤ, ℕ, zero, suc, ◌+◌, ◌-◌, ◌*◌, ◌%◌, ◌^◌, min, Bool, true, false, not, ◌&&◌,
  Option, none, some, List, ◌∷◌,
}

abbrev pub direct_path_ttl_micros : ℕ
direct_path_ttl_micros = 35000000

abbrev pub direct_tx_blackhole_ttl_micros : ℕ
direct_tx_blackhole_ttl_micros = 30000000

abbrev pub direct_backoff_base_micros : ℕ
direct_backoff_base_micros = 2000000

abbrev pub direct_backoff_cap_micros : ℕ
direct_backoff_cap_micros = 300000000

abbrev pub expired_rearm_backoff_micros : ℕ
expired_rearm_backoff_micros = 90000000

abbrev pub expired_rearm_backoff_cap_micros : ℕ
expired_rearm_backoff_cap_micros = 600000000

abbrev pub convergence_rearm_backoff_micros : ℕ
convergence_rearm_backoff_micros = 5000000

abbrev pub i64_max : ℕ
i64_max = 2 ^ 63 - 1

-- The loop with `left` of its rounds to go.
abbrev pub escalate : (left window cap_micros : ℕ) → ℕ
escalate zero window cap_micros = if ltb window cap_micros then window else cap_micros
escalate (suc left) window cap_micros =
    let doubled = window * 2 in
    let next = escalate left doubled cap_micros in
    if leb doubled i64_max && ltb doubled cap_micros then next else cap_micros

unfoldable pub escalating_backoff : (streak base_micros cap_micros : ℕ) → ℕ
escalating_backoff streak base_micros cap_micros = escalate streak base_micros cap_micros

unfoldable pub rearm_interval : (streak base_micros cap_micros : ℕ) → ℕ
rearm_interval streak base_micros cap_micros = escalating_backoff streak base_micros cap_micros

pub record PeerSession : Type 0 where
  pub peer_id : ℕ
  pub ula : Ipv6Addr
  pub peer_pubkey : Text
  pub allowed_ips : List Ipv6Addr
  pub endpoint : Option SocketAddr
  pub endpoint_learned : Bool
  pub direct_confirmed : Bool
  pub last_direct_rx_micros : ℕ
  pub last_direct_data_tx_micros : ℕ
  pub last_direct_data_rx_micros : ℕ
  pub last_probe_micros : ℕ
  pub failed_handshake_count : ℕ
  pub direct_suppressed_until : ℕ
  pub last_rearm_micros : ℕ
  pub rearm_streak : ℕ
  pub eager_convergence : Bool
  pub last_handshake_rx_micros : ℕ
  pub last_handshake_rx_direct : Bool
  pub handshake_rx_count : ℕ

unfoldable pub path_status : PeerSession → (now_micros : ℕ) → Bool × ℤ
path_status s now_micros = (s.direct_confirmed, sub_ℕ now_micros s.last_direct_rx_micros)

unfoldable pub clear_handshake_backoff : PeerSession → PeerSession
clear_handshake_backoff s = record s { failed_handshake_count = 0; direct_suppressed_until = 0 }

unfoldable pub note_direct_rx : PeerSession → (now_micros : ℕ) → PeerSession
unfolding clear_handshake_backoff
note_direct_rx s now_micros =
    record (clear_handshake_backoff (record s { last_direct_rx_micros = now_micros })) {
      rearm_streak = 0;
    }

unfoldable pub confirm_direct : PeerSession → (now_micros : ℕ) → PeerSession
confirm_direct s now_micros = record s {
  direct_confirmed = true;
  last_direct_rx_micros = now_micros;
  last_direct_data_rx_micros = now_micros;
}

unfoldable pub note_handshake_rx : PeerSession → (direct : Bool) (now_micros : ℕ) → PeerSession
note_handshake_rx s direct now_micros = record s {
  last_handshake_rx_micros = now_micros;
  last_handshake_rx_direct = direct;
  handshake_rx_count = (s.handshake_rx_count + 1) % 2 ^ 64;
}

unfoldable pub handshake_status : PeerSession → (now_micros : ℕ) → ℕ × Option (Bool × ℤ)
handshake_status s now_micros =
    if s.last_handshake_rx_micros == 0 then (s.handshake_rx_count, none) else (
      s.handshake_rx_count,
      some (s.last_handshake_rx_direct, sub_ℕ now_micros s.last_handshake_rx_micros),
    )

unfoldable pub note_direct_tx : PeerSession → (now_micros : ℕ) → PeerSession
note_direct_tx s now_micros = record s { last_direct_data_tx_micros = now_micros }

-- `failures - 1` wraps where the count of failures did, as in a release build. The shift drops what
-- leaves the 64 bits; `exp` is at most 30.
unfoldable pub note_handshake_failure : PeerSession → (now_micros : ℕ) → PeerSession
note_handshake_failure s now_micros =
    let failures = (s.failed_handshake_count + 1) % 2 ^ 32 in
    let exp = min ((failures + 2 ^ 32 - 1) % 2 ^ 32) 30 in
    let window = min (direct_backoff_base_micros * 2 ^ exp % 2 ^ 64) direct_backoff_cap_micros in
    record s {
      failed_handshake_count = failures;
      direct_suppressed_until = min (now_micros + window) i64_max;
    }

unfoldable pub downgrade_direct_if_tx_blackholed :
    PeerSession → (now_micros ttl_micros : ℕ) → PeerSession × Bool
downgrade_direct_if_tx_blackholed s now_micros ttl_micros =
    let actively_sending = leb_ℤ (sub_ℕ now_micros s.last_direct_data_tx_micros) (pos ttl_micros) in
    let rx_silent = not (leb_ℤ (sub_ℕ now_micros s.last_direct_data_rx_micros) (pos ttl_micros)) in
    if not s.direct_confirmed
    then (s, false)
    else if s.last_direct_data_tx_micros == 0
    then (s, false)
    else if actively_sending && rx_silent
    then (
      note_handshake_failure (record s { direct_confirmed = false; endpoint_learned = false })
          now_micros,
      true,
    )
    else (s, false)

unfoldable pub downgrade_direct_if_stale : PeerSession → (now_micros ttl_micros : ℕ) → PeerSession
downgrade_direct_if_stale s now_micros ttl_micros =
    if s.direct_confirmed && not (leb_ℤ (sub_ℕ now_micros s.last_direct_rx_micros) (pos ttl_micros))
    then note_handshake_failure (record s { direct_confirmed = false; endpoint_learned = false })
        now_micros
    else s

unfoldable pub should_probe_direct :
    PeerSession → (now_micros interval_micros : ℕ) → PeerSession × Bool
should_probe_direct s now_micros interval_micros =
    if leb_ℤ (pos interval_micros) (sub_ℕ now_micros s.last_probe_micros)
    then (record s { last_probe_micros = now_micros }, true)
    else (s, false)

unfoldable pub direct_suppressed : PeerSession → (now_micros : ℕ) → Bool
direct_suppressed s now_micros = ltb now_micros s.direct_suppressed_until

-- `streak.saturating_add(1)` on a `u32`.
unfoldable pub should_rearm_expired :
    PeerSession → (now_micros base_micros cap_micros : ℕ) → PeerSession × Bool
should_rearm_expired s now_micros base_micros cap_micros =
    let interval = rearm_interval s.rearm_streak base_micros cap_micros in
    if leb_ℤ (pos interval) (sub_ℕ now_micros s.last_rearm_micros)
    then (
      record s {
        last_rearm_micros = now_micros;
        rearm_streak = min (s.rearm_streak + 1) (2 ^ 32 - 1);
      },
      true,
    )
    else (s, false)

unfoldable pub is_allowed_source : PeerSession → Ipv6Addr → Bool
is_allowed_source s source = contains s.allowed_ips source

-- A `HashSet` insertion.
unfoldable pub add_allowed_source : PeerSession → Ipv6Addr → PeerSession
add_allowed_source s addr =
    if contains s.allowed_ips addr then s else record s { allowed_ips = addr ∷ s.allowed_ips }

unfoldable pub remove_allowed_source : PeerSession → Ipv6Addr → PeerSession
remove_allowed_source s addr = record s {
  allowed_ips = select (λ a. not (a == addr)) s.allowed_ips;
}
