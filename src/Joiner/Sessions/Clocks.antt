-- ===== src/Joiner/Sessions/Clocks.antt =====
-- The clocks of crates/mesh-joiner/src/wg/session/table.rs: the data-plane's health and the idle
-- probe's turn. Differences of times are signed.
use tabbify_service_mesh.Formats.{socket_eq}
use tabbify_service_mesh.Allocator.{addr_eq}
use tabbify_service_mesh.Joiner.Sessions.{SessionTable}
use tabbify_service_mesh.Shared.{
  ltb, leb, if◌then◌else◌, nat_eq, list_eq, option_eq, pair_eq, is_empty, pos, sub_ℕ, leb_ℤ, ℕ, ◌/◌,
  Bool, true, false, not, ◌&&◌,
}

abbrev pub dataplane_rx_silence_threshold_micros : ℕ
dataplane_rx_silence_threshold_micros = 90000000

abbrev pub idle_probe_after_micros : ℕ
idle_probe_after_micros = dataplane_rx_silence_threshold_micros / 4

abbrev pub store_max : (clock now : ℕ) → ℕ
store_max clock now = if ltb clock now then now else clock

unfoldable pub note_inbound_data_frame : SessionTable → (now_micros : ℕ) → SessionTable
note_inbound_data_frame t now_micros = record t {
  last_inbound_data_frame_ts = store_max t.last_inbound_data_frame_ts now_micros;
}

unfoldable pub note_send_attempt : SessionTable → (now_micros : ℕ) → SessionTable
note_send_attempt t now_micros = record t {
  last_send_attempt_ts = store_max t.last_send_attempt_ts now_micros;
}

unfoldable pub dataplane_healthy : SessionTable → (now_micros threshold_micros : ℕ) → Bool
dataplane_healthy t now_micros threshold_micros =
    if is_empty t.by_ula
    then true
    else if leb t.last_send_attempt_ts t.last_inbound_data_frame_ts
    then true
    else not (leb_ℤ (pos threshold_micros) (sub_ℕ now_micros t.last_inbound_data_frame_ts))

unfoldable pub idle_probe_due :
    (now_micros last_rx_micros : ℕ) (has_peers : Bool) (after_micros : ℕ) → Bool
idle_probe_due now_micros last_rx_micros has_peers after_micros =
    has_peers && leb_ℤ (pos after_micros) (sub_ℕ now_micros last_rx_micros)

unfoldable pub should_emit_idle_probe :
    SessionTable → (now_micros after_micros : ℕ) → SessionTable × Bool
should_emit_idle_probe t now_micros after_micros =
    let due =
      idle_probe_due now_micros t.last_inbound_data_frame_ts (not (is_empty t.by_ula))
        after_micros in
    if not due
    then (t, false)
    else if leb_ℤ (pos after_micros) (sub_ℕ now_micros t.last_idle_probe_ts)
    then (record t { last_idle_probe_ts = now_micros }, true)
    else (t, false)
