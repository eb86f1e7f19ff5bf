-- ===== src/Http/Uplink.antt =====
-- crates/mesh-coordinator/src/http/relay.rs: the routing of one frame from a peer's socket.
pub mod Routing
use tabbify_service_mesh.Roster.Reports.{
  note_relay_forwarded, note_relay_wake_emitted, note_relay_pair_forwarded,
}
use tabbify_service_mesh.Roster.Views.{peer_for_pubkey}
use tabbify_service_mesh.Roster.Filter.{can_relay}
use tabbify_service_mesh.Roster.{relay_wake, Clock, Coordinator, broadcast}
use tabbify_service_mesh.Relay.Frame.{encode_relay_frame, decode_relay_frame}
use tabbify_service_mesh.Relay.Registry.{Lane, hi, lo, Frame, Sent, take_wake_slot, forward}
use tabbify_service_mesh.Formats.{Formats}
use tabbify_service_mesh.Allocator.{addr_eq}
use tabbify_service_mesh.Shared.{
  leb, if◌then◌else◌, get_or, ◌==◌, nat_eq, list_eq, option_eq, pair_eq, Text, bytes, length,
  map_option, ℕ, Bool, false, ◌&&◌, Option, none, some, List, [], ◌∷◌,
}

unfoldable pub parse_lane : Option Text → Lane
parse_lane lane = if lane == some (bytes "hi") then hi else lo

-- The first byte of the inner packet: 1 to 3 are handshake and cookie frames.
abbrev pub first_byte : List ℕ → Option ℕ
first_byte [] = none
first_byte (b ∷ bs) = some b

abbrev pub is_hi_prio : List ℕ → Bool
is_hi_prio payload = get_or (map_option (λ t. leb 1 t && leb t 3) (first_byte payload)) false

abbrev pub is_init : List ℕ → Bool
is_init payload = first_byte payload == some 1

module _ (fmt : Formats) {Sender Net : Type 0} (try_send : Net → Sender → Frame → Net × Sent)
    (is_closed : Net → Sender → Bool) where
  -- The rendezvous for a destination that is not connected.
  unfoldable pub wake_cold : Coordinator Sender → List ℕ → List ℕ → Clock → Coordinator Sender
  wake_cold c my_pubkey dst clock = elim (peer_for_pubkey c dst) [
    | none ↦ c
    | some (recipient, _) ↦ elim (peer_for_pubkey c my_pubkey) [
      | none ↦ c
      | some (_, source_ula) ↦
          let (relay, taken) = take_wake_slot c.relay dst clock.instant in
          let c' : Coordinator Sender = record c { relay = relay } in
          if taken
          then note_relay_wake_emitted (
              broadcast c' (
                relay_wake (record {
                  recipient_peer_id = fmt.print_uuid recipient;
                  source_ula = fmt.print_ipv6 source_ula;
                  timestamp_micros = clock.micros;
                })))
          else c'
    ]
  ]

  -- A permitted frame, decoded.
  unfoldable pub relay_permitted :
      Net
      → Coordinator Sender
      → List ℕ
      → List ℕ
      → List ℕ
      → Clock
      → Net × Coordinator Sender × Option (List ℕ)
  unfolding wake_cold
  relay_permitted net c my_pubkey dst payload clock =
      let downlink = encode_relay_frame my_pubkey payload in
      let hi_prio = is_hi_prio payload in
      let (net', relay, sent) =
        forward try_send is_closed net c.relay dst downlink hi_prio clock.instant in
      let c' : Coordinator Sender = record c { relay = relay } in
      if sent
      then (
        net',
        note_relay_pair_forwarded (note_relay_forwarded c' (length downlink)) my_pubkey dst
            (length downlink) hi_prio,
        some downlink,
      )
      else (
        net',
        if is_init payload && c.proactive then wake_cold c' my_pubkey dst clock else c',
        none,
      )

  unfoldable pub route_uplink :
      Net
      → Coordinator Sender
      → List ℕ
      → List ℕ
      → Clock
      → Net × Coordinator Sender × Option (List ℕ)
  unfolding relay_permitted
  route_uplink net c my_pubkey buf clock = elim (decode_relay_frame buf) [
    | none ↦ (net, c, none)
    | some (dst, payload) ↦
        if can_relay c my_pubkey dst
        then relay_permitted net c my_pubkey dst payload clock
        else (net, c, none)
  ]
