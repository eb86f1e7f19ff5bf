-- ===== src/Http/Uplink/Routing.antt =====
-- What the relay passes on, for whom, and when it wakes the other side.
use tabbify_service_mesh.Roster.Reports.{note_relay_forwarded, note_relay_pair_forwarded}
use tabbify_service_mesh.Roster.Filter.{can_relay}
use tabbify_service_mesh.Roster.{Clock, Coordinator}
use tabbify_service_mesh.Http.Uplink.{is_hi_prio, is_init, relay_permitted, route_uplink}
use tabbify_service_mesh.Relay.Frame.{
  encode_relay_frame, decode_relay_frame, decode-encode_relay_frame, encode-decode_relay_frame,
}
use tabbify_service_mesh.Relay.Registry.Handing.{Taken, NotTaken, forward-Taken}
use tabbify_service_mesh.Relay.Registry.{Frame, Sent}
use tabbify_service_mesh.Formats.{socket_eq, Formats}
use tabbify_service_mesh.Allocator.{addr_eq}
use tabbify_service_mesh.Shared.{
  Bool-cases, Option-cases, nat_eq, list_eq, option_eq, pair_eq, length, ℕ, ◌≡◌, refl, ◌≢◌, ◌⊎◌,
  inl, inr, Bool, true, false, ◌&&◌, Option, none, some, List, [], ◌∷◌, arith,
}

note_relay_pair-quiet :
    {Sender : Type 0} (c : Coordinator Sender) (src dst : List ℕ) (n : ℕ) (hi_prio : Bool)
    → (note_relay_pair_forwarded c src dst n hi_prio).broadcasts ≡ c.broadcasts
unfolding note_relay_pair_forwarded
note_relay_pair-quiet c src dst n hi_prio = ground arith

module _ (fmt : Formats) {Sender Net : Type 0} (try_send : Net → Sender → Frame → Net × Sent)
    (is_closed : Net → Sender → Bool) where
  -- For a permitted frame: a frame under the sender's key went into a channel of `dst` and is the
  -- answer, or no channel took it and the answer is none; and nobody is woken unless it was not taken,
  -- the gate is open and the frame starts a handshake.
  abbrev pub Relayed :
      Net
      → Coordinator Sender
      → (my_pubkey dst payload : List ℕ) → Net × Coordinator Sender × Option (List ℕ)
      → Type 0
  Relayed net c my_pubkey dst payload (net', c', out) =
      (d : List ℕ) × (decode_relay_frame d ≡ some (my_pubkey, payload))
      × (((out ≡ some d) × Taken try_send is_closed c.relay dst d net net')
          ⊎ ((out ≡ none) × NotTaken try_send is_closed c.relay dst d net net'))
      × ((c'.broadcasts ≡ c.broadcasts)
          ⊎ ((c.proactive ≡ true) × (is_init payload ≡ true) × (out ≡ none)))

  -- The frame cannot be decoded, or the policy denies the pair.
  abbrev pub Refused : Coordinator Sender → (my_pubkey buf : List ℕ) → Type 0
  Refused c my_pubkey buf =
      (decode_relay_frame buf ≡ none)
      ⊎ ((dst payload : List ℕ) × (decode_relay_frame buf ≡ some (dst, payload))
          × (can_relay c my_pubkey dst ≡ false))

  relay_permitted-Relayed :
      (net : Net) (c : Coordinator Sender) (my_pubkey dst payload : List ℕ) (clock : Clock)
      → length my_pubkey ≡ 32
      → payload ≢ []
      → Relayed net c my_pubkey dst payload
          (relay_permitted fmt try_send is_closed net c my_pubkey dst payload clock)
  unfolding relay_permitted note_relay_forwarded
  relay_permitted-Relayed net c my_pubkey dst payload clock whole some_payload =
      let downlink = encode_relay_frame my_pubkey payload in
      let hi_prio = is_hi_prio payload in
      let back = reads_back payload some_payload in
      elim (forward-Taken try_send is_closed net c.relay dst downlink hi_prio clock.instant) [
        | inl (sent, taken) ↦
            rw (relay_permitted, sent)
              (
                downlink,
                back,
                inl (refl, taken),
                inl (note_relay_pair-quiet _ my_pubkey dst (length downlink) hi_prio),
              )
        | inr (held, not_taken) ↦ elim (Bool-cases (is_init payload && c.proactive)) [
          | inl wakes ↦
              rw (relay_permitted, held, wakes)
                (downlink, back, inr (refl, not_taken), inr (ground arith, ground arith, refl))
          | inr quiet ↦
              rw (relay_permitted, held, quiet) (downlink, back, inr (refl, not_taken), inl refl)
        ]
      ]
    where
      reads_back :
          (p : List ℕ)
          → p ≢ []
          → decode_relay_frame (encode_relay_frame my_pubkey p) ≡ some (my_pubkey, p)
      reads_back [] ne = absurd (ne refl)
      reads_back (b ∷ bs) ne = decode-encode_relay_frame my_pubkey (b ∷ bs) whole

  -- A frame that cannot be decoded or that the policy denies changes nothing, sends nothing and wakes
  -- nobody. For any other frame the policy permits the pair, and the relay asks a channel that the
  -- destination has open, or none if it has no bulk lane, to take a frame that reads as the same
  -- payload under the key of the socket that it came from, whatever the sender wrote. The answer is
  -- that frame when the channel took it and none otherwise; nobody is woken unless no channel took it,
  -- the gate is open and the frame starts a handshake. The socket's key has 32 bytes.
  pub route_uplink-Relayed :
      (net : Net) (c : Coordinator Sender) (my_pubkey buf : List ℕ) (clock : Clock)
      → length my_pubkey ≡ 32
      → (Refused c my_pubkey buf
          × (route_uplink fmt try_send is_closed net c my_pubkey buf clock ≡ (net, c, none)))
        ⊎ ((dst payload : List ℕ) × (decode_relay_frame buf ≡ some (dst, payload))
            × (can_relay c my_pubkey dst ≡ true)
            × Relayed net c my_pubkey dst payload
                (route_uplink fmt try_send is_closed net c my_pubkey buf clock))
  unfolding route_uplink
  route_uplink-Relayed net c my_pubkey buf clock whole =
      elim (Option-cases (decode_relay_frame buf)) [
        | inl bad ↦ inl (inl bad, rw (route_uplink, bad) refl)
        | inr ((dst, payload), at) ↦ elim (Bool-cases (can_relay c my_pubkey dst)) [
          | inl allowed ↦
              let (same, key, ne) = encode-decode_relay_frame buf dst payload at in
              inr (
                dst,
                payload,
                at,
                allowed,
                rw (route_uplink, at, allowed)
                    (relay_permitted-Relayed net c my_pubkey dst payload clock whole ne),
              )
          | inr denied ↦ inl (inr (dst, payload, at, denied), rw (route_uplink, at, denied) refl)
        ]
      ]
