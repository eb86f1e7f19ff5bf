-- ===== src/Relay/Tests.antt =====
-- Tests of relay/, and its theorems at concrete inputs. A sender is a number, and 0 is closed; the
-- channels are the frames delivered so far, newest first.
use tabbify_service_mesh.Shared.{
  if◌then◌else◌, ◌==◌, nat_eq, list_eq, option_eq, pair_eq, ℕ, ◌≡◌, refl, Bool, true, none, some,
  List, [], ◌∷◌,
}
use tabbify_service_mesh.Relay.Registry.{
  hi, lo, Frame, Sent, delivered, closed, RelayRegistry, new_registry, forward, register,
}
use tabbify_service_mesh.Relay.Registry.Bounds.{
  Bounded, registers, forwards, reaps_spool, run_registry, run_registry-Bounded,
}

abbrev send : List Frame → ℕ → Frame → List Frame × Sent
send net tx frame = if tx == 0 then (net, closed) else (frame ∷ net, delivered)

abbrev shut : List Frame → ℕ → Bool
shut net tx = tx == 0

abbrev key : List ℕ
key =
    1 ∷ 2 ∷ 3 ∷ 4 ∷ 5 ∷ 6 ∷ 7 ∷ 8 ∷ 9 ∷ 10 ∷ 11 ∷ 12 ∷ 13 ∷ 14 ∷ 15 ∷ 16 ∷ 17 ∷ 18 ∷ 19 ∷ 20 ∷ 21
    ∷ 22 ∷ 23 ∷ 24 ∷ 25 ∷ 26 ∷ 27 ∷ 28 ∷ 29 ∷ 30 ∷ 31 ∷ 32 ∷ []

abbrev handshake : Frame
handshake = 1 ∷ 9 ∷ []

-- A frame for an absent peer waits in the spool, and reaches it when it connects in time.
abbrev waiting : RelayRegistry ℕ
waiting = (forward send shut [] new_registry key handshake true 5).1

delivered_late : (register send shut [] waiting key hi 7 1_000_000_005).0 ≡ handshake ∷ []
unfolding register forward new_registry
delivered_late = refl

too_late : (register send shut [] waiting key hi 7 2_000_000_006).0 ≡ []
unfolding register forward new_registry
too_late = refl

abbrev connected : RelayRegistry ℕ
connected = record {
  conns = (key, record { hi_conn = some (record { id = 0; tx = 0 }); lo_conn = none }) ∷ [];
  spool = [];
  next_id = 1;
  wake_cooldown = [];
}

run_registry-Bounded_example :
    Bounded
      (run_registry send shut [] connected
        (forwards key handshake true 5 ∷ registers key lo 7 9 ∷ reaps_spool 11 ∷ [])).1.spool
run_registry-Bounded_example =
    run_registry-Bounded send shut
      (forwards key handshake true 5 ∷ registers key lo 7 9 ∷ reaps_spool 11 ∷ []) [] connected tt
