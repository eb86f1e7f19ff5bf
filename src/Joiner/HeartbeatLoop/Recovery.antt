-- ===== src/Joiner/HeartbeatLoop/Recovery.antt =====
-- How the heartbeat loop of crates/mesh-joiner/src/coordinator/heartbeat.rs treats each answer.
use tabbify_service_mesh.Joiner.Commands.{NodeCommand}
use tabbify_service_mesh.Joiner.Sync.{reconcile_roster}
use tabbify_service_mesh.Formats.{socket_eq, Formats}
use tabbify_service_mesh.Allocator.{addr_eq}
use tabbify_service_mesh.Joiner.HeartbeatLoop.{
  JoinerError, http_status, RegisterCall, RegisterResponse, is_status, register_with_409_fallback,
  HeartbeatRequest, HeartbeatResponse, LoopState, Settings, Tick, heartbeat_request, adopt,
  reregister_after_roster_loss, on_forgotten, on_answer, tick_once,
}
use tabbify_service_mesh.Joiner.Commands.Once.{all_acks, process_commands-Authorised}
use tabbify_service_mesh.Shared.{
  if◌then◌else◌, nat_eq, list_eq, option_eq, pair_eq, Text, Result, ok, err, ℕ, ◌≡◌, refl, ap, ◌∙◌,
  Bool, true, false, none, List, [], ◌∷◌, ◌++◌, map,
}

-- The acknowledgements that an answer leaves for the next heartbeat.
abbrev pub acks_after :
    Settings → (sent : List Text) → Result JoinerError HeartbeatResponse → List Text
acks_after c sent (ok resp) = all_acks c.formats resp.pending_commands
acks_after c sent (err e) = if is_status 404 e then [] else sent

adopt-acks :
    (c : Settings) (s : LoopState) (r : Result JoinerError RegisterResponse)
    → (adopt c s r).pending_acks ≡ s.pending_acks
adopt-acks c s (ok resp) = refl
adopt-acks c s (err e) = refl

on_forgotten-acks :
    (c : Settings) (tick : Tick) (s : LoopState) (guard : Bool)
    → (on_forgotten c tick s guard).pending_acks ≡ s.pending_acks
unfolding reregister_after_roster_loss
on_forgotten-acks c tick s true = refl
on_forgotten-acks c tick s false =
    let out =
      register_with_409_fallback tick.registry c.reregister c.wg_listen_port none none
        c.reregister.requested_ula in
    adopt-acks c
      (record s { handling_roster_loss = true; register_calls = s.register_calls ++ out.1 }) out.0

on_answer-acks :
    (c : Settings) (tick : Tick) (s : LoopState) (r : Result JoinerError HeartbeatResponse)
    → (on_answer c tick s r).pending_acks ≡ acks_after c s.pending_acks r
on_answer-acks c tick s (ok resp) =
    (process_commands-Authorised c.formats c.crypto resp.pending_commands s.command_gate
      (reconcile_roster c.formats c.lookup_host s.sessions resp.peers) tick.now_micros tick.saved).0
on_answer-acks c tick s (err e) = by_status (is_status 404 e)
  where
    by_status :
        (forgotten : Bool)
        → (if forgotten
            then on_forgotten c tick (record s { pending_acks = [] }) s.handling_roster_loss
            else s).pending_acks
          ≡ (if forgotten then [] else s.pending_acks)
    by_status true =
        on_forgotten-acks c tick (record s { pending_acks = [] }) s.handling_roster_loss
    by_status false = refl

-- What is due after a tick, by its answer.
tick_once-acks :
    (c : Settings) (tick : Tick) (s : LoopState)
    → (tick_once c tick s).pending_acks
      ≡ acks_after c s.pending_acks (tick.heartbeat (heartbeat_request c s tick.now_micros))
unfolding tick_once
tick_once-acks c tick s =
    on_answer-acks c tick s (tick.heartbeat (heartbeat_request c s tick.now_micros))

abbrev pub run_ticks : Settings → List Tick → LoopState → LoopState
run_ticks c [] s = s
run_ticks c (tick ∷ ticks) s = run_ticks c ticks (tick_once c tick s)

-- Every heartbeat of these ticks fails, and not with a 404.
abbrev pub AllFailed : List Tick → Type 0
AllFailed [] = Unit
AllFailed (tick ∷ ticks) =
    ((request : HeartbeatRequest)
      → (e : JoinerError) × (tick.heartbeat request ≡ err e) × (is_status 404 e ≡ false))
    × AllFailed ticks

failing-acks :
    (c : Settings) (ticks : List Tick) (s : LoopState)
    → AllFailed ticks
    → (run_ticks c ticks s).pending_acks ≡ s.pending_acks
failing-acks c [] s all = refl
failing-acks c (tick ∷ ticks) s all =
    let request = heartbeat_request c s tick.now_micros in
    let failed = all.0 request in
    failing-acks c ticks (tick_once c tick s) all.1
    ∙ tick_once-acks c tick s
    ∙ ap (acks_after c s.pending_acks) failed.1
    ∙ ap (λ b. if b then [] else s.pending_acks) failed.2

-- At least once: after an answer that carried commands, however many heartbeats then fail (but not with
-- a 404, which means that the coordinator has lost the queue), the next heartbeat carries the id of
-- every one of these commands, in order.
pub run_ticks-acks :
    (c : Settings) (tick : Tick) (failing : List Tick) (s : LoopState) (resp : HeartbeatResponse)
    (next_micros : ℕ)
    → tick.heartbeat (heartbeat_request c s tick.now_micros) ≡ ok resp
    → AllFailed failing
    → (heartbeat_request c (run_ticks c (tick ∷ failing) s) next_micros).executed_command_ids
      ≡ map (λ command. c.formats.print_uuid command.command_id) resp.pending_commands
unfolding heartbeat_request
run_ticks-acks c tick failing s resp next_micros answer all =
    failing-acks c failing (tick_once c tick s) all
    ∙ tick_once-acks c tick s
    ∙ ap (acks_after c s.pending_acks) answer
    ∙ acks-map c.formats resp.pending_commands
  where
    acks-map :
        (fmt : Formats) (cs : List NodeCommand)
        → all_acks fmt cs ≡ map (λ command. fmt.print_uuid command.command_id) cs
    acks-map fmt [] = refl
    acks-map fmt (c ∷ cs) = ap (λ rest. fmt.print_uuid c.command_id ∷ rest) (acks-map fmt cs)

-- The coordinator answers every heartbeat of these ticks with a 404.
abbrev pub AllForgotten : List Tick → Type 0
AllForgotten [] = Unit
AllForgotten (tick ∷ ticks) =
    ((request : HeartbeatRequest)
      → (body : Text) × (tick.heartbeat request ≡ err (http_status 404 body)))
    × AllForgotten ticks

-- Once the guard is set nothing but a heartbeat that succeeds clears it.
guard_keeps :
    (c : Settings) (ticks : List Tick) (s : LoopState)
    → s.handling_roster_loss ≡ true
    → AllForgotten ticks
    → ((run_ticks c ticks s).handling_roster_loss ≡ true)
      × ((run_ticks c ticks s).register_calls ≡ s.register_calls)
      × ((run_ticks c ticks s).peer_id ≡ s.peer_id)
unfolding tick_once
guard_keeps c [] s busy all = (busy, refl, refl)
guard_keeps c (tick ∷ ticks) s busy all =
    let answer = all.0 (heartbeat_request c s tick.now_micros) in
    let forgotten : tick_once c tick s
        ≡ on_forgotten c tick (record s { pending_acks = [] }) s.handling_roster_loss =
      ap (on_answer c tick s) answer.1 in
    let still : tick_once c tick s ≡ record s { pending_acks = [] } =
      forgotten ∙ ap (on_forgotten c tick (record s { pending_acks = [] })) busy in
    let rest =
      guard_keeps c ticks (tick_once c tick s)
        (ap (λ (u : LoopState). u.handling_roster_loss) still ∙ busy) all.1 in
    (
      rest.0,
      rest.1 ∙ ap (λ (u : LoopState). u.register_calls) still,
      rest.2 ∙ ap (λ (u : LoopState). u.peer_id) still,
    )

abbrev pub registration : Settings → Tick → Result JoinerError RegisterResponse × List RegisterCall
registration c tick =
    register_with_409_fallback tick.registry c.reregister c.wg_listen_port none none
      c.reregister.requested_ula

-- If the registration that a first 404 leads to fails, it was the last: however often the
-- coordinator answers 404 from then on, the loop keeps the dead id and never asks to register
-- again.
pub run_ticks-stuck :
    (c : Settings) (tick : Tick) (ticks : List Tick) (s : LoopState) (e : JoinerError)
    → AllForgotten (tick ∷ ticks)
    → s.handling_roster_loss ≡ false
    → (registration c tick).0 ≡ err e
    → ((run_ticks c (tick ∷ ticks) s).peer_id ≡ s.peer_id)
      × ((run_ticks c (tick ∷ ticks) s).register_calls
          ≡ s.register_calls ++ (registration c tick).1)
unfolding tick_once reregister_after_roster_loss
run_ticks-stuck c tick ticks s e all idle failed =
    let answer = all.0 (heartbeat_request c s tick.now_micros) in
    let drained = record s { pending_acks = [] } in
    let calls = s.register_calls ++ (registration c tick).1 in
    let asked = record s {
      handling_roster_loss = true;
      register_calls = calls;
      pending_acks = [];
    } in
    let first : tick_once c tick s ≡ asked =
      ap (on_answer c tick s) answer.1
      ∙ (ap (on_forgotten c tick drained) idle ∙ ap (adopt c asked) failed) in
    let rest =
      guard_keeps c ticks (tick_once c tick s)
        (ap (λ (u : LoopState). u.handling_roster_loss) first) all.1 in
    (
      rest.2 ∙ ap (λ (u : LoopState). u.peer_id) first,
      rest.1 ∙ ap (λ (u : LoopState). u.register_calls) first,
    )
