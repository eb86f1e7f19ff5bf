-- ===== src/Joiner/Commands/Restarts.antt =====
-- The nonces of crates/mesh-joiner/src/coordinator/command_gate.rs over many heartbeats and restarts.
use tabbify_service_mesh.Formats.{socket_eq, Formats}
use tabbify_service_mesh.Allocator.{addr_eq}
use tabbify_service_mesh.Joiner.Commands.Once.{FreshNonces, after, process_commands-Authorised}
use tabbify_service_mesh.Joiner.Commands.{
  NodeCommand, Crypto, load, record_nonce, CommandGate, evaluate, is_accept, mark_executed,
  Processed, process_commands,
}
use tabbify_service_mesh.Joiner.Sessions.{SessionTable}
use tabbify_service_mesh.Shared.{
  if◌then◌else◌, get_or, Bool-cases, nat_eq, list_eq, option_eq, pair_eq, Text, ℕ, ◌≡◌, refl, ap,
  subst, ◌∙◌, inl, inr, Bool, true, List, [], ◌∷◌, ◌++◌,
}

-- One heartbeat's commands, after a restart of the daemon or not.
pub record Batch : Type 0 where
  pub restarted : Bool
  pub commands : List NodeCommand
  pub table : SessionTable
  pub now_micros : ℕ

-- A restarted daemon has the nonces of its file.
unfoldable pub reload : CommandGate → CommandGate
reload g = record g { nonces = load g.nonces.file }

abbrev pub gate_at : Batch → CommandGate → CommandGate
gate_at b g = if b.restarted then reload g else g

abbrev pub run_batch : Formats → Crypto → Batch → CommandGate → Processed
run_batch fmt k b g =
    process_commands fmt k b.commands (gate_at b g) b.table b.now_micros (λ nonce. true)

-- All that runs, with every write to the file succeeding.
abbrev pub run_batches : Formats → Crypto → List Batch → CommandGate → List NodeCommand
run_batches fmt k [] g = []
run_batches fmt k (b ∷ bs) g =
    (run_batch fmt k b g).ran ++ run_batches fmt k bs (run_batch fmt k b g).gate

abbrev pub Durable : CommandGate → Type 0
Durable g = get_or g.nonces.file [] ≡ g.nonces.nonces

mark_executed-Durable : (g : CommandGate) (nonce : Text) → Durable (mark_executed g nonce true)
unfolding mark_executed record_nonce
mark_executed-Durable g nonce = refl

process_commands-Durable :
    (fmt : Formats) (k : Crypto) (cs : List NodeCommand) (g : CommandGate) (t : SessionTable)
    (now : ℕ)
    → Durable g
    → Durable (process_commands fmt k cs g t now (λ nonce. true)).gate
unfolding process_commands
process_commands-Durable fmt k [] g t now d = d
process_commands-Durable fmt k (c ∷ cs) g t now d =
    elim (Bool-cases (is_accept (evaluate k g c now))) [
      | inl accepted ↦ rw accepted (
          process_commands-Durable fmt k cs (mark_executed g c.nonce true) t now
            (mark_executed-Durable g c.nonce))
      | inr refused ↦ rw refused (process_commands-Durable fmt k cs g t now d)
    ]

gate_at-same :
    (b : Batch) (g : CommandGate)
    → Durable g
    → Durable (gate_at b g) × ((gate_at b g).nonces.nonces ≡ g.nonces.nonces)
unfolding reload load
gate_at-same b g d = elim (Bool-cases b.restarted) [
  | inl again ↦ rw (gate_at, again) (refl, d)
  | inr on ↦ rw (gate_at, on) (d, refl)
]

FreshNonces-append :
    (seen : List Text) (cs ds : List NodeCommand)
    → FreshNonces seen cs
    → FreshNonces (after cs seen) ds
    → FreshNonces seen (cs ++ ds)
FreshNonces-append seen [] ds f g = g
FreshNonces-append seen (c ∷ cs) ds f g = (f.0, FreshNonces-append (c.nonce ∷ seen) cs ds f.1 g)

-- Over any number of heartbeats and restarts of the daemon, as long as the nonces reach the file, no
-- nonce runs twice, nor one that the file already had.
pub run_batches-FreshNonces :
    (fmt : Formats) (k : Crypto) (bs : List Batch) (g : CommandGate)
    → Durable g
    → FreshNonces g.nonces.nonces (run_batches fmt k bs g)
run_batches-FreshNonces fmt k [] g d = _
run_batches-FreshNonces fmt k (b ∷ bs) g d =
    let at = gate_at-same b g d in
    let now =
      process_commands-Authorised fmt k b.commands (gate_at b g) b.table b.now_micros (λ n. true) in
    let ran = (run_batch fmt k b g).ran in
    let fresh : FreshNonces g.nonces.nonces ran = subst (λ seen. FreshNonces seen ran) at.1 now.2 in
    let later =
      run_batches-FreshNonces fmt k bs (run_batch fmt k b g).gate
        (process_commands-Durable fmt k b.commands (gate_at b g) b.table b.now_micros at.0) in
    let seen = now.5 ∙ ap (after ran) at.1 in
    FreshNonces-append g.nonces.nonces ran (run_batches fmt k bs (run_batch fmt k b g).gate) fresh
      (subst (λ s. FreshNonces s (run_batches fmt k bs (run_batch fmt k b g).gate)) seen later)
