-- ===== src/Joiner/Commands.antt =====
-- crates/mesh-joiner/src/coordinator/: command.rs, command_gate.rs and command_exec.rs, the signed
-- commands that the coordinator relays to a node. The signature scheme, hexadecimal and JSON forms are
-- those of the crates (`Crypto`). What executing a command does is a list of effects.
pub mod Once
pub mod Restarts
use tabbify_service_mesh.Formats.{socket_eq, Formats}
use tabbify_service_mesh.Allocator.{addr_eq}
use tabbify_service_mesh.Joiner.Sessions.{SessionTable}
use tabbify_service_mesh.Shared.{
  ltb, if◌then◌else◌, get_or, ◌==◌, nat_eq, list_eq, option_eq, pair_eq, Text, bytes, length,
  contains, values, Result, ok, err, ◌>>=◌, or_err, ℕ, Bool, true, false, Option, none, some, List,
  [], ◌∷◌, ◌++◌, map,
}

pub data CommandVerb : Type 0 where
  restart_joiner : CommandVerb
  reset_wg : CommandVerb
  reboot_host : CommandVerb

pub record NodeCommand : Type 0 where
  pub command_id : ℕ
  pub verb : CommandVerb
  pub peer_id : Text
  pub nonce : Text
  pub issued_at : ℕ
  pub expiry : ℕ
  pub signature : Text

pub data CommandVerifyError : Type 0 where
  bad_signature : CommandVerifyError
  expired : CommandVerifyError
  malformed : CommandVerifyError

-- `VerifyingKey::from_bytes`, `VerifyingKey::verify`, `hex::decode` and the JSON text of a command.
pub record Crypto : Type 0 where
  pub valid_key : Text → Bool
  pub verifies : (key message signature : Text) → Bool
  pub decode_hex : Text → Option Text
  pub to_json : NodeCommand → Text

unfoldable pub signing_bytes : Crypto → NodeCommand → Text
signing_bytes k c = k.to_json (record c { signature = [] })

abbrev pub sized : ℕ → Text → Result CommandVerifyError Text
sized n b = if length b == n then ok b else err malformed

unfoldable pub verify :
    Crypto → NodeCommand → (pubkey : Text) → Result {0, 0} CommandVerifyError Unit
verify k c pubkey = sized 32 pubkey >>= (λ key.
    (if k.valid_key key then ok key else err malformed) >>= (λ vk.
      or_err (k.decode_hex c.signature) malformed >>= (λ bytes.
        sized 64 bytes
        >>= (λ sig. if k.verifies vk (signing_bytes k c) sig then ok _ else err bad_signature))))

unfoldable pub check_fresh : NodeCommand → (now_micros : ℕ) → Result {0, 0} CommandVerifyError Unit
check_fresh c now_micros = if ltb c.expiry now_micros then err expired else ok _

-- `file` is what the sidecar file holds, if it can be read.
pub record NonceStore : Type 0 where
  pub nonces : List Text
  pub file : Option (List Text)

unfoldable pub load : (file : Option (List Text)) → NonceStore
load file = record { nonces = get_or file []; file = file }

-- A `HashSet` insertion, then the write to the file, which may fail.
unfoldable pub record_nonce : NonceStore → (nonce : Text) (saved : Bool) → NonceStore
record_nonce s nonce saved =
    let nonces = if contains s.nonces nonce then s.nonces else nonce ∷ s.nonces in
    record { nonces = nonces; file = if saved then some nonces else s.file }

pub data CommandVerdict : Type 0 where
  accept : CommandVerdict
  replay : CommandVerdict
  reject : CommandVerifyError → CommandVerdict

pub record CommandGate : Type 0 where
  pub super_admin_pubkey : Option Text
  pub nonces : NonceStore

abbrev pub judge :
    (verified fresh : Result {0, 0} CommandVerifyError Unit) (seen : Bool) → CommandVerdict
judge (err e) fresh seen = reject e
judge (ok u) (err e) seen = reject e
judge (ok u) (ok v) seen = if seen then replay else accept

abbrev pub evaluate_under :
    Crypto
    → (key : Option Text) (seen : List Text) → NodeCommand
    → (now_micros : ℕ) → CommandVerdict
evaluate_under k none seen c now_micros = reject bad_signature
evaluate_under k (some pk) seen c now_micros =
    judge (verify k c pk) (check_fresh c now_micros) (contains seen c.nonce)

unfoldable pub evaluate : Crypto → CommandGate → NodeCommand → (now_micros : ℕ) → CommandVerdict
evaluate k g c now_micros = evaluate_under k g.super_admin_pubkey g.nonces.nonces c now_micros

abbrev pub is_accept : CommandVerdict → Bool
is_accept accept = true
is_accept replay = false
is_accept (reject e) = false

unfoldable pub mark_executed : CommandGate → (nonce : Text) (saved : Bool) → CommandGate
mark_executed g nonce saved = record g { nonces = record_nonce g.nonces nonce saved }

-- The calls of the host's `CommandSink`, and a session's handshake started over.
pub data Effect : Type 0 where
  restart : Effect
  reboot : Effect
  rehandshake : (session : ℕ) → Effect

unfoldable pub force_rehandshake_all : SessionTable → List Effect
force_rehandshake_all t = map rehandshake (values t.by_ula)

unfoldable pub execute_verb : CommandVerb → SessionTable → List Effect
execute_verb restart_joiner t = restart ∷ []
execute_verb reboot_host t = reboot ∷ []
execute_verb reset_wg t = force_rehandshake_all t

pub record Processed : Type 0 where
  pub acks : List Text
  pub gate : CommandGate
  pub effects : List Effect
  pub ran : List NodeCommand

-- `ran` names the commands whose effects these are. `saved` says whether the write of a nonce
-- succeeds.
unfoldable pub process_commands :
    Formats
    → Crypto
    → (commands : List NodeCommand) → CommandGate
    → SessionTable
    → (now_micros : ℕ) → (saved : Text → Bool) → Processed
process_commands fmt k [] g t now_micros saved = record {
  acks = [];
  gate = g;
  effects = [];
  ran = [];
}
process_commands fmt k (c ∷ commands) g t now_micros saved =
    let accepted = is_accept (evaluate k g c now_micros) in
    let gate = if accepted then mark_executed g c.nonce (saved c.nonce) else g in
    let rest = process_commands fmt k commands gate t now_micros saved in
    record {
      acks = fmt.print_uuid c.command_id ∷ rest.acks;
      gate = rest.gate;
      effects = if accepted then execute_verb c.verb t ++ rest.effects else rest.effects;
      ran = if accepted then c ∷ rest.ran else rest.ran;
    }
