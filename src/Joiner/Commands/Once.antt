-- ===== src/Joiner/Commands/Once.antt =====
-- A node runs a relayed command only when the super-admin signed it, in time, and once
-- (crates/mesh-joiner/src/coordinator/command_exec.rs).
use tabbify_service_mesh.Joiner.Sync.View.{seen}
use tabbify_service_mesh.Roster.Fixture.{key}
use tabbify_service_mesh.Formats.{socket_eq, Formats}
use tabbify_service_mesh.Allocator.{addr_eq}
use tabbify_service_mesh.Joiner.Commands.{
  CommandVerb, restart_joiner, reset_wg, reboot_host, NodeCommand, CommandVerifyError,
  bad_signature, malformed, Crypto, signing_bytes, sized, verify, check_fresh, record_nonce,
  CommandGate, judge, evaluate_under, evaluate, is_accept, mark_executed, Effect, restart, reboot,
  rehandshake, force_rehandshake_all, execute_verb, process_commands,
}
use tabbify_service_mesh.Joiner.Sessions.{SessionTable}
use tabbify_service_mesh.Shared.{
  if◌then◌else◌, Bool-cases, nat_eq, list_eq, option_eq, pair_eq, Text, length, contains, values,
  Result, ok, err, ◌>>=◌, or_err, ℕ, ◌≤◌, ◌≡◌, refl, sym, ap, subst, ◌∙◌, inl, inr, Bool, true,
  false, Option, none, some, List, [], ◌∷◌, ◌++◌, map, arith,
}

-- The signature of a command, read as hexadecimal, is one that the key verifies for the command's
-- JSON text without its signature.
abbrev pub Signed : Crypto → (pubkey : Text) → NodeCommand → Type 0
Signed k pubkey c =
    (length pubkey ≡ 32)
    × (k.valid_key pubkey ≡ true)
    × (sig : Text) × (k.decode_hex c.signature ≡ some sig)
    × (length sig ≡ 64)
    × (k.verifies pubkey (k.to_json (record c { signature = [] })) sig ≡ true)

-- A command that the holder of the configured key signed and that has not expired.
abbrev pub Authorised : Crypto → Option Text → (now_micros : ℕ) → NodeCommand → Type 0
Authorised k none now c = ⊥
Authorised k (some pk) now c = Signed k pk c × (now ≤ c.expiry)

abbrev pub AllAuthorised : Crypto → Option Text → (now_micros : ℕ) → List NodeCommand → Type 0
AllAuthorised k key now [] = Unit
AllAuthorised k key now (c ∷ cs) = Authorised k key now c × AllAuthorised k key now cs

-- No nonce was seen before, or stands twice.
abbrev pub FreshNonces : (seen : List Text) → List NodeCommand → Type 0
FreshNonces seen [] = Unit
FreshNonces seen (c ∷ cs) = (contains seen c.nonce ≡ false) × FreshNonces (c.nonce ∷ seen) cs

-- What each command asks for: a restart, a reboot, or new handshakes with every peer of the table.
abbrev pub effects_for : CommandVerb → SessionTable → List Effect
effects_for restart_joiner t = restart ∷ []
effects_for reboot_host t = reboot ∷ []
effects_for reset_wg t = map rehandshake (values t.by_ula)

execute_verb_lem : (v : CommandVerb) (t : SessionTable) → execute_verb v t ≡ effects_for v t
unfolding execute_verb force_rehandshake_all
execute_verb_lem restart_joiner t = refl
execute_verb_lem reboot_host t = refl
execute_verb_lem reset_wg t = refl

abbrev pub effects_of : List NodeCommand → SessionTable → List Effect
effects_of [] t = []
effects_of (c ∷ cs) t = effects_for c.verb t ++ effects_of cs t

judge-accept :
    (v f : Result {0, 0} CommandVerifyError Unit) (seen : Bool)
    → is_accept (judge v f seen) ≡ true
    → (v ≡ ok _) × (f ≡ ok _) × (seen ≡ false)
judge-accept (err e) f seen h = absurd (ground (arith, h))
judge-accept (ok u) (err e) seen h = absurd (ground (arith, h))
judge-accept (ok u) (ok v) true h = absurd (ground (arith, h))
judge-accept (ok u) (ok v) false h = (refl, refl, refl)

fresh-in_time : (c : NodeCommand) (now : ℕ) → check_fresh c now ≡ ok _ → now ≤ c.expiry
unfolding check_fresh
fresh-in_time c now h = ground (arith, h)

after_bind :
    {A B : Type 0} (r : Result CommandVerifyError A) (f : A → Result CommandVerifyError B) {y : B}
    → (r >>= f) ≡ ok y
    → (x : A) × (r ≡ ok x) × (f x ≡ ok y)
after_bind (ok x) f h = (x, refl, h)
after_bind (err e) f h = absurd (ground (arith, h))

sized-ok : (n : ℕ) (b x : Text) → sized n b ≡ ok x → (length b ≡ n) × (b ≡ x)
sized-ok n b x h = ground (arith, h)

valid-ok :
    (k : Crypto) (key x : Text)
    → (if k.valid_key key then ok key else err malformed) ≡ ok x
    → (k.valid_key key ≡ true) × (key ≡ x)
valid-ok k key x h = ground (arith, h)

signed-ok :
    (b : Bool)
    → ◌≡◌ {A = Result {0, 0} CommandVerifyError Unit} (if b then ok _ else err bad_signature) (ok _)
    → b ≡ true
signed-ok true h = refl
signed-ok false h = absurd (ground (arith, h))

some_or : (o : Option Text) (b : Text) → or_err o malformed ≡ ok b → o ≡ some b
some_or none b h = absurd (ground (arith, h))
some_or (some x) b h = ground (arith, h)

verify-Signed : (k : Crypto) (c : NodeCommand) (pk : Text) → verify k c pk ≡ ok _ → Signed k pk c
unfolding verify signing_bytes
verify-Signed k c pk h =
    let key = after_bind (sized 32 pk) _ h in
    let point = after_bind (if k.valid_key key.0 then ok key.0 else err malformed) _ key.2 in
    let hex = after_bind (or_err (k.decode_hex c.signature) malformed) _ point.2 in
    let sig = after_bind (sized 64 hex.0) _ hex.2 in
    let whole = sized-ok 32 pk key.0 key.1 in
    let valid = valid-ok k key.0 point.0 point.1 in
    let length_64 = sized-ok 64 hex.0 sig.0 sig.1 in
    let checked = signed-ok (k.verifies point.0 (signing_bytes k c) sig.0) sig.2 in
    let same : pk ≡ point.0 = whole.1 ∙ valid.1 in
    (
      whole.0,
      subst (λ x. k.valid_key x ≡ true) (sym whole.1) valid.0,
      hex.0,
      some_or (k.decode_hex c.signature) hex.0 hex.1,
      length_64.0,
      subst (λ x. k.verifies x (signing_bytes k c) hex.0 ≡ true) (sym same)
          (subst (λ x. k.verifies point.0 (signing_bytes k c) x ≡ true) (sym length_64.1) checked),
    )

evaluate_under-Authorised :
    (k : Crypto) (key : Option Text) (seen : List Text) (c : NodeCommand) (now : ℕ)
    → is_accept (evaluate_under k key seen c now) ≡ true
    → Authorised k key now c × (contains seen c.nonce ≡ false)
evaluate_under-Authorised k none seen c now h = absurd (ground (arith, h))
evaluate_under-Authorised k (some pk) seen c now h =
    let j = judge-accept (verify k c pk) (check_fresh c now) (contains seen c.nonce) h in
    ((verify-Signed k c pk j.0, fresh-in_time c now j.1), j.2)

-- The nonces seen once these commands have run.
abbrev pub after : List NodeCommand → (seen : List Text) → List Text
after [] seen = seen
after (c ∷ cs) seen = after cs (c.nonce ∷ seen)

abbrev pub all_acks : Formats → List NodeCommand → List Text
all_acks fmt [] = []
all_acks fmt (c ∷ cs) = fmt.print_uuid c.command_id ∷ all_acks fmt cs

step_gate :
    (k : Crypto) (g : CommandGate) (c : NodeCommand) (now : ℕ) (saved : Bool)
    → is_accept (evaluate k g c now) ≡ true
    → Authorised k g.super_admin_pubkey now c
      × (contains g.nonces.nonces c.nonce ≡ false)
      × ((mark_executed g c.nonce saved).super_admin_pubkey ≡ g.super_admin_pubkey)
      × ((mark_executed g c.nonce saved).nonces.nonces ≡ c.nonce ∷ g.nonces.nonces)
unfolding evaluate mark_executed record_nonce
step_gate k g c now saved h =
    let a = evaluate_under-Authorised k g.super_admin_pubkey g.nonces.nonces c now h in
    (a.0, a.1, refl, ground (arith, a.1))

-- Every command of a batch is acknowledged, in order, whatever its verdict. Those that run carry a
-- signature that the configured key verifies and have not expired; none runs if no key is configured,
-- and none has a nonce that was seen before or runs twice. The effects are what the verbs of these
-- commands ask for, in their order, and the gate remembers their nonces.
pub process_commands-Authorised :
    (fmt : Formats) (k : Crypto) (cs : List NodeCommand) (g : CommandGate) (t : SessionTable)
    (now : ℕ) (saved : Text → Bool)
    → ((process_commands fmt k cs g t now saved).acks ≡ all_acks fmt cs)
      × AllAuthorised k g.super_admin_pubkey now (process_commands fmt k cs g t now saved).ran
      × FreshNonces g.nonces.nonces (process_commands fmt k cs g t now saved).ran
      × ((process_commands fmt k cs g t now saved).effects
          ≡ effects_of (process_commands fmt k cs g t now saved).ran t)
      × ((process_commands fmt k cs g t now saved).gate.super_admin_pubkey ≡ g.super_admin_pubkey)
      × ((process_commands fmt k cs g t now saved).gate.nonces.nonces
          ≡ after (process_commands fmt k cs g t now saved).ran g.nonces.nonces)
unfolding process_commands
process_commands-Authorised fmt k [] g t now saved = (refl, _, _, refl, refl, refl)
process_commands-Authorised fmt k (c ∷ cs) g t now saved =
    elim (Bool-cases (is_accept (evaluate k g c now))) [
      | inl accepted ↦
          let s = step_gate k g c now (saved c.nonce) accepted in
          let r =
            process_commands-Authorised fmt k cs (mark_executed g c.nonce (saved c.nonce)) t now
              saved in
          let out =
            process_commands fmt k cs (mark_executed g c.nonce (saved c.nonce)) t now saved in
          rw accepted (
            ap (λ rest. fmt.print_uuid c.command_id ∷ rest) r.0,
            (s.0, subst (λ key. AllAuthorised k key now out.ran) s.2 r.1),
            (s.1, subst (λ seen. FreshNonces seen out.ran) s.3 r.2),
            ap (λ es. execute_verb c.verb t ++ es) r.3
                ∙ ap (λ es. es ++ effects_of out.ran t) (execute_verb_lem c.verb t),
            r.4 ∙ s.2,
            r.5 ∙ ap (after out.ran) s.3,
          )
      | inr refused ↦
          let r = process_commands-Authorised fmt k cs g t now saved in
          rw refused (ap (λ rest. fmt.print_uuid c.command_id ∷ rest) r.0, r.1, r.2, r.3, r.4, r.5)
    ]
