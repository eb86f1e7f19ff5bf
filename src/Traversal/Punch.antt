-- ===== src/Traversal/Punch.antt =====
-- crates/mesh-coordinator/src/nat/holepunch.rs: which pairs are told to punch, and how often.
-- Peer ids are 128-bit numbers; clock readings are unix microseconds from 0 up, and their
-- differences and the cooldowns are signed, as the `i64` values of the source.
pub mod Backoff
pub mod Claims
pub mod ColdStart
pub mod Tests
use tabbify_service_mesh.Shared.{
  ltb, leb, if◌then◌else◌, get_or, is_some, ◌==◌, nat_eq, list_eq, option_eq, pair_eq, Text, length,
  is_empty, Dict, retain, lookup, insert, remove, update, ℤ, pos, negsuc, sub_ℕ, leb_ℤ, min_ℤ, ℕ,
  ◌+◌, ◌-◌, ◌*◌, ◌%◌, ◌^◌, Bool, true, false, not, ◌||◌, Option, none, some, List, [], ◌∷◌,
}

abbrev pub punch_reemit_cooldown_micros : ℕ
punch_reemit_cooldown_micros = 15_000_000

abbrev pub punch_reemit_cooldown_cap_micros : ℕ
punch_reemit_cooldown_cap_micros = 300_000_000

abbrev pub punch_pair_ttl_micros : ℕ
punch_pair_ttl_micros = 300_000_000

abbrev pub max_new_emits_per_window : ℕ
max_new_emits_per_window = 8

abbrev pub cold_start_window_micros : ℕ
cold_start_window_micros = 1_000_000

abbrev pub u32_mod : ℕ
u32_mod = 2 ^ 32

-- The `i64` with a given bit pattern.
abbrev pub as_i64 : ℕ → ℤ
as_i64 v = if ltb v (2 ^ 63) then pos v else negsuc (2 ^ 64 - v - 1)

-- `checked_shl` fails for a shift of 64 or more alone; shorter shifts drop the high bits.
unfoldable pub checked_shl : ℕ → ℕ → Option ℤ
checked_shl v shift = if ltb shift 64 then some (as_i64 (v * 2 ^ shift % 2 ^ 64)) else none

unfoldable pub reemit_cooldown : ℕ → ℤ
unfolding checked_shl
reemit_cooldown streak =
    min_ℤ (get_or (checked_shl punch_reemit_cooldown_micros streak) (pos (2 ^ 63 - 1)))
      (pos punch_reemit_cooldown_cap_micros)

abbrev pub PunchPair : Type 0
PunchPair = ℕ × ℕ

unfoldable pub canonical_pair : ℕ → ℕ → PunchPair
canonical_pair a b = if leb a b then (a, b) else (b, a)

-- Whether a pair involves a peer.
abbrev pub involves : ℕ → PunchPair → Bool
involves peer_id (a, b) = (a == peer_id) || (b == peer_id)

pub record PunchPeer : Type 0 where
  pub peer_id : ℕ
  pub dial_endpoint : Text

pub record PunchState : Type 0 where
  pub last_emit : ℕ
  pub streak : ℕ

pub record ColdStartBudget : Type 0 where
  pub window_start : ℕ
  pub count : ℕ

pub record PunchTracker : Type 0 where
  pub pairs : Dict PunchPair PunchState
  pub cold_start : ColdStartBudget

unfoldable pub new_tracker : PunchTracker
new_tracker = record { pairs = []; cold_start = record { window_start = 0; count = 0 } }

abbrev roll_window : ColdStartBudget → ℕ → ColdStartBudget
roll_window b now_micros =
    if leb_ℤ (pos cold_start_window_micros) (sub_ℕ now_micros b.window_start)
    then record { window_start = now_micros; count = 0 }
    else b

-- `fetch_add` returns the old count and wraps.
unfoldable pub take_cold_start_token : ColdStartBudget → ℕ → ColdStartBudget × Bool
take_cold_start_token b now_micros =
    let rolled = roll_window b now_micros in
    (
      record rolled { count = (rolled.count + 1) % u32_mod },
      ltb rolled.count max_new_emits_per_window,
    )

-- `saturating_add(1)` on a `u32`.
abbrev pub saturating_suc : ℕ → ℕ
saturating_suc n = if ltb n (u32_mod - 1) then n + 1 else u32_mod - 1

unfoldable pub claim_tracked : PunchTracker → PunchPair → PunchState → ℕ → PunchTracker × Bool
claim_tracked t pair st now_micros =
    if leb_ℤ (reemit_cooldown st.streak) (sub_ℕ now_micros st.last_emit)
    then (
      record t {
        pairs =
            insert pair (record { last_emit = now_micros; streak = saturating_suc st.streak })
              t.pairs;
      },
      true,
    )
    else (t, false)

unfoldable pub claim_new : PunchTracker → PunchPair → ℕ → PunchTracker × Bool
claim_new t pair now_micros =
    let (budget, granted) = take_cold_start_token t.cold_start now_micros in
    if granted
    then (
      record {
        pairs = insert pair (record { last_emit = now_micros; streak = 0 }) t.pairs;
        cold_start = budget;
      },
      true,
    )
    else (record t { cold_start = budget }, false)

unfoldable pub claim : PunchTracker → PunchPair → ℕ → PunchTracker × Bool
unfolding claim_tracked claim_new
claim t pair now_micros = elim (lookup pair t.pairs) [
  | some st ↦ claim_tracked t pair st now_micros
  | none ↦ claim_new t pair now_micros
]

unfoldable pub note_confirmed : PunchTracker → PunchPair → PunchTracker
note_confirmed t pair = record t { pairs = update pair (λ st. record st { streak = 0 }) t.pairs }

unfoldable pub tracks : PunchTracker → PunchPair → Bool
tracks t pair = is_some (lookup pair t.pairs)

unfoldable pub clear : PunchTracker → PunchPair → PunchTracker × Bool
clear t pair = (record t { pairs = remove pair t.pairs }, is_some (lookup pair t.pairs))

unfoldable pub remove_peer : PunchTracker → ℕ → PunchTracker × ℕ
remove_peer t peer_id =
    let left = retain (λ pair _. not (involves peer_id pair)) t.pairs in
    (record t { pairs = left }, length t.pairs - length left)

unfoldable pub reap_older_than : PunchTracker → ℤ → PunchTracker × ℕ
reap_older_than t cutoff_micros =
    let left = retain (λ _ st. leb_ℤ cutoff_micros (pos st.last_emit)) t.pairs in
    (record t { pairs = left }, length t.pairs - length left)

pub record HolePunchInitiate : Type 0 where
  pub initiator_peer_id : ℕ
  pub target_peer_id : ℕ
  pub target_external_endpoint : Text
  pub timestamp_micros : ℕ

unfoldable pub directive : PunchPeer → PunchPeer → ℕ → HolePunchInitiate
directive a b now_micros = record {
  initiator_peer_id = a.peer_id;
  target_peer_id = b.peer_id;
  target_external_endpoint = b.dial_endpoint;
  timestamp_micros = now_micros;
}

-- The tracker, the events that were published and broadcast, and whether the pair was emitted.
unfoldable pub try_emit_pair :
    PunchTracker → PunchPeer → PunchPeer → ℕ → PunchTracker × List HolePunchInitiate × Bool
unfolding canonical_pair directive
try_emit_pair t a b now_micros =
    let (t', claimed) = claim t (canonical_pair a.peer_id b.peer_id) now_micros in
    if a.peer_id == b.peer_id
    then (t, [], false)
    else if is_empty a.dial_endpoint || is_empty b.dial_endpoint
    then (t, [], false)
    else if claimed
    then (t', directive a b now_micros ∷ directive b a now_micros ∷ [], true)
    else (t', [], false)
