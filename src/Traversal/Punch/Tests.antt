-- ===== src/Traversal/Punch/Tests.antt =====
-- Tests of nat/holepunch.rs, and its theorems at concrete inputs.
use tabbify_service_mesh.Shared.{
  nat_eq, list_eq, option_eq, pair_eq, lookup, pos, ◌≤ℤ◌, ◌+◌, ◌≤◌, ◌≡◌, refl, inr, true, false, [],
  ◌∷◌, arith,
}
use tabbify_service_mesh.Traversal.Punch.{
  reemit_cooldown, PunchPair, PunchTracker, take_cold_start_token, claim,
}
use tabbify_service_mesh.Traversal.Punch.Backoff.{backoff, reemit_cooldown-overflow}
use tabbify_service_mesh.Traversal.Punch.Claims.{next_streak, claim_all, claim-claim}

abbrev pair_12 : PunchPair
pair_12 = (1, 2)

abbrev quiet : PunchTracker
quiet = record {
  pairs = (pair_12, record { last_emit = 1_000_000; streak = 1 }) ∷ [];
  cold_start = record { window_start = 900_000; count = 1 };
}

too_soon : (claim quiet pair_12 30_999_999).1 ≡ false
unfolding claim reemit_cooldown
too_soon = refl

due : (claim quiet pair_12 31_000_000).1 ≡ true
unfolding claim reemit_cooldown
due = refl

-- A pair whose streak has reached 40 is emitted again in the same microsecond.
unbounded :
    (claim
      (record quiet { pairs = (pair_12, record { last_emit = 5; streak = 40 }) ∷ [] })
      pair_12
      5).1
    ≡ true
unfolding claim reemit_cooldown
unbounded = refl

reemit_cooldown-overflow_example : reemit_cooldown 58 ≤ℤ pos 0
reemit_cooldown-overflow_example = reemit_cooldown-overflow 58 (inr (omega arith, omega arith))

claim-claim_example : 31_000_000 + backoff (next_streak (lookup pair_12 quiet.pairs)) ≤ 91_000_000
unfolding claim reemit_cooldown claim_all take_cold_start_token
claim-claim_example =
    claim-claim quiet pair_12 31_000_000 91_000_000 (((1, 3), 40_000_000) ∷ []) refl
      ((λ e. ground arith), tt) (omega arith) refl
