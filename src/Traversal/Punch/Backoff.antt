-- ===== src/Traversal/Punch/Backoff.antt =====
-- The escalating cooldown of nat/holepunch.rs against `min(BASE << streak, CAP)`.
use Prim.Native.Nat.{min}
use tabbify_service_mesh.Shared.{
  ◌==◌, nat_eq, list_eq, option_eq, pair_eq, ℤ, pos, negsuc, ◌≤ℤ◌, leb_ℤ, leb_ℤ→≤ℤ, ℕ, zero, suc,
  ◌+◌, ◌-◌, ◌*◌, ◌^◌, ◌≤◌, ◌<◌, ◌≡◌, refl, subst, ◌⊎◌, inl, inr, Bool, true, false, ◌&&◌, arith,
}
use tabbify_service_mesh.Traversal.Punch.{
  punch_reemit_cooldown_micros, punch_reemit_cooldown_cap_micros, reemit_cooldown,
}

-- Exponential backoff without overflow.
abbrev pub backoff : ℕ → ℕ
backoff streak = min (punch_reemit_cooldown_micros * 2 ^ streak) punch_reemit_cooldown_cap_micros

all_below : ℕ → (ℕ → Bool) → Bool
all_below zero p = true
all_below (suc n) p = p n && all_below n p

all_below_sound : (n : ℕ) (p : ℕ → Bool) (k : ℕ) → all_below n p ≡ true → k < n → p k ≡ true
unfolding all_below
all_below_sound zero p k h lt = absurd (omega arith)
all_below_sound (suc n) p k h lt = ground (arith, all_below_sound n p k)

same_ℤ : ℤ → ℕ → Bool
same_ℤ (pos n) m = n == m
same_ℤ (negsuc n) m = false

same_ℤ-eq : (z : ℤ) (m : ℕ) → same_ℤ z m ≡ true → z ≡ pos m
unfolding same_ℤ
same_ℤ-eq (pos n) m h = ground arith
same_ℤ-eq (negsuc n) m h = absurd (ground arith)

backoff_table : all_below 40 (λ s. same_ℤ (reemit_cooldown s) (backoff s)) ≡ true
unfolding all_below same_ℤ reemit_cooldown
backoff_table = refl

-- Up to a streak of 39 the cooldown is the exponential backoff, capped at five minutes.
pub reemit_cooldown-backoff :
    (streak : ℕ) → streak < 40 → reemit_cooldown streak ≡ pos (backoff streak)
reemit_cooldown-backoff streak h =
    same_ℤ-eq _ _
      (all_below_sound 40 (λ s. same_ℤ (reemit_cooldown s) (backoff s)) streak backoff_table h)

abbrev from_55 : ℕ → Bool
from_55 k = leb_ℤ (reemit_cooldown (k + 55)) (pos 0)

vanished_table : all_below 9 from_55 ≡ true
unfolding all_below reemit_cooldown
vanished_table = refl

-- The shift drops the high bits: at a streak of 40, and from 55 to 63, the cooldown is not the cap
-- but zero or negative, so the pair is no longer held back at all.
pub reemit_cooldown-overflow :
    (streak : ℕ) → (streak ≡ 40) ⊎ ((55 ≤ streak) × (streak < 64)) → reemit_cooldown streak ≤ℤ pos 0
reemit_cooldown-overflow streak (inl e) = rw e at_40
  where
    at_40 : reemit_cooldown 40 ≤ℤ pos 0
    at_40 = unfold reemit_cooldown in omega arith
reemit_cooldown-overflow streak (inr h) =
    let low = all_below_sound 9 from_55 (streak - 55) vanished_table (omega arith) in
    let e : streak - 55 + 55 ≡ streak = omega arith in
    subst (λ s. reemit_cooldown s ≤ℤ pos 0) e
      (leb_ℤ→≤ℤ (reemit_cooldown (streak - 55 + 55)) (pos 0) low)
