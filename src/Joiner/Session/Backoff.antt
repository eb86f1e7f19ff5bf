-- ===== src/Joiner/Session/Backoff.antt =====
-- What crates/mesh-joiner/src/wg/session/peer_session.rs promises of its windows: how they grow, and
-- how often they let a re-handshake through.
use tabbify_service_mesh.Allocator.{addr_eq}
use tabbify_service_mesh.Joiner.Session.{
  direct_backoff_base_micros, direct_backoff_cap_micros, i64_max, escalate, escalating_backoff,
  rearm_interval, PeerSession, clear_handshake_backoff, note_direct_rx, note_handshake_failure,
  direct_suppressed, should_rearm_expired,
}
use tabbify_service_mesh.Shared.{
  ltb, leb, if◌then◌else◌, Bool-cases, nat_eq, list_eq, option_eq, pair_eq, length, ℕ, zero, suc,
  ◌+◌, ◌-◌, ◌*◌, ◌%◌, ◌^◌, ◌≤◌, ◌<◌, min, ◌≡◌, refl, sym, inl, inr, true, false, List, [], ◌∷◌,
  arith,
}

pub pow-pos : (n : ℕ) → 1 ≤ 2 ^ n
pow-pos zero = omega arith
pow-pos (suc n) = omega (arith, pow-pos n)

mul-ge : (w p : ℕ) → 1 ≤ p → w ≤ w * p
mul-ge w zero h = absurd (omega arith)
mul-ge w (suc p) h = omega arith

mul-pow : (w n : ℕ) → w * 2 ^ suc n ≡ w * 2 * 2 ^ n
mul-pow w n = grind arith

escalate-min :
    (left window cap : ℕ) → cap ≤ i64_max → escalate left window cap ≡ min (window * 2 ^ left) cap
escalate-min zero window cap h = ground arith
escalate-min (suc left) window cap h =
    let big = mul-ge (window * 2) (2 ^ left) (pow-pos left) in
    ground (arith, escalate-min left (window * 2) cap h, mul-pow window left, big)

escalate-guarded :
    (left window cap : ℕ)
    → window ≤ i64_max
    → escalate left window cap
      ≡ (if leb (window * 2 ^ left) i64_max then min (window * 2 ^ left) cap else cap)
escalate-guarded zero window cap h = ground arith
escalate-guarded (suc left) window cap h =
    let big = mul-ge (window * 2) (2 ^ left) (pow-pos left) in
    ground (arith, escalate-guarded left (window * 2) cap, mul-pow window left, big)

-- The doubling loop gives the closed form, whatever the streak and the cap: the base window doubled
-- once for each of the streak and at most the cap, and the cap itself as soon as that product would
-- leave 63 bits. The base is a number of 63 bits.
pub escalating_backoff-closed :
    (streak base cap : ℕ)
    → base ≤ i64_max
    → escalating_backoff streak base cap
      ≡ (if leb (base * 2 ^ streak) i64_max then min (base * 2 ^ streak) cap else cap)
unfolding escalating_backoff
escalating_backoff-closed streak base cap h = escalate-guarded streak base cap h

escalating_backoff-min :
    (streak base cap : ℕ)
    → cap ≤ i64_max
    → escalating_backoff streak base cap ≡ min (base * 2 ^ streak) cap
unfolding escalating_backoff
escalating_backoff-min streak base cap h = escalate-min streak base cap h

pub pow_mono : (k n : ℕ) → k ≤ n → 2 ^ k ≤ 2 ^ n
pow_mono k zero h = let e : k ≡ 0 = omega arith in rw e (omega arith)
pow_mono k (suc n) h = elim (Bool-cases (leb k n)) [
  | inl low ↦ omega (arith, pow_mono k n (ground arith), pow-pos n)
  | inr high ↦ let e : k ≡ suc n = ground arith in rw e (omega arith)
]

-- The window after `n` failures before this one.
abbrev pub failure_window : ℕ → ℕ
failure_window n = min (direct_backoff_base_micros * 2 ^ n) direct_backoff_cap_micros

shifted_window :
    (n : ℕ)
    → min (direct_backoff_base_micros * 2 ^ min n 30 % 2 ^ 64) direct_backoff_cap_micros
      ≡ failure_window n
shifted_window n = elim (Bool-cases (leb n 30)) [
  | inl low ↦
      let e : min n 30 ≡ n = ground arith in
      let le = pow_mono n 30 (ground arith) in rw e (ground (arith, le))
  | inr high ↦
      let e : min n 30 ≡ 30 = ground arith in
      let ge = pow_mono 30 n (ground arith) in rw e (ground (arith, ge))
]

-- Failures with no authenticated datagram between them.
abbrev pub fail_at : PeerSession → List ℕ → PeerSession
fail_at s [] = s
fail_at s (t ∷ ts) = fail_at (note_handshake_failure s t) ts

fail_at-count :
    (s : PeerSession) (ts : List ℕ)
    → s.failed_handshake_count + length ts < 2 ^ 32
    → (fail_at s ts).failed_handshake_count ≡ s.failed_handshake_count + length ts
unfolding note_handshake_failure
fail_at-count s [] h = omega arith
fail_at-count s (t ∷ ts) h =
    let next = fail_at-count (note_handshake_failure s t) ts in omega (arith, next (omega arith))

-- A run of handshake failures with no authenticated datagram between them holds the direct path back
-- until two seconds, doubled for each failure before the last and at most five minutes, have passed
-- since the last one; the first datagram frees it at once. The count must stay in 32 bits and the time
-- in 63.
pub fail_at-suppressed :
    (s : PeerSession) (ts : List ℕ) (now t : ℕ)
    → s.failed_handshake_count + length ts + 1 < 2 ^ 32
    → now + direct_backoff_cap_micros ≤ i64_max
    → (direct_suppressed (note_handshake_failure (fail_at s ts) now) t
        ≡ ltb t (now + failure_window (s.failed_handshake_count + length ts)))
      × (direct_suppressed (note_direct_rx (fail_at s ts) now) t ≡ false)
unfolding direct_suppressed note_handshake_failure note_direct_rx clear_handshake_backoff
fail_at-suppressed s ts now t h room =
    let count = fail_at-count s ts (omega arith) in
    let n = s.failed_handshake_count + length ts in
    let back : ((n + 1) % 2 ^ 32 + 2 ^ 32 - 1) % 2 ^ 32 ≡ n = omega arith in
    (rw (count, back, shifted_window n) (ground arith), ground arith)

-- The times at which a run of calls lets a re-handshake through.
abbrev pub rearms : PeerSession → (base_micros cap_micros : ℕ) → List ℕ → List ℕ
rearms s base cap [] = []
rearms s base cap (t ∷ ts) =
    let asked = should_rearm_expired s t base cap in
    let later = rearms asked.0 base cap ts in if asked.1 then t ∷ later else later

-- Each time stands at least the window of its place in the run after the one before.
abbrev pub Spaced : (base cap streak last : ℕ) → List ℕ → Type 0
Spaced base cap streak last [] = Unit
Spaced base cap streak last (t ∷ ts) =
    (last + min (base * 2 ^ streak) cap ≤ t) × Spaced base cap (streak + 1) t ts

cap_reached : (base cap n : ℕ) → 1 ≤ base → cap ≤ i64_max → 63 ≤ n → min (base * 2 ^ n) cap ≡ cap
cap_reached base cap n some_base h far =
    let big : 2 ^ n ≤ base * 2 ^ n = grind (arith, mul-ge (2 ^ n) base some_base) in
    ground (arith, pow_mono 63 n far)

-- A streak that stops counting at `top` gives the windows of one that does not, from 63 up.
saturated_window :
    (base cap k top : ℕ)
    → cap ≤ i64_max
    → 63 ≤ top
    → min (base * 2 ^ min k top) cap ≡ min (base * 2 ^ k) cap
saturated_window base cap k top h far = elim (Bool-cases (leb k top)) [
  | inl low ↦ let e : min k top ≡ k = ground arith in rw e refl
  | inr high ↦
      let e : min k top ≡ top = ground arith in
      elim (Bool-cases (leb 1 base)) [
        | inl some_base ↦
            rw
              (
                e,
                cap_reached base cap top (ground arith) h far,
                cap_reached base cap k (ground arith) h (ground arith),
              )
              refl
        | inr no_base ↦ let z : base ≡ 0 = ground arith in rw z (ground arith)
      ]
]

-- The largest `u32`, where the streak stops.
abbrev streak_max : ℕ
streak_max = 2 ^ 32 - 1

asked_now :
    (s : PeerSession) (t base cap k : ℕ)
    → cap ≤ i64_max
    → s.rearm_streak ≡ min k streak_max
    → (should_rearm_expired s t base cap).1 ≡ leb (s.last_rearm_micros + min (base * 2 ^ k) cap) t
unfolding should_rearm_expired rearm_interval
asked_now s t base cap k h count =
    rw
      (
        escalating_backoff-min s.rearm_streak base cap h,
        count,
        saturated_window base cap k streak_max h (omega arith),
      )
      (ground arith)

asked_next :
    (s : PeerSession) (t base cap k : ℕ)
    → s.rearm_streak ≡ min k streak_max
    → (should_rearm_expired s t base cap).1 ≡ true
    → ((should_rearm_expired s t base cap).0.rearm_streak ≡ min (k + 1) streak_max)
      × ((should_rearm_expired s t base cap).0.last_rearm_micros ≡ t)
unfolding should_rearm_expired
asked_next s t base cap k count h = (ground arith, ground arith)

asked_in_vain :
    (s : PeerSession) (t base cap : ℕ)
    → (should_rearm_expired s t base cap).1 ≡ false
    → (should_rearm_expired s t base cap).0 ≡ s
unfolding should_rearm_expired
asked_in_vain s t base cap h = ground arith

Spaced-from :
    (base cap k : ℕ) {l n : ℕ} (ts : List ℕ)
    → l ≡ n
    → Spaced base cap k l ts
    → Spaced base cap k n ts
Spaced-from base cap k ts f h = rw (sym f) h

rearms-Spaced_from :
    (s : PeerSession) (base cap k : ℕ) (times : List ℕ)
    → cap ≤ i64_max
    → s.rearm_streak ≡ min k streak_max
    → Spaced base cap k s.last_rearm_micros (rearms s base cap times)
rearms-Spaced_from s base cap k [] h count = _
rearms-Spaced_from s base cap k (t ∷ ts) h count =
    let now = asked_now s t base cap k h count in
    elim (Bool-cases (should_rearm_expired s t base cap).1) [
      | inl through ↦
          let next = asked_next s t base cap k count through in
          let rest =
            rearms-Spaced_from (should_rearm_expired s t base cap).0 base cap (k + 1) ts h next.0 in
          rw through (ground (arith, now), Spaced-from base cap (k + 1) _ next.1 rest)
      | inr held ↦
          let same = asked_in_vain s t base cap held in
          rw (held, same) (rearms-Spaced_from s base cap k ts h count)
    ]

-- However often and with whatever clock readings it is asked, also when the streak has reached the
-- largest number of its 32 bits, `should_rearm_expired` lets re-handshakes through only at times that
-- stand apart by the base window, doubled for every one before in the streak, at most the cap; and it
-- lets one through as soon as that window has passed. The streak is a number of 32 bits, the cap one of
-- 63.
pub rearms-Spaced :
    (s : PeerSession) (base cap : ℕ) (times : List ℕ)
    → cap ≤ i64_max
    → s.rearm_streak < 2 ^ 32
    → Spaced base cap s.rearm_streak s.last_rearm_micros (rearms s base cap times)
      × ((t : ℕ)
          → (should_rearm_expired s t base cap).1
            ≡ leb (s.last_rearm_micros + min (base * 2 ^ s.rearm_streak) cap) t)
rearms-Spaced s base cap times h fits =
    let count : s.rearm_streak ≡ min s.rearm_streak streak_max = ground arith in
    (
      rearms-Spaced_from s base cap s.rearm_streak times h count,
      λ t. asked_now s t base cap s.rearm_streak h count,
    )
