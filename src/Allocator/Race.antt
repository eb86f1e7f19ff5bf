-- ===== src/Allocator/Race.antt =====
-- The compare-exchange loops of roster/allocator.rs under concurrency: any number of threads that
-- run `allocate_in_slot` on one slot, among threads that run `bump_slot_at_least`.
use tabbify_service_mesh.Shared.{
  if◌then◌else◌, ◌==◌, nat_eq, list_eq, option_eq, pair_eq, ℕ, ◌+◌, ◌≤◌, ◌<◌, ◌≡◌, ◌≢◌, arith,
}
use tabbify_service_mesh.Allocator.{u16_max}

-- Where a thread stands in the loop of `allocate_in_slot`.
pub data Thread : Type 0 where
  start : Thread
  loaded : ℕ → Thread
  returned : ℕ → Thread
  refused : Thread

pub record Race : Type 0 where
  pub counter : ℕ
  pub threads : ℕ → Thread

abbrev pub set_thread : Race → ℕ → Thread → Race
set_thread s i t = record s { threads = λ j. if i == j then t else s.threads j }

-- One atomic step of some thread: a load, `checked_add` past the end, a compare-exchange that
-- succeeds or fails, or the successful compare-exchange of a bump.
pub data Step : Race → Race → Type 0 where
  load : (s : Race) (i : ℕ) → s.threads i ≡ start → Step s (set_thread s i (loaded s.counter))
  full :
      (s : Race) (i current : ℕ)
      → s.threads i ≡ loaded current
      → u16_max ≤ current
      → Step s (set_thread s i refused)
  exchange :
      (s : Race) (i current : ℕ)
      → s.threads i ≡ loaded current
      → current < u16_max
      → s.counter ≡ current
      → Step s (set_thread (record s { counter = current + 1 }) i (returned (current + 1)))
  retry :
      (s : Race) (i current : ℕ)
      → s.threads i ≡ loaded current
      → current < u16_max
      → s.counter ≢ current
      → Step s (set_thread s i start)
  bump : (s : Race) (idx : ℕ) → s.counter < idx → Step s (record s { counter = idx })

pub data Reach (s : Race) : Race → Type 0 where
  here : Reach s s
  next : {t u : Race} → Reach s t → Step t u → Reach s u

-- Indices that were returned lie at or below the counter, and no two threads hold the same one.
pub record Exclusive (s : Race) : Type 0 where
  pub below : (i a : ℕ) → s.threads i ≡ returned a → a ≤ s.counter
  pub unique : (i j a : ℕ) → s.threads i ≡ returned a → s.threads j ≡ returned a → i ≡ j

Step-Exclusive : {s t : Race} → Step s t → Exclusive s → Exclusive t
Step-Exclusive (load s i e) v = record {
  below = λ j a h. ground (arith, v.below j a);
  unique = λ j k a h g. ground (arith, v.unique j k a);
}
Step-Exclusive (full s i current e m) v = record {
  below = λ j a h. ground (arith, v.below j a);
  unique = λ j k a h g. ground (arith, v.unique j k a);
}
Step-Exclusive (exchange s i current e m c) v = record {
  below = λ j a h. ground (arith, v.below j a);
  unique = λ j k a h g. ground (arith, v.unique j k a, v.below j a, v.below k a);
}
Step-Exclusive (retry s i current e m c) v = record {
  below = λ j a h. ground (arith, v.below j a);
  unique = λ j k a h g. ground (arith, v.unique j k a);
}
Step-Exclusive (bump s idx m) v = record {
  below = λ j a h. ground (arith, v.below j a);
  unique = λ j k a h g. ground (arith, v.unique j k a);
}

abbrev pub Starting : Race → Type 0
Starting s = (i : ℕ) → s.threads i ≡ start

Starting-Exclusive : (s : Race) → Starting s → Exclusive s
Starting-Exclusive s h = record {
  below = λ i a e. ground (arith, h i);
  unique = λ i j a e f. ground (arith, h i);
}

-- However the threads interleave, no two of them return the same index, and every index returned
-- is at most the counter, which a later allocation starts from.
pub Reach-Exclusive : {s t : Race} → Starting s → Reach s t → Exclusive t
Reach-Exclusive {s} h here = Starting-Exclusive s h
Reach-Exclusive h (next r st) = Step-Exclusive st (Reach-Exclusive h r)
