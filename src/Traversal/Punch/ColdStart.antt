-- ===== src/Traversal/Punch/ColdStart.antt =====
-- The cold-start budget of nat/holepunch.rs.
use tabbify_service_mesh.Shared.{
  if◌then◌else◌, nat_eq, list_eq, option_eq, pair_eq, length, ℕ, ◌+◌, ◌-◌, ◌≤◌, ◌<◌, List, [], ◌∷◌,
  arith,
}
use tabbify_service_mesh.Traversal.Punch.{
  max_new_emits_per_window, cold_start_window_micros, u32_mod, ColdStartBudget,
  take_cold_start_token,
}

-- Tokens drawn at the times of the list; how many were granted.
unfoldable pub draw : ColdStartBudget → List ℕ → ℕ
draw b [] = 0
draw b (now ∷ rest) =
    let (b', granted) = take_cold_start_token b now in (if granted then 1 else 0) + draw b' rest

abbrev pub Within : ℕ → List ℕ → Type 0
Within start [] = Unit {0}
Within start (now ∷ rest) = (now < start + cold_start_window_micros) × Within start rest

draw_le :
    (b : ColdStartBudget) (times : List ℕ)
    → Within b.window_start times
    → b.count + length times < u32_mod
    → draw b times ≤ max_new_emits_per_window - b.count
unfolding draw take_cold_start_token
draw_le b [] w fits = omega arith
draw_le b (now ∷ rest) w fits =
    let b' : ColdStartBudget = record b { count = b.count + 1 } in
    ground (arith, draw_le b' rest w.1)

-- Until the window rolls, at most eight first punches are granted, however many pairs ask (fewer
-- than 2^32, where the counter would wrap).
pub draw_bound :
    (b : ColdStartBudget) (times : List ℕ)
    → Within b.window_start times
    → b.count + length times < u32_mod
    → draw b times ≤ max_new_emits_per_window
draw_bound b times w fits = omega (arith, draw_le b times w fits)
