-- ===== src/Recovery/Mission/Examples.antt =====
-- Tests and concrete runs for the end of a mission.
use failure_prediction.Prelude.{ℕ, ◌≤◌, true, false, some, none, Option, List, [], ◌∷◌, ◌≡◌, refl}
use failure_prediction.Recovery.Mission.{
  success, timeout, false_arrival, Goal, others, newest_from, newest, after_grace, verdict_of,
  resumed_mission_terminal, Tick, Setup, followed, round, watch, classify,
}
use failure_prediction.Recovery.Mission.Success.{Arrived, classify-Arrived}

abbrev setup : Setup
setup = record {
  own_goal_id = "own";
  start_wall = 100;
  timeout_s = 300;
  grace_seconds = 30;
  faulted = true;
  clean_prefix_seconds = 20;
  live_execution = true;
}

abbrev goal : ℕ → ℕ → Goal
goal stamp status = record { goal_id = "resumed"; stamp = stamp; status = status }

abbrev tick : ℕ → List Goal → Option ℕ → Tick
tick t goals result = record {
  wall = t;
  collided = false;
  statuses = (record { goal_id = "own"; stamp = 900; status = 5 }) ∷ goals;
  result = result;
  now = t;
}

-- Live recovery cancels the goal at 150, resumes by 160, and the newest goal arrives at 200.
abbrev ticks : List Tick
ticks =
    tick 120 [] none
    ∷ tick 150 [] (some 5)
    ∷ tick 160 (goal 155 2 ∷ []) (some 5)
    ∷ tick 185 (goal 155 6 ∷ goal 170 1 ∷ []) (some 5)
    ∷ tick 200 (goal 155 6 ∷ goal 170 4 ∷ []) (some 5)
    ∷ []

arrives_at_200 : watch setup none ticks ≡ some success
unfolding watch round followed resumed_mission_terminal verdict_of newest newest_from others
    after_grace
arrives_at_200 = refl

-- Nobody resumes for 30 seconds after the cancellation.
times_out :
    watch setup none (tick 150 [] (some 5) ∷ tick 179 [] (some 5) ∷ tick 180 [] (some 5) ∷ [])
    ≡ some timeout
unfolding watch round followed resumed_mission_terminal verdict_of newest newest_from others
    after_grace
times_out = refl

within_tolerance : classify success 24 25 false ≡ (true, success)
unfolding classify
within_tolerance = refl

wrong_place : classify success 26 25 false ≡ (false, false_arrival)
unfolding classify
wrong_place = refl

classify-Arrived_example : (24 ≤ 25) × (false ≡ false) × Arrived setup ticks
classify-Arrived_example =
    classify-Arrived setup ticks success success 24 25 false arrives_at_200 within_tolerance
