-- ===== src/Monitor/Examples.antt =====
-- Tests and concrete runs for the online monitor.
use failure_prediction.Prelude.{
  ℕ, Bool, true, false, none, some, List, [], ◌∷◌, ◌≡◌, refl, arith, length, ◌-◌,
}
use failure_prediction.Prelude.Int.{pos, negsuc}
use failure_prediction.Prelude.Result.{ok, err}
use failure_prediction.Recovery.Types.{GuardConfig, backup, frontal_blockage, perception}
use failure_prediction.Recovery.Guards.{guard_table}
use failure_prediction.Alarm.Policy.{
  AlarmPolicy, validate, apply_alarm_policy, apply_from, output_of, next_state, score, last_output,
}
use failure_prediction.Monitor.Causal.{
  ScalarSample, FeatureSpec, bisect_right, cell_of, select, validate_spec, validate_samples,
  prepare, extract_decision_rows,
}
use failure_prediction.Monitor.Causal.Newest.{Shows, select-Shows}
use failure_prediction.Monitor.Buffer.{
  Contract, empty_buffer, judge, judge_numbers, verdict_on, apply_verdict, add,
}
use failure_prediction.Monitor.Stream.{
  Action, arrives, decides, specs_of, online_rows, recorded, decision_times,
}
use failure_prediction.Monitor.Stream.Offline.{online_rows-offline}
use failure_prediction.Monitor.State.{
  WindowRow, StateEstimatorConfig, measured_linear, measured_angular, minimum_front_range,
  estimate_robot_state,
}
use failure_prediction.Monitor.State.Fresh.{MotionMeasured, estimate_robot_state-MotionMeasured}
use failure_prediction.Monitor.Core.{
  Setup, Core, idle, mission_started, due_from, due_grid_times, with_alarm, record_decision,
  advanced, scored, grid_time, step_one, step_all, step, run, outputs_of,
}
use failure_prediction.Monitor.Core.Replayed.{IsWorking, AllBefore, run_total}
use failure_prediction.Monitor.Core.Numbered.{IsNumbered, run-IsNumbered}

abbrev at : ℕ → ℕ → ScalarSample
at t v = record { timestamp = t; value = pos v }

abbrev series : List ScalarSample
series = at 2 7 ∷ at 5 8 ∷ at 5 9 ∷ at 9 10 ∷ []

-- Of two samples at the same time the later one counts.
selects_newest :
    select series 4 8
    ≡ record { value = pos 9; age_seconds = 3; missing = false; source_time = some 5 }
unfolding select bisect_right cell_of
selects_newest = refl

select-Shows_example : Shows series 4 8 (select series 4 8)
select-Shows_example =
    select-Shows series 0 4 8 (omega arith, (omega arith, (omega arith, (omega arith, tt))))

abbrev contract : Contract
contract =
    ("measured_linear", record { sources = "/odom" ∷ []; max_age_seconds = 4 })
    ∷ ("scan_min", record { sources = "/scan" ∷ []; max_age_seconds = 3 })
    ∷ []

-- The first sample is pruned at 20; a sample of an undeclared source is dropped.
abbrev actions : List Action
actions =
    arrives "measured_linear" "/odom" (some 8) (some (pos 1))
    ∷ arrives "measured_linear" "/odom" (some 12) (some (pos 2))
    ∷ arrives "scan_min" "/other" (some 12) (some (pos 2))
    ∷ decides 10
    ∷ decides 20
    ∷ arrives "scan_min" "/scan" (some 25) (some (negsuc 2))
    ∷ decides 26
    ∷ []

leaks_nothing : FeatureSpec → Bool
leaks_nothing s = false

recording_valid :
    prepare leaks_nothing
      (recorded contract empty_buffer actions).samples
      []
      (specs_of contract (recorded contract empty_buffer actions).sources)
    ≡ ok tt
unfolding prepare validate_spec validate_samples recorded add verdict_on judge judge_numbers
    apply_verdict specs_of leaks_nothing
recording_valid = refl

online_rows-offline_example :
    extract_decision_rows "run_7"
      (decision_times actions)
      (specs_of contract (recorded contract empty_buffer actions).sources)
      (recorded contract empty_buffer actions).samples
      leaks_nothing
    ≡ ok (online_rows contract 0 empty_buffer actions)
online_rows-offline_example =
    online_rows-offline contract actions "run_7" leaks_nothing (refl, (refl, tt))
      (tt, (tt, (tt, (tt, (omega arith, (omega arith, (omega arith, tt))))))) refl recording_valid

abbrev state_config : StateEstimatorConfig
state_config = record {
  stopped_linear_mps = 10;
  stopped_angular_rads = 50;
  localisation_poor_covariance_trace = pos 500;
  planning_stale_replan_rate_per_s = pos 1000;
  immediate_collision_front_range_m = pos 300;
  transient_obstruction_front_range_m = pos 1000;
  scan_max_age_seconds = 5;
  odom_max_age_seconds = 5;
}

abbrev window_row : WindowRow
window_row measured_linear = some (record { value = negsuc 3; age_seconds = 1 })
window_row measured_angular = some (record { value = pos 0; age_seconds = 1 })
window_row minimum_front_range = some (record { value = pos 200; age_seconds = 2 })
window_row _ = none

abbrev guard_config : GuardConfig
guard_config = record {
  minimum_rear_clearance_m = 300;
  minimum_rotation_clearance_m = 400;
  maximum_repeated_recoveries = 2;
}

backup_admitted :
    (guard_table
      (estimate_robot_state window_row frontal_blockage
        (some (96, some 350))
        none
        100
        state_config
        false
        0)
      guard_config
      backup).eligible
    ≡ true
unfolding guard_table estimate_robot_state
backup_admitted = refl

estimate_robot_state-MotionMeasured_example :
    MotionMeasured state_config window_row (some (96, some 350)) none 100 guard_config backup
estimate_robot_state-MotionMeasured_example =
    estimate_robot_state-MotionMeasured window_row frontal_blockage (some (96, some 350)) none 100
      state_config false 0 guard_config backup backup_admitted

abbrev policy : AlarmPolicy
policy = record {
  threshold = 500;
  required_above = 1;
  decisions_considered = 1;
  cooldown_seconds = 4;
}

abbrev setup : Setup
setup = record {
  steps = 2;
  stride = 3;
  policy = policy;
  state_config = state_config;
  relocalisation_available = false;
  has_scorer = true;
  extracts = λ index. true;
  scores = λ index. true;
  risk = λ index. 600;
  diagnosed = λ index. perception;
  enriched = λ index. window_row;
  rear = λ index. none;
  rotation = λ index. none;
}

policy_valid : validate policy ≡ ok tt
unfolding validate
policy_valid = refl

setup-IsWorking : IsWorking setup
setup-IsWorking = record {
  valid = policy_valid;
  strides = omega arith;
  rows_of_window = omega arith;
  attached = refl;
  extracted = λ index. refl;
  scored_at = λ index. refl;
}

run_total_example :
    (after : Core) × (run setup (101 ∷ 110 ∷ 120 ∷ []) (mission_started 100 idle) ≡ ok after)
    × AllBefore setup (grid_time 100 3 after.next_grid_index) (101 ∷ 110 ∷ 120 ∷ [])
    × (length after.rows ≡ after.next_grid_index - 2)
    × (apply_alarm_policy after.rows policy ≡ ok (outputs_of after.decisions))
run_total_example = run_total setup 100 (101 ∷ 110 ∷ 120 ∷ []) setup-IsWorking

-- The monitor after those calls.
abbrev after_mission : Core
after_mission = elim (run setup (101 ∷ 110 ∷ 120 ∷ []) (mission_started 100 idle)) [
  | ok core ↦ core
  | err e ↦ idle
]

mission_runs : run setup (101 ∷ 110 ∷ 120 ∷ []) (mission_started 100 idle) ≡ ok after_mission
unfolding run step step_all step_one scored due_grid_times due_from mission_started advanced
    record_decision with_alarm score apply_alarm_policy apply_from output_of next_state last_output
    validate
mission_runs = refl

-- Six grid points are due, five have a complete window, and every second of them alarms.
three_alarms : length after_mission.alarms ≡ 3
unfolding run step step_all step_one scored due_grid_times due_from mission_started advanced
    record_decision with_alarm score apply_alarm_policy apply_from output_of next_state last_output
    validate
three_alarms = refl

started-IsNumbered : IsNumbered (mission_started 100 idle)
unfolding mission_started
started-IsNumbered = record { numbered = tt; counted = refl }

run-IsNumbered_example : IsNumbered after_mission
run-IsNumbered_example =
    run-IsNumbered setup (101 ∷ 110 ∷ 120 ∷ []) (mission_started 100 idle) after_mission
      started-IsNumbered mission_runs
