-- ===== src/Recovery/Verification/Examples.antt =====
-- Tests and concrete runs for the exhaustive check of the guard.
use failure_prediction.Prelude.{true, false, some, [], ◌∷◌, ◌≡◌, refl, Among, arith}
use failure_prediction.Prelude.Result.{ok}
use failure_prediction.Recovery.Types.{Action, controlled_stop, GuardConfig, RobotState}
use failure_prediction.Recovery.Guards.{
  validate_guards, guard_table, exhausted_guards, condition_guards,
}
use failure_prediction.Recovery.Verification.{
  state_space, condition_differs, invariant_errors, Report, verify_guard_space, passed,
}
use failure_prediction.Recovery.Verification.Passes.{verify_guard_space-passes}
use failure_prediction.Recovery.Verification.Grid.{state_space_covers}

-- Centimetres.
abbrev config : GuardConfig
config = record {
  minimum_rear_clearance_m = 40;
  minimum_rotation_clearance_m = 35;
  maximum_repeated_recoveries = 2;
}

valid : validate_guards config ≡ ok tt
unfolding validate_guards
valid = refl

abbrev state : RobotState
state = record {
  stopped = true;
  stop_allowed = true;
  localisation_poor = false;
  planning_stale_or_blocked = true;
  rear_clearance_m = some 97;
  rotation_clearance_m = some 12;
  immediate_collision_risk = false;
  obstruction_may_be_transient = false;
  relocalisation_available = false;
  repeated_recovery_count = 1;
}

-- A table that refuses the stop is noticed.
notices_difference :
    invariant_errors state config (guard_table (record state { stop_allowed = false }) config)
    ≡ condition_differs controlled_stop ∷ []
unfolding invariant_errors guard_table condition_guards exhausted_guards
notices_difference = refl

verify_guard_space-passes_example :
    (r : Report) × (verify_guard_space (λ n. "7") config 1 ≡ ok r)
    × (passed r ≡ true)
    × (r.states_checked ≡ 3456)
    × (r.policy_decisions_checked ≡ 51_840)
verify_guard_space-passes_example = verify_guard_space-passes (λ n. "7") config 1 valid

state_space_covers_example :
    (g : RobotState) × Among g (state_space 1 config)
    × ((a : Action) → guard_table g config a ≡ guard_table state config a)
state_space_covers_example = state_space_covers 1 config state valid (λ e. omega (arith, e))
