-- ===== src/Recovery/Guards.antt =====
-- src/recovery/guards.py: which recovery actions the independent guard admits.
pub mod Permitted
use failure_prediction.Prelude.{
  Bool, true, not, Option, none, some, ◌&&◌, ◌||◌, ℕ, leb, ◌==◌, if◌then◌else◌,
}
use failure_prediction.Prelude.Result.{Result, ok, raise_if, ◌>>◌}
use failure_prediction.Recovery.Types.{
  controlled_stop, relocalise, replan_clear_costmaps, backup, spin_active_rescan, wait,
  request_assistance, same_action, GuardConfig, RobotState, GuardReason, recovery_budget_exhausted,
  always_eligible, stop_disallowed, needs_relocalisation, needs_stale_planning,
  needs_rear_clearance, needs_rotation_clearance, needs_transient_obstruction, Verdict, Guards,
  Error, clearance_not_positive,
}

-- `GuardConfig.validate`; a negative budget has no representation.
unfoldable pub validate_guards : GuardConfig → Result Error (Unit {0})
validate_guards c =
    raise_if (c.minimum_rear_clearance_m == 0 || c.minimum_rotation_clearance_m == 0)
      clearance_not_positive

abbrev verdict : Bool → GuardReason → Verdict
verdict b r = record { eligible = b; reason = r }

-- `x is not None and x >= minimum`
abbrev pub verified : Option ℕ → ℕ → Bool
verified none minimum = Bool.false
verified (some x) minimum = leb minimum x

abbrev pub budget_exhausted : RobotState → GuardConfig → Bool
budget_exhausted s c = leb c.maximum_repeated_recoveries s.repeated_recovery_count

-- The table when the recovery budget is spent.
unfoldable pub exhausted_guards : Guards
exhausted_guards request_assistance = verdict true always_eligible
exhausted_guards a = verdict (same_action a request_assistance) recovery_budget_exhausted

-- The table of conditions while the budget lasts.
unfoldable pub condition_guards : RobotState → GuardConfig → Guards
condition_guards s c controlled_stop = verdict s.stop_allowed stop_disallowed
condition_guards s c relocalise =
    verdict (s.stopped && s.localisation_poor && s.relocalisation_available) needs_relocalisation
condition_guards s c replan_clear_costmaps =
    verdict (not s.immediate_collision_risk && s.planning_stale_or_blocked) needs_stale_planning
condition_guards s c backup =
    verdict (s.stopped && verified s.rear_clearance_m c.minimum_rear_clearance_m)
      needs_rear_clearance
condition_guards s c spin_active_rescan =
    verdict (s.stopped && verified s.rotation_clearance_m c.minimum_rotation_clearance_m)
      needs_rotation_clearance
condition_guards s c wait =
    verdict (not s.immediate_collision_risk && s.obstruction_may_be_transient)
      needs_transient_obstruction
condition_guards s c request_assistance = verdict true always_eligible

unfoldable pub guard_table : RobotState → GuardConfig → Guards
unfolding exhausted_guards condition_guards
guard_table s c a = if budget_exhausted s c then exhausted_guards a else condition_guards s c a

unfoldable pub eligible_actions : RobotState → GuardConfig → Result Error Guards
unfolding validate_guards guard_table
eligible_actions s c = validate_guards c >> ok (guard_table s c)
