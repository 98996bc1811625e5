-- ===== src/Recovery/Guards/Permitted.antt =====
-- What the protocol demands before an action, stated apart from the guard's code
-- (src/recovery/guards.py, src/recovery/verification.py).
use failure_prediction.Prelude.{ℕ, true, false, Option, some, ◌≡◌, ◌↔◌, ◌≤◌, ◌<◌, arith}
use failure_prediction.Prelude.Result.{ok}
use failure_prediction.Recovery.Types.{
  Action, controlled_stop, relocalise, replan_clear_costmaps, backup, spin_active_rescan, wait,
  request_assistance, GuardConfig, RobotState, Guards,
}
use failure_prediction.Recovery.Guards.{eligible_actions, guard_table}

-- A clearance that was measured and is large enough.
abbrev pub Clear : Option ℕ → ℕ → Type 0
Clear measured minimum = (x : ℕ) × (measured ≡ some x) × (minimum ≤ x)

abbrev pub HasBudget : RobotState → GuardConfig → Type 0
HasBudget s c = s.repeated_recovery_count < c.maximum_repeated_recoveries

-- The condition of each action.
abbrev pub Permitted : RobotState → GuardConfig → Action → Type 0
Permitted s c controlled_stop = HasBudget s c × (s.stop_allowed ≡ true)
Permitted s c relocalise =
    HasBudget s c
    × (s.stopped ≡ true)
    × (s.localisation_poor ≡ true)
    × (s.relocalisation_available ≡ true)
Permitted s c replan_clear_costmaps =
    HasBudget s c × (s.immediate_collision_risk ≡ false) × (s.planning_stale_or_blocked ≡ true)
Permitted s c backup =
    HasBudget s c × (s.stopped ≡ true) × Clear s.rear_clearance_m c.minimum_rear_clearance_m
Permitted s c spin_active_rescan =
    HasBudget s c × (s.stopped ≡ true) × Clear s.rotation_clearance_m c.minimum_rotation_clearance_m
Permitted s c wait =
    HasBudget s c × (s.immediate_collision_risk ≡ false) × (s.obstruction_may_be_transient ≡ true)
Permitted s c request_assistance = Unit

pub guard_table_sound :
    (s : RobotState) (c : GuardConfig) (a : Action)
    → (guard_table s c a).eligible ≡ true
    → Permitted s c a
unfolding guard_table
guard_table_sound s c controlled_stop h = ground arith
guard_table_sound s c relocalise h = ground arith
guard_table_sound s c replan_clear_costmaps h = ground arith
guard_table_sound s c backup h = ground arith
guard_table_sound s c spin_active_rescan h = ground arith
guard_table_sound s c wait h = ground arith
guard_table_sound s c request_assistance h = tt

pub guard_table_complete :
    (s : RobotState) (c : GuardConfig) (a : Action)
    → Permitted s c a
    → (guard_table s c a).eligible ≡ true
unfolding guard_table
guard_table_complete s c controlled_stop h = ground arith
guard_table_complete s c relocalise h = ground arith
guard_table_complete s c replan_clear_costmaps h = ground arith
guard_table_complete s c backup h = ground arith
guard_table_complete s c spin_active_rescan h = ground arith
guard_table_complete s c wait h = ground arith
guard_table_complete s c request_assistance h = ground arith

pub guard_table-request_assistance :
    (s : RobotState) (c : GuardConfig) → (guard_table s c request_assistance).eligible ≡ true
guard_table-request_assistance s c = guard_table_complete s c request_assistance tt

pub eligible_actions-table :
    (s : RobotState) (c : GuardConfig) {guards : Guards}
    → eligible_actions s c ≡ ok guards
    → guards ≡ guard_table s c
unfolding eligible_actions
eligible_actions-table s c h = ground arith

-- Whenever the guard answers, it admits an action exactly when the action's condition holds.
pub eligible_actions-Permitted :
    (s : RobotState) (c : GuardConfig) (guards : Guards) (a : Action)
    → eligible_actions s c ≡ ok guards
    → ((guards a).eligible ≡ true) ↔ Permitted s c a
eligible_actions-Permitted s c guards a h =
    rw (eligible_actions-table s c h) (guard_table_sound s c a, guard_table_complete s c a)
