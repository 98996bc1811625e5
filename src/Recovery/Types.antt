-- ===== src/Recovery/Types.antt =====
-- The data of src/recovery: actions, guard inputs, policies and what a call may raise.
-- Lengths are natural numbers in a fixed unit, so a test `x <= 0` of the source is `x == 0`.
use failure_prediction.Prelude.{ℕ, Bool, List, [], ◌∷◌, Option, ◌==◌}

-- `ACTIONS` of src/recovery/guards.py, in its order.
pub data Action : Type 0 where
  controlled_stop relocalise replan_clear_costmaps backup spin_active_rescan wait : Action
  request_assistance : Action

abbrev pub actions : List Action
actions =
    controlled_stop ∷ relocalise ∷ replan_clear_costmaps ∷ backup ∷ spin_active_rescan ∷ wait
    ∷ request_assistance ∷ []

-- The place of an action's name in the alphabet, by which Python compares two names.
abbrev pub name_rank : Action → ℕ
name_rank backup = 0
name_rank controlled_stop = 1
name_rank relocalise = 2
name_rank replan_clear_costmaps = 3
name_rank request_assistance = 4
name_rank spin_active_rescan = 5
name_rank wait = 6

abbrev pub same_action : Action → Action → Bool
same_action a b = name_rank a == name_rank b

pub record GuardConfig : Type 0 where
  pub minimum_rear_clearance_m : ℕ
  pub minimum_rotation_clearance_m : ℕ
  pub maximum_repeated_recoveries : ℕ

pub record RobotState : Type 0 where
  pub stopped : Bool
  pub stop_allowed : Bool
  pub localisation_poor : Bool
  pub planning_stale_or_blocked : Bool
  pub rear_clearance_m : Option ℕ
  pub rotation_clearance_m : Option ℕ
  pub immediate_collision_risk : Bool
  pub obstruction_may_be_transient : Bool
  pub relocalisation_available : Bool
  pub repeated_recovery_count : ℕ

-- The reason strings of `eligible_actions`.
pub data GuardReason : Type 0 where
  recovery_budget_exhausted always_eligible stop_disallowed needs_relocalisation : GuardReason
  needs_stale_planning needs_rear_clearance needs_rotation_clearance : GuardReason
  needs_transient_obstruction : GuardReason

pub record Verdict : Type 0 where
  pub eligible : Bool
  pub reason : GuardReason

-- The dictionary that `eligible_actions` returns has exactly the keys of `ACTIONS`.
abbrev pub Guards : Type 0
Guards = Action → Verdict

-- `diagnosed_signal_group`; `unrecognised` is any other string.
pub data SignalGroup : Type 0 where
  localisation planning frontal_blockage perception transient_obstruction : SignalGroup
  unknown unrecognised : SignalGroup

-- A policy identifier: `pilot` is "RP_" before an action's name, or before any other string.
pub data Policy : Type 0 where
  r0 r1 r2 r3 : Policy
  pilot : Option Action → Policy
  other_policy : Policy

-- The exceptions of guards.py, selector.py and manager.py.
pub data Error : Type 0 where
  clearance_not_positive missing_identifier risk_out_of_range unsupported_forced_action : Error
  missing_predicted_costs unsupported_policy guard_bypassed : Error
