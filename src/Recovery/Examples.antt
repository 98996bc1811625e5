-- ===== src/Recovery/Examples.antt =====
-- Tests and concrete runs for src/recovery and the recovery_manager package.
use failure_prediction.Prelude.{ℕ, true, false, none, some, [], ◌∷◌, ◌≡◌, refl, ◌↔◌}
use failure_prediction.Prelude.Int.{ℤ, pos, negsuc}
use failure_prediction.Prelude.Result.{ok}
use failure_prediction.Recovery.Types.{
  Action, backup, wait, controlled_stop, request_assistance, GuardConfig, RobotState,
  frontal_blockage, Policy, r1, r2, r3,
}
use failure_prediction.Recovery.Guards.{eligible_actions, guard_table, validate_guards}
use failure_prediction.Recovery.Guards.Permitted.{Permitted, eligible_actions-Permitted}
use failure_prediction.Recovery.Selector.{
  SelectionReason, lowest_cost, preferred_eligible, stop_rejected, Costs, rule_matched_action,
  select_lowest_cost,
}
use failure_prediction.Recovery.Selector.Cheapest.{Selected}
use failure_prediction.Recovery.Manager.{
  RecoveryRequest, Decision, decide_recovery, validate_request, choose, decision_of,
}
use failure_prediction.Recovery.Manager.Authority.{
  decide_recovery-Permitted, decide_recovery_total, decide_recovery-Selected,
}

abbrev pub guard_config : GuardConfig
guard_config = record {
  minimum_rear_clearance_m = 50;
  minimum_rotation_clearance_m = 40;
  maximum_repeated_recoveries = 2;
}

abbrev pub robot : ℕ → RobotState
robot repeated = record {
  stopped = true;
  stop_allowed = true;
  localisation_poor = false;
  planning_stale_or_blocked = false;
  rear_clearance_m = some 80;
  rotation_clearance_m = none;
  immediate_collision_risk = true;
  obstruction_may_be_transient = true;
  relocalisation_available = false;
  repeated_recovery_count = repeated;
}

abbrev pub request : ℕ → RecoveryRequest
request repeated = record {
  run_id = "run_7";
  warning_id = "w_1";
  risk_score = 900_000_000;
  diagnosed_signal_group = frontal_blockage;
  state = robot repeated;
}

-- The robot stands and has room behind it; it may not wait, since a collision is near.
backup_admitted : (guard_table (robot 0) guard_config backup).eligible ≡ true
unfolding guard_table
backup_admitted = refl

wait_rejected : (guard_table (robot 0) guard_config wait).eligible ≡ false
unfolding guard_table
wait_rejected = refl

table_of : eligible_actions (robot 0) guard_config ≡ ok (guard_table (robot 0) guard_config)
unfolding eligible_actions
table_of = refl

abbrev pub decided_by : ℕ → Policy → Action → SelectionReason → Decision
decided_by repeated policy a reason =
    decision_of (request repeated) policy (guard_table (robot repeated) guard_config)
      (record { action = a; reason = reason; forced = none; guard_rejected = false })

pub decides_backup :
    decide_recovery (request 0) guard_config r2 none
    ≡ ok (decided_by 0 r2 backup preferred_eligible)
unfolding decide_recovery eligible_actions guard_table choose rule_matched_action decision_of
decides_backup = refl

-- At the budget the conservative policy calls for assistance.
decides_assistance :
    decide_recovery (request 2) guard_config r1 none
    ≡ ok (decided_by 2 r1 request_assistance stop_rejected)
unfolding decide_recovery eligible_actions guard_table choose decision_of
decides_assistance = refl

-- Waiting would be cheaper still, but the guard rejects it.
abbrev costs : Costs
costs =
    (some wait, negsuc 2)
    ∷ (some controlled_stop, pos 9)
    ∷ (none, negsuc 7)
    ∷ (some backup, pos 4)
    ∷ []

decides_cheapest :
    decide_recovery (request 0) guard_config r3 (some costs)
    ≡ ok (decided_by 0 r3 backup (lowest_cost (pos 4)))
unfolding decide_recovery eligible_actions guard_table choose select_lowest_cost decision_of
decides_cheapest = refl

eligible_actions-Permitted_example :
    ((guard_table (robot 0) guard_config backup).eligible ≡ true)
    ↔ Permitted (robot 0) guard_config backup
eligible_actions-Permitted_example =
    eligible_actions-Permitted (robot 0) guard_config (guard_table (robot 0) guard_config) backup
      table_of

decide_recovery-Permitted_example :
    Permitted (robot 0) guard_config backup
    × ((decided_by 0 r2 backup preferred_eligible).guard_results
        ≡ guard_table (robot 0) guard_config)
unfolding decision_of
decide_recovery-Permitted_example =
    decide_recovery-Permitted (request 0) guard_config r2 none
      (decided_by 0 r2 backup preferred_eligible) decides_backup

request_valid : validate_request (request 0) ≡ ok tt
unfolding validate_request
request_valid = refl

guard_config_valid : validate_guards guard_config ≡ ok tt
unfolding validate_guards
guard_config_valid = refl

decide_recovery_total_example :
    (d : Decision) × (decide_recovery (request 0) guard_config r3 (some costs) ≡ ok d)
decide_recovery_total_example =
    decide_recovery_total (request 0) guard_config r3 (some costs) request_valid guard_config_valid
      tt

decide_recovery-Selected_example :
    (x : ℤ) × ((decided_by 0 r3 backup (lowest_cost (pos 4))).selection_reason ≡ lowest_cost x)
    × Selected (guard_table (robot 0) guard_config) costs (backup, x)
unfolding decision_of
decide_recovery-Selected_example =
    decide_recovery-Selected (request 0) guard_config costs
      (decided_by 0 r3 backup (lowest_cost (pos 4))) decides_cheapest
