-- ===== src/Recovery/Verification.antt =====
-- src/recovery/verification.py: the exhaustive check of the guard and of every policy over a grid of
-- states. `str` is Python's text of a number. Where a minimum clearance is below the hundredth of a metre
-- that the grid subtracts, the grid has 0 instead of a negative clearance.
pub mod Passes
pub mod Grid
mod Examples
use Prim.Native.String.{String, ◌++◌ as str_append}
use failure_prediction.Prelude.{
  ℕ, suc, ◌+◌, ◌-◌, Bool, true, false, not, Option, none, some, List, [], ◌∷◌, ◌++◌, ◌&&◌, ◌||◌,
  if◌then◌else◌, length, ◌==◌, for_each, ◌==◌,
}
use failure_prediction.Prelude.Int.{pos}
use failure_prediction.Prelude.Result.{Result, ok, ◌>>=◌, ◌>>◌}
use failure_prediction.Recovery.Types.{
  Action, controlled_stop, relocalise, replan_clear_costmaps, backup, spin_active_rescan, wait,
  request_assistance, actions, same_action, GuardConfig, RobotState, Guards, SignalGroup,
  localisation, planning, frontal_blockage, perception, transient_obstruction, unknown,
  unrecognised, Policy, r1, r2, r3, Error,
}
use failure_prediction.Recovery.Guards.{
  validate_guards, verified, budget_exhausted, eligible_actions,
}
use failure_prediction.Recovery.Selector.{Costs}
use failure_prediction.Recovery.Manager.{RecoveryRequest, Decision, decide_recovery}

abbrev pub bools : List Bool
bools = false ∷ true ∷ []

-- `None`, just below the minimum, and the minimum.
abbrev pub clearances : ℕ → ℕ → List (Option ℕ)
clearances hundredth minimum = none ∷ some (minimum - hundredth) ∷ some minimum ∷ []

abbrev pub counts : ℕ → List ℕ
counts maximum = 0 ∷ (maximum - 1) ∷ maximum ∷ []

unfoldable pub state_space : ℕ → GuardConfig → List RobotState
state_space hundredth c = for_each bools λ stopped. for_each bools λ stop_allowed.
    for_each bools λ localisation_poor. for_each bools λ planning.
      for_each (clearances hundredth c.minimum_rear_clearance_m) λ rear.
        for_each (clearances hundredth c.minimum_rotation_clearance_m) λ rotation.
          for_each bools λ collision. for_each bools λ transient. for_each bools λ available.
            for_each (counts c.maximum_repeated_recoveries) λ count.
              (record {
                stopped = stopped;
                stop_allowed = stop_allowed;
                localisation_poor = localisation_poor;
                planning_stale_or_blocked = planning;
                rear_clearance_m = rear;
                rotation_clearance_m = rotation;
                immediate_collision_risk = collision;
                obstruction_may_be_transient = transient;
                relocalisation_available = available;
                repeated_recovery_count = count;
              })
              ∷ []

pub data Violation : Type 0 where
  assistance_rejected budget_bypassed : Violation
  condition_differs : Action → Violation
  guard_bypassed : Policy → Violation

abbrev pub when : Bool → Violation → List Violation
when test violation = if test then violation ∷ [] else []

abbrev pub same_bool : Bool → Bool → Bool
same_bool true b = b
same_bool false b = not b

-- `eligible == {"request_assistance"}`, over the keys of the table.
abbrev only_assistance : Guards → List Action → Bool
only_assistance guards [] = true
only_assistance guards (a ∷ as') =
    same_bool (guards a).eligible (same_action a request_assistance) && only_assistance guards as'

-- The automated actions, in the order of `implications`.
abbrev automated : List Action
automated =
    controlled_stop ∷ relocalise ∷ replan_clear_costmaps ∷ backup ∷ spin_active_rescan ∷ wait ∷ []

abbrev implication : RobotState → GuardConfig → Action → Bool
implication s c controlled_stop = s.stop_allowed
implication s c relocalise = s.stopped && s.localisation_poor && s.relocalisation_available
implication s c replan_clear_costmaps =
    not s.immediate_collision_risk && s.planning_stale_or_blocked
implication s c backup = s.stopped && verified s.rear_clearance_m c.minimum_rear_clearance_m
implication s c spin_active_rescan =
    s.stopped && verified s.rotation_clearance_m c.minimum_rotation_clearance_m
implication s c wait = not s.immediate_collision_risk && s.obstruction_may_be_transient
implication s c request_assistance = true

abbrev differing : RobotState → GuardConfig → Guards → List Action → List Violation
differing s c guards [] = []
differing s c guards (a ∷ as') =
    when (not (same_bool (guards a).eligible (implication s c a))) (condition_differs a)
    ++ differing s c guards as'

unfoldable pub invariant_errors : RobotState → GuardConfig → Guards → List Violation
invariant_errors s c guards =
    when (not (guards request_assistance).eligible) assistance_rejected
    ++ when (budget_exhausted s c && not (only_assistance guards actions)) budget_bypassed
    ++ (if budget_exhausted s c then [] else differing s c guards automated)

-- One decision of the check.
pub record Query : Type 0 where
  pub request : RecoveryRequest
  pub policy : Policy
  pub costs : Option Costs

-- `SIGNAL_ACTIONS` and "unrecognised", sorted by name.
abbrev pub signal_groups : List SignalGroup
signal_groups =
    frontal_blockage ∷ localisation ∷ perception ∷ planning ∷ transient_obstruction ∷ unknown
    ∷ unrecognised ∷ []

abbrev pub signal_name : SignalGroup → String
signal_name frontal_blockage = "frontal_blockage"
signal_name localisation = "localisation"
signal_name perception = "perception"
signal_name planning = "planning"
signal_name transient_obstruction = "transient_obstruction"
signal_name unknown = "unknown"
signal_name unrecognised = "unrecognised"

-- 0.75 in the parts of a risk score.
abbrev pub risk : ℕ
risk = 750_000_000

-- Costs that make one action the cheapest.
abbrev pub costs_from : Action → ℕ → List Action → Costs
costs_from cheapest position [] = []
costs_from cheapest position (a ∷ as') =
    (some a, (if same_action a cheapest then pos 0 else pos (suc position)))
    ∷ costs_from cheapest (suc position) as'

module _ (str : ℕ → String) where
  abbrev pub run_id : ℕ → String
  run_id index = str_append "verification-" (str index)

  abbrev pub warning_id : ℕ → String
  warning_id index = str_append "warning-" (str index)

  abbrev pub request_of : ℕ → RobotState → RecoveryRequest
  request_of index s = record {
    run_id = run_id index;
    warning_id = warning_id index;
    risk_score = risk;
    diagnosed_signal_group = unknown;
    state = s;
  }

  abbrev pub signal_request : ℕ → RobotState → SignalGroup → RecoveryRequest
  signal_request index s signal = record {
    run_id = run_id index;
    warning_id = str_append (warning_id index) (str_append "-" (signal_name signal));
    risk_score = risk;
    diagnosed_signal_group = signal;
    state = s;
  }

  -- The decisions that are checked for one state, in their order.
  unfoldable pub queries : ℕ → RobotState → List Query
  queries index s =
      (record { request = request_of index s; policy = r1; costs = none })
        ∷ (for_each signal_groups λ signal.
            (record { request = signal_request index s signal; policy = r2; costs = none }) ∷ [])
      ++ for_each actions λ cheapest.
        (record {
          request = request_of index s;
          policy = r3;
          costs = some (costs_from cheapest 0 actions);
        })
        ∷ []

abbrev bypassed : Guards → Policy → Decision → List Violation
bypassed guards policy d = when (not (guards d.recommended_action).eligible) (guard_bypassed policy)

unfoldable pub check_queries : GuardConfig → Guards → List Query → Result Error (List Violation)
check_queries c guards [] = ok []
check_queries c guards (q ∷ qs) = decide_recovery q.request c q.policy q.costs >>= λ d.
    check_queries c guards qs >>= λ rest. ok (bypassed guards q.policy d ++ rest)

-- The variables of `verify_guard_space`.
pub record Report : Type 0 where
  pub states_checked : ℕ
  pub policy_decisions_checked : ℕ
  pub eligibility_counts : Action → ℕ
  pub violations : List (ℕ × Violation)

abbrev at_index : ℕ → List Violation → List (ℕ × Violation)
at_index index [] = []
at_index index (v ∷ vs) = (index, v) ∷ at_index index vs

abbrev pub add_state : ℕ → Guards → ℕ → List Violation → Report → Report
add_state index guards decisions found r = record {
  states_checked = suc r.states_checked;
  policy_decisions_checked = r.policy_decisions_checked + decisions;
  eligibility_counts = λ a. r.eligibility_counts a + (if (guards a).eligible then 1 else 0);
  violations = r.violations ++ at_index index found;
}

abbrev pub nothing : Report
nothing = record {
  states_checked = 0;
  policy_decisions_checked = 0;
  eligibility_counts = λ a. 0;
  violations = [];
}

module _ (str : ℕ → String) (c : GuardConfig) where
  unfoldable pub verify_states : ℕ → List RobotState → Report → Result Error Report
  unfolding invariant_errors queries check_queries
  verify_states index [] r = ok r
  verify_states index (s ∷ ss) r = eligible_actions s c >>= λ guards.
      check_queries c guards (queries str index s) >>= λ bypasses. verify_states (suc index) ss (
        add_state index guards (length (queries str index s))
          (invariant_errors s c guards ++ bypasses) r)

  unfoldable pub verify_guard_space : ℕ → Result Error Report
  unfolding verify_states state_space
  verify_guard_space hundredth =
      validate_guards c >> verify_states 0 (state_space hundredth c) nothing

-- `passed`
unfoldable pub passed : Report → Bool
passed r = length r.violations == 0
