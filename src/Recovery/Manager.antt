-- ===== src/Recovery/Manager.antt =====
-- src/recovery/manager.py: one recovery decision.
pub mod Authority
use Prim.Native.String.{String}
use text.Mathlib.Text.{◌==◌ as str_eq}
use failure_prediction.Prelude.{
  ℕ, Bool, true, false, not, Option, none, some, List, [], ◌∷◌, ◌||◌, ltb, if◌then◌else◌,
}
use failure_prediction.Prelude.Result.{Result, ok, err, raise_if, ◌>>=◌, ◌>>◌}
use failure_prediction.Recovery.Types.{
  Action, controlled_stop, request_assistance, same_action, actions, GuardConfig, RobotState,
  Guards, SignalGroup, Policy, r0, r1, r2, r3, pilot, other_policy, Error, missing_identifier,
  risk_out_of_range, unsupported_forced_action, missing_predicted_costs, unsupported_policy,
  guard_bypassed,
}
use failure_prediction.Recovery.Guards.{eligible_actions}
use failure_prediction.Recovery.Selector.{
  SelectionReason, forced_eligible, fixed_conservative_policy, stop_rejected, forced_rejected,
  forced_and_stop_rejected, lowest_cost, Costs, rule_matched_action, select_lowest_cost,
}

-- Risk scores are counted in parts of `one`.
abbrev pub one : ℕ
one = 1_000_000_000

pub record RecoveryRequest : Type 0 where
  pub run_id : String
  pub warning_id : String
  pub risk_score : ℕ
  pub diagnosed_signal_group : SignalGroup
  pub state : RobotState

-- `RecoveryRequest.validate`
unfoldable pub validate_request : RecoveryRequest → Result Error (Unit {0})
validate_request r = do
  raise_if (str_eq r.run_id "" || str_eq r.warning_id "") missing_identifier
  raise_if (ltb one r.risk_score) risk_out_of_range

-- What the branch of a policy chooses, with the forced action and whether it was rejected.
pub record Choice : Type 0 where
  pub action : Action
  pub reason : SelectionReason
  pub forced : Option Action
  pub guard_rejected : Bool

abbrev plain : Action × SelectionReason → Choice
plain (a, r) = record { action = a; reason = r; forced = none; guard_rejected = false }

-- The branch of the recovery pilot.
unfoldable pub forced_choice : Action → Guards → Choice
forced_choice forced guards =
    if (guards forced).eligible
    then record {
      action = forced;
      reason = forced_eligible;
      forced = some forced;
      guard_rejected = false;
    }
    else if (guards controlled_stop).eligible
    then record {
      action = controlled_stop;
      reason = forced_rejected forced;
      forced = some forced;
      guard_rejected = true;
    }
    else record {
      action = request_assistance;
      reason = forced_and_stop_rejected forced;
      forced = some forced;
      guard_rejected = true;
    }

-- The branch of R1.
unfoldable pub conservative_choice : Guards → Choice
conservative_choice guards =
    if (guards controlled_stop).eligible
    then plain (controlled_stop, fixed_conservative_policy)
    else plain (request_assistance, stop_rejected)

unfoldable pub choose : RecoveryRequest → Guards → Policy → Option Costs → Result Error Choice
unfolding forced_choice conservative_choice
choose request guards (pilot none) costs = err unsupported_forced_action
choose request guards (pilot (some forced)) costs =
    if same_action forced request_assistance
    then err unsupported_forced_action
    else ok (forced_choice forced guards)
choose request guards r1 costs = ok (conservative_choice guards)
choose request guards r2 costs =
    ok (plain (rule_matched_action request.diagnosed_signal_group guards))
choose request guards r3 none = err missing_predicted_costs
choose request guards r3 (some costs) =
    let (action, cost) = select_lowest_cost costs guards in ok (plain (action, lowest_cost cost))
choose request guards r0 costs = err unsupported_policy
choose request guards other_policy costs = err unsupported_policy

abbrev admitted : Guards → List Action → List Action
admitted guards [] = []
admitted guards (a ∷ as') =
    let rest = admitted guards as' in if (guards a).eligible then a ∷ rest else rest

pub record Decision : Type 0 where
  pub request : RecoveryRequest
  pub policy_id : Policy
  pub recommended_action : Action
  pub selection_reason : SelectionReason
  pub forced_action : Option Action
  pub guard_rejected : Bool
  pub abstained : Bool
  pub eligible : List Action
  pub guard_results : Guards
  pub execution_performed : Bool

-- The dictionary that `decide_recovery` returns.
unfoldable pub decision_of : RecoveryRequest → Policy → Guards → Choice → Decision
decision_of request policy guards c = record {
  request = request;
  policy_id = policy;
  recommended_action = c.action;
  selection_reason = c.reason;
  forced_action = c.forced;
  guard_rejected = c.guard_rejected;
  abstained = same_action c.action request_assistance;
  eligible = admitted guards actions;
  guard_results = guards;
  execution_performed = false;
}

unfoldable pub decide_recovery :
    RecoveryRequest → GuardConfig → Policy → Option Costs → Result Error Decision
unfolding validate_request choose decision_of
decide_recovery request config policy costs = do
  validate_request request
  guards ← eligible_actions request.state config
  c ← choose request guards policy costs
  raise_if (not (guards c.action).eligible) guard_bypassed
  ok (decision_of request policy guards c)
