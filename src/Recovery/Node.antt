-- ===== src/Recovery/Node.antt =====
-- ros_ws/src/recovery_manager/recovery_manager/node.py: the hand-off of a warning to the executor.
-- A message is a list of requests, each with the outcome of parsing its values, and with that of
-- publishing what its handling publishes and of writing its snapshot.
pub mod Budget
pub mod Once
pub mod Stop
mod Examples
use Prim.Native.String.{String}
use text.Mathlib.Text.{◌==◌ as str_eq}
use failure_prediction.Prelude.{
  ℕ, max, Bool, true, false, not, Option, none, some, List, [], ◌∷◌, ◌++◌, ◌&&◌, ◌||◌,
  if◌then◌else◌,
}
use failure_prediction.Prelude.Result.{Result, ok, err}
use failure_prediction.Recovery.Types.{
  Action, GuardConfig, RobotState, Policy, r3, Error, clearance_not_positive, missing_identifier,
  risk_out_of_range, unsupported_forced_action, missing_predicted_costs, unsupported_policy,
  guard_bypassed,
}
use failure_prediction.Recovery.Selector.{Costs}
use failure_prediction.Recovery.Manager.{RecoveryRequest, Decision, decide_recovery}
use failure_prediction.Recovery.Execution.{
  Commander, ActionBounds, Executor, Execution, safe_stop, execute,
}

-- What the node is set up with. `predicted_costs` stands for the fitted selector model, whose
-- answer is `none` where it raises; `gate_enabled` for the evidence gate, decided at start-up.
pub record Setup : Type 0 where
  pub commander : Commander
  pub bounds : ActionBounds
  pub gate_enabled : Bool
  pub guard_config : GuardConfig
  pub policy_id : Policy
  pub predicted_costs : RecoveryRequest → Option Costs

-- One entry of `message.status`: `parsed` is `none` where `request_from_values` raises, and
-- `stop_measured` is what `_wait_for_stop` reads from the odometry after this request's safe stop;
-- `reads_decision_time` tells whether `_optional_float` reads "decision_time", and `is_published` whether
-- every publication and snapshot of its handling succeeds.
pub record Message : Type 0 where
  pub is_request : Bool
  pub warning_id : String
  pub parsed : Option RecoveryRequest
  pub stop_measured : Bool
  pub reads_decision_time : Bool
  pub is_published : Bool

-- The sidecar record of one warning.
pub data Record : Type 0 where
  refused : RecoveryRequest → Record
  decided : RecoveryRequest → Decision → Execution → Record

pub record Node : Type 0 where
  pub seen_warning_ids : List String
  pub executor : Executor
  pub decisions : List Record

abbrev pub contains : String → List String → Bool
contains k [] = false
contains k (x ∷ xs) = str_eq k x || contains k xs

abbrev pub with_state : RobotState → RecoveryRequest → RecoveryRequest
with_state s r = record r { state = s }

-- The state after phase one: the measured stop replaces the monitor's estimate.
unfoldable pub stopped_state : Bool → Bool → RobotState → RobotState
stopped_state performed measured s = if performed then record s { stopped = measured } else s

-- `replace(state, repeated_recovery_count=budget_count)`
unfoldable pub budgeted : ℕ → RobotState → RobotState
budgeted executed s = record s { repeated_recovery_count = max s.repeated_recovery_count executed }

-- Only R3 asks the selector model; where that raises, no decision is taken.
unfoldable pub costs_for : Policy → Option Costs → Option Costs
costs_for r3 predicted = predicted
costs_for p predicted = none

-- The exceptions that `handle_request` catches: all but the assertion of `decide_recovery`.
unfoldable pub is_caught : Error → Bool
is_caught guard_bypassed = false
is_caught clearance_not_positive = true
is_caught missing_identifier = true
is_caught risk_out_of_range = true
is_caught unsupported_forced_action = true
is_caught missing_predicted_costs = true
is_caught unsupported_policy = true

-- The second phase: decide on the state after the stop, then execute.
unfoldable pub decide_and_execute : Setup → RecoveryRequest → Executor → Option (Record × Executor)
unfolding costs_for is_caught
decide_and_execute u request x =
    elim (decide_recovery request u.guard_config u.policy_id
      (costs_for u.policy_id (u.predicted_costs request))) [
        | err e ↦ if is_caught e then some (refused request, x) else none
        | ok d ↦ elim (execute u.commander u.bounds u.gate_enabled d x) [
          | none ↦ none
          | some (e, y) ↦ some (decided request d e, y)
        ]
      ]

-- The state that the guard sees.
unfoldable pub guarded_request : Message → RecoveryRequest → Bool → Executor → RecoveryRequest
unfolding stopped_state budgeted
guarded_request m request performed x =
    with_state (budgeted x.executed_count (stopped_state performed m.stop_measured request.state))
      request

-- What the record of a decision reads from the message after the execution.
abbrev pub is_complete : Message → Record → Bool
is_complete m (refused request) = true
is_complete m (decided request d e) = m.reads_decision_time

abbrev pub when_complete : Message → Option (Record × Executor) → Option (Record × Executor)
when_complete m none = none
when_complete m (some (r, x)) = if is_complete m r && m.is_published then some (r, x) else none

-- `handle_request` up to the record that it returns.
unfoldable pub carry_out : Setup → Message → RecoveryRequest → Executor → Option (Record × Executor)
carry_out u m request x =
    if u.gate_enabled
    then elim (safe_stop u.commander u.bounds u.gate_enabled x) [
      | none ↦ none
      | some (e, y) ↦ decide_and_execute u (guarded_request m request e.execution_performed y) y
    ]
    else decide_and_execute u (guarded_request m request false x) x

unfoldable pub handle_request :
    Setup → Message → RecoveryRequest → Executor → Option (Record × Executor)
unfolding carry_out
handle_request u m request x = when_complete m (carry_out u m request x)

-- `request_from_values` reads the request's warning id from the same key as `_receive`.
unfoldable pub request_of : Message → Option RecoveryRequest
request_of m = elim m.parsed [
  | none ↦ none
  | some r ↦ some (record r { warning_id = m.warning_id })
]

-- `_receive` for one status; `none` where an exception leaves the callback.
unfoldable pub receive : Setup → Node → Message → Option Node
unfolding request_of
receive u n m =
    if not m.is_request
    then some n
    else if contains m.warning_id n.seen_warning_ids
    then if m.is_published then some n else none
    else elim (request_of m) [
      | none ↦ if m.is_published then some n else none
      | some request ↦ elim (handle_request u m request n.executor) [
        | none ↦ none
        | some (r, y) ↦ some (record {
          seen_warning_ids = m.warning_id ∷ n.seen_warning_ids;
          executor = y;
          decisions = n.decisions ++ r ∷ [];
        })
      ]
    ]

unfoldable pub receive_all : Setup → Node → List Message → Option Node
receive_all u n [] = some n
receive_all u n (m ∷ ms) = elim (receive u n m) [ none ↦ none | some n' ↦ receive_all u n' ms ]

abbrev pub started : Node
started = record {
  seen_warning_ids = [];
  executor = record { calls = []; executed_count = 0; events = [] };
  decisions = [];
}
