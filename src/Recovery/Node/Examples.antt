-- ===== src/Recovery/Node/Examples.antt =====
-- Tests and concrete runs for the executor and the node of the recovery_manager package.
use failure_prediction.Prelude.{
  true, false, Option, none, some, [], ◌∷◌, ◌≡◌, refl, ◌⊎◌, ◌&&◌, arith,
}
use failure_prediction.Recovery.Types.{backup, r2}
use failure_prediction.Recovery.Guards.{eligible_actions, guard_table}
use failure_prediction.Recovery.Selector.{preferred_eligible, rule_matched_action}
use failure_prediction.Recovery.Manager.{Decision, decide_recovery, choose, decision_of}
use failure_prediction.Recovery.Examples.{guard_config, request, decided_by}
use failure_prediction.Recovery.Execution.{
  Commander, ActionBounds, Executor, Execution, plain, refused_live_execution_locked, cancel_task,
  zero_cmd_vel, backup_call, perform, run_steps, action_sequence, safe_stop, execute,
}
use failure_prediction.Recovery.Execution.Sequence.{Idle, Finished, Halted, execute-ends}
use failure_prediction.Recovery.Node.{
  Setup, Message, Record, refused, Node, costs_for, stopped_state, budgeted, decide_and_execute,
  guarded_request, handle_request, request_of, receive, receive_all, started,
}
use failure_prediction.Recovery.Node.Budget.{WithinBudget, receive_all-WithinBudget}
use failure_prediction.Recovery.Node.Once.{DecidesOnce, receive_all-DecidesOnce, receive_all_total}
use failure_prediction.Recovery.Node.Stop.{MovesStopped, handle_request-stopped}

-- A commander whose calls return.
abbrev obedient : Commander
obedient calls call = true

-- One that cannot back up.
abbrev stuck : Commander
stuck calls (backup_call distance speed) = false
stuck calls _ = true

abbrev bounds : ActionBounds
bounds = record {
  backup_distance_m = 30;
  backup_speed_mps = 10;
  spin_angle_rad = 157;
  wait_seconds = 5;
}

abbrev setup : Setup
setup = record {
  commander = obedient;
  bounds = bounds;
  gate_enabled = true;
  guard_config = guard_config;
  policy_id = r2;
  predicted_costs = λ q. none;
}

abbrev message : Message
message = record {
  is_request = true;
  warning_id = "w_1";
  parsed = some (request 0);
  stop_measured = true;
  reads_decision_time = true;
  is_published = true;
}

abbrev value_or {ℓ} : {A : Type ℓ} → A → Option A → A
value_or a none = a
value_or a (some b) = b

abbrev idle : Execution × Executor
idle = (
  record { status = refused_live_execution_locked; execution_performed = false; steps = [] },
  started.executor,
)

abbrev to_back_up : Decision
to_back_up = decided_by 0 r2 backup preferred_eligible

-- What the executor leaves after the decision to back up.
abbrev ended : Commander → Execution × Executor
ended commander = value_or idle (execute commander bounds true to_back_up started.executor)

backs_up : (ended obedient).1.executed_count ≡ 1
unfolding execute run_steps perform guard_table decision_of action_sequence
backs_up = refl

stops_when_stuck :
    (ended stuck).1.calls
    ≡ plain zero_cmd_vel ∷ backup_call 30 10 ∷ plain zero_cmd_vel ∷ plain cancel_task ∷ []
unfolding execute run_steps perform guard_table decision_of action_sequence
stops_when_stuck = refl

returns_when_stuck : execute stuck bounds true to_back_up started.executor ≡ some (ended stuck)
unfolding execute run_steps perform guard_table decision_of action_sequence
returns_when_stuck = refl

execute-ends_example :
    (((true && (to_back_up.guard_results to_back_up.recommended_action).eligible) ≡ false)
      × Idle stuck bounds started.executor (ended stuck))
    ⊎ ((true ≡ true)
        × ((to_back_up.guard_results to_back_up.recommended_action).eligible ≡ true)
        × (Finished stuck bounds
              (action_sequence to_back_up.recommended_action)
              started.executor
              (ended stuck)
            ⊎ Halted stuck bounds
                (action_sequence to_back_up.recommended_action)
                started.executor
                (ended stuck)))
execute-ends_example =
    execute-ends stuck bounds true to_back_up started.executor (ended stuck) returns_when_stuck

-- The node after the same warning arrived twice.
abbrev after_warning : Node
after_warning = value_or started (receive_all setup started (message ∷ message ∷ []))

receives_twice : receive_all setup started (message ∷ message ∷ []) ≡ some after_warning
unfolding receive_all receive request_of decide_recovery eligible_actions guard_table choose
    rule_matched_action decision_of safe_stop run_steps perform action_sequence execute
    handle_request decide_and_execute guarded_request stopped_state budgeted costs_for
receives_twice = refl

started-WithinBudget : WithinBudget setup started
started-WithinBudget = record { counted = omega arith; bounded = omega arith }

receive_all-WithinBudget_example : WithinBudget setup after_warning
receive_all-WithinBudget_example =
    receive_all-WithinBudget setup started after_warning (message ∷ message ∷ [])
      started-WithinBudget receives_twice

started-DecidesOnce : DecidesOnce setup started
started-DecidesOnce = record { recorded = refl; distinct = tt }

receive_all-DecidesOnce_example : DecidesOnce setup after_warning
receive_all-DecidesOnce_example =
    receive_all-DecidesOnce setup started after_warning (message ∷ message ∷ []) started-DecidesOnce
      receives_twice

receive_all_total_example :
    (n : Node) × (receive_all setup started (message ∷ message ∷ []) ≡ some n)
receive_all_total_example =
    receive_all_total setup (λ calls. refl) started (message ∷ message ∷ [])
      ((refl, refl), ((refl, refl), tt))

-- A decision time that is no number stops the callback after the execution.
abbrev untimed : Message
untimed = record {
  is_request = true;
  warning_id = "w_1";
  parsed = some (request 0);
  stop_measured = true;
  reads_decision_time = false;
  is_published = true;
}

leaves_callback : receive setup started untimed ≡ none
unfolding receive request_of decide_recovery eligible_actions guard_table choose rule_matched_action
    decision_of safe_stop run_steps perform action_sequence execute handle_request
    decide_and_execute guarded_request stopped_state budgeted costs_for
leaves_callback = refl

abbrev handled : Record × Executor
handled =
    value_or (refused (request 0), started.executor)
      (handle_request setup message (request 0) started.executor)

handles : handle_request setup message (request 0) started.executor ≡ some handled
unfolding decide_recovery eligible_actions guard_table choose rule_matched_action decision_of
    safe_stop run_steps perform action_sequence execute handle_request decide_and_execute
    guarded_request stopped_state budgeted costs_for
handles = refl

handled-MovesStopped : MovesStopped handled.0
unfolding decide_recovery eligible_actions guard_table choose rule_matched_action decision_of
    safe_stop run_steps perform action_sequence execute handle_request decide_and_execute
    guarded_request stopped_state budgeted costs_for
handled-MovesStopped = (refl, refl)

handle_request-stopped_example :
    (stop : Execution × Executor) × (safe_stop obedient bounds true started.executor ≡ some stop)
    × (((stop.0.execution_performed ≡ true) × (message.stop_measured ≡ true))
        ⊎ ((stop.0.execution_performed ≡ false) × ((request 0).state.stopped ≡ true)))
handle_request-stopped_example =
    handle_request-stopped setup message (request 0) started.executor handled handles
      handled-MovesStopped
