-- ===== src/Recovery/Execution.antt =====
-- ros_ws/src/recovery_manager/recovery_manager/live_execution.py: the bounded action sequences.
-- The commander, which drives Nav2, is a parameter: given the calls made so far and the next one,
-- whether that call returns (`true`) or raises. Durations are only logged and are left out.
pub mod Sequence
use failure_prediction.Prelude.{
  ℕ, Bool, true, false, not, Option, none, some, List, [], ◌∷◌, ◌++◌, ◌+◌, ◌||◌, if◌then◌else◌,
}
use failure_prediction.Recovery.Types.{Action, actions, Guards}
use failure_prediction.Recovery.Manager.{Decision}

-- The step names of `ACTION_SEQUENCES`.
pub data Step : Type 0 where
  cancel_task zero_cmd_vel clear_costmaps relocalise backup spin wait : Step
  resume_navigation request_assistance : Step

pub record ActionBounds : Type 0 where
  pub backup_distance_m : ℕ
  pub backup_speed_mps : ℕ
  pub spin_angle_rad : ℕ
  pub wait_seconds : ℕ

-- A call of the commander with its arguments.
pub data Call : Type 0 where
  plain : Step → Call
  backup_call : ℕ → ℕ → Call
  spin_call : ℕ → Call
  wait_call : ℕ → Call

abbrev pub Commander : Type 0
Commander = List Call → Call → Bool

-- `LiveExecutor._perform`
unfoldable pub perform : ActionBounds → Step → Call
perform b backup = backup_call b.backup_distance_m b.backup_speed_mps
perform b spin = spin_call b.spin_angle_rad
perform b wait = wait_call b.wait_seconds
perform b s = plain s

-- `SAFE_STOP_PREFIX`
abbrev pub safe_stop_prefix : List Step
safe_stop_prefix = cancel_task ∷ zero_cmd_vel ∷ []

-- `ACTION_SEQUENCES`, whose keys are all of `ACTIONS`.
unfoldable pub action_sequence : Action → List Step
action_sequence Action.controlled_stop = cancel_task ∷ zero_cmd_vel ∷ resume_navigation ∷ []
action_sequence Action.relocalise = cancel_task ∷ zero_cmd_vel ∷ relocalise ∷ resume_navigation ∷ []
action_sequence Action.replan_clear_costmaps =
    cancel_task ∷ zero_cmd_vel ∷ clear_costmaps ∷ resume_navigation ∷ []
action_sequence Action.backup = cancel_task ∷ zero_cmd_vel ∷ backup ∷ resume_navigation ∷ []
action_sequence Action.spin_active_rescan =
    cancel_task ∷ zero_cmd_vel ∷ spin ∷ resume_navigation ∷ []
action_sequence Action.wait = cancel_task ∷ zero_cmd_vel ∷ wait ∷ resume_navigation ∷ []
action_sequence Action.request_assistance = cancel_task ∷ zero_cmd_vel ∷ request_assistance ∷ []

pub data Status : Type 0 where
  refused_live_execution_locked refused_guard_rejected_action executed failed : Status

-- An entry of `record["steps"]`.
pub data StepEntry : Type 0 where
  done : Step → StepEntry
  zero_cmd_vel_after_failure : StepEntry

pub record Execution : Type 0 where
  pub status : Status
  pub execution_performed : Bool
  pub steps : List StepEntry

pub data Event : Type 0 where
  recovery_guard_rejection : List Action → Event
  recovery_safe_stop recovery_execution_refused recovery_action_executed : Execution → Event

-- What a `LiveExecutor` changes: the calls made (newest first), its counter and what it logged.
pub record Executor : Type 0 where
  pub calls : List Call
  pub executed_count : ℕ
  pub events : List Event

-- The `for` loop over the steps: the calls made, the steps done, and whether none raised.
pub record Loop : Type 0 where
  pub calls : List Call
  pub steps : List StepEntry
  pub completed : Bool

unfoldable pub run_steps : Commander → ActionBounds → List Step → List Call → List StepEntry → Loop
run_steps commander b [] calls steps = record { calls = calls; steps = steps; completed = true }
run_steps commander b (s ∷ ss) calls steps =
    let rest = run_steps commander b ss (perform b s ∷ calls) (steps ++ done s ∷ []) in
    if commander calls (perform b s)
    then rest
    else record { calls = perform b s ∷ calls; steps = steps; completed = false }

abbrev outcome : Status → Bool → List StepEntry → Execution
outcome s p es = record { status = s; execution_performed = p; steps = es }

abbrev refusal : Status → Execution
refusal s = outcome s false []

abbrev log : Event → Executor → Executor
log e x = record x { events = x.events ++ e ∷ [] }

-- The handler after a step that raised stops the robot; where that call raises too, the exception
-- leaves the method and the result is `none`.
unfoldable pub after_failure :
    Commander
    → Loop
    → List StepEntry
    → Executor
    → (Execution → Event)
    → Option (Execution × Executor)
after_failure commander l entry x event =
    let e = outcome failed false (l.steps ++ entry) in
    if commander l.calls (plain zero_cmd_vel)
    then some (e, log (event e) (record x { calls = plain zero_cmd_vel ∷ l.calls }))
    else none

unfoldable pub safe_stop :
    Commander → ActionBounds → Bool → Executor → Option (Execution × Executor)
unfolding after_failure
safe_stop commander b enabled x =
    let l = run_steps commander b safe_stop_prefix x.calls [] in
    let e = outcome executed true l.steps in
    if not enabled
    then some (
      refusal refused_live_execution_locked,
      log (recovery_safe_stop (refusal refused_live_execution_locked)) x,
    )
    else if l.completed
    then some (e, log (recovery_safe_stop e) (record x { calls = l.calls }))
    else after_failure commander l [] x recovery_safe_stop

-- `sorted(...)` of the rejected names only orders the log entry, and is left out.
abbrev rejected_actions : Guards → List Action → List Action
rejected_actions guards [] = []
rejected_actions guards (a ∷ as') =
    let rest = rejected_actions guards as' in if (guards a).eligible then rest else a ∷ rest

unfoldable pub log_guard_rejections : Guards → Executor → Executor
log_guard_rejections guards x = log (recovery_guard_rejection (rejected_actions guards actions)) x

-- The part of `execute` behind its two refusals.
unfoldable pub execute_admitted :
    Commander → ActionBounds → Action → Executor → Option (Execution × Executor)
unfolding after_failure
execute_admitted commander b action x =
    let l = run_steps commander b (action_sequence action) x.calls [] in
    let e = outcome executed true l.steps in
    if l.completed
    then some (
      e,
      log (recovery_action_executed e)
          (record x { calls = l.calls; executed_count = x.executed_count + 1 }),
    )
    else after_failure commander l (zero_cmd_vel_after_failure ∷ []) x recovery_action_executed

unfoldable pub execute :
    Commander → ActionBounds → Bool → Decision → Executor → Option (Execution × Executor)
unfolding log_guard_rejections execute_admitted
execute commander b enabled d x =
    let y = log_guard_rejections d.guard_results x in
    let locked = refusal refused_live_execution_locked in
    let rejected = refusal refused_guard_rejected_action in
    if not enabled
    then some (locked, log (recovery_execution_refused locked) y)
    else if not (d.guard_results d.recommended_action).eligible
    then some (rejected, log (recovery_execution_refused rejected) y)
    else execute_admitted commander b d.recommended_action y
