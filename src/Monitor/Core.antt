-- ===== src/Monitor/Core.antt =====
-- `MonitorCore.step` of ros_ws/src/failure_monitor/failure_monitor/monitor_core.py, with the grid of
-- `WindowBuilder`: at each due grid point a decision is scored, and an alarm becomes a warning. The
-- calibrated risk of the model, the diagnosed group, the last enriched row and the newest clearances
-- at a grid point are parameters, as is whether the extraction and the model return there; the latency
-- records are left out.
pub mod Replayed
pub mod Numbered
use failure_prediction.Prelude.{
  ℕ, zero, suc, ◌+◌, ◌-◌, ◌*◌, Bool, true, false, not, Option, none, some, List, [], ◌∷◌, ◌++◌,
  ◌&&◌, ◌==◌, leb, take, ltb, if◌then◌else◌, length,
}
use failure_prediction.Prelude.Result.{Result, ok, err, raise_if, ◌>>=◌, ◌>>◌}
use failure_prediction.Recovery.Types.{RobotState, SignalGroup}
use failure_prediction.Alarm.Policy.{AlarmPolicy, Error, Row, Output, score}
use failure_prediction.Monitor.State.{
  WindowRow, Clearance, StateEstimatorConfig, estimate_robot_state,
}

-- `extracts` tells of each grid point whether `_raw_row` and `_enrich_last` return, and `scores` whether
-- the model and the diagnosis do.
pub record Setup : Type 0 where
  pub steps : ℕ
  pub stride : ℕ
  pub policy : AlarmPolicy
  pub state_config : StateEstimatorConfig
  pub relocalisation_available : Bool
  pub has_scorer : Bool
  pub extracts : ℕ → Bool
  pub scores : ℕ → Bool
  pub risk : ℕ → ℕ
  pub diagnosed : ℕ → SignalGroup
  pub enriched : ℕ → WindowRow
  pub rear : ℕ → Clearance
  pub rotation : ℕ → Clearance

-- What `step` raises.
pub data StepError : Type 0 where
  not_consecutive outside_history no_scorer : StepError
  no_extraction no_score : ℕ → StepError
  in_policy : Error → StepError

abbrev pub of_policy : Result Error Output → Result StepError Output
of_policy (err e) = err (in_policy e)
of_policy (ok o) = ok o

-- An entry of `alarms`: the number in its warning id, and the state sent with it.
pub record Alarm : Type 0 where
  pub number : ℕ
  pub decision_time : ℕ
  pub group : SignalGroup
  pub state : RobotState

-- An entry of `decisions`: its indices and what the policy said.
pub record Decision : Type 0 where
  pub grid_index : ℕ
  pub decision_index : ℕ
  pub output : Output

-- `rows` is the list of the scorer, `tail` the decision times of `enriched_tail`, newest first.
pub record Core : Type 0 where
  pub grid_start : Option ℕ
  pub next_grid_index : ℕ
  pub tail : List ℕ
  pub rows : List Row
  pub decisions : List Decision
  pub alarms : List Alarm

abbrev pub idle : Core
idle = record {
  grid_start = none;
  next_grid_index = 1;
  tail = [];
  rows = [];
  decisions = [];
  alarms = [];
}

-- `mission_started`; a second start is ignored.
abbrev start_at : ℕ → Option ℕ → Option ℕ
start_at t none = some t
start_at t (some s) = some s

unfoldable pub mission_started : ℕ → Core → Core
mission_started t core = record core { grid_start = start_at t core.grid_start }

-- `grid_time`: the sum of `index` strides.
abbrev pub grid_time : ℕ → ℕ → ℕ → ℕ
grid_time start stride index = start + stride * index

-- The loop of `due_grid_times`, on fuel.
unfoldable pub due_from : ℕ → ℕ → ℕ → ℕ → ℕ → List (ℕ × ℕ)
due_from zero start stride now index = []
due_from (suc n) start stride now index =
    let rest = due_from n start stride now (suc index) in
    if ltb now (grid_time start stride index)
    then []
    else (index, grid_time start stride index) ∷ rest

-- `due_grid_times`; with a stride of at least one unit there are at most `now` due points.
abbrev pub due_since : Option ℕ → ℕ → ℕ → ℕ → List (ℕ × ℕ)
due_since none stride now index = []
due_since (some start) stride now index = due_from (suc now) start stride now index

unfoldable pub due_grid_times : Setup → Core → ℕ → List (ℕ × ℕ)
unfolding due_from
due_grid_times u core now = due_since core.grid_start u.stride now core.next_grid_index

abbrev pub row_at : Setup → ℕ → ℕ → Row
row_at u index t = record { decision_time = t; risk_score = u.risk index }

-- The alarm of a decision, numbered and with the estimated state.
unfoldable pub alarm_of : Setup → ℕ → ℕ → List Alarm → Alarm
alarm_of u index t alarms = record {
  number = length alarms + 1;
  decision_time = t;
  group = u.diagnosed index;
  state =
      estimate_robot_state (u.enriched index) (u.diagnosed index) (u.rear index) (u.rotation index)
        t u.state_config u.relocalisation_available (length alarms);
}

unfoldable pub with_alarm : Setup → ℕ → ℕ → Output → List Alarm → List Alarm
unfolding alarm_of
with_alarm u index t o alarms = if o.alarm then alarms ++ alarm_of u index t alarms ∷ [] else alarms

-- The part of the body of `step` behind a complete window.
unfoldable pub record_decision : Setup → ℕ → ℕ → Output → Core → Core
unfolding with_alarm
record_decision u index t o core = record core {
  rows = core.rows ++ row_at u index t ∷ [];
  decisions =
      core.decisions
      ++ (record { grid_index = index; decision_index = index - u.steps; output = o }) ∷ [];
  alarms = with_alarm u index t o core.alarms;
}

-- What `advance` leaves: the tail is a deque of `steps` rows.
unfoldable pub advanced : Setup → ℕ → ℕ → Core → Core
advanced u index t core = record core {
  next_grid_index = suc index;
  tail = take u.steps (t ∷ core.tail);
}

-- `all(lower < float(row["decision_time"]) <= decision_time for row in window)`
abbrev pub all_within : ℕ → ℕ → List ℕ → Bool
all_within history t [] = true
all_within history t (s ∷ times) = ltb t (s + history) && leb s t && all_within history t times

-- The part of the body of `step` for a tail of `steps` rows; the history is that many strides.
unfoldable pub scored : Setup → ℕ → ℕ → Core → Result StepError Core
unfolding record_decision
scored u index t core =
    raise_if (not (all_within (u.stride * u.steps) t core.tail)) outside_history
    >> raise_if (not u.has_scorer) no_scorer
    >> raise_if (not (u.scores index)) (no_score index)
    >> of_policy (score u.policy core.rows (row_at u index t))
    >>= λ o. ok (record_decision u index t o core)

-- The body of `step` for one grid point.
unfoldable pub step_one : Setup → ℕ → ℕ → Core → Result StepError Core
unfolding advanced scored
step_one u index t core =
    let core' = advanced u index t core in
    let complete = scored u index t core' in
    raise_if (not (index == core.next_grid_index)) not_consecutive
    >> raise_if (not (u.extracts index)) (no_extraction index)
    >> (if ltb (length core'.tail) u.steps then ok core' else complete)

unfoldable pub step_all : Setup → List (ℕ × ℕ) → Core → Result StepError Core
step_all u [] core = ok core
step_all u ((index, t) ∷ due) core = step_one u index t core >>= step_all u due

unfoldable pub step : Setup → ℕ → Core → Result StepError Core
unfolding step_all
step u now core = step_all u (due_grid_times u core now) core

-- The calls of the node's timer.
unfoldable pub run : Setup → List ℕ → Core → Result StepError Core
run u [] core = ok core
run u (now ∷ nows) core = step u now core >>= run u nows

abbrev pub outputs_of : List Decision → List Output
outputs_of [] = []
outputs_of (d ∷ ds) = d.output ∷ outputs_of ds
