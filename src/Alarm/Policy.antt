-- ===== src/Alarm/Policy.antt =====
-- src/evaluation/policy.py: threshold, persistence and cooldown over the decisions of one episode;
-- and `Scorer.score` of ros_ws/src/failure_monitor/failure_monitor/monitor_core.py, which replays it.
-- Times, scores and durations are natural numbers in fixed units; `none` stands for -inf.
use failure_prediction.Prelude.{
  ℕ, suc, ◌-◌, Bool, true, false, Option, none, some, List, [], ◌∷◌, ◌++◌, ◌&&◌, ◌||◌, ltb, leb,
  ◌==◌, if◌then◌else◌, length, take,
}
use failure_prediction.Prelude.Result.{Result, ok, err, raise_if, ◌>>=◌, ◌>>◌}

pub record AlarmPolicy : Type 0 where
  pub threshold : ℕ
  pub required_above : ℕ
  pub decisions_considered : ℕ
  pub cooldown_seconds : ℕ

pub data Error : Type 0 where
  threshold_out_of_range invalid_persistence rows_not_ordered no_rows : Error

-- Scores are counted in parts of `one`.
abbrev pub one : ℕ
one = 1_000_000_000

-- `AlarmPolicy.validate`; a negative threshold or cooldown has no representation.
unfoldable pub validate : AlarmPolicy → Result Error (Unit {0})
validate p = do
  raise_if (ltb one p.threshold) threshold_out_of_range
  raise_if (ltb p.required_above 1 || ltb p.decisions_considered p.required_above)
      invalid_persistence

pub record Row : Type 0 where
  pub decision_time : ℕ
  pub risk_score : ℕ

-- A row of the output: the source row with its two flags.
pub record Output : Type 0 where
  pub source : Row
  pub alarm : Bool
  pub persistent : Bool

-- The variables of the loop. `history` is the deque, newest decision first.
pub record State : Type 0 where
  pub history : List Bool
  pub last_alarm : Option ℕ
  pub previous_time : Option ℕ

abbrev pub count_true : List Bool → ℕ
count_true [] = 0
count_true (b ∷ bs) = let rest = count_true bs in if b then suc rest else rest

-- `decision_time <= previous_time`
abbrev pub not_after : ℕ → Option ℕ → Bool
not_after t none = false
not_after t (some previous) = leb t previous

-- `decision_time - last_alarm >= cooldown`; no alarm lies in the future, so the difference is exact.
abbrev pub cooled : ℕ → ℕ → Option ℕ → Bool
cooled cooldown t none = true
cooled cooldown t (some last) = leb cooldown (t - last)

-- `history.append(…)` on a deque of bounded length
abbrev pub append_bounded : ℕ → Bool → List Bool → List Bool
append_bounded n b history = take n (b ∷ history)

abbrev pub is_persistent : AlarmPolicy → List Bool → Bool
is_persistent p history =
    (length history == p.decisions_considered) && leb p.required_above (count_true history)

abbrev pub is_above : AlarmPolicy → Row → Bool
is_above p row = leb p.threshold row.risk_score

-- The row that the body of the loop outputs, and the state that it leaves.
unfoldable pub output_of : AlarmPolicy → State → Row → Output
output_of p st row =
    let history = append_bounded p.decisions_considered (is_above p row) st.history in
    record {
      source = row;
      alarm = is_persistent p history && cooled p.cooldown_seconds row.decision_time st.last_alarm;
      persistent = is_persistent p history;
    }

unfoldable pub next_state : AlarmPolicy → State → Row → State
unfolding output_of
next_state p st row = record {
  history = append_bounded p.decisions_considered (is_above p row) st.history;
  last_alarm = if (output_of p st row).alarm then some row.decision_time else st.last_alarm;
  previous_time = some row.decision_time;
}

unfoldable pub apply_from : AlarmPolicy → State → List Row → Result Error (List Output)
apply_from p st [] = ok []
apply_from p st (row ∷ rows) =
    let rest = apply_from p (next_state p st row) rows in
    if not_after row.decision_time st.previous_time
    then err rows_not_ordered
    else rest >>= λ outputs. ok (output_of p st row ∷ outputs)

abbrev pub initial : State
initial = record { history = []; last_alarm = none; previous_time = none }

unfoldable pub apply_alarm_policy : List Row → AlarmPolicy → Result Error (List Output)
unfolding apply_from
apply_alarm_policy rows p = validate p >> apply_from p initial rows

-- `[-1]`
unfoldable pub last_output : List Output → Result Error Output
last_output [] = err no_rows
last_output (o ∷ []) = ok o
last_output (o ∷ o' ∷ os) = last_output (o' ∷ os)

-- `Scorer.score`, from the calibrated risk on: the row is kept, and the policy is replayed over all
-- the rows of the stream.
unfoldable pub score : AlarmPolicy → List Row → Row → Result Error Output
unfolding last_output
score p seen row = apply_alarm_policy (seen ++ row ∷ []) p >>= last_output

-- The outputs of a stream that is scored row by row.
unfoldable pub score_all : AlarmPolicy → List Row → List Row → Result Error (List Output)
unfolding score
score_all p seen [] = ok []
score_all p seen (row ∷ rows) = do
  o ← score p seen row
  os ← score_all p (seen ++ row ∷ []) rows
  ok (o ∷ os)
