-- ===== src/Alarm/Examples.antt =====
-- Tests and concrete runs for the alarm policy.
use failure_prediction.Prelude.{ℕ, none, List, [], ◌∷◌, ◌≡◌, refl, arith}
use failure_prediction.Prelude.Result.{ok, err}
use failure_prediction.Alarm.Policy.{
  AlarmPolicy, rows_not_ordered, Row, Output, validate, output_of, next_state, apply_from,
  apply_alarm_policy, score_all,
}
use failure_prediction.Alarm.Cooldown.{alarm_times, Spaced, apply_alarm_policy-Spaced}
use failure_prediction.Alarm.Window.{reference, Increasing, apply_alarm_policy-reference}
use failure_prediction.Alarm.Replay.{score_all-replay}

abbrev policy : AlarmPolicy
policy = record {
  threshold = 500;
  required_above = 2;
  decisions_considered = 3;
  cooldown_seconds = 10;
}

abbrev at : ℕ → ℕ → Row
at t score = record { decision_time = t; risk_score = score }

-- The third row is the first with three decisions; the next alarm waits for the cooldown.
abbrev rows : List Row
rows = at 1 600 ∷ at 2 400 ∷ at 3 700 ∷ at 8 900 ∷ at 13 800 ∷ at 14 100 ∷ []

abbrev outputs : List Output
outputs = reference policy [] [] rows

policy_valid : validate policy ≡ ok tt
unfolding validate
policy_valid = refl

alarms_of_rows : alarm_times outputs ≡ 3 ∷ 13 ∷ []
alarms_of_rows = refl

returns_outputs : apply_alarm_policy rows policy ≡ ok outputs
unfolding apply_alarm_policy apply_from output_of next_state validate
returns_outputs = refl

refuses_disorder : apply_alarm_policy (at 2 600 ∷ at 2 600 ∷ []) policy ≡ err rows_not_ordered
unfolding apply_alarm_policy apply_from output_of next_state validate
refuses_disorder = refl

apply_alarm_policy-Spaced_example : Spaced policy.cooldown_seconds (alarm_times outputs)
apply_alarm_policy-Spaced_example = apply_alarm_policy-Spaced rows policy outputs returns_outputs

rows-Increasing : Increasing none rows
rows-Increasing =
    (tt, (omega arith, (omega arith, (omega arith, (omega arith, (omega arith, tt))))))

apply_alarm_policy-reference_example :
    apply_alarm_policy rows policy ≡ ok (reference policy [] [] rows)
apply_alarm_policy-reference_example =
    apply_alarm_policy-reference rows policy policy_valid rows-Increasing

score_all-replay_example : score_all policy [] rows ≡ ok outputs
score_all-replay_example = score_all-replay rows policy outputs policy_valid returns_outputs
