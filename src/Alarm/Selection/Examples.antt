-- ===== src/Alarm/Selection/Examples.antt =====
-- A mission that fails, one that fails with faint scores, and a clean one (src/evaluation/policy.py).
use Prim.Native.String.{String}
use failure_prediction.Prelude.{ℕ, false, none, some, List, [], ◌∷◌, ◌≡◌, refl, arith}
use failure_prediction.Prelude.Result.{Result, ok, err}
use failure_prediction.Labels.Windows.{eligible_positive, eligible_negative}
use failure_prediction.Alarm.Policy.{one, apply_alarm_policy, validate, next_state}
use failure_prediction.Alarm.Metrics.{evaluate_event_warnings}
use failure_prediction.Alarm.Selection.{
  LabelledRow, Episodes, Settings, Error, no_clean_missions, Candidate, evaluate, is_feasible,
  outranked, select_validation_threshold, round_div, candidates_of,
}
use failure_prediction.Alarm.Selection.Optimal.{Allowed, select_validation_threshold-outranked}

abbrev positive : ℕ → ℕ → LabelledRow
positive t score = record {
  row = record { decision_time = t; risk_score = score };
  eligibility = eligible_positive;
  primary_event_time = some 60;
}

abbrev negative : ℕ → ℕ → LabelledRow
negative t score = record {
  row = record { decision_time = t; risk_score = score };
  eligibility = eligible_negative;
  primary_event_time = none;
}

abbrev episodes : Episodes
episodes =
    ("clean", negative 10 200_000_000 ∷ negative 20 400_000_000 ∷ [])
    ∷ ("failing", positive 10 300_000_000 ∷ positive 20 700_000_000 ∷ positive 30 900_000_000 ∷ [])
    ∷ ("faint", positive 10 300_000_000 ∷ [])
    ∷ []

abbrev settings : ℕ → Settings
settings budget = record {
  false_alert_budget = budget;
  required_above = 1;
  decisions_considered = 1;
  cooldown_seconds = 0;
  maximum_candidates = 1001;
}

abbrev from_result : Result Error Candidate → Candidate → Candidate
from_result (ok c) default = c
from_result (err e) default = default

abbrev nothing : Candidate
nothing = record {
  threshold = 0;
  clean_alerts = 0;
  metrics = record {
    episode_count = 0;
    event_count = 0;
    detected_event_count = 0;
    false_alert_count = 0;
    non_event_mission_count = 0;
    false_alerts_non_event = 0;
    median_useful_lead_doubled = none;
    per_episode = [];
  };
}

abbrev clean : List String
clean = "clean" ∷ []

abbrev selected : ℕ → Candidate
unfolding select_validation_threshold
selected budget = from_result (select_validation_threshold (settings budget) episodes clean) nothing

-- Without a budget the threshold leaves the clean mission in peace; a budget of two finds the faint failure.
selected_without_budget : (selected 0).threshold ≡ 700_000_000
unfolding selected apply_alarm_policy validate next_state evaluate_event_warnings
selected_without_budget = refl

selected_with_budget : (selected 2_000_000_000).threshold ≡ 300_000_000
unfolding selected apply_alarm_policy validate next_state evaluate_event_warnings
selected_with_budget = refl

-- A threshold between two scores.
abbrev between : Candidate
unfolding evaluate
between = from_result (evaluate (settings 0) episodes clean 650_000_000) nothing

select_validation_threshold-outranked_example :
    Allowed (settings 0) episodes clean (selected 0) × (outranked (selected 0) between ≡ false)
unfolding selected between select_validation_threshold evaluate is_feasible apply_alarm_policy
    validate next_state evaluate_event_warnings
select_validation_threshold-outranked_example =
    select_validation_threshold-outranked (settings 0) episodes clean (selected 0) between refl refl
      (omega arith) (refl, refl)

no_clean : select_validation_threshold (settings 0) episodes [] ≡ err no_clean_missions
unfolding select_validation_threshold
no_clean = refl

-- Python's rounding of halves: 0.5, 1.5 and 2.5.
halves : (round_div 1 2 ≡ 0) × (round_div 3 2 ≡ 2) × (round_div 5 2 ≡ 2)
unfolding round_div
halves = (refl, refl, refl)

-- Two scores and three candidates: the greater score is none of them.
score_left_out : candidates_of (200_000_000 ∷ 400_000_000 ∷ []) 3 ≡ 0 ∷ 200_000_000 ∷ one ∷ []
unfolding candidates_of
score_left_out = refl
