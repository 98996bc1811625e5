-- ===== src/Labels/Examples.antt =====
-- Tests and concrete runs for the labels.
use failure_prediction.Prelude.{
  ℕ, true, false, some, none, List, [], ◌∷◌, ◌++◌, Option, ◌≡◌, refl, All,
}
use failure_prediction.Prelude.Result.{ok}
use failure_prediction.Labels.Windows.{
  LabelConfig, Event, Record, validate, times_from, decision_times, primary_terminal_event, time_of,
  event_times, eligibility_of, negative_eligibility, record_at, records_of, label_decision_times,
}
use failure_prediction.Prelude.Int.{negsuc}
use failure_prediction.Labels.Operational.{
  PoseErrorSample, Limits, validate_times, scan_poses, first_localisation_loss,
}
use failure_prediction.Labels.Windows.Judged.{IsJudged, label_decision_times-IsJudged}
use failure_prediction.Labels.Windows.Primary.{IsPrimary, primary_terminal_event-IsPrimary}

-- Half seconds: history 5 s, horizon 10 s, guards 1 s and 20 s, a decision each 5 s.
abbrev config : LabelConfig
config = record {
  history_seconds = 10;
  warning_horizon_seconds = 20;
  too_late_guard_seconds = 2;
  negative_guard_seconds = 40;
  decision_stride_seconds = 10;
}

abbrev event_at : ℕ → ℕ → Event
event_at t class = record { time = t; class = class; terminal = true }

abbrev events : List Event
events = event_at 75 2 ∷ (record { time = 60; class = 3; terminal = false }) ∷ event_at 75 1 ∷ []

tie_broken : primary_terminal_event (1 ∷ 2 ∷ []) events ≡ some (event_at 75 1)
unfolding primary_terminal_event
tie_broken = refl

times : decision_times 0 80 10 10 ≡ 10 ∷ 20 ∷ 30 ∷ 40 ∷ 50 ∷ 60 ∷ 70 ∷ 80 ∷ []
unfolding decision_times times_from
times = refl

abbrev records : List Record
records =
    records_of config (primary_terminal_event (1 ∷ 2 ∷ []) events) (event_times events ++ 5 ∷ []) 0
      (decision_times 0 80 10 10)

abbrev labels : List Record → List (Option ℕ)
labels [] = []
labels (r ∷ rs) = r.label ∷ labels rs

-- No decision is 20 s away from the injection and both kinds of events, so none is labelled 0.
labels_of_records : labels records ≡ none ∷ none ∷ none ∷ none ∷ none ∷ some 1 ∷ some 1 ∷ none ∷ []
unfolding primary_terminal_event decision_times times_from records_of record_at eligibility_of
    negative_eligibility
labels_of_records = refl

labelled : label_decision_times 0 80 events (5 ∷ []) (1 ∷ 2 ∷ []) config ≡ ok records
unfolding label_decision_times validate
labelled = refl

label_decision_times-IsJudged_example :
    All
      (IsJudged config 0 80
        (time_of (primary_terminal_event (1 ∷ 2 ∷ []) events))
        (event_times events ++ 5 ∷ []))
      records
label_decision_times-IsJudged_example =
    label_decision_times-IsJudged 0 80 events (5 ∷ []) (1 ∷ 2 ∷ []) config records labelled

primary_terminal_event-IsPrimary_example :
    IsPrimary (1 ∷ 2 ∷ []) events (primary_terminal_event (1 ∷ 2 ∷ []) events)
primary_terminal_event-IsPrimary_example = primary_terminal_event-IsPrimary (1 ∷ 2 ∷ []) events

abbrev pose : ℕ → ℕ → PoseErrorSample
pose t error = record { timestamp = t; translation_error_m = error; yaw_error_rad = negsuc 9 }

abbrev limits : Limits
limits = record {
  translation_threshold_m = 50;
  yaw_threshold_rad = 50;
  persistence_seconds = 20;
  maximum_gap_seconds = 25;
}

-- The sample at 30 does not exceed the threshold and restarts the clock.
abbrev poses : List PoseErrorSample
poses = pose 10 60 ∷ pose 20 60 ∷ pose 30 50 ∷ pose 40 51 ∷ pose 60 70 ∷ pose 61 0 ∷ []

loss_at_60 : first_localisation_loss poses limits ≡ ok (some 60)
unfolding first_localisation_loss validate_times scan_poses
loss_at_60 = refl

-- A gap breaks the evidence.
no_loss_over_gap : first_localisation_loss (pose 10 60 ∷ pose 36 60 ∷ []) limits ≡ ok none
unfolding first_localisation_loss validate_times scan_poses
no_loss_over_gap = refl
