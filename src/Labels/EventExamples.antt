-- ===== src/Labels/EventExamples.antt =====
-- Tests and concrete runs for the event detectors.
use Prim.Native.String.{String}
use failure_prediction.Prelude.{ℕ, true, some, none, List, [], ◌∷◌, ◌≡◌, refl}
use failure_prediction.Prelude.Int.{ℤ, pos, negsuc}
use failure_prediction.Prelude.Result.{ok}
use failure_prediction.Labels.Operational.{
  PoseErrorSample, Limits, validate_times, scan_poses, first_localisation_loss,
}
use failure_prediction.Labels.Operational.First.{IsFirst, first_localisation_loss-IsFirst}
use failure_prediction.Labels.Motion.{
  MotionSample, MotionLimits, position_of, command_active, judge, scan_motion, first_immobilisation,
}
use failure_prediction.Labels.Motion.Held.{Immobilised, first_immobilisation-Immobilised}
use failure_prediction.Labels.Precedence.{
  PerceptionSafetySample, first_unsafe_perception, EventTime, no_event, at_time, min_from, min_of,
  available, first_primary_event,
}
use failure_prediction.Labels.Precedence.Earliest.{IsEarliest, first_primary_event-IsEarliest}

abbrev pose : ℕ → ℕ → PoseErrorSample
pose t error = record { timestamp = t; translation_error_m = 10; yaw_error_rad = negsuc error }

abbrev limits : Limits
limits = record {
  translation_threshold_m = 50;
  yaw_threshold_rad = 50;
  persistence_seconds = 20;
  maximum_gap_seconds = 25;
}

abbrev poses : List PoseErrorSample
poses = pose 10 60 ∷ pose 20 20 ∷ pose 30 55 ∷ pose 49 52 ∷ pose 50 70 ∷ pose 61 80 ∷ []

yaw_loss_at_50 : first_localisation_loss poses limits ≡ ok (some 50)
unfolding first_localisation_loss validate_times scan_poses
yaw_loss_at_50 = refl

first_localisation_loss-IsFirst_example : IsFirst limits [] poses (some 50)
first_localisation_loss-IsFirst_example =
    first_localisation_loss-IsFirst limits poses (some 50) yaw_loss_at_50

-- Tenths of a second and centimetres.
abbrev motion : ℕ → ℤ → ℕ → MotionSample
motion t speed x = record {
  timestamp = t;
  commanded_linear_speed_mps = speed;
  odom_x_m = some (pos x);
  odom_y_m = some (negsuc 4);
}

abbrev motion_limits : MotionLimits
motion_limits = record {
  command_threshold_mps = 5;
  maximum_progress_m = 50;
  persistence_seconds = 10;
  maximum_gap_seconds = 5;
}

-- The sample at 4 has progressed by 50 and starts a new interval.
abbrev motions : List MotionSample
motions =
    motion 0 (pos 20) 0
    ∷ motion 4 (pos 20) 50
    ∷ motion 8 (negsuc 19) 30
    ∷ motion 12 (pos 5) 99
    ∷ motion 14 (pos 20) 60
    ∷ []

immobile_at_14 : first_immobilisation motions motion_limits ≡ ok (some 14)
unfolding first_immobilisation validate_times scan_motion position_of command_active judge
immobile_at_14 = refl

idle_robot :
    first_immobilisation
      (motion 0 (pos 4) 0 ∷ motion 5 (pos 4) 0 ∷ motion 10 (pos 4) 0 ∷ [])
      motion_limits
    ≡ ok none
unfolding first_immobilisation validate_times scan_motion position_of command_active judge
idle_robot = refl

first_immobilisation-Immobilised_example : Immobilised motion_limits 14 motions
first_immobilisation-Immobilised_example =
    first_immobilisation-Immobilised motion_limits motions 14 immobile_at_14

abbrev seen : ℕ → ℕ → PerceptionSafetySample
seen t distance = record {
  timestamp = t;
  obstacle_distance_from_footprint_m = pos distance;
  critical_obstacle_missed = true;
  emergency_intervention = true;
}

unsafe_at_2 : first_unsafe_perception (seen 1 43 ∷ seen 2 42 ∷ seen 3 0 ∷ []) 42 ≡ ok (some 2)
unfolding first_unsafe_perception validate_times
unsafe_at_2 = refl

abbrev event_times : List (String × EventTime)
event_times =
    ("immobilisation", at_time 70)
    ∷ ("collision", no_event)
    ∷ ("unsafe_perception", at_time 40)
    ∷ ("localisation_loss", at_time 40)
    ∷ []

abbrev precedence : List String
precedence = "collision" ∷ "localisation_loss" ∷ "unsafe_perception" ∷ []

chosen_event : first_primary_event event_times precedence ≡ ok (some ("localisation_loss", 40))
unfolding first_primary_event available min_of min_from
chosen_event = refl

first_primary_event-IsEarliest_example :
    IsEarliest precedence event_times (some ("localisation_loss", 40))
first_primary_event-IsEarliest_example =
    first_primary_event-IsEarliest event_times precedence (some ("localisation_loss", 40))
      chosen_event
