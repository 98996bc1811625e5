-- ===== src/Monitor/State.antt =====
-- `estimate_robot_state` of ros_ws/src/failure_monitor/failure_monitor/monitor_core.py. Readings are
-- integers and times natural numbers in fixed units. A clearance that is not finite is none.
pub mod Fresh
use failure_prediction.Prelude.{
  ℕ, ◌+◌, Bool, true, false, not, Option, none, some, ◌&&◌, ◌||◌, leb, ltb, if◌then◌else◌,
}
use failure_prediction.Prelude.Int.{ℤ, pos, abs, ltb_ℤ, leb_ℤ}
use failure_prediction.Recovery.Types.{
  RobotState, SignalGroup, localisation, planning, frontal_blockage, perception,
  transient_obstruction, unknown, unrecognised,
}

-- The channels of the last enriched row that the estimate reads.
pub data Channel : Type 0 where
  measured_linear measured_angular pose_covariance_trace global_path_length : Channel
  replan_rate minimum_front_range : Channel

-- A channel that is not missing, with its age.
pub record Reading : Type 0 where
  pub value : ℤ
  pub age_seconds : ℕ

-- `none` is a missing channel.
abbrev pub WindowRow : Type 0
WindowRow = Channel → Option Reading

-- The newest scan's clearance with the scan's time, `none` before the first scan.
abbrev pub Clearance : Type 0
Clearance = Option (ℕ × Option ℕ)

pub record StateEstimatorConfig : Type 0 where
  pub stopped_linear_mps : ℕ
  pub stopped_angular_rads : ℕ
  pub localisation_poor_covariance_trace : ℤ
  pub planning_stale_replan_rate_per_s : ℤ
  pub immediate_collision_front_range_m : ℤ
  pub transient_obstruction_front_range_m : ℤ
  pub scan_max_age_seconds : ℕ
  pub odom_max_age_seconds : ℕ

abbrev pub observed : Option Reading → Bool
observed none = false
observed (some r) = true

-- The two speeds, and the age of the first of them.
abbrev pub is_stopped : StateEstimatorConfig → Option Reading → Option Reading → Bool
is_stopped c none angular = false
is_stopped c (some linear) none = false
is_stopped c (some linear) (some angular) =
    leb linear.age_seconds c.odom_max_age_seconds
    && (ltb (abs linear.value) c.stopped_linear_mps
        && ltb (abs angular.value) c.stopped_angular_rads)

abbrev is_localisation : SignalGroup → Bool
is_localisation localisation = true
is_localisation _ = false

abbrev is_planning : SignalGroup → Bool
is_planning planning = true
is_planning _ = false

abbrev is_frontal_blockage : SignalGroup → Bool
is_frontal_blockage frontal_blockage = true
is_frontal_blockage _ = false

-- `not observed(name) or value(name) > threshold`
abbrev missing_or_above : Option Reading → ℤ → Bool
missing_or_above none threshold = true
missing_or_above (some r) threshold = ltb_ℤ threshold r.value

abbrev at_least : Option Reading → ℤ → Bool
at_least none threshold = false
at_least (some r) threshold = leb_ℤ threshold r.value

-- `front_known and value("minimum_front_range") < threshold`
abbrev front_below : Option Reading → ℤ → Bool
front_below none threshold = false
front_below (some r) threshold = ltb_ℤ (pos 0) r.value && ltb_ℤ r.value threshold

-- `clearance(name)`
abbrev pub clearance : ℕ → ℕ → Clearance → Option ℕ
clearance maximum now none = none
clearance maximum now (some (t, measured)) = if ltb (t + maximum) now then none else measured

unfoldable pub estimate_robot_state :
    WindowRow
    → SignalGroup
    → Clearance
    → Clearance
    → ℕ
    → StateEstimatorConfig
    → Bool
    → ℕ
    → RobotState
estimate_robot_state row diagnosed rear rotation now c relocalisation_available repeated = record {
  stopped = is_stopped c (row measured_linear) (row measured_angular);
  stop_allowed = true;
  localisation_poor =
      is_localisation diagnosed
      || missing_or_above (row pose_covariance_trace) c.localisation_poor_covariance_trace;
  planning_stale_or_blocked =
      is_planning diagnosed
      || (not (observed (row global_path_length))
          || at_least (row replan_rate) c.planning_stale_replan_rate_per_s);
  rear_clearance_m = clearance c.scan_max_age_seconds now rear;
  rotation_clearance_m = clearance c.scan_max_age_seconds now rotation;
  immediate_collision_risk =
      front_below (row minimum_front_range) c.immediate_collision_front_range_m;
  obstruction_may_be_transient =
      is_frontal_blockage diagnosed
      && front_below (row minimum_front_range) c.transient_obstruction_front_range_m;
  relocalisation_available = relocalisation_available;
  repeated_recovery_count = repeated;
}
