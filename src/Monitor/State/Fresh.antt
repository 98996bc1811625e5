-- ===== src/Monitor/State/Fresh.antt =====
-- What the monitor has measured when the guard admits a motion (monitor_core.py,
-- src/recovery/guards.py).
use failure_prediction.Prelude.{ℕ, ◌+◌, ◌≤◌, ◌<◌, Bool, true, Option, none, some, ◌≡◌, refl, arith}
use failure_prediction.Prelude.Int.{abs}
use failure_prediction.Recovery.Types.{SignalGroup, GuardConfig, backup, spin_active_rescan, Action}
use failure_prediction.Recovery.Guards.{guard_table}
use failure_prediction.Recovery.Guards.Permitted.{Clear, Permitted, guard_table_sound}
use failure_prediction.Monitor.State.{
  WindowRow, Reading, Clearance, StateEstimatorConfig, measured_linear, measured_angular,
  is_stopped, clearance, estimate_robot_state,
}

-- The scan is at most its maximum age old, and showed at least `minimum`.
abbrev pub ScanShows : StateEstimatorConfig → ℕ → Clearance → ℕ → Type 0
ScanShows c now scan minimum =
    (t : ℕ) × (x : ℕ) × (scan ≡ some (t, some x))
    × (now ≤ t + c.scan_max_age_seconds)
    × (minimum ≤ x)

-- Both speeds were read, the linear one lately, and are below their thresholds.
abbrev pub OdomShowsRest : StateEstimatorConfig → WindowRow → Type 0
OdomShowsRest c row =
    (linear : Reading) × (angular : Reading) × (row measured_linear ≡ some linear)
    × (row measured_angular ≡ some angular)
    × (linear.age_seconds ≤ c.odom_max_age_seconds)
    × (abs linear.value < c.stopped_linear_mps)
    × (abs angular.value < c.stopped_angular_rads)

clearance-some :
    (c : StateEstimatorConfig) (now x : ℕ) (scan : Clearance)
    → clearance c.scan_max_age_seconds now scan ≡ some x
    → (t : ℕ) × (scan ≡ some (t, some x)) × (now ≤ t + c.scan_max_age_seconds)
clearance-some c now x none h = cc
clearance-some c now x (some (t, none)) h = absurd (ground arith)
clearance-some c now x (some (t, some y)) h = (t, ground arith, ground arith)

is_stopped-OdomShowsRest :
    (c : StateEstimatorConfig) (linear angular : Option Reading)
    → is_stopped c linear angular ≡ true
    → (l : Reading) × (a : Reading) × (linear ≡ some l)
      × (angular ≡ some a)
      × (l.age_seconds ≤ c.odom_max_age_seconds)
      × (abs l.value < c.stopped_linear_mps)
      × (abs a.value < c.stopped_angular_rads)
is_stopped-OdomShowsRest c none angular h = cc
is_stopped-OdomShowsRest c (some l) none h = cc
is_stopped-OdomShowsRest c (some l) (some a) h =
    (l, a, refl, refl, ground arith, ground arith, ground arith)

-- What stands behind an admitted motion.
abbrev pub MotionMeasured :
    StateEstimatorConfig → WindowRow → Clearance → Clearance → ℕ → GuardConfig → Action → Type 0
MotionMeasured c row rear rotation now config backup =
    OdomShowsRest c row × ScanShows c now rear config.minimum_rear_clearance_m
MotionMeasured c row rear rotation now config spin_active_rescan =
    OdomShowsRest c row × ScanShows c now rotation config.minimum_rotation_clearance_m
MotionMeasured c row rear rotation now config _ = Unit

Clear-measured :
    (c : StateEstimatorConfig) (row : WindowRow) (now minimum : ℕ) (scan : Clearance)
    → is_stopped c (row measured_linear) (row measured_angular) ≡ true
    → Clear (clearance c.scan_max_age_seconds now scan) minimum
    → OdomShowsRest c row × ScanShows c now scan minimum
Clear-measured c row now minimum scan stopped (x, e, enough) =
    let (t, shown, fresh) = clearance-some c now x scan e in
    (
      is_stopped-OdomShowsRest c (row measured_linear) (row measured_angular) stopped,
      (t, x, shown, fresh, enough),
    )

-- On the monitor's estimate the guard admits a backup or a spin only if the odometry showed the robot
-- at rest, and a scan that is not too old showed the clearance that the guard demands.
pub estimate_robot_state-MotionMeasured :
    (row : WindowRow) (diagnosed : SignalGroup) (rear rotation : Clearance) (now : ℕ)
    (c : StateEstimatorConfig) (available : Bool) (repeated : ℕ) (config : GuardConfig) (a : Action)
    → (guard_table
        (estimate_robot_state row diagnosed rear rotation now c available repeated)
        config
        a).eligible
      ≡ true
    → MotionMeasured c row rear rotation now config a
unfolding estimate_robot_state
estimate_robot_state-MotionMeasured row diagnosed rear rotation now c available repeated config
      backup h =
    let s = estimate_robot_state row diagnosed rear rotation now c available repeated in
    let p : Permitted s config backup = guard_table_sound s config backup h in
    Clear-measured c row now config.minimum_rear_clearance_m rear p.1 p.2
estimate_robot_state-MotionMeasured row diagnosed rear rotation now c available repeated config
      spin_active_rescan h =
    let s = estimate_robot_state row diagnosed rear rotation now c available repeated in
    let p : Permitted s config spin_active_rescan =
      guard_table_sound s config spin_active_rescan h in
    Clear-measured c row now config.minimum_rotation_clearance_m rotation p.1 p.2
estimate_robot_state-MotionMeasured row diagnosed rear rotation now c available repeated config _
      h =
    tt
