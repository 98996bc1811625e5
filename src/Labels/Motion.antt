-- ===== src/Labels/Motion.antt =====
-- src/labels/operational_events.py: the detectors of immobilisation and of unsafe perception. Times and
-- distances are counted in fixed units; a coordinate is `none` where it is not finite.
pub mod Held
use failure_prediction.Prelude.{
  ℕ, ◌+◌, ◌-◌, ◌*◌, Bool, true, false, not, Option, none, some, List, [], ◌∷◌, ◌&&◌, ◌||◌, leb,
  ◌==◌, if◌then◌else◌,
}
use failure_prediction.Prelude.Int.{ℤ, abs, pos_part, neg_part}
use failure_prediction.Prelude.Result.{Result, ok, err, raise_if, ◌>>=◌, ◌>>◌}
use failure_prediction.Labels.Operational.{
  Error, not_increasing, not_positive, validate_times, is_gap,
}

pub record MotionSample : Type 0 where
  pub timestamp : ℕ
  pub commanded_linear_speed_mps : ℤ
  pub odom_x_m : Option ℤ
  pub odom_y_m : Option ℤ

pub record MotionLimits : Type 0 where
  pub command_threshold_mps : ℕ
  pub maximum_progress_m : ℕ
  pub persistence_seconds : ℕ
  pub maximum_gap_seconds : ℕ

pub record Position : Type 0 where
  pub x : ℤ
  pub y : ℤ

-- `candidate_time` and `candidate_position`, which are set and cleared together.
pub record Candidate : Type 0 where
  pub time : ℕ
  pub position : Position

pub data MotionError : Type 0 where
  in_times : Error → MotionError
  not_finite limits_not_positive : MotionError

abbrev pub difference : ℤ → ℤ → ℕ
difference a b =
    let p = pos_part a + neg_part b in let q = pos_part b + neg_part a in (p - q) + (q - p)

-- The square of `math.dist`.
abbrev pub squared_distance : Position → Position → ℕ
squared_distance p q =
    difference p.x q.x * difference p.x q.x + difference p.y q.y * difference p.y q.y

abbrev finite_position : Option ℤ → Option ℤ → Result MotionError Position
finite_position none y = err not_finite
finite_position (some x) none = err not_finite
finite_position (some x) (some y) = ok record { x = x; y = y }

unfoldable pub position_of : MotionSample → Result MotionError Position
position_of s = finite_position s.odom_x_m s.odom_y_m

unfoldable pub command_active : MotionLimits → MotionSample → Bool
command_active l s = leb l.command_threshold_mps (abs s.commanded_linear_speed_mps)

-- The candidate when the progress is measured.
abbrev pub candidate_at : Bool → Bool → Option Candidate → ℕ → Position → Option Candidate
candidate_at gap false candidate t p = none
candidate_at true true candidate t p = some record { time = t; position = p }
candidate_at false true none t p = some record { time = t; position = p }
candidate_at false true (some c) t p = some c

pub data Verdict : Type 0 where
  detected : Verdict
  continues : Option Candidate → Verdict

-- `progress >= maximum_progress_m`
abbrev pub progressed : MotionLimits → Position → Position → Bool
progressed l p q = leb (l.maximum_progress_m * l.maximum_progress_m) (squared_distance p q)

unfoldable pub judge : MotionLimits → Option Candidate → ℕ → Position → Verdict
judge l none t p = continues none
judge l (some c) t p =
    if progressed l p c.position
    then continues (some record { time = t; position = p })
    else if leb (c.time + l.persistence_seconds) t
    then detected
    else continues (some c)

-- The loop, by its candidate and the previous time.
unfoldable pub scan_motion :
    MotionLimits → Option Candidate → Option ℕ → List MotionSample → Result MotionError (Option ℕ)
unfolding position_of command_active judge
scan_motion l candidate previous [] = ok none
scan_motion l candidate previous (s ∷ ss) = position_of s >>= λ p.
    let gap = is_gap l.maximum_gap_seconds previous s.timestamp in
    elim (judge l (candidate_at gap (command_active l s) candidate s.timestamp p) s.timestamp p) [
      | detected ↦ ok (some s.timestamp)
      | continues c ↦ scan_motion l c (some s.timestamp) ss
    ]

abbrev motion_times : List MotionSample → List ℕ
motion_times [] = []
motion_times (s ∷ ss) = s.timestamp ∷ motion_times ss

abbrev of_times : Result Error (Unit {0}) → Result MotionError (Unit {0})
of_times (err e) = err (in_times e)
of_times (ok x) = ok tt

unfoldable pub first_immobilisation :
    List MotionSample → MotionLimits → Result MotionError (Option ℕ)
unfolding validate_times scan_motion
first_immobilisation samples l =
    of_times (validate_times none (motion_times samples))
    >> raise_if
        (l.command_threshold_mps == 0
          || l.maximum_progress_m == 0
          || l.persistence_seconds == 0
          || l.maximum_gap_seconds == 0)
        limits_not_positive
    >> scan_motion l none none samples
