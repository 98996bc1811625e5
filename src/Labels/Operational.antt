-- ===== src/Labels/Operational.antt =====
-- src/labels/operational_events.py: the detector of localisation loss. Times and errors are counted in
-- fixed units; a yaw error is signed.
pub mod Evidence
pub mod Clocks
pub mod First
use failure_prediction.Prelude.{
  ℕ, ◌+◌, ◌-◌, Bool, true, false, not, Option, none, some, List, [], ◌∷◌, ◌&&◌, ◌||◌, leb, ltb,
  ◌==◌, if◌then◌else◌,
}
use failure_prediction.Prelude.Int.{ℤ, abs}
use failure_prediction.Prelude.Result.{Result, ok, err, raise_if, ◌>>=◌, ◌>>◌}

pub record PoseErrorSample : Type 0 where
  pub timestamp : ℕ
  pub translation_error_m : ℕ
  pub yaw_error_rad : ℤ

pub data Error : Type 0 where
  not_increasing not_positive : Error

-- `timestamp <= previous`, with -inf before the first sample.
abbrev pub not_later : ℕ → Option ℕ → Bool
not_later t none = false
not_later t (some previous) = leb t previous

-- `_validate_times`
unfoldable pub validate_times : Option ℕ → List ℕ → Result Error (Unit {0})
validate_times previous [] = ok tt
validate_times previous (t ∷ ts) =
    raise_if (not_later t previous) not_increasing >> validate_times (some t) ts

pub record Limits : Type 0 where
  pub translation_threshold_m : ℕ
  pub yaw_threshold_rad : ℕ
  pub persistence_seconds : ℕ
  pub maximum_gap_seconds : ℕ

abbrev pub translation_exceeds : Limits → PoseErrorSample → Bool
translation_exceeds l s = ltb l.translation_threshold_m s.translation_error_m

abbrev pub yaw_exceeds : Limits → PoseErrorSample → Bool
yaw_exceeds l s = ltb l.yaw_threshold_rad (abs s.yaw_error_rad)

-- `t - previous_time > maximum_gap_seconds`, after the times were validated.
abbrev pub is_gap : ℕ → Option ℕ → ℕ → Bool
is_gap maximum none t = false
is_gap maximum (some previous) t = ltb (previous + maximum) t

-- The clock of one channel after a sample.
abbrev pub since : Bool → Option ℕ → Bool → ℕ → Option ℕ
since gap clock false t = none
since gap none true t = some t
since true (some s) true t = some t
since false (some s) true t = some s

-- `since is not None and t - since >= persistence`
abbrev pub persists : ℕ → Option ℕ → ℕ → Bool
persists persistence none t = false
persists persistence (some s) t = leb (s + persistence) t

-- The loop, by its clocks and the previous time.
unfoldable pub scan_poses :
    Limits → Option ℕ → Option ℕ → Option ℕ → List PoseErrorSample → Option ℕ
scan_poses l translation yaw previous [] = none
scan_poses l translation yaw previous (s ∷ ss) =
    let gap = is_gap l.maximum_gap_seconds previous s.timestamp in
    let translation' = since gap translation (translation_exceeds l s) s.timestamp in
    let yaw' = since gap yaw (yaw_exceeds l s) s.timestamp in
    let rest = scan_poses l translation' yaw' (some s.timestamp) ss in
    if persists l.persistence_seconds translation' s.timestamp
    then some s.timestamp
    else if persists l.persistence_seconds yaw' s.timestamp
    then some s.timestamp
    else rest

abbrev pub pose_times : List PoseErrorSample → List ℕ
pose_times [] = []
pose_times (s ∷ ss) = s.timestamp ∷ pose_times ss

unfoldable pub first_localisation_loss : List PoseErrorSample → Limits → Result Error (Option ℕ)
unfolding validate_times
first_localisation_loss samples l = do
  validate_times none (pose_times samples)
  raise_if
      (l.translation_threshold_m == 0
        || l.yaw_threshold_rad == 0
        || l.persistence_seconds == 0
        || l.maximum_gap_seconds == 0)
      not_positive
  ok (scan_poses l none none none samples)
