-- ===== src/Labels/Operational/Evidence.antt =====
-- The evidence behind a localisation loss (src/labels/operational_events.py).
use failure_prediction.Prelude.{
  ℕ, ◌+◌, ◌≤◌, Bool, true, false, Option, none, some, List, [], ◌∷◌, ◌≡◌, ◌⊎◌, inl, inr, refl,
  arith, if_either,
}
use failure_prediction.Prelude.Result.{ok}
use failure_prediction.Labels.Operational.{
  PoseErrorSample, Limits, translation_exceeds, yaw_exceeds, is_gap, since, persists, scan_poses,
  first_localisation_loss,
}

-- The sample is at most `maximum` later than the one before it, if there is one.
abbrev pub Close : ℕ → PoseErrorSample → List PoseErrorSample → Type 0
Close maximum s [] = Unit
Close maximum s (o ∷ older) = s.timestamp ≤ o.timestamp + maximum

-- In a history, newest sample first: all samples back to one at time `t` exceed the threshold, and
-- none of them comes more than `maximum` after the one before it.
abbrev pub RunsFrom : (PoseErrorSample → Bool) → ℕ → ℕ → List PoseErrorSample → Type 0
RunsFrom exceeds maximum t [] = ⊥
RunsFrom exceeds maximum t (s ∷ older) =
    (exceeds s ≡ true)
    × ((s.timestamp ≡ t) ⊎ (Close maximum s older × RunsFrom exceeds maximum t older))

-- The samples of a history, oldest first, before those that follow.
abbrev pub onto : List PoseErrorSample → List PoseErrorSample → List PoseErrorSample
onto [] later = later
onto (s ∷ older) later = onto older (s ∷ later)

-- A clock that runs, runs since the start of a run.
abbrev pub IsTimed : (PoseErrorSample → Bool) → ℕ → Option ℕ → List PoseErrorSample → Type 0
IsTimed exceeds maximum none history = Unit
IsTimed exceeds maximum (some t) history = RunsFrom exceeds maximum t history

abbrev pub newest : List PoseErrorSample → Option ℕ
newest [] = none
newest (s ∷ older) = some s.timestamp

not_gap-Close :
    (maximum : ℕ) (s : PoseErrorSample) (history : List PoseErrorSample)
    → is_gap maximum (newest history) s.timestamp ≡ false
    → Close maximum s history
not_gap-Close maximum s [] h = tt
not_gap-Close maximum s (o ∷ older) h = ground arith

pub since-IsTimed :
    (exceeds : PoseErrorSample → Bool) (maximum : ℕ) (clock : Option ℕ) (s : PoseErrorSample)
    (history : List PoseErrorSample) (gap over : Bool)
    → is_gap maximum (newest history) s.timestamp ≡ gap
    → exceeds s ≡ over
    → IsTimed exceeds maximum clock history
    → IsTimed exceeds maximum (since gap clock over s.timestamp) (s ∷ history)
since-IsTimed exceeds maximum clock s history gap false g e h = tt
since-IsTimed exceeds maximum none s history gap true g e h = (e, inl refl)
since-IsTimed exceeds maximum (some t) s history true true g e h = (e, inl refl)
since-IsTimed exceeds maximum (some t) s history false true g e h =
    (e, inr (not_gap-Close maximum s history g, h))

-- Continuous evidence up to the newest sample of a history, for the whole persistence.
abbrev pub Persistent : (PoseErrorSample → Bool) → Limits → ℕ → List PoseErrorSample → Type 0
Persistent exceeds l t history =
    (start : ℕ) × RunsFrom exceeds l.maximum_gap_seconds start history
    × (start + l.persistence_seconds ≤ t)

pub persists-Persistent :
    (exceeds : PoseErrorSample → Bool) (l : Limits) (clock : Option ℕ) (t : ℕ)
    (history : List PoseErrorSample)
    → IsTimed exceeds l.maximum_gap_seconds clock history
    → persists l.persistence_seconds clock t ≡ true
    → Persistent exceeds l t history
persists-Persistent exceeds l none t history h p = cc
persists-Persistent exceeds l (some start) t history h p = (start, h, ground arith)

-- A detection at `t` among `samples`: the samples up to one at `t`, and its evidence.
abbrev pub Detected : Limits → ℕ → List PoseErrorSample → Type 0
Detected l t samples =
    (s : PoseErrorSample) × (older : List PoseErrorSample) × (later : List PoseErrorSample) × (onto
        (s ∷ older) later
      ≡ samples)
    × (s.timestamp ≡ t)
    × (Persistent (translation_exceeds l) l t (s ∷ older)
        ⊎ Persistent (yaw_exceeds l) l t (s ∷ older))

module _ (l : Limits) where
  scan_poses-Detected :
      (translation yaw : Option ℕ) (history samples : List PoseErrorSample) (t : ℕ)
      → IsTimed (translation_exceeds l) l.maximum_gap_seconds translation history
      → IsTimed (yaw_exceeds l) l.maximum_gap_seconds yaw history
      → scan_poses l translation yaw (newest history) samples ≡ some t
      → Detected l t (onto history samples)
  unfolding scan_poses
  scan_poses-Detected translation yaw history [] t ht hy h = cc
  scan_poses-Detected translation yaw history (s ∷ ss) t ht hy h =
      let gap = is_gap l.maximum_gap_seconds (newest history) s.timestamp in
      let translation' = since gap translation (translation_exceeds l s) s.timestamp in
      let yaw' = since gap yaw (yaw_exceeds l s) s.timestamp in
      let ht' =
        since-IsTimed (translation_exceeds l) l.maximum_gap_seconds translation s history gap
          (translation_exceeds l s) refl refl ht in
      let hy' =
        since-IsTimed (yaw_exceeds l) l.maximum_gap_seconds yaw s history gap (yaw_exceeds l s) refl
          refl hy in
      if_either (λ r. r ≡ some t → Detected l t (onto history (s ∷ ss)))
        (persists l.persistence_seconds translation' s.timestamp)
        (λ p e.
          let q : s.timestamp ≡ t = ground arith in
          (
            s,
            history,
            ss,
            refl,
            q,
            inl (
                rw⁻¹ q (
                  persists-Persistent (translation_exceeds l) l translation' s.timestamp
                    (s ∷ history) ht' p)),
          ))
        (λ _.
          if_either (λ r. r ≡ some t → Detected l t (onto history (s ∷ ss)))
            (persists l.persistence_seconds yaw' s.timestamp)
            (λ p e.
              let q : s.timestamp ≡ t = ground arith in
              (
                s,
                history,
                ss,
                refl,
                q,
                inr (
                    rw⁻¹ q
                      (persists-Persistent (yaw_exceeds l) l yaw' s.timestamp (s ∷ history) hy' p)),
              ))
            (λ _ e. scan_poses-Detected translation' yaw' (s ∷ history) ss t ht' hy' e))
        h

  -- A localisation loss is reported only at the time of a sample up to which one channel, without a
  -- break and without a gap above the maximum, exceeded its threshold for the whole persistence.
  pub first_localisation_loss-Detected :
      (samples : List PoseErrorSample) (t : ℕ)
      → first_localisation_loss samples l ≡ ok (some t)
      → Detected l t samples
  unfolding first_localisation_loss
  first_localisation_loss-Detected samples t h =
      scan_poses-Detected none none [] samples t tt tt (ground arith)
