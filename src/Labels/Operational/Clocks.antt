-- ===== src/Labels/Operational/Clocks.antt =====
-- The clocks of `first_localisation_loss` (src/labels/operational_events.py).
use mathlib.Core.Path.{subst}
use failure_prediction.Prelude.{
  ℕ, ◌≤◌, Bool, true, false, Option, none, some, List, [], ◌∷◌, ◌≡◌, inl, inr, refl, sym, arith,
  ◌∙◌, Bool-cases,
}
use failure_prediction.Prelude.Result.{ok}
use failure_prediction.Labels.Operational.{
  PoseErrorSample, Limits, is_gap, since, persists, validate_times, pose_times, not_later,
}
use failure_prediction.Labels.Operational.Evidence.{
  Close, RunsFrom, Persistent, IsTimed, newest, since-IsTimed,
}

-- The clock runs since the start of every run or earlier.
abbrev pub Covers : (PoseErrorSample → Bool) → ℕ → Option ℕ → List PoseErrorSample → Type 0
Covers exceeds maximum clock history =
    (start : ℕ) → RunsFrom exceeds maximum start history → (c : ℕ) × (clock ≡ some c) × (c ≤ start)

Close-not_gap :
    (maximum : ℕ) (s : PoseErrorSample) (history : List PoseErrorSample)
    → Close maximum s history
    → is_gap maximum (newest history) s.timestamp ≡ false
Close-not_gap maximum s [] h = refl
Close-not_gap maximum s (o ∷ older) h = ground arith

abbrev pub Early : Option ℕ → ℕ → Type 0
Early none t = Unit
Early (some c) t = c ≤ t

pub since-Early :
    (gap over : Bool) (clock : Option ℕ) (t : ℕ) → Early clock t → Early (since gap clock over t) t
since-Early gap false clock t h = tt
since-Early gap true none t h = omega arith
since-Early true true (some c) t h = omega arith
since-Early false true (some c) t h = h

Early-later : (clock : Option ℕ) (t u : ℕ) → t ≤ u → Early clock t → Early clock u
Early-later none t u h e = tt
Early-later (some c) t u h e = omega (arith, h, e)

since-Covers :
    (exceeds : PoseErrorSample → Bool) (maximum : ℕ) (clock : Option ℕ) (s : PoseErrorSample)
    (history : List PoseErrorSample) (gap over : Bool)
    → is_gap maximum (newest history) s.timestamp ≡ gap
    → exceeds s ≡ over
    → Early clock s.timestamp
    → Covers exceeds maximum clock history
    → Covers exceeds maximum (since gap clock over s.timestamp) (s ∷ history)
since-Covers exceeds maximum clock s history gap false g e b h start run =
    let bad = sym e ∙ run.0 in ground arith
since-Covers exceeds maximum none s history gap true g e b h start (_, inl same) =
    (s.timestamp, refl, omega (arith, same))
since-Covers exceeds maximum none s history gap true g e b h start (_, inr (close, run)) =
    let (c, bad, _) = h start run in ground arith
since-Covers exceeds maximum (some t) s history true true g e b h start (_, inl same) =
    (s.timestamp, refl, omega (arith, same))
since-Covers exceeds maximum (some t) s history true true g e b h start (_, inr (close, run)) =
    let bad = sym g ∙ Close-not_gap maximum s history close in ground arith
since-Covers exceeds maximum (some t) s history false true g e b h start (_, inl same) =
    (t, refl, omega (arith, same, b))
since-Covers exceeds maximum (some t) s history false true g e b h start (_, inr (close, run)) =
    h start run

pub not_persists :
    (exceeds : PoseErrorSample → Bool) (l : Limits) (clock : Option ℕ) (t : ℕ)
    (history : List PoseErrorSample)
    → Covers exceeds l.maximum_gap_seconds clock history
    → persists l.persistence_seconds clock t ≡ false
    → ¬ Persistent exceeds l t history
not_persists exceeds l none t history h p (start, run, long) =
    let (c, bad, _) = h start run in ground arith
not_persists exceeds l (some u) t history h p (start, run, long) =
    let (c, same, early) = h start run in ground arith

-- What the scan knows of the clock of a channel.
abbrev pub Sound : (PoseErrorSample → Bool) → ℕ → Option ℕ → List PoseErrorSample → Type 0
Sound exceeds maximum clock history =
    IsTimed exceeds maximum clock history × Covers exceeds maximum clock history

pub since-Sound :
    (exceeds : PoseErrorSample → Bool) (maximum : ℕ) (clock : Option ℕ) (s : PoseErrorSample)
    (history : List PoseErrorSample)
    → Early clock s.timestamp
    → Sound exceeds maximum clock history
    → Sound exceeds maximum
        (since (is_gap maximum (newest history) s.timestamp) clock (exceeds s) s.timestamp)
        (s ∷ history)
since-Sound exceeds maximum clock s history b (timed, covers) =
    let gap = is_gap maximum (newest history) s.timestamp in
    (
      since-IsTimed exceeds maximum clock s history gap (exceeds s) refl refl timed,
      since-Covers exceeds maximum clock s history gap (exceeds s) refl refl b covers,
    )

abbrev pub Follows : Option ℕ → List PoseErrorSample → Type 0
Follows previous [] = Unit
Follows previous (s ∷ ss) =
    ((not_later s.timestamp previous) ≡ false) × Follows (some s.timestamp) ss

pub validate_times-Follows :
    (previous : Option ℕ) (samples : List PoseErrorSample)
    → validate_times previous (pose_times samples) ≡ ok tt
    → Follows previous samples
unfolding validate_times
validate_times-Follows previous [] h = tt
validate_times-Follows previous (s ∷ ss) h = elim (Bool-cases (not_later s.timestamp previous)) [
  | inl e ↦ let bad = rw e at h in ground arith
  | inr e ↦ (e, validate_times-Follows (some s.timestamp) ss (rw e at h))
]

abbrev pub EarlyAll : Option ℕ → List PoseErrorSample → Type 0
EarlyAll clock [] = clock ≡ none
EarlyAll clock (s ∷ older) = Early clock s.timestamp

pub Early-next :
    (clock : Option ℕ) (history : List PoseErrorSample) (s : PoseErrorSample)
    → EarlyAll clock history
    → not_later s.timestamp (newest history) ≡ false
    → Early clock s.timestamp
Early-next clock [] s e h = subst (λ c. Early c s.timestamp) (sym e) tt
Early-next clock (o ∷ older) s e h = Early-later clock o.timestamp s.timestamp (ground arith) e
