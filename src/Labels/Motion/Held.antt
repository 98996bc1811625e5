-- ===== src/Labels/Motion/Held.antt =====
-- The evidence behind an immobilisation (src/labels/operational_events.py).
use mathlib.Core.Path.{subst}
use failure_prediction.Prelude.{
  ℕ, ◌+◌, ◌*◌, ◌≤◌, Bool, true, false, Option, none, some, List, [], ◌∷◌, ◌≡◌, ◌≢◌, ◌⊎◌, inl, inr,
  refl, arith, if_either, zero, suc, leb,
}
use failure_prediction.Prelude.Result.{Result, ok, Result-cases}
use failure_prediction.Labels.Operational.{is_gap}
use failure_prediction.Labels.Motion.{
  MotionSample, MotionLimits, Position, Candidate, position_of, command_active, candidate_at,
  MotionError, Verdict, detected, continues, progressed, difference, judge, scan_motion,
  first_immobilisation,
}

abbrev pub Near : ℕ → MotionSample → List MotionSample → Type 0
Near maximum s [] = Unit
Near maximum s (o ∷ older) = s.timestamp ≤ o.timestamp + maximum

-- A sample at the candidate's time and position.
abbrev pub IsStart : Candidate → MotionSample → Type 0
IsStart c s = (s.timestamp ≡ c.time) × (position_of s ≡ ok c.position)

-- In a history, newest sample first: back to one at the candidate's time and position every sample
-- commands motion, lies within the maximum progress of that position, and follows the one before it
-- without a gap.
abbrev pub HeldFrom : MotionLimits → Candidate → List MotionSample → Type 0
HeldFrom l c [] = ⊥
HeldFrom l c (s ∷ older) =
    (command_active l s ≡ true)
    × ((p : Position) × (position_of s ≡ ok p) × (progressed l p c.position ≡ false))
    × (IsStart c s ⊎ (Near l.maximum_gap_seconds s older × HeldFrom l c older))

abbrev onto : List MotionSample → List MotionSample → List MotionSample
onto [] later = later
onto (s ∷ older) later = onto older (s ∷ later)

abbrev newest : List MotionSample → Option ℕ
newest [] = none
newest (s ∷ older) = some s.timestamp

abbrev IsHeld : MotionLimits → Option Candidate → List MotionSample → Type 0
IsHeld l none history = Unit
IsHeld l (some c) history = HeldFrom l c history

not_gap-Near :
    (maximum : ℕ) (s : MotionSample) (history : List MotionSample)
    → is_gap maximum (newest history) s.timestamp ≡ false
    → Near maximum s history
not_gap-Near maximum s [] h = tt
not_gap-Near maximum s (o ∷ older) h = ground arith

not_square : (n : ℕ) → n ≢ 0 → leb (n * n) 0 ≡ false
not_square zero h = absurd (h refl)
not_square (suc n) h = grind arith

stands_still :
    (l : MotionLimits) (p : Position) → l.maximum_progress_m ≢ 0 → progressed l p p ≡ false
stands_still l p h =
    let none_x : difference p.x p.x ≡ 0 = omega arith in
    let none_y : difference p.y p.y ≡ 0 = omega arith in
    rw (none_x, none_y) (not_square l.maximum_progress_m h)

-- What the history says of the candidate before the progress is measured.
abbrev IsFollowed : MotionLimits → Option Candidate → MotionSample → List MotionSample → Type 0
IsFollowed l none s history = Unit
IsFollowed l (some c) s history =
    (command_active l s ≡ true)
    × (IsStart c s ⊎ (Near l.maximum_gap_seconds s history × HeldFrom l c history))

candidate_at-IsFollowed :
    (l : MotionLimits) (candidate : Option Candidate) (s : MotionSample) (p : Position)
    (history : List MotionSample) (gap active : Bool)
    → position_of s ≡ ok p
    → is_gap l.maximum_gap_seconds (newest history) s.timestamp ≡ gap
    → command_active l s ≡ active
    → IsHeld l candidate history
    → IsFollowed l (candidate_at gap active candidate s.timestamp p) s history
candidate_at-IsFollowed l candidate s p history gap false q g e h = tt
candidate_at-IsFollowed l candidate s p history true true q g e h = (e, inl (refl, q))
candidate_at-IsFollowed l none s p history false true q g e h = (e, inl (refl, q))
candidate_at-IsFollowed l (some c) s p history false true q g e h =
    (e, inr (not_gap-Near l.maximum_gap_seconds s history g, h))

Verdict-cases : (v : Verdict) → (v ≡ detected) ⊎ ((c : Option Candidate) × (v ≡ continues c))
Verdict-cases detected = inl refl
Verdict-cases (continues c) = inr (c, refl)

-- The evidence that a verdict stands for.
abbrev Grounds : MotionLimits → MotionSample → List MotionSample → Verdict → Type 0
Grounds l s history (continues c) = IsHeld l c (s ∷ history)
Grounds l s history detected =
    (c : Candidate) × HeldFrom l c (s ∷ history) × (c.time + l.persistence_seconds ≤ s.timestamp)

judge-Grounds :
    (l : MotionLimits) (candidate : Option Candidate) (s : MotionSample) (p : Position)
    (history : List MotionSample)
    → l.maximum_progress_m ≢ 0
    → position_of s ≡ ok p
    → IsFollowed l candidate s history
    → Grounds l s history (judge l candidate s.timestamp p)
unfolding judge
judge-Grounds l none s p history n e h = tt
judge-Grounds l (some c) s p history n e (active, follows) =
    if_either (Grounds l s history) (progressed l p c.position)
      (λ _. (active, (p, e, stands_still l p n), inl (refl, e)))
      (λ near.
        if_either (Grounds l s history) (leb (c.time + l.persistence_seconds) s.timestamp)
          (λ long. (c, (active, (p, e, near), follows), ground arith))
          (λ _. (active, (p, e, near), follows)))

-- An immobilisation at `t` among `samples`: the samples up to one at `t`, and its evidence.
abbrev pub Immobilised : MotionLimits → ℕ → List MotionSample → Type 0
Immobilised l t samples =
    (s : MotionSample) × (older : List MotionSample) × (later : List MotionSample) × (onto
        (s ∷ older) later
      ≡ samples)
    × (s.timestamp ≡ t)
    × Grounds l s older detected

-- How the loop goes on from a verdict.
abbrev outcome :
    MotionLimits → MotionSample → List MotionSample → Verdict → Result MotionError (Option ℕ)
outcome l s ss v = elim v [
  | detected ↦ ok (some s.timestamp)
  | continues c ↦ scan_motion l c (some s.timestamp) ss
]

module _ (l : MotionLimits) (n : l.maximum_progress_m ≢ 0) where
  scan_motion-Immobilised :
      (candidate : Option Candidate) (history samples : List MotionSample) (t : ℕ)
      → IsHeld l candidate history
      → scan_motion l candidate (newest history) samples ≡ ok (some t)
      → Immobilised l t (onto history samples)
  unfolding scan_motion
  scan_motion-Immobilised candidate history [] t h e = cc
  scan_motion-Immobilised candidate history (s ∷ ss) t h e = elim (Result-cases (position_of s)) [
    | inr (x, q) ↦ let bad = rw q at e in ground arith
    | inl (p, q) ↦
        let gap = is_gap l.maximum_gap_seconds (newest history) s.timestamp in
        let next = candidate_at gap (command_active l s) candidate s.timestamp p in
        let follows =
          candidate_at-IsFollowed l candidate s p history gap (command_active l s) q refl refl h in
        let verdict = judge l next s.timestamp p in
        let grounds = judge-Grounds l next s p history n q follows in
        elim (Verdict-cases verdict) [
          | inl d ↦
              let found = subst (λ v. outcome l s ss v ≡ ok (some t)) d (rw q at e) in
              let same : s.timestamp ≡ t = ground arith in
              (s, history, ss, refl, same, subst (Grounds l s history) d grounds)
          | inr (c, d) ↦
              scan_motion-Immobilised c (s ∷ history) ss t (subst (Grounds l s history) d grounds)
                (subst (λ v. outcome l s ss v ≡ ok (some t)) d (rw q at e))
        ]
  ]

-- An immobilisation is reported only at the time of a sample up to which, for the whole persistence and
-- without a gap above the maximum, every sample commanded motion and lay within the maximum progress of
-- the first of them.
pub first_immobilisation-Immobilised :
    (l : MotionLimits) (samples : List MotionSample) (t : ℕ)
    → first_immobilisation samples l ≡ ok (some t)
    → Immobilised l t samples
unfolding first_immobilisation
first_immobilisation-Immobilised l samples t h =
    let found : scan_motion l none none samples ≡ ok (some t) = ground arith in
    let n : l.maximum_progress_m ≢ 0 = ground arith in
    scan_motion-Immobilised l n none [] samples t tt found
