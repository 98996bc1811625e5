-- ===== src/Labels/Windows/Judged.antt =====
-- What the label of a decision time says (src/labels/causal_windows.py).
use failure_prediction.Prelude.{
  ℕ, suc, ◌+◌, ◌≤◌, ◌<◌, true, Option, none, some, List, [], ◌∷◌, ◌++◌, ◌≡◌, ◌↔◌, refl, arith, All,
  ◌⊎◌,
}
use failure_prediction.Prelude.Result.{ok}
use failure_prediction.Labels.Windows.Times.{decision_times-Grid, Grid-within}
use failure_prediction.Labels.Windows.{
  Record, record_at, records_of, time_of, label_decision_times, decision_times, LabelConfig, Event,
  primary_terminal_event, event_times, all_far, eligibility_of, label_for,
}

-- The primary event lies ahead, no nearer than the guard and no further than the horizon.
abbrev pub Precedes : LabelConfig → Option ℕ → ℕ → Type 0
Precedes c none t = ⊥
Precedes c (some event) t =
    (t + c.too_late_guard_seconds ≤ event) × (event ≤ t + c.warning_horizon_seconds)

-- Every protected time is at least the guard away.
abbrev pub Far : ℕ → ℕ → List ℕ → Type 0
Far guard t guards = All (λ p. (p + guard ≤ t) ⊎ (t + guard ≤ p)) guards

all_far-Far : (guard t : ℕ) (ps : List ℕ) → all_far guard t ps ≡ true → Far guard t ps
all_far-Far guard t [] h = tt
all_far-Far guard t (p ∷ ps) h = (ground arith, all_far-Far guard t ps (ground arith))

Far-all_far : (guard t : ℕ) (ps : List ℕ) → Far guard t ps → all_far guard t ps ≡ true
Far-all_far guard t [] h = refl
Far-all_far guard t (p ∷ ps) (h, k) = ground (arith, Far-all_far guard t ps k)

pub label_positive :
    (c : LabelConfig) (event : Option ℕ) (guards : List ℕ) (t : ℕ)
    → (label_for (eligibility_of c event guards t) ≡ some 1) ↔ Precedes c event t
unfolding eligibility_of
label_positive c none guards t = (λ h. ground arith, λ h. elim h [ ])
label_positive c (some event) guards t = (λ h. ground arith, λ h. ground arith)

-- The primary event lies further ahead than the horizon, or there is none.
abbrev pub Beyond : LabelConfig → Option ℕ → ℕ → Type 0
Beyond c none t = Unit
Beyond c (some event) t = t + c.warning_horizon_seconds < event

pub label_negative :
    (c : LabelConfig) (event : Option ℕ) (guards : List ℕ) (t : ℕ)
    → c.too_late_guard_seconds < c.warning_horizon_seconds
    → (label_for (eligibility_of c event guards t) ≡ some 0)
      ↔ (Beyond c event t × Far c.negative_guard_seconds t guards)
unfolding eligibility_of
label_negative c none guards t order = (
  λ h. (tt, all_far-Far c.negative_guard_seconds t guards (ground arith)),
  λ h. ground (arith, Far-all_far c.negative_guard_seconds t guards h.1),
)
label_negative c (some event) guards t order = (
  λ h. (ground arith, all_far-Far c.negative_guard_seconds t guards (ground arith)),
  λ h. ground (arith, Far-all_far c.negative_guard_seconds t guards h.1, h.0),
)

-- What a record says of its decision time.
abbrev pub IsJudged : LabelConfig → ℕ → ℕ → Option ℕ → List ℕ → Record → Type 0
IsJudged c start end event guards r =
    (start + c.history_seconds ≤ r.decision_time)
    × (r.decision_time ≤ end)
    × (r.window_start + c.history_seconds ≡ r.decision_time)
    × (r.window_end ≡ r.decision_time)
    × ((r.label ≡ some 1) ↔ Precedes c event r.decision_time)
    × ((r.label ≡ some 0)
        ↔ (Beyond c event r.decision_time × Far c.negative_guard_seconds r.decision_time guards))

records_of-IsJudged :
    (c : LabelConfig) (start end : ℕ) (primary : Option Event) (guards : List ℕ) (index : ℕ)
    (ts : List ℕ)
    → c.too_late_guard_seconds < c.warning_horizon_seconds
    → All (λ t. (start + c.history_seconds ≤ t) × (t ≤ end)) ts
    → All (IsJudged c start end (time_of primary) guards) (records_of c primary guards index ts)
unfolding records_of record_at
records_of-IsJudged c start end primary guards index [] order h = tt
records_of-IsJudged c start end primary guards index (t ∷ ts) order ((low, high), h) = (
  (
    low,
    high,
    omega (arith, low),
    refl,
    label_positive c (time_of primary) guards t,
    label_negative c (time_of primary) guards t order,
  ),
  records_of-IsJudged c start end primary guards (suc index) ts order h,
)

-- Where the labels of an episode are made, every record's window is the history before its decision
-- time and lies within the episode, it is labelled 1 exactly if the primary event lies ahead between
-- the guard and the horizon, and 0 exactly if the primary event lies beyond the horizon, if there is
-- one, and every event and injection is at least the negative guard away.
pub label_decision_times-IsJudged :
    (start end : ℕ) (events : List Event) (onsets precedence : List ℕ) (c : LabelConfig)
    (records : List Record)
    → label_decision_times start end events onsets precedence c ≡ ok records
    → All
        (IsJudged c start end
          (time_of (primary_terminal_event precedence events))
          (event_times events ++ onsets))
        records
unfolding label_decision_times
label_decision_times-IsJudged start end events onsets precedence c records h =
    let order : c.too_late_guard_seconds < c.warning_horizon_seconds = ground arith in
    let stride : 1 ≤ c.decision_stride_seconds = ground arith in
    let grid = decision_times-Grid start end c.history_seconds c.decision_stride_seconds stride in
    let primary = primary_terminal_event precedence events in
    let same : records
        ≡ records_of c primary (event_times events ++ onsets) 0
            (decision_times start end c.history_seconds c.decision_stride_seconds) =
      ground arith in
    rw same (
      records_of-IsJudged c start end primary (event_times events ++ onsets) 0
        (decision_times start end c.history_seconds c.decision_stride_seconds) order
        (Grid-within end c.decision_stride_seconds (start + c.history_seconds)
          (decision_times start end c.history_seconds c.decision_stride_seconds) grid))
