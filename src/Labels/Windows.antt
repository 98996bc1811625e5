-- ===== src/Labels/Windows.antt =====
-- src/labels/causal_windows.py: the label of each decision time of an episode. Times are natural
-- numbers of one unit; a difference is written as a sum on the other side, so nothing is cut off at 0.
pub mod Times
pub mod Judged
pub mod Primary
use failure_prediction.Prelude.{
  ℕ, zero, suc, ◌+◌, ◌*◌, Bool, true, false, not, Option, none, some, List, [], ◌∷◌, ◌&&◌, ◌||◌,
  leb, ltb, ◌==◌, if◌then◌else◌, ◌++◌, ◌-◌,
}
use failure_prediction.Prelude.Result.{Result, ok, err, raise_if, ◌>>=◌, ◌>>◌}

pub record LabelConfig : Type 0 where
  pub history_seconds : ℕ
  pub warning_horizon_seconds : ℕ
  pub too_late_guard_seconds : ℕ
  pub negative_guard_seconds : ℕ
  pub decision_stride_seconds : ℕ

pub data Error : Type 0 where
  history_not_positive horizon_within_guard guard_not_positive stride_not_positive : Error
  end_before_start : Error

-- `LabelConfig.validate`
unfoldable pub validate : LabelConfig → Result Error (Unit {0})
validate c = do
  raise_if (c.history_seconds == 0) history_not_positive
  raise_if (leb c.warning_horizon_seconds c.too_late_guard_seconds) horizon_within_guard
  raise_if (c.too_late_guard_seconds == 0 || c.negative_guard_seconds == 0) guard_not_positive
  raise_if (c.decision_stride_seconds == 0) stride_not_positive

-- The loop of `_decision_times`, on fuel.
unfoldable pub times_from : ℕ → ℕ → ℕ → ℕ → List ℕ
times_from zero final step current = []
times_from (suc n) final step current =
    let rest = times_from n final step (current + step) in
    if leb current final then current ∷ rest else []

-- `_decision_times`; a stride of at least one unit leaves no more rounds than `final` allows.
unfoldable pub decision_times : ℕ → ℕ → ℕ → ℕ → List ℕ
decision_times start final history stride = times_from (suc final) final stride (start + history)

-- An annotated event; classes are only compared.
pub record Event : Type 0 where
  pub time : ℕ
  pub class : ℕ
  pub terminal : Bool

-- `{name: index for index, name in enumerate(precedence)}.get(class)`: a later index overwrites.
abbrev last_index : Option ℕ → Bool → ℕ → Option ℕ
last_index (some later) hit index = some later
last_index none hit index = if hit then some index else none

abbrev pub rank_in : ℕ → ℕ → List ℕ → Option ℕ
rank_in class index [] = none
rank_in class index (name ∷ names) =
    last_index (rank_in class (suc index) names) (class == name) index

abbrev mem : ℕ → List ℕ → Bool
mem k [] = false
mem k (x ∷ xs) = k == x || mem k xs

-- `len(rank)`
abbrev pub rank_count : List ℕ → ℕ
rank_count [] = 0
rank_count (name ∷ names) = let rest = rank_count names in if mem name names then rest else suc rest

abbrev or_count : Option ℕ → ℕ → ℕ
or_count none count = count
or_count (some index) count = index

abbrev pub rank_of : List ℕ → Event → ℕ
rank_of precedence e = or_count (rank_in e.class 0 precedence) (rank_count precedence)

-- The order of the key `(time, rank)`.
abbrev pub comes_before : List ℕ → Event → Event → Bool
comes_before precedence e best =
    ltb e.time best.time
    || ((e.time == best.time) && ltb (rank_of precedence e) (rank_of precedence best))

abbrev pub earlier : List ℕ → Event → Option Event → Event
earlier precedence best none = best
earlier precedence best (some e) = if comes_before precedence e best then e else best

-- `_primary_terminal_event`: of two events with equal keys the earlier in the list stays.
unfoldable pub primary_terminal_event : List ℕ → List Event → Option Event
primary_terminal_event precedence [] = none
primary_terminal_event precedence (e ∷ events) =
    let rest = primary_terminal_event precedence events in
    if e.terminal then some (earlier precedence e rest) else rest

pub data Eligibility : Type 0 where
  excluded_post_event excluded_too_late eligible_positive eligible_negative : Eligibility
  excluded_near_event_or_injection : Eligibility

-- `abs(decision_time - protected_time) >= guard` for all protected times
abbrev pub all_far : ℕ → ℕ → List ℕ → Bool
all_far guard t [] = true
all_far guard t (p ∷ ps) = (leb (p + guard) t || leb (t + guard) p) && all_far guard t ps

abbrev pub event_times : List Event → List ℕ
event_times [] = []
event_times (e ∷ es) = e.time ∷ event_times es

-- The last two branches.
unfoldable pub negative_eligibility : LabelConfig → List ℕ → ℕ → Eligibility
negative_eligibility c guards t =
    if all_far c.negative_guard_seconds t guards
    then eligible_negative
    else excluded_near_event_or_injection

unfoldable pub eligibility_of : LabelConfig → Option ℕ → List ℕ → ℕ → Eligibility
unfolding negative_eligibility
eligibility_of c none guards t = negative_eligibility c guards t
eligibility_of c (some event) guards t =
    if ltb event t
    then excluded_post_event
    else if ltb event (t + c.too_late_guard_seconds) && leb t event
    then excluded_too_late
    else if leb event (t + c.warning_horizon_seconds) && leb (t + c.too_late_guard_seconds) event
    then eligible_positive
    else negative_eligibility c guards t

abbrev pub label_for : Eligibility → Option ℕ
label_for eligible_positive = some 1
label_for eligible_negative = some 0
label_for _ = none

pub record Record : Type 0 where
  pub decision_index : ℕ
  pub decision_time : ℕ
  pub window_start : ℕ
  pub window_end : ℕ
  pub label : Option ℕ
  pub eligibility : Eligibility
  pub primary_event : Option Event

abbrev pub time_of : Option Event → Option ℕ
time_of none = none
time_of (some e) = some e.time

-- A decision time is at least the history after the start, so the window's start is exact.
unfoldable pub record_at : LabelConfig → Option Event → List ℕ → ℕ → ℕ → Record
record_at c primary guards index t = record {
  decision_index = index;
  decision_time = t;
  window_start = t - c.history_seconds;
  window_end = t;
  label = label_for (eligibility_of c (time_of primary) guards t);
  eligibility = eligibility_of c (time_of primary) guards t;
  primary_event = primary;
}

unfoldable pub records_of : LabelConfig → Option Event → List ℕ → ℕ → List ℕ → List Record
records_of c primary guards index [] = []
records_of c primary guards index (t ∷ ts) =
    record_at c primary guards index t ∷ records_of c primary guards (suc index) ts

unfoldable pub label_decision_times :
    ℕ → ℕ → List Event → List ℕ → List ℕ → LabelConfig → Result Error (List Record)
unfolding validate
label_decision_times start end events onsets precedence c = do
  validate c
  raise_if (ltb end start) end_before_start
  ok (
      records_of c (primary_terminal_event precedence events) (event_times events ++ onsets) 0
        (decision_times start end c.history_seconds c.decision_stride_seconds))
