-- ===== src/Monitor/Buffer.antt =====
-- `SampleBuffer` of ros_ws/src/failure_monitor/failure_monitor/monitor_core.py. A number that may not
-- be finite is an option. Which features a message carries is left to the messages.
pub mod Drops
pub mod Sorted
use Prim.Native.String.{String}
use text.Mathlib.Text.{◌==◌ as str_eq}
use failure_prediction.Prelude.{
  ℕ, ◌+◌, Bool, true, false, not, Option, none, some, List, [], ◌∷◌, ◌++◌, ◌||◌, leb, ltb,
  if◌then◌else◌,
}
use failure_prediction.Prelude.Int.{ℤ}
use failure_prediction.Monitor.Causal.{ScalarSample, FeatureSpec, Samples}

pub record Entry : Type 0 where
  pub sources : List String
  pub max_age_seconds : ℕ

-- The raw feature contract, a dictionary in the order of its keys.
abbrev pub Contract : Type 0
Contract = List (String × Entry)

abbrev pub entry_of : Contract → String → Option Entry
entry_of [] name = none
entry_of ((key, e) ∷ contract) name =
    let rest = entry_of contract name in if str_eq key name then some e else rest

abbrev pub contains : String → List String → Bool
contains k [] = false
contains k (x ∷ xs) = str_eq k x || contains k xs

pub record SampleBuffer : Type 0 where
  pub samples : Samples
  pub sources : String → Option String
  pub dropped_out_of_order : ℕ
  pub dropped_unknown : ℕ
  pub dropped_mixed_source : ℕ
  pub received : ℕ

-- The outcomes of `add`.
pub data Verdict : Type 0 where
  unknown mixed_source not_finite out_of_order : Verdict
  accepted : ScalarSample → Verdict

-- The time of `series[-1]`.
abbrev pub last_time : List ScalarSample → Option ℕ
last_time [] = none
last_time (s ∷ []) = some s.timestamp
last_time (s ∷ s' ∷ ss) = last_time (s' ∷ ss)

abbrev pub before_last : ℕ → Option ℕ → Bool
before_last t none = false
before_last t (some last) = ltb t last

-- `self.sources.setdefault(feature, source)`
abbrev pub or_source : Option String → String → String
or_source none source = source
or_source (some known) source = known

-- The tests on the numbers and the order of the series.
unfoldable pub judge_numbers : Option ℕ → Option ℕ → Option ℤ → Verdict
judge_numbers last none value = not_finite
judge_numbers last (some t) none = not_finite
judge_numbers last (some t) (some v) =
    if before_last t last then out_of_order else accepted (record { timestamp = t; value = v })

abbrev judge_source : Bool → String → String → Verdict → Verdict
judge_source declared known source numbers =
    if not declared then unknown else if not (str_eq known source) then mixed_source else numbers

-- The tests of `add` in their order.
unfoldable pub judge :
    Option Entry → Option String → Option ℕ → String → Option ℕ → Option ℤ → Verdict
unfolding judge_numbers
judge none known last source t v = unknown
judge (some e) known last source t v =
    judge_source (contains source e.sources) (or_source known source) source
      (judge_numbers last t v)

abbrev pub bind_source : String → String → (String → Option String) → String → Option String
bind_source feature source sources j =
    if str_eq j feature then some (or_source (sources j) source) else sources j

abbrev pub append_sample : String → ScalarSample → Samples → Samples
append_sample feature s samples j = if str_eq j feature then samples j ++ s ∷ [] else samples j

-- The mutations of `add` for each outcome, and the flag that it returns.
unfoldable pub apply_verdict : String → String → Verdict → SampleBuffer → SampleBuffer × Bool
apply_verdict feature source unknown b =
    (record b { dropped_unknown = b.dropped_unknown + 1 }, false)
apply_verdict feature source mixed_source b =
    (record b { dropped_mixed_source = b.dropped_mixed_source + 1 }, false)
apply_verdict feature source not_finite b = (
  record b {
    sources = bind_source feature source b.sources;
    dropped_unknown = b.dropped_unknown + 1;
  },
  false,
)
apply_verdict feature source out_of_order b = (
  record b {
    sources = bind_source feature source b.sources;
    dropped_out_of_order = b.dropped_out_of_order + 1;
  },
  false,
)
apply_verdict feature source (accepted s) b = (
  record b {
    samples = append_sample feature s b.samples;
    sources = bind_source feature source b.sources;
    received = b.received + 1;
  },
  true,
)

unfoldable pub verdict_on :
    Contract → SampleBuffer → String → String → Option ℕ → Option ℤ → Verdict
unfolding judge
verdict_on contract b feature source t v =
    judge (entry_of contract feature) (b.sources feature) (last_time (b.samples feature)) source t v

unfoldable pub add :
    Contract → SampleBuffer → String → String → Option ℕ → Option ℤ → SampleBuffer × Bool
unfolding apply_verdict
add contract b feature source t v =
    apply_verdict feature source (verdict_on contract b feature source t v) b

-- The loop of `prune` for one series; `cutoff` is the decision time less the maximum age.
unfoldable pub prune_series : ℕ → ℕ → List ScalarSample → List ScalarSample
prune_series maximum t [] = []
prune_series maximum t (s ∷ []) = s ∷ []
prune_series maximum t (s ∷ s' ∷ ss) =
    let rest = prune_series maximum t (s' ∷ ss) in
    if leb (s'.timestamp + maximum) t then rest else s ∷ s' ∷ ss

abbrev pub prune_entry : Option Entry → ℕ → List ScalarSample → List ScalarSample
prune_entry none t ss = ss
prune_entry (some e) t ss = prune_series e.max_age_seconds t ss

unfoldable pub prune : Contract → ℕ → SampleBuffer → SampleBuffer
unfolding prune_series
prune contract t b = record b { samples = λ j. prune_entry (entry_of contract j) t (b.samples j) }

abbrev pub empty_buffer : SampleBuffer
empty_buffer = record {
  samples = λ j. [];
  sources = λ j. none;
  dropped_out_of_order = 0;
  dropped_unknown = 0;
  dropped_mixed_source = 0;
  received = 0;
}
