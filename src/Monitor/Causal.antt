-- ===== src/Monitor/Causal.antt =====
-- src/features/causal.py: the value, age and missing channels of a feature at a decision time. Times
-- are natural numbers of one unit and values integers; a sample here is finite, as the source checks.
pub mod Newest
use Prim.Native.String.{String}
use text.Mathlib.Text.{◌==◌ as str_eq}
use failure_prediction.Prelude.{
  ℕ, zero, suc, ◌+◌, ◌-◌, Bool, true, false, Option, none, some, List, [], ◌∷◌, ◌++◌, ◌||◌, leb,
  ltb, ◌==◌, if◌then◌else◌,
}
use failure_prediction.Prelude.Int.{ℤ, pos}
use failure_prediction.Prelude.Result.{Result, ok, err, raise_if, ◌>>=◌, ◌>>◌}

pub record ScalarSample : Type 0 where
  pub timestamp : ℕ
  pub value : ℤ

pub record FeatureSpec : Type 0 where
  pub name : String
  pub source : String
  pub maximum_age_seconds : ℕ

pub data Error : Type 0 where
  missing_run_id missing_name age_not_positive leaks duplicate_spec samples_not_monotonic : Error
  decisions_not_increasing : Error

-- `samples_by_feature.get(name, ())`
abbrev pub Samples : Type 0
Samples = String → List ScalarSample

-- `FeatureSpec.validate`
unfoldable pub validate_spec : FeatureSpec → Result Error (Unit {0})
validate_spec s = do
  raise_if (str_eq s.name "" || str_eq s.source "") missing_name
  raise_if (s.maximum_age_seconds == 0) age_not_positive

-- `_validated_samples`; the finite values are those of the type.
unfoldable pub validate_samples : Option ℕ → List ScalarSample → Result Error (Unit {0})
validate_samples previous [] = ok tt
validate_samples none (s ∷ ss) = validate_samples (some s.timestamp) ss
validate_samples (some previous) (s ∷ ss) =
    raise_if (ltb s.timestamp previous) samples_not_monotonic
    >> validate_samples (some s.timestamp) ss

-- `bisect_right`: how many leading elements of the sorted list are at most `t`.
unfoldable pub bisect_right : List ScalarSample → ℕ → ℕ
bisect_right [] t = 0
bisect_right (s ∷ ss) t = let rest = bisect_right ss t in if leb s.timestamp t then suc rest else 0

abbrev pub get_elem? {ℓ} : {A : Type ℓ} → List A → ℕ → Option A
get_elem? [] n = none
get_elem? (x ∷ xs) zero = some x
get_elem? (x ∷ xs) (suc n) = get_elem? xs n

-- The four entries of a row for one feature.
pub record Cell : Type 0 where
  pub value : ℤ
  pub age_seconds : ℕ
  pub missing : Bool
  pub source_time : Option ℕ

abbrev pub absent : ℕ → Cell
absent maximum = record { value = pos 0; age_seconds = maximum; missing = true; source_time = none }

-- The branches for a selected sample, none where `selected < 0`.
unfoldable pub cell_of : ℕ → ℕ → Option ScalarSample → Cell
cell_of maximum t none = absent maximum
cell_of maximum t (some s) = if ltb maximum (t - s.timestamp) then absent maximum else record {
  value = s.value;
  age_seconds = t - s.timestamp;
  missing = false;
  source_time = some s.timestamp;
}

-- `selected = bisect_right(timestamps, decision_time) - 1`
abbrev pub at_selected : List ScalarSample → ℕ → Option ScalarSample
at_selected ss zero = none
at_selected ss (suc selected) = get_elem? ss selected

unfoldable pub select : List ScalarSample → ℕ → ℕ → Cell
unfolding bisect_right cell_of
select ss maximum t = cell_of maximum t (at_selected ss (bisect_right ss t))

pub record Row : Type 0 where
  pub decision_index : ℕ
  pub decision_time : ℕ
  pub cells : List (String × Cell)

unfoldable pub cells_at : List FeatureSpec → Samples → ℕ → List (String × Cell)
cells_at [] samples t = []
cells_at (s ∷ specs) samples t =
    (s.name, select (samples s.name) s.maximum_age_seconds t) ∷ cells_at specs samples t

abbrev names_in : String → List FeatureSpec → Bool
names_in name [] = false
names_in name (s ∷ specs) = str_eq s.name name || names_in name specs

-- The loop over the specs; `seen` are those prepared already. `leaking` stands for the policy of
-- src/features/leakage.py.
unfoldable pub prepare :
    (FeatureSpec → Bool) → Samples → List FeatureSpec → List FeatureSpec → Result Error (Unit {0})
unfolding validate_spec validate_samples
prepare leaking samples seen [] = ok tt
prepare leaking samples seen (s ∷ specs) = do
  validate_spec s
  raise_if (leaking s) leaks
  raise_if (names_in s.name seen) duplicate_spec
  validate_samples none (samples s.name)
  prepare leaking samples (s ∷ seen) specs

-- `decision_time <= previous_decision`, with -inf before the first one.
abbrev pub not_after : ℕ → Option ℕ → Bool
not_after t none = false
not_after t (some previous) = leb t previous

unfoldable pub rows_from :
    List FeatureSpec → Samples → ℕ → Option ℕ → List ℕ → Result Error (List Row)
unfolding cells_at
rows_from specs samples index previous [] = ok []
rows_from specs samples index previous (t ∷ ts) = do
  raise_if (not_after t previous) decisions_not_increasing
  rows ← rows_from specs samples (suc index) (some t) ts
  ok (
      (record { decision_index = index; decision_time = t; cells = cells_at specs samples t })
      ∷ rows)

unfoldable pub extract_decision_rows :
    String → List ℕ → List FeatureSpec → Samples → (FeatureSpec → Bool) → Result Error (List Row)
unfolding prepare rows_from
extract_decision_rows run_id times specs samples leaking = do
  raise_if (str_eq run_id "") missing_run_id
  prepare leaking samples [] specs
  rows_from specs samples 0 none times
