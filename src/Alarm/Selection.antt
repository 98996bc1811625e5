-- ===== src/Alarm/Selection.antt =====
-- `select_validation_threshold` of src/evaluation/policy.py. Scores, thresholds and the false-alert budget
-- are counted in parts of `one`; a set of scores is the sorted list of its elements.
pub mod Candidates
pub mod Best
pub mod Optimal
mod Examples
use Prim.Native.String.{String}
use text.Mathlib.Text.{◌==◌ as str_eq}
use failure_prediction.Prelude.{
  ℕ, zero, suc, ◌+◌, ◌-◌, ◌*◌, ◌/◌, ◌%◌, max, Bool, true, false, not, Option, none, some, List, [],
  ◌∷◌, ◌++◌, ◌&&◌, ◌||◌, ltb, leb, ◌==◌, if◌then◌else◌, length, map,
}
use failure_prediction.Prelude.Result.{Result, ok, err, raise_if, ◌>>=◌, ◌>>◌}
use failure_prediction.Labels.Windows.{Eligibility}
use failure_prediction.Alarm.Policy.{AlarmPolicy, Row, Output, one, apply_alarm_policy}
use failure_prediction.Alarm.Policy as Policy
use failure_prediction.Alarm.Metrics.{
  PredictedRow, EpisodeResult, Metrics, get_or_zero, evaluate_event_warnings,
}
use failure_prediction.Alarm.Metrics as Metrics

-- A row of a validation episode.
pub record LabelledRow : Type 0 where
  pub row : Row
  pub eligibility : Eligibility
  pub primary_event_time : Option ℕ

abbrev pub Episodes : Type 0
Episodes = List (String × List LabelledRow)

pub record Settings : Type 0 where
  pub false_alert_budget : ℕ
  pub required_above : ℕ
  pub decisions_considered : ℕ
  pub cooldown_seconds : ℕ
  pub maximum_candidates : ℕ

pub data Error : Type 0 where
  no_clean_missions unknown_run scores_out_of_range too_few_candidates no_threshold : Error
  in_policy : Policy.Error → Error
  in_metrics : Metrics.Error → Error

abbrev pub mem : String → List String → Bool
mem s [] = false
mem s (t ∷ ts) = str_eq s t || mem s ts

abbrev pub run_ids : Episodes → List String
run_ids [] = []
run_ids ((run_id, rows) ∷ episodes) = run_id ∷ run_ids episodes

abbrev pub any_unknown : List String → List String → Bool
any_unknown known [] = false
any_unknown known (s ∷ ss) = not (mem s known) || any_unknown known ss

-- A sorted list without repetitions, as `sorted` of a set.
unfoldable pub insert_unique : ℕ → List ℕ → List ℕ
insert_unique x [] = x ∷ []
insert_unique x (y ∷ ys) =
    let rest = insert_unique x ys in
    if ltb x y then x ∷ y ∷ ys else if x == y then y ∷ ys else y ∷ rest

unfoldable pub insert_all : List ℕ → List ℕ → List ℕ
unfolding insert_unique
insert_all [] ys = ys
insert_all (x ∷ xs) ys = insert_unique x (insert_all xs ys)

abbrev pub scores_in : List LabelledRow → List ℕ
scores_in [] = []
scores_in (r ∷ rs) = r.row.risk_score ∷ scores_in rs

abbrev pub all_scores : Episodes → List ℕ
all_scores [] = []
all_scores ((run_id, rows) ∷ episodes) = scores_in rows ++ all_scores episodes

unfoldable pub distinct_scores : Episodes → List ℕ
unfolding insert_all
distinct_scores episodes = insert_all (all_scores episodes) []

abbrev pub any_above_one : List ℕ → Bool
any_above_one [] = false
any_above_one (s ∷ ss) = ltb one s || any_above_one ss

-- `round(a / b)`: a half goes to the even neighbour.
unfoldable pub round_div : ℕ → ℕ → ℕ
round_div a b =
    let q = a / b in
    let r = a % b in if ltb (2 * r) b then q else if ltb b (2 * r) then suc q else q + q % 2

-- `ordered[position]` for `index` from `n` rounds before `interior`.
unfoldable pub picks : ℕ → ℕ → List ℕ → ℕ → List ℕ
unfolding round_div
picks zero index ordered interior = []
picks (suc n) index ordered interior =
    get_or_zero ordered (round_div (index * (length ordered - 1)) (max (interior - 1) 1))
    ∷ picks n (suc index) ordered interior

unfoldable pub candidates_of : List ℕ → ℕ → List ℕ
unfolding insert_all picks
candidates_of scores maximum =
    if leb (length scores + 2) maximum
    then insert_all (0 ∷ one ∷ scores) []
    else let interior = max (maximum - 2) 1 in
      insert_all (0 ∷ one ∷ picks interior 0 scores interior) []

-- `{**source, "alarm": ...}`: an output with the other columns of its source.
abbrev pub attach : List LabelledRow → List Output → List PredictedRow
attach [] outputs = []
attach (r ∷ rs) [] = []
attach (r ∷ rs) (o ∷ os) =
    (record {
      decision_time = r.row.decision_time;
      alarm = o.alarm;
      eligibility = r.eligibility;
      primary_event_time = r.primary_event_time;
    })
    ∷ attach rs os

abbrev pub in_error {ℓ} : {E : Type 0} {A : Type ℓ} → (E → Error) → Result E A → Result Error A
in_error f (err e) = err (f e)
in_error f (ok a) = ok a

abbrev pub rows_of : List LabelledRow → List Row
rows_of [] = []
rows_of (r ∷ rs) = r.row ∷ rows_of rs

unfoldable pub predict : AlarmPolicy → Episodes → Result Error (List (String × List PredictedRow))
predict p [] = ok []
predict p ((run_id, rows) ∷ episodes) =
    in_error in_policy (apply_alarm_policy (rows_of rows) p) >>= λ outputs.
    predict p episodes >>= λ rest. ok ((run_id, attach rows outputs) ∷ rest)

unfoldable pub clean_false_alerts : List String → List EpisodeResult → ℕ
clean_false_alerts clean [] = 0
clean_false_alerts clean (r ∷ rs) =
    let rest = clean_false_alerts clean rs in
    if mem r.run_id clean then r.false_alerts + rest else rest

pub record Candidate : Type 0 where
  pub threshold : ℕ
  pub clean_alerts : ℕ
  pub metrics : Metrics

abbrev pub policy_at : Settings → ℕ → AlarmPolicy
policy_at s threshold = record {
  threshold = threshold;
  required_above = s.required_above;
  decisions_considered = s.decisions_considered;
  cooldown_seconds = s.cooldown_seconds;
}

-- The body of the loop up to the test of the budget.
unfoldable pub evaluate : Settings → Episodes → List String → ℕ → Result Error Candidate
unfolding predict clean_false_alerts
evaluate s episodes clean threshold = predict (policy_at s threshold) episodes >>= λ predicted.
    in_error in_metrics (evaluate_event_warnings predicted) >>= λ m. ok record {
      threshold = threshold;
      clean_alerts = clean_false_alerts clean m.per_episode;
      metrics = m;
    }

-- `clean_false_alerts / len(clean_run_ids) <= false_alert_budget`
unfoldable pub is_feasible : Settings → List String → Candidate → Bool
is_feasible s clean c = leb (c.clean_alerts * one) (s.false_alert_budget * length clean)

unfoldable pub feasible_from :
    Settings → Episodes → List String → List ℕ → Result Error (List Candidate)
unfolding evaluate is_feasible
feasible_from s episodes clean [] = ok []
feasible_from s episodes clean (t ∷ ts) = evaluate s episodes clean t >>= λ c.
    feasible_from s episodes clean ts >>= λ cs. ok (if is_feasible s clean c then c ∷ cs else cs)

-- `event_recall`: the detected events, and one less than the number of events.
abbrev pub recall_of : ℕ → ℕ → Option (ℕ × ℕ)
recall_of detected zero = none
recall_of detected (suc n) = some (detected, n)

abbrev pub recall : Candidate → Option (ℕ × ℕ)
recall c = recall_of c.metrics.detected_event_count c.metrics.event_count

unfoldable pub less_recall : Option (ℕ × ℕ) → Option (ℕ × ℕ) → Bool
less_recall none none = false
less_recall none (some r) = true
less_recall (some r) none = false
less_recall (some (a, m)) (some (b, n)) = ltb (a * suc n) (b * suc m)

unfoldable pub same_recall : Option (ℕ × ℕ) → Option (ℕ × ℕ) → Bool
same_recall none none = true
same_recall none (some r) = false
same_recall (some r) none = false
same_recall (some (a, m)) (some (b, n)) = (a * suc n) == (b * suc m)

-- The median lead, where none comes before every time.
abbrev pub lead_rank : Option ℕ → ℕ
lead_rank none = 0
lead_rank (some lead) = suc lead

abbrev pub lead : Candidate → ℕ
lead c = lead_rank c.metrics.median_useful_lead_doubled

-- Of two candidates the first has the smaller recall, or with the same recall more alarms on clean
-- missions, or with the same of both a smaller median lead.
unfoldable pub outranked : Candidate → Candidate → Bool
unfolding less_recall same_recall
outranked c d =
    less_recall (recall c) (recall d)
    || (same_recall (recall c) (recall d)
        && (ltb d.clean_alerts c.clean_alerts
            || (d.clean_alerts == c.clean_alerts && ltb (lead c) (lead d))))

abbrev pub tied : Candidate → Candidate → Bool
unfolding same_recall
tied c d = same_recall (recall c) (recall d) && d.clean_alerts == c.clean_alerts && lead c == lead d

-- `ranking(c) < ranking(d)`
unfoldable pub ranks_below : Candidate → Candidate → Bool
unfolding outranked tied
ranks_below c d = outranked c d || (tied c d && ltb c.threshold d.threshold)

-- `max`: the first candidate of the highest rank.
unfoldable pub max_from : Candidate → List Candidate → Candidate
unfolding ranks_below
max_from best [] = best
max_from best (c ∷ cs) = max_from (if ranks_below best c then c else best) cs

unfoldable pub choose : List Candidate → Result Error Candidate
unfolding max_from
choose [] = err no_threshold
choose (c ∷ cs) = ok (max_from c cs)

unfoldable pub check_scores : List ℕ → Result Error (Unit {0})
check_scores [] = err scores_out_of_range
check_scores (s ∷ ss) = raise_if (any_above_one (s ∷ ss)) scores_out_of_range

unfoldable pub select_validation_threshold :
    Settings → Episodes → List String → Result Error Candidate
unfolding distinct_scores check_scores candidates_of feasible_from choose
select_validation_threshold s episodes clean =
    raise_if (length clean == 0) no_clean_missions
    >> raise_if (any_unknown (run_ids episodes) clean) unknown_run
    >> check_scores (distinct_scores episodes)
    >> raise_if (ltb s.maximum_candidates 2) too_few_candidates
    >> feasible_from s episodes clean
        (candidates_of (distinct_scores episodes) s.maximum_candidates)
    >>= choose
