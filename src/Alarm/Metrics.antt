-- ===== src/Alarm/Metrics.antt =====
-- src/evaluation/event_metrics.py: the event-level outcome of an alarm policy. Ratios are kept as their
-- two numbers, and a median as its double. The episodes are the items of the mapping, sorted by run id.
use Prim.Native.String.{String}
use failure_prediction.Prelude.{
  ℕ, zero, suc, ◌+◌, ◌-◌, ◌*◌, ◌/◌, ◌%◌, Bool, true, false, not, Option, none, some, List, [], ◌∷◌,
  ◌&&◌, ltb, leb, ◌==◌, if◌then◌else◌, length,
}
use failure_prediction.Labels.Windows.{
  Eligibility, eligible_positive, eligible_negative, excluded_post_event, excluded_too_late,
  excluded_near_event_or_injection,
}
use failure_prediction.Prelude.Result.{Result, ok, err, raise_if, ◌>>=◌, ◌>>◌}

pub record PredictedRow : Type 0 where
  pub decision_time : ℕ
  pub alarm : Bool
  pub eligibility : Eligibility
  pub primary_event_time : Option ℕ

pub data Error : Type 0 where
  empty_rows inconsistent_event_time : String → Error
  negative_lead : Error

-- The set `event_times` while it has one element at most.
abbrev pub join_time : String → Option ℕ → Option ℕ → Result Error (Option ℕ)
join_time run_id found none = ok found
join_time run_id none (some t) = ok (some t)
join_time run_id (some t) (some u) =
    if t == u then ok (some t) else err (inconsistent_event_time run_id)

unfoldable pub event_time_from : String → Option ℕ → List PredictedRow → Result Error (Option ℕ)
event_time_from run_id found [] = ok found
event_time_from run_id found (row ∷ rows) =
    join_time run_id found row.primary_event_time >>= λ found'. event_time_from run_id found' rows

abbrev pub is_positive : Eligibility → Bool
is_positive eligible_positive = true
is_positive eligible_negative = false
is_positive excluded_post_event = false
is_positive excluded_too_late = false
is_positive excluded_near_event_or_injection = false

abbrev pub is_negative : Eligibility → Bool
is_negative eligible_negative = true
is_negative eligible_positive = false
is_negative excluded_post_event = false
is_negative excluded_too_late = false
is_negative excluded_near_event_or_injection = false

abbrev pub earlier : ℕ → Option ℕ → Option ℕ
earlier t none = some t
earlier t (some u) = if leb t u then some t else some u

-- `useful[0]`: the earliest alarm on an eligible positive decision.
unfoldable pub first_useful : List PredictedRow → Option ℕ
first_useful [] = none
first_useful (row ∷ rows) =
    let rest = first_useful rows in
    if row.alarm && is_positive row.eligibility then earlier row.decision_time rest else rest

unfoldable pub false_alerts_of : List PredictedRow → ℕ
false_alerts_of [] = 0
false_alerts_of (row ∷ rows) =
    let rest = false_alerts_of rows in
    if row.alarm && is_negative row.eligibility then suc rest else rest

pub record EpisodeResult : Type 0 where
  pub run_id : String
  pub has_event : Bool
  pub detected : Bool
  pub first_useful_lead_seconds : Option ℕ
  pub false_alerts : ℕ

abbrev pub is_some : Option ℕ → Bool
is_some none = false
is_some (some t) = true

unfoldable pub lead_of : Option ℕ → Option ℕ → Result Error (Option ℕ)
lead_of none useful = ok none
lead_of (some event) none = ok none
lead_of (some event) (some useful) =
    raise_if (ltb event useful) negative_lead >> ok (some (event - useful))

-- The body of the loop; an episode has rows.
unfoldable pub episode_result : String → List PredictedRow → Result Error EpisodeResult
unfolding event_time_from first_useful false_alerts_of lead_of
episode_result run_id [] = err (empty_rows run_id)
episode_result run_id (row ∷ rows) = event_time_from run_id none (row ∷ rows) >>= λ event_time.
    let useful = first_useful (row ∷ rows) in
    lead_of event_time useful >>= λ lead. ok record {
      run_id = run_id;
      has_event = is_some event_time;
      detected = is_some useful;
      first_useful_lead_seconds = lead;
      false_alerts = false_alerts_of (row ∷ rows);
    }

unfoldable pub episode_results :
    List (String × List PredictedRow) → Result Error (List EpisodeResult)
unfolding episode_result
episode_results [] = ok []
episode_results ((run_id, rows) ∷ episodes) =
    episode_result run_id rows >>= λ r. episode_results episodes >>= λ rs. ok (r ∷ rs)

unfoldable pub count_if : (EpisodeResult → Bool) → List EpisodeResult → ℕ
count_if test [] = 0
count_if test (r ∷ rs) = let rest = count_if test rs in if test r then suc rest else rest

unfoldable pub sum_if : (EpisodeResult → Bool) → List EpisodeResult → ℕ
sum_if test [] = 0
sum_if test (r ∷ rs) = let rest = sum_if test rs in if test r then r.false_alerts + rest else rest

unfoldable pub insert : ℕ → List ℕ → List ℕ
insert x [] = x ∷ []
insert x (y ∷ ys) = let rest = insert x ys in if leb x y then x ∷ y ∷ ys else y ∷ rest

abbrev insert_lead : Option ℕ → List ℕ → List ℕ
insert_lead none leads = leads
insert_lead (some lead) leads = insert lead leads

unfoldable pub sorted_leads : List EpisodeResult → List ℕ
unfolding insert
sorted_leads [] = []
sorted_leads (r ∷ rs) = insert_lead r.first_useful_lead_seconds (sorted_leads rs)

abbrev pub get_or_zero : List ℕ → ℕ → ℕ
get_or_zero [] n = 0
get_or_zero (x ∷ xs) zero = x
get_or_zero (x ∷ xs) (suc n) = get_or_zero xs n

unfoldable pub median_doubled : List ℕ → Option ℕ
median_doubled [] = none
median_doubled (x ∷ xs) =
    let leads = x ∷ xs in
    let middle = length leads / 2 in
    if length leads % 2 == 1
    then some (2 * get_or_zero leads middle)
    else some (get_or_zero leads (middle - 1) + get_or_zero leads middle)

pub record Metrics : Type 0 where
  pub episode_count : ℕ
  pub event_count : ℕ
  pub detected_event_count : ℕ
  pub false_alert_count : ℕ
  pub non_event_mission_count : ℕ
  pub false_alerts_non_event : ℕ
  pub median_useful_lead_doubled : Option ℕ
  pub per_episode : List EpisodeResult

unfoldable pub metrics_of : List EpisodeResult → Metrics
unfolding count_if sum_if sorted_leads median_doubled
metrics_of rs = record {
  episode_count = length rs;
  event_count = count_if (λ r. r.has_event) rs;
  detected_event_count = count_if (λ r. r.has_event && r.detected) rs;
  false_alert_count = sum_if (λ r. true) rs;
  non_event_mission_count = count_if (λ r. not r.has_event) rs;
  false_alerts_non_event = sum_if (λ r. not r.has_event) rs;
  median_useful_lead_doubled = median_doubled (sorted_leads rs);
  per_episode = rs;
}

unfoldable pub evaluate_event_warnings : List (String × List PredictedRow) → Result Error Metrics
unfolding episode_results metrics_of
evaluate_event_warnings episodes = episode_results episodes >>= λ rs. ok (metrics_of rs)
