-- ===== src/Campaign/Admission.antt =====
-- The admission of parallel execution: `parallel_admission_terms`, `admission_condition_report_path` and
-- `validate_parallel_execution_admission` of src/experiments/campaigns.py. Parameters: the two patterns,
-- `str.lower`, and the first word of a condition that has one.
pub mod Admitted
mod Examples
use Prim.Native.String.{String}
use failure_prediction.Prelude.{
  ℕ, Bool, true, false, not, Option, none, some, List, [], ◌∷◌, ◌++◌, if◌then◌else◌,
}
use failure_prediction.Campaign.Documents.{
  Value, null, other, negative, boolean, integer, string, mapping, sequence, Entries, no_entries,
  entry, Items, no_items, item, is_string, get, entries_of, is_true, list_of, contains,
}
use failure_prediction.Campaign.Phases.{
  Finding, bad_amendment_id, not_on_file, other_amendment_id, not_approved, condition_not_met,
  not_admitted, too_many_workers, system_concurrency, when, exceeds, Request,
  system_concurrency_findings, phased_execution_findings,
}

-- The terms of an amendment.
pub record Terms : Type 0 where
  pub campaigns : Items
  pub admitted_workers : Value
  pub admission_condition : Value
  pub system_caps : Value
  pub phases : Value

abbrev pub items_or : Option Items → Option Items → Items
items_or (some items) second = items
items_or none (some items) = items
items_or none none = no_items

unfoldable pub parallel_admission_terms : Entries → Terms
unfolding get
parallel_admission_terms amendment =
    let decisions = entries_of (get "decisions" amendment) in
    let concurrency = entries_of (get "concurrency" decisions) in
    record {
      campaigns =
          items_or (list_of (get "campaigns_admitted_if_check_passes" concurrency))
            (list_of (get "parallel_execution_admitted_campaigns" decisions));
      admitted_workers = get "admitted_workers" concurrency;
      admission_condition = get "admission_condition" concurrency;
      system_caps = get "system_concurrency" concurrency;
      phases = get "phased_execution" concurrency;
    }

-- The part of a manifest that admission reads; its campaign id is a string.
pub record Manifest : Type 0 where
  pub campaign_id : String
  pub admitted_by : Value

module _ (is_amendment_id is_system_id : String → Bool) (lower : String → String)
    (first_word : String → Option String) where
  -- `admission_condition_report_path`; `first_word` has none for a blank string.
  abbrev pub admission_condition_report_path : Value → Option String
  admission_condition_report_path (string condition) = first_word condition
  admission_condition_report_path null = none
  admission_condition_report_path other = none
  admission_condition_report_path negative = none
  admission_condition_report_path (boolean b) = none
  admission_condition_report_path (integer n) = none
  admission_condition_report_path (mapping _) = none
  admission_condition_report_path (sequence _) = none

  unfoldable pub report_findings : String → Option String → Entries → List Finding
  unfolding get
  report_findings id none reports = []
  report_findings id (some path) reports =
      when (not (is_true (get "passed" (entries_of (get path reports))))) (condition_not_met id)

  abbrev pub worker_findings : String → Option ℕ → Value → List Finding
  worker_findings id none admitted = []
  worker_findings id (some n) admitted = when (exceeds n admitted) (too_many_workers id n)

  -- The findings from the amendment's own fields on.
  unfoldable pub amendment_findings : Manifest → Entries → Request → String → Entries → List Finding
  unfolding get parallel_admission_terms contains report_findings system_concurrency_findings
      phased_execution_findings
  amendment_findings manifest reports request id amendment =
      let terms = parallel_admission_terms amendment in
      when (not (is_string id (get "amendment_id" amendment))) (other_amendment_id id)
      ++ when (not (is_string "approved" (get "status" amendment))) (not_approved id)
      ++ when (not (contains manifest.campaign_id terms.campaigns))
          (not_admitted id manifest.campaign_id)
      ++ report_findings id (admission_condition_report_path terms.admission_condition) reports
      ++ worker_findings id request.workers terms.admitted_workers
      ++ system_concurrency_findings is_system_id lower terms.system_caps system_concurrency
      ++ phased_execution_findings is_system_id lower terms.phases terms.admitted_workers request

  unfoldable pub filed_findings : Manifest → Entries → Request → String → Value → List Finding
  unfolding amendment_findings
  filed_findings manifest reports request id (mapping amendment) =
      amendment_findings manifest reports request id amendment
  filed_findings manifest reports request id null = not_on_file id ∷ []
  filed_findings manifest reports request id other = not_on_file id ∷ []
  filed_findings manifest reports request id negative = not_on_file id ∷ []
  filed_findings manifest reports request id (boolean b) = not_on_file id ∷ []
  filed_findings manifest reports request id (integer n) = not_on_file id ∷ []
  filed_findings manifest reports request id (string s) = not_on_file id ∷ []
  filed_findings manifest reports request id (sequence _) = not_on_file id ∷ []

  unfoldable pub named_findings :
      Manifest → Option Entries → Entries → Request → String → List Finding
  unfolding get filed_findings
  named_findings manifest none reports request id = []
  named_findings manifest (some amendments) reports request id =
      filed_findings manifest reports request id (get id amendments)

  unfoldable pub id_findings : Manifest → Option Entries → Entries → Request → Value → List Finding
  unfolding named_findings
  id_findings manifest amendments reports request (string id) =
      if is_amendment_id id
      then named_findings manifest amendments reports request id
      else bad_amendment_id ∷ []
  id_findings manifest amendments reports request null = bad_amendment_id ∷ []
  id_findings manifest amendments reports request other = bad_amendment_id ∷ []
  id_findings manifest amendments reports request negative = bad_amendment_id ∷ []
  id_findings manifest amendments reports request (boolean b) = bad_amendment_id ∷ []
  id_findings manifest amendments reports request (integer n) = bad_amendment_id ∷ []
  id_findings manifest amendments reports request (mapping _) = bad_amendment_id ∷ []
  id_findings manifest amendments reports request (sequence _) = bad_amendment_id ∷ []

  unfoldable pub validate_parallel_execution_admission :
      Manifest → Option Entries → Entries → Request → List Finding
  unfolding id_findings
  validate_parallel_execution_admission manifest amendments reports request =
      id_findings manifest amendments reports request manifest.admitted_by
