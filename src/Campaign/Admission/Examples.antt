-- ===== src/Campaign/Admission/Examples.antt =====
-- An amendment that admits a campaign in two phases (src/experiments/campaigns.py).
use Prim.Native.String.{String}
use text.Mathlib.Text.{◌==◌ as str_eq}
use failure_prediction.Prelude.{
  ℕ, Bool, true, Option, none, some, List, [], ◌∷◌, ◌≡◌, refl, ◌||◌, if◌then◌else◌,
}
use failure_prediction.Campaign.Documents.{
  Value, boolean, integer, string, mapping, sequence, Entries, no_entries, entry, no_items, item,
}
use failure_prediction.Campaign.Phases.{
  Finding, too_many_workers, above_phase_cap, no_phase, Request,
}
use failure_prediction.Campaign.Admission.{Manifest, validate_parallel_execution_admission}
use failure_prediction.Campaign.Admission.Admitted.{
  Admitted, validate_parallel_execution_admission-Admitted,
}

abbrev amendment_name : String
amendment_name = "PA-2026-09-03-04"

abbrev report_path : String
report_path = "reports/shift_check.json"

abbrev is_amendment_id : String → Bool
is_amendment_id s = str_eq s "PA-2026-09-03-04"

abbrev is_system_id : String → Bool
is_system_id s = str_eq s "s0" || str_eq s "s3"

abbrev lower : String → String
lower s = if str_eq s "S3" then "s3" else s

abbrev first_word : String → Option String
first_word s = if str_eq s "reports/shift_check.json passed true" then some report_path else none

abbrev field : String → Value → Entries → Entries
field key value rest = entry (string key) value rest

abbrev concurrency : Entries
concurrency =
    field "campaigns_admitted_if_check_passes" (sequence (item (string "supplement") no_items)) (
      field "admitted_workers" (integer 6) (
        field "admission_condition" (string "reports/shift_check.json passed true") (
          field "phased_execution"
            (mapping (field "s0" (integer 6) (field "s3" (integer 1) no_entries))) no_entries)))

abbrev amendments : Entries
amendments =
    field amendment_name
      (mapping (
        field "amendment_id" (string amendment_name) (
          field "status" (string "approved") (
            field "decisions" (mapping (field "concurrency" (mapping concurrency) no_entries))
              no_entries))))
      no_entries

abbrev reports : Entries
reports = field report_path (mapping (field "passed" (boolean true) no_entries)) no_entries

abbrev manifest : Manifest
manifest = record { campaign_id = "supplement"; admitted_by = string amendment_name }

abbrev request : ℕ → List String → Request
request workers systems = record { workers = some workers; systems = some systems }

abbrev findings : ℕ → List String → List Finding
unfolding validate_parallel_execution_admission
findings workers systems =
    validate_parallel_execution_admission is_amendment_id is_system_id lower first_word manifest
      (some amendments) reports (request workers systems)

one_phase : findings 6 ("s0" ∷ []) ≡ []
unfolding findings
one_phase = refl

both_phases : findings 6 ("s0" ∷ "S3" ∷ []) ≡ above_phase_cap 6 1 ∷ []
unfolding findings
both_phases = refl

no_such_phase : findings 7 ("s7" ∷ []) ≡ too_many_workers amendment_name 7 ∷ no_phase "s7" ∷ []
unfolding findings
no_such_phase = refl

validate_parallel_execution_admission-Admitted_example :
    Admitted is_amendment_id is_system_id lower first_word manifest amendments reports
      (request 1 ("s0" ∷ "S3" ∷ []))
unfolding validate_parallel_execution_admission
validate_parallel_execution_admission-Admitted_example =
    validate_parallel_execution_admission-Admitted is_amendment_id is_system_id lower first_word
      manifest amendments reports (request 1 ("s0" ∷ "S3" ∷ [])) refl
