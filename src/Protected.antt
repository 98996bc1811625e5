-- ===== src/Protected.antt =====
-- The boundary around protected episodes: src/protected_data.py. A parsed YAML document is a tree, and
-- a finding keeps the parts of its message; `check_readiness.py` is its exit code.
pub mod Findings
pub mod Documents
pub mod Gate
mod Examples
use Prim.Native.String.{String}
use text.Mathlib.Text.{◌==◌ as str_eq, starts_with, find?}
use failure_prediction.Prelude.{
  ℕ, suc, Bool, true, false, not, Option, none, some, List, [], ◌∷◌, ◌++◌, ◌&&◌, ◌||◌, ◌==◌,
  if◌then◌else◌,
}
use failure_prediction.Prelude.Result.{Result, ok, err, raise_if, ◌>>=◌, ◌>>◌}

-- `scalar` is a number or a date, with its truth value.
mutual
  pub data Document : Type 0 where
    null : Document
    boolean : Bool → Document
    string : String → Document
    scalar : Bool → Document
    mapping : Entries → Document
    sequence : Items → Document

  pub data Entries : Type 0 where
    no_entries : Entries
    entry : String → Document → Entries → Entries

  pub data Items : Type 0 where
    no_items : Items
    item : Document → Items → Items

-- `document.get(key)`, where `None` stands for a missing key.
unfoldable pub get : String → Entries → Document
get key no_entries = null
get key (entry name value rest) =
    let found = get key rest in if str_eq key name then value else found

abbrev pub is_true : Document → Bool
is_true (boolean b) = b
is_true null = false
is_true (string s) = false
is_true (scalar b) = false
is_true (mapping _) = false
is_true (sequence items) = false

abbrev pub is_false : Document → Bool
is_false (boolean b) = not b
is_false null = false
is_false (string s) = false
is_false (scalar b) = false
is_false (mapping _) = false
is_false (sequence items) = false

-- `not value`
abbrev pub is_empty : Document → Bool
is_empty null = true
is_empty (boolean b) = not b
is_empty (string s) = str_eq s ""
is_empty (scalar b) = not b
is_empty (mapping no_entries) = true
is_empty (mapping (entry name value rest)) = false
is_empty (sequence no_items) = true
is_empty (sequence (item value rest)) = false

pub data Error : Type 0 where
  undeclared_source not_approved not_frozen_yet no_attribute not_iterable : Error

unfoldable pub enforce_protected_boundary : Document → Bool → Bool → Result Error (Unit {0})
enforce_protected_boundary used explicitly_allowed confirmatory_gate_passed =
    if is_false used
    then ok tt
    else raise_if (not (is_true used)) undeclared_source
      >> raise_if (not explicitly_allowed) not_approved
      >> raise_if (not confirmatory_gate_passed) not_frozen_yet

pub data Step : Type 0 where
  key : String → Step
  index : ℕ → Step

pub data Finding : Type 0 where
  freeze_missing freeze_not_mapping not_frozen outcomes_consulted maps_inspected : Finding
  undeclared : String → Finding
  todo : List Step → String → Finding
  splits_missing splits_not_mapping not_assigned no_maps no_routes : Finding
  unassigned_map : String → Finding
  not_ready : Finding

abbrev pub when : Bool → Finding → List Finding
when test finding = if test then finding ∷ [] else []

-- The leaves of a document that start with TODO, with the path of each.
abbrev mutual
  pub todos : List Step → Document → List Finding
  todos path null = []
  todos path (boolean b) = []
  todos path (string s) = when (starts_with s "TODO") (todo path s)
  todos path (scalar b) = []
  todos path (mapping entries) = entry_todos path entries
  todos path (sequence items) = item_todos path 0 items

  pub entry_todos : List Step → Entries → List Finding
  entry_todos path no_entries = []
  entry_todos path (entry name value rest) =
      todos (path ++ key name ∷ []) value ++ entry_todos path rest

  pub item_todos : List Step → ℕ → Items → List Finding
  item_todos path i no_items = []
  item_todos path i (item value rest) =
      todos (path ++ index i ∷ []) value ++ item_todos path (suc i) rest

-- `document.get(key) or {}`, on which the source calls `get`.
abbrev pub entries_or_empty : Document → Result Error Entries
entries_or_empty (mapping entries) = ok entries
entries_or_empty null = ok no_entries
entries_or_empty (boolean b) = if b then err no_attribute else ok no_entries
entries_or_empty (string s) = if str_eq s "" then ok no_entries else err no_attribute
entries_or_empty (scalar b) = if b then err no_attribute else ok no_entries
entries_or_empty (sequence no_items) = ok no_entries
entries_or_empty (sequence (item value rest)) = err no_attribute

abbrev pub declaration_findings : Entries → List Finding
declaration_findings declaration =
    when (not (is_true (get "model_selection_complete" declaration)))
      (undeclared "model_selection_complete")
    ++ when (not (is_true (get "calibration_selection_complete" declaration)))
        (undeclared "calibration_selection_complete")
    ++ when (not (is_true (get "threshold_selection_complete" declaration)))
        (undeclared "threshold_selection_complete")
    ++ when (not (is_false (get "protected_maps_or_outcomes_inspected" declaration))) maps_inspected

abbrev pub mapping_findings : Entries → Result Error (List Finding)
mapping_findings freeze = entries_or_empty (get "declaration" freeze) >>= λ declaration. ok (
    when (not (is_true (get "frozen" freeze))) not_frozen
    ++ when (not (is_false (get "protected_outcomes_consulted" freeze))) outcomes_consulted
    ++ declaration_findings declaration
    ++ entry_todos [] freeze)

abbrev pub entries_of : Document → Option Entries
entries_of (mapping entries) = some entries
entries_of null = none
entries_of (boolean b) = none
entries_of (string s) = none
entries_of (scalar b) = none
entries_of (sequence items) = none

abbrev pub freeze_findings_of : Option Entries → Result Error (List Finding)
freeze_findings_of none = ok (freeze_not_mapping ∷ [])
freeze_findings_of (some freeze) = mapping_findings freeze

unfoldable pub model_freeze_findings : Document → Result Error (List Finding)
model_freeze_findings freeze = freeze_findings_of (entries_of freeze)

abbrev pub has_key : String → Entries → Bool
has_key name no_entries = false
has_key name (entry other value rest) = str_eq name other || has_key name rest

abbrev pub is_string : String → Document → Bool
is_string s (string t) = str_eq s t
is_string s null = false
is_string s (boolean b) = false
is_string s (scalar b) = false
is_string s (mapping _) = false
is_string s (sequence items) = false

abbrev pub has_item : String → Items → Bool
has_item s no_items = false
has_item s (item value rest) = is_string s value || has_item s rest

abbrev pub is_found : Option ℕ → Bool
is_found none = false
is_found (some n) = true

-- `map_id in (maps or [])`
abbrev pub is_in : String → Document → Result Error Bool
is_in map_id (mapping entries) = ok (has_key map_id entries)
is_in map_id (sequence items) = ok (has_item map_id items)
is_in map_id (string s) = if str_eq s "" then ok false else ok (is_found (find? s map_id))
is_in map_id null = ok false
is_in map_id (boolean b) = if b then err not_iterable else ok false
is_in map_id (scalar b) = if b then err not_iterable else ok false

abbrev pub unassigned_maps : Document → List String → Result Error (List Finding)
unassigned_maps maps [] = ok []
unassigned_maps maps (map_id ∷ map_ids) = is_in map_id maps >>= λ assigned.
    unassigned_maps maps map_ids >>= λ rest.
    ok (when (not assigned) (unassigned_map map_id) ++ rest)

abbrev pub split_findings : Entries → List String → Result Error (List Finding)
split_findings split map_ids = unassigned_maps (get "maps" split) map_ids >>= λ unassigned. ok (
    when (not (is_string "assigned_after_model_freeze" (get "status" split))) not_assigned
    ++ when (is_empty (get "maps" split)) no_maps
    ++ when (is_empty (get "routes" split)) no_routes
    ++ unassigned)

abbrev pub assignment_findings_of : Option Entries → List String → Result Error (List Finding)
assignment_findings_of none map_ids = ok (splits_not_mapping ∷ [])
assignment_findings_of (some splits) map_ids =
    entries_or_empty (get "held_out_map_test" splits) >>= λ split. split_findings split map_ids

unfoldable pub held_out_assignment_findings : Document → List String → Result Error (List Finding)
held_out_assignment_findings splits map_ids = assignment_findings_of (entries_of splits) map_ids

-- The files are `none` where they do not exist.
unfoldable pub freeze_file_findings : Option Document → Result Error (List Finding)
unfolding model_freeze_findings
freeze_file_findings none = ok (freeze_missing ∷ [])
freeze_file_findings (some document) = model_freeze_findings document

unfoldable pub splits_file_findings : Option Document → List String → Result Error (List Finding)
unfolding held_out_assignment_findings
splits_file_findings none map_ids = ok (splits_missing ∷ [])
splits_file_findings (some document) map_ids = held_out_assignment_findings document map_ids

-- The exit code counts only where the gate runs: asked for, and with no finding before it.
unfoldable pub add_readiness : Bool → ℕ → List Finding → List Finding
add_readiness run_readiness returncode [] = when (run_readiness && not (returncode == 0)) not_ready
add_readiness run_readiness returncode (f ∷ findings) = f ∷ findings

unfoldable pub held_out_campaign_gate :
    Option Document → Option Document → List String → Bool → ℕ → Result Error (List Finding)
unfolding freeze_file_findings splits_file_findings add_readiness
held_out_campaign_gate freeze splits map_ids run_readiness returncode =
    freeze_file_findings freeze >>= λ first. splits_file_findings splits map_ids >>= λ second.
    ok (add_readiness run_readiness returncode (first ++ second))
