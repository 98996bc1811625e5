-- ===== src/Protected/Examples.antt =====
-- Tests and concrete runs for the protected boundary.
use Prim.Native.String.{String}
use failure_prediction.Prelude.{ℕ, Bool, true, false, some, [], ◌∷◌, ◌≡◌, refl}
use failure_prediction.Prelude.Result.{ok, err}
use failure_prediction.Protected.{
  Document, boolean, string, mapping, sequence, no_entries, entry, no_items, item, get,
  enforce_protected_boundary, not_approved, key, index, todo, not_frozen, unassigned_map, not_ready,
  model_freeze_findings, held_out_assignment_findings, freeze_file_findings, splits_file_findings,
  add_readiness, held_out_campaign_gate,
}
use failure_prediction.Protected.Documents.{Frozen, Assigned}
use failure_prediction.Protected.Gate.{Exists, held_out_campaign_gate-Frozen}

abbrev declaration : Document
declaration = mapping (
    entry "model_selection_complete" (boolean true) (
      entry "calibration_selection_complete" (boolean true) (
        entry "threshold_selection_complete" (boolean true)
          (entry "protected_maps_or_outcomes_inspected" (boolean false) no_entries))))

abbrev freeze : Bool → String → Document
freeze frozen seed = mapping (
    entry "frozen" (boolean frozen) (
      entry "protected_outcomes_consulted" (boolean false) (
        entry "seeds" (sequence (item (string seed) no_items))
          (entry "declaration" declaration no_entries))))

abbrev splits : Document
splits = mapping (
    entry "held_out_map_test"
      (mapping (
        entry "status" (string "assigned_after_model_freeze") (
          entry "maps" (sequence (item (string "office") (item (string "lab") no_items)))
            (entry "routes" (sequence (item (string "a") no_items)) no_entries))))
      no_entries)

gate_opens :
    held_out_campaign_gate (some (freeze true "7")) (some splits) ("lab" ∷ []) true 0 ≡ ok []
unfolding held_out_campaign_gate freeze_file_findings splits_file_findings add_readiness
    model_freeze_findings held_out_assignment_findings get
gate_opens = refl

-- The readiness check does not run after a finding.
gate_stays_shut :
    held_out_campaign_gate (some (freeze false "TODO")) (some splits) ("lab" ∷ "hall" ∷ []) true 1
    ≡ ok (not_frozen ∷ todo (key "seeds" ∷ index 0 ∷ []) "TODO" ∷ unassigned_map "hall" ∷ [])
unfolding held_out_campaign_gate freeze_file_findings splits_file_findings add_readiness
    model_freeze_findings held_out_assignment_findings get
gate_stays_shut = refl

readiness_fails :
    held_out_campaign_gate (some (freeze true "7")) (some splits) [] true 2 ≡ ok (not_ready ∷ [])
unfolding held_out_campaign_gate freeze_file_findings splits_file_findings add_readiness
    model_freeze_findings held_out_assignment_findings get
readiness_fails = refl

needs_approval : enforce_protected_boundary (boolean true) false true ≡ err not_approved
unfolding enforce_protected_boundary
needs_approval = refl

held_out_campaign_gate-Frozen_example :
    Exists Frozen (some (freeze true "7"))
    × Exists (Assigned ("lab" ∷ [])) (some splits)
    × (true ≡ true → ◌≡◌ {A = ℕ} 0 0)
held_out_campaign_gate-Frozen_example =
    held_out_campaign_gate-Frozen (some (freeze true "7")) (some splits) ("lab" ∷ []) true 0
      gate_opens
