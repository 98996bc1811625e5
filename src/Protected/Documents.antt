-- ===== src/Protected/Documents.antt =====
-- What documents without findings say (src/protected_data.py).
use Prim.Native.String.{String}
use mathlib.Core.Path.{subst}
use failure_prediction.Prelude.{
  parts_empty, Bool, true, false, some, List, [], ◌∷◌, ◌≡◌, inl, inr, refl, sym, ap, arith, All,
  Option-cases,
}
use failure_prediction.Prelude.Result.{Result, ok, err, Result-cases}
use failure_prediction.Protected.{
  Document, null, boolean, string, scalar, mapping, sequence, Entries, get, is_empty, Finding,
  entry_todos, entries_or_empty, declaration_findings, mapping_findings, entries_of,
  model_freeze_findings, is_in, unassigned_maps, split_findings, held_out_assignment_findings,
}
use failure_prediction.Protected.Findings.{
  NoTodoEntries, when-not, when-false, is_true-eq, is_false-eq, is_string-eq,
  entries_or_empty-cases, entry_todos-NoTodo,
}

-- A document that freezes the models.
pub record Frozen (d : Document) : Type 0 where
  pub freeze : Entries
  pub declaration : Entries
  pub is_mapping : d ≡ mapping freeze
  pub frozen : get "frozen" freeze ≡ boolean true
  pub not_consulted : get "protected_outcomes_consulted" freeze ≡ boolean false
  pub declared : get "declaration" freeze ≡ mapping declaration
  pub models : get "model_selection_complete" declaration ≡ boolean true
  pub calibration : get "calibration_selection_complete" declaration ≡ boolean true
  pub thresholds : get "threshold_selection_complete" declaration ≡ boolean true
  pub not_inspected : get "protected_maps_or_outcomes_inspected" declaration ≡ boolean false
  pub filled : NoTodoEntries freeze

-- A document that assigns the held-out split to all of `map_ids`.
pub record Assigned (map_ids : List String) (d : Document) : Type 0 where
  pub splits : Entries
  pub split : Entries
  pub is_mapping : d ≡ mapping splits
  pub held_out : get "held_out_map_test" splits ≡ mapping split
  pub status : get "status" split ≡ string "assigned_after_model_freeze"
  pub has_maps : is_empty (get "maps" split) ≡ false
  pub has_routes : is_empty (get "routes" split) ≡ false
  pub covers : All (λ m. is_in m (get "maps" split) ≡ ok true) map_ids

-- A key that is present shows that a value that passes for a mapping is one.
is_mapping :
    (d : Document) (e : Entries) (key : String) (b : Bool)
    → entries_or_empty d ≡ ok e
    → get key e ≡ boolean b
    → d ≡ mapping e
unfolding get
is_mapping d e key b h g = elim (entries_or_empty-cases d e h) [
  | inl same ↦ same
  | inr q ↦ let bad = rw q at g in ground arith
]

is_mapping' :
    (d : Document) (e : Entries) (key s : String)
    → entries_or_empty d ≡ ok e
    → get key e ≡ string s
    → d ≡ mapping e
unfolding get
is_mapping' d e key s h g = elim (entries_or_empty-cases d e h) [
  | inl same ↦ same
  | inr q ↦ let bad = rw q at g in ground arith
]

entries_of-mapping : (d : Document) (e : Entries) → entries_of d ≡ some e → d ≡ mapping e
entries_of-mapping (mapping d) e h = ground arith
entries_of-mapping null e h = ground arith
entries_of-mapping (boolean b) e h = ground arith
entries_of-mapping (string s) e h = ground arith
entries_of-mapping (scalar b) e h = ground arith
entries_of-mapping (sequence items) e h = ground arith

abbrev pub found : {E : Type 0} → Result E (List Finding) → List Finding
found (err e) = []
found (ok l) = l

declaration_findings-declared :
    (d : Entries)
    → declaration_findings d ≡ []
    → (get "model_selection_complete" d ≡ boolean true)
      × (get "calibration_selection_complete" d ≡ boolean true)
      × (get "threshold_selection_complete" d ≡ boolean true)
      × (get "protected_maps_or_outcomes_inspected" d ≡ boolean false)
declaration_findings-declared d h =
    let (h', i) = parts_empty _ _ h in
    let (h'', t) = parts_empty _ _ h' in
    let (m, c) = parts_empty _ _ h'' in
    (
      is_true-eq (get "model_selection_complete" d) (when-not _ _ m),
      is_true-eq (get "calibration_selection_complete" d) (when-not _ _ c),
      is_true-eq (get "threshold_selection_complete" d) (when-not _ _ t),
      is_false-eq (get "protected_maps_or_outcomes_inspected" d) (when-not _ _ i),
    )

mapping_findings-Frozen :
    (freeze : Entries) → mapping_findings freeze ≡ ok [] → Frozen (mapping freeze)
mapping_findings-Frozen freeze h =
    elim (Result-cases (entries_or_empty (get "declaration" freeze))) [
      | inr (x, q) ↦ let bad = rw q at h in ground arith
      | inl (d, q) ↦
          let all = ap found (rw q at h) in
          let (all', t) = parts_empty _ (entry_todos [] freeze) all in
          let (all'', declaring) = parts_empty _ (declaration_findings d) all' in
          let (f, c) = parts_empty _ _ all'' in
          let (m, k, e, i) = declaration_findings-declared d declaring in
          record {
            freeze = freeze;
            declaration = d;
            is_mapping = refl;
            frozen = is_true-eq (get "frozen" freeze) (when-not _ _ f);
            not_consulted =
                is_false-eq (get "protected_outcomes_consulted" freeze) (when-not _ _ c);
            declared = is_mapping (get "declaration" freeze) d "model_selection_complete" true q m;
            models = m;
            calibration = k;
            thresholds = e;
            not_inspected = i;
            filled = entry_todos-NoTodo [] freeze t;
          }
    ]

unassigned_maps-covers :
    (maps : Document) (map_ids : List String)
    → unassigned_maps maps map_ids ≡ ok []
    → All (λ m. is_in m maps ≡ ok true) map_ids
unassigned_maps-covers maps [] h = tt
unassigned_maps-covers maps (m ∷ map_ids) h = elim (Result-cases (is_in m maps)) [
  | inr (x, q) ↦ let bad = rw q at h in ground arith
  | inl (assigned, q) ↦ elim (Result-cases (unassigned_maps maps map_ids)) [
    | inr (x, r) ↦ let bad = rw (q, r) at h in ground arith
    | inl (rest, r) ↦
        let (now, later) = parts_empty _ rest (ap found (rw (q, r) at h)) in
        let covered = when-not assigned (Finding.unassigned_map m) now in
        (rw covered at q, unassigned_maps-covers maps map_ids (rw later at r))
  ]
]

pub model_freeze_findings-Frozen : (d : Document) → model_freeze_findings d ≡ ok [] → Frozen d
unfolding model_freeze_findings
model_freeze_findings-Frozen d h = elim (Option-cases (entries_of d)) [
  | inl q ↦ let bad = rw q at h in ground arith
  | inr (freeze, q) ↦
      subst Frozen (sym (entries_of-mapping d freeze q))
        (mapping_findings-Frozen freeze (rw q at h))
]

split_findings-Assigned :
    (splits split : Entries) (map_ids : List String)
    → entries_or_empty (get "held_out_map_test" splits) ≡ ok split
    → split_findings split map_ids ≡ ok []
    → Assigned map_ids (mapping splits)
split_findings-Assigned splits split map_ids q h =
    elim (Result-cases (unassigned_maps (get "maps" split) map_ids)) [
      | inr (x, r) ↦ let bad = rw r at h in ground arith
      | inl (rest, r) ↦
          let (all, covered) = parts_empty _ rest (ap found (rw r at h)) in
          let (all', routes) = parts_empty _ _ all in
          let (s, maps) = parts_empty _ _ all' in
          let status =
            is_string-eq "assigned_after_model_freeze" (get "status" split) (when-not _ _ s) in
          record {
            splits = splits;
            split = split;
            is_mapping = refl;
            held_out =
                is_mapping' (get "held_out_map_test" splits) split "status"
                  "assigned_after_model_freeze" q status;
            status = status;
            has_maps = when-false (is_empty (get "maps" split)) Finding.no_maps maps;
            has_routes = when-false (is_empty (get "routes" split)) Finding.no_routes routes;
            covers = unassigned_maps-covers (get "maps" split) map_ids (rw covered at r);
          }
    ]

pub held_out_assignment_findings-Assigned :
    (d : Document) (map_ids : List String)
    → held_out_assignment_findings d map_ids ≡ ok []
    → Assigned map_ids d
unfolding held_out_assignment_findings
held_out_assignment_findings-Assigned d map_ids h = elim (Option-cases (entries_of d)) [
  | inl q ↦ let bad = rw q at h in ground arith
  | inr (splits, q) ↦ elim (Result-cases (entries_or_empty (get "held_out_map_test" splits))) [
    | inr (x, r) ↦ let bad = rw r at (rw q at h) in ground arith
    | inl (split, r) ↦
        subst (Assigned map_ids) (sym (entries_of-mapping d splits q))
          (split_findings-Assigned splits split map_ids r (rw r at (rw q at h)))
  ]
]
