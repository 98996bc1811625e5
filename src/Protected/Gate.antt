-- ===== src/Protected/Gate.antt =====
-- What an open gate stands for (src/protected_data.py).
use Prim.Native.String.{String}
use failure_prediction.Prelude.{
  parts_empty, ℕ, Bool, true, false, Option, none, some, List, [], ◌∷◌, ◌++◌, ◌≡◌, inl, inr, refl,
  ap, arith,
}
use failure_prediction.Prelude.Result.{ok, Result-cases}
use failure_prediction.Protected.{
  Document, Finding, freeze_file_findings, splits_file_findings, add_readiness,
  held_out_campaign_gate,
}
use failure_prediction.Protected.Documents.{
  Frozen, Assigned, found, model_freeze_findings-Frozen, held_out_assignment_findings-Assigned,
}

-- A file that exists, with a document that satisfies a predicate.
abbrev pub Exists : (Document → Type 0) → Option Document → Type 0
Exists P none = ⊥
Exists P (some d) = P d

freeze_file_findings-Frozen :
    (file : Option Document) → freeze_file_findings file ≡ ok [] → Exists Frozen file
unfolding freeze_file_findings
freeze_file_findings-Frozen none h = ground arith
freeze_file_findings-Frozen (some d) h = model_freeze_findings-Frozen d h

splits_file_findings-Assigned :
    (file : Option Document) (map_ids : List String)
    → splits_file_findings file map_ids ≡ ok []
    → Exists (Assigned map_ids) file
unfolding splits_file_findings
splits_file_findings-Assigned none map_ids h = ground arith
splits_file_findings-Assigned (some d) map_ids h = held_out_assignment_findings-Assigned d map_ids h

add_readiness-empty :
    (run_readiness : Bool) (returncode : ℕ) (findings : List Finding)
    → add_readiness run_readiness returncode findings ≡ []
    → (findings ≡ []) × (run_readiness ≡ true → returncode ≡ 0)
unfolding add_readiness
add_readiness-empty run_readiness returncode (f ∷ findings) h = ground arith
add_readiness-empty false returncode [] h = (refl, λ r. ground arith)
add_readiness-empty true returncode [] h = (refl, λ r. ground arith)

-- The gate of held-out campaigns has no finding only if the freeze file declares the models frozen,
-- with every selection complete, no protected map or outcome seen and no placeholder left, the splits
-- file has an assigned held-out split with some maps, which include those of the campaign, and with
-- some routes, which need not include the campaign's, and the readiness check exited with 0 where it
-- was asked for.
pub held_out_campaign_gate-Frozen :
    (freeze splits : Option Document) (map_ids : List String) (run_readiness : Bool)
    (returncode : ℕ)
    → held_out_campaign_gate freeze splits map_ids run_readiness returncode ≡ ok []
    → Exists Frozen freeze
      × Exists (Assigned map_ids) splits
      × (run_readiness ≡ true → returncode ≡ 0)
unfolding held_out_campaign_gate
held_out_campaign_gate-Frozen freeze splits map_ids run_readiness returncode h =
    elim (Result-cases (freeze_file_findings freeze)) [
      | inr (x, q) ↦ let bad = rw q at h in ground arith
      | inl (first, q) ↦ elim (Result-cases (splits_file_findings splits map_ids)) [
        | inr (x, r) ↦ let bad = rw (q, r) at h in ground arith
        | inl (second, r) ↦
            let (none_left, ready) =
              add_readiness-empty run_readiness returncode (first ++ second)
                (ap found (rw (q, r) at h)) in
            let (a, b) = parts_empty first second none_left in
            (
              freeze_file_findings-Frozen freeze (rw a at q),
              splits_file_findings-Assigned splits map_ids (rw b at r),
              ready,
            )
      ]
    ]
