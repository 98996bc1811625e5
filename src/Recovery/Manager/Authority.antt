-- ===== src/Recovery/Manager/Authority.antt =====
-- Decisions of src/recovery/manager.py against the conditions of the guard.
use mathlib.Core.Path.{subst}
use failure_prediction.Prelude.{true, Option, none, some, ◌≡◌, ◌≢◌, refl, ◌≤◌, arith, inl, inr}
use failure_prediction.Prelude.Result.{ok, err, Result-cases}
use failure_prediction.Recovery.Types.{
  Action, request_assistance, GuardConfig, Guards, Policy, r0, r1, r2, r3, pilot, other_policy,
  guard_bypassed,
}
use failure_prediction.Prelude.Int.{ℤ}
use failure_prediction.Recovery.Guards.{validate_guards, guard_table, eligible_actions}
use failure_prediction.Recovery.Guards.Permitted.{
  Permitted, guard_table_sound, guard_table-request_assistance,
}
use failure_prediction.Recovery.Selector.{Costs, lowest_cost, select_lowest_cost}
use failure_prediction.Recovery.Selector.Cheapest.{
  Selected, select_lowest_cost-IsEligible, select_lowest_cost-Selected,
  rule_matched_action-IsEligible,
}
use failure_prediction.Recovery.Manager.{
  RecoveryRequest, validate_request, Choice, forced_choice, decision_of, choose, Decision,
  decide_recovery,
}

-- Every branch chooses an action that the guard admits.
choose-IsEligible :
    (request : RecoveryRequest) (guards : Guards) (policy : Policy) (costs : Option Costs)
    {c : Choice}
    → (guards request_assistance).eligible ≡ true
    → choose request guards policy costs ≡ ok c
    → (guards c.action).eligible ≡ true
unfolding choose
choose-IsEligible request guards (pilot none) costs always h = cc
choose-IsEligible request guards (pilot (some forced)) costs always h = ground arith
choose-IsEligible request guards r1 costs always h = ground arith
choose-IsEligible request guards r2 costs always h =
    ground (arith, rule_matched_action-IsEligible guards request.diagnosed_signal_group always)
choose-IsEligible request guards r3 none always h = cc
choose-IsEligible request guards r3 (some costs) always h =
    ground (arith, select_lowest_cost-IsEligible guards costs always)
choose-IsEligible request guards r0 costs always h = cc
choose-IsEligible request guards other_policy costs always h = cc

pub decide_recovery-table :
    (request : RecoveryRequest) (config : GuardConfig) (policy : Policy) (costs : Option Costs)
    {d : Decision}
    → decide_recovery request config policy costs ≡ ok d
    → (d.guard_results ≡ guard_table request.state config)
      × ((guard_table request.state config d.recommended_action).eligible ≡ true)
unfolding decide_recovery eligible_actions
decide_recovery-table request config policy costs h = ground arith

-- Whatever the request, policy and costs: an action is recommended only under its condition, and
-- the guard results of the decision are the guard's own table for the requested state.
pub decide_recovery-Permitted :
    (request : RecoveryRequest) (config : GuardConfig) (policy : Policy) (costs : Option Costs)
    (d : Decision)
    → decide_recovery request config policy costs ≡ ok d
    → Permitted request.state config d.recommended_action
      × (d.guard_results ≡ guard_table request.state config)
decide_recovery-Permitted request config policy costs d h =
    let (table, admitted) = decide_recovery-table request config policy costs h in
    (guard_table_sound request.state config d.recommended_action admitted, table)

choose-ne-guard_bypassed :
    (request : RecoveryRequest) (guards : Guards) (policy : Policy) (costs : Option Costs)
    → choose request guards policy costs ≢ err guard_bypassed
unfolding choose
choose-ne-guard_bypassed request guards (pilot none) costs h = cc
choose-ne-guard_bypassed request guards (pilot (some forced)) costs h = ground arith
choose-ne-guard_bypassed request guards r1 costs h = cc
choose-ne-guard_bypassed request guards r2 costs h = cc
choose-ne-guard_bypassed request guards r3 none h = cc
choose-ne-guard_bypassed request guards r3 (some costs) h = cc
choose-ne-guard_bypassed request guards r0 costs h = cc
choose-ne-guard_bypassed request guards other_policy costs h = cc

-- The closing assertion of `decide_recovery` never fails: no policy's choice is one that the guard
-- rejects.
pub decide_recovery-ne-guard_bypassed :
    (request : RecoveryRequest) (config : GuardConfig) (policy : Policy) (costs : Option Costs)
    → decide_recovery request config policy costs ≢ err guard_bypassed
unfolding decide_recovery eligible_actions
decide_recovery-ne-guard_bypassed request config policy costs h =
    let guards = guard_table request.state config in
    elim (Result-cases (choose request guards policy costs)) [
      | inl (c, e) ↦ ground (
        arith,
        choose-IsEligible request guards policy costs
            (guard_table-request_assistance request.state config) e,
      )
      | inr (x, e) ↦ ground (arith, choose-ne-guard_bypassed request guards policy costs)
    ]

-- Once the recovery budget is spent every decision asks for assistance.
pub decide_recovery-exhausted :
    (request : RecoveryRequest) (config : GuardConfig) (policy : Policy) (costs : Option Costs)
    (d : Decision)
    → config.maximum_repeated_recoveries ≤ request.state.repeated_recovery_count
    → decide_recovery request config policy costs ≡ ok d
    → d.recommended_action ≡ request_assistance
decide_recovery-exhausted request config policy costs d spent h =
    exhausted d.recommended_action (decide_recovery-Permitted request config policy costs d h).0
  where
    exhausted : (a : Action) → Permitted request.state config a → a ≡ request_assistance
    exhausted request_assistance p = refl
    exhausted _ p = absurd (omega (arith, p.0))

-- A request, a configuration and a policy that `decide_recovery` accepts.
abbrev pub IsSupported : Policy → Option Costs → Type 0
IsSupported (pilot none) costs = ⊥
IsSupported (pilot (some a)) costs = a ≢ request_assistance
IsSupported r1 costs = Unit
IsSupported r2 costs = Unit
IsSupported r3 none = ⊥
IsSupported r3 (some costs) = Unit
IsSupported r0 costs = ⊥
IsSupported other_policy costs = ⊥

choose-IsSupported :
    (request : RecoveryRequest) (guards : Guards) (policy : Policy) (costs : Option Costs)
    → IsSupported policy costs
    → (c : Choice) × (choose request guards policy costs ≡ ok c)
unfolding choose
choose-IsSupported request guards (pilot none) costs h = elim h [ ]
choose-IsSupported request guards (pilot (some forced)) costs h =
    (forced_choice forced guards, ground arith)
choose-IsSupported request guards r1 costs h = (_, refl)
choose-IsSupported request guards r2 costs h = (_, refl)
choose-IsSupported request guards r3 none h = elim h [ ]
choose-IsSupported request guards r3 (some costs) h = (_, refl)
choose-IsSupported request guards r0 costs h = elim h [ ]
choose-IsSupported request guards other_policy costs h = elim h [ ]

-- For a valid request and configuration and a supported policy there is a decision.
pub decide_recovery_total :
    (request : RecoveryRequest) (config : GuardConfig) (policy : Policy) (costs : Option Costs)
    → validate_request request ≡ ok tt
    → validate_guards config ≡ ok tt
    → IsSupported policy costs
    → (d : Decision) × (decide_recovery request config policy costs ≡ ok d)
unfolding decide_recovery eligible_actions
decide_recovery_total request config policy costs vr vg sup =
    let (c, e) = choose-IsSupported request (guard_table request.state config) policy costs sup in
    let k =
      choose-IsEligible request (guard_table request.state config) policy costs
        (guard_table-request_assistance request.state config) e in
    (decision_of request policy (guard_table request.state config) c, rw (vr, vg, e, k) refl)

-- A decision of R3 recommends an admitted action and reports the cost predicted for it, which that of no
-- admitted action undercuts; or, where no action with a predicted cost is admitted, it recommends to
-- ask for assistance and reports the cost predicted for that, or 0.
pub decide_recovery-Selected :
    (request : RecoveryRequest) (config : GuardConfig) (costs : Costs) (d : Decision)
    → decide_recovery request config r3 (some costs) ≡ ok d
    → (x : ℤ) × (d.selection_reason ≡ lowest_cost x)
      × Selected (guard_table request.state config) costs (d.recommended_action, x)
unfolding decide_recovery eligible_actions choose
decide_recovery-Selected request config costs d h =
    let guards = guard_table request.state config in
    let item = select_lowest_cost costs guards in
    let same : item.0 ≡ d.recommended_action = ground arith in
    (
      item.1,
      ground arith,
      subst (λ a. Selected guards costs (a, item.1)) same
          (select_lowest_cost-Selected guards costs),
    )
