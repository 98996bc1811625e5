-- ===== src/Recovery/Node/Budget.antt =====
-- The recovery budget over the life of a node
-- (ros_ws/src/recovery_manager/recovery_manager/node.py).
use failure_prediction.Prelude.{
  ℕ, Bool, false, not, some, List, [], ◌∷◌, ◌++◌, ◌+◌, ◌≤◌, ◌<◌, ◌&&◌, ◌≡◌, ◌⊎◌, inl, inr, arith,
  if◌then◌else◌, Option-cases, Bool-cases,
}
use failure_prediction.Prelude.Result.{ok, Result-cases}
use failure_prediction.Recovery.Types.{Action, request_assistance, same_action, GuardConfig}
use failure_prediction.Recovery.Guards.Permitted.{Permitted}
use failure_prediction.Recovery.Manager.{RecoveryRequest, Decision, decide_recovery}
use failure_prediction.Recovery.Manager.Authority.{decide_recovery-Permitted}
use failure_prediction.Recovery.Execution.{Executor, Execution, execute, safe_stop}
use failure_prediction.Recovery.Execution.Sequence.{execute-ends, safe_stop-ends}
use failure_prediction.Recovery.Node.{
  Setup, Message, Record, refused, decided, Node, costs_for, guarded_request, decide_and_execute,
  handle_request, request_of, receive, receive_all,
}

-- How many automated actions, those that do not call for help, the sidecar shows as performed.
abbrev pub weight : Record → ℕ
weight (refused r) = 0
weight (decided r d e) =
    if e.execution_performed && not (same_action d.recommended_action request_assistance)
    then 1
    else 0

abbrev pub automated : List Record → ℕ
automated [] = 0
automated (r ∷ rs) = weight r + automated rs

automated-append :
    (rs : List Record) (r : Record) → automated (rs ++ r ∷ []) ≡ automated rs + weight r
automated-append [] r = omega arith
automated-append (q ∷ rs) r = omega (arith, automated-append rs r)

Permitted-budget :
    (request : RecoveryRequest) (c : GuardConfig) (a : Action)
    → Permitted request.state c a
    → same_action a request_assistance ≡ false
    → request.state.repeated_recovery_count < c.maximum_repeated_recoveries
Permitted-budget request c request_assistance p e = cc
Permitted-budget request c _ p e = p.0

guarded_request-counts :
    (m : Message) (request : RecoveryRequest) (performed : Bool) (x : Executor)
    → x.executed_count ≤ (guarded_request m request performed x).state.repeated_recovery_count
unfolding guarded_request
guarded_request-counts m request performed x = omega arith

-- What one hand-off does to the counter.
abbrev Spends : ℕ → ℕ → Record × Executor → Type 0
Spends maximum count (r, y) =
    (count + weight r ≤ y.executed_count) × ((weight r ≡ 0) ⊎ (count < maximum))

module _ (u : Setup) where
  decided-Spends :
      (request : RecoveryRequest) (x : Executor) (d : Decision) (e : Execution) (y : Executor)
      → x.executed_count ≤ request.state.repeated_recovery_count
      → decide_recovery request u.guard_config u.policy_id
          (costs_for u.policy_id (u.predicted_costs request))
        ≡ ok d
      → execute u.commander u.bounds u.gate_enabled d x ≡ some (e, y)
      → Spends u.guard_config.maximum_repeated_recoveries x.executed_count (decided request d e, y)
  decided-Spends request x d e y counted dec ex =
      let permitted =
        (decide_recovery-Permitted request u.guard_config u.policy_id
          (costs_for u.policy_id (u.predicted_costs request)) d dec).0 in
      elim (execute-ends u.commander u.bounds u.gate_enabled d x (e, y) ex) [
        | inl idle ↦ ground arith
        | inr (on, admitted, ends) ↦
            elim (Bool-cases (same_action d.recommended_action request_assistance)) [
              | inl help ↦ ground arith
              | inr other ↦
                  let room =
                    Permitted-budget request u.guard_config d.recommended_action permitted other in
                  ground arith
            ]
      ]

  decide_and_execute-Spends :
      (request : RecoveryRequest) (x : Executor) (r : Record × Executor)
      → x.executed_count ≤ request.state.repeated_recovery_count
      → decide_and_execute u request x ≡ some r
      → Spends u.guard_config.maximum_repeated_recoveries x.executed_count r
  unfolding decide_and_execute
  decide_and_execute-Spends request x r counted h =
      elim (Result-cases (
        decide_recovery request u.guard_config u.policy_id
          (costs_for u.policy_id (u.predicted_costs request)))) [
            | inl (d, dec) ↦ elim (Option-cases (execute u.commander u.bounds u.gate_enabled d x)) [
              | inl raised ↦ ground arith
              | inr (ey, ex) ↦ ground (arith, decided-Spends request x d ey.0 ey.1 counted dec ex)
            ]
            | inr (e, dec) ↦ ground arith
          ]

  handle_request-Spends :
      (m : Message) (request : RecoveryRequest) (x : Executor) (r : Record × Executor)
      → handle_request u m request x ≡ some r
      → Spends u.guard_config.maximum_repeated_recoveries x.executed_count r
  unfolding handle_request
  handle_request-Spends m request x r h = elim (Bool-cases u.gate_enabled) [
    | inl on ↦ elim (Option-cases (safe_stop u.commander u.bounds u.gate_enabled x)) [
      | inl raised ↦ ground arith
      | inr (ey, stop) ↦ ground (
        arith,
        (safe_stop-ends u.commander u.bounds u.gate_enabled x ey stop).0,
        guarded_request-counts m request ey.0.execution_performed ey.1,
        decide_and_execute-Spends (guarded_request m request ey.0.execution_performed ey.1) ey.1 r,
      )
    ]
    | inr off ↦ ground (
      arith,
      guarded_request-counts m request false x,
      decide_and_execute-Spends (guarded_request m request false x) x r,
    )
  ]

  -- The counter covers the automated actions, and these stay within the budget.
  pub record WithinBudget (n : Node) : Type 0 where
    pub counted : automated n.decisions ≤ n.executor.executed_count
    pub bounded : automated n.decisions ≤ u.guard_config.maximum_repeated_recoveries

  receive-WithinBudget :
      (n n' : Node) (m : Message) → WithinBudget n → receive u n m ≡ some n' → WithinBudget n'
  unfolding receive
  receive-WithinBudget n n' m w h = elim (Option-cases (request_of m)) [
    | inl malformed ↦ ground arith
    | inr (request, p) ↦ elim (Option-cases (handle_request u m request n.executor)) [
      | inl raised ↦ ground arith
      | inr (ry, handled) ↦ ground (
        arith,
        handle_request-Spends m request n.executor ry handled,
        automated-append n.decisions ry.0,
      )
    ]
  ]

  -- Whatever requests arrive, the node never performs more automated recoveries than the guard
  -- configuration's maximum, and its counter never falls behind them.
  pub receive_all-WithinBudget :
      (n n' : Node) (ms : List Message)
      → WithinBudget n
      → receive_all u n ms ≡ some n'
      → WithinBudget n'
  unfolding receive_all
  receive_all-WithinBudget n n' [] w h = ground arith
  receive_all-WithinBudget n n' (m ∷ ms) w h = elim (Option-cases (receive u n m)) [
    | inl raised ↦ ground arith
    | inr (n1, e) ↦
        receive_all-WithinBudget n1 n' ms (receive-WithinBudget n n1 m w e) (ground arith)
  ]
