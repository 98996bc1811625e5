-- ===== src/Recovery/Node/Stop.antt =====
-- The safe stop before an action that needs a stopped robot
-- (ros_ws/src/recovery_manager/recovery_manager/node.py).
use failure_prediction.Prelude.{
  Bool, true, false, some, ◌≡◌, ◌⊎◌, inl, inr, arith, Option-cases, Bool-cases,
}
use failure_prediction.Prelude.Result.{ok, Result-cases}
use failure_prediction.Recovery.Types.{
  Action, relocalise, backup, spin_active_rescan, GuardConfig, RobotState,
}
use failure_prediction.Recovery.Guards.Permitted.{Permitted}
use failure_prediction.Recovery.Manager.{RecoveryRequest, Decision, decide_recovery}
use failure_prediction.Recovery.Manager.Authority.{decide_recovery-Permitted}
use failure_prediction.Recovery.Execution.{Executor, Execution, execute, safe_stop}
use failure_prediction.Recovery.Execution.Sequence.{execute-ends}
use failure_prediction.Recovery.Node.{
  Setup, Message, Record, refused, decided, costs_for, guarded_request, decide_and_execute,
  handle_request,
}

abbrev pub needs_stop : Action → Bool
needs_stop relocalise = true
needs_stop backup = true
needs_stop spin_active_rescan = true
needs_stop _ = false

-- A record that shows a performed action for which the robot must stand still.
abbrev pub MovesStopped : Record → Type 0
MovesStopped (refused r) = ⊥
MovesStopped (decided r d e) =
    (e.execution_performed ≡ true) × (needs_stop d.recommended_action ≡ true)

Permitted-stopped :
    (s : RobotState) (c : GuardConfig) (a : Action)
    → Permitted s c a
    → needs_stop a ≡ true
    → s.stopped ≡ true
Permitted-stopped s c relocalise p e = p.1
Permitted-stopped s c backup p e = p.1
Permitted-stopped s c spin_active_rescan p e = p.1
Permitted-stopped s c _ p e = cc

module _ (u : Setup) where
  decided-stopped :
      (request : RecoveryRequest) (x : Executor) (d : Decision) (e : Execution) (y : Executor)
      → decide_recovery request u.guard_config u.policy_id
          (costs_for u.policy_id (u.predicted_costs request))
        ≡ ok d
      → execute u.commander u.bounds u.gate_enabled d x ≡ some (e, y)
      → MovesStopped (decided request d e)
      → (u.gate_enabled ≡ true) × (request.state.stopped ≡ true)
  decided-stopped request x d e y dec ex moves =
      let permitted =
        (decide_recovery-Permitted request u.guard_config u.policy_id
          (costs_for u.policy_id (u.predicted_costs request)) d dec).0 in
      elim (execute-ends u.commander u.bounds u.gate_enabled d x (e, y) ex) [
        | inl idle ↦ ground arith
        | inr (on, admitted, ends) ↦ (
          on,
          Permitted-stopped request.state u.guard_config d.recommended_action permitted moves.1,
        )
      ]

  decide_and_execute-stopped :
      (request : RecoveryRequest) (x : Executor) (r : Record × Executor)
      → decide_and_execute u request x ≡ some r
      → MovesStopped r.0
      → (u.gate_enabled ≡ true) × (request.state.stopped ≡ true)
  unfolding decide_and_execute
  decide_and_execute-stopped request x r h moves =
      elim (Result-cases (
        decide_recovery request u.guard_config u.policy_id
          (costs_for u.policy_id (u.predicted_costs request)))) [
            | inl (d, dec) ↦ elim (Option-cases (execute u.commander u.bounds u.gate_enabled d x)) [
              | inl raised ↦ ground arith
              | inr (ey, ex) ↦ ground (arith, decided-stopped request x d ey.0 ey.1 dec ex)
            ]
            | inr (e, dec) ↦ ground arith
          ]

  -- A performed backup, spin or relocalisation follows a safe stop after which the odometry showed
  -- the robot at rest; but where the safe stop itself failed, only the monitor's estimate said so.
  pub handle_request-stopped :
      (m : Message) (request : RecoveryRequest) (x : Executor) (r : Record × Executor)
      → handle_request u m request x ≡ some r
      → MovesStopped r.0
      → (stop : Execution × Executor) × (safe_stop u.commander u.bounds u.gate_enabled x
          ≡ some stop)
        × (((stop.0.execution_performed ≡ true) × (m.stop_measured ≡ true))
            ⊎ ((stop.0.execution_performed ≡ false) × (request.state.stopped ≡ true)))
  unfolding handle_request guarded_request
  handle_request-stopped m request x r h moves = elim (Bool-cases u.gate_enabled) [
    | inl on ↦ elim (Option-cases (safe_stop u.commander u.bounds u.gate_enabled x)) [
      | inl raised ↦ ground arith
      | inr (ey, stop) ↦ (
        ey,
        stop,
        ground (
          arith,
          decide_and_execute-stopped (guarded_request m request ey.0.execution_performed ey.1) ey.1
              r,
        ),
      )
    ]
    | inr off ↦
        absurd (ground (arith, decide_and_execute-stopped (guarded_request m request false x) x r))
  ]
