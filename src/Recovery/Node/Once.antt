-- ===== src/Recovery/Node/Once.antt =====
-- Warnings, their records and exceptions over a sequence of messages
-- (ros_ws/src/recovery_manager/recovery_manager/node.py).
use Prim.Native.String.{String}
use failure_prediction.Prelude.{
  All, Option, Bool, true, false, none, some, List, [], ◌∷◌, ◌++◌, ◌≡◌, ◌≢◌, refl, inl, inr, arith,
  Option-cases, Bool-cases,
}
use failure_prediction.Prelude.Result.{err, Result-cases}
use failure_prediction.Recovery.Manager.{RecoveryRequest, decide_recovery}
use failure_prediction.Recovery.Manager.Authority.{decide_recovery-ne-guard_bypassed}
use failure_prediction.Recovery.Selector.{Costs}
use failure_prediction.Recovery.Types.{
  Error, clearance_not_positive, missing_identifier, risk_out_of_range, unsupported_forced_action,
  missing_predicted_costs, unsupported_policy, guard_bypassed,
}
use failure_prediction.Recovery.Execution.{Call, zero_cmd_vel, plain, Executor, execute, safe_stop}
use failure_prediction.Recovery.Execution.Sequence.{execute_total, safe_stop_total}
use failure_prediction.Recovery.Node.{
  Setup, Message, Record, refused, decided, Node, costs_for, guarded_request, decide_and_execute,
  carry_out, is_caught, handle_request, request_of, contains, receive, receive_all,
}

abbrev pub warning_of : Record → String
warning_of (refused r) = r.warning_id
warning_of (decided r d e) = r.warning_id

-- The warnings decided, newest first, before those of `ids`.
abbrev pub warnings_onto : List Record → List String → List String
warnings_onto [] ids = ids
warnings_onto (r ∷ rs) ids = warnings_onto rs (warning_of r ∷ ids)

abbrev pub Distinct : List String → Type 0
Distinct [] = Unit
Distinct (x ∷ xs) = (contains x xs ≡ false) × Distinct xs

warnings_onto-append :
    (rs : List Record) (r : Record) (ids : List String)
    → warnings_onto (rs ++ r ∷ []) ids ≡ warning_of r ∷ warnings_onto rs ids
warnings_onto-append [] r ids = refl
warnings_onto-append (q ∷ rs) r ids = warnings_onto-append rs r (warning_of q ∷ ids)

module _ (u : Setup) where
  decide_and_execute-warning :
      (request : RecoveryRequest) (x : Executor) (r : Record × Executor)
      → decide_and_execute u request x ≡ some r
      → warning_of r.0 ≡ request.warning_id
  unfolding decide_and_execute
  decide_and_execute-warning request x r h =
      elim (Result-cases (
        decide_recovery request u.guard_config u.policy_id
          (costs_for u.policy_id (u.predicted_costs request)))) [
            | inl (d, dec) ↦ elim (Option-cases (execute u.commander u.bounds u.gate_enabled d x)) [
              | inl raised ↦ ground arith
              | inr (ey, ex) ↦ ground arith
            ]
            | inr (e, dec) ↦ ground arith
          ]

  guarded_request-warning :
      (m : Message) (request : RecoveryRequest) (performed : Bool) (x : Executor)
      → (guarded_request m request performed x).warning_id ≡ request.warning_id
  unfolding guarded_request
  guarded_request-warning m request performed x = refl

  handle_request-warning :
      (m : Message) (request : RecoveryRequest) (x : Executor) (r : Record × Executor)
      → handle_request u m request x ≡ some r
      → warning_of r.0 ≡ request.warning_id
  unfolding handle_request
  handle_request-warning m request x r h = elim (Bool-cases u.gate_enabled) [
    | inl on ↦ elim (Option-cases (safe_stop u.commander u.bounds u.gate_enabled x)) [
      | inl raised ↦ ground arith
      | inr (ey, stop) ↦ ground (
        arith,
        decide_and_execute-warning (guarded_request m request ey.0.execution_performed ey.1) ey.1 r,
        guarded_request-warning m request ey.0.execution_performed ey.1,
      )
    ]
    | inr off ↦ ground (
      arith,
      decide_and_execute-warning (guarded_request m request false x) x r,
      guarded_request-warning m request false x,
    )
  ]

  -- The warnings seen are those decided, each once.
  pub record DecidesOnce (n : Node) : Type 0 where
    pub recorded : n.seen_warning_ids ≡ warnings_onto n.decisions []
    pub distinct : Distinct n.seen_warning_ids

  receive-DecidesOnce :
      (n n' : Node) (m : Message) → DecidesOnce n → receive u n m ≡ some n' → DecidesOnce n'
  unfolding receive
  receive-DecidesOnce n n' m w h = elim (Option-cases m.parsed) [
    | inl malformed ↦ ground arith
    | inr (request, p) ↦
        let q : RecoveryRequest = record request { warning_id = m.warning_id } in
        elim (Option-cases (handle_request u m q n.executor)) [
          | inl raised ↦ ground arith
          | inr (ry, handled) ↦ ground (
            arith,
            handle_request-warning m q n.executor ry handled,
            warnings_onto-append n.decisions ry.0 [],
          )
        ]
  ]

  -- However requests repeat, the sidecar holds one decision for each warning.
  pub receive_all-DecidesOnce :
      (n n' : Node) (ms : List Message)
      → DecidesOnce n
      → receive_all u n ms ≡ some n'
      → DecidesOnce n'
  unfolding receive_all
  receive_all-DecidesOnce n n' [] w h = ground arith
  receive_all-DecidesOnce n n' (m ∷ ms) w h = elim (Option-cases (receive u n m)) [
    | inl raised ↦ ground arith
    | inr (n1, e) ↦ receive_all-DecidesOnce n1 n' ms (receive-DecidesOnce n n1 m w e) (ground arith)
  ]

  -- A message whose decision time reads, and for which publications and snapshots succeed.
  abbrev pub IsHealthy : Message → Type 0
  IsHealthy m = (m.reads_decision_time ≡ true) × (m.is_published ≡ true)

  -- The assertion of `decide_recovery`, which is not caught, never fails.
  caught :
      (request : RecoveryRequest) (costs : Option Costs) (e : Error)
      → decide_recovery request u.guard_config u.policy_id costs ≡ err e
      → is_caught e ≡ true
  unfolding is_caught
  caught request costs guard_bypassed h =
      absurd (decide_recovery-ne-guard_bypassed request u.guard_config u.policy_id costs h)
  caught request costs clearance_not_positive h = refl
  caught request costs missing_identifier h = refl
  caught request costs risk_out_of_range h = refl
  caught request costs unsupported_forced_action h = refl
  caught request costs missing_predicted_costs h = refl
  caught request costs unsupported_policy h = refl

  module _ (stops : (calls : List Call) → u.commander calls (plain zero_cmd_vel) ≡ true) where
    decide_and_execute_total :
        (request : RecoveryRequest) (x : Executor) → decide_and_execute u request x ≢ none
    unfolding decide_and_execute
    decide_and_execute_total request x h =
        elim (Result-cases (
          decide_recovery request u.guard_config u.policy_id
            (costs_for u.policy_id (u.predicted_costs request)))) [
              | inl (d, dec) ↦
                  ground (arith, execute_total u.commander u.bounds u.gate_enabled d x stops)
              | inr (e, dec) ↦
                  ground (
                    arith,
                    caught request (costs_for u.policy_id (u.predicted_costs request)) e dec,
                  )
            ]

    carry_out_total :
        (m : Message) (request : RecoveryRequest) (x : Executor) → carry_out u m request x ≢ none
    unfolding carry_out
    carry_out_total m request x h =
        elim (Option-cases (safe_stop u.commander u.bounds u.gate_enabled x)) [
          | inl raised ↦ ground (
            arith,
            safe_stop_total u.commander u.bounds u.gate_enabled x stops,
            decide_and_execute_total (guarded_request m request false x) x,
          )
          | inr (ey, stop) ↦ ground (
            arith,
            decide_and_execute_total (guarded_request m request ey.0.execution_performed ey.1) ey.1,
            decide_and_execute_total (guarded_request m request false x) x,
          )
        ]

    handle_request_total :
        (m : Message) (request : RecoveryRequest) (x : Executor)
        → IsHealthy m
        → handle_request u m request x ≢ none
    unfolding handle_request
    handle_request_total m request x (read, published) h =
        elim (Option-cases (carry_out u m request x)) [
          | inl raised ↦ carry_out_total m request x raised
          | inr ((refused r, y), done) ↦ ground arith
          | inr ((decided r d e, y), done) ↦ ground arith
        ]

    receive_total : (n : Node) (m : Message) → IsHealthy m → receive u n m ≢ none
    unfolding receive
    receive_total n m healthy h = elim (Option-cases (request_of m)) [
      | inl malformed ↦ ground arith
      | inr (request, p) ↦ ground (arith, handle_request_total m request n.executor healthy)
    ]

    -- If a zero velocity can always be sent, the decision time of every message reads as a number or as
    -- none, and publications and snapshots succeed, every list of messages is handled to its end: no
    -- exception leaves the callback.
    pub receive_all_total :
        (n : Node) (ms : List Message)
        → All IsHealthy ms
        → (n' : Node) × (receive_all u n ms ≡ some n')
    unfolding receive_all
    receive_all_total n [] healthy = (n, refl)
    receive_all_total n (m ∷ ms) (healthy, rest) = elim (Option-cases (receive u n m)) [
      | inl raised ↦ absurd (receive_total n m healthy raised)
      | inr (n1, e) ↦ let (n', p) = receive_all_total n1 ms rest in (n', rw (e, receive_all) p)
    ]
