-- ===== src/Recovery/Execution/Sequence.antt =====
-- The calls of the live executor to the commander
-- (ros_ws/src/recovery_manager/recovery_manager/live_execution.py).
use failure_prediction.Prelude.{
  ℕ, zero, suc, Bool, true, false, none, some, List, [], ◌∷◌, ◌++◌, ◌+◌, ◌≡◌, ◌≢◌, refl, ◌&&◌, ◌⊎◌,
  inl, inr, arith, take, Bool-cases,
}
use failure_prediction.Recovery.Types.{Action}
use failure_prediction.Recovery.Manager.{Decision}
use failure_prediction.Recovery.Execution.{
  Step, zero_cmd_vel, ActionBounds, Call, plain, Commander, perform, safe_stop_prefix,
  action_sequence, Execution, StepEntry, done, Executor, run_steps, safe_stop, log_guard_rejections,
  execute_admitted, execute,
}

module _ (commander : Commander) (b : ActionBounds) where
  -- The calls of the steps `ss`, put before the earlier calls: the newest comes first.
  abbrev pub pushed : List Step → List Call → List Call
  pushed [] calls = calls
  pushed (s ∷ ss) calls = pushed ss (perform b s ∷ calls)

  run_steps_completed :
      (ss : List Step) (calls : List Call) (steps : List StepEntry)
      → (run_steps commander b ss calls steps).completed ≡ true
      → (run_steps commander b ss calls steps).calls ≡ pushed ss calls
  unfolding run_steps
  run_steps_completed [] calls steps h = refl
  run_steps_completed (s ∷ ss) calls steps h =
      ground (arith, run_steps_completed ss (perform b s ∷ calls) (steps ++ done s ∷ []))

  run_steps_prefix :
      (ss : List Step) (calls : List Call) (steps : List StepEntry)
      → (n : ℕ) × ((run_steps commander b ss calls steps).calls ≡ pushed (take n ss) calls)
  unfolding run_steps
  run_steps_prefix [] calls steps = (zero, refl)
  run_steps_prefix (s ∷ ss) calls steps = elim (Bool-cases (commander calls (perform b s))) [
    | inl e ↦
        let (n, p) = run_steps_prefix ss (perform b s ∷ calls) (steps ++ done s ∷ []) in
        (suc n, rw e p)
    | inr e ↦ (1, rw e refl)
  ]

  -- The three ways in which a call of the executor ends.
  abbrev pub Idle : Executor → Execution × Executor → Type 0
  Idle x (e, y) =
      (e.execution_performed ≡ false) × (y.calls ≡ x.calls) × (y.executed_count ≡ x.executed_count)

  abbrev pub Finished : List Step → Executor → Execution × Executor → Type 0
  Finished ss x (e, y) =
      (e.execution_performed ≡ true)
      × (y.calls ≡ pushed ss x.calls)
      × (y.executed_count ≡ x.executed_count + 1)

  abbrev pub Halted : List Step → Executor → Execution × Executor → Type 0
  Halted ss x (e, y) =
      (e.execution_performed ≡ false)
      × (y.executed_count ≡ x.executed_count)
      × ((n : ℕ) × (y.calls ≡ plain zero_cmd_vel ∷ pushed (take n ss) x.calls))

  execute_admitted-ends :
      (a : Action) (x : Executor) (r : Execution × Executor)
      → execute_admitted commander b a x ≡ some r
      → Finished (action_sequence a) x r ⊎ Halted (action_sequence a) x r
  unfolding execute_admitted
  execute_admitted-ends a x r h =
      let l = run_steps commander b (action_sequence a) x.calls [] in
      elim (Bool-cases l.completed) [
        | inl e ↦ inl (ground (arith, run_steps_completed (action_sequence a) x.calls []))
        | inr e ↦
            let (n, p) = run_steps_prefix (action_sequence a) x.calls [] in
            inr (ground arith, ground arith, (n, ground arith))
      ]

  -- With the gate shut or an action that the guard rejects the executor makes no call and counts
  -- nothing. Otherwise it sends the whole sequence of that action and counts it, or a first part
  -- of it followed by a zero velocity, and counts nothing.
  pub execute-ends :
      (enabled : Bool) (d : Decision) (x : Executor) (r : Execution × Executor)
      → execute commander b enabled d x ≡ some r
      → (((enabled && (d.guard_results d.recommended_action).eligible) ≡ false) × Idle x r)
        ⊎ ((enabled ≡ true)
            × ((d.guard_results d.recommended_action).eligible ≡ true)
            × (Finished (action_sequence d.recommended_action) x r
                ⊎ Halted (action_sequence d.recommended_action) x r))
  unfolding execute
  execute-ends enabled d x r h = elim (Bool-cases enabled) [
    | inl on ↦ elim (Bool-cases (d.guard_results d.recommended_action).eligible) [
      | inl admitted ↦ inr (
        on,
        admitted,
        execute_admitted-ends d.recommended_action (log_guard_rejections d.guard_results x) r
            (ground arith),
      )
      | inr rejected ↦ inl (ground arith, ground arith)
    ]
    | inr off ↦ inl (ground arith, ground arith)
  ]

  -- If a zero velocity can always be sent, `execute` returns.
  pub execute_total :
      (enabled : Bool) (d : Decision) (x : Executor)
      → ((calls : List Call) → commander calls (plain zero_cmd_vel) ≡ true)
      → execute commander b enabled d x ≢ none
  unfolding execute
  execute_total enabled d x stops h =
      ground (
        arith,
        stops (run_steps commander b (action_sequence d.recommended_action) x.calls []).calls,
      )

  pub safe_stop-ends :
      (enabled : Bool) (x : Executor) (r : Execution × Executor)
      → safe_stop commander b enabled x ≡ some r
      → (r.1.executed_count ≡ x.executed_count)
        × ((r.0.execution_performed ≡ true)
            → (enabled ≡ true) × (r.1.calls ≡ pushed safe_stop_prefix x.calls))
  unfolding safe_stop
  safe_stop-ends enabled x r h = ground (arith, run_steps_completed safe_stop_prefix x.calls [])

  pub safe_stop_total :
      (enabled : Bool) (x : Executor)
      → ((calls : List Call) → commander calls (plain zero_cmd_vel) ≡ true)
      → safe_stop commander b enabled x ≢ none
  unfolding safe_stop
  safe_stop_total enabled x stops h =
      ground (arith, stops (run_steps commander b safe_stop_prefix x.calls []).calls)
