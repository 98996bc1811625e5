-- ===== src/Monitor/Core/Numbered.antt =====
-- The warnings of a mission (monitor_core.py).
use mathlib.Core.Path.{subst}
use failure_prediction.Prelude.{
  ℕ, suc, ◌+◌, List, [], ◌∷◌, ◌++◌, ◌-◌, if_either, ◌≡◌, arith, ltb, length, if◌then◌else◌,
  Bool-cases, inl, inr, not, ◌*◌, ◌==◌,
}
use failure_prediction.Prelude.Result.{Result, ok, raise_if, ◌>>◌, bind_ok, Result-cases}
use failure_prediction.Alarm.Policy.{Output, score}
use failure_prediction.Monitor.State.{estimate_robot_state}
use failure_prediction.Monitor.Core.{
  StepError, not_consecutive, no_extraction, outside_history, no_scorer, no_score, of_policy,
  all_within, scored, Setup, Core, Alarm, Decision, due_grid_times, row_at, alarm_of, with_alarm,
  record_decision, advanced, step_one, step_all, step, run, outputs_of,
}

-- Alarms are numbered on from `n`, and each was sent with the number of alarms before it as the
-- count of recoveries.
abbrev pub NumberedFrom : ℕ → List Alarm → Type 0
NumberedFrom n [] = Unit
NumberedFrom n (a ∷ alarms) =
    (a.number ≡ n + 1) × (a.state.repeated_recovery_count ≡ n) × NumberedFrom (n + 1) alarms

-- How many decisions the policy gave an alarm for.
abbrev pub alarm_count : List Output → ℕ
alarm_count [] = 0
alarm_count (o ∷ os) = let rest = alarm_count os in if o.alarm then suc rest else rest

pub record IsNumbered (core : Core) : Type 0 where
  pub numbered : NumberedFrom 0 core.alarms
  pub counted : length core.alarms ≡ alarm_count (outputs_of core.decisions)

NumberedFrom-snoc :
    (n : ℕ) (alarms : List Alarm) (a : Alarm)
    → NumberedFrom n alarms
    → a.number ≡ n + length alarms + 1
    → a.state.repeated_recovery_count ≡ n + length alarms
    → NumberedFrom n (alarms ++ a ∷ [])
NumberedFrom-snoc n [] a h p q = (omega (arith, p), omega (arith, q), tt)
NumberedFrom-snoc n (x ∷ alarms) a (h, k, r) p q =
    (h, k, NumberedFrom-snoc (n + 1) alarms a r (omega (arith, p)) (omega (arith, q)))

alarm_count-snoc :
    (ds : List Decision) (d : Decision)
    → alarm_count (outputs_of (ds ++ d ∷ []))
      ≡ alarm_count (outputs_of ds) + (if d.output.alarm then 1 else 0)
alarm_count-snoc [] d = ground arith
alarm_count-snoc (e ∷ ds) d = ground (arith, alarm_count-snoc ds d)

pub length-snoc {ℓ} : {A : Type ℓ} (xs : List A) (x : A) → length (xs ++ x ∷ []) ≡ length xs + 1
length-snoc [] x = omega arith
length-snoc (y ∷ xs) x = omega (arith, length-snoc xs x)

module _ (u : Setup) where
  with_alarm-NumberedFrom :
      (index t : ℕ) (o : Output) (alarms : List Alarm)
      → NumberedFrom 0 alarms
      → NumberedFrom 0 (with_alarm u index t o alarms)
  unfolding with_alarm alarm_of estimate_robot_state
  with_alarm-NumberedFrom index t o alarms h =
      if_either (NumberedFrom 0) o.alarm
        (λ a. NumberedFrom-snoc 0 alarms (alarm_of u index t alarms) h (omega arith) (omega arith))
        (λ a. h)

  length-with_alarm :
      (index t : ℕ) (o : Output) (alarms : List Alarm)
      → length (with_alarm u index t o alarms) ≡ length alarms + (if o.alarm then 1 else 0)
  unfolding with_alarm
  length-with_alarm index t o alarms =
      ground (arith, length-snoc alarms (alarm_of u index t alarms))

  record_decision-IsNumbered :
      (index t : ℕ) (o : Output) (core : Core)
      → IsNumbered core
      → IsNumbered (record_decision u index t o core)
  unfolding record_decision
  record_decision-IsNumbered index t o core h = record {
    numbered = with_alarm-NumberedFrom index t o core.alarms h.numbered;
    counted = omega (
      arith,
      length-with_alarm index t o core.alarms,
      h.counted,
      alarm_count-snoc core.decisions
          (record { grid_index = index; decision_index = index - u.steps; output = o }),
    );
  }

  waiting : (index t : ℕ) (core : Core) → IsNumbered core → IsNumbered (advanced u index t core)
  unfolding advanced
  waiting index t core h = record { numbered = h.numbered; counted = h.counted }

  ok_inj : {a b : Core} → ◌≡◌ {A = Result StepError Core} (ok a) (ok b) → a ≡ b
  ok_inj h = cc

  scored-IsNumbered :
      (index t : ℕ) (core after : Core)
      → scored u index t core ≡ ok after
      → IsNumbered core
      → IsNumbered after
  unfolding scored
  scored-IsNumbered index t core after e h =
      let guards =
        raise_if (not (all_within (u.stride * u.steps) t core.tail)) outside_history
        >> raise_if (not u.has_scorer) no_scorer
        >> raise_if (not (u.scores index)) (no_score index) in
      let (o, _, g) =
        bind_ok (guards >> of_policy (score u.policy core.rows (row_at u index t)))
          (λ o. ok (record_decision u index t o core)) after e in
      subst IsNumbered (ok_inj g) (record_decision-IsNumbered index t o core h)

  step_one-IsNumbered :
      (index t : ℕ) (core after : Core)
      → step_one u index t core ≡ ok after
      → IsNumbered core
      → IsNumbered after
  unfolding step_one
  step_one-IsNumbered index t core after e h =
      let core' = advanced u index t core in
      let consecutive = raise_if (not (index == core.next_grid_index)) not_consecutive in
      let extracted = raise_if (not (u.extracts index)) (no_extraction index) in
      let (_, _, g) =
        bind_ok (consecutive >> extracted)
          (λ _. if ltb (length core'.tail) u.steps then ok core' else scored u index t core') after
          e in
      elim (Bool-cases (ltb (length core'.tail) u.steps)) [
        | inl few ↦ subst IsNumbered (ok_inj (rw few at g)) (waiting index t core h)
        | inr enough ↦
            scored-IsNumbered index t core' after (rw enough at g) (waiting index t core h)
      ]

  step_all-IsNumbered :
      (due : List (ℕ × ℕ)) (core after : Core)
      → step_all u due core ≡ ok after
      → IsNumbered core
      → IsNumbered after
  unfolding step_all
  step_all-IsNumbered [] core after e h = subst IsNumbered (ground arith) h
  step_all-IsNumbered ((index, t) ∷ due) core after e h =
      elim (Result-cases (step_one u index t core)) [
        | inl (mid, p) ↦
            step_all-IsNumbered due mid after (ground arith)
              (step_one-IsNumbered index t core mid p h)
        | inr (x, p) ↦ absurd (ground arith)
      ]

  -- However the timer calls come, the warnings of a mission are numbered from one without a gap or a
  -- repetition, each is sent with the number of warnings before it as its count of recoveries, and
  -- there is one for each decision with an alarm.
  pub run-IsNumbered :
      (nows : List ℕ) (core after : Core)
      → IsNumbered core
      → run u nows core ≡ ok after
      → IsNumbered after
  unfolding run step
  run-IsNumbered [] core after h e = subst IsNumbered (ground arith) h
  run-IsNumbered (now ∷ nows) core after h e = elim (Result-cases (step u now core)) [
    | inl (mid, p) ↦
        run-IsNumbered nows mid after (step_all-IsNumbered (due_grid_times u core now) core mid p h)
          (ground arith)
    | inr (x, p) ↦ absurd (ground arith)
  ]
