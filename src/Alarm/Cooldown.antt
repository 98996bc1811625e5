-- ===== src/Alarm/Cooldown.antt =====
-- The cooldown of src/evaluation/policy.py.
use failure_prediction.Prelude.{
  ℕ, ◌+◌, ◌≤◌, true, false, some, List, [], ◌∷◌, ◌≡◌, refl, arith, All, All-mono, if◌then◌else◌,
  Bool-cases, inl, inr,
}
use failure_prediction.Prelude.Result.{ok, Result-cases}
use failure_prediction.Alarm.Policy.{
  AlarmPolicy, Row, Output, State, not_after, output_of, next_state, apply_from, initial,
  apply_alarm_policy,
}

-- The times of the alarms, in the order of the rows.
abbrev pub alarm_times : List Output → List ℕ
alarm_times [] = []
alarm_times (o ∷ os) =
    let rest = alarm_times os in if o.alarm then o.source.decision_time ∷ rest else rest

-- Every alarm among `outputs` is at `t` or later.
abbrev AlarmsFrom : ℕ → List Output → Type 0
AlarmsFrom t outputs = All (λ u. t ≤ u) (alarm_times outputs)

-- Each time is followed only by times that are `cooldown` later.
abbrev pub Spaced : ℕ → List ℕ → Type 0
Spaced cooldown [] = Unit
Spaced cooldown (t ∷ ts) = All (λ u. t + cooldown ≤ u) ts × Spaced cooldown ts

-- The state remembers no alarm later than the previous row.
abbrev IsTimed : State → Type 0
IsTimed st = (l : ℕ) → st.last_alarm ≡ some l → (t : ℕ) × (st.previous_time ≡ some t) × (l ≤ t)

module _ (p : AlarmPolicy) where
  -- Inversion of the loop: the order of the times, the rest of the outputs, and the first one.
  pub apply_from_cons :
      (st : State) (row : Row) (rows : List Row) {outputs : List Output}
      → apply_from p st (row ∷ rows) ≡ ok outputs
      → (os : List Output) × (not_after row.decision_time st.previous_time ≡ false)
        × (apply_from p (next_state p st row) rows ≡ ok os)
        × (outputs ≡ output_of p st row ∷ os)
  unfolding apply_from
  apply_from_cons st row rows h = elim (Result-cases (apply_from p (next_state p st row) rows)) [
    | inl (os, e) ↦ (os, ground arith, ground arith, ground arith)
    | inr (x, e) ↦ absurd (ground arith)
  ]

  next_state-IsTimed :
      (st : State) (row : Row)
      → not_after row.decision_time st.previous_time ≡ false
      → IsTimed st
      → IsTimed (next_state p st row)
  unfolding next_state
  next_state-IsTimed st row later h l e = (
    row.decision_time,
    refl,
    elim (Bool-cases (output_of p st row).alarm) [
      | inl a ↦ ground arith
      | inr a ↦ let (t, q, k) = h l (ground arith) in ground arith
    ],
  )

  last_before :
      (st : State) (row : Row) (l : ℕ)
      → not_after row.decision_time st.previous_time ≡ false
      → IsTimed st
      → st.last_alarm ≡ some l
      → l ≤ row.decision_time
  last_before st row l later h e = let (t, q, k) = h l e in ground arith

  alarm-cooled :
      (st : State) (row : Row) (l : ℕ)
      → l ≤ row.decision_time
      → st.last_alarm ≡ some l
      → (output_of p st row).alarm ≡ true
      → l + p.cooldown_seconds ≤ row.decision_time
  unfolding output_of
  alarm-cooled st row l before e a = ground arith

  last-next_state :
      (st : State) (row : Row)
      → (next_state p st row).last_alarm
        ≡ (if (output_of p st row).alarm then some row.decision_time else st.last_alarm)
  unfolding next_state
  last-next_state st row = refl

  source-output_of : (st : State) (row : Row) → (output_of p st row).source ≡ row
  unfolding output_of
  source-output_of st row = refl

  -- With an alarm at `l` behind it, the loop raises the next one at `l + cooldown` at the earliest.
  apply_from-AlarmsFrom :
      (st : State) (rows : List Row) (outputs : List Output) (l : ℕ)
      → IsTimed st
      → st.last_alarm ≡ some l
      → apply_from p st rows ≡ ok outputs
      → AlarmsFrom (l + p.cooldown_seconds) outputs
  unfolding apply_from
  apply_from-AlarmsFrom st [] outputs l h e r = let q : outputs ≡ [] = ground arith in rw q tt
  apply_from-AlarmsFrom st (row ∷ rows) outputs l h e r =
      let (os, later, r', q) = apply_from_cons st row rows r in
      let before = last_before st row l later h e in
      let timed = next_state-IsTimed st row later h in
      let row_time = source-output_of st row in
      rw q (elim (Bool-cases (output_of p st row).alarm) [
        | inl a ↦
            let here = alarm-cooled st row l before e a in
            let rest =
              apply_from-AlarmsFrom (next_state p st row) rows os row.decision_time timed
                (rw (last-next_state, a)) r' in
            rw (a, row_time)
              (
                here,
                All-mono (λ u. row.decision_time + p.cooldown_seconds ≤ u)
                    (λ u. l + p.cooldown_seconds ≤ u) (λ u k. omega arith) (alarm_times os) rest,
              )
        | inr a ↦ rw a (
            apply_from-AlarmsFrom (next_state p st row) rows os l timed (rw (last-next_state, a) e)
              r')
      ])

  apply_from-Spaced :
      (st : State) (rows : List Row) (outputs : List Output)
      → IsTimed st
      → apply_from p st rows ≡ ok outputs
      → Spaced p.cooldown_seconds (alarm_times outputs)
  unfolding apply_from
  apply_from-Spaced st [] outputs h r = let q : outputs ≡ [] = ground arith in rw q tt
  apply_from-Spaced st (row ∷ rows) outputs h r =
      let (os, later, r', q) = apply_from_cons st row rows r in
      let timed = next_state-IsTimed st row later h in
      let rest = apply_from-Spaced (next_state p st row) rows os timed r' in
      rw q (elim (Bool-cases (output_of p st row).alarm) [
        | inl a ↦
            rw (a, source-output_of st row)
              (
                apply_from-AlarmsFrom (next_state p st row) rows os row.decision_time timed
                    (rw (last-next_state, a)) r',
                rest,
              )
        | inr a ↦ rw a rest
      ])

-- In the output for an episode, an alarm comes a cooldown after every earlier one at the earliest.
pub apply_alarm_policy-Spaced :
    (rows : List Row) (p : AlarmPolicy) (outputs : List Output)
    → apply_alarm_policy rows p ≡ ok outputs
    → Spaced p.cooldown_seconds (alarm_times outputs)
unfolding apply_alarm_policy
apply_alarm_policy-Spaced rows p outputs h =
    apply_from-Spaced p initial rows outputs (λ l e. cc) (ground arith)
