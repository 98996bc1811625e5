-- ===== src/Alarm/Replay.antt =====
-- The online replay of the policy: `Scorer.score` of
-- ros_ws/src/failure_monitor/failure_monitor/monitor_core.py over src/evaluation/policy.py.
use failure_prediction.Prelude.{false, List, [], ◌∷◌, ◌++◌, ◌≡◌, refl, sym, ◌∙◌, arith}
use failure_prediction.Prelude.Result.{ok}
use failure_prediction.Alarm.Policy.{
  AlarmPolicy, Row, Output, State, not_after, output_of, next_state, apply_from, initial,
  apply_alarm_policy, validate, last_output, score, score_all,
}
use failure_prediction.Alarm.Cooldown.{apply_from_cons}

-- The state that the loop reaches after `rows`.
abbrev pub state_after : AlarmPolicy → State → List Row → State
state_after p st [] = st
state_after p st (row ∷ rows) = state_after p (next_state p st row) rows

last_output-append : (xs : List Output) (o : Output) → last_output (xs ++ o ∷ []) ≡ ok o
unfolding last_output
last_output-append [] o = refl
last_output-append (x ∷ []) o = refl
last_output-append (x ∷ y ∷ xs) o = last_output-append (y ∷ xs) o

append_assoc {ℓ} :
    {A : Type ℓ} (xs : List A) (y : A) (zs : List A) → (xs ++ y ∷ []) ++ zs ≡ xs ++ y ∷ zs
append_assoc [] y zs = refl
append_assoc (x ∷ xs) y zs = rw (append_assoc xs y zs) refl

module _ (p : AlarmPolicy) where
  -- A loop that got over `xs` and a row more output one element more.
  pub apply_from-snoc :
      (st : State) (xs : List Row) (row : Row) (us : List Output)
      → apply_from p st xs ≡ ok us
      → not_after row.decision_time (state_after p st xs).previous_time ≡ false
      → apply_from p st (xs ++ row ∷ []) ≡ ok (us ++ output_of p (state_after p st xs) row ∷ [])
  unfolding apply_from
  apply_from-snoc st [] row us h k = let q : us ≡ [] = ground arith in rw (q, k) refl
  apply_from-snoc st (x ∷ xs) row us h k =
      let (vs, later, r, q) = apply_from_cons p st x xs h in
      rw (later, q, apply_from-snoc (next_state p st x) xs row vs r k) refl

  pub state_after-snoc :
      (st : State) (xs : List Row) (row : Row)
      → state_after p st (xs ++ row ∷ []) ≡ next_state p (state_after p st xs) row
  state_after-snoc st [] row = refl
  state_after-snoc st (x ∷ xs) row = state_after-snoc (next_state p st x) xs row

  pub score-snoc :
      (seen : List Row) (row : Row) (us : List Output) {o : Output}
      → validate p ≡ ok tt
      → apply_from p initial (seen ++ row ∷ []) ≡ ok (us ++ o ∷ [])
      → score p seen row ≡ ok o
  unfolding score apply_alarm_policy
  score-snoc seen row us {o} v h = rw (v, h) (last_output-append us o)

  score_all-from :
      (seen rows : List Row) (us outputs : List Output)
      → validate p ≡ ok tt
      → apply_from p initial seen ≡ ok us
      → apply_from p (state_after p initial seen) rows ≡ ok outputs
      → score_all p seen rows ≡ ok outputs
  unfolding score_all apply_from
  score_all-from seen [] us outputs v h r = r
  score_all-from seen (row ∷ rows) us outputs v h r =
      let (os, later, r', q) = apply_from_cons p (state_after p initial seen) row rows r in
      let longer = apply_from-snoc initial seen row us h later in
      let rest =
        score_all-from (seen ++ row ∷ []) rows
          (us ++ output_of p (state_after p initial seen) row ∷ []) os v longer
          (rw (state_after-snoc initial seen row) r') in
      rw (score-snoc seen row us v longer, rest, q) refl

apply_alarm_policy-valid :
    (rows : List Row) (p : AlarmPolicy)
    → validate p ≡ ok tt
    → apply_alarm_policy rows p ≡ apply_from p initial rows
unfolding apply_alarm_policy
apply_alarm_policy-valid rows p v = rw v refl

-- Where the policy over a whole episode returns, scoring the episode's rows one by one, with a replay
-- of the policy at each, returns the same outputs.
pub score_all-replay :
    (rows : List Row) (p : AlarmPolicy) (outputs : List Output)
    → validate p ≡ ok tt
    → apply_alarm_policy rows p ≡ ok outputs
    → score_all p [] rows ≡ ok outputs
unfolding apply_from
score_all-replay rows p outputs v h =
    score_all-from p [] rows [] outputs v refl (sym (apply_alarm_policy-valid rows p v) ∙ h)
