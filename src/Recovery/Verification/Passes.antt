-- ===== src/Recovery/Verification/Passes.antt =====
-- The outcome of the exhaustive check (src/recovery/verification.py).
use Prim.Native.String.{String, count, ◌++◌ as str_append}
use text.Mathlib.Text.{◌==◌ as str_eq}
use text.Mathlib.TextEquality.{eq_iff}
use text.Mathlib.TextLemmas.{length-append}
use mathlib.Core.Path.{subst}
use failure_prediction.Prelude.{
  ℕ, suc, ◌+◌, ◌*◌, ◌<◌, Bool, true, false, none, some, List, [], ◌∷◌, ◌≡◌, refl, ap, ◌∙◌, arith,
  length, All, All-append, for_each, Bool-cases, inl, inr,
}
use failure_prediction.Prelude.Result.{ok, ◌>>◌}
use failure_prediction.Recovery.Types.{
  Action, actions, GuardConfig, RobotState, Guards, SignalGroup, r2, r3,
}
use failure_prediction.Recovery.Guards.{
  validate_guards, guard_table, eligible_actions, budget_exhausted,
}
use failure_prediction.Recovery.Manager.{RecoveryRequest, validate_request}
use failure_prediction.Recovery.Manager.Authority.{
  IsSupported, decide_recovery_total, decide_recovery-table,
}
use failure_prediction.Recovery.Verification.{
  risk, signal_groups, signal_name, costs_from, state_space, invariant_errors, Query, request_of,
  signal_request, run_id, warning_id, queries, check_queries, same_bool, Report, add_state, nothing,
  verify_states, verify_guard_space, passed,
}

same_bool_self : (b : Bool) → same_bool b b ≡ true
same_bool_self true = refl
same_bool_self false = refl

invariant_errors-table :
    (s : RobotState) (c : GuardConfig) → invariant_errors s c (guard_table s c) ≡ []
unfolding invariant_errors guard_table
invariant_errors-table s c = elim (Bool-cases (budget_exhausted s c)) [
  | inl e ↦ rw e refl
  | inr e ↦ simp (e, same_bool_self) refl
]

append-nonempty : (s t : String) → 0 < count s → str_eq (str_append s t) "" ≡ false
append-nonempty s t h = elim (Bool-cases (str_eq (str_append s t) "")) [
  | inr e ↦ e
  | inl e ↦
      let none_left = ap count ((eq_iff (str_append s t) "").0 e) in
      absurd (omega (arith, none_left, length-append s t, h))
]

-- A query of the check: a valid request under a policy that decides.
IsReady : Query → Type 0
IsReady q = (validate_request q.request ≡ ok tt) × IsSupported q.policy q.costs

validate_request-risk :
    (r : RecoveryRequest)
    → str_eq r.run_id "" ≡ false
    → str_eq r.warning_id "" ≡ false
    → r.risk_score ≡ risk
    → validate_request r ≡ ok tt
unfolding validate_request
validate_request-risk r named warned e = rw (named, warned, e) refl

module _ (str : ℕ → String) (index : ℕ) (s : RobotState) where
  named : str_eq (run_id str index) "" ≡ false
  named = append-nonempty "verification-" (str index) (omega arith)

  warned : str_eq (warning_id str index) "" ≡ false
  warned = append-nonempty "warning-" (str index) (omega arith)

  request_of-ready : validate_request (request_of str index s) ≡ ok tt
  request_of-ready = validate_request-risk (request_of str index s) named warned refl

  signal_request-ready :
      (signal : SignalGroup) → validate_request (signal_request str index s signal) ≡ ok tt
  signal_request-ready signal =
      validate_request-risk (signal_request str index s signal) named
        (append-nonempty (warning_id str index) (str_append "-" (signal_name signal))
          (omega (arith, length-append "warning-" (str index))))
        refl

  rules-IsReady :
      (signals : List SignalGroup)
      → All IsReady (
          for_each signals λ signal.
            (record { request = signal_request str index s signal; policy = r2; costs = none })
            ∷ [])
  unfolding IsReady for_each
  rules-IsReady [] = tt
  rules-IsReady (signal ∷ signals) = ((signal_request-ready signal, tt), rules-IsReady signals)

  costs-IsReady :
      (all : List Action)
      → All IsReady (
          for_each all λ cheapest.
            (record {
              request = request_of str index s;
              policy = r3;
              costs = some (costs_from cheapest 0 actions);
            })
            ∷ [])
  unfolding IsReady for_each
  costs-IsReady [] = tt
  costs-IsReady (a ∷ all) = ((request_of-ready, tt), costs-IsReady all)

  queries-IsReady : All IsReady (queries str index s)
  unfolding queries IsReady
  queries-IsReady = (
    (request_of-ready, tt),
    All-append IsReady
        (for_each signal_groups λ signal.
          (record { request = signal_request str index s signal; policy = r2; costs = none }) ∷ [])
        (for_each actions λ cheapest.
          (record {
            request = request_of str index s;
            policy = r3;
            costs = some (costs_from cheapest 0 actions);
          })
          ∷ [])
        (rules-IsReady signal_groups) (costs-IsReady actions),
  )

  queries-state : All (λ q. q.request.state ≡ s) (queries str index s)
  unfolding queries for_each
  queries-state = (
    refl,
    (
      refl,
      (
        refl,
        (
          refl,
          (
            refl,
            (refl, (refl, (refl, (refl, (refl, (refl, (refl, (refl, (refl, (refl, tt)))))))))),
          ),
        ),
      ),
    ),
  )

check_queries-clean :
    (c : GuardConfig) (s : RobotState) (qs : List Query)
    → validate_guards c ≡ ok tt
    → All (λ q. q.request.state ≡ s) qs
    → All IsReady qs
    → check_queries c (guard_table s c) qs ≡ ok []
unfolding check_queries IsReady
check_queries-clean c s [] v same ready = refl
check_queries-clean c s (q ∷ qs) v (here, same) ((request, supported), ready) =
    let (d, e) = decide_recovery_total q.request c q.policy q.costs request v supported in
    let (table, admitted) = decide_recovery-table q.request c q.policy q.costs e in
    let rest = check_queries-clean c s qs v same ready in
    let allowed : (guard_table s c d.recommended_action).eligible ≡ true =
      subst (λ x. (guard_table x c d.recommended_action).eligible ≡ true) here admitted in
    rw (e, rest, allowed) refl

abbrev decisions_each : ℕ
decisions_each = 15

-- The part of a report that tells of violations and of how much was checked.
record Clean (states : ℕ) (r : Report) : Type 0 where
  checked : r.states_checked ≡ states
  decided : r.policy_decisions_checked ≡ states * decisions_each
  none_found : r.violations ≡ []

add_state-Clean :
    (str : ℕ → String) (index states : ℕ) (s : RobotState) (guards : Guards) (r : Report)
    → Clean states r
    → Clean (suc states) (add_state index guards (length (queries str index s)) [] r)
unfolding queries for_each
add_state-Clean str index states s guards r clean = record {
  checked = ap suc clean.checked;
  decided = omega (arith, clean.decided);
  none_found = rw clean.none_found refl;
}

verify_states-Clean :
    (str : ℕ → String) (c : GuardConfig) (index states : ℕ) (ss : List RobotState) (r : Report)
    → validate_guards c ≡ ok tt
    → Clean states r
    → (r' : Report) × (verify_states str c index ss r ≡ ok r') × Clean (states + length ss) r'
unfolding verify_states eligible_actions
verify_states-Clean str c index states [] r v clean =
    (r, refl, subst (λ n. Clean n r) (omega arith) clean)
verify_states-Clean str c index states (s ∷ ss) r v clean =
    let guards = guard_table s c in
    let found =
      check_queries-clean c s (queries str index s) v (queries-state str index s)
        (queries-IsReady str index s) in
    let next = add_state index guards (length (queries str index s)) [] r in
    let (r', e, after) =
      verify_states-Clean str c (suc index) (suc states) ss next v
        (add_state-Clean str index states s guards r clean) in
    (r', rw (v, found, invariant_errors-table s c) e, subst (λ n. Clean n r') (omega arith) after)

length-state_space : (hundredth : ℕ) (c : GuardConfig) → length (state_space hundredth c) ≡ 3456
unfolding state_space for_each
length-state_space hundredth c = refl

-- For every valid configuration the exhaustive check of the guard returns, passes without a violation,
-- and has checked 3,456 states and 51,840 decisions.
pub verify_guard_space-passes :
    (str : ℕ → String) (c : GuardConfig) (hundredth : ℕ)
    → validate_guards c ≡ ok tt
    → (r : Report) × (verify_guard_space str c hundredth ≡ ok r)
      × (passed r ≡ true)
      × (r.states_checked ≡ 3456)
      × (r.policy_decisions_checked ≡ 51_840)
unfolding verify_guard_space passed
verify_guard_space-passes str c hundredth v =
    let (r, e, clean) =
      verify_states-Clean str c 0 0 (state_space hundredth c) nothing v
        (record { checked = refl; decided = refl; none_found = refl }) in
    let size = length-state_space hundredth c in
    (
      r,
      ap (λ m. m >> verify_states str c 0 (state_space hundredth c) nothing) v ∙ e,
      rw clean.none_found refl,
      omega (arith, clean.checked, size),
      omega (arith, clean.decided, size),
    )
