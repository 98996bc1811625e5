-- ===== src/Monitor/Core/Replayed.antt =====
-- The decisions of the monitor against the policy over its rows (monitor_core.py).
use mathlib.Core.Path.{subst}
use native.Mathlib.Nat.{mul-le-mul_right}
use failure_prediction.Monitor.Core.Numbered.{length-snoc}
use failure_prediction.Prelude.{
  ℕ, zero, suc, ◌≤◌, ◌<◌, false, some, true, ◌+◌, ◌-◌, ◌*◌, min, take, length, All, ◌==◌, List, [],
  ◌∷◌, ◌++◌, ◌≡◌, refl, sym, ap, ◌∙◌, arith, ltb, ltb→lt, Bool-cases, inl, inr,
}
use failure_prediction.Prelude.Result.{ok}
use failure_prediction.Alarm.Policy.{
  Row, Output, State, not_after, output_of, next_state, validate, apply_from, initial,
  apply_alarm_policy, score,
}
use failure_prediction.Alarm.Replay.{state_after, apply_from-snoc, state_after-snoc, score-snoc}
use failure_prediction.Monitor.Core.{
  all_within, scored, Setup, Core, Decision, idle, grid_time, due_from, due_since, due_grid_times,
  row_at, record_decision, advanced, mission_started, step_one, step_all, step, run, outputs_of,
}

outputs_of-snoc :
    (ds : List Decision) (d : Decision) → outputs_of (ds ++ d ∷ []) ≡ outputs_of ds ++ d.output ∷ []
outputs_of-snoc [] d = refl
outputs_of-snoc (e ∷ ds) d = ap (λ l. e.output ∷ l) (outputs_of-snoc ds d)

reaches : (a b : ℕ) → ltb a b ≡ false → b ≤ a
reaches a b h = ground arith

-- Times that go back by strides from before `next`.
abbrev Back : ℕ → ℕ → List ℕ → Type 0
Back stride next [] = Unit
Back stride next (s ∷ times) = (s + stride ≡ next) × Back stride s times

Back-take :
    (stride next n : ℕ) (times : List ℕ) → Back stride next times → Back stride next (take n times)
Back-take stride next zero times h = tt
Back-take stride next (suc n) [] h = tt
Back-take stride next (suc n) (s ∷ times) (e, h) = (e, Back-take stride s n times h)

length-take : (n : ℕ) (times : List ℕ) → length (take n times) ≡ min n (length times)
length-take zero times = omega arith
length-take (suc n) [] = omega arith
length-take (suc n) (s ∷ times) = omega (arith, length-take n times)

suc_le : (k n : ℕ) → k < n → suc k ≤ n
suc_le k n h = omega arith

-- A list of at most `steps` strides back lies within as many strides.
Back-all_within :
    (stride steps t k s : ℕ) (times : List ℕ)
    → 1 ≤ stride
    → t ≡ s + stride * k
    → k + length times < steps
    → Back stride s times
    → all_within (stride * steps) t (s ∷ times) ≡ true
Back-all_within stride steps t k s [] positive e few h =
    let room = mul-le-mul_right stride (suc_le k steps (omega arith)) in
    let before : t < s + stride * steps = grind arith in
    let behind : s ≤ t = grind arith in ground arith
Back-all_within stride steps t k s (r ∷ times) positive e few (back, h) =
    let room = mul-le-mul_right stride (suc_le k steps (omega arith)) in
    let before : t < s + stride * steps = grind arith in
    let behind : s ≤ t = grind arith in
    let earlier : t ≡ r + stride * suc k = grind arith in
    let rest = Back-all_within stride steps t (suc k) r times positive earlier (omega arith) h in
    ground arith

take-within :
    (stride n t : ℕ) (times : List ℕ)
    → 1 ≤ stride
    → Back stride t times
    → all_within (stride * n) t (take n (t ∷ times)) ≡ true
take-within stride zero t times positive h = refl
take-within stride (suc n) t times positive h =
    let few = length-take n times in
    Back-all_within stride (suc n) t 0 t (take n times) positive (grind arith) (omega arith)
      (Back-take stride t n times h)

module _ (u : Setup) where
  -- The decisions hold the policy's outputs over the rows, which all lie before `next`; the tail holds
  -- the grid points before it, and each point with a full tail has its row.
  pub record IsReplayed (next : ℕ) (core : Core) : Type 0 where
    pub later : 1 ≤ core.next_grid_index
    pub recent : Back u.stride next core.tail
    pub filled : length core.tail ≡ min u.steps (core.next_grid_index - 1)
    pub counted : length core.rows ≡ core.next_grid_index - u.steps
    pub replayed : apply_from u.policy initial core.rows ≡ ok (outputs_of core.decisions)
    pub past :
        (t : ℕ)
        → next ≤ t
        → not_after t (state_after u.policy initial core.rows).previous_time ≡ false

  -- A scored decision gets the output of the policy's loop after the earlier rows.
  abbrev next_output : ℕ → ℕ → Core → Output
  next_output index t core =
      output_of u.policy (state_after u.policy initial core.rows) (row_at u index t)

  score-next_output :
      (index t : ℕ) (core : Core)
      → validate u.policy ≡ ok tt
      → IsReplayed t core
      → score u.policy core.rows (row_at u index t) ≡ ok (next_output index t core)
  score-next_output index t core v h =
      score-snoc u.policy core.rows (row_at u index t) (outputs_of core.decisions) v (
        apply_from-snoc u.policy initial core.rows (row_at u index t) (outputs_of core.decisions)
          h.replayed (h.past t (omega arith)))

  not_after-next_state :
      (st : State) (row : Row) (s : ℕ)
      → row.decision_time < s
      → not_after s (next_state u.policy st row).previous_time ≡ false
  unfolding next_state
  not_after-next_state st row s h = ground arith

  module _ (index t : ℕ) (core : Core) (steps : 1 ≤ u.steps) (now : index ≡ core.next_grid_index)
      (h : IsReplayed t core) where
    advanced-filled : length (advanced u index t core).tail ≡ min u.steps index
    unfolding advanced
    advanced-filled = omega (arith, length-take u.steps (t ∷ core.tail), h.filled, h.later, now)

    advanced-Back : Back u.stride (t + u.stride) (advanced u index t core).tail
    unfolding advanced
    advanced-Back = Back-take u.stride (t + u.stride) u.steps (t ∷ core.tail) (refl, h.recent)

    advanced-within :
        1 ≤ u.stride → all_within (u.stride * u.steps) t (advanced u index t core).tail ≡ true
    unfolding advanced
    advanced-within positive = take-within u.stride u.steps t core.tail positive h.recent

    record_decision-IsReplayed :
        ltb (length (advanced u index t core).tail) u.steps ≡ false
        → 1 ≤ u.stride
        → IsReplayed
            (t + u.stride)
            (record_decision u index t (next_output index t core) (advanced u index t core))
    unfolding record_decision advanced
    record_decision-IsReplayed enough positive = record {
      later = omega arith;
      recent = advanced-Back;
      filled = omega (arith, advanced-filled);
      counted = omega (
        arith,
        length-snoc core.rows (row_at u index t),
        h.counted,
        h.later,
        now,
        advanced-filled,
        reaches (length (take u.steps (t ∷ core.tail))) u.steps enough,
      );
      replayed = rw (outputs_of-snoc core.decisions) (
          apply_from-snoc u.policy initial core.rows (row_at u index t) (outputs_of core.decisions)
            h.replayed (h.past t (omega arith)));
      past = λ s q. rw (state_after-snoc u.policy initial core.rows (row_at u index t)) (
          not_after-next_state (state_after u.policy initial core.rows) (row_at u index t) s
            (omega arith));
    }

    waiting-IsReplayed :
        ltb (length (advanced u index t core).tail) u.steps ≡ true
        → IsReplayed (t + u.stride) (advanced u index t core)
    unfolding advanced
    waiting-IsReplayed few = record {
      later = omega arith;
      recent = advanced-Back;
      filled = omega (arith, advanced-filled);
      counted = omega (
        arith,
        h.counted,
        h.later,
        now,
        advanced-filled,
        ltb→lt (length (take u.steps (t ∷ core.tail))) u.steps few,
      );
      replayed = h.replayed;
      past = λ s q. h.past s (omega (arith, q));
    }

  -- The policy is valid, a history has a stride of at least one unit and at least one row, a scorer is
  -- attached, and the extraction and the model return at every grid point.
  pub record IsWorking : Type 0 where
    pub valid : validate u.policy ≡ ok tt
    pub strides : 1 ≤ u.stride
    pub rows_of_window : 1 ≤ u.steps
    pub attached : u.has_scorer ≡ true
    pub extracted : (index : ℕ) → u.extracts index ≡ true
    pub scored_at : (index : ℕ) → u.scores index ≡ true

  scored-next_output :
      (index t : ℕ) (core : Core)
      → IsWorking
      → index ≡ core.next_grid_index
      → IsReplayed t core
      → scored u index t (advanced u index t core)
        ≡ ok (record_decision u index t (next_output index t core) (advanced u index t core))
  unfolding scored advanced
  scored-next_output index t core w now h =
      rw
        (
          advanced-within index t core w.rows_of_window now h w.strides,
          w.attached,
          w.scored_at index,
          score-next_output index t core w.valid h,
        )
        refl

  -- One grid point is dealt with without an exception.
  step_one-IsReplayed :
      (index t : ℕ) (core : Core)
      → IsWorking
      → index ≡ core.next_grid_index
      → IsReplayed t core
      → (after : Core) × (step_one u index t core ≡ ok after)
        × (after.next_grid_index ≡ suc index)
        × (after.grid_start ≡ core.grid_start)
        × IsReplayed (t + u.stride) after
  unfolding step_one
  step_one-IsReplayed index t core w now h =
      let core' = advanced u index t core in
      let consecutive : (index == core.next_grid_index) ≡ true = ground arith in
      elim (Bool-cases (ltb (length core'.tail) u.steps)) [
        | inl few ↦ (
          core',
          rw (consecutive, w.extracted index, few) refl,
          refl,
          refl,
          waiting-IsReplayed index t core w.rows_of_window now h few,
        )
        | inr enough ↦ (
          record_decision u index t (next_output index t core) core',
          rw (consecutive, w.extracted index, enough) (scored-next_output index t core w now h),
          refl,
          refl,
          record_decision-IsReplayed index t core w.rows_of_window now h enough w.strides,
        )
      ]

  at_next :
      (start index : ℕ) (core : Core)
      → core.next_grid_index ≡ index
      → IsReplayed (grid_time start u.stride index) core
      → IsReplayed (grid_time start u.stride core.next_grid_index) core
  at_next start index core e h = subst (λ n. IsReplayed (grid_time start u.stride n) core) (sym e) h

  -- The grid points that are due, one after another, up to the first that is not.
  step_all-IsReplayed :
      (fuel start now index : ℕ) (core : Core)
      → IsWorking
      → IsReplayed (grid_time start u.stride index) core
      → core.next_grid_index ≡ index
      → now < fuel + grid_time start u.stride index
      → (after : Core) × (step_all u (due_from fuel start u.stride now index) core ≡ ok after)
        × (after.grid_start ≡ core.grid_start)
        × (index ≤ after.next_grid_index)
        × (now < grid_time start u.stride after.next_grid_index)
        × IsReplayed (grid_time start u.stride after.next_grid_index) after
  unfolding step_all due_from
  step_all-IsReplayed zero start now index core w h e enough =
      (core, refl, refl, omega arith, rw e (omega arith), at_next start index core e h)
  step_all-IsReplayed (suc fuel) start now index core w h e enough =
      elim (Bool-cases (ltb now (grid_time start u.stride index))) [
        | inl none_due ↦ (
          core,
          rw none_due refl,
          refl,
          omega arith,
          rw e (ground arith),
          at_next start index core e h,
        )
        | inr due ↦
            let (mid, p, q, r, k) =
              step_one-IsReplayed index (grid_time start u.stride index) core w (sym e) h in
            let next : grid_time start u.stride index + u.stride
                ≡ grid_time start u.stride (suc index) =
              grind arith in
            let positive = w.strides in
            let (after, p', r', l, c, k') =
              step_all-IsReplayed fuel start now (suc index) mid w
                (subst (λ t. IsReplayed t mid) next k) q (omega (arith, next, positive, enough)) in
            (after, rw (due, p, p') refl, r' ∙ r, omega arith, c, k')
      ]

  due_grid_times-started :
      (start now : ℕ) (core : Core)
      → core.grid_start ≡ some start
      → due_grid_times u core now ≡ due_from (suc now) start u.stride now core.next_grid_index
  unfolding due_grid_times
  due_grid_times-started start now core e =
      ap (λ g. due_since g u.stride now core.next_grid_index) e

  step-IsReplayed :
      (start now : ℕ) (core : Core)
      → IsWorking
      → core.grid_start ≡ some start
      → IsReplayed (grid_time start u.stride core.next_grid_index) core
      → (after : Core) × (step u now core ≡ ok after)
        × (after.grid_start ≡ some start)
        × (core.next_grid_index ≤ after.next_grid_index)
        × (now < grid_time start u.stride after.next_grid_index)
        × IsReplayed (grid_time start u.stride after.next_grid_index) after
  unfolding step
  step-IsReplayed start now core w e h =
      let (after, p, q, l, c, r) =
        step_all-IsReplayed (suc now) start now core.next_grid_index core w h refl (omega arith) in
      (after, rw (due_grid_times-started start now core e) p, q ∙ e, l, c, r)

  abbrev pub AllBefore : ℕ → List ℕ → Type 0
  AllBefore t nows = All (λ now. now < t) nows

  run-IsReplayed :
      (start : ℕ) (nows : List ℕ) (core : Core)
      → IsWorking
      → core.grid_start ≡ some start
      → IsReplayed (grid_time start u.stride core.next_grid_index) core
      → (after : Core) × (run u nows core ≡ ok after)
        × (core.next_grid_index ≤ after.next_grid_index)
        × AllBefore (grid_time start u.stride after.next_grid_index) nows
        × IsReplayed (grid_time start u.stride after.next_grid_index) after
  unfolding run
  run-IsReplayed start [] core w e h = (core, refl, omega arith, tt, h)
  run-IsReplayed start (now ∷ nows) core w e h =
      let (mid, p, q, l, c, r) = step-IsReplayed start now core w e h in
      let (after, p', l', c', r') = run-IsReplayed start nows mid w q r in
      let mono = mul-le-mul_right u.stride l' in
      (after, rw (p, p') refl, omega arith, (grind arith, c'), r')

  -- After the mission started, if the policy is valid, a window has a stride of one unit and one row at
  -- least, a scorer is attached and neither the extraction nor the model raises, then however the timer
  -- calls come, the monitor steps without an exception; it has dealt with every grid point up to the
  -- time of each call, has as many rows as grid points from the first complete window on, and the
  -- outputs in its decisions are those of the alarm policy over all these rows at once.
  pub run_total :
      (start : ℕ) (nows : List ℕ)
      → IsWorking
      → (after : Core) × (run u nows (mission_started start idle) ≡ ok after)
        × AllBefore (grid_time start u.stride after.next_grid_index) nows
        × (length after.rows ≡ after.next_grid_index - u.steps)
        × (apply_alarm_policy after.rows u.policy ≡ ok (outputs_of after.decisions))
  unfolding mission_started apply_alarm_policy apply_from
  run_total start nows w =
      let steps = w.rows_of_window in
      let (after, p, l, c, r) =
        run-IsReplayed start nows (mission_started start idle) w refl record {
          later = omega arith;
          recent = tt;
          filled = omega arith;
          counted = omega arith;
          replayed = refl;
          past = λ t q. refl;
        } in
      (after, p, c, r.counted, rw (w.valid, r.replayed) refl)
