-- ===== src/Alarm/Window.antt =====
-- The policy of src/evaluation/policy.py, described over the whole history of an episode.
use failure_prediction.Prelude.{
  ℕ, zero, suc, ◌+◌, ◌≤◌, ◌<◌, Bool, true, false, Option, none, some, List, [], ◌∷◌, ◌≡◌, refl, ap,
  arith, All, All-mono, if◌then◌else◌, Bool-cases, inl, inr, leb, ◌==◌, ◌&&◌, length, take,
  if_either,
}
use failure_prediction.Prelude.Result.{ok}
use failure_prediction.Alarm.Policy.{
  AlarmPolicy, Row, Output, State, not_after, cooled, count_true, is_above, is_persistent,
  append_bounded, output_of, next_state, apply_from, initial, apply_alarm_policy, validate,
}

-- No earlier alarm lies within the cooldown before `t`.
abbrev pub all_cooled : ℕ → ℕ → List ℕ → Bool
all_cooled cooldown t [] = true
all_cooled cooldown t (a ∷ as') = leb (a + cooldown) t && all_cooled cooldown t as'

-- A decision is persistent if there were N decisions and M of the last N were above the threshold.
abbrev pub m_of_n : AlarmPolicy → List Bool → Bool
m_of_n p seen =
    leb p.decisions_considered (length seen)
    && leb p.required_above (count_true (take p.decisions_considered seen))

-- The description: `seen` holds all earlier tests and `alarms` all earlier alarm times, newest first.
abbrev pub described : AlarmPolicy → List Bool → List ℕ → Row → Output
described p seen alarms row = record {
  source = row;
  alarm =
      m_of_n p (is_above p row ∷ seen) && all_cooled p.cooldown_seconds row.decision_time alarms;
  persistent = m_of_n p (is_above p row ∷ seen);
}

abbrev pub add_alarm : Output → List ℕ → List ℕ
add_alarm o alarms = if o.alarm then o.source.decision_time ∷ alarms else alarms

abbrev pub reference : AlarmPolicy → List Bool → List ℕ → List Row → List Output
reference p seen alarms [] = []
reference p seen alarms (row ∷ rows) =
    let o = described p seen alarms row in
    o ∷ reference p (is_above p row ∷ seen) (add_alarm o alarms) rows

-- Times that increase strictly, after an earlier one where there is any.
abbrev pub After : Option ℕ → ℕ → Type 0
After none t = Unit
After (some u) t = u < t

abbrev pub Increasing : Option ℕ → List Row → Type 0
Increasing previous [] = Unit
Increasing previous (row ∷ rows) =
    After previous row.decision_time × Increasing (some row.decision_time) rows

take-take-suc : (m : ℕ) (ys : List Bool) → take m (take (suc m) ys) ≡ take m ys
take-take-suc zero ys = refl
take-take-suc (suc m) [] = refl
take-take-suc (suc m) (y ∷ ys) = ap (λ t. y ∷ t) (take-take-suc m ys)

take-cons-take : (n : ℕ) (b : Bool) (xs : List Bool) → take n (b ∷ take n xs) ≡ take n (b ∷ xs)
take-cons-take zero b xs = refl
take-cons-take (suc n) b xs = ap (λ t. b ∷ t) (take-take-suc n xs)

length-take-full : (n : ℕ) (xs : List Bool) → (length (take n xs) == n) ≡ leb n (length xs)
length-take-full zero xs = ground arith
length-take-full (suc n) [] = ground arith
length-take-full (suc n) (x ∷ xs) = ground (arith, length-take-full n xs)

abbrev newest : List ℕ → Option ℕ
newest [] = none
newest (a ∷ as') = some a

-- No alarm is later than the newest one.
abbrev IsNewestFirst : List ℕ → Type 0
IsNewestFirst [] = Unit
IsNewestFirst (a ∷ as') = All (λ b. b ≤ a) as'

-- No alarm is later than the previous row.
abbrev UpTo : Option ℕ → List ℕ → Type 0
UpTo none alarms = alarms ≡ []
UpTo (some t) alarms = All (λ a. a ≤ t) alarms

abbrev Agrees : AlarmPolicy → State → List Bool → List ℕ → Type 0
Agrees p st seen alarms =
    (st.history ≡ take p.decisions_considered seen)
    × (st.last_alarm ≡ newest alarms)
    × IsNewestFirst alarms
    × UpTo st.previous_time alarms

all_cooled-before :
    (c t a : ℕ) (alarms : List ℕ)
    → a + c ≤ t
    → All (λ b. b ≤ a) alarms
    → all_cooled c t alarms ≡ true
all_cooled-before c t a [] h k = refl
all_cooled-before c t a (b ∷ bs) h k =
    let bound : b ≤ a = k.0 in ground (arith, all_cooled-before c t a bs h k.1)

-- The newest alarm decides for all of them.
cooled-newest :
    (c t : ℕ) (alarms : List ℕ)
    → IsNewestFirst alarms
    → All (λ a. a ≤ t) alarms
    → cooled c t (newest alarms) ≡ all_cooled c t alarms
cooled-newest c t [] n h = refl
cooled-newest c t (a ∷ as') n h =
    let before : a ≤ t = h.0 in
    elim (Bool-cases (leb (a + c) t)) [
      | inl e ↦ ground (arith, all_cooled-before c t a as' (ground arith) n)
      | inr e ↦ ground arith
    ]

UpTo-After :
    (previous : Option ℕ) (t : ℕ) (alarms : List ℕ)
    → UpTo previous alarms
    → After previous t
    → All (λ a. a ≤ t) alarms
UpTo-After none t alarms h k = rw h tt
UpTo-After (some u) t alarms h k =
    All-mono (λ a. a ≤ u) (λ a. a ≤ t) (λ a q. omega (arith, k)) alarms h

module _ (p : AlarmPolicy) where
  next-history :
      (st : State) (row : Row) (seen : List Bool)
      → st.history ≡ take p.decisions_considered seen
      → append_bounded p.decisions_considered (is_above p row) st.history
        ≡ take p.decisions_considered (is_above p row ∷ seen)
  next-history st row seen h = rw h (take-cons-take p.decisions_considered (is_above p row) seen)

  persistent-m_of_n :
      (seen : List Bool) → is_persistent p (take p.decisions_considered seen) ≡ m_of_n p seen
  persistent-m_of_n seen = rw (length-take-full p.decisions_considered seen) refl

  -- The body of the loop outputs the described row.
  output_of-described :
      (st : State) (seen : List Bool) (alarms : List ℕ) (row : Row)
      → Agrees p st seen alarms
      → After st.previous_time row.decision_time
      → output_of p st row ≡ described p seen alarms row
  unfolding output_of
  output_of-described st seen alarms row (h, l, n, u) k =
      rw (next-history st row seen h, persistent-m_of_n (is_above p row ∷ seen), l) rw
        (cooled-newest p.cooldown_seconds row.decision_time alarms n
          (UpTo-After st.previous_time row.decision_time alarms u k))
        refl

  last-next_state :
      (st : State) (row : Row)
      → (next_state p st row).last_alarm
        ≡ (if (output_of p st row).alarm then some row.decision_time else st.last_alarm)
  unfolding next_state
  last-next_state st row = refl

  previous-next_state :
      (st : State) (row : Row) → (next_state p st row).previous_time ≡ some row.decision_time
  unfolding next_state
  previous-next_state st row = refl

  not_after-After : (previous : Option ℕ) (t : ℕ) → After previous t → not_after t previous ≡ false
  not_after-After none t h = refl
  not_after-After (some u) t h = ground arith

  last_alarm-next_state :
      (st : State) (row : Row) (o : Output) (alarms : List ℕ)
      → output_of p st row ≡ o
      → o.source ≡ row
      → st.last_alarm ≡ newest alarms
      → (next_state p st row).last_alarm ≡ newest (add_alarm o alarms)
  last_alarm-next_state st row o alarms e s l =
      rw (last-next_state st row, e)
        (elim (Bool-cases o.alarm) [ inl a ↦ rw (a, s) refl | inr a ↦ rw a l ])

  next_state-Agrees :
      (st : State) (seen : List Bool) (alarms : List ℕ) (row : Row)
      → Agrees p st seen alarms
      → After st.previous_time row.decision_time
      → Agrees p
          (next_state p st row)
          (is_above p row ∷ seen)
          (add_alarm (described p seen alarms row) alarms)
  unfolding next_state
  next_state-Agrees st seen alarms row (h, l, n, u) k =
      let before = UpTo-After st.previous_time row.decision_time alarms u k in
      let same = output_of-described st seen alarms row (h, l, n, u) k in
      (
        next-history st row seen h,
        last_alarm-next_state st row (described p seen alarms row) alarms same refl l,
        if_either IsNewestFirst (described p seen alarms row).alarm (λ a. before) (λ a. n),
        if_either (λ as'. All (λ a. a ≤ row.decision_time) as') (described p seen alarms row).alarm
            (λ a. (omega arith, before)) (λ a. before),
      )

  apply_from-reference :
      (st : State) (seen : List Bool) (alarms : List ℕ) (rows : List Row)
      → Agrees p st seen alarms
      → Increasing st.previous_time rows
      → apply_from p st rows ≡ ok (reference p seen alarms rows)
  unfolding apply_from
  apply_from-reference st seen alarms [] h k = refl
  apply_from-reference st seen alarms (row ∷ rows) h (after, k) =
      let rest =
        apply_from-reference (next_state p st row) (is_above p row ∷ seen)
          (add_alarm (described p seen alarms row) alarms) rows
          (next_state-Agrees st seen alarms row h after) (rw (previous-next_state st row) k) in
      rw
        (
          not_after-After st.previous_time row.decision_time after,
          rest,
          output_of-described st seen alarms row h after,
        )
        refl

take-empty : (n : ℕ) → [] ≡ take {A = Bool} n []
take-empty zero = refl
take-empty (suc n) = refl

-- On rows in the order of their times the policy never fails, and each row is flagged as its
-- description says: persistent if at least M of the last N scores reach the threshold, an alarm if
-- also every earlier alarm lies a cooldown back.
pub apply_alarm_policy-reference :
    (rows : List Row) (p : AlarmPolicy)
    → validate p ≡ ok tt
    → Increasing none rows
    → apply_alarm_policy rows p ≡ ok (reference p [] [] rows)
unfolding apply_alarm_policy
apply_alarm_policy-reference rows p v h = rw v (
    apply_from-reference p initial [] [] rows (take-empty p.decisions_considered, refl, tt, refl) h)
