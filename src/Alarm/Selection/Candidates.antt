-- ===== src/Alarm/Selection/Candidates.antt =====
-- The candidate thresholds against all thresholds (src/evaluation/policy.py).
use Prim.Native.String.{String}
use failure_prediction.Prelude.{
  ℕ, ◌≤◌, ◌<◌, false, List, [], ◌∷◌, ◌≡◌, ◌⊎◌, inl, inr, refl, sym, ap, arith, Among,
  Among-append_left, Among-append_right, Bool-cases, if_either, ltb, leb, ◌==◌, ◌&&◌,
}
use failure_prediction.Prelude.Result.{Result, ok, err, ◌>>=◌}
use failure_prediction.Alarm.Policy.{
  Row, State, one, validate, output_of, next_state, apply_from, initial, apply_alarm_policy,
}
use failure_prediction.Alarm.Metrics.{PredictedRow, Metrics, evaluate_event_warnings}
use failure_prediction.Alarm.Selection.{
  LabelledRow, Episodes, Settings, insert_unique, insert_all, scores_in, all_scores, Error,
  in_metrics, in_error, clean_false_alerts, rows_of, predict, policy_at, Candidate, evaluate,
}

insert_unique_self : (x : ℕ) (ys : List ℕ) → Among x (insert_unique x ys)
unfolding insert_unique
insert_unique_self x [] = inl refl
insert_unique_self x (y ∷ ys) =
    if_either (Among x) (ltb x y) (λ _. inl refl)
      (λ _.
        if_either (Among x) (x == y) (λ e. inl (ground arith)) (λ _. inr (insert_unique_self x ys)))

insert_unique-Among : (x z : ℕ) (ys : List ℕ) → Among z ys → Among z (insert_unique x ys)
unfolding insert_unique
insert_unique-Among x z (y ∷ ys) h =
    if_either (Among z) (ltb x y) (λ _. inr h)
      (λ _.
        if_either (Among z) (x == y) (λ _. h)
          (λ _. elim h [ inl e ↦ inl e | inr w ↦ inr (insert_unique-Among x z ys w) ]))
insert_unique-Among x z [] h = absurd h

pub insert_all-Among : (z : ℕ) (xs ys : List ℕ) → Among z xs → Among z (insert_all xs ys)
unfolding insert_all
insert_all-Among z [] ys h = absurd h
insert_all-Among z (x ∷ xs) ys (inl e) = rw (sym e) (insert_unique_self x (insert_all xs ys))
insert_all-Among z (x ∷ xs) ys (inr w) =
    insert_unique-Among x z (insert_all xs ys) (insert_all-Among z xs ys w)

-- The smallest element that is at least `t`.
abbrev pub Ceiling : ℕ → List ℕ → ℕ → Type 0
Ceiling t xs c = Among c xs × (t ≤ c) × ((z : ℕ) → Among z xs → t ≤ z → c ≤ z)

-- Of `x` and the ceiling of the rest, the smaller.
Ceiling-cons : (t x : ℕ) (xs : List ℕ) (c : ℕ) → Ceiling t xs c → (c' : ℕ) × Ceiling t (x ∷ xs) c'
Ceiling-cons t x xs c (among, above, least) = elim (Bool-cases (leb t x && leb x c)) [
  | inl e ↦ (
    x,
    (
      inl refl,
      ground arith,
      λ z w k. elim w [
        | inl eq ↦ ground arith
        | inr later ↦ let l = least z later k in ground arith
      ],
    ),
  )
  | inr e ↦ (
    c,
    (inr among, above, λ z w k. elim w [ inl eq ↦ ground arith | inr later ↦ least z later k ]),
  )
]

find-Ceiling : (t : ℕ) (xs : List ℕ) → ((z : ℕ) → Among z xs → z < t) ⊎ ((c : ℕ) × Ceiling t xs c)
find-Ceiling t [] = inl (λ z h. absurd h)
find-Ceiling t (x ∷ xs) = elim (find-Ceiling t xs) [
  | inr (c, found) ↦ inr (Ceiling-cons t x xs c found)
  | inl below ↦ elim (Bool-cases (leb t x)) [
    | inl e ↦ inr (
      x,
      (
        inl refl,
        ground arith,
        λ z w k. elim w [
          | inl eq ↦ ground arith
          | inr later ↦ let l = below z later in ground arith
        ],
      ),
    )
    | inr e ↦ inl (λ z w. elim w [ inl eq ↦ ground arith | inr later ↦ below z later ])
  ]
]

pub ceiling : (t : ℕ) (xs : List ℕ) (z : ℕ) → Among z xs → t ≤ z → (c : ℕ) × Ceiling t xs c
ceiling t xs z h k = elim (find-Ceiling t xs) [
  | inl below ↦ let l = below z h in absurd (omega arith)
  | inr found ↦ found
]

abbrev map_ok : (Candidate → Candidate) → Result Error Candidate → Result Error Candidate
map_ok f (ok x) = ok (f x)
map_ok f (err e) = err e

-- The candidate of another threshold that has the same alarms.
abbrev pub moved : ℕ → Candidate → Candidate
moved c x = record { threshold = c; clean_alerts = x.clean_alerts; metrics = x.metrics }

abbrev pub scored : ℕ → (Metrics → ℕ) → Metrics → Result Error Candidate
scored t alerts m = ok (record { threshold = t; clean_alerts = alerts m; metrics = m })

abbrev pub measured : ℕ → List String → List (String × List PredictedRow) → Result Error Candidate
measured t clean rows =
    in_error in_metrics (evaluate_event_warnings rows)
    >>= scored t (λ m. clean_false_alerts clean m.per_episode)

module _ (s : Settings) (t c : ℕ) where
  output_of-agrees :
      (st : State) (row : Row)
      → leb t row.risk_score ≡ leb c row.risk_score
      → output_of (policy_at s t) st row ≡ output_of (policy_at s c) st row
  unfolding output_of
  output_of-agrees st row h = rw h refl

  next_state-agrees :
      (st : State) (row : Row)
      → leb t row.risk_score ≡ leb c row.risk_score
      → next_state (policy_at s t) st row ≡ next_state (policy_at s c) st row
  unfolding next_state output_of
  next_state-agrees st row h = rw h refl

  apply_from-agrees :
      (st : State) (rows : List LabelledRow)
      → ((z : ℕ) → Among z (scores_in rows) → leb t z ≡ leb c z)
      → apply_from (policy_at s t) st (rows_of rows) ≡ apply_from (policy_at s c) st (rows_of rows)
  unfolding apply_from
  apply_from-agrees st [] h = refl
  apply_from-agrees st (r ∷ rs) h =
      let here = h r.row.risk_score (inl refl) in
      let rest = apply_from-agrees (next_state (policy_at s t) st r.row) rs (λ z w. h z (inr w)) in
      rw (rest, next_state-agrees st r.row here, output_of-agrees st r.row here) refl

  predict-agrees :
      (episodes : Episodes)
      → t ≤ one
      → c ≤ one
      → ((z : ℕ) → Among z (all_scores episodes) → leb t z ≡ leb c z)
      → predict (policy_at s t) episodes ≡ predict (policy_at s c) episodes
  unfolding predict apply_alarm_policy validate
  predict-agrees [] low low' h = refl
  predict-agrees ((run_id, rows) ∷ episodes) low low' h =
      let rest =
        predict-agrees episodes low low'
          (λ z w. h z (Among-append_right z (scores_in rows) (all_scores episodes) w)) in
      let here =
        apply_from-agrees initial rows
          (λ z w. h z (Among-append_left z (scores_in rows) (all_scores episodes) w)) in
      let valid : ltb one t ≡ false = ground arith in
      let valid' : ltb one c ≡ false = ground arith in rw (rest, here, valid, valid') refl

  rethreshold :
      (alerts : Metrics → ℕ) (m : Result Error Metrics) (x : Candidate)
      → (m >>= scored t alerts) ≡ ok x
      → (m >>= scored c alerts) ≡ ok (moved c x)
  rethreshold alerts (err e) x h = cc
  rethreshold alerts (ok k) x h = ap (map_ok (moved c)) h

  after_predict :
      (clean : List String) (m : Result Error (List (String × List PredictedRow))) (x : Candidate)
      → (m >>= measured t clean) ≡ ok x
      → (m >>= measured c clean) ≡ ok (moved c x)
  after_predict clean (err e) x h = cc
  after_predict clean (ok rows) x h =
      rethreshold (λ k. clean_false_alerts clean k.per_episode)
        (in_error in_metrics (evaluate_event_warnings rows)) x h

  pub evaluate-agrees :
      (episodes : Episodes) (clean : List String) (x : Candidate)
      → t ≤ one
      → c ≤ one
      → ((z : ℕ) → Among z (all_scores episodes) → leb t z ≡ leb c z)
      → evaluate s episodes clean t ≡ ok x
      → evaluate s episodes clean c ≡ ok (moved c x)
  unfolding evaluate
  evaluate-agrees episodes clean x low low' h e =
      rw (sym (predict-agrees episodes low low' h))
        (after_predict clean (predict (policy_at s t) episodes) x e)
