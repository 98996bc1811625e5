-- ===== src/Alarm/Selection/Optimal.antt =====
-- The selected threshold against every threshold (src/evaluation/policy.py).
use Prim.Native.String.{String}
use mathlib.Core.Path.{subst}
use failure_prediction.Prelude.{
  ℕ, ◌+◌, ◌≤◌, true, false, List, [], ◌∷◌, ◌≡◌, inl, inr, refl, arith, All, Among, All-Among,
  if_either, ltb, leb, length, ◌==◌, if◌then◌else◌,
}
use failure_prediction.Prelude.Result.{Result, ok, raise_if, ◌>>=◌, ◌>>◌, bind_ok}
use failure_prediction.Alarm.Policy.{one}
use failure_prediction.Alarm.Metrics.{evaluate_event_warnings}
use failure_prediction.Alarm.Selection.{
  Episodes, Settings, Error, Candidate, evaluate, is_feasible, feasible_from, candidates_of,
  distinct_scores, predict, policy_at, in_error, in_metrics, clean_false_alerts, all_scores,
  outranked, ranks_below, max_from, choose, check_scores, run_ids, any_unknown, no_clean_missions,
  unknown_run, too_few_candidates, select_validation_threshold,
}
use failure_prediction.Alarm.Selection.Candidates.{
  scored, measured, ceiling, insert_all-Among, moved, evaluate-agrees,
}
use failure_prediction.Alarm.Selection.Best.{max_from-Among, max_from-best, outranked-ranks_below}

-- A candidate that the evaluation gives at its threshold, within the budget.
abbrev pub Allowed : Settings → Episodes → List String → Candidate → Type 0
Allowed s episodes clean c =
    (evaluate s episodes clean c.threshold ≡ ok c) × (is_feasible s clean c ≡ true)

evaluate-threshold :
    (s : Settings) (episodes : Episodes) (clean : List String) (t : ℕ) (x : Candidate)
    → evaluate s episodes clean t ≡ ok x
    → x.threshold ≡ t
unfolding evaluate
evaluate-threshold s episodes clean t x h =
    let (rows, _, g) = bind_ok (predict (policy_at s t) episodes) (measured t clean) x h in
    let (m, _, k) =
      bind_ok (in_error in_metrics (evaluate_event_warnings rows))
        (scored t (λ m. clean_false_alerts clean m.per_episode)) x g in
    cc

within_moved :
    (s : Settings) (clean : List String) (c : ℕ) (x : Candidate)
    → is_feasible s clean x ≡ true
    → is_feasible s clean (moved c x) ≡ true
unfolding is_feasible
within_moved s clean c x h = h

outranked-moved :
    (c : ℕ) (r x : Candidate) → outranked r (moved c x) ≡ false → outranked r x ≡ false
unfolding outranked
outranked-moved c r x h = h

module _ (s : Settings) (episodes : Episodes) (clean : List String) where
  abbrev keep : Candidate → List Candidate → Result Error (List Candidate)
  keep c cs = ok (if is_feasible s clean c then c ∷ cs else cs)

  -- The links of one round.
  round :
      (u : ℕ) (us : List ℕ) (fs : List Candidate)
      → feasible_from s episodes clean (u ∷ us) ≡ ok fs
      → (c : Candidate) × (cs : List Candidate) × (evaluate s episodes clean u ≡ ok c)
        × (feasible_from s episodes clean us ≡ ok cs)
        × ((if is_feasible s clean c then c ∷ cs else cs) ≡ fs)
  unfolding feasible_from
  round u us fs h =
      let (c, here, g) =
        bind_ok (evaluate s episodes clean u) (λ c. feasible_from s episodes clean us >>= keep c) fs
          h in
      let (cs, rest, k) = bind_ok (feasible_from s episodes clean us) (keep c) fs g in
      (c, cs, here, rest, cc)

  feasible_from-Among :
      (ts : List ℕ) (fs : List Candidate) (t : ℕ) (x : Candidate)
      → feasible_from s episodes clean ts ≡ ok fs
      → Among t ts
      → evaluate s episodes clean t ≡ ok x
      → is_feasible s clean x ≡ true
      → Among x fs
  feasible_from-Among [] fs t x h w e f = absurd w
  feasible_from-Among (u ∷ us) fs t x h w e f =
      let (c, cs, here, rest, k) = round u us fs h in
      subst (Among x) k (
        if_either (Among x) (is_feasible s clean c)
          (λ g. elim w [
            | inl first ↦ inl (cc)
            | inr later ↦ inr (feasible_from-Among us cs t x rest later e f)
          ])
          (λ g. elim w [
            | inl first ↦ absurd (cc)
            | inr later ↦ feasible_from-Among us cs t x rest later e f
          ]))

  feasible_from-Allowed :
      (ts : List ℕ) (fs : List Candidate)
      → feasible_from s episodes clean ts ≡ ok fs
      → All (Allowed s episodes clean) fs
  unfolding feasible_from
  feasible_from-Allowed [] fs h =
      let none_left : [] ≡ fs = cc in subst (All (Allowed s episodes clean)) none_left tt
  feasible_from-Allowed (u ∷ us) fs h =
      let (c, cs, here, rest, k) = round u us fs h in
      let later = feasible_from-Allowed us cs rest in
      let at_u = evaluate-threshold s episodes clean u c here in
      subst (All (Allowed s episodes clean)) k (
        if_either (All (Allowed s episodes clean)) (is_feasible s clean c)
          (λ g. ((rw at_u here, g), later)) (λ g. later))

  candidates_of-Among :
      (scores : List ℕ) (maximum z : ℕ)
      → leb (length scores + 2) maximum ≡ true
      → Among z (one ∷ scores)
      → Among z (candidates_of scores maximum)
  unfolding candidates_of
  candidates_of-Among scores maximum z h w = rw h (insert_all-Among z (0 ∷ one ∷ scores) [] (inr w))

  -- The ceiling of a threshold is a candidate with the same alarms.
  ceiling-same :
      (maximum : ℕ) (x : Candidate)
      → leb (length (distinct_scores episodes) + 2) maximum ≡ true
      → x.threshold ≤ one
      → evaluate s episodes clean x.threshold ≡ ok x
      → (c : ℕ) × Among c (candidates_of (distinct_scores episodes) maximum)
        × (evaluate s episodes clean c ≡ ok (moved c x))
  unfolding distinct_scores
  ceiling-same maximum x h low e =
      let scores = distinct_scores episodes in
      let candidates = candidates_of scores maximum in
      let among_one = candidates_of-Among scores maximum one h (inl refl) in
      let (c, (among, above, least)) = ceiling x.threshold candidates one among_one low in
      let same : (z : ℕ) → Among z (all_scores episodes) → leb x.threshold z ≡ leb c z = λ z w.
        let candidate =
          candidates_of-Among scores maximum z h
            (inr (insert_all-Among z (all_scores episodes) [] w)) in
        let l = least z candidate in ground arith in
      (
        c,
        among,
        evaluate-agrees s x.threshold c episodes clean x low (least one among_one low) same e,
      )

  choose-best :
      (fs : List Candidate) (r x : Candidate)
      → choose fs ≡ ok r
      → All (Allowed s episodes clean) fs
      → Among x fs
      → Allowed s episodes clean r × (outranked r x ≡ false)
  unfolding choose
  choose-best [] r x h all w = absurd w
  choose-best (f ∷ fs) r x h all w =
      let best : max_from f fs ≡ r = cc in
      let allowed =
        All-Among (Allowed s episodes clean) (f ∷ fs) (max_from f fs) all (max_from-Among f fs) in
      let ranked =
        All-Among (λ y. ranks_below (max_from f fs) y ≡ false) (f ∷ fs) x (max_from-best f fs) w in
      subst (λ y. Allowed s episodes clean y × (outranked y x ≡ false)) best
        (allowed, outranked-ranks_below (max_from f fs) x ranked)

  feasible_list :
      (r : Candidate)
      → select_validation_threshold s episodes clean ≡ ok r
      → (fs : List Candidate) × (feasible_from s episodes clean
            (candidates_of (distinct_scores episodes) s.maximum_candidates)
          ≡ ok fs)
        × (choose fs ≡ ok r)
  unfolding select_validation_threshold
  feasible_list r h =
      let scores = distinct_scores episodes in
      let candidates = candidates_of scores s.maximum_candidates in
      let guards =
        raise_if (length clean == 0) no_clean_missions
        >> raise_if (any_unknown (run_ids episodes) clean) unknown_run
        >> check_scores scores
        >> raise_if (ltb s.maximum_candidates 2) too_few_candidates in
      let (fs, chain, best) =
        bind_ok (guards >> feasible_from s episodes clean candidates) choose r h in
      let (_, _, g) = bind_ok guards (λ _. feasible_from s episodes clean candidates) fs chain in
      (fs, g, best)

-- Where the distinct scores, with 0 and 1, are at most the maximum of candidates, and some threshold of
-- [0, 1] is within the budget: a threshold that is selected is within the budget too, and the other one
-- has no greater recall, nor fewer alarms on clean missions with the same recall, nor a greater median
-- lead with the same of both.
pub select_validation_threshold-outranked :
    (s : Settings) (episodes : Episodes) (clean : List String) (r x : Candidate)
    → select_validation_threshold s episodes clean ≡ ok r
    → leb (length (distinct_scores episodes) + 2) s.maximum_candidates ≡ true
    → x.threshold ≤ one
    → Allowed s episodes clean x
    → Allowed s episodes clean r × (outranked r x ≡ false)
select_validation_threshold-outranked s episodes clean r x h few low (at_x, within) =
    let (fs, list, best) = feasible_list s episodes clean r h in
    let (c, among, at_c) = ceiling-same s episodes clean s.maximum_candidates x few low at_x in
    let candidates = candidates_of (distinct_scores episodes) s.maximum_candidates in
    let y = moved c x in
    let listed =
      feasible_from-Among s episodes clean candidates fs c y list among at_c
        (within_moved s clean c x within) in
    let (allowed, ranked) =
      choose-best s episodes clean fs r y best
        (feasible_from-Allowed s episodes clean candidates fs list) listed in
    (allowed, outranked-moved c r x ranked)
