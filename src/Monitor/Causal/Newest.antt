-- ===== src/Monitor/Causal/Newest.antt =====
-- The sample that a decision sees (src/features/causal.py).
use failure_prediction.Prelude.{
  ℕ, zero, suc, ◌+◌, ◌-◌, ◌≤◌, ◌<◌, false, Option, none, some, List, [], ◌∷◌, ◌++◌, ◌≡◌, ◌⊎◌, inl,
  inr, refl, ap, arith, All, All-mono, All-append, All-middle, ◌≢◌, leb, ltb, if_either,
}
use failure_prediction.Monitor.Causal.{
  ScalarSample, Cell, absent, bisect_right, get_elem?, at_selected, cell_of, select,
}

-- The samples are in the order of their times, from `t` on.
abbrev pub SortedFrom : ℕ → List ScalarSample → Type 0
SortedFrom t [] = Unit
SortedFrom t (s ∷ ss) = (t ≤ s.timestamp) × SortedFrom s.timestamp ss

pub SortedFrom-All :
    (t : ℕ) (ss : List ScalarSample) → SortedFrom t ss → All (λ s. t ≤ s.timestamp) ss
SortedFrom-All t [] h = tt
SortedFrom-All t (s ∷ ss) (h, k) = (
  h,
  All-mono (λ x. s.timestamp ≤ x.timestamp) (λ x. t ≤ x.timestamp) (λ x q. omega (arith, h)) ss
      (SortedFrom-All s.timestamp ss k),
)

-- The newest sample that is not in the future, if there is one.
abbrev pub Latest : List ScalarSample → ℕ → Option ScalarSample → Type 0
Latest ss t none = All (λ s. t < s.timestamp) ss
Latest ss t (some s) =
    (before : List ScalarSample) × (after : List ScalarSample) × (ss ≡ before ++ s ∷ after)
    × (s.timestamp ≤ t)
    × All (λ x. x.timestamp ≤ s.timestamp) before
    × All (λ x. t < x.timestamp) after

bisect_right-in_range :
    (ss : List ScalarSample) (t n : ℕ) → bisect_right ss t ≡ suc n → get_elem? ss n ≢ none
unfolding bisect_right
bisect_right-in_range [] t n h e = cc
bisect_right-in_range (s ∷ ss) t zero h e = cc
bisect_right-in_range (s ∷ ss) t (suc n) h e = ground (arith, bisect_right-in_range ss t n)

Latest-cons :
    (x : ScalarSample) (ss : List ScalarSample) (t n : ℕ)
    → bisect_right ss t ≡ n
    → x.timestamp ≤ t
    → SortedFrom x.timestamp ss
    → Latest ss t (at_selected ss n)
    → Latest (x ∷ ss) t (at_selected (x ∷ ss) (suc n))
Latest-cons x ss t zero q h sorted k = ([], ss, refl, h, tt, k)
Latest-cons x ss t (suc n) q h sorted k = go (get_elem? ss n) refl k
  where
    go : (o : Option ScalarSample) → get_elem? ss n ≡ o → Latest ss t o → Latest (x ∷ ss) t o
    go none r l = absurd (bisect_right-in_range ss t n q r)
    go (some s) r (before, after, e, at, older, newer) =
        let all = SortedFrom-All x.timestamp ss sorted in
        (
          x ∷ before,
          after,
          ap (λ l. x ∷ l) e,
          at,
          (All-middle (λ y. x.timestamp ≤ y.timestamp) before s after (rw e at all), older),
          newer,
        )

-- The index that the bisection gives is that of the newest sample that is not in the future.
bisect_right-Latest :
    (ss : List ScalarSample) (lowest t : ℕ)
    → SortedFrom lowest ss
    → Latest ss t (at_selected ss (bisect_right ss t))
unfolding bisect_right
bisect_right-Latest [] lowest t h = tt
bisect_right-Latest (x ∷ ss) lowest t (h, sorted) =
    if_either (λ n. Latest (x ∷ ss) t (at_selected (x ∷ ss) n)) (leb x.timestamp t)
      (λ e.
        Latest-cons x ss t (bisect_right ss t) refl (ground arith) sorted
          (bisect_right-Latest ss x.timestamp t sorted))
      (λ e.
        let after : t < x.timestamp = ground arith in
        (
          after,
          All-mono (λ y. x.timestamp ≤ y.timestamp) (λ y. t < y.timestamp)
              (λ y q. omega (arith, after)) ss (SortedFrom-All x.timestamp ss sorted),
        ))

-- What a cell shows: the newest sample that is not in the future and not too old, or that every
-- sample is in the future or too old.
abbrev pub Shows : List ScalarSample → ℕ → ℕ → Cell → Type 0
Shows ss maximum t c =
    ((s : ScalarSample) × Latest ss t (some s)
      × (t ≤ s.timestamp + maximum)
      × (c ≡ record {
        value = s.value;
        age_seconds = t - s.timestamp;
        missing = false;
        source_time = some s.timestamp;
      }))
    ⊎ ((c ≡ absent maximum) × All (λ s. (t < s.timestamp) ⊎ (s.timestamp + maximum < t)) ss)

cell_of-Shows :
    (ss : List ScalarSample) (maximum t : ℕ) (o : Option ScalarSample)
    → Latest ss t o
    → Shows ss maximum t (cell_of maximum t o)
unfolding cell_of
cell_of-Shows ss maximum t none l = inr (
  refl,
  All-mono (λ s. t < s.timestamp) (λ s. (t < s.timestamp) ⊎ (s.timestamp + maximum < t))
      (λ s q. inl q) ss l,
)
cell_of-Shows ss maximum t (some s) (before, after, e, at, older, newer) =
    if_either (Shows ss maximum t) (ltb maximum (t - s.timestamp))
      (λ old.
        let P : ScalarSample → Type 0 = λ x. (t < x.timestamp) ⊎ (x.timestamp + maximum < t) in
        let expired : s.timestamp + maximum < t = ground arith in
        inr (
          refl,
          rw e (
              All-append P before (s ∷ after)
                (All-mono (λ x. x.timestamp ≤ s.timestamp) P (λ x q. inr (omega (arith, expired)))
                  before older)
                (inr expired, All-mono (λ x. t < x.timestamp) P (λ x q. inl q) after newer)),
        ))
      (λ young. inl (s, (before, after, e, at, older, newer), ground arith, refl))

-- On sorted samples the cell of a feature holds the newest sample at or before the decision, with its
-- exact age, unless that sample is older than the maximum; it is marked missing only if every sample
-- is in the future or older than the maximum.
pub select-Shows :
    (ss : List ScalarSample) (lowest maximum t : ℕ)
    → SortedFrom lowest ss
    → Shows ss maximum t (select ss maximum t)
unfolding select
select-Shows ss lowest maximum t h =
    cell_of-Shows ss maximum t (at_selected ss (bisect_right ss t))
      (bisect_right-Latest ss lowest t h)
