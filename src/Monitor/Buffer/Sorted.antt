-- ===== src/Monitor/Buffer/Sorted.antt =====
-- The order of the samples of a buffer, and samples of the future (monitor_core.py).
use Prim.Native.String.{String}
use failure_prediction.Prelude.{
  ℕ, zero, suc, ◌≤◌, ◌<◌, false, Option, none, some, List, [], ◌∷◌, ◌++◌, ◌≡◌, refl, ap, arith, All,
}
use failure_prediction.Prelude.Int.{ℤ}
use failure_prediction.Monitor.Causal.{
  ScalarSample, bisect_right, get_elem?, at_selected, cell_of, select,
}
use failure_prediction.Monitor.Causal.Newest.{SortedFrom}
use failure_prediction.Monitor.Buffer.{
  Entry, accepted, last_time, before_last, judge_numbers, judge,
}

pub SortedFrom-snoc :
    (lowest : ℕ) (ss : List ScalarSample) (s : ScalarSample)
    → SortedFrom lowest ss
    → lowest ≤ s.timestamp
    → before_last s.timestamp (last_time ss) ≡ false
    → SortedFrom lowest (ss ++ s ∷ [])
SortedFrom-snoc lowest [] s h low e = (low, tt)
SortedFrom-snoc lowest (x ∷ []) s h low e = (h.0, (ground arith, tt))
SortedFrom-snoc lowest (x ∷ y ∷ ss) s h low e =
    let last : y.timestamp ≤ s.timestamp = last_bound y ss s h.1.1 e in
    let next : x.timestamp ≤ y.timestamp = h.1.0 in
    (h.0, SortedFrom-snoc x.timestamp (y ∷ ss) s h.1 (omega (arith, last, next)) e)
  where
    last_bound :
        (y : ScalarSample) (ss : List ScalarSample) (s : ScalarSample)
        → SortedFrom y.timestamp ss
        → before_last s.timestamp (last_time (y ∷ ss)) ≡ false
        → y.timestamp ≤ s.timestamp
    last_bound y [] s h e = ground arith
    last_bound y (z ∷ ss) s h e =
        let k : z.timestamp ≤ s.timestamp = last_bound z ss s h.1 e in
        let j : y.timestamp ≤ z.timestamp = h.0 in omega (arith, j, k)

-- An accepted sample is finite and not before the last one of its series.
pub judge-accepted :
    (e : Option Entry) (known : Option String) (last : Option ℕ) (source : String) (t : Option ℕ)
    (v : Option ℤ) (s : ScalarSample)
    → judge e known last source t v ≡ accepted s
    → (before_last s.timestamp last ≡ false) × (t ≡ some s.timestamp) × (v ≡ some s.value)
unfolding judge judge_numbers
judge-accepted none known last source t v s h = cc
judge-accepted (some e) known last source none v s h = absurd (ground arith)
judge-accepted (some e) known last source (some t) none s h = absurd (ground arith)
judge-accepted (some e) known last source (some t) (some v) s h = ground arith

bisect_right-future :
    (ss later : List ScalarSample) (t : ℕ)
    → All (λ s. t < s.timestamp) later
    → bisect_right (ss ++ later) t ≡ bisect_right ss t
unfolding bisect_right
bisect_right-future [] [] t h = refl
bisect_right-future [] (s ∷ later) t h = let k : t < s.timestamp = h.0 in ground (arith, k)
bisect_right-future (x ∷ ss) later t h = rw (bisect_right-future ss later t h) refl

get_elem?-append :
    (ss later : List ScalarSample) (t k : ℕ)
    → bisect_right ss t ≡ suc k
    → get_elem? (ss ++ later) k ≡ get_elem? ss k
unfolding bisect_right
get_elem?-append [] later t k h = cc
get_elem?-append (x ∷ ss) later t zero h = refl
get_elem?-append (x ∷ ss) later t (suc k) h = get_elem?-append ss later t k (ground arith)

-- Samples after `t` do not change what a decision at `t` selects.
pub select-future :
    (ss later : List ScalarSample) (maximum t : ℕ)
    → All (λ s. t < s.timestamp) later
    → select (ss ++ later) maximum t ≡ select ss maximum t
unfolding select
select-future ss later maximum t h =
    rw (bisect_right-future ss later t h) (ap (cell_of maximum t) (same (bisect_right ss t) refl))
  where
    same : (n : ℕ) → bisect_right ss t ≡ n → at_selected (ss ++ later) n ≡ at_selected ss n
    same zero e = refl
    same (suc k) e = get_elem?-append ss later t k e
