-- ===== src/Monitor/Buffer/Drops.antt =====
-- Series that differ by samples that no decision will select any more (monitor_core.py).
use failure_prediction.Prelude.{
  ℕ, ◌+◌, ◌≤◌, true, List, [], ◌∷◌, ◌++◌, ◌≡◌, ◌⊎◌, inl, inr, refl, sym, ap, ◌∙◌, arith, leb,
  if_either,
}
use mathlib.Core.Path.{subst}
use failure_prediction.Monitor.Causal.{ScalarSample, bisect_right, select}
use failure_prediction.Monitor.Causal.Newest.{SortedFrom}
use failure_prediction.Monitor.Buffer.{prune_series, last_time}

-- The first sample left is at least `maximum` older than `t`.
abbrev Expired : ℕ → ℕ → List ScalarSample → Type 0
Expired maximum t [] = ⊥
Expired maximum t (s ∷ ss) = s.timestamp + maximum ≤ t

-- `part` is `full` less some first samples, each before one that is expired at `t`.
abbrev pub Drops : ℕ → ℕ → List ScalarSample → List ScalarSample → Type 0
Drops maximum t [] part = [] ≡ part
Drops maximum t (s ∷ full) part =
    ((s ∷ full) ≡ part) ⊎ (Expired maximum t full × Drops maximum t full part)

pub Drops-refl : (maximum t : ℕ) (ss : List ScalarSample) → Drops maximum t ss ss
Drops-refl maximum t [] = refl
Drops-refl maximum t (s ∷ ss) = inl refl

Expired-later :
    (maximum t u : ℕ) (ss : List ScalarSample) → t ≤ u → Expired maximum t ss → Expired maximum u ss
Expired-later maximum t u (s ∷ ss) h e = omega (arith, e)
Expired-later maximum t u [] h e = e

pub Drops-later :
    (maximum t u : ℕ) (full part : List ScalarSample)
    → t ≤ u
    → Drops maximum t full part
    → Drops maximum u full part
Drops-later maximum t u [] part h d = d
Drops-later maximum t u (s ∷ full) part h (inl e) = inl e
Drops-later maximum t u (s ∷ full) part h (inr (x, d)) =
    inr (Expired-later maximum t u full h x, Drops-later maximum t u full part h d)

prune_series-Drops-self :
    (maximum t : ℕ) (ss : List ScalarSample) → Drops maximum t ss (prune_series maximum t ss)
unfolding prune_series
prune_series-Drops-self maximum t [] = refl
prune_series-Drops-self maximum t (s ∷ []) = inl refl
prune_series-Drops-self maximum t (s ∷ s' ∷ ss) =
    if_either (Drops maximum t (s ∷ s' ∷ ss)) (leb (s'.timestamp + maximum) t)
      (λ e. inr (ground arith, prune_series-Drops-self maximum t (s' ∷ ss))) (λ e. inl refl)

Drops-trans :
    (maximum t : ℕ) (full part rest : List ScalarSample)
    → Drops maximum t full part
    → Drops maximum t part rest
    → Drops maximum t full rest
Drops-trans maximum t [] part rest e d = subst (λ l. Drops maximum t l rest) (sym e) d
Drops-trans maximum t (s ∷ full) part rest (inl e) d = subst (λ l. Drops maximum t l rest) (sym e) d
Drops-trans maximum t (s ∷ full) part rest (inr (x, e)) d =
    inr (x, Drops-trans maximum t full part rest e d)

pub prune_series-Drops :
    (maximum t u : ℕ) (full part : List ScalarSample)
    → t ≤ u
    → Drops maximum t full part
    → Drops maximum u full (prune_series maximum u part)
prune_series-Drops maximum t u full part h d =
    Drops-trans maximum u full part (prune_series maximum u part)
      (Drops-later maximum t u full part h d) (prune_series-Drops-self maximum u part)

Expired-append :
    (maximum t : ℕ) (ss later : List ScalarSample)
    → Expired maximum t ss
    → Expired maximum t (ss ++ later)
Expired-append maximum t (s ∷ ss) later h = h
Expired-append maximum t [] later h = elim h [ ]

pub Drops-append :
    (maximum t : ℕ) (full part later : List ScalarSample)
    → Drops maximum t full part
    → Drops maximum t (full ++ later) (part ++ later)
Drops-append maximum t [] part later e = rw⁻¹ e (Drops-refl maximum t later)
Drops-append maximum t (s ∷ full) part later (inl e) = inl (ap (λ l. l ++ later) e)
Drops-append maximum t (s ∷ full) part later (inr (x, d)) =
    inr (Expired-append maximum t full later x, Drops-append maximum t full part later d)

pub last_time-Drops :
    (maximum t : ℕ) (full part : List ScalarSample)
    → Drops maximum t full part
    → last_time full ≡ last_time part
last_time-Drops maximum t [] part e = ap last_time e
last_time-Drops maximum t (s ∷ full) part (inl e) = ap last_time e
last_time-Drops maximum t (s ∷ []) part (inr (x, d)) = elim x [ ]
last_time-Drops maximum t (s ∷ s' ∷ full) part (inr (x, d)) =
    last_time-Drops maximum t (s' ∷ full) part d

select-skip :
    (s s' : ScalarSample) (ss : List ScalarSample) (maximum u : ℕ)
    → s.timestamp ≤ s'.timestamp
    → s'.timestamp ≤ u
    → select (s ∷ s' ∷ ss) maximum u ≡ select (s' ∷ ss) maximum u
unfolding select bisect_right
select-skip s s' ss maximum u a b =
    let ea : leb s.timestamp u ≡ true = ground arith in
    let eb : leb s'.timestamp u ≡ true = ground arith in rw (ea, eb) refl

-- A decision at `t` or later selects the same from the shortened series.
pub select-Drops :
    (maximum t u lowest : ℕ) (full part : List ScalarSample)
    → t ≤ u
    → SortedFrom lowest full
    → Drops maximum t full part
    → select full maximum u ≡ select part maximum u
select-Drops maximum t u lowest [] part h sorted e = ap (λ l. select l maximum u) e
select-Drops maximum t u lowest (s ∷ full) part h sorted (inl e) = ap (λ l. select l maximum u) e
select-Drops maximum t u lowest (s ∷ []) part h sorted (inr (x, d)) = elim x [ ]
select-Drops maximum t u lowest (s ∷ s' ∷ full) part h sorted (inr (x, d)) =
    select-skip s s' full maximum u sorted.1.0 (omega (arith, x))
    ∙ select-Drops maximum t u s.timestamp (s' ∷ full) part h sorted.1 d
