-- ===== src/Labels/Windows/Times.antt =====
-- The decision times of an episode (src/labels/causal_windows.py).
use failure_prediction.Prelude.{
  ℕ, zero, suc, ◌+◌, ◌≤◌, ◌<◌, List, [], ◌∷◌, ◌≡◌, refl, arith, All, All-mono, leb, Bool-cases, inl,
  inr,
}
use failure_prediction.Labels.Windows.{times_from, decision_times}

-- Consecutive times lie one stride apart, from `current` on, and the next one lies past `final`.
abbrev pub Grid : ℕ → ℕ → ℕ → List ℕ → Type 0
Grid final step current [] = final < current
Grid final step current (t ∷ ts) = (t ≡ current) × (t ≤ final) × Grid final step (current + step) ts

times_from-Grid :
    (n final step current : ℕ)
    → 1 ≤ step
    → final < current + n
    → Grid final step current (times_from n final step current)
unfolding times_from
times_from-Grid zero final step current h k = omega arith
times_from-Grid (suc n) final step current h k = elim (Bool-cases (leb current final)) [
  | inl e ↦ rw e (refl, ground arith, times_from-Grid n final step (current + step) h (omega arith))
  | inr e ↦ rw e (ground arith)
]

-- With a positive stride the decision times are all times from `start + history` on, a stride apart,
-- that do not lie past the end: the rounds of the loop are enough.
pub decision_times-Grid :
    (start final history stride : ℕ)
    → 1 ≤ stride
    → Grid final stride (start + history) (decision_times start final history stride)
unfolding decision_times
decision_times-Grid start final history stride h =
    times_from-Grid (suc final) final stride (start + history) h (omega arith)

pub Grid-within :
    (final step current : ℕ) (ts : List ℕ)
    → Grid final step current ts
    → All (λ t. (current ≤ t) × (t ≤ final)) ts
Grid-within final step current [] h = tt
Grid-within final step current (t ∷ ts) (e, le, h) = (
  (omega (arith, e), le),
  All-mono (λ u. (current + step ≤ u) × (u ≤ final)) (λ u. (current ≤ u) × (u ≤ final))
      (λ u k. (omega (arith, k.0), k.1)) ts (Grid-within final step (current + step) ts h),
)
