-- ===== src/Recovery/Costs/Dominance.antt =====
-- Bounds and order of the costs of src/recovery/costs.py.
use failure_prediction.Prelude.{
  ℕ, zero, suc, ◌*◌, ◌≤◌, ◌<◌, Bool, true, false, List, [], ◌∷◌, ◌≡◌, ◌⊎◌, arith, All, All-mono,
}
use failure_prediction.Prelude.Result.{ok}
use failure_prediction.Recovery.Costs.{
  Term, collision, mission_abort, failed_recovery, excessive_delay, path_overhead,
  unnecessary_intervention, cost_terms, CostWeights, any_rising, maximum_contribution, validate,
  RecoveryOutcome, charge, contribution, total, cost_breakdown, observed_cost,
}

-- Each term's maximum is above those of all later terms.
abbrev pub Dominates : CostWeights → List Term → Type 0
Dominates w [] = Unit
Dominates w (t ∷ ts) =
    All (λ u. maximum_contribution w u < maximum_contribution w t) ts × Dominates w ts

any_rising-Dominates : (w : CostWeights) (ts : List Term) → any_rising w ts ≡ false → Dominates w ts
any_rising-Dominates w [] h = tt
any_rising-Dominates w (t ∷ []) h = (tt, tt)
any_rising-Dominates w (s ∷ t ∷ ts) h =
    let rest = any_rising-Dominates w (t ∷ ts) (ground arith) in
    let lower : maximum_contribution w t < maximum_contribution w s = ground arith in
    (
      (
        lower,
        All-mono (λ u. maximum_contribution w u < maximum_contribution w t)
            (λ u. maximum_contribution w u < maximum_contribution w s) (λ u k. omega (arith, lower))
            ts rest.0,
      ),
      rest,
    )

-- Validated weights: along the dominance order, each term can cost more than any later one.
pub validate-Dominates :
    (w : CostWeights) (order : List Term) → validate w order ≡ ok tt → Dominates w order
unfolding validate
validate-Dominates w order h = any_rising-Dominates w order (ground arith)

mul_le : (r a b : ℕ) → a ≤ b → r * a ≤ r * b
mul_le zero a b h = omega arith
mul_le (suc r) a b h = grind (arith, mul_le r a b h)

-- An outcome that is at least as bad in every respect.
abbrev pub AtLeastAsBad : Bool → Bool → Type 0
AtLeastAsBad b b' = (b ≡ false) ⊎ (b' ≡ true)

abbrev pub Worse : RecoveryOutcome → RecoveryOutcome → Type 0
Worse o o' =
    AtLeastAsBad o.collision o'.collision
    × AtLeastAsBad o.mission_abort o'.mission_abort
    × AtLeastAsBad o.failed_recovery o'.failed_recovery
    × (o.added_time_seconds ≤ o'.added_time_seconds)
    × (o.added_path_length_m ≤ o'.added_path_length_m)
    × AtLeastAsBad o.unnecessary_intervention o'.unnecessary_intervention

charge_mono : (b b' : Bool) (x : ℕ) → AtLeastAsBad b b' → charge b x ≤ charge b' x
charge_mono b b' x h = ground arith

contribution_mono :
    (o o' : RecoveryOutcome) (w : CostWeights) (t : Term)
    → Worse o o'
    → contribution o w t ≤ contribution o' w t
unfolding contribution
contribution_mono o o' w collision h = charge_mono o.collision o'.collision w.collision h.0
contribution_mono o o' w mission_abort h =
    charge_mono o.mission_abort o'.mission_abort w.mission_abort h.1
contribution_mono o o' w failed_recovery h =
    charge_mono o.failed_recovery o'.failed_recovery w.failed_recovery h.2
contribution_mono o o' w excessive_delay h =
    omega
      (arith, mul_le w.excessive_delay_per_second o.added_time_seconds o'.added_time_seconds h.3)
contribution_mono o o' w path_overhead h =
    omega (arith, mul_le w.path_overhead_per_metre o.added_path_length_m o'.added_path_length_m h.4)
contribution_mono o o' w unnecessary_intervention h =
    charge_mono o.unnecessary_intervention o'.unnecessary_intervention w.unnecessary_intervention
      h.5

total_mono : (f g : Term → ℕ) (ts : List Term) → ((t : Term) → f t ≤ g t) → total f ts ≤ total g ts
total_mono f g [] h = omega arith
total_mono f g (t ∷ ts) h = omega (arith, h t, total_mono f g ts h)

observed_cost-total :
    (o : RecoveryOutcome) (w : CostWeights) (x : ℕ)
    → observed_cost o w ≡ ok x
    → x ≡ total (contribution o w) cost_terms
unfolding observed_cost cost_breakdown
observed_cost-total o w x h = ground arith

-- With the same weights, an outcome that is at least as bad in every respect costs at least as much.
pub observed_cost_mono :
    (o o' : RecoveryOutcome) (w : CostWeights) (x y : ℕ)
    → Worse o o'
    → observed_cost o w ≡ ok x
    → observed_cost o' w ≡ ok y
    → x ≤ y
observed_cost_mono o o' w x y h e e' = omega (
  arith,
  observed_cost-total o w x e,
  observed_cost-total o' w y e',
  total_mono (contribution o w) (contribution o' w) cost_terms (λ t. contribution_mono o o' w t h),
)

contribution_bounded :
    (o : RecoveryOutcome) (w : CostWeights) (t : Term)
    → contribution o w t ≤ maximum_contribution w t
unfolding contribution
contribution_bounded o w collision = ground arith
contribution_bounded o w mission_abort = ground arith
contribution_bounded o w failed_recovery = ground arith
contribution_bounded o w excessive_delay = omega arith
contribution_bounded o w path_overhead = omega arith
contribution_bounded o w unnecessary_intervention = ground arith

-- A cost is at most the sum of the maximum contributions.
pub observed_cost_bounded :
    (o : RecoveryOutcome) (w : CostWeights) (x : ℕ)
    → observed_cost o w ≡ ok x
    → x ≤ total (maximum_contribution w) cost_terms
observed_cost_bounded o w x e = omega (
  arith,
  observed_cost-total o w x e,
  total_mono (contribution o w) (maximum_contribution w) cost_terms (contribution_bounded o w),
)
