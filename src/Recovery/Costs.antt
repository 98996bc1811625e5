-- ===== src/Recovery/Costs.antt =====
-- src/recovery/costs.py: the cost of one observed recovery. Weights, rates and overheads are natural
-- numbers; a rate times an overhead is in the unit of the weights. Reading the YAML file and the rows
-- of a table is left out.
pub mod Dominance
mod Examples
use failure_prediction.Prelude.{
  ℕ, ◌+◌, ◌*◌, min, Bool, true, false, not, List, [], ◌∷◌, ◌&&◌, ◌||◌, ◌==◌, leb, if◌then◌else◌,
}
use failure_prediction.Prelude.Result.{Result, ok, err, raise_if, ◌>>=◌, ◌>>◌}

-- The names of `COST_TERMS`.
pub data Term : Type 0 where
  collision mission_abort failed_recovery excessive_delay path_overhead : Term
  unnecessary_intervention : Term

abbrev pub cost_terms : List Term
cost_terms =
    collision ∷ mission_abort ∷ failed_recovery ∷ excessive_delay ∷ path_overhead
    ∷ unnecessary_intervention ∷ []

-- The place of a term in `COST_TERMS`.
abbrev pub place : Term → ℕ
place collision = 0
place mission_abort = 1
place failed_recovery = 2
place excessive_delay = 3
place path_overhead = 4
place unnecessary_intervention = 5

pub record CostWeights : Type 0 where
  pub collision : ℕ
  pub mission_abort : ℕ
  pub failed_recovery : ℕ
  pub excessive_delay_per_second : ℕ
  pub excessive_delay_cap : ℕ
  pub path_overhead_per_metre : ℕ
  pub path_overhead_cap : ℕ
  pub unnecessary_intervention : ℕ

-- `maximum_contribution`
abbrev pub maximum_contribution : CostWeights → Term → ℕ
maximum_contribution w collision = w.collision
maximum_contribution w mission_abort = w.mission_abort
maximum_contribution w failed_recovery = w.failed_recovery
maximum_contribution w excessive_delay = w.excessive_delay_cap
maximum_contribution w path_overhead = w.path_overhead_cap
maximum_contribution w unnecessary_intervention = w.unnecessary_intervention

pub data Error : Type 0 where
  wrong_dominance_order contribution_not_positive rate_not_positive not_decreasing : Error

abbrev same_terms : List Term → List Term → Bool
same_terms [] [] = true
same_terms (s ∷ ss) (t ∷ ts) = (place s == place t) && same_terms ss ts
same_terms [] (t ∷ ts) = false
same_terms (s ∷ ss) [] = false

abbrev any_zero : CostWeights → List Term → Bool
any_zero w [] = false
any_zero w (t ∷ ts) = maximum_contribution w t == 0 || any_zero w ts

-- `any(earlier <= later for earlier, later in zip(maxima, maxima[1:]))`
abbrev pub any_rising : CostWeights → List Term → Bool
any_rising w [] = false
any_rising w (t ∷ []) = false
any_rising w (s ∷ t ∷ ts) =
    leb (maximum_contribution w s) (maximum_contribution w t) || any_rising w (t ∷ ts)

-- `CostWeights.validate`
unfoldable pub validate : CostWeights → List Term → Result Error (Unit {0})
validate w order = do
  raise_if (not (same_terms order cost_terms)) wrong_dominance_order
  raise_if (any_zero w cost_terms) contribution_not_positive
  raise_if (w.excessive_delay_per_second == 0 || w.path_overhead_per_metre == 0) rate_not_positive
  raise_if (any_rising w order) not_decreasing

-- Overheads are natural numbers, so `RecoveryOutcome.validate` always returns.
pub record RecoveryOutcome : Type 0 where
  pub collision : Bool
  pub mission_abort : Bool
  pub failed_recovery : Bool
  pub added_time_seconds : ℕ
  pub added_path_length_m : ℕ
  pub unnecessary_intervention : Bool

abbrev pub charge : Bool → ℕ → ℕ
charge b weight = if b then weight else 0

-- The dictionary that `cost_breakdown` returns, by its keys.
unfoldable pub contribution : RecoveryOutcome → CostWeights → Term → ℕ
contribution o w collision = charge o.collision w.collision
contribution o w mission_abort = charge o.mission_abort w.mission_abort
contribution o w failed_recovery = charge o.failed_recovery w.failed_recovery
contribution o w excessive_delay =
    min w.excessive_delay_cap (w.excessive_delay_per_second * o.added_time_seconds)
contribution o w path_overhead =
    min w.path_overhead_cap (w.path_overhead_per_metre * o.added_path_length_m)
contribution o w unnecessary_intervention =
    charge o.unnecessary_intervention w.unnecessary_intervention

abbrev pub total : (Term → ℕ) → List Term → ℕ
total f [] = 0
total f (t ∷ ts) = f t + total f ts

unfoldable pub cost_breakdown : RecoveryOutcome → CostWeights → Result Error (Term → ℕ)
unfolding validate
cost_breakdown o w = validate w cost_terms >> ok (contribution o w)

unfoldable pub observed_cost : RecoveryOutcome → CostWeights → Result Error ℕ
unfolding cost_breakdown
observed_cost o w = do terms ← cost_breakdown o w; ok (total terms cost_terms)
