-- ===== src/Recovery/Costs/Examples.antt =====
-- Tests and concrete runs for the costs.
use failure_prediction.Prelude.{ℕ, true, false, ◌≡◌, refl}
use failure_prediction.Prelude.Result.{ok, err}
use failure_prediction.Recovery.Costs.{
  cost_terms, CostWeights, not_decreasing, validate, RecoveryOutcome, contribution, cost_breakdown,
  observed_cost,
}
use failure_prediction.Recovery.Costs.Dominance.{Dominates, validate-Dominates}

abbrev weights : ℕ → CostWeights
weights collision = record {
  collision = collision;
  mission_abort = 50;
  failed_recovery = 20;
  excessive_delay_per_second = 1;
  excessive_delay_cap = 10;
  path_overhead_per_metre = 1;
  path_overhead_cap = 5;
  unnecessary_intervention = 2;
}

abbrev delayed : ℕ → RecoveryOutcome
delayed seconds = record {
  collision = false;
  mission_abort = false;
  failed_recovery = true;
  added_time_seconds = seconds;
  added_path_length_m = 3;
  unnecessary_intervention = false;
}

weights_valid : validate (weights 100) cost_terms ≡ ok tt
unfolding validate
weights_valid = refl

refuses_equal_maxima : validate (weights 50) cost_terms ≡ err not_decreasing
unfolding validate
refuses_equal_maxima = refl

cost_of_short_delay : observed_cost (delayed 4) (weights 100) ≡ ok 27
unfolding observed_cost cost_breakdown validate contribution
cost_of_short_delay = refl

cost_of_long_delay : observed_cost (delayed 40) (weights 100) ≡ ok 33
unfolding observed_cost cost_breakdown validate contribution
cost_of_long_delay = refl

validate-Dominates_example : Dominates (weights 100) cost_terms
validate-Dominates_example = validate-Dominates (weights 100) cost_terms weights_valid
