-- ===== src/Dispatch/Waves.antt =====
-- `_finalize_complete_waves` of scripts/run_campaign_parallel.py: the reports of full ledger slices.
-- The reports themselves are written by other scripts: `finalize` is a parameter that tells for each wave
-- whether its call returns. Where it raises, the exception leaves the run.
pub mod Reported
use failure_prediction.Prelude.{
  ℕ, zero, suc, ◌+◌, ◌-◌, ◌*◌, ◌/◌, Bool, true, false, not, Option, none, some, List, [], ◌∷◌, ◌++◌,
  ◌||◌, ◌==◌, if◌then◌else◌, length, take, drop,
}
use failure_prediction.Dispatch.Queue.{Row, mem}

-- `raised` is the wave whose `finalize` raised: from then on nothing happens.
pub record Waves : Type 0 where
  pub finalized_waves : List ℕ
  pub waves_finalized : List ℕ
  pub waves_skipped_invalid : List ℕ
  pub raised : Option ℕ

-- `rows[(wave - 1) * size:wave * size]`
unfoldable pub slice_rows : ℕ → List Row → ℕ → List Row
slice_rows size rows wave = take size (drop ((wave - 1) * size) rows)

-- `any(row.get("returncode") for row in slice_rows)`
unfoldable pub any_invalid : List Row → Bool
any_invalid [] = false
any_invalid (r ∷ rs) = not (r.returncode == 0) || any_invalid rs

abbrev pub is_raised : Option ℕ → Bool
is_raised none = false
is_raised (some wave) = true

-- `self.finalize(…)` and the line behind it.
unfoldable pub call_finalize : (ℕ → Bool) → ℕ → Waves → Waves
call_finalize finalize wave w =
    if finalize wave
    then record w { waves_finalized = w.waves_finalized ++ wave ∷ [] }
    else record w { raised = some wave }

-- The body of the loop for one wave.
unfoldable pub finalize_wave : (ℕ → Bool) → ℕ → List Row → ℕ → Waves → Waves
unfolding call_finalize
finalize_wave finalize size rows wave w =
    let seen = record w { finalized_waves = wave ∷ w.finalized_waves } in
    if is_raised w.raised || mem wave w.finalized_waves
    then w
    else if any_invalid (slice_rows size rows wave)
    then record seen { waves_skipped_invalid = w.waves_skipped_invalid ++ wave ∷ [] }
    else call_finalize finalize wave seen

-- `for wave in range(1, n + 1)`, by the rounds left and the next wave.
unfoldable pub finalize_from : (ℕ → Bool) → ℕ → List Row → ℕ → ℕ → Waves → Waves
finalize_from finalize size rows zero wave w = w
finalize_from finalize size rows (suc n) wave w =
    finalize_from finalize size rows n (suc wave) (finalize_wave finalize size rows wave w)

-- A dispatcher without `finalize` does nothing.
unfoldable pub finalize_complete_waves : Option (ℕ → Bool) → ℕ → List Row → Waves → Waves
unfolding finalize_from
finalize_complete_waves none size rows w = w
finalize_complete_waves (some finalize) size rows w =
    finalize_from finalize size rows (length rows / size) 1 w

-- The calls of one run, each over the ledger as it then is.
unfoldable pub finalize_calls : Option (ℕ → Bool) → ℕ → List (List Row) → Waves → Waves
unfolding finalize_complete_waves
finalize_calls finalize size [] w = w
finalize_calls finalize size (rows ∷ later) w =
    finalize_calls finalize size later (finalize_complete_waves finalize size rows w)

abbrev pub no_waves : Waves
no_waves = record {
  finalized_waves = [];
  waves_finalized = [];
  waves_skipped_invalid = [];
  raised = none;
}
