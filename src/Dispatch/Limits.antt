-- ===== src/Dispatch/Limits.antt =====
-- `resolve_system_concurrency` of scripts/run_campaign_parallel.py: the caps of the manifest, of an
-- amendment and of the command line. A block of caps is a list of entries, each system being "s"
-- before a number, as `normalise_system_concurrency` of src/experiments/campaigns.py returns it: a
-- dictionary, so no system stands in it twice.
pub mod Strictest
mod Examples
use failure_prediction.Prelude.{
  ℕ, min, Bool, true, false, Option, none, some, List, [], ◌∷◌, ltb, ◌==◌, if◌then◌else◌,
}
use failure_prediction.Prelude.Result.{Result, ok, err, ◌>>=◌}

abbrev pub Block : Type 0
Block = List (ℕ × ℕ)

-- A dictionary that the function fills.
abbrev pub CapMap : Type 0
CapMap = ℕ → Option ℕ

-- The exception: a flag looser than a declared cap.
pub data Error : Type 0 where
  loosens_declared_cap : ℕ → ℕ → Error

abbrev pub or_cap : Option ℕ → ℕ → ℕ
or_cap none cap = cap
or_cap (some d) cap = d

abbrev pub put : ℕ → ℕ → CapMap → CapMap
put system cap caps j = if j == system then some cap else caps j

-- The inner loop over one declared block.
unfoldable pub declare_caps : Block → CapMap → CapMap
declare_caps [] declared = declared
declare_caps ((system, cap) ∷ block) declared =
    declare_caps block (put system (min cap (or_cap (declared system) cap)) declared)

abbrev pub loosens : Option ℕ → ℕ → Bool
loosens none cap = false
loosens (some d) cap = ltb d cap

-- The loop over the command line's block.
unfoldable pub apply_flags : CapMap → Block → CapMap → Result Error CapMap
apply_flags declared [] effective = ok effective
apply_flags declared ((system, cap) ∷ block) effective =
    let rest =
      apply_flags declared block (put system (min cap (or_cap (declared system) cap)) effective) in
    if loosens (declared system) cap then err (loosens_declared_cap system cap) else rest

unfoldable pub resolve_system_concurrency : Block → Block → Block → Result Error CapMap
resolve_system_concurrency manifest flags amendment =
    let declared = declare_caps amendment (declare_caps manifest (λ s. none)) in
    apply_flags declared flags declared
