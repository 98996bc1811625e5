-- ===== src/Campaign/Expansion.antt =====
-- `expand_balanced_pilot` of src/experiments/campaigns.py: the episodes of a design. An episode key is
-- kept as the four parts that the code joins; the defaults, which every episode repeats, are left out,
-- and `placed` tells whether the placement of environment faults is merged in.
pub mod Apart
pub mod Seeds
mod Examples
use Prim.Native.String.{String}
use text.Mathlib.Text.{◌==◌ as str_eq}
use failure_prediction.Prelude.{
  ℕ, suc, ◌+◌, ◌*◌, Bool, true, false, Option, none, some, List, [], ◌∷◌, ◌++◌, ◌||◌, if◌then◌else◌,
  for_each,
}

pub record Condition : Type 0 where
  pub id : String
  pub system : String
  pub family : String
  pub severity : String
  pub replicates : Option (List ℕ)

pub record Design : Type 0 where
  pub map_routes : List (String × List String)
  pub conditions : List Condition
  pub replicates : List ℕ
  pub is_wide : Bool
  pub seed_base : ℕ

pub record EpisodeKey : Type 0 where
  pub map_id : String
  pub route_id : String
  pub condition_id : String
  pub replicate : ℕ

pub record Episode : Type 0 where
  pub episode_key : EpisodeKey
  pub map : String
  pub route : String
  pub system : String
  pub family : String
  pub severity : String
  pub seed : ℕ
  pub placed : Bool

-- `condition.get("replicates", design.get("replicates", []))`
abbrev pub replicates_of : Design → Option (List ℕ) → List ℕ
replicates_of d none = d.replicates
replicates_of d (some own) = own

unfoldable pub seed_of : Design → ℕ → ℕ → ℕ → ℕ → ℕ
seed_of d map_index route_index replicate condition_index =
    if d.is_wide
    then d.seed_base
      + map_index * 1_000_000
      + route_index * 100_000
      + replicate * 100
      + condition_index
    else d.seed_base + map_index * 10_000 + route_index * 1_000 + replicate * 100 + condition_index

abbrev pub episode_of : Design → ℕ → String → ℕ → String → ℕ → Condition → ℕ → Episode
episode_of d map_index map_id route_index route_id condition_index condition replicate = record {
  episode_key = record {
    map_id = map_id;
    route_id = route_id;
    condition_id = condition.id;
    replicate = replicate;
  };
  map = map_id;
  route = route_id;
  system = condition.system;
  family = condition.family;
  severity = condition.severity;
  seed = seed_of d map_index route_index replicate condition_index;
  placed =
      str_eq condition.family "dynamic_blockage" || str_eq condition.family "planner_oscillation";
}

-- `for index, x in enumerate(xs): ...`, from an index on.
unfoldable pub for_each_indexed : {A B : Type 0} → ℕ → List A → (ℕ → A → List B) → List B
for_each_indexed index [] body = []
for_each_indexed index (x ∷ xs) body = body index x ++ for_each_indexed (suc index) xs body

unfoldable pub condition_episodes : Design → ℕ → String → ℕ → String → ℕ → Condition → List Episode
unfolding seed_of
condition_episodes d map_index map_id route_index route_id condition_index condition =
    for_each (replicates_of d condition.replicates) (λ replicate.
      episode_of d map_index map_id route_index route_id condition_index condition replicate ∷ [])

unfoldable pub route_episodes : Design → ℕ → String → ℕ → String → List Episode
unfolding for_each_indexed condition_episodes
route_episodes d map_index map_id route_index route_id =
    for_each_indexed 0 d.conditions (condition_episodes d map_index map_id route_index route_id)

unfoldable pub map_episodes : Design → ℕ → (String × List String) → List Episode
unfolding for_each_indexed route_episodes
map_episodes d map_index (map_id, routes) =
    for_each_indexed 0 routes (route_episodes d map_index map_id)

unfoldable pub expand_balanced_pilot : Design → List Episode
unfolding for_each_indexed map_episodes
expand_balanced_pilot d = for_each_indexed 0 d.map_routes (map_episodes d)
