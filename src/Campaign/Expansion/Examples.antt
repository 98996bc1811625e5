-- ===== src/Campaign/Expansion/Examples.antt =====
-- Two maps with two routes each, a clean condition and a fault (src/experiments/campaigns.py).
use failure_prediction.Prelude.{
  for_each, ℕ, true, false, none, some, List, [], ◌∷◌, ◌≡◌, refl, arith, length,
}
use failure_prediction.Campaign.Expansion.{
  Condition, Design, Episode, replicates_of, expand_balanced_pilot,
}
use failure_prediction.Campaign.Expansion.Apart.{Apart}
use failure_prediction.Campaign.Expansion.Seeds.{Roomy, expand_balanced_pilot-Apart}

abbrev clean : Condition
clean = record {
  id = "clean";
  system = "s0";
  family = "none";
  severity = "none";
  replicates = none;
}

abbrev blockage : Condition
blockage = record {
  id = "blockage";
  system = "s3";
  family = "dynamic_blockage";
  severity = "high";
  replicates = some (5 ∷ 17 ∷ []);
}

abbrev design : Design
design = record {
  map_routes =
      ("office", "office_a" ∷ "office_b" ∷ []) ∷ ("depot", "depot_a" ∷ "depot_b" ∷ []) ∷ [];
  conditions = clean ∷ blockage ∷ [];
  replicates = 1 ∷ 2 ∷ 3 ∷ [];
  is_wide = true;
  seed_base = 42_000_000;
}

abbrev seeds : List Episode → List ℕ
seeds [] = []
seeds (e ∷ es) = e.seed ∷ seeds es

twenty_episodes : length (expand_balanced_pilot design) ≡ 20
unfolding expand_balanced_pilot for_each
twenty_episodes = refl

clean-Roomy : Roomy (replicates_of design clean.replicates)
clean-Roomy = (
  (omega arith, (omega arith, (omega arith, tt))),
  ((λ e. omega arith, (λ e. omega arith, tt)), ((λ e. omega arith, tt), (tt, tt))),
)

blockage-Roomy : Roomy (replicates_of design blockage.replicates)
blockage-Roomy = ((omega arith, (omega arith, tt)), ((λ e. omega arith, tt), (tt, tt)))

expand_balanced_pilot-Apart_example : Apart (λ e. e.seed) (expand_balanced_pilot design)
expand_balanced_pilot-Apart_example =
    expand_balanced_pilot-Apart design refl (clean-Roomy, (blockage-Roomy, tt)) (omega arith)
      (omega arith, (omega arith, tt))

-- The narrow layout gives the eleventh replicate of a route the seed of the next route's first.
abbrev narrow : Design
narrow = record {
  map_routes = ("office", "office_a" ∷ "office_b" ∷ []) ∷ [];
  conditions = clean ∷ [];
  replicates = 1 ∷ 11 ∷ [];
  is_wide = false;
  seed_base = 0;
}

narrow-seeds : seeds (expand_balanced_pilot narrow) ≡ 100 ∷ 1_100 ∷ 1_100 ∷ 2_100 ∷ []
unfolding expand_balanced_pilot for_each
narrow-seeds = refl
