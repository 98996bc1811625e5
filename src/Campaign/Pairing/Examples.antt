-- ===== src/Campaign/Pairing/Examples.antt =====
-- A campaign of one fault under two policies (src/experiments/recovery_campaigns.py).
use Prim.Native.String.{String}
use failure_prediction.Prelude.{
  ℕ, Bool, true, false, none, some, List, [], ◌∷◌, ◌≡◌, refl, arith, All, Among, for_each,
}
use failure_prediction.Prelude.Result.{Result, ok, err}
use failure_prediction.Campaign.Expansion.{Condition, Design, expand_balanced_pilot}
use failure_prediction.Campaign.Pairing.{
  Manifest, PolicyEpisode, Expansion, plain, per_policy, Error, repeated_policy, item_of,
  campaign_episodes,
}
use failure_prediction.Campaign.Pairing.Paired.{NoRepeat, campaign_episodes-Paired}

abbrev slip : Condition
slip = record {
  id = "slip";
  system = "s0";
  family = "wheel_slip";
  severity = "low";
  replicates = none;
}

abbrev design : Design
design = record {
  map_routes = ("office", "office_b" ∷ "office_a" ∷ []) ∷ [];
  conditions = slip ∷ [];
  replicates = 2 ∷ 1 ∷ [];
  is_wide = true;
  seed_base = 7_000_000;
}

abbrev manifest : List String → Manifest
manifest policies = record {
  design = design;
  policies = policies;
  is_live = true;
  selector_model = some "models/selector.json";
}

abbrev items_in : Result Error Expansion → List PolicyEpisode
items_in (ok (per_policy items)) = items
items_in (ok (plain es)) = []
items_in (err e) = []

abbrev items : List PolicyEpisode
unfolding campaign_episodes for_each
items = items_in (campaign_episodes (manifest ("R0" ∷ "R3" ∷ [])))

abbrev replicates_and_routes : List PolicyEpisode → List (ℕ × String × Bool)
replicates_and_routes [] = []
replicates_and_routes (i ∷ is) =
    (i.episode.episode_key.replicate, i.episode.route, i.recovery_live_execution)
    ∷ replicates_and_routes is

-- Waves of one replicate over the routes, each episode first without recovery.
in_order :
    replicates_and_routes items
    ≡ (1, "office_a", false)
      ∷ (1, "office_a", true)
      ∷ (1, "office_b", false)
      ∷ (1, "office_b", true)
      ∷ (2, "office_a", false)
      ∷ (2, "office_a", true)
      ∷ (2, "office_b", false)
      ∷ (2, "office_b", true)
      ∷ []
unfolding items
in_order = refl

refuses_repeats : campaign_episodes (manifest ("R1" ∷ "R1" ∷ [])) ≡ err repeated_policy
unfolding campaign_episodes for_each
refuses_repeats = refl

campaign_episodes-Paired_example :
    NoRepeat items
    × All
        (λ e.
          All
            (λ policy. Among (item_of (manifest ("R0" ∷ "R3" ∷ [])) e policy) items)
            ("R0" ∷ "R3" ∷ []))
        (expand_balanced_pilot design)
unfolding items campaign_episodes for_each
campaign_episodes-Paired_example =
    campaign_episodes-Paired (manifest ("R0" ∷ "R3" ∷ [])) items refl
      (((omega arith, (omega arith, tt)), ((λ e. omega arith, tt), (tt, tt))), tt) (omega arith)
      (omega arith, tt) refl
