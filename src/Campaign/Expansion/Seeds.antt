-- ===== src/Campaign/Expansion/Seeds.antt =====
-- The seeds of the wide layout (src/experiments/campaigns.py).
use Prim.Native.String.{String}
use failure_prediction.Prelude.{
  ℕ, ◌+◌, ◌-◌, ◌*◌, ◌/◌, ◌%◌, ◌≤◌, ◌<◌, true, List, [], ◌∷◌, ◌≡◌, ◌≢◌, refl, arith, All, All-mono,
  length, for_each,
}
use failure_prediction.Campaign.Expansion.{
  Condition, Design, Episode, replicates_of, seed_of, condition_episodes, episode_of,
  route_episodes, map_episodes, expand_balanced_pilot,
}
use failure_prediction.Campaign.Expansion.Apart.{
  Apart, for_each_indexed-All, for_each_indexed-Apart,
}

-- A list of replicates that the layout has room for.
abbrev pub Roomy : List ℕ → Type 0
Roomy replicates = All (λ k. k < 1_000) replicates × Apart (λ k. k) replicates

All-Unit : {A : Type 0} (xs : List A) → All (λ _. Unit {0}) xs
All-Unit [] = tt
All-Unit (x ∷ xs) = (tt, All-Unit xs)

abbrev seed : Episode → ℕ
seed e = e.seed

module _ (d : Design) (wide : d.is_wide ≡ true) where
  seed_wide :
      (m r k c : ℕ) → seed_of d m r k c ≡ d.seed_base + m * 1_000_000 + r * 100_000 + k * 100 + c
  unfolding seed_of
  seed_wide m r k c = rw wide refl

  module _ (m : ℕ) (map_id : String) where
    -- The seed of some replicate of a condition on a route.
    abbrev Cell : ℕ → ℕ → Episode → Type 0
    Cell r c e =
        (k : ℕ) × (k < 1_000) × (e.seed ≡ d.seed_base + m * 1_000_000 + r * 100_000 + k * 100 + c)

    abbrev OnRoute : ℕ → Episode → Type 0
    OnRoute r e =
        (rest : ℕ) × (rest < 100_000) × (e.seed ≡ d.seed_base + m * 1_000_000 + r * 100_000 + rest)

    abbrev OnMap : Episode → Type 0
    OnMap e = (rest : ℕ) × (rest < 1_000_000) × (e.seed ≡ d.seed_base + m * 1_000_000 + rest)

    abbrev Good : Condition → Type 0
    Good condition = Roomy (replicates_of d condition.replicates)

    module _ (r : ℕ) (route_id : String) where
      module _ (c : ℕ) (condition : Condition) where
        abbrev episodes_of : List ℕ → List Episode
        episodes_of ks = for_each ks (λ k. episode_of d m map_id r route_id c condition k ∷ [])

        replicates-Cell : (ks : List ℕ) → Roomy ks → All (Cell r c) (episodes_of ks)
        unfolding for_each
        replicates-Cell [] q = tt
        replicates-Cell (k ∷ ks) ((low, lows), (_, apart)) =
            ((k, low, seed_wide m r k c), replicates-Cell ks (lows, apart))

        seeds_differ :
            (k : ℕ) (ks : List ℕ)
            → All (λ j. k ≢ j) ks
            → All (λ e. seed_of d m r k c ≢ seed e) (episodes_of ks)
        unfolding for_each
        seeds_differ k [] q = tt
        seeds_differ k (j ∷ js) (q, qs) = (
          λ same. q (let a = seed_wide m r k c in let b = seed_wide m r j c in omega arith),
          seeds_differ k js qs,
        )

        replicates-Apart : (ks : List ℕ) → Roomy ks → Apart seed (episodes_of ks)
        unfolding for_each
        replicates-Apart [] q = tt
        replicates-Apart (k ∷ ks) ((low, lows), (differ, apart)) =
            (seeds_differ k ks differ, replicates-Apart ks (lows, apart))

      route_episodes-OnRoute :
          All Good d.conditions
          → length d.conditions ≤ 100
          → All (OnRoute r) (route_episodes d m map_id r route_id)
      unfolding route_episodes condition_episodes
      route_episodes-OnRoute good few =
          for_each_indexed-All seed Good (condition_episodes d m map_id r route_id) 100 (OnRoute r)
            (λ c condition small q.
              All-mono (Cell r c) (OnRoute r)
                (λ e (k, low, is). (k * 100 + c, ground arith, ground arith))
                (condition_episodes d m map_id r route_id c condition)
                (replicates-Cell c condition (replicates_of d condition.replicates) q))
            0 d.conditions good (omega arith)

      route_episodes-Apart :
          All Good d.conditions
          → length d.conditions ≤ 100
          → Apart seed (route_episodes d m map_id r route_id)
      unfolding route_episodes condition_episodes
      route_episodes-Apart good few =
          for_each_indexed-Apart seed Good (condition_episodes d m map_id r route_id) 100
            (λ s. (s - d.seed_base) % 100)
            (λ c condition small q.
              replicates-Apart c condition (replicates_of d condition.replicates) q)
            (λ c condition small q.
              All-mono (Cell r c) (λ e. (seed e - d.seed_base) % 100 ≡ c)
                (λ e (k, low, is). ground arith)
                (condition_episodes d m map_id r route_id c condition)
                (replicates-Cell c condition (replicates_of d condition.replicates) q))
            0 d.conditions good (omega arith)

    module _ (good : All Good d.conditions) (few : length d.conditions ≤ 100) where
      map_episodes-OnMap :
          (routes : List String)
          → length routes ≤ 10
          → All OnMap (map_episodes d m (map_id, routes))
      unfolding map_episodes
      map_episodes-OnMap routes fit =
          for_each_indexed-All seed (λ _. Unit) (route_episodes d m map_id) 10 OnMap
            (λ r route_id small _.
              All-mono (OnRoute r) OnMap
                (λ e (rest, low, is). (r * 100_000 + rest, ground arith, ground arith))
                (route_episodes d m map_id r route_id) (route_episodes-OnRoute r route_id good few))
            0 routes (All-Unit routes) (omega arith)

      map_episodes-Apart :
          (routes : List String)
          → length routes ≤ 10
          → Apart seed (map_episodes d m (map_id, routes))
      unfolding map_episodes
      map_episodes-Apart routes fit =
          for_each_indexed-Apart seed (λ _. Unit) (route_episodes d m map_id) 10
            (λ s. (s - d.seed_base) / 100_000 % 10)
            (λ r route_id small _. route_episodes-Apart r route_id good few)
            (λ r route_id small _.
              All-mono (OnRoute r) (λ e. (seed e - d.seed_base) / 100_000 % 10 ≡ r)
                (λ e (rest, low, is). ground arith) (route_episodes d m map_id r route_id)
                (route_episodes-OnRoute r route_id good few))
            0 routes (All-Unit routes) (omega arith)

-- In the wide layout, with at most a hundred conditions and ten routes on each map, and with the
-- replicates of each condition distinct and below a thousand, no two episodes of the design have the
-- same seed.
pub expand_balanced_pilot-Apart :
    (d : Design)
    → d.is_wide ≡ true
    → All (λ condition. Roomy (replicates_of d condition.replicates)) d.conditions
    → length d.conditions ≤ 100
    → All (λ map_routes. length map_routes.1 ≤ 10) d.map_routes
    → Apart (λ e. e.seed) (expand_balanced_pilot d)
unfolding expand_balanced_pilot
expand_balanced_pilot-Apart d wide good few fit =
    for_each_indexed-Apart seed (λ map_routes. length map_routes.1 ≤ 10) (map_episodes d)
      (length d.map_routes) (λ s. (s - d.seed_base) / 1_000_000)
      (λ m (map_id, routes) small q. map_episodes-Apart d wide m map_id good few routes q)
      (λ m (map_id, routes) small q.
        All-mono (OnMap d wide m map_id) (λ e. (seed e - d.seed_base) / 1_000_000 ≡ m)
          (λ e (rest, low, is). ground arith) (map_episodes d m (map_id, routes))
          (map_episodes-OnMap d wide m map_id good few routes q))
      0 d.map_routes fit (omega arith)
