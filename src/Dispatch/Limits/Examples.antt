-- ===== src/Dispatch/Limits/Examples.antt =====
-- Tests and concrete runs for the concurrency caps.
use failure_prediction.Prelude.{none, some, [], ◌∷◌, ◌≡◌, refl}
use failure_prediction.Prelude.Result.{ok, err}
use failure_prediction.Dispatch.Limits.{
  Block, CapMap, loosens_declared_cap, declare_caps, apply_flags, put, resolve_system_concurrency,
}
use failure_prediction.Dispatch.Limits.Strictest.{Keeps, resolve_system_concurrency-Keeps}

abbrev manifest : Block
manifest = (1, 4) ∷ (2, 3) ∷ []

abbrev amendment : Block
amendment = (2, 2) ∷ []

abbrev flags : Block
flags = (1, 3) ∷ (5, 6) ∷ []

abbrev effective : CapMap
effective = put 5 6 (put 1 3 (declare_caps amendment (declare_caps manifest (λ s. none))))

resolves : resolve_system_concurrency manifest flags amendment ≡ ok effective
unfolding resolve_system_concurrency apply_flags declare_caps
resolves = refl

effective_cap : effective 2 ≡ some 2
unfolding declare_caps
effective_cap = refl

refuses_looser_flag :
    resolve_system_concurrency manifest ((2, 3) ∷ []) amendment ≡ err (loosens_declared_cap 2 3)
unfolding resolve_system_concurrency apply_flags declare_caps
refuses_looser_flag = refl

resolve_system_concurrency-Keeps_example :
    Keeps effective manifest × Keeps effective amendment × Keeps effective flags
resolve_system_concurrency-Keeps_example =
    resolve_system_concurrency-Keeps manifest flags amendment effective ((refl, tt), (tt, tt))
      resolves
