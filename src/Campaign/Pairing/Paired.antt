-- ===== src/Campaign/Pairing/Paired.antt =====
-- Episodes paired over the policies (src/experiments/recovery_campaigns.py).
use Prim.Native.String.{String}
use mathlib.Core.Path.{subst}
use text.Mathlib.TextEquality.{eq_iff}
use failure_prediction.Prelude.{
  ◌≤◌, true, false, not, List, [], ◌∷◌, ◌++◌, ◌≡◌, ◌≢◌, ◌⊎◌, inl, inr, ap, ◌∙◌, arith, All,
  All-append, All-mono, Among, Among-All, Among-for_each, length, ◌==◌, ◌||◌, for_each,
}
use failure_prediction.Prelude.Result.{ok, raise_if, ◌>>◌, bind_ok}
use failure_prediction.Campaign.Expansion.{Episode, replicates_of, expand_balanced_pilot}
use failure_prediction.Campaign.Expansion.Apart.{Apart}
use failure_prediction.Campaign.Expansion.Seeds.{Roomy, expand_balanced_pilot-Apart}
use failure_prediction.Campaign.Pairing.{
  lost_or_duplicated, unknown_policy, repeated_policy, repeats_key, any_unknown, Manifest,
  PolicyEpisode, per_policy, mem, repeats, item_of, items_of, sorted, targeted_execution_order,
  expand_recovery_policies, campaign_episodes_with, campaign_episodes,
}
use failure_prediction.Campaign.Pairing.Ordered.{sorted-Apart, sorted-Among}

abbrev pub Differ : PolicyEpisode → PolicyEpisode → Type 0
Differ a b = (a.episode.seed ≢ b.episode.seed) ⊎ (a.recovery_policy_id ≢ b.recovery_policy_id)

-- No two episodes share a seed and a policy.
abbrev pub NoRepeat : List PolicyEpisode → Type 0
NoRepeat [] = Unit
NoRepeat (a ∷ items) = All (Differ a) items × NoRepeat items

NoRepeat-append :
    (xs ys : List PolicyEpisode)
    → NoRepeat xs
    → NoRepeat ys
    → All (λ a. All (Differ a) ys) xs
    → NoRepeat (xs ++ ys)
NoRepeat-append [] ys p q r = q
NoRepeat-append (x ∷ xs) ys (p, ps) q (r, rs) =
    (All-append _ xs ys p r, NoRepeat-append xs ys ps q rs)

abbrev Unique : List String → Type 0
Unique [] = Unit
Unique (p ∷ ps) = All (λ q. p ≢ q) ps × Unique ps

mem-differ : (p : String) (ps : List String) → mem p ps ≡ false → All (λ q. p ≢ q) ps
mem-differ p [] h = tt
mem-differ p (q ∷ qs) h =
    (λ same. let equal = (eq_iff p q).1 same in ground arith, mem-differ p qs (ground arith))

repeats-Unique : (ps : List String) → repeats ps ≡ false → Unique ps
repeats-Unique [] h = tt
repeats-Unique (p ∷ ps) h = (mem-differ p ps (ground arith), repeats-Unique ps (ground arith))

module _ (m : Manifest) where
  items_of-All :
      (P : PolicyEpisode → Type 0) (e : Episode) (ps : List String)
      → All (λ p. P (item_of m e p)) ps
      → All P (items_of m ps e)
  unfolding items_of for_each
  items_of-All P e [] h = tt
  items_of-All P e (p ∷ ps) (h, hs) = (h, items_of-All P e ps hs)

  items_of-Among :
      (e : Episode) (p : String) (ps : List String)
      → Among p ps
      → Among (item_of m e p) (items_of m ps e)
  unfolding items_of for_each
  items_of-Among e p [] w = absurd w
  items_of-Among e p (q ∷ qs) (inl same) = inl (ap (item_of m e) same)
  items_of-Among e p (q ∷ qs) (inr w) = inr (items_of-Among e p qs w)

  items_of-NoRepeat : (e : Episode) (ps : List String) → Unique ps → NoRepeat (items_of m ps e)
  unfolding items_of for_each
  items_of-NoRepeat e [] u = tt
  items_of-NoRepeat e (p ∷ ps) (u, us) = (
    items_of-All (Differ (item_of m e p)) e ps (All-mono _ _ (λ q d. inr d) ps u),
    items_of-NoRepeat e ps us,
  )

  for_each-seeds :
      (ps : List String) (a : Episode) (es : List Episode)
      → All (λ e. a.seed ≢ e.seed) es
      → All (λ i. a.seed ≢ i.episode.seed) (for_each es (items_of m ps))
  unfolding for_each
  for_each-seeds ps a [] h = tt
  for_each-seeds ps a (e ∷ es) (h, hs) =
      All-append _ (items_of m ps e) (for_each es (items_of m ps))
        (items_of-All (λ i. a.seed ≢ i.episode.seed) e ps (Among-All _ ps (λ p w. h)))
        (for_each-seeds ps a es hs)

  for_each-NoRepeat :
      (ps : List String) (es : List Episode)
      → Unique ps
      → Apart (λ e. e.seed) es
      → NoRepeat (for_each es (items_of m ps))
  unfolding for_each
  for_each-NoRepeat ps [] u apart = tt
  for_each-NoRepeat ps (e ∷ es) u (far, apart) =
      let rest = for_each es (items_of m ps) in
      NoRepeat-append (items_of m ps e) rest (items_of-NoRepeat e ps u)
        (for_each-NoRepeat ps es u apart)
        (items_of-All (λ a. All (Differ a) rest) e ps
          (Among-All _ ps (λ p w. All-mono _ _ (λ i d. inl d) rest (for_each-seeds ps e es far))))

  ordered-sorted :
      (es ordered : List Episode) → targeted_execution_order es ≡ ok ordered → sorted es ≡ ordered
  unfolding targeted_execution_order
  ordered-sorted es ordered h =
      let test = not (length (sorted es) == length es) || repeats_key (sorted es) in
      let (_, _, same) =
        bind_ok (raise_if test lost_or_duplicated) (λ _. ok (sorted es)) ordered h in
      cc

  expanded :
      (p : String) (ps : List String) (es : List Episode) (items : List PolicyEpisode)
      → expand_recovery_policies m (p ∷ ps) es ≡ ok (per_policy items)
      → (repeats (p ∷ ps) ≡ false) × (for_each es (items_of m (p ∷ ps)) ≡ items)
  unfolding expand_recovery_policies
  expanded p ps es items h =
      let all = per_policy (for_each es (items_of m (p ∷ ps))) in
      let known = raise_if (any_unknown (p ∷ ps)) unknown_policy in
      let unique = raise_if (repeats (p ∷ ps)) repeated_policy in
      let (_, guards, same) = bind_ok (known >> unique) (λ _. ok all) (per_policy items) h in
      let (_, _, once) = bind_ok known (λ _. unique) tt guards in (ground arith, cc)

  with_policies :
      (ps : List String) (items : List PolicyEpisode)
      → campaign_episodes_with m ps ≡ ok (per_policy items)
      → (repeats ps ≡ false)
        × (for_each (sorted (expand_balanced_pilot m.design)) (items_of m ps) ≡ items)
  unfolding campaign_episodes_with
  with_policies [] items h = absurd (cc)
  with_policies (p ∷ ps) items h =
      let base = expand_balanced_pilot m.design in
      let (ordered, t, x) =
        bind_ok (targeted_execution_order base) (expand_recovery_policies m (p ∷ ps))
          (per_policy items) h in
      let (once, same) = expanded p ps ordered items x in
      (once, ap (λ es. for_each es (items_of m (p ∷ ps))) (ordered-sorted base ordered t) ∙ same)

-- Where a campaign of the wide layout, with at most a hundred conditions and ten routes on each map, and
-- with distinct replicates below a thousand for each condition, expands over its recovery policies,
-- every episode of the design is there under every policy, and no two of the episodes have the same
-- seed and the same policy.
pub campaign_episodes-Paired :
    (m : Manifest) (items : List PolicyEpisode)
    → m.design.is_wide ≡ true
    → All (λ condition. Roomy (replicates_of m.design condition.replicates)) m.design.conditions
    → length m.design.conditions ≤ 100
    → All (λ map_routes. length map_routes.1 ≤ 10) m.design.map_routes
    → campaign_episodes m ≡ ok (per_policy items)
    → NoRepeat items
      × All
          (λ e. All (λ policy. Among (item_of m e policy) items) m.policies)
          (expand_balanced_pilot m.design)
unfolding campaign_episodes
campaign_episodes-Paired m items wide good few fit h =
    let (once, same) = with_policies m m.policies items h in
    let base = expand_balanced_pilot m.design in
    let apart =
      sorted-Apart (λ e. e.seed) base (expand_balanced_pilot-Apart m.design wide good few fit) in
    (
      subst NoRepeat same
          (for_each-NoRepeat m m.policies (sorted base) (repeats-Unique m.policies once) apart),
      Among-All _ base (λ e w. Among-All _ m.policies (λ policy v.
          subst (Among (item_of m e policy)) same (
            Among-for_each e (item_of m e policy) (sorted base) (items_of m m.policies)
              (sorted-Among e base w) (items_of-Among m e policy m.policies v)))),
    )
