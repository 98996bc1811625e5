-- ===== src/Recovery/Selector/Cheapest.antt =====
-- Both selectors of src/recovery/selector.py, with lemmas on minima.
use mathlib.Core.Path.{subst}
use failure_prediction.Prelude.{
  ◌⊎◌, false, true, none, some, List, [], ◌∷◌, ◌≡◌, ◌⊎◌, arith, All, Bool-cases, inl, inr, refl,
  sym, if_either, All-mono,
}
use failure_prediction.Prelude.Int.{ℤ, ◌≤ℤ◌}
use failure_prediction.Recovery.Types.{Action, request_assistance, Guards, SignalGroup}
use failure_prediction.Recovery.Selector.{
  Costs, rule_matched_action, eligible_costs, cheaper, minimum, assistance_cost, lowest_of,
  select_lowest_cost,
}

cheaper-le : (item best : Action × ℤ) → (cheaper item best).1 ≤ℤ best.1
unfolding cheaper
cheaper-le (a, c) (b, d) = ground arith

cheaper-le_item : (item best : Action × ℤ) → (cheaper item best).1 ≤ℤ item.1
unfolding cheaper
cheaper-le_item (a, c) (b, d) = ground arith

cheaper-cases : (item best : Action × ℤ) → (cheaper item best ≡ item) ⊎ (cheaper item best ≡ best)
unfolding cheaper
cheaper-cases (a, c) (b, d) = ground arith

minimum-le : (best : Action × ℤ) (items : List (Action × ℤ)) → (minimum best items).1 ≤ℤ best.1
unfolding minimum
minimum-le best [] = omega arith
minimum-le best (item ∷ items) =
    omega (arith, minimum-le (cheaper item best) items, cheaper-le item best)

minimum-le_items :
    (best : Action × ℤ) (items : List (Action × ℤ))
    → All (λ item. (minimum best items).1 ≤ℤ item.1) items
unfolding minimum
minimum-le_items best [] = tt
minimum-le_items best (item ∷ items) = (
  omega (arith, minimum-le (cheaper item best) items, cheaper-le_item item best),
  minimum-le_items (cheaper item best) items,
)

module _ (P : Action × ℤ → Type 0) where
  cheaper-holds : (item best : Action × ℤ) → P item → P best → P (cheaper item best)
  cheaper-holds item best h k = elim (cheaper-cases item best) [ inl e ↦ rw e h | inr e ↦ rw e k ]

  minimum-holds :
      (best : Action × ℤ) (items : List (Action × ℤ))
      → P best
      → All P items
      → P (minimum best items)
  unfolding minimum
  minimum-holds best [] h hs = h
  minimum-holds best (item ∷ items) h hs =
      minimum-holds (cheaper item best) items (cheaper-holds item best hs.0 h) hs.1

-- The dictionary has an action with a cost.
abbrev pub Offers : Action × ℤ → Costs → Type 0
Offers item [] = ⊥
Offers item ((none, c) ∷ costs) = Offers item costs
Offers item ((some a, c) ∷ costs) = (item ≡ (a, c)) ⊎ Offers item costs

module _ (guards : Guards) where
  abbrev pub IsEligible : Action × ℤ → Type 0
  IsEligible (a, c) = (guards a).eligible ≡ true

  eligible_costs-IsEligible : (costs : Costs) → All IsEligible (eligible_costs costs guards)
  unfolding eligible_costs
  eligible_costs-IsEligible [] = tt
  eligible_costs-IsEligible ((none, c) ∷ costs) = eligible_costs-IsEligible costs
  eligible_costs-IsEligible ((some a, c) ∷ costs) = elim (Bool-cases (guards a).eligible) [
    | inl e ↦ rw e (e, eligible_costs-IsEligible costs)
    | inr e ↦ rw e (eligible_costs-IsEligible costs)
  ]

  -- No admitted entry of the dictionary costs less than `x`.
  abbrev pub Undercut : ℤ → Costs → Type 0
  Undercut x [] = Unit
  Undercut x ((none, c) ∷ costs) = Undercut x costs
  Undercut x ((some a, c) ∷ costs) = (((guards a).eligible ≡ false) ⊎ (x ≤ℤ c)) × Undercut x costs

  Undercut-eligible_costs :
      (x : ℤ) (costs : Costs)
      → All (λ (item : Action × ℤ). x ≤ℤ item.1) (eligible_costs costs guards)
      → Undercut x costs
  unfolding eligible_costs
  Undercut-eligible_costs x [] h = tt
  Undercut-eligible_costs x ((none, c) ∷ costs) h = Undercut-eligible_costs x costs h
  Undercut-eligible_costs x ((some a, c) ∷ costs) h = elim (Bool-cases (guards a).eligible) [
    | inl e ↦ let k = rw e at h in (inr k.0, Undercut-eligible_costs x costs k.1)
    | inr e ↦ let k = rw e at h in (inl e, Undercut-eligible_costs x costs k)
  ]

  lowest_of-IsEligible :
      (items : List (Action × ℤ)) (fallback : ℤ)
      → (guards request_assistance).eligible ≡ true
      → All IsEligible items
      → IsEligible (lowest_of items fallback)
  lowest_of-IsEligible [] fallback always h = always
  lowest_of-IsEligible (item ∷ items) fallback always h =
      minimum-holds IsEligible item items h.0 h.1

  pub select_lowest_cost-IsEligible :
      (costs : Costs)
      → (guards request_assistance).eligible ≡ true
      → (guards (select_lowest_cost costs guards).0).eligible ≡ true
  unfolding select_lowest_cost
  select_lowest_cost-IsEligible costs always =
      lowest_of-IsEligible (eligible_costs costs guards) _ always (eligible_costs-IsEligible costs)

  eligible_costs-Offers :
      (costs : Costs) → All (λ item. Offers item costs) (eligible_costs costs guards)
  unfolding eligible_costs
  eligible_costs-Offers [] = tt
  eligible_costs-Offers ((none, c) ∷ costs) = eligible_costs-Offers costs
  eligible_costs-Offers ((some a, c) ∷ costs) =
      let later =
        All-mono (λ item. Offers item costs) (λ item. Offers item ((some a, c) ∷ costs))
          (λ item h. inr h) (eligible_costs costs guards) (eligible_costs-Offers costs) in
      if_either (All (λ item. Offers item ((some a, c) ∷ costs))) (guards a).eligible
        (λ e. (inl refl, later)) (λ e. later)

  -- No action with a predicted cost is admitted.
  abbrev pub NoneAdmitted : Costs → Type 0
  NoneAdmitted [] = Unit
  NoneAdmitted ((none, c) ∷ costs) = NoneAdmitted costs
  NoneAdmitted ((some a, c) ∷ costs) = ((guards a).eligible ≡ false) × NoneAdmitted costs

  eligible_costs-NoneAdmitted :
      (costs : Costs) → eligible_costs costs guards ≡ [] → NoneAdmitted costs
  unfolding eligible_costs
  eligible_costs-NoneAdmitted [] h = tt
  eligible_costs-NoneAdmitted ((none, c) ∷ costs) h = eligible_costs-NoneAdmitted costs h
  eligible_costs-NoneAdmitted ((some a, c) ∷ costs) h = elim (Bool-cases (guards a).eligible) [
    | inl e ↦ absurd (let bad = rw e at h in cc)
    | inr e ↦ (e, eligible_costs-NoneAdmitted costs (rw e at h))
  ]

  -- An admitted action with its predicted cost, which no admitted one undercuts; or the call for help,
  -- where no action with a predicted cost is admitted.
  abbrev pub Selected : Costs → Action × ℤ → Type 0
  Selected costs item =
      (IsEligible item × Offers item costs × Undercut item.1 costs)
      ⊎ ((item ≡ (request_assistance, assistance_cost costs)) × NoneAdmitted costs)

  lowest_of-Selected :
      (costs : Costs) (items : List (Action × ℤ))
      → eligible_costs costs guards ≡ items
      → Selected costs (lowest_of items (assistance_cost costs))
  lowest_of-Selected costs [] h = inr (refl, eligible_costs-NoneAdmitted costs h)
  lowest_of-Selected costs (item ∷ items) h =
      let admitted = subst (All IsEligible) h (eligible_costs-IsEligible costs) in
      let offered = subst (All (λ i. Offers i costs)) h (eligible_costs-Offers costs) in
      inl (
        minimum-holds IsEligible item items admitted.0 admitted.1,
        minimum-holds (λ i. Offers i costs) item items offered.0 offered.1,
        Undercut-eligible_costs (minimum item items).1 costs (
            subst (All (λ i. (minimum item items).1 ≤ℤ i.1)) (sym h)
              (minimum-le item items, minimum-le_items item items)),
      )

  pub select_lowest_cost-Selected :
      (costs : Costs) → Selected costs (select_lowest_cost costs guards)
  unfolding select_lowest_cost
  select_lowest_cost-Selected costs = lowest_of-Selected costs (eligible_costs costs guards) refl

  pub rule_matched_action-IsEligible :
      (group : SignalGroup)
      → (guards request_assistance).eligible ≡ true
      → (guards (rule_matched_action group guards).0).eligible ≡ true
  unfolding rule_matched_action
  rule_matched_action-IsEligible group always = ground arith
