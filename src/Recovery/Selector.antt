-- ===== src/Recovery/Selector.antt =====
-- src/recovery/selector.py: the rule-matched and the cost-sensitive selector.
pub mod Cheapest
use failure_prediction.Prelude.{
  Bool, Option, none, some, List, [], ◌∷◌, ◌&&◌, ◌||◌, ltb, if◌then◌else◌,
}
use failure_prediction.Prelude.Int.{ℤ, pos, ltb_ℤ, leb_ℤ}
use failure_prediction.Recovery.Types.{
  Action, controlled_stop, relocalise, replan_clear_costmaps, backup, spin_active_rescan, wait,
  request_assistance, name_rank, same_action, Guards, SignalGroup, localisation, planning,
  frontal_blockage, perception, transient_obstruction, unknown, unrecognised,
}

-- `SIGNAL_ACTIONS.get(signal_group, "controlled_stop")`
unfoldable pub preferred_action : SignalGroup → Action
preferred_action localisation = relocalise
preferred_action planning = replan_clear_costmaps
preferred_action frontal_blockage = backup
preferred_action perception = spin_active_rescan
preferred_action transient_obstruction = wait
preferred_action unknown = controlled_stop
preferred_action unrecognised = controlled_stop

-- The reason strings of the selectors and of `decide_recovery`.
pub data SelectionReason : Type 0 where
  forced_eligible fixed_conservative_policy preferred_eligible : SelectionReason
  stop_rejected : SelectionReason
  forced_rejected forced_and_stop_rejected : Action → SelectionReason
  preferred_rejected preferred_and_stop_rejected : Action → SelectionReason
  lowest_cost : ℤ → SelectionReason

unfoldable pub rule_matched_action : SignalGroup → Guards → Action × SelectionReason
unfolding preferred_action
rule_matched_action group guards =
    let preferred = preferred_action group in
    if (guards preferred).eligible
    then (preferred, preferred_eligible)
    else if (guards controlled_stop).eligible
    then (controlled_stop, preferred_rejected preferred)
    else (request_assistance, preferred_and_stop_rejected preferred)

-- A dictionary of predicted costs; `none` is a key that names no action.
abbrev pub Costs : Type 0
Costs = List (Option Action × ℤ)

-- The eligible part: a key that `guards` lacks is dropped.
unfoldable pub eligible_costs : Costs → Guards → List (Action × ℤ)
eligible_costs [] guards = []
eligible_costs ((none, c) ∷ costs) guards = eligible_costs costs guards
eligible_costs ((some a, c) ∷ costs) guards =
    let rest = eligible_costs costs guards in if (guards a).eligible then (a, c) ∷ rest else rest

-- `item < best` by the key `(item[1], item[0])`
abbrev pub is_cheaper : Action × ℤ → Action × ℤ → Bool
is_cheaper (a, c) (b, d) = ltb_ℤ c d || (leb_ℤ c d && ltb (name_rank a) (name_rank b))

unfoldable pub cheaper : Action × ℤ → Action × ℤ → Action × ℤ
cheaper item best = if is_cheaper item best then item else best

-- Python's `min`: the first item that no later one undercuts.
unfoldable pub minimum : Action × ℤ → List (Action × ℤ) → Action × ℤ
unfolding cheaper
minimum best [] = best
minimum best (item ∷ items) = minimum (cheaper item best) items

-- `predicted_costs.get("request_assistance", 0.0)`
unfoldable pub assistance_cost : Costs → ℤ
assistance_cost [] = pos 0
assistance_cost ((none, c) ∷ costs) = assistance_cost costs
assistance_cost ((some a, c) ∷ costs) =
    if same_action a request_assistance then c else assistance_cost costs

abbrev pub lowest_of : List (Action × ℤ) → ℤ → Action × ℤ
lowest_of [] fallback = (request_assistance, fallback)
lowest_of (item ∷ items) fallback = minimum item items

unfoldable pub select_lowest_cost : Costs → Guards → Action × ℤ
unfolding eligible_costs minimum assistance_cost
select_lowest_cost costs guards = lowest_of (eligible_costs costs guards) (assistance_cost costs)
