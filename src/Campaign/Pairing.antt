-- ===== src/Campaign/Pairing.antt =====
-- `targeted_execution_order` of src/experiments/campaigns.py, and the expansion over recovery policies:
-- `campaign_episodes` and `expand_recovery_policies` of src/experiments/recovery_campaigns.py.
pub mod Ordered
pub mod Paired
mod Examples
use Prim.Native.String.{String, compare as str_compare}
use Prim.Native.Nat.{compare, Ordering}
use text.Mathlib.Text.{◌==◌ as str_eq}
use failure_prediction.Prelude.{
  ℕ, Bool, true, false, not, Option, none, some, List, [], ◌∷◌, ◌&&◌, ◌||◌, ◌==◌, if◌then◌else◌,
  length, for_each,
}
use failure_prediction.Prelude.Result.{Result, ok, err, raise_if, ◌>>=◌, ◌>>◌}
use failure_prediction.Campaign.Expansion.{Design, Episode, EpisodeKey, expand_balanced_pilot}

pub data Error : Type 0 where
  lost_or_duplicated unknown_policy repeated_policy : Error

-- Of two tuples the first is smaller.
abbrev pub string_first : String → String → Bool → Bool
string_first s t rest = elim (str_compare s t) [
  | Ordering.lt ↦ true
  | Ordering.eq ↦ rest
  | Ordering.gt ↦ false
]

abbrev pub number_first : ℕ → ℕ → Bool → Bool
number_first m n rest = elim (compare m n) [
  | Ordering.lt ↦ true
  | Ordering.eq ↦ rest
  | Ordering.gt ↦ false
]

-- `parts(a) < parts(b)`
abbrev pub parts_before : Episode → Episode → Bool
parts_before a b = string_first a.episode_key.condition_id b.episode_key.condition_id (
    number_first a.episode_key.replicate b.episode_key.replicate
      (string_first a.map b.map (string_first a.route b.route false)))

-- `sorted(episodes, key=parts)`, which keeps the order of equals.
unfoldable pub insert : Episode → List Episode → List Episode
insert e [] = e ∷ []
insert e (x ∷ xs) = let rest = insert e xs in if parts_before x e then x ∷ rest else e ∷ x ∷ xs

unfoldable pub sorted : List Episode → List Episode
unfolding insert
sorted [] = []
sorted (e ∷ es) = insert e (sorted es)

abbrev pub same_key : EpisodeKey → EpisodeKey → Bool
same_key a b =
    str_eq a.map_id b.map_id
    && str_eq a.route_id b.route_id
    && str_eq a.condition_id b.condition_id
    && a.replicate == b.replicate

abbrev pub has_key : EpisodeKey → List Episode → Bool
has_key k [] = false
has_key k (e ∷ es) = same_key k e.episode_key || has_key k es

abbrev pub repeats_key : List Episode → Bool
repeats_key [] = false
repeats_key (e ∷ es) = has_key e.episode_key es || repeats_key es

unfoldable pub targeted_execution_order : List Episode → Result Error (List Episode)
unfolding sorted
targeted_execution_order episodes =
    let ordered = sorted episodes in
    raise_if (not (length ordered == length episodes) || repeats_key ordered) lost_or_duplicated
    >> ok ordered

-- The part of a manifest on recovery; `recovery_selector_model` is none where it is empty.
pub record Manifest : Type 0 where
  pub design : Design
  pub policies : List String
  pub is_live : Bool
  pub selector_model : Option String

-- An episode under a policy: its key is that of `episode`, its `pair_key`, with the policy's id.
pub record PolicyEpisode : Type 0 where
  pub episode : Episode
  pub recovery_policy_id : String
  pub recovery_live_execution : Bool
  pub recovery_selector_model : Option String

-- The plain expansion, or one over policies.
pub data Expansion : Type 0 where
  plain : List Episode → Expansion
  per_policy : List PolicyEpisode → Expansion

abbrev pub mem : String → List String → Bool
mem s [] = false
mem s (t ∷ ts) = str_eq s t || mem s ts

-- `POLICY_IDS`
abbrev pub policy_ids : List String
policy_ids =
    "R0" ∷ "R1" ∷ "R2" ∷ "R3" ∷ "RP_controlled_stop" ∷ "RP_relocalise" ∷ "RP_replan_clear_costmaps"
    ∷ "RP_backup" ∷ "RP_spin_active_rescan" ∷ "RP_wait" ∷ []

abbrev pub any_unknown : List String → Bool
any_unknown [] = false
any_unknown (p ∷ ps) = not (mem p policy_ids) || any_unknown ps

abbrev pub repeats : List String → Bool
repeats [] = false
repeats (p ∷ ps) = mem p ps || repeats ps

abbrev pub item_of : Manifest → Episode → String → PolicyEpisode
item_of m e policy = record {
  episode = e;
  recovery_policy_id = policy;
  recovery_live_execution = m.is_live && not (str_eq policy "R0");
  recovery_selector_model = if str_eq policy "R3" then m.selector_model else none;
}

unfoldable pub items_of : Manifest → List String → Episode → List PolicyEpisode
unfolding for_each
items_of m policies e = for_each policies (λ p. item_of m e p ∷ [])

-- `expand_recovery_policies`, where there are policies and where there are none.
unfoldable pub expand_recovery_policies :
    Manifest → List String → List Episode → Result Error Expansion
unfolding items_of
expand_recovery_policies m [] episodes = ok (plain episodes)
expand_recovery_policies m (p ∷ ps) episodes =
    raise_if (any_unknown (p ∷ ps)) unknown_policy
    >> raise_if (repeats (p ∷ ps)) repeated_policy
    >> ok (per_policy (for_each episodes (items_of m (p ∷ ps))))

unfoldable pub campaign_episodes_with : Manifest → List String → Result Error Expansion
unfolding expand_balanced_pilot targeted_execution_order expand_recovery_policies
campaign_episodes_with m [] = ok (plain (expand_balanced_pilot m.design))
campaign_episodes_with m (p ∷ ps) =
    targeted_execution_order (expand_balanced_pilot m.design)
    >>= expand_recovery_policies m (p ∷ ps)

unfoldable pub campaign_episodes : Manifest → Result Error Expansion
unfolding campaign_episodes_with
campaign_episodes m = campaign_episodes_with m m.policies
