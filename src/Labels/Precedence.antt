-- ===== src/Labels/Precedence.antt =====
-- src/labels/operational_events.py: the detector of unsafe perception and the choice of the primary
-- event. Times and distances are counted in fixed units.
pub mod Earliest
use Prim.Native.String.{String}
use text.Mathlib.Text.{◌==◌ as str_eq}
use failure_prediction.Prelude.{
  ℕ, suc, Bool, true, false, not, Option, none, some, List, [], ◌∷◌, ◌&&◌, ◌||◌, ltb, ◌==◌,
  if◌then◌else◌,
}
use failure_prediction.Prelude.Int.{ℤ, pos, leb_ℤ}
use failure_prediction.Prelude.Result.{Result, ok, err, raise_if, ◌>>=◌, ◌>>◌}
use failure_prediction.Labels.Operational.{Error, not_positive, validate_times}

pub record PerceptionSafetySample : Type 0 where
  pub timestamp : ℕ
  pub obstacle_distance_from_footprint_m : ℤ
  pub critical_obstacle_missed : Bool
  pub emergency_intervention : Bool

abbrev pub is_unsafe : ℕ → PerceptionSafetySample → Bool
is_unsafe region s =
    leb_ℤ s.obstacle_distance_from_footprint_m (pos region)
    && s.critical_obstacle_missed
    && s.emergency_intervention

abbrev first_unsafe : ℕ → List PerceptionSafetySample → Option ℕ
first_unsafe region [] = none
first_unsafe region (s ∷ ss) =
    let rest = first_unsafe region ss in if is_unsafe region s then some s.timestamp else rest

abbrev perception_times : List PerceptionSafetySample → List ℕ
perception_times [] = []
perception_times (s ∷ ss) = s.timestamp ∷ perception_times ss

unfoldable pub first_unsafe_perception : List PerceptionSafetySample → ℕ → Result Error (Option ℕ)
unfolding validate_times
first_unsafe_perception samples protected_region_m =
    validate_times none (perception_times samples)
    >> raise_if (protected_region_m == 0) not_positive
    >> ok (first_unsafe protected_region_m samples)

-- The time of an event class: `None`, a float that is not finite, or a finite one.
pub data EventTime : Type 0 where
  no_event not_finite : EventTime
  at_time : ℕ → EventTime

abbrev pub Available : Type 0
Available = String × ℕ

abbrev pub contains : String → List String → Bool
contains name [] = false
contains name (p ∷ ps) = str_eq name p || contains name ps

-- `rank.get(name, len(rank))`: the last place of the name, or the number of different names.
abbrev pub last_place : ℕ → Option ℕ → String → List String → Option ℕ
last_place index found name [] = found
last_place index found name (p ∷ ps) =
    last_place (suc index) (if str_eq name p then some index else found) name ps

abbrev pub different : List String → ℕ
different [] = 0
different (p ∷ ps) = let rest = different ps in if contains p ps then rest else suc rest

abbrev pub place_or : ℕ → Option ℕ → ℕ
place_or n none = n
place_or n (some i) = i

abbrev pub rank : List String → String → ℕ
rank precedence name = place_or (different precedence) (last_place 0 none name precedence)

-- `key(x) < key(y)`
abbrev pub precedes : List String → Available → Available → Bool
precedes precedence (n, t) (m, u) =
    ltb t u || (t == u && ltb (rank precedence n) (rank precedence m))

unfoldable pub min_from : List String → Available → List Available → Available
min_from precedence best [] = best
min_from precedence best (x ∷ xs) =
    min_from precedence (if precedes precedence x best then x else best) xs

unfoldable pub min_of : List String → List Available → Option Available
unfolding min_from
min_of precedence [] = none
min_of precedence (x ∷ xs) = some (min_from precedence x xs)

-- The error carries the class of the event.
abbrev add_available :
    String → EventTime → Result String (List Available) → Result String (List Available)
add_available name no_event rest = rest
add_available name not_finite rest = err name
add_available name (at_time t) rest = rest >>= λ l. ok ((name, t) ∷ l)

unfoldable pub available : List (String × EventTime) → Result String (List Available)
available [] = ok []
available ((name, time) ∷ events) = add_available name time (available events)

unfoldable pub first_primary_event :
    List (String × EventTime) → List String → Result String (Option Available)
unfolding available min_of
first_primary_event event_times precedence = available event_times >>= λ l. ok (min_of precedence l)
