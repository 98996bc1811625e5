-- ===== src/Campaign/Phases.antt =====
-- `system_concurrency_findings`, `normalise_system_concurrency` and `phased_execution_findings` of
-- src/experiments/campaigns.py. A finding keeps the parts of its message, but the name of the tightest
-- phase. Parameters: the pattern of a system id, and `str.lower`.
pub mod Within
use Prim.Native.String.{String, compare as str_compare}
use Prim.Native.Nat.{Ordering}
use text.Mathlib.Text.{◌==◌ as str_eq}
use failure_prediction.Prelude.{
  ℕ, suc, min, Bool, true, false, not, Option, none, some, List, [], ◌∷◌, ◌++◌, ltb, if◌then◌else◌,
}
use failure_prediction.Campaign.Documents.{
  Value, null, other, negative, boolean, integer, string, mapping, sequence, Entries, no_entries,
  entry, Items, no_items, item, entries_of,
}

pub data Block : Type 0 where
  system_concurrency phased_execution : Block

pub data Finding : Type 0 where
  bad_amendment_id : Finding
  not_on_file other_amendment_id not_approved condition_not_met : String → Finding
  not_admitted : String → String → Finding
  too_many_workers : String → ℕ → Finding
  not_mapping : Block → Finding
  bad_system bad_cap : Block → Value → Finding
  cap_above_admitted : String → ℕ → Finding
  no_systems : Finding
  no_phased_execution : List String → Finding
  no_phase : String → Finding
  above_phase_cap : ℕ → ℕ → Finding

abbrev pub when : Bool → Finding → List Finding
when test finding = if test then finding ∷ [] else []

-- A positive integer; a bool is none.
abbrev pub positive_integer : Value → Bool
positive_integer (integer n) = ltb 0 n
positive_integer null = false
positive_integer other = false
positive_integer negative = false
positive_integer (boolean b) = false
positive_integer (string s) = false
positive_integer (mapping _) = false
positive_integer (sequence _) = false

-- `int(cap)` of a cap that validated.
abbrev pub cap_of : Value → ℕ
cap_of (integer n) = n
cap_of null = 0
cap_of other = 0
cap_of negative = 0
cap_of (boolean b) = 0
cap_of (string s) = 0
cap_of (mapping _) = 0
cap_of (sequence _) = 0

-- A dictionary of caps, as the list of its items.
abbrev pub Caps : Type 0
Caps = List (String × ℕ)

unfoldable pub put : String → ℕ → Caps → Caps
put system cap [] = (system, cap) ∷ []
put system cap ((other_system, c) ∷ caps) =
    let rest = put system cap caps in
    if str_eq system other_system then (system, cap) ∷ caps else (other_system, c) ∷ rest

unfoldable pub lookup : String → Caps → Option ℕ
lookup system [] = none
lookup system ((other_system, c) ∷ caps) =
    let found = lookup system caps in if str_eq system other_system then some c else found

-- `workers > admitted_workers` where the bound is an integer; a bool is 0 or 1.
abbrev pub exceeds : ℕ → Value → Bool
exceeds n (integer m) = ltb m n
exceeds n negative = true
exceeds n (boolean b) = ltb (if b then 1 else 0) n
exceeds n null = false
exceeds n other = false
exceeds n (string s) = false
exceeds n (mapping _) = false
exceeds n (sequence _) = false

-- The same where the bound is no bool.
abbrev pub exceeds_integer : ℕ → Value → Bool
exceeds_integer n (integer m) = ltb m n
exceeds_integer n negative = true
exceeds_integer n (boolean b) = false
exceeds_integer n null = false
exceeds_integer n other = false
exceeds_integer n (string s) = false
exceeds_integer n (mapping _) = false
exceeds_integer n (sequence _) = false

unfoldable pub over_admitted : Value → Caps → List Finding
over_admitted admitted [] = []
over_admitted admitted ((system, cap) ∷ caps) =
    when (exceeds_integer cap admitted) (cap_above_admitted system cap)
    ++ over_admitted admitted caps

abbrev pub is_before : String → String → Bool
is_before s t = elim (str_compare s t) [ Ordering.lt ↦ true | _ ↦ false ]

-- A sorted list without repetitions, as `sorted` of a set.
unfoldable pub insert_string : String → List String → List String
insert_string s [] = s ∷ []
insert_string s (t ∷ ts) =
    let rest = insert_string s ts in
    if str_eq s t then t ∷ ts else if is_before s t then s ∷ t ∷ ts else t ∷ rest

abbrev pub is_missing : Option ℕ → Bool
is_missing none = true
is_missing (some cap) = false

unfoldable pub missing_phases : Caps → List String → List Finding
unfolding lookup
missing_phases caps [] = []
missing_phases caps (system ∷ systems) =
    when (is_missing (lookup system caps)) (no_phase system) ++ missing_phases caps systems

abbrev pub smaller : Option ℕ → Option ℕ → Option ℕ
smaller none best = best
smaller (some cap) none = some cap
smaller (some cap) (some best) = some (min cap best)

-- `min(declared)`
unfoldable pub smallest_cap : Caps → List String → Option ℕ
unfolding lookup
smallest_cap caps [] = none
smallest_cap caps (system ∷ systems) = smaller (lookup system caps) (smallest_cap caps systems)

abbrev pub above_smallest : ℕ → Option ℕ → List Finding
above_smallest workers none = []
above_smallest workers (some cap) = when (ltb cap workers) (above_phase_cap workers cap)

abbrev pub phase_workers : Option ℕ → Caps → List String → List Finding
unfolding smallest_cap
phase_workers none caps requested = []
phase_workers (some workers) caps requested = above_smallest workers (smallest_cap caps requested)

abbrev pub is_null : Value → Bool
is_null null = true
is_null other = false
is_null negative = false
is_null (boolean b) = false
is_null (integer n) = false
is_null (string s) = false
is_null (mapping _) = false
is_null (sequence _) = false

abbrev pub if_none : List Finding → List Finding → List Finding
if_none [] more = more
if_none (f ∷ fs) more = f ∷ fs

unfoldable pub requested_findings :
    List Finding → Value → Caps → Option ℕ → List String → List Finding
unfolding missing_phases phase_workers
requested_findings findings block caps workers [] = findings ++ no_systems ∷ []
requested_findings findings block caps workers (s ∷ ss) =
    if is_null block
    then findings ++ no_phased_execution (s ∷ ss) ∷ []
    else if_none findings (missing_phases caps (s ∷ ss) ++ phase_workers workers caps (s ∷ ss))

-- What the dispatcher asks for: `--workers` and `--systems`.
pub record Request : Type 0 where
  pub workers : Option ℕ
  pub systems : Option (List String)

module _ (is_system_id : String → Bool) (lower : String → String) where
  abbrev pub valid_system : Value → Bool
  valid_system (string s) = is_system_id s
  valid_system null = false
  valid_system other = false
  valid_system negative = false
  valid_system (boolean b) = false
  valid_system (integer n) = false
  valid_system (mapping _) = false
  valid_system (sequence _) = false

  unfoldable pub entry_findings : Block → Entries → List Finding
  entry_findings block no_entries = []
  entry_findings block (entry system cap rest) =
      when (not (valid_system system)) (bad_system block system)
      ++ when (not (positive_integer cap)) (bad_cap block system)
      ++ entry_findings block rest

  unfoldable pub system_concurrency_findings : Value → Block → List Finding
  unfolding entry_findings
  system_concurrency_findings null block = []
  system_concurrency_findings (mapping es) block = entry_findings block es
  system_concurrency_findings other block = not_mapping block ∷ []
  system_concurrency_findings negative block = not_mapping block ∷ []
  system_concurrency_findings (boolean b) block = not_mapping block ∷ []
  system_concurrency_findings (integer n) block = not_mapping block ∷ []
  system_concurrency_findings (string s) block = not_mapping block ∷ []
  system_concurrency_findings (sequence _) block = not_mapping block ∷ []

  -- `str(system).lower()` of a system that validated.
  abbrev pub name_of : Value → String
  name_of (string s) = lower s
  name_of null = ""
  name_of other = ""
  name_of negative = ""
  name_of (boolean b) = ""
  name_of (integer n) = ""
  name_of (mapping _) = ""
  name_of (sequence _) = ""

  unfoldable pub put_all : Caps → Entries → Caps
  unfolding put
  put_all caps no_entries = caps
  put_all caps (entry system cap rest) = put_all (put (name_of system) (cap_of cap) caps) rest

  -- Of a block without findings.
  unfoldable pub normalise_system_concurrency : Value → Caps
  unfolding put_all
  normalise_system_concurrency block = put_all [] (entries_of block)

  unfoldable pub caps_if_valid : List Finding → Value → Caps
  unfolding normalise_system_concurrency
  caps_if_valid [] block = normalise_system_concurrency block
  caps_if_valid (f ∷ fs) block = []

  unfoldable pub lowered : List String → List String
  unfolding insert_string
  lowered [] = []
  lowered (s ∷ ss) = insert_string (lower s) (lowered ss)

  unfoldable pub systems_findings :
      List Finding → Value → Caps → Option ℕ → Option (List String) → List Finding
  unfolding requested_findings lowered
  systems_findings findings block caps workers none = findings
  systems_findings findings block caps workers (some systems) =
      requested_findings findings block caps workers (lowered systems)

  unfoldable pub phased_execution_findings : Value → Value → Request → List Finding
  unfolding system_concurrency_findings caps_if_valid over_admitted systems_findings
  phased_execution_findings block admitted request =
      let format = system_concurrency_findings block phased_execution in
      let caps = caps_if_valid format block in
      systems_findings (format ++ over_admitted admitted caps) block caps request.workers
        request.systems
