-- ===== src/Campaign/Documents.antt =====
-- A parsed YAML document as src/experiments/campaigns.py reads it: a tree.
use Prim.Native.String.{String}
use text.Mathlib.Text.{◌==◌ as str_eq}
use failure_prediction.Prelude.{ℕ, Bool, false, Option, none, some, ◌||◌, if◌then◌else◌}

-- `negative` is an integer below 0, and `other` a number that is no integer, or a date.
mutual
  pub data Value : Type 0 where
    null other negative : Value
    boolean : Bool → Value
    integer : ℕ → Value
    string : String → Value
    mapping : Entries → Value
    sequence : Items → Value

  pub data Entries : Type 0 where
    no_entries : Entries
    entry : Value → Value → Entries → Entries

  pub data Items : Type 0 where
    no_items : Items
    item : Value → Items → Items

abbrev pub is_string : String → Value → Bool
is_string s (string t) = str_eq s t
is_string s null = false
is_string s other = false
is_string s negative = false
is_string s (boolean b) = false
is_string s (integer n) = false
is_string s (mapping _) = false
is_string s (sequence _) = false

-- `document.get(key)`, where `None` stands for a missing key.
unfoldable pub get : String → Entries → Value
get key no_entries = null
get key (entry name value rest) =
    let found = get key rest in if is_string key name then value else found

-- The entries of a dict, and none of any other value.
abbrev pub entries_of : Value → Entries
entries_of (mapping es) = es
entries_of null = no_entries
entries_of other = no_entries
entries_of negative = no_entries
entries_of (boolean b) = no_entries
entries_of (integer n) = no_entries
entries_of (string s) = no_entries
entries_of (sequence _) = no_entries

abbrev pub is_true : Value → Bool
is_true (boolean b) = b
is_true null = false
is_true other = false
is_true negative = false
is_true (integer n) = false
is_true (string s) = false
is_true (mapping _) = false
is_true (sequence _) = false

abbrev pub list_of : Value → Option Items
list_of (sequence items) = some items
list_of null = none
list_of other = none
list_of negative = none
list_of (boolean b) = none
list_of (integer n) = none
list_of (string s) = none
list_of (mapping _) = none

unfoldable pub contains : String → Items → Bool
contains s no_items = false
contains s (item value rest) = is_string s value || contains s rest
