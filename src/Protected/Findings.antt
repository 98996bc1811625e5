-- ===== src/Protected/Findings.antt =====
-- What it means that there is no finding (src/protected_data.py).
use Prim.Native.String.{String}
use text.Mathlib.Text.{◌==◌ as str_eq, starts_with}
use text.Mathlib.TextEquality.{eq_iff}
use failure_prediction.Prelude.{
  parts_empty, ℕ, suc, Bool, true, false, not, List, [], ◌∷◌, ◌++◌, ◌≡◌, ◌⊎◌, inl, inr, refl, sym,
  ap, arith, Bool-cases,
}
use failure_prediction.Prelude.Result.{ok}
use failure_prediction.Protected.{
  Document, null, boolean, string, scalar, mapping, sequence, Entries, no_entries, entry, Items,
  no_items, item, is_true, is_false, Step, Finding, when, todos, entry_todos, item_todos,
  entries_or_empty, is_string,
}

-- No leaf is a placeholder.
abbrev mutual
  pub NoTodo : Document → Type 0
  NoTodo null = Unit
  NoTodo (boolean b) = Unit
  NoTodo (string s) = starts_with s "TODO" ≡ false
  NoTodo (scalar b) = Unit
  NoTodo (mapping entries) = NoTodoEntries entries
  NoTodo (sequence items) = NoTodoItems items

  pub NoTodoEntries : Entries → Type 0
  NoTodoEntries no_entries = Unit
  NoTodoEntries (entry name value rest) = NoTodo value × NoTodoEntries rest

  pub NoTodoItems : Items → Type 0
  NoTodoItems no_items = Unit
  NoTodoItems (item value rest) = NoTodo value × NoTodoItems rest

pub when-not : (b : Bool) (f : Finding) → when (not b) f ≡ [] → b ≡ true
when-not true f h = refl
when-not false f h = cc

pub when-false : (b : Bool) (f : Finding) → when b f ≡ [] → b ≡ false
when-false true f h = cc
when-false false f h = refl

pub is_true-eq : (d : Document) → is_true d ≡ true → d ≡ boolean true
is_true-eq (boolean b) h = ap boolean h
is_true-eq null h = ground arith
is_true-eq (string s) h = ground arith
is_true-eq (scalar b) h = ground arith
is_true-eq (mapping _) h = ground arith
is_true-eq (sequence items) h = ground arith

pub is_false-eq : (d : Document) → is_false d ≡ true → d ≡ boolean false
is_false-eq (boolean true) h = ground arith
is_false-eq (boolean false) h = refl
is_false-eq null h = ground arith
is_false-eq (string s) h = ground arith
is_false-eq (scalar b) h = ground arith
is_false-eq (mapping _) h = ground arith
is_false-eq (sequence items) h = ground arith

pub is_string-eq : (s : String) (d : Document) → is_string s d ≡ true → d ≡ string s
is_string-eq s (string t) h = ap string (sym ((eq_iff s t).0 h))
is_string-eq s (boolean b) h = ground arith
is_string-eq s null h = ground arith
is_string-eq s (scalar b) h = ground arith
is_string-eq s (mapping _) h = ground arith
is_string-eq s (sequence items) h = ground arith

-- A value that passes for a mapping is one, or stands for the empty one.
pub entries_or_empty-cases :
    (d : Document) (e : Entries) → entries_or_empty d ≡ ok e → (d ≡ mapping e) ⊎ (e ≡ no_entries)
entries_or_empty-cases (mapping d) e h = inl (ground arith)
entries_or_empty-cases null e h = inr (ground arith)
entries_or_empty-cases (boolean true) e h = ground arith
entries_or_empty-cases (boolean false) e h = inr (ground arith)
entries_or_empty-cases (string s) e h = elim (Bool-cases (str_eq s "")) [
  | inl q ↦ let same = rw q at h in inr (ground arith)
  | inr q ↦ let bad = rw q at h in ground arith
]
entries_or_empty-cases (scalar true) e h = ground arith
entries_or_empty-cases (scalar false) e h = inr (ground arith)
entries_or_empty-cases (sequence no_items) e h = inr (ground arith)
entries_or_empty-cases (sequence (item value rest)) e h = ground arith

mutual
  todos-NoTodo : (path : List Step) (d : Document) → todos path d ≡ [] → NoTodo d
  todos-NoTodo path null h = tt
  todos-NoTodo path (boolean b) h = tt
  todos-NoTodo path (string s) h = when-false (starts_with s "TODO") (Finding.todo path s) h
  todos-NoTodo path (scalar b) h = tt
  todos-NoTodo path (mapping entries) h = entry_todos-NoTodo path entries h
  todos-NoTodo path (sequence items) h = item_todos-NoTodo path 0 items h

  pub entry_todos-NoTodo :
      (path : List Step) (e : Entries) → entry_todos path e ≡ [] → NoTodoEntries e
  entry_todos-NoTodo path no_entries h = tt
  entry_todos-NoTodo path (entry name value rest) h =
      let p = path ++ Step.key name ∷ [] in
      let (first, later) = parts_empty (todos p value) (entry_todos path rest) h in
      (todos-NoTodo p value first, entry_todos-NoTodo path rest later)

  item_todos-NoTodo :
      (path : List Step) (i : ℕ) (items : Items) → item_todos path i items ≡ [] → NoTodoItems items
  item_todos-NoTodo path i no_items h = tt
  item_todos-NoTodo path i (item value rest) h =
      let p = path ++ Step.index i ∷ [] in
      let (first, later) = parts_empty (todos p value) (item_todos path (suc i) rest) h in
      (todos-NoTodo p value first, item_todos-NoTodo path (suc i) rest later)
