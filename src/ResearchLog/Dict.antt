-- ===== src/ResearchLog/Dict.antt =====
-- The dictionaries of scripts/research_log.py, as lists of keys with values in their order.
use Prim.Native.String.{String}
use text.Mathlib.Text.{◌==◌ as str_eq}
use text.Mathlib.TextEquality.{eq_iff}
use failure_prediction.Prelude.{
  Bool, true, false, Option, none, some, List, [], ◌∷◌, ◌≡◌, refl, sym, ap, ◌∙◌, arith, Bool-cases,
  if◌then◌else◌, inl, inr,
}

-- A JSON value: a string, or one of the others.
pub data Value (J : Type 0) : Type 0 where
  string : String → Value J
  other : J → Value J

abbrev pub Record : Type 0 → Type 0
Record J = List (String × Value J)

differ :
    (key name n : String) → str_eq key name ≡ true → str_eq n name ≡ false → str_eq key n ≡ false
differ key name n e q = elim (Bool-cases (str_eq key n)) [
  | inl w ↦ let same = (eq_iff key n).0 w in let p = rw same at e in ground arith
  | inr w ↦ w
]

differ' :
    (key name n : String) → str_eq key name ≡ false → str_eq n name ≡ true → str_eq key n ≡ false
differ' key name n e q = elim (Bool-cases (str_eq key n)) [
  | inl w ↦ let same = (eq_iff key n).0 w in let p = rw same at e in ground arith
  | inr w ↦ w
]

module _ {J : Type 0} where
  -- `record.get(key)`
  unfoldable pub get : String → Record J → Option (Value J)
  get key [] = none
  get key ((name, value) ∷ r) = if str_eq key name then some value else get key r

  -- The comprehension that leaves a key out.
  unfoldable pub without : String → Record J → Record J
  without key [] = []
  without key ((name, value) ∷ r) =
      let rest = without key r in if str_eq name key then rest else (name, value) ∷ rest

  -- `value == text`
  unfoldable pub is_text : Option (Value J) → String → Bool
  is_text none s = false
  is_text (some (other j)) s = false
  is_text (some (string t)) s = str_eq t s

  pub is_text-eq : (v : Option (Value J)) (s : String) → is_text v s ≡ true → v ≡ some (string s)
  unfolding is_text
  is_text-eq (some (string t)) s h = ap (λ x. some (string x)) ((eq_iff t s).0 h)
  is_text-eq none s h = ground arith
  is_text-eq (some (other j)) s h = ground arith

  pub is_text-same : (v : Option (Value J)) (s : String) → v ≡ some (string s) → is_text v s ≡ true
  unfolding is_text
  is_text-same v s h = rw h ((eq_iff s s).1 refl)

  pub get-without :
      (key name : String) (r : Record J)
      → get key (without name r) ≡ (if str_eq key name then none else get key r)
  unfolding get without
  get-without key name [] = elim (Bool-cases (str_eq key name)) [
    | inl e ↦ rw e refl
    | inr e ↦ rw e refl
  ]
  get-without key name ((n, value) ∷ r) = elim (Bool-cases (str_eq key name)) [
    | inl e ↦ elim (Bool-cases (str_eq n name)) [
      | inl q ↦ rw (q, get-without key name r, e) refl
      | inr q ↦ rw (q, differ key name n e q, get-without key name r, e) refl
    ]
    | inr e ↦ elim (Bool-cases (str_eq n name)) [
      | inl q ↦ rw (q, get-without key name r, e, differ' key name n e q) refl
      | inr q ↦ rw (q, get-without key name r, e) refl
    ]
  ]

  -- The same entries, in whatever order.
  abbrev pub SameEntries : Record J → Record J → Type 0
  SameEntries r s = (key : String) → get key r ≡ get key s

  pub without-SameEntries :
      (name : String) (r s : Record J)
      → SameEntries r s
      → SameEntries (without name r) (without name s)
  without-SameEntries name r s h key =
      rw (get-without key name r, get-without key name s, h key) refl

  pub get_or_without :
      (name : String) (r s : Record J)
      → get name r ≡ get name s
      → SameEntries (without name r) (without name s)
      → SameEntries r s
  get_or_without name r s e h key = elim (Bool-cases (str_eq key name)) [
    | inl q ↦ rw ((eq_iff key name).0 q) e
    | inr q ↦
        let same = sym (get-without key name r) ∙ h key ∙ get-without key name s in rw q at same
  ]
