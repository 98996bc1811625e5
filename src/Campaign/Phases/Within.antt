-- ===== src/Campaign/Phases/Within.antt =====
-- The caps of the phases that a run asks for (src/experiments/campaigns.py).
use Prim.Native.String.{String}
use text.Mathlib.Text.{◌==◌ as str_eq}
use text.Mathlib.TextEquality.{eq_iff}
use mathlib.Core.Path.{subst}
use failure_prediction.Prelude.{
  ℕ, min, ◌≤◌, Bool, true, false, Option, none, some, List, [], ◌∷◌, ◌++◌, ◌≡◌, inl, inr, refl, sym,
  ap, ◌∙◌, arith, All, Among, Among-All, Bool-cases, Option-cases, if_either, parts_empty,
}
use failure_prediction.Campaign.Documents.{
  Value, integer, null, other, negative, boolean, string, mapping, sequence,
}
use failure_prediction.Campaign.Phases.{
  Finding, when, Caps, lookup, exceeds_integer, over_admitted, is_before, insert_string,
  missing_phases, smallest_cap, phase_workers, is_null, if_none, Request, phased_execution,
  system_concurrency_findings, normalise_system_concurrency, caps_if_valid, lowered,
  requested_findings, systems_findings, phased_execution_findings,
}

pub when-false : (b : Bool) (f : Finding) → when b f ≡ [] → b ≡ false
when-false true f h = cc
when-false false f h = refl

-- `n` is at most a bound that is an integer.
abbrev pub AtMost : ℕ → Value → Type 0
AtMost n (integer m) = n ≤ m
AtMost n null = Unit
AtMost n other = Unit
AtMost n negative = Unit
AtMost n (boolean b) = Unit
AtMost n (string s) = Unit
AtMost n (mapping _) = Unit
AtMost n (sequence _) = Unit

abbrev pub WorkersAtMost : Option ℕ → Value → Type 0
WorkersAtMost none bound = Unit
WorkersAtMost (some n) bound = AtMost n bound

pub exceeds_integer-AtMost : (n : ℕ) (v : Value) → exceeds_integer n v ≡ false → AtMost n v
exceeds_integer-AtMost n (integer m) h = ground arith
exceeds_integer-AtMost n null h = tt
exceeds_integer-AtMost n other h = tt
exceeds_integer-AtMost n negative h = tt
exceeds_integer-AtMost n (boolean b) h = tt
exceeds_integer-AtMost n (string s) h = tt
exceeds_integer-AtMost n (mapping _) h = tt
exceeds_integer-AtMost n (sequence _) h = tt

str_eq-same : (s t : String) → str_eq s t ≡ true → t ≡ s
str_eq-same s t h = sym ((eq_iff s t).0 h)

insert_string_self : (s : String) (ts : List String) → Among s (insert_string s ts)
unfolding insert_string
insert_string_self s [] = inl refl
insert_string_self s (t ∷ ts) =
    if_either (Among s) (str_eq s t) (λ e. inl (str_eq-same s t e))
      (λ _.
        if_either (Among s) (is_before s t) (λ _. inl refl) (λ _. inr (insert_string_self s ts)))

insert_string-Among : (s z : String) (ts : List String) → Among z ts → Among z (insert_string s ts)
unfolding insert_string
insert_string-Among s z [] h = absurd h
insert_string-Among s z (t ∷ ts) h =
    if_either (Among z) (str_eq s t) (λ _. h)
      (λ _.
        if_either (Among z) (is_before s t) (λ _. inr h)
          (λ _. elim h [ inl e ↦ inl e | inr w ↦ inr (insert_string-Among s z ts w) ]))

module _ (caps : Caps) where
  missing_phases-lookup :
      (systems : List String) (s : String)
      → missing_phases caps systems ≡ []
      → Among s systems
      → (cap : ℕ) × (lookup s caps ≡ some cap)
  unfolding missing_phases
  missing_phases-lookup [] s h w = absurd w
  missing_phases-lookup (t ∷ ts) s h w =
      let (here, rest) = parts_empty _ (missing_phases caps ts) h in
      elim w [
        | inr later ↦ missing_phases-lookup ts s rest later
        | inl e ↦ elim (Option-cases (lookup t caps)) [
          | inl q ↦ absurd (let bad = rw q at here in cc)
          | inr (cap, q) ↦ (cap, ap (λ x. lookup x caps) (sym e) ∙ q)
        ]
      ]

  smallest_cap-least :
      (systems : List String) (s : String) (cap : ℕ)
      → lookup s caps ≡ some cap
      → Among s systems
      → (least : ℕ) × (smallest_cap caps systems ≡ some least) × (least ≤ cap)
  unfolding smallest_cap
  smallest_cap-least [] s cap q w = absurd w
  smallest_cap-least (t ∷ ts) s cap q w = elim w [
    | inl e ↦ elim (Option-cases (smallest_cap caps ts)) [
      | inl r ↦ (cap, rw (ap (λ x. lookup x caps) e ∙ q, r) refl, omega arith)
      | inr (best, r) ↦ (min cap best, rw (ap (λ x. lookup x caps) e ∙ q, r) refl, ground arith)
    ]
    | inr later ↦
        let (least, r, l) = smallest_cap-least ts s cap q later in
        elim (Option-cases (lookup t caps)) [
          | inl o ↦ (least, rw (o, r) refl, l)
          | inr (c, o) ↦ (min c least, rw (o, r) refl, ground arith)
        ]
  ]

over_admitted-lookup :
    (admitted : Value) (caps : Caps) (s : String) (cap : ℕ)
    → over_admitted admitted caps ≡ []
    → lookup s caps ≡ some cap
    → AtMost cap admitted
unfolding over_admitted lookup
over_admitted-lookup admitted [] s cap h q = cc
over_admitted-lookup admitted ((t, c) ∷ caps) s cap h q =
    let (here, rest) = parts_empty _ (over_admitted admitted caps) h in
    elim (Bool-cases (str_eq s t)) [
      | inl e ↦
          let same : c ≡ cap = cc in
          subst (λ n. AtMost n admitted) same
            (exceeds_integer-AtMost c admitted (when-false _ _ here))
      | inr e ↦
          let found : lookup s caps ≡ some cap = rw e at q in
          over_admitted-lookup admitted caps s cap rest found
    ]

if_none-empty : (fs gs : List Finding) → if_none fs gs ≡ [] → (fs ≡ []) × (gs ≡ [])
if_none-empty [] gs h = (refl, h)
if_none-empty (f ∷ fs) gs h = cc

-- The phase of a system has a cap that neither the requested workers nor the admitted ones undercut.
abbrev pub HasPhase : Option ℕ → Value → Caps → String → Type 0
HasPhase workers admitted caps system =
    (cap : ℕ) × (lookup system caps ≡ some cap)
    × AtMost cap admitted
    × WorkersAtMost workers (integer cap)

phase_workers-AtMost :
    (workers : Option ℕ) (caps : Caps) (systems : List String) (s : String) (cap : ℕ)
    → phase_workers workers caps systems ≡ []
    → lookup s caps ≡ some cap
    → Among s systems
    → WorkersAtMost workers (integer cap)
unfolding phase_workers
phase_workers-AtMost none caps systems s cap h q w = tt
phase_workers-AtMost (some n) caps systems s cap h q w =
    let (least, r, l) = smallest_cap-least caps systems s cap q w in
    let below = when-false _ _ (rw r at h) in ground arith

requested_findings-empty :
    (findings : List Finding) (block : Value) (caps : Caps) (workers : Option ℕ)
    (systems : List String)
    → requested_findings findings block caps workers systems ≡ []
    → findings ≡ []
unfolding requested_findings
requested_findings-empty findings block caps workers [] h = (parts_empty findings _ h).0
requested_findings-empty findings block caps workers (t ∷ ts) h =
    if_either (λ found. found ≡ [] → findings ≡ []) (is_null block)
      (λ _ bad. (parts_empty findings _ bad).0) (λ _ rest. (if_none-empty findings _ rest).0) h

requested_findings-HasPhase :
    (findings : List Finding) (block admitted : Value) (caps : Caps) (workers : Option ℕ)
    (systems : List String) (s : String)
    → requested_findings findings block caps workers systems ≡ []
    → Among s systems
    → (findings ≡ [] → over_admitted admitted caps ≡ [])
    → HasPhase workers admitted caps s
unfolding requested_findings
requested_findings-HasPhase findings block admitted caps workers [] s h w within = absurd w
requested_findings-HasPhase findings block admitted caps workers (t ∷ ts) s h w within =
    if_either (λ found. found ≡ [] → HasPhase workers admitted caps s) (is_null block)
      (λ _ bad. let (_, none_left) = parts_empty findings _ bad in absurd (cc))
      (λ _ rest.
        let (empty, more) = if_none-empty findings _ rest in
        let (phases, fits) = parts_empty (missing_phases caps (t ∷ ts)) _ more in
        let (cap, q) = missing_phases-lookup caps (t ∷ ts) s phases w in
        (
          cap,
          q,
          over_admitted-lookup admitted caps s cap (within empty) q,
          phase_workers-AtMost workers caps (t ∷ ts) s cap fits q w,
        ))
      h

module _ (is_system_id : String → Bool) (lower : String → String) where
  lowered-Among :
      (ss : List String) (s : String) → Among s ss → Among (lower s) (lowered is_system_id lower ss)
  unfolding lowered
  lowered-Among [] s w = absurd w
  lowered-Among (t ∷ ts) s (inl e) =
      rw (sym e) (insert_string_self (lower t) (lowered is_system_id lower ts))
  lowered-Among (t ∷ ts) s (inr w) =
      insert_string-Among (lower t) (lower s) (lowered is_system_id lower ts) (lowered-Among ts s w)

  abbrev pub HavePhases : Option ℕ → Value → Caps → Option (List String) → Type 0
  HavePhases workers admitted caps none = Unit
  HavePhases workers admitted caps (some systems) =
      All (λ s. HasPhase workers admitted caps (lower s)) systems

  systems_findings-HavePhases :
      (format : List Finding) (block admitted : Value) (workers : Option ℕ)
      (systems : Option (List String))
      → systems_findings is_system_id lower
          (format ++ over_admitted admitted (caps_if_valid is_system_id lower format block))
          block
          (caps_if_valid is_system_id lower format block)
          workers
          systems
        ≡ []
      → HavePhases workers admitted (normalise_system_concurrency is_system_id lower block) systems
  unfolding systems_findings caps_if_valid
  systems_findings-HavePhases format block admitted workers none h = tt
  systems_findings-HavePhases [] block admitted workers (some systems) h =
      let caps = normalise_system_concurrency is_system_id lower block in
      Among-All (λ s. HasPhase workers admitted caps (lower s)) systems
        (λ s w.
          requested_findings-HasPhase _ block admitted caps workers
            (lowered is_system_id lower systems) (lower s) h (lowered-Among systems s w) (λ e. e))
  systems_findings-HavePhases (f ∷ fs) block admitted workers (some systems) h =
      let bad =
        requested_findings-empty (f ∷ (fs ++ over_admitted admitted [])) block [] workers
          (lowered is_system_id lower systems) h in
      absurd (cc)

  pub phased_execution_findings-HavePhases :
      (block admitted : Value) (request : Request)
      → phased_execution_findings is_system_id lower block admitted request ≡ []
      → HavePhases request.workers admitted
          (normalise_system_concurrency is_system_id lower block)
          request.systems
  unfolding phased_execution_findings
  phased_execution_findings-HavePhases block admitted request h =
      systems_findings-HavePhases
        (system_concurrency_findings is_system_id lower block phased_execution) block admitted
        request.workers request.systems h
