-- ===== src/Labels/Precedence/Earliest.antt =====
-- The event that `first_primary_event` selects (src/labels/operational_events.py).
use Prim.Native.String.{String}
use mathlib.Core.Path.{subst}
use failure_prediction.Prelude.{
  Among, ℕ, Bool, true, false, Option, none, some, List, [], ◌∷◌, ◌≡◌, ◌⊎◌, inl, inr, refl, arith,
  All, ltb, ◌==◌, ◌&&◌, ◌||◌, if_either, sym, ap,
}
use failure_prediction.Prelude.Result.{ok, Result-cases}
use failure_prediction.Labels.Precedence.{
  Available, EventTime, no_event, not_finite, at_time, rank, precedes, min_from, min_of, available,
  first_primary_event,
}

-- Some event has this class and time.
abbrev pub Occurs : Available → List (String × EventTime) → Type 0
Occurs x [] = ⊥
Occurs x ((name, time) ∷ events) = ((name ≡ x.0) × (time ≡ at_time x.1)) ⊎ Occurs x events

-- Every event that has a time.
abbrev pub AllTimed : (Available → Type 0) → List (String × EventTime) → Type 0
AllTimed P = All (λ e. (t : ℕ) → e.1 ≡ at_time t → P (e.0, t))

-- The choice among events: one of them that none precedes, or none where no event has a time.
abbrev pub IsEarliest : List String → List (String × EventTime) → Option Available → Type 0
IsEarliest precedence events none = AllTimed (λ x. ⊥) events
IsEarliest precedence events (some x) =
    Occurs x events × AllTimed (λ y. precedes precedence y x ≡ false) events

-- `key(x) < key(y)` on times and ranks.
abbrev smaller : ℕ → ℕ → ℕ → ℕ → Bool
smaller t i u j = ltb t u || (t == u && ltb i j)

not_smaller_trans :
    (t i u j v k : ℕ) → smaller t i u j ≡ true → smaller t i v k ≡ false → smaller u j v k ≡ false
not_smaller_trans t i u j v k h n = ground arith

not_smaller_self : (t i : ℕ) → smaller t i t i ≡ false
not_smaller_self t i = ground arith

not_smaller_back :
    (t i u j v k : ℕ) → smaller t i u j ≡ false → smaller u j v k ≡ false → smaller t i v k ≡ false
not_smaller_back t i u j v k h n = ground arith

module _ (precedence : List String) where
  min_from-Among :
      (best : Available) (xs : List Available)
      → (min_from precedence best xs ≡ best) ⊎ Among (min_from precedence best xs) xs
  unfolding min_from
  min_from-Among best [] = inl refl
  min_from-Among best (x ∷ xs) =
      if_either (λ b. (min_from precedence b xs ≡ best) ⊎ Among (min_from precedence b xs) (x ∷ xs))
        (precedes precedence x best)
        (λ _. elim (min_from-Among x xs) [ inl e ↦ inr (inl (sym e)) | inr w ↦ inr (inr w) ])
        (λ _. elim (min_from-Among best xs) [ inl e ↦ inl e | inr w ↦ inr (inr w) ])

  min_from-least :
      (best : Available) (xs : List Available)
      → All (λ y. precedes precedence y (min_from precedence best xs) ≡ false) (best ∷ xs)
  unfolding min_from
  min_from-least (n, t) [] = (not_smaller_self t (rank precedence n), tt)
  min_from-least (n, t) ((m, u) ∷ xs) =
      if_either
        (λ b.
          All (λ y. precedes precedence y (min_from precedence b xs) ≡ false)
            ((n, t) ∷ (m, u) ∷ xs))
        (precedes precedence (m, u) (n, t))
        (λ e.
          let (least, rest) = min_from-least (m, u) xs in
          let r = min_from precedence (m, u) xs in
          (
            not_smaller_trans u (rank precedence m) t (rank precedence n) r.1 (rank precedence r.0)
                e least,
            (least, rest),
          ))
        (λ e.
          let (least, rest) = min_from-least (n, t) xs in
          let r = min_from precedence (n, t) xs in
          (
            least,
            (
              not_smaller_back u (rank precedence m) t (rank precedence n) r.1 (rank precedence r.0)
                  e least,
              rest,
            ),
          ))

available-AllTimed :
    (P : Available → Type 0) (events : List (String × EventTime)) (l : List Available)
    → available events ≡ ok l
    → All P l
    → AllTimed P events
unfolding available
available-AllTimed P [] l h all = tt
available-AllTimed P ((n, no_event) ∷ events) l h all =
    (λ t e. cc, available-AllTimed P events l h all)
available-AllTimed P ((n, not_finite) ∷ events) l h all = ground arith
available-AllTimed P ((n, at_time t) ∷ events) l h all = elim (Result-cases (available events)) [
  | inl (l', q) ↦
      let e : l ≡ (n, t) ∷ l' = sym (ground (arith, q)) in
      let (first, rest) = subst (All P) e all in
      (
        λ u w. let same : t ≡ u = ground arith in rw⁻¹ same first,
        available-AllTimed P events l' q rest,
      )
  | inr (x, q) ↦ let bad = rw q at h in ground arith
]

available-Occurs :
    (x : Available) (events : List (String × EventTime)) (l : List Available)
    → available events ≡ ok l
    → Among x l
    → Occurs x events
unfolding available
available-Occurs x [] l h w = let e : l ≡ [] = sym (ground arith) in subst (Among x) e w
available-Occurs x ((n, no_event) ∷ events) l h w = inr (available-Occurs x events l h w)
available-Occurs x ((n, not_finite) ∷ events) l h w = ground arith
available-Occurs x ((n, at_time t) ∷ events) l h w = elim (Result-cases (available events)) [
  | inl (l', q) ↦
      let e : l ≡ (n, t) ∷ l' = sym (ground (arith, q)) in
      elim (subst (Among x) e w) [
        | inl same ↦ inl (ap (λ p. p.0) same, ap (λ p. at_time p.1) same)
        | inr later ↦ inr (available-Occurs x events l' q later)
      ]
  | inr (y, q) ↦ let bad = rw q at h in ground arith
]

min_of-IsEarliest :
    (precedence : List String) (events : List (String × EventTime)) (l : List Available)
    → available events ≡ ok l
    → IsEarliest precedence events (min_of precedence l)
unfolding min_of
min_of-IsEarliest precedence events [] h = available-AllTimed (λ x. ⊥) events [] h tt
min_of-IsEarliest precedence events (x ∷ xs) h =
    let r = min_from precedence x xs in
    let among : Among r (x ∷ xs) = elim (min_from-Among precedence x xs) [
      | inl e ↦ inl (sym e)
      | inr w ↦ inr w
    ] in
    (
      available-Occurs r events (x ∷ xs) h among,
      available-AllTimed (λ y. precedes precedence y r ≡ false) events (x ∷ xs) h
          (min_from-least precedence x xs),
    )

-- Where the choice returns, the primary event is one of the events, and no event with a time has a
-- smaller one, or the same one and a smaller rank; there is none only if no event has a time.
pub first_primary_event-IsEarliest :
    (events : List (String × EventTime)) (precedence : List String) (r : Option Available)
    → first_primary_event events precedence ≡ ok r
    → IsEarliest precedence events r
unfolding first_primary_event
first_primary_event-IsEarliest events precedence r h = elim (Result-cases (available events)) [
  | inl (l, q) ↦
      let found : min_of precedence l ≡ r = ground (arith, q) in
      subst (IsEarliest precedence events) found (min_of-IsEarliest precedence events l q)
  | inr (x, q) ↦ let bad = rw q at h in ground arith
]
