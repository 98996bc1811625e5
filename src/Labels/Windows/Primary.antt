-- ===== src/Labels/Windows/Primary.antt =====
-- The primary terminal event of an episode (src/labels/causal_windows.py).
use failure_prediction.Prelude.{
  Among, ℕ, Bool, true, false, Option, none, some, List, [], ◌∷◌, ◌≡◌, refl, arith, All, All-mono,
  inl, inr, ◌⊎◌, ltb, ◌==◌, ◌&&◌, ◌||◌, if◌then◌else◌, if_either,
}
use failure_prediction.Labels.Windows.{
  Event, rank_of, comes_before, earlier, primary_terminal_event,
}

-- `best` is an event of the list.
-- No terminal event of the list comes before `best`.
abbrev pub IsFirst : List ℕ → Event → List Event → Type 0
IsFirst precedence best events =
    All (λ e. (e.terminal ≡ false) ⊎ (comes_before precedence e best ≡ false)) events

abbrev pub IsPrimary : List ℕ → List Event → Option Event → Type 0
IsPrimary precedence events none = All (λ e. e.terminal ≡ false) events
IsPrimary precedence events (some best) =
    (best.terminal ≡ true) × Among best events × IsFirst precedence best events

-- The order of keys, on their parts.
abbrev less : ℕ → ℕ → ℕ → ℕ → Bool
less t r u s = ltb t u || ((t == u) && ltb r s)

less_irrefl : (t r : ℕ) → less t r t r ≡ false
less_irrefl t r = ground arith

less_asym : (t r u s : ℕ) → less t r u s ≡ true → less u s t r ≡ false
less_asym t r u s h = ground arith

less_trans : (t r u s v q : ℕ) → less t r u s ≡ false → less u s v q ≡ false → less t r v q ≡ false
less_trans t r u s v q h k = ground arith

module _ (precedence : List ℕ) where
  IsFirst-earlier :
      (e best : Event) (events : List Event)
      → comes_before precedence best e ≡ false
      → IsFirst precedence best events
      → IsFirst precedence e events
  IsFirst-earlier e best events h k =
      All-mono (λ x. (x.terminal ≡ false) ⊎ (comes_before precedence x best ≡ false))
        (λ x. (x.terminal ≡ false) ⊎ (comes_before precedence x e ≡ false))
        (λ x q. elim q [
          | inl l ↦ inl l
          | inr r ↦ inr (
              less_trans x.time (rank_of precedence x) best.time (rank_of precedence best) e.time
                (rank_of precedence e) r h)
        ])
        events k

  -- The primary event is a terminal event of the list, and no terminal event has a smaller time, or
  -- the same time and a smaller rank; there is none only if no event is terminal.
  pub primary_terminal_event-IsPrimary :
      (events : List Event) → IsPrimary precedence events (primary_terminal_event precedence events)
  unfolding primary_terminal_event
  primary_terminal_event-IsPrimary [] = tt
  primary_terminal_event-IsPrimary (e ∷ events) =
      go (primary_terminal_event precedence events) (primary_terminal_event-IsPrimary events)
    where
      go :
          (rest : Option Event)
          → IsPrimary precedence events rest
          → IsPrimary precedence
              (e ∷ events)
              (if e.terminal then some (earlier precedence e rest) else rest)
      go none h =
          if_either (IsPrimary precedence (e ∷ events)) e.terminal
            (λ t. (
              t,
              inl refl,
              (
                inr (less_irrefl e.time (rank_of precedence e)),
                All-mono (λ x. x.terminal ≡ false)
                    (λ x. (x.terminal ≡ false) ⊎ (comes_before precedence x e ≡ false))
                    (λ x q. inl q) events h,
              ),
            ))
            (λ t. (t, h))
      go (some best) (terminal, among, first) =
          if_either (IsPrimary precedence (e ∷ events)) e.terminal
            (λ t.
              if_either (λ x. IsPrimary precedence (e ∷ events) (some x))
                (comes_before precedence best e)
                (λ b. (
                  terminal,
                  inr among,
                  (
                    inr (
                        less_asym best.time (rank_of precedence best) e.time (rank_of precedence e)
                          b),
                    first,
                  ),
                ))
                (λ b. (
                  t,
                  inl refl,
                  (
                    inr (less_irrefl e.time (rank_of precedence e)),
                    IsFirst-earlier e best events b first,
                  ),
                )))
            (λ t. (terminal, inr among, (inl t, first)))
