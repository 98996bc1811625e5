-- ===== src/Recovery/Mission/Success.antt =====
-- What a reported success stands for (src/recovery/plumbing.py, scripts/run_research2_episode.py).
use mathlib.Core.Path.{subst}
use failure_prediction.Prelude.{
  ℕ, ◌+◌, ◌≤◌, Bool, true, false, Option, none, some, List, [], ◌∷◌, ◌≡◌, ◌⊎◌, inl, inr, refl, ap,
  ◌∙◌, arith, if_either, leb, le→leb,
}
use failure_prediction.Recovery.Mission.{
  Terminal, goal_status_succeeded, goal_status_canceled, resumed_mission_terminal, Tick, Setup,
  Round, ends, continues, resumed_round, own_round, followed, round, watch, classify,
}
use failure_prediction.Recovery.Mission.Newest.{NewestSucceeded, resumed-NewestSucceeded}

abbrev pub Some : (Tick → Type 0) → List Tick → Type 0
Some P [] = ⊥
Some P (t ∷ ts) = P t ⊎ Some P ts

-- A tick with `P`, and a later one with `Q`.
abbrev pub Then : (Tick → Type 0) → (Tick → Type 0) → List Tick → Type 0
Then P Q [] = ⊥
Then P Q (t ∷ ts) = (P t × Some Q ts) ⊎ Then P Q ts

-- The own goal succeeded, or it was cancelled under live execution and later a newest other goal
-- succeeded.
abbrev pub Arrived : Setup → List Tick → Type 0
Arrived s ts =
    Some (λ t. t.result ≡ some goal_status_succeeded) ts
    ⊎ ((s.live_execution ≡ true)
        × Then (λ t. t.result ≡ some goal_status_canceled) (NewestSucceeded s.own_goal_id) ts)

Round-cases :
    (r : Round)
    → ((terminal : Terminal) × (r ≡ ends terminal)) ⊎ ((x : Option ℕ) × (r ≡ continues x))
Round-cases (ends terminal) = inl (terminal, refl)
Round-cases (continues x) = inr (x, refl)

-- What a round shows: of an end in success, and of going on.
abbrev Shows : Type 0 → (Option ℕ → Type 0) → Round → Type 0
Shows A B r = (r ≡ ends Terminal.success → A) × ((x : Option ℕ) → r ≡ continues x → B x)

resumed_round-Shows :
    (A : Type 0) (p : Option Terminal × ℕ)
    → ((l : ℕ) → p ≡ (some Terminal.success, l) → A)
    → Shows A (λ x. (l : ℕ) × (x ≡ some l)) (resumed_round p)
resumed_round-Shows A (none, l) f = (λ e. ground arith, λ x e. (l, ground arith))
resumed_round-Shows A (some terminal, l) f = (
  λ e. let same : terminal ≡ Terminal.success = ground arith in f l (rw same refl),
  λ x e. ground arith,
)

-- After a cancelled own goal, under live execution, the loop follows the others.
abbrev Goes : Setup → Option ℕ → Option ℕ → Type 0
Goes s result x =
    (x ≡ none)
    ⊎ ((s.live_execution ≡ true) × (result ≡ some goal_status_canceled) × ((l : ℕ) × (x ≡ some l)))

own_round-Shows :
    (s : Setup) (now : ℕ) (result : Option ℕ)
    → Shows (result ≡ some goal_status_succeeded) (Goes s result) (own_round s now result)
own_round-Shows s now none = (λ e. ground arith, λ x e. inl (ground arith))
own_round-Shows s now (some status) =
    (λ e. ground arith, λ x e. inr (ground arith, ground arith, (now, ground arith)))

-- How the loop goes on from a round.
abbrev onward : Setup → List Tick → Round → Option Terminal
onward s ts r = elim r [ ends terminal ↦ some terminal | continues resumed ↦ watch s resumed ts ]

module _ (s : Setup) where
  round-Shows :
      (resumed : Option ℕ) (t : Tick) (A : Type 0) (B : Option ℕ → Type 0)
      → Shows A B (followed s resumed t)
      → Shows A B (round s resumed t)
  unfolding round
  round-Shows resumed t A B h =
      if_either (Shows A B) (leb (s.start_wall + s.timeout_s) t.wall)
        (λ _. (λ e. ground arith, λ x e. ground arith))
        (λ _.
          if_either (Shows A B) t.collided (λ _. (λ e. ground arith, λ x e. ground arith)) (λ _. h))

  watch-resumed :
      (last_activity : ℕ) (ts : List Tick)
      → watch s (some last_activity) ts ≡ some Terminal.success
      → Some (NewestSucceeded s.own_goal_id) ts
  unfolding watch followed
  watch-resumed last_activity [] h = ground arith
  watch-resumed last_activity (t ∷ ts) h =
      let (at_end, on) =
        round-Shows (some last_activity) t (NewestSucceeded s.own_goal_id t)
          (λ x. (l : ℕ) × (x ≡ some l))
          (resumed_round-Shows (NewestSucceeded s.own_goal_id t)
            (resumed_mission_terminal t.statuses s.own_goal_id t.now last_activity s.grace_seconds)
            (resumed-NewestSucceeded t s.own_goal_id last_activity s.grace_seconds)) in
      elim (Round-cases (round s (some last_activity) t)) [
        | inl (terminal, e) ↦
            let ended = subst (λ r. onward s ts r ≡ some Terminal.success) e h in
            let same : terminal ≡ Terminal.success = ground arith in inl (at_end (rw same at e))
        | inr (x, e) ↦
            let (l, same) = on x e in
            inr (
              watch-resumed l ts
                (subst (λ r. onward s ts r ≡ some Terminal.success) (e ∙ ap continues same) h))
      ]

  Arrived-later : (t : Tick) (ts : List Tick) → Arrived s ts → Arrived s (t ∷ ts)
  Arrived-later t ts (inl w) = inl (inr w)
  Arrived-later t ts (inr (live, w)) = inr (live, inr w)

  watch-Arrived : (ts : List Tick) → watch s none ts ≡ some Terminal.success → Arrived s ts
  unfolding watch followed
  watch-Arrived [] h = ground arith
  watch-Arrived (t ∷ ts) h =
      let (at_end, on) =
        round-Shows none t (t.result ≡ some goal_status_succeeded) (Goes s t.result)
          (own_round-Shows s t.now t.result) in
      elim (Round-cases (round s none t)) [
        | inl (terminal, e) ↦
            let ended = subst (λ r. onward s ts r ≡ some Terminal.success) e h in
            let same : terminal ≡ Terminal.success = ground arith in
            inl (inl (at_end (rw same at e)))
        | inr (x, e) ↦ elim (on x e) [
          | inl same ↦ Arrived-later t ts (
              watch-Arrived ts
                (subst (λ r. onward s ts r ≡ some Terminal.success) (e ∙ ap continues same) h))
          | inr (live, canceled, (l, same)) ↦
              let later =
                watch-resumed l ts
                  (subst (λ r. onward s ts r ≡ some Terminal.success) (e ∙ ap continues same) h) in
              inr (live, inl (canceled, later))
        ]
      ]

round-late :
    (s : Setup) (resumed : Option ℕ) (t : Tick)
    → s.start_wall + s.timeout_s ≤ t.wall
    → round s resumed t ≡ ends Terminal.timeout
unfolding round
round-late s resumed t late = rw (le→leb (s.start_wall + s.timeout_s) t.wall late) refl

-- The loop ends by the first tick at or after the episode's timeout.
watch_ends :
    (s : Setup) (resumed : Option ℕ) (ts : List Tick)
    → Some (λ t. s.start_wall + s.timeout_s ≤ t.wall) ts
    → (terminal : Terminal) × (watch s resumed ts ≡ some terminal)
unfolding watch
watch_ends s resumed [] h = absurd h
watch_ends s resumed (t ∷ ts) (inl late) =
    (Terminal.timeout, ap (onward s ts) (round-late s resumed t late))
watch_ends s resumed (t ∷ ts) (inr later) = elim (Round-cases (round s resumed t)) [
  | inl (terminal, e) ↦ (terminal, ap (onward s ts) e)
  | inr (x, e) ↦
      let (terminal, rest) = watch_ends s x ts later in (terminal, ap (onward s ts) e ∙ rest)
]

-- An episode is reported as a success only if the robot is within the goal's tolerance and has not
-- collided, and its own goal succeeded, or was cancelled under live execution and later the newest of
-- the other goals had succeeded.
pub classify-Arrived :
    (s : Setup) (ts : List Tick) (terminal reported : Terminal) (distance tolerance : ℕ)
    (collided : Bool)
    → watch s none ts ≡ some terminal
    → classify terminal distance tolerance collided ≡ (true, reported)
    → (distance ≤ tolerance) × (collided ≡ false) × Arrived s ts
unfolding classify
classify-Arrived s ts Terminal.success reported distance tolerance collided h c =
    (ground arith, ground arith, watch-Arrived s ts h)
classify-Arrived s ts Terminal.planner_failure reported distance tolerance collided h c =
    ground arith
classify-Arrived s ts Terminal.timeout reported distance tolerance collided h c = ground arith
classify-Arrived s ts Terminal.collision reported distance tolerance collided h c = ground arith
classify-Arrived s ts Terminal.invalid reported distance tolerance collided h c = ground arith
classify-Arrived s ts Terminal.false_arrival reported distance tolerance collided h c = ground arith
