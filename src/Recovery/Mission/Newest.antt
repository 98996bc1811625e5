-- ===== src/Recovery/Mission/Newest.antt =====
-- The newest of the other goals (`resumed_mission_terminal` of src/recovery/plumbing.py).
use Prim.Native.String.{String}
use text.Mathlib.Text.{◌==◌ as str_eq}
use mathlib.Core.Path.{subst}
use failure_prediction.Prelude.{
  Among, ℕ, ◌≤◌, false, Option, none, some, List, [], ◌∷◌, ◌≡◌, inl, inr, refl, sym, ◌∙◌, arith,
  All, Bool-cases, if_either, ltb,
}
use failure_prediction.Recovery.Mission.{
  Terminal, Goal, goal_status_succeeded, others, newest_from, newest, after_grace, verdict_of,
  resumed_mission_terminal, Tick,
}

-- Of the goals of others in the status array, the newest has succeeded.
abbrev pub NewestSucceeded : String → Tick → Type 0
NewestSucceeded own t =
    (g : Goal) × Among g t.statuses
    × (str_eq g.goal_id own ≡ false)
    × (g.status ≡ goal_status_succeeded)
    × All (λ h. str_eq h.goal_id own ≡ false → h.stamp ≤ g.stamp) t.statuses

module _ (own : String) where
  others-All :
      (P : Goal → Type 0) (gs : List Goal)
      → All P (others own gs)
      → All (λ h. str_eq h.goal_id own ≡ false → P h) gs
  unfolding others
  others-All P [] h = tt
  others-All P (g ∷ gs) h = elim (Bool-cases (str_eq g.goal_id own)) [
    | inl e ↦ ((λ n. let bad = sym e ∙ n in ground arith), others-All P gs (rw e at h))
    | inr e ↦ let (first, rest) = rw e at h in (λ _. first, others-All P gs rest)
  ]

  others-Among :
      (g : Goal) (gs : List Goal)
      → Among g (others own gs)
      → Among g gs × (str_eq g.goal_id own ≡ false)
  unfolding others
  others-Among g [] h = absurd h
  others-Among g (x ∷ gs) h = elim (Bool-cases (str_eq x.goal_id own)) [
    | inl e ↦ let (there, differs) = others-Among g gs (rw e at h) in (inr there, differs)
    | inr e ↦ elim (rw e at h) [
      | inl same ↦ (inl same, rw⁻¹ same e)
      | inr later ↦ let (there, differs) = others-Among g gs later in (inr there, differs)
    ]
  ]

newest_from-Among : (b : Goal) (gs : List Goal) → Among (newest_from b gs) (b ∷ gs)
unfolding newest_from
newest_from-Among b [] = inl refl
newest_from-Among b (g ∷ gs) =
    if_either (λ x. Among (newest_from x gs) (b ∷ g ∷ gs)) (ltb b.stamp g.stamp)
      (λ _. inr (newest_from-Among g gs))
      (λ _. elim (newest_from-Among b gs) [ inl e ↦ inl e | inr w ↦ inr (inr w) ])

newest_from-largest :
    (b : Goal) (gs : List Goal) → All (λ h. h.stamp ≤ (newest_from b gs).stamp) (b ∷ gs)
unfolding newest_from
newest_from-largest b [] = (omega arith, tt)
newest_from-largest b (g ∷ gs) =
    if_either (λ x. All (λ h. h.stamp ≤ (newest_from x gs).stamp) (b ∷ g ∷ gs))
      (ltb b.stamp g.stamp)
      (λ e. let (first, rest) = newest_from-largest g gs in (ground arith, (first, rest)))
      (λ e. let (first, rest) = newest_from-largest b gs in (first, (ground arith, rest)))

verdict_of-success :
    (o : Option Goal) (grace now last_activity l : ℕ)
    → verdict_of o grace now last_activity ≡ (some Terminal.success, l)
    → (g : Goal) × (o ≡ some g) × (g.status ≡ goal_status_succeeded)
unfolding verdict_of after_grace
verdict_of-success none grace now last_activity l h = ground arith
verdict_of-success (some g) grace now last_activity l h = (g, refl, ground arith)

newest-Among :
    (gs : List Goal) (g : Goal) → newest gs ≡ some g → Among g gs × All (λ h. h.stamp ≤ g.stamp) gs
unfolding newest
newest-Among [] g h = ground arith
newest-Among (x ∷ gs) g h =
    let e : newest_from x gs ≡ g = ground arith in
    subst (λ y. Among y (x ∷ gs) × All (λ h. h.stamp ≤ y.stamp) (x ∷ gs)) e
      (newest_from-Among x gs, newest_from-largest x gs)

newest-others :
    (own : String) (gs : List Goal) (g : Goal)
    → newest (others own gs) ≡ some g
    → Among g gs
      × (str_eq g.goal_id own ≡ false)
      × All (λ h. str_eq h.goal_id own ≡ false → h.stamp ≤ g.stamp) gs
newest-others own gs g h =
    let (among, largest) = newest-Among (others own gs) g h in
    let (there, differs) = others-Among own g gs among in
    (there, differs, others-All own (λ x. x.stamp ≤ g.stamp) gs largest)

pub resumed-NewestSucceeded :
    (t : Tick) (own : String) (last_activity grace l : ℕ)
    → resumed_mission_terminal t.statuses own t.now last_activity grace ≡ (some Terminal.success, l)
    → NewestSucceeded own t
unfolding resumed_mission_terminal newest
resumed-NewestSucceeded t own last_activity grace l h =
    let (g, found, succeeded) =
      verdict_of-success (newest (others own t.statuses)) grace t.now last_activity l h in
    let (among, differs, largest) = newest-others own t.statuses g found in
    (g, among, differs, succeeded, largest)
