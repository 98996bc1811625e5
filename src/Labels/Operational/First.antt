-- ===== src/Labels/Operational/First.antt =====
-- The first sample with complete evidence of a localisation loss (src/labels/operational_events.py).
use mathlib.Core.Path.{subst}
use failure_prediction.Prelude.{
  ℕ, Option, none, some, List, [], ◌∷◌, ◌≡◌, ◌⊎◌, inl, inr, refl, arith, if_either,
}
use failure_prediction.Prelude.Result.{ok}
use failure_prediction.Labels.Operational.{
  PoseErrorSample, Limits, translation_exceeds, yaw_exceeds, is_gap, since, persists, scan_poses,
  validate_times, pose_times, first_localisation_loss,
}
use failure_prediction.Labels.Operational.Evidence.{Persistent, newest, persists-Persistent}
use failure_prediction.Labels.Operational.Clocks.{
  Sound, Follows, EarlyAll, not_persists, since-Sound, since-Early, validate_times-Follows,
  Early-next,
}

-- Either channel has continuous evidence up to the newest sample of a history.
abbrev pub Confirmed : Limits → PoseErrorSample → List PoseErrorSample → Type 0
Confirmed l s older =
    Persistent (translation_exceeds l) l s.timestamp (s ∷ older)
    ⊎ Persistent (yaw_exceeds l) l s.timestamp (s ∷ older)

-- The time of the first sample with complete evidence, or none where no sample has it.
abbrev pub IsFirst : Limits → List PoseErrorSample → List PoseErrorSample → Option ℕ → Type 0
IsFirst l history [] r = r ≡ none
IsFirst l history (s ∷ ss) r =
    (Confirmed l s history × (r ≡ some s.timestamp))
    ⊎ ((¬ Confirmed l s history) × IsFirst l (s ∷ history) ss r)

not_either {ℓ κ} : {A : Type ℓ} {B : Type κ} → ¬ A → ¬ B → ¬ (A ⊎ B)
not_either f g (inl a) = f a
not_either f g (inr b) = g b

module _ (l : Limits) where
  scan_poses-IsFirst :
      (translation yaw : Option ℕ) (history samples : List PoseErrorSample)
      → Sound (translation_exceeds l) l.maximum_gap_seconds translation history
      → Sound (yaw_exceeds l) l.maximum_gap_seconds yaw history
      → EarlyAll translation history
      → EarlyAll yaw history
      → Follows (newest history) samples
      → IsFirst l history samples (scan_poses l translation yaw (newest history) samples)
  unfolding scan_poses
  scan_poses-IsFirst translation yaw history [] ht hy et ey f = refl
  scan_poses-IsFirst translation yaw history (s ∷ ss) ht hy et ey (later, f) =
      let gap = is_gap l.maximum_gap_seconds (newest history) s.timestamp in
      let translation' = since gap translation (translation_exceeds l s) s.timestamp in
      let yaw' = since gap yaw (yaw_exceeds l s) s.timestamp in
      let bt = Early-next translation history s et later in
      let by = Early-next yaw history s ey later in
      let ht' =
        since-Sound (translation_exceeds l) l.maximum_gap_seconds translation s history bt ht in
      let hy' = since-Sound (yaw_exceeds l) l.maximum_gap_seconds yaw s history by hy in
      if_either (IsFirst l history (s ∷ ss))
        (persists l.persistence_seconds translation' s.timestamp)
        (λ p. inl (
          inl (
              persists-Persistent (translation_exceeds l) l translation' s.timestamp (s ∷ history)
                ht'.0 p),
          refl,
        ))
        (λ np.
          if_either (IsFirst l history (s ∷ ss)) (persists l.persistence_seconds yaw' s.timestamp)
            (λ p. inl (
              inr (persists-Persistent (yaw_exceeds l) l yaw' s.timestamp (s ∷ history) hy'.0 p),
              refl,
            ))
            (λ nq. inr (
              not_either
                  (not_persists (translation_exceeds l) l translation' s.timestamp (s ∷ history)
                    ht'.1 np)
                  (not_persists (yaw_exceeds l) l yaw' s.timestamp (s ∷ history) hy'.1 nq),
              scan_poses-IsFirst translation' yaw' (s ∷ history) ss ht' hy'
                  (since-Early gap (translation_exceeds l s) translation s.timestamp bt)
                  (since-Early gap (yaw_exceeds l s) yaw s.timestamp by) f,
            )))

  -- Where the detector of localisation losses returns, it returns the time of the first sample up to
  -- which one channel, without a break and without a gap above the maximum, exceeded its threshold for
  -- the whole persistence, and none where no sample has that evidence: no loss is missed or delayed.
  pub first_localisation_loss-IsFirst :
      (samples : List PoseErrorSample) (r : Option ℕ)
      → first_localisation_loss samples l ≡ ok r
      → IsFirst l [] samples r
  unfolding first_localisation_loss
  first_localisation_loss-IsFirst samples r h =
      let valid : validate_times none (pose_times samples) ≡ ok tt = ground arith in
      let found : scan_poses l none none none samples ≡ r = ground arith in
      subst (IsFirst l [] samples) found (
        scan_poses-IsFirst none none [] samples (tt, λ start run. absurd run)
          (tt, λ start run. absurd run) refl refl (validate_times-Follows none samples valid))
