-- ===== src/Dispatch/Waves/Reported.antt =====
-- The lists of waves and the slices of the ledger (scripts/run_campaign_parallel.py).
use failure_prediction.Prelude.{
  ℕ, zero, suc, ◌+◌, ◌/◌, true, false, Option, none, some, List, [], ◌∷◌, ◌++◌, ◌≡◌, refl, ◌==◌,
  arith, if◌then◌else◌, length, All, All-append, Bool, inl, inr, if_either, Option-cases, ◌||◌, sym,
  ◌∙◌,
}
use mathlib.Core.List.{append-nil, append_assoc}
use failure_prediction.Dispatch.Queue.{Row, mem}
use failure_prediction.Dispatch.Queue.Counting.{count, count-append}
use failure_prediction.Dispatch.Waves.{
  is_raised, call_finalize, Waves, slice_rows, any_invalid, finalize_wave, finalize_from,
  finalize_complete_waves, finalize_calls, no_waves,
}

abbrev pub raised_at : ℕ → Option ℕ → ℕ
raised_at k none = 0
raised_at k (some wave) = if k == wave then 1 else 0

-- A wave is finalised, or skipped, or the one whose `finalize` raised, once exactly when it is marked.
abbrev pub ListedOnce : Waves → Type 0
ListedOnce w =
    (k : ℕ)
    → count k w.waves_finalized + count k w.waves_skipped_invalid + raised_at k w.raised
      ≡ (if mem k w.finalized_waves then 1 else 0)

-- Where `finalize` raised, the parameter tells so.
abbrev pub RaisedBy : (ℕ → Bool) → Option ℕ → Type 0
RaisedBy finalize none = Unit
RaisedBy finalize (some wave) = finalize wave ≡ false

-- What holds of the lists of waves under a `finalize`.
pub record IsReported (finalize : ℕ → Bool) (w : Waves) : Type 0 where
  pub listed : ListedOnce w
  pub raised_by : RaisedBy finalize w.raised

module _ (finalize : ℕ → Bool) (size : ℕ) where
  -- The waves that one call adds: those of clean slices are finalised, the others skipped.
  pub record Adds (rows : List Row) (w w' : Waves) : Type 0 where
    pub finalized : List ℕ
    pub skipped : List ℕ
    pub finalized_eq : w'.waves_finalized ≡ w.waves_finalized ++ finalized
    pub skipped_eq : w'.waves_skipped_invalid ≡ w.waves_skipped_invalid ++ skipped
    pub clean : All (λ k. any_invalid (slice_rows size rows k) ≡ false) finalized
    pub dirty : All (λ k. any_invalid (slice_rows size rows k) ≡ true) skipped

  finalize_wave-ListedOnce :
      (rows : List Row) (wave : ℕ) (w : Waves)
      → ListedOnce w
      → ListedOnce (finalize_wave finalize size rows wave w)
  unfolding finalize_wave call_finalize
  finalize_wave-ListedOnce rows wave w h k = elim (Option-cases w.raised) [
    | inl calm ↦ ground (
      arith,
      h k,
      count-append k w.waves_finalized (wave ∷ []),
      count-append k w.waves_skipped_invalid (wave ∷ []),
    )
    | inr (x, out) ↦ rw out (rw out at h k)
  ]

  finalize_wave-RaisedBy :
      (rows : List Row) (wave : ℕ) (w : Waves)
      → RaisedBy finalize w.raised
      → RaisedBy finalize (finalize_wave finalize size rows wave w).raised
  unfolding finalize_wave call_finalize
  finalize_wave-RaisedBy rows wave w h =
      if_either P (is_raised w.raised || mem wave w.finalized_waves) (λ _. h)
        λ _.
          if_either P (any_invalid (slice_rows size rows wave)) (λ _. h)
            (λ _. if_either P (finalize wave) (λ _. h) (λ e. e))
    where
      P : Waves → Type 0
      P v = RaisedBy finalize v.raised

  finalize_from-IsReported :
      (rows : List Row) (n wave : ℕ) (w : Waves)
      → IsReported finalize w
      → IsReported finalize (finalize_from finalize size rows n wave w)
  unfolding finalize_from
  finalize_from-IsReported rows zero wave w h = h
  finalize_from-IsReported rows (suc n) wave w h =
      finalize_from-IsReported rows n (suc wave) (finalize_wave finalize size rows wave w) record {
        listed = finalize_wave-ListedOnce rows wave w h.listed;
        raised_by = finalize_wave-RaisedBy rows wave w h.raised_by;
      }

  finalize_calls-IsReported :
      (calls : List (List Row)) (w : Waves)
      → IsReported finalize w
      → IsReported finalize (finalize_calls (some finalize) size calls w)
  unfolding finalize_calls
  finalize_calls-IsReported [] w h = h
  finalize_calls-IsReported (rows ∷ later) w h =
      finalize_calls-IsReported later (finalize_complete_waves (some finalize) size rows w)
        (finalize_from-IsReported rows (length rows / size) 1 w h)

  -- However often the main loop looks at the ledger, a wave is marked exactly if it is finalised, or
  -- skipped, or is the one at which the run stopped, and then only one of these, and listed once; and the
  -- run stops at a wave only if its `finalize` raises.
  pub waves-IsReported :
      (calls : List (List Row))
      → IsReported finalize (finalize_calls (some finalize) size calls no_waves)
  waves-IsReported calls =
      finalize_calls-IsReported calls no_waves
        (record { listed = λ k. omega arith; raised_by = tt })

  Adds-refl :
      (rows : List Row) (w v : Waves)
      → v.waves_finalized ≡ w.waves_finalized
      → v.waves_skipped_invalid ≡ w.waves_skipped_invalid
      → Adds rows w v
  Adds-refl rows w v p q = record {
    finalized = [];
    skipped = [];
    finalized_eq = p ∙ sym (append-nil w.waves_finalized);
    skipped_eq = q ∙ sym (append-nil w.waves_skipped_invalid);
    clean = tt;
    dirty = tt;
  }

  finalize_wave-Adds :
      (rows : List Row) (wave : ℕ) (w : Waves)
      → Adds rows w (finalize_wave finalize size rows wave w)
  unfolding finalize_wave call_finalize
  finalize_wave-Adds rows wave w =
      if_either (Adds rows w) (is_raised w.raised || mem wave w.finalized_waves)
        (λ _. Adds-refl rows w w refl refl)
        λ _.
          if_either (Adds rows w) (any_invalid (slice_rows size rows wave))
            (λ bad. record {
              finalized = [];
              skipped = wave ∷ [];
              finalized_eq = sym (append-nil w.waves_finalized);
              skipped_eq = refl;
              clean = tt;
              dirty = (bad, tt);
            })
            (λ good.
              if_either (Adds rows w) (finalize wave)
                (λ _. record {
                  finalized = wave ∷ [];
                  skipped = [];
                  finalized_eq = refl;
                  skipped_eq = sym (append-nil w.waves_skipped_invalid);
                  clean = (good, tt);
                  dirty = tt;
                })
                (λ _.
                  Adds-refl rows w
                    (record w { finalized_waves = wave ∷ w.finalized_waves; raised = some wave })
                    refl refl))

  Adds-trans : (rows : List Row) (u v w : Waves) → Adds rows u v → Adds rows v w → Adds rows u w
  Adds-trans rows u v w a b = record {
    finalized = a.finalized ++ b.finalized;
    skipped = a.skipped ++ b.skipped;
    finalized_eq = rw (b.finalized_eq, a.finalized_eq, append_assoc);
    skipped_eq = rw (b.skipped_eq, a.skipped_eq, append_assoc);
    clean = All-append _ a.finalized b.finalized a.clean b.clean;
    dirty = All-append _ a.skipped b.skipped a.dirty b.dirty;
  }

  finalize_from-Adds :
      (rows : List Row) (n wave : ℕ) (w : Waves)
      → Adds rows w (finalize_from finalize size rows n wave w)
  unfolding finalize_from
  finalize_from-Adds rows zero wave w = Adds-refl rows w w refl refl
  finalize_from-Adds rows (suc n) wave w =
      let v = finalize_wave finalize size rows wave w in
      Adds-trans rows w v (finalize_from finalize size rows n (suc wave) v)
        (finalize_wave-Adds rows wave w) (finalize_from-Adds rows n (suc wave) v)

  -- What a call lists as finalised are slices without an invalid row, and what it lists as skipped
  -- are slices with one; it keeps what earlier calls listed.
  pub finalize_complete_waves-Adds :
      (rows : List Row) (w : Waves)
      → Adds rows w (finalize_complete_waves (some finalize) size rows w)
  unfolding finalize_complete_waves
  finalize_complete_waves-Adds rows w = finalize_from-Adds rows (length rows / size) 1 w
