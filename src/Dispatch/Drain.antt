-- ===== src/Dispatch/Drain.antt =====
-- When a run may end, and when a slot waits (scripts/run_campaign_parallel.py).
use failure_prediction.Prelude.{
  ℕ, ◌≤◌, Bool, true, false, Option, none, some, List, [], ◌∷◌, ◌≡◌, ◌≢◌, refl, ◌⊎◌, inl, inr,
  arith, All, if_either, ltb, Bool-cases,
}
use failure_prediction.Dispatch.Queue.{
  Episode, Row, StopReason, queue_exhausted, systems_drained, Campaign, Dispatcher, Claim, cap_wait,
  stop, cap_blocked, outside_phase, is_taken, Scan, found, nothing, scan, claim_found,
  limit_reached, claim, claim_limit_reached, drain_requested, free_space_reserve_reached, stop_with,
  at_cap, attempted_keys,
}
use failure_prediction.Dispatch.Queue.Counting.{count}
use failure_prediction.Dispatch.Steps.{World, running, Reach, fresh}
use failure_prediction.Dispatch.Exactly.{exactly_once}

module _ (c : Campaign) where
  abbrev pub Done : Dispatcher → Bool → Episode → Type 0
  Done d deferred e = (is_taken d e ≡ true) ⊎ ((deferred ≡ true) × (outside_phase c e ≡ true))

  scan-blocked :
      (d : Dispatcher) (es : List Episode) (f b' f' : Bool)
      → scan c d es true f ≡ nothing b' f'
      → b' ≡ true
  unfolding scan
  scan-blocked d [] f b' f' h = ground arith
  scan-blocked d (x ∷ es) f b' f' h =
      ground (arith, scan-blocked d es f b' f', scan-blocked d es true b' f')

  scan-deferred :
      (d : Dispatcher) (es : List Episode) (b b' f' : Bool)
      → scan c d es b true ≡ nothing b' f'
      → f' ≡ true
  unfolding scan
  scan-deferred d [] b b' f' h = ground arith
  scan-deferred d (x ∷ es) b b' f' h =
      ground (arith, scan-deferred d es b b' f', scan-deferred d es true b' f')

  -- A search that finds nothing and no blocked episode has seen only episodes that are done.
  scan-Done :
      (d : Dispatcher) (es : List Episode) (b f deferred : Bool)
      → scan c d es b f ≡ nothing false deferred
      → All (Done d deferred) es
  unfolding scan
  scan-Done d [] b f deferred h = tt
  scan-Done d (x ∷ es) b f deferred h = elim (Bool-cases (is_taken d x)) [
    | inl taken ↦ (inl taken, scan-Done d es b f deferred (ground arith))
    | inr pending ↦ elim (Bool-cases (outside_phase c x)) [
      | inl out ↦ (
        inr (ground (arith, scan-deferred d es b false deferred), out),
        scan-Done d es b true deferred (ground arith),
      )
      | inr inside ↦ absurd (ground (arith, scan-blocked d es f false deferred))
    ]
  ]

  scan-waiting :
      (d : Dispatcher) (es : List Episode) (f f' : Bool)
      → scan c d es false f ≡ nothing true f'
      → (e : Episode) × (cap_blocked c d e ≡ true)
  unfolding scan
  scan-waiting d [] f f' h = absurd (cc)
  scan-waiting d (x ∷ es) f f' h = elim (Bool-cases (cap_blocked c d x)) [
    | inl capped ↦ (x, capped)
    | inr free ↦ elim (Bool-cases (is_taken d x)) [
      | inl taken ↦ scan-waiting d es f f' (ground arith)
      | inr pending ↦ scan-waiting d es true f' (ground arith)
    ]
  ]

  -- The reason with which a search that found nothing to claim stops the run.
  abbrev pub drained_reason : Bool → StopReason
  drained_reason true = systems_drained
  drained_reason false = queue_exhausted

  abbrev Ended : Dispatcher → Dispatcher × Claim → Type 0
  Ended d r =
      (deferred : Bool)
      → r.0.stop_reason ≡ some (drained_reason deferred)
      → All (Done d deferred) c.episodes

  claim_found-Ended :
      (d : Dispatcher) (o : Scan)
      → d.stop_reason ≡ none
      → scan c d c.episodes false false ≡ o
      → Ended d (claim_found o d)
  unfolding claim_found
  claim_found-Ended d (found e) running' p deferred h = absurd (ground arith)
  claim_found-Ended d (nothing true f) running' p deferred h = absurd (ground arith)
  claim_found-Ended d (nothing false true) running' p true h =
      scan-Done d c.episodes false false true p
  claim_found-Ended d (nothing false true) running' p false h = absurd (ground arith)
  claim_found-Ended d (nothing false false) running' p true h = absurd (ground arith)
  claim_found-Ended d (nothing false false) running' p false h =
      scan-Done d c.episodes false false false p

  stop_with-Ended :
      (d : Dispatcher) (reason : StopReason)
      → ((deferred : Bool) → reason ≢ drained_reason deferred)
      → d.stop_reason ≡ none
      → Ended d (stop_with reason d, stop)
  unfolding stop_with
  stop_with-Ended d reason other running' deferred h = absurd (ground (arith, other deferred))

  -- A claim stops a run that had not stopped as exhausted only if every episode is in the ledger or in
  -- flight, and as drained only if every other episode lies outside the phase.
  pub claim-Ended :
      (drain_marker : Bool) (free : ℕ) (d : Dispatcher) (deferred : Bool)
      → d.stop_reason ≡ none
      → (claim c drain_marker free d).0.stop_reason ≡ some (drained_reason deferred)
      → All (Done d deferred) c.episodes
  unfolding claim stop_with
  claim-Ended drain_marker free d deferred running' =
      if_either (λ r. Ended d r) d.stopped (λ _ deferred' h. absurd (ground arith))
        (λ _.
          if_either (λ r. Ended d r) (limit_reached c.max_claims d.claimed)
            (λ _.
              stop_with-Ended d claim_limit_reached (elim [ true ↦ λ h. cc | false ↦ λ h. cc ])
                running')
            λ _.
              if_either (λ r. Ended d r) drain_marker
                (λ _.
                  stop_with-Ended d drain_requested (elim [ true ↦ λ h. cc | false ↦ λ h. cc ])
                    running')
                λ _.
                  if_either (λ r. Ended d r) (ltb free c.minimum_free_bytes)
                    (λ _.
                      stop_with-Ended d free_space_reserve_reached
                        (elim [ true ↦ λ h. cc | false ↦ λ h. cc ]) running')
                    λ _. claim_found-Ended d (scan c d c.episodes false false) running' refl)
        deferred

  at_cap_pos :
      (o : Option ℕ) (n : ℕ) → ((cap : ℕ) → o ≡ some cap → 1 ≤ cap) → at_cap o n ≡ true → 1 ≤ n
  at_cap_pos none n h p = cc
  at_cap_pos (some cap) n h p = ground (arith, h cap refl)

  claim_found-waits :
      (d : Dispatcher) (o : Scan)
      → (claim_found o d).1 ≡ cap_wait
      → (f : Bool) × (o ≡ nothing true f)
  unfolding claim_found
  claim_found-waits d (found e) h = absurd (cc)
  claim_found-waits d (nothing true f) h = (f, refl)
  claim_found-waits d (nothing false true) h = absurd (cc)
  claim_found-waits d (nothing false false) h = absurd (cc)

  claim-waits :
      (drain_marker : Bool) (free : ℕ) (d : Dispatcher)
      → (claim c drain_marker free d).1 ≡ cap_wait
      → (f : Bool) × (scan c d c.episodes false false ≡ nothing true f)
  unfolding claim
  claim-waits drain_marker free d =
      if_either P d.stopped (λ _ h. absurd (cc))
        λ _.
          if_either P (limit_reached c.max_claims d.claimed) (λ _ h. absurd (cc))
            λ _.
              if_either P drain_marker (λ _ h. absurd (cc))
                λ _.
                  if_either P (ltb free c.minimum_free_bytes) (λ _ h. absurd (cc))
                    λ _. claim_found-waits d (scan c d c.episodes false false)
    where
      P : Dispatcher × Claim → Type 0
      P r = r.1 ≡ cap_wait → (f : Bool) × (scan c d c.episodes false false ≡ nothing true f)

  -- With caps of at least one each, a slot is told to wait only while some flight is up, whose record will let it go on.
  pub claim_waits :
      (ledger : List Row) (w : World) (drain_marker : Bool) (free : ℕ)
      → ((s cap : ℕ) → c.system_concurrency s ≡ some cap → 1 ≤ cap)
      → ((k : ℕ) → count k (attempted_keys ledger) ≤ 1)
      → Reach c (fresh ledger) w
      → (claim c drain_marker free w.queue).1 ≡ cap_wait
      → w.flights ≢ []
  unfolding cap_blocked
  claim_waits ledger w drain_marker free positive h r wait grounded =
      let (f, p) = claim-waits drain_marker free w.queue wait in
      let (e, capped) = scan-waiting w.queue c.episodes false f p in
      let busy =
        at_cap_pos (c.system_concurrency e.system) (w.queue.in_flight_systems e.system)
          (positive e.system) capped in
      let idle : running e.system w.flights ≡ 0 = rw grounded in
      omega (arith, busy, idle, (exactly_once c ledger w h r).counted e.system)
