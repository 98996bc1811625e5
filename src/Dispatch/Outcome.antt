-- ===== src/Dispatch/Outcome.antt =====
-- `DispatchResult` of scripts/run_campaign_parallel.py: what the counters and the exit code mean.
use failure_prediction.Prelude.{
  ℕ, suc, ◌+◌, Bool, true, false, Option, none, some, List, [], ◌∷◌, ◌++◌, ◌≡◌, ◌≢◌, refl, ◌↔◌,
  arith, ◌==◌, if◌then◌else◌, length, length-append, ◌∙◌,
}
use failure_prediction.Dispatch.Queue.{
  Episode, Row, StopReason, claim_limit_reached, drain_requested, systems_drained, queue_exhausted,
  Campaign, Dispatcher, claim, claim_found, stop_with, take_episode, Codes, attempt_codes, row_of,
  record_row,
}
use failure_prediction.Dispatch.Steps.{
  Flight, World, after_claim, Step, claims, records, Reach, here, next, fresh,
}

-- `NORMAL_STOPS`
unfoldable pub is_normal : StopReason → Bool
is_normal queue_exhausted = true
is_normal claim_limit_reached = true
is_normal systems_drained = true
is_normal drain_requested = true
is_normal _ = false

-- The end of `run`: a missing reason reads as an exhausted queue.
abbrev pub final_reason : Option StopReason → StopReason
final_reason none = queue_exhausted
final_reason (some r) = r

-- `DispatchResult.returncode`
unfoldable pub returncode : Dispatcher → ℕ
unfolding is_normal
returncode d =
    if d.invalid == 0 then (if is_normal (final_reason d.stop_reason) then 0 else 2) else 1

-- How many rows of a ledger are invalid.
abbrev pub invalid_rows : List Row → ℕ
invalid_rows [] = 0
invalid_rows (r ∷ rs) = let rest = invalid_rows rs in if r.returncode == 0 then rest else suc rest

invalid_rows-append :
    (rs : List Row) (r : Row)
    → invalid_rows (rs ++ r ∷ []) ≡ invalid_rows rs + (if r.returncode == 0 then 0 else 1)
invalid_rows-append [] r = ground arith
invalid_rows-append (q ∷ rs) r = ground (arith, invalid_rows-append rs r)

-- The counters of a run that began with `ledger`.
pub record Accounts (ledger : List Row) (w : World) : Type 0 where
  pub claimed : w.queue.claimed ≡ w.queue.recorded + length w.flights
  pub recorded : w.queue.recorded + length ledger ≡ length w.queue.ledger
  pub invalid : w.queue.invalid + invalid_rows ledger ≡ invalid_rows w.queue.ledger

module _ (c : Campaign) where
  claim-Accounts :
      (ledger : List Row) (slot : ℕ) (drain_marker : Bool) (free : ℕ) (w : World)
      → Accounts ledger w
      → Accounts ledger (after_claim slot (claim c drain_marker free w.queue) w.flights)
  unfolding claim claim_found stop_with take_episode
  claim-Accounts ledger slot drain_marker free w h = ground arith

  record_row-counters :
      (e : Episode) (slot : ℕ) (codes : Codes) (d d' : Dispatcher)
      → record_row c e slot codes d ≡ some d'
      → (d'.ledger ≡ d.ledger ++ row_of e slot codes ∷ [])
        × (d'.recorded ≡ d.recorded + 1)
        × (d'.claimed ≡ d.claimed)
        × (d'.invalid ≡ d.invalid + (if codes.returncode == 0 then 0 else 1))
  unfolding record_row stop_with
  record_row-counters e slot codes d d' h = ground arith

  Step-Accounts :
      (ledger : List Row) (w w' : World) → Step c w w' → Accounts ledger w → Accounts ledger w'
  Step-Accounts ledger w w' (claims slot drain_marker free idle e) h =
      rw e (claim-Accounts ledger slot drain_marker free w h)
  Step-Accounts ledger w w' (records before after f run validate d e r e') h =
      let codes = attempt_codes run validate in
      let (l, rec', cl, inv) = record_row-counters f.flown f.slot codes w.queue d r in
      rw e' record {
        claimed =
            rw (rec', cl)
              (omega (
                arith,
                rw e at h.claimed,
                length-append {0} before (f ∷ after),
                length-append {0} before after,
              ));
        recorded =
            rw (rec', l)
              (omega (
                arith,
                h.recorded,
                length-append {0} w.queue.ledger (row_of f.flown f.slot codes ∷ []),
              ));
        invalid =
            rw (inv, l)
              (omega (
                arith,
                h.invalid,
                invalid_rows-append w.queue.ledger (row_of f.flown f.slot codes),
              ));
      }

  -- Over all interleavings the claims are the records and the flights, each record is a row, and the
  -- invalid count is the number of invalid rows that the run has appended.
  pub accounts : (ledger : List Row) (w : World) → Reach c (fresh ledger) w → Accounts ledger w
  accounts ledger w here = record { claimed = refl; recorded = omega arith; invalid = omega arith }
  accounts ledger w (next {v} {u} r s) = Step-Accounts ledger v u s (accounts ledger v r)

  -- A run that exits with 0 has appended only valid rows, and its stop was a normal one.
  pub returncode_zero :
      (ledger : List Row) (w : World)
      → Reach c (fresh ledger) w
      → returncode w.queue ≡ 0
      → (invalid_rows w.queue.ledger ≡ invalid_rows ledger)
        × (is_normal (final_reason w.queue.stop_reason) ≡ true)
  unfolding returncode
  returncode_zero ledger w r h = ground (arith, (accounts ledger w r).invalid)

  Step-stopped :
      (w w' : World)
      → Step c w w'
      → w.queue.stopped ≡ true
      → (w'.queue.stopped ≡ true) × (w'.queue.claimed ≡ w.queue.claimed)
  unfolding claim record_row stop_with
  Step-stopped w w' (claims slot drain_marker free idle e) h = rw e (ground arith)
  Step-stopped w w' (records before after f run validate d e r e') h = rw e' (ground arith)

  Reach-stopped :
      {w w' : World}
      → w.queue.stopped ≡ true
      → Reach c w w'
      → (w'.queue.stopped ≡ true) × (w'.queue.claimed ≡ w.queue.claimed)
  Reach-stopped h here = (h, refl)
  Reach-stopped h (next {v} {u} r s) =
      let (k, p) = Reach-stopped h r in let (k', p') = Step-stopped v u s k in (k', p' ∙ p)

  record_row-stops :
      (e : Episode) (slot : ℕ) (codes : Codes) (d d' : Dispatcher)
      → c.stop_on_first_invalid ≡ true
      → codes.returncode ≢ 0
      → record_row c e slot codes d ≡ some d'
      → d'.stopped ≡ true
  unfolding record_row stop_with
  record_row-stops e slot codes d d' strict bad h = ground arith

  -- With `stop_on_first_invalid`, once an invalid attempt is recorded no interleaving claims another
  -- episode.
  pub invalid_stops_claims :
      (e : Episode) (slot : ℕ) (codes : Codes) (d d' : Dispatcher) (fs : List Flight) (w : World)
      → c.stop_on_first_invalid ≡ true
      → codes.returncode ≢ 0
      → record_row c e slot codes d ≡ some d'
      → Reach c (record { queue = d'; flights = fs }) w
      → w.queue.claimed ≡ d'.claimed
  invalid_stops_claims e slot codes d d' fs w strict bad h r =
      (Reach-stopped (record_row-stops e slot codes d d' strict bad h) r).1

-- An attempt is valid exactly when the runner and the validator both returned 0: a crash of either
-- is an invalid attempt.
pub attempt_codes_valid :
    (run validate : Option ℕ)
    → ((attempt_codes run validate).returncode ≡ 0) ↔ ((run ≡ some 0) × (validate ≡ some 0))
unfolding attempt_codes
attempt_codes_valid run validate = (λ h. ground arith, λ h. ground arith)
