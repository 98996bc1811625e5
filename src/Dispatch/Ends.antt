-- ===== src/Dispatch/Ends.antt =====
-- Why a run ends, over the interleavings of the workers (scripts/run_campaign_parallel.py).
use failure_prediction.Prelude.{
  ℕ, ◌+◌, ◌≤◌, Bool, true, false, none, some, List, ◌≡◌, refl, inl, inr, arith, All, All-mono,
  Bool-cases,
}
use failure_prediction.Dispatch.Queue.{
  Episode, Row, Campaign, Dispatcher, Claim, episode, cap_wait, stop, attempted_keys, is_taken,
  Scan, found, nothing, scan, claim_found, take_episode, claim, Codes, attempt_codes, row_of,
  record_row,
}
use failure_prediction.Dispatch.Queue.Counting.{
  count, count_pos, count-discard, count-attempted_keys,
}
use failure_prediction.Dispatch.Queue.Claiming.{Booked, claim-Booked, Landed, record_row-Landed}
use failure_prediction.Dispatch.Steps.{
  Flight, World, after_claim, Step, claims, records, Reach, here, next, fresh,
}
use failure_prediction.Dispatch.Exactly.{taken_counts, flying, IsExact, Step-IsExact, fresh-IsExact}
use failure_prediction.Dispatch.Drain.{Done, drained_reason, claim-Ended}

taken_pos :
    (d : Dispatcher) (e : Episode)
    → is_taken d e ≡ true
    → 1 ≤ count e.episode_key d.in_flight + count e.episode_key (attempted_keys d.ledger)
unfolding is_taken
taken_pos d e h =
    ground (
      arith,
      count_pos e.episode_key d.in_flight,
      count_pos e.episode_key (attempted_keys d.ledger),
    )

-- What one step leaves in the ledger or in flight.
abbrev Keeps : Dispatcher → Dispatcher → Type 0
Keeps d d' = (e : Episode) → is_taken d e ≡ true → is_taken d' e ≡ true

still_counted :
    (d d' : Dispatcher)
    → ((k : ℕ)
        → 1 ≤ count k d.in_flight + count k (attempted_keys d.ledger)
        → 1 ≤ count k d'.in_flight + count k (attempted_keys d'.ledger))
    → Keeps d d'
still_counted d d' f e h = elim (Bool-cases (is_taken d' e)) [
  | inl taken ↦ taken
  | inr lost ↦
      let (p, q) = taken_counts d' e lost in
      absurd (omega (arith, p, q, f e.episode_key (taken_pos d e h)))
]

module _ (c : Campaign) where
  Booked-Keeps : (d : Dispatcher) (r : Dispatcher × Claim) → Booked c d r → Keeps d r.0
  unfolding take_episode
  Booked-Keeps d (d', episode e) (free, taken, open') =
      rw taken (still_counted d (take_episode e d) (λ k h. ground (arith, h)))
  Booked-Keeps d (d', cap_wait) same = rw same (λ e h. h)
  Booked-Keeps d (d', stop) (l, i, s, p, halted) = still_counted d d' (λ k h. rw (l, i) h)

  Landed-Keeps :
      (e : Episode) (slot : ℕ) (codes : Codes) (d d' : Dispatcher)
      → Landed e slot codes d d'
      → Keeps d d'
  Landed-Keeps e slot codes d d' (new, l, i, s, p) = still_counted d d' λ k h.
      rw (l, i)
        (ground (
          arith,
          h,
          count-discard k e.episode_key d.in_flight,
          count-attempted_keys k d.ledger (row_of e slot codes),
        ))

  -- A dispatcher that has not stopped has no reason.
  abbrev Open : Dispatcher → Type 0
  Open d = d.stopped ≡ false → d.stop_reason ≡ none

  claim_found-Open : (d : Dispatcher) (o : Scan) → Open d → Open (claim_found o d).0
  unfolding claim_found take_episode
  claim_found-Open d (found e) h = h
  claim_found-Open d (nothing true f) h = h
  claim_found-Open d (nothing false true) h = ground (arith, h)
  claim_found-Open d (nothing false false) h = ground (arith, h)

  claim-Open :
      (drain_marker : Bool) (free : ℕ) (d : Dispatcher)
      → Open d
      → Open (claim c drain_marker free d).0
  unfolding claim
  claim-Open drain_marker free d h =
      let rest = claim_found-Open d (scan c d c.episodes false false) h in ground (arith, h, rest)

  record_row-Open :
      (e : Episode) (slot : ℕ) (codes : Codes) (d d' : Dispatcher)
      → record_row c e slot codes d ≡ some d'
      → Open d
      → Open d'
  unfolding record_row
  record_row-Open e slot codes d d' r h = ground (arith, h)

  record_row-reason :
      (e : Episode) (slot : ℕ) (codes : Codes) (d d' : Dispatcher) (deferred : Bool)
      → record_row c e slot codes d ≡ some d'
      → d'.stop_reason ≡ some (drained_reason c deferred)
      → d.stop_reason ≡ some (drained_reason c deferred)
  unfolding record_row
  record_row-reason e slot codes d d' true r h = ground (arith, h)
  record_row-reason e slot codes d d' false r h = ground (arith, h)

  -- A queue that stopped as exhausted or as drained has no other episode left.
  abbrev Ended : Dispatcher → Type 0
  Ended d =
      (deferred : Bool)
      → d.stop_reason ≡ some (drained_reason c deferred)
      → All (Done c d deferred) c.episodes

  Keeps-Done :
      (d d' : Dispatcher) (deferred : Bool)
      → Keeps d d'
      → All (Done c d deferred) c.episodes
      → All (Done c d' deferred) c.episodes
  Keeps-Done d d' deferred keeps =
      All-mono (Done c d deferred) (Done c d' deferred)
        (λ e. elim [ inl taken ↦ inl (keeps e taken) | inr deferring ↦ inr deferring ]) c.episodes

  claim-halted :
      (drain_marker : Bool) (free : ℕ) (d : Dispatcher)
      → d.stopped ≡ true
      → (claim c drain_marker free d).0 ≡ d
  unfolding claim
  claim-halted drain_marker free d h = rw h refl

  claim-Ended_after :
      (drain_marker : Bool) (free : ℕ) (d : Dispatcher)
      → Open d
      → Ended d
      → Ended (claim c drain_marker free d).0
  claim-Ended_after drain_marker free d open' h deferred p =
      let keeps =
        Booked-Keeps d (claim c drain_marker free d) (claim-Booked c drain_marker free d) in
      Keeps-Done d (claim c drain_marker free d).0 deferred keeps (elim (Bool-cases d.stopped) [
        | inl halted ↦ h deferred (rw (claim-halted drain_marker free d halted) at p)
        | inr going ↦ claim-Ended c drain_marker free d deferred (open' going) p
      ])

  record IsEnded (w : World) : Type 0 where
    open_reason : Open w.queue
    ended : Ended w.queue

  after_claim-IsEnded :
      (slot : ℕ) (fs : List Flight) (r : Dispatcher × Claim)
      → Open r.0
      → Ended r.0
      → IsEnded (after_claim slot r fs)
  after_claim-IsEnded slot fs (d, episode e) o h = record { open_reason = o; ended = h }
  after_claim-IsEnded slot fs (d, cap_wait) o h = record { open_reason = o; ended = h }
  after_claim-IsEnded slot fs (d, stop) o h = record { open_reason = o; ended = h }

  Step-IsEnded : (w w' : World) → Step c w w' → IsExact w → IsEnded w → IsEnded w'
  Step-IsEnded w w' (claims slot drain_marker free idle e) x h = rw e (
      after_claim-IsEnded slot w.flights (claim c drain_marker free w.queue)
        (claim-Open drain_marker free w.queue h.open_reason)
        (claim-Ended_after drain_marker free w.queue h.open_reason h.ended))
  Step-IsEnded w w' (records before after f run validate d e r e') x h =
      let codes = attempt_codes run validate in
      let landed =
        record_row-Landed c f.flown f.slot codes w.queue d (flying c w before after f e x) r in
      rw e' record {
        open_reason = record_row-Open f.flown f.slot codes w.queue d r h.open_reason;
        ended = λ deferred p.
            Keeps-Done w.queue d deferred (Landed-Keeps f.flown f.slot codes w.queue d landed)
              (h.ended deferred (record_row-reason f.flown f.slot codes w.queue d deferred r p));
      }

  Reach-IsEnded :
      (ledger : List Row) {w w' : World}
      → IsExact w
      → IsEnded w
      → Reach c w w'
      → IsExact w' × IsEnded w'
  Reach-IsEnded ledger x h here = (x, h)
  Reach-IsEnded ledger x h (next {v} {u} r s) =
      let (y, k) = Reach-IsEnded ledger x h r in (Step-IsExact c v u s y, Step-IsEnded v u s y k)

  -- From a ledger without repeated keys and over all interleavings: when the claims have stopped the run
  -- as exhausted, every episode is in the ledger or in flight, and when they have stopped it as drained,
  -- every other episode lies outside the phase; and this holds from then on.
  pub Reach-Ended :
      (ledger : List Row) (w : World) (deferred : Bool)
      → ((k : ℕ) → count k (attempted_keys ledger) ≤ 1)
      → Reach c (fresh ledger) w
      → w.queue.stop_reason ≡ some (drained_reason c deferred)
      → All (Done c w.queue deferred) c.episodes
  Reach-Ended ledger w deferred once r =
      (Reach-IsEnded ledger {w = fresh ledger} (fresh-IsExact c ledger once)
          (record { open_reason = λ h. refl; ended = λ b p. absurd (ground arith) }) r).1.ended
        deferred
