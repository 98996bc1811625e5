-- ===== src/Dispatch/Caps.antt =====
-- The concurrency caps (scripts/run_campaign_parallel.py).
use failure_prediction.Prelude.{ℕ, ◌+◌, ◌≤◌, false, some, List, ◌≡◌, arith}
use failure_prediction.Dispatch.Queue.{
  Episode, Row, Campaign, Dispatcher, Claim, episode, cap_wait, stop, attempted_keys, cap_blocked,
  take_episode, claim, Codes, attempt_codes,
}
use failure_prediction.Dispatch.Queue.Counting.{count}
use failure_prediction.Dispatch.Queue.Claiming.{Booked, claim-Booked, Landed, record_row-Landed}
use failure_prediction.Dispatch.Steps.{
  Flight, World, running, after_claim, Step, claims, records, Reach, here, next, fresh,
}
use failure_prediction.Dispatch.Exactly.{IsExact, flying, Step-IsExact, fresh-IsExact}

module _ (c : Campaign) where
  -- No counter, and no peak that the dispatcher reports, is above its system's cap.
  pub record IsCapped (d : Dispatcher) : Type 0 where
    pub now : (s cap : ℕ) → c.system_concurrency s ≡ some cap → d.in_flight_systems s ≤ cap
    pub ever : (s cap : ℕ) → c.system_concurrency s ≡ some cap → d.peak_in_flight_systems s ≤ cap

  uncapped_room :
      (d : Dispatcher) (e : Episode) (cap : ℕ)
      → cap_blocked c d e ≡ false
      → c.system_concurrency e.system ≡ some cap
      → d.in_flight_systems e.system + 1 ≤ cap
  unfolding cap_blocked
  uncapped_room d e cap free h = ground arith

  claim-IsCapped :
      (slot : ℕ) (d : Dispatcher) (fs : List Flight) (r : Dispatcher × Claim)
      → Booked c d r
      → IsCapped d
      → IsCapped (after_claim slot r fs).queue
  unfolding take_episode
  claim-IsCapped slot d fs (d', episode e) (free, taken, open') h = rw taken record {
    now = λ s cap p. ground (arith, h.now s cap p, uncapped_room d e cap free.uncapped);
    ever = λ s cap p. ground (arith, h.ever s cap p, uncapped_room d e cap free.uncapped);
  }
  claim-IsCapped slot d fs (d', cap_wait) same h = rw same h
  claim-IsCapped slot d fs (d', stop) (l, i, s, p, halted) h = record {
    now = λ k cap q. rw s (h.now k cap q);
    ever = λ k cap q. rw p (h.ever k cap q);
  }

  Landed-IsCapped :
      (e : Episode) (slot : ℕ) (codes : Codes) (d d' : Dispatcher)
      → Landed e slot codes d d'
      → IsCapped d
      → IsCapped d'
  Landed-IsCapped e slot codes d d' (new, l, i, s, p) h = record {
    now = λ k cap q. rw s (ground (arith, h.now k cap q, h.now e.system cap));
    ever = λ k cap q. rw p (h.ever k cap q);
  }

  Step-IsCapped : (w w' : World) → Step c w w' → IsExact w → IsCapped w.queue → IsCapped w'.queue
  Step-IsCapped w w' (claims slot drain_marker free idle e) x h = rw e (
      claim-IsCapped slot w.queue w.flights (claim c drain_marker free w.queue)
        (claim-Booked c drain_marker free w.queue) h)
  Step-IsCapped w w' (records before after f run validate d e r e') x h = rw e' (
      Landed-IsCapped f.flown f.slot (attempt_codes run validate) w.queue d
        (record_row-Landed c f.flown f.slot (attempt_codes run validate) w.queue d
          (flying c w before after f e x) r)
        h)

  Reach-IsCapped :
      {w w' : World} → IsExact w → IsCapped w.queue → Reach c w w' → IsExact w' × IsCapped w'.queue
  Reach-IsCapped x h here = (x, h)
  Reach-IsCapped x h (next {v} {u} r s) =
      let (y, k) = Reach-IsCapped x h r in (Step-IsExact c v u s y, Step-IsCapped v u s y k)

  -- Over all interleavings the flights of a capped system, and the peak that is reported for it, stay
  -- within its cap.
  pub within_caps :
      (ledger : List Row) (w : World) (s cap : ℕ)
      → ((k : ℕ) → count k (attempted_keys ledger) ≤ 1)
      → Reach c (fresh ledger) w
      → c.system_concurrency s ≡ some cap
      → (running s w.flights ≤ cap) × (w.queue.peak_in_flight_systems s ≤ cap)
  within_caps ledger w s cap h r e =
      let (x, k) =
        Reach-IsCapped {w = fresh ledger} (fresh-IsExact c ledger h)
          (record { now = λ t m q. omega arith; ever = λ t m q. omega arith }) r in
      (omega (arith, k.now s cap e, x.counted s), k.ever s cap e)
