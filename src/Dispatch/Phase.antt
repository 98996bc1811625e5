-- ===== src/Dispatch/Phase.antt =====
-- Phased execution by the filter `systems` (scripts/run_campaign_parallel.py).
use failure_prediction.Prelude.{ℕ, ◌≤◌, false, List, [], ◌∷◌, ◌++◌, ◌≡◌, sym, ◌∙◌, All, All-append}
use mathlib.Core.List.{append-nil, append_assoc}
use failure_prediction.Dispatch.Queue.{
  Row, Campaign, Dispatcher, Claim, episode, cap_wait, stop, attempted_keys, outside, outside_phase,
  take_episode, claim, attempt_codes, row_of,
}
use failure_prediction.Dispatch.Queue.Counting.{count}
use failure_prediction.Dispatch.Queue.Claiming.{Booked, claim-Booked, record_row-Landed}
use failure_prediction.Dispatch.Steps.{
  Flight, World, after_claim, Step, claims, records, Reach, here, next, fresh,
}
use failure_prediction.Dispatch.Exactly.{IsExact, flying, Step-IsExact, fresh-IsExact}

module _ (c : Campaign) where
  abbrev FlightInPhase : Flight → Type 0
  FlightInPhase f = outside c.systems f.flown.system ≡ false

  abbrev RowInPhase : Row → Type 0
  RowInPhase r = outside c.systems r.system ≡ false

  -- The ledger is the one at the start with rows of the phase behind it.
  pub record KeepsPhase (ledger : List Row) (w : World) : Type 0 where
    pub rows : List Row
    pub appended : w.queue.ledger ≡ ledger ++ rows
    pub rows_in_phase : All RowInPhase rows
    pub flights_in_phase : All FlightInPhase w.flights

  All-drop_middle :
      (xs ys : List Flight) (f : Flight)
      → All FlightInPhase (xs ++ f ∷ ys)
      → FlightInPhase f × All FlightInPhase (xs ++ ys)
  All-drop_middle [] ys f h = h
  All-drop_middle (x ∷ xs) ys f h = let (p, q) = All-drop_middle xs ys f h.1 in (p, (h.0, q))

  claim-KeepsPhase :
      (ledger : List Row) (slot : ℕ) (d : Dispatcher) (fs : List Flight) (r : Dispatcher × Claim)
      → Booked c d r
      → KeepsPhase ledger (record { queue = d; flights = fs })
      → KeepsPhase ledger (after_claim slot r fs)
  unfolding take_episode outside_phase
  claim-KeepsPhase ledger slot d fs (d', episode e) (free, taken, open') h = rw taken record {
    rows = h.rows;
    appended = h.appended;
    rows_in_phase = h.rows_in_phase;
    flights_in_phase = (free.in_phase, h.flights_in_phase);
  }
  claim-KeepsPhase ledger slot d fs (d', cap_wait) same h = rw same h
  claim-KeepsPhase ledger slot d fs (d', stop) (l, i, s, p, halted) h = record {
    rows = h.rows;
    appended = l ∙ h.appended;
    rows_in_phase = h.rows_in_phase;
    flights_in_phase = h.flights_in_phase;
  }

  Step-KeepsPhase :
      (ledger : List Row) (w w' : World)
      → Step c w w'
      → IsExact w
      → KeepsPhase ledger w
      → KeepsPhase ledger w'
  Step-KeepsPhase ledger w w' (claims slot drain_marker free idle e) x h = rw e (
      claim-KeepsPhase ledger slot w.queue w.flights (claim c drain_marker free w.queue)
        (claim-Booked c drain_marker free w.queue) h)
  Step-KeepsPhase ledger w w' (records before after f run validate d e r e') x h =
      let codes = attempt_codes run validate in
      let landed =
        record_row-Landed c f.flown f.slot codes w.queue d (flying c w before after f e x) r in
      let (p, q) = All-drop_middle before after f (rw e at h.flights_in_phase) in
      rw e' record {
        rows = h.rows ++ row_of f.flown f.slot codes ∷ [];
        appended = rw (landed.1, h.appended, append_assoc);
        rows_in_phase =
            All-append RowInPhase h.rows (row_of f.flown f.slot codes ∷ []) h.rows_in_phase (p, tt);
        flights_in_phase = q;
      }

  Reach-KeepsPhase :
      (ledger : List Row) {w w' : World}
      → IsExact w
      → KeepsPhase ledger w
      → Reach c w w'
      → IsExact w' × KeepsPhase ledger w'
  Reach-KeepsPhase ledger x h here = (x, h)
  Reach-KeepsPhase ledger x h (next {v} {u} r s) =
      let (y, k) = Reach-KeepsPhase ledger x h r in
      (Step-IsExact c v u s y, Step-KeepsPhase ledger v u s y k)

  -- The ledger only grows, and every row that a run appends, and every flight, is of a system that
  -- the phase filter lists.
  pub phase_kept :
      (ledger : List Row) (w : World)
      → ((k : ℕ) → count k (attempted_keys ledger) ≤ 1)
      → Reach c (fresh ledger) w
      → KeepsPhase ledger w
  phase_kept ledger w h r =
      (Reach-KeepsPhase ledger {w = fresh ledger} (fresh-IsExact c ledger h)
        (record {
          rows = [];
          appended = sym (append-nil ledger);
          rows_in_phase = tt;
          flights_in_phase = tt;
        })
        r).1
