-- ===== src/Dispatch/Exactly.antt =====
-- Episode keys in the ledger and in flight, over the interleavings of the workers
-- (scripts/run_campaign_parallel.py).
use failure_prediction.Prelude.{
  ℕ, ◌+◌, ◌≤◌, true, false, none, List, [], ◌∷◌, ◌++◌, ◌≡◌, ◌≢◌, refl, ap, arith, ◌==◌,
  if◌then◌else◌, Bool-cases, inl, inr,
}
use failure_prediction.Dispatch.Queue.{
  Episode, Row, Campaign, Dispatcher, Claim, episode, cap_wait, stop, mem, attempted_keys, is_taken,
  take_episode, claim, Codes, attempt_codes, row_of, record_row,
}
use failure_prediction.Dispatch.Queue.Counting.{
  count, count_zero, count_pos, count-discard, count-attempted_keys,
}
use failure_prediction.Dispatch.Queue.Claiming.{
  Booked, claim-Booked, Landed, record_row-refuses, record_row-Landed,
}
use failure_prediction.Dispatch.Steps.{
  Flight, World, keys_of, running, after_claim, Step, claims, records, Reach, here, next, fresh,
}

-- The lists of the queue agree with the flights, and no key is in flight or in the ledger twice.
pub record IsExact (w : World) : Type 0 where
  pub once : (k : ℕ) → count k w.queue.in_flight + count k (attempted_keys w.queue.ledger) ≤ 1
  pub tracked : (k : ℕ) → count k w.queue.in_flight ≡ count k (keys_of w.flights)
  pub counted : (s : ℕ) → w.queue.in_flight_systems s ≡ running s w.flights

keys_of-append : (xs ys : List Flight) → keys_of (xs ++ ys) ≡ keys_of xs ++ keys_of ys
keys_of-append [] ys = refl
keys_of-append (x ∷ xs) ys = ap (λ t. x.flown.episode_key ∷ t) (keys_of-append xs ys)

-- The count over a list with one more element in the middle.
count-middle :
    (k : ℕ) (xs ys : List Flight) (f : Flight)
    → count k (keys_of (xs ++ f ∷ ys))
      ≡ count k (keys_of (xs ++ ys)) + (if k == f.flown.episode_key then 1 else 0)
count-middle k [] ys f = ground arith
count-middle k (x ∷ xs) ys f = ground (arith, count-middle k xs ys f)

running-middle :
    (s : ℕ) (xs ys : List Flight) (f : Flight)
    → running s (xs ++ f ∷ ys) ≡ running s (xs ++ ys) + (if s == f.flown.system then 1 else 0)
running-middle s [] ys f = ground arith
running-middle s (x ∷ xs) ys f = ground (arith, running-middle s xs ys f)

pub taken_counts :
    (d : Dispatcher) (e : Episode)
    → is_taken d e ≡ false
    → (count e.episode_key d.in_flight ≡ 0) × (count e.episode_key (attempted_keys d.ledger) ≡ 0)
unfolding is_taken
taken_counts d e h = ground (
  arith,
  count_zero e.episode_key d.in_flight,
  count_zero e.episode_key (attempted_keys d.ledger),
)

module _ (c : Campaign) where
  after_claim-IsExact :
      (slot : ℕ) (d : Dispatcher) (fs : List Flight) (r : Dispatcher × Claim)
      → Booked c d r
      → IsExact (record { queue = d; flights = fs })
      → IsExact (after_claim slot r fs)
  unfolding take_episode
  after_claim-IsExact slot d fs (d', episode e) (free, taken, open') h = rw taken record {
    once = λ k. ground (arith, h.once k, taken_counts d e free.untaken);
    tracked = λ k. ground (arith, h.tracked k);
    counted = λ s. ground (arith, h.counted s, h.counted e.system);
  }
  after_claim-IsExact slot d fs (d', cap_wait) same h = rw same h
  after_claim-IsExact slot d fs (d', stop) (l, i, s, p, halted) h = record {
    once = λ k. rw (l, i) (h.once k);
    tracked = λ k. rw i (h.tracked k);
    counted = λ k. rw s (h.counted k);
  }

  pub flying :
      (w : World) (before after : List Flight) (f : Flight)
      → w.flights ≡ before ++ f ∷ after
      → IsExact w
      → mem f.flown.episode_key w.queue.in_flight ≡ true
  flying w before after f e h = elim (Bool-cases (mem f.flown.episode_key w.queue.in_flight)) [
    | inl yes' ↦ yes'
    | inr no' ↦ absurd (
        ground (
          arith,
          count_zero f.flown.episode_key w.queue.in_flight,
          h.tracked f.flown.episode_key,
          count-middle f.flown.episode_key before after f,
        ))
  ]

  Landed-IsExact :
      (w : World) (before after : List Flight) (f : Flight) (codes : Codes) (d : Dispatcher)
      → w.flights ≡ before ++ f ∷ after
      → IsExact w
      → Landed f.flown f.slot codes w.queue d
      → IsExact (record { queue = d; flights = before ++ after })
  Landed-IsExact w before after f codes d e h (new, l, i, s, p) =
      let key = f.flown.episode_key in
      record {
        once = λ k.
            rw (i, l)
              (ground (
                arith,
                h.once k,
                count_zero key (attempted_keys w.queue.ledger) new,
                count-discard k key w.queue.in_flight,
                count-attempted_keys k w.queue.ledger (row_of f.flown f.slot codes),
              ));
        tracked = λ k. rw i (
            ground (
              arith,
              rw e at (h.tracked k),
              h.once key,
              count-discard k key w.queue.in_flight,
              count-middle k before after f,
            ));
        counted = λ k. rw s (
            ground (
              arith,
              rw e at (h.counted k),
              rw e at (h.counted f.flown.system),
              running-middle k before after f,
            ));
      }

  pub Step-IsExact : (w w' : World) → Step c w w' → IsExact w → IsExact w'
  Step-IsExact w w' (claims slot drain_marker free idle e) h = rw e (
      after_claim-IsExact slot w.queue w.flights (claim c drain_marker free w.queue)
        (claim-Booked c drain_marker free w.queue) h)
  Step-IsExact w w' (records before after f run validate d e r e') h = rw e' (
      Landed-IsExact w before after f (attempt_codes run validate) d e h (
        record_row-Landed c f.flown f.slot (attempt_codes run validate) w.queue d
          (flying w before after f e h) r))

  pub fresh-IsExact :
      (ledger : List Row) → ((k : ℕ) → count k (attempted_keys ledger) ≤ 1) → IsExact (fresh ledger)
  fresh-IsExact ledger h = record {
    once = λ k. omega (arith, h k);
    tracked = λ k. refl;
    counted = λ s. refl;
  }

  Reach-IsExact : {w w' : World} → IsExact w → Reach c w w' → IsExact w'
  Reach-IsExact h here = h
  Reach-IsExact h (next {v} {u} r s) = Step-IsExact v u s (Reach-IsExact h r)

  -- From a ledger without repeated keys, no interleaving of claims and records attempts an episode
  -- twice: each key stands at most once in the ledger and the flights together, the set of keys in
  -- flight is that of the flights, and each system's counter is its number of flights.
  pub exactly_once :
      (ledger : List Row) (w : World)
      → ((k : ℕ) → count k (attempted_keys ledger) ≤ 1)
      → Reach c (fresh ledger) w
      → IsExact w
  exactly_once ledger w h r = Reach-IsExact (fresh-IsExact ledger h) r

  -- In every reachable state the record of a running flight is accepted: the dispatcher never refuses
  -- a second row, and the worker that flew the episode does not die of it.
  pub record_row_accepts :
      (ledger : List Row) (w : World) (before after : List Flight) (f : Flight) (codes : Codes)
      → ((k : ℕ) → count k (attempted_keys ledger) ≤ 1)
      → Reach c (fresh ledger) w
      → w.flights ≡ before ++ f ∷ after
      → record_row c f.flown f.slot codes w.queue ≢ none
  record_row_accepts ledger w before after f codes h r e =
      let exact = exactly_once ledger w h r in
      let key = f.flown.episode_key in
      record_row-refuses c f.flown f.slot codes w.queue
        (elim (Bool-cases (mem key (attempted_keys w.queue.ledger))) [
          | inl old ↦ absurd (
              omega (
                arith,
                exact.once key,
                count_pos key w.queue.in_flight (flying w before after f e exact),
                count_pos key (attempted_keys w.queue.ledger) old,
              ))
          | inr new ↦ new
        ])
