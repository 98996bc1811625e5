-- ===== src/Dispatch/Queue/Claiming.antt =====
-- What a claim and a record do to the queue (scripts/run_campaign_parallel.py).
use failure_prediction.Prelude.{
  ℕ, ◌-◌, Bool, true, false, none, some, List, [], ◌∷◌, ◌++◌, ◌≡◌, refl, ◌≢◌, ltb, if_either, arith,
}
use failure_prediction.Dispatch.Queue.{
  Episode, Campaign, Dispatcher, mem, attempted_keys, cap_blocked, outside_phase, Scan, found,
  nothing, is_taken, scan, Claim, episode, cap_wait, stop, take_episode, claim_found, limit_reached,
  claim, Codes, row_of, discard, update, record_row,
}

-- An episode that `claim` may hand out.
pub record IsFree (c : Campaign) (d : Dispatcher) (e : Episode) : Type 0 where
  pub untaken : is_taken d e ≡ false
  pub in_phase : outside_phase c e ≡ false
  pub uncapped : cap_blocked c d e ≡ false

pub scan-IsFree :
    (c : Campaign) (d : Dispatcher) (es : List Episode) (b f : Bool) (e : Episode)
    → scan c d es b f ≡ found e
    → IsFree c d e
unfolding scan
scan-IsFree c d [] b f e h = ground arith
scan-IsFree c d (x ∷ es) b f e h =
    ground
      (arith, scan-IsFree c d es b f e, scan-IsFree c d es b true e, scan-IsFree c d es true f e)

-- A claim hands out a free episode and books it, or leaves the ledger and the flights alone.
abbrev pub Booked : Campaign → Dispatcher → Dispatcher × Claim → Type 0
Booked c d (d', episode e) = IsFree c d e × (d' ≡ take_episode e d) × (d.stopped ≡ false)
Booked c d (d', cap_wait) = d' ≡ d
Booked c d (d', stop) =
    (d'.ledger ≡ d.ledger)
    × (d'.in_flight ≡ d.in_flight)
    × (d'.in_flight_systems ≡ d.in_flight_systems)
    × (d'.peak_in_flight_systems ≡ d.peak_in_flight_systems)
    × (d'.stopped ≡ true)

claim_found-Booked :
    (c : Campaign) (d : Dispatcher) (o : Scan)
    → d.stopped ≡ false
    → ((e : Episode) → o ≡ found e → IsFree c d e)
    → Booked c d (claim_found o d)
unfolding claim_found
claim_found-Booked c d (found e) open' free = (free e refl, refl, open')
claim_found-Booked c d (nothing true deferred) open' free = refl
claim_found-Booked c d (nothing false true) open' free = ground arith
claim_found-Booked c d (nothing false false) open' free = ground arith

pub claim-Booked :
    (c : Campaign) (drain_marker : Bool) (free : ℕ) (d : Dispatcher)
    → Booked c d (claim c drain_marker free d)
unfolding claim
claim-Booked c drain_marker free d =
    if_either (Booked c d) d.stopped (λ halted. (refl, refl, refl, refl, halted))
      λ open'.
        if_either (Booked c d) (limit_reached c.max_claims d.claimed) (λ _. ground arith)
          λ _.
            if_either (Booked c d) drain_marker (λ _. ground arith)
              λ _.
                if_either (Booked c d) (ltb free c.minimum_free_bytes) (λ _. ground arith)
                  λ _.
                    claim_found-Booked c d (scan c d c.episodes false false) open'
                      (λ e p. scan-IsFree c d c.episodes false false e p)

pub record_row-refuses :
    (c : Campaign) (e : Episode) (slot : ℕ) (codes : Codes) (d : Dispatcher)
    → mem e.episode_key (attempted_keys d.ledger) ≡ false
    → record_row c e slot codes d ≢ none
unfolding record_row
record_row-refuses c e slot codes d h = ground arith

-- What a record changes when the episode is in flight.
abbrev pub Landed : Episode → ℕ → Codes → Dispatcher → Dispatcher → Type 0
Landed e slot codes d d' =
    (mem e.episode_key (attempted_keys d.ledger) ≡ false)
    × (d'.ledger ≡ d.ledger ++ row_of e slot codes ∷ [])
    × (d'.in_flight ≡ discard e.episode_key d.in_flight)
    × (d'.in_flight_systems
        ≡ update d.in_flight_systems e.system (d.in_flight_systems e.system - 1))
    × (d'.peak_in_flight_systems ≡ d.peak_in_flight_systems)

pub record_row-Landed :
    (c : Campaign) (e : Episode) (slot : ℕ) (codes : Codes) (d d' : Dispatcher)
    → mem e.episode_key d.in_flight ≡ true
    → record_row c e slot codes d ≡ some d'
    → Landed e slot codes d d'
unfolding record_row
record_row-Landed c e slot codes d d' flying h = ground arith
