-- ===== src/Dispatch/Examples.antt =====
-- Tests and concrete runs for the campaign dispatcher.
use failure_prediction.Prelude.{
  ℕ, Bool, true, false, none, some, List, [], ◌∷◌, ◌≡◌, ◌≢◌, refl, ◌≤◌, All, arith, ◌==◌,
  if◌then◌else◌,
}
use failure_prediction.Dispatch.Queue.{
  Episode, Row, Campaign, cap_wait, systems_drained, scan, is_taken, outside_phase, cap_blocked,
  take_episode, stop_with, claim, claim_found, attempt_codes, row_of, release, count_invalid,
  record_row,
}
use failure_prediction.Dispatch.Steps.{
  Flight, World, running, after_claim, claims, records, Reach, here, next, fresh,
}
use failure_prediction.Dispatch.Exactly.{IsExact, exactly_once}
use failure_prediction.Dispatch.Caps.{within_caps}
use failure_prediction.Dispatch.Phase.{KeepsPhase, phase_kept}
use failure_prediction.Dispatch.Drain.{Done}
use failure_prediction.Dispatch.Ends.{Reach-Ended}
use failure_prediction.Dispatch.Outcome.{Accounts, accounts, returncode}
use failure_prediction.Dispatch.Waves.{finalize_calls, no_waves}
use failure_prediction.Dispatch.Waves.Reported.{IsReported, waves-IsReported}

abbrev run_of : ℕ → ℕ → Episode
run_of key system = record { episode_key = key; system = system }

-- Two episodes of a system that runs one at a time, and one that the phase leaves out.
abbrev campaign : Campaign
campaign = record {
  episodes = run_of 1 7 ∷ run_of 2 7 ∷ run_of 3 8 ∷ [];
  system_concurrency = λ s. if s == 7 then some 1 else none;
  systems = some (7 ∷ []);
  max_claims = none;
  minimum_free_bytes = 100;
  stop_on_first_invalid = true;
  wave_size = 2;
}

abbrev claim_in : ℕ → World → World
claim_in slot w = after_claim slot (claim campaign false 500 w.queue) w.flights

abbrev flight_of : ℕ → Episode → Flight
flight_of slot e = record { slot = slot; flown = e }

-- The world after the only flight has landed, with a runner and a validator that return `code`.
abbrev land : ℕ → Flight → World → World
land code f w =
    elim (record_row campaign f.flown f.slot (attempt_codes (some code) (some code)) w.queue) [
      | none ↦ w
      | some d ↦ record { queue = d; flights = [] }
    ]

abbrev one_flight : World
one_flight = claim_in 0 (fresh [])

abbrev one_row : World
one_row = land 0 (flight_of 0 (run_of 1 7)) one_flight

abbrev next_flight : World
next_flight = claim_in 1 one_row

abbrev two_rows : World
two_rows = land 0 (flight_of 1 (run_of 2 7)) next_flight

-- Nothing of the phase is left: the run stops.
abbrev ended : World
ended = claim_in 1 two_rows

one_flight-Reach : Reach campaign (fresh []) one_flight
one_flight-Reach = next here (claims 0 false 500 refl refl)

lands :
    record_row campaign (run_of 1 7) 0 (attempt_codes (some 0) (some 0)) one_flight.queue
    ≡ some one_row.queue
unfolding claim claim_found scan is_taken outside_phase cap_blocked take_episode stop_with
    record_row release count_invalid attempt_codes
lands = refl

one_row-Reach : Reach campaign (fresh []) one_row
unfolding claim claim_found scan is_taken outside_phase cap_blocked take_episode stop_with
    record_row release count_invalid attempt_codes
one_row-Reach =
    next one_flight-Reach
      (records [] [] (flight_of 0 (run_of 1 7)) (some 0) (some 0) one_row.queue refl lands refl)

next_flight-Reach : Reach campaign (fresh []) next_flight
unfolding claim claim_found scan is_taken outside_phase cap_blocked take_episode stop_with
    record_row release count_invalid attempt_codes
next_flight-Reach = next one_row-Reach (claims 1 false 500 refl refl)

two_rows-Reach : Reach campaign (fresh []) two_rows
unfolding claim claim_found scan is_taken outside_phase cap_blocked take_episode stop_with
    record_row release count_invalid attempt_codes
two_rows-Reach =
    next next_flight-Reach
      (records [] [] (flight_of 1 (run_of 2 7)) (some 0) (some 0) two_rows.queue refl refl refl)

ended-Reach : Reach campaign (fresh []) ended
unfolding claim claim_found scan is_taken outside_phase cap_blocked take_episode stop_with
    record_row release count_invalid attempt_codes
ended-Reach = next two_rows-Reach (claims 1 false 500 refl refl)

exactly_once_example : IsExact next_flight
exactly_once_example = exactly_once campaign [] next_flight (λ k. omega arith) next_flight-Reach

next_flight_up : next_flight.flights ≡ flight_of 1 (run_of 2 7) ∷ []
unfolding claim claim_found scan is_taken outside_phase cap_blocked take_episode stop_with
    record_row release count_invalid attempt_codes
next_flight_up = refl

within_caps_example :
    (running 7 next_flight.flights ≤ 1) × (next_flight.queue.peak_in_flight_systems 7 ≤ 1)
within_caps_example =
    within_caps campaign [] next_flight 7 1 (λ k. omega arith) next_flight-Reach refl

phase_kept_example : KeepsPhase campaign [] next_flight
phase_kept_example = phase_kept campaign [] next_flight (λ k. omega arith) next_flight-Reach

ends_drained : ended.queue.stop_reason ≡ some systems_drained
unfolding claim claim_found scan is_taken outside_phase cap_blocked take_episode stop_with
    record_row release count_invalid attempt_codes
ends_drained = refl

Reach-Ended_example : All (Done campaign ended.queue true) campaign.episodes
Reach-Ended_example = Reach-Ended campaign [] ended true (λ k. omega arith) ended-Reach ends_drained

caps_positive : (s cap : ℕ) → campaign.system_concurrency s ≡ some cap → 1 ≤ cap
caps_positive s cap h = ground arith

second_waits : (claim campaign false 500 one_flight.queue).1 ≡ cap_wait
unfolding claim claim_found scan is_taken outside_phase cap_blocked take_episode stop_with
    record_row release count_invalid attempt_codes
second_waits = refl

accounts_example : Accounts [] next_flight
accounts_example = accounts campaign [] next_flight next_flight-Reach

ended_well : returncode ended.queue ≡ 0
unfolding claim claim_found scan is_taken outside_phase cap_blocked take_episode stop_with
    record_row release count_invalid attempt_codes returncode
ended_well = refl

-- The first episode ends with code 3, and a slot asks for more.
abbrev failed : World
failed = land 3 (flight_of 0 (run_of 1 7)) one_flight

abbrev after_failed : World
after_failed = claim_in 0 failed

code_three : (attempt_codes (some 3) (some 3)).returncode ≢ 0
unfolding attempt_codes
code_three = λ h. omega (arith, h)

lands_failed :
    record_row campaign (run_of 1 7) 0 (attempt_codes (some 3) (some 3)) one_flight.queue
    ≡ some failed.queue
unfolding claim claim_found scan is_taken outside_phase cap_blocked take_episode stop_with
    record_row release count_invalid attempt_codes
lands_failed = refl

after_failed-Reach : Reach campaign (record { queue = failed.queue; flights = [] }) after_failed
unfolding claim claim_found scan is_taken outside_phase cap_blocked take_episode stop_with
    record_row release count_invalid attempt_codes
after_failed-Reach = next here (claims 0 false 500 refl refl)

abbrev rows : List Row
rows =
    row_of (run_of 1 7) 0 (attempt_codes (some 0) (some 0))
    ∷ row_of (run_of 2 7) 1 (attempt_codes (some 0) (some 0))
    ∷ row_of (run_of 3 7) 1 (attempt_codes (some 0) none)
    ∷ []

-- The second wave's reports fail.
abbrev first_only : ℕ → Bool
first_only wave = wave == 1

waves-IsReported_example :
    IsReported first_only (finalize_calls (some first_only) 2 ([] ∷ rows ∷ rows ∷ []) no_waves)
waves-IsReported_example = waves-IsReported first_only 2 ([] ∷ rows ∷ rows ∷ [])
