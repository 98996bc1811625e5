-- ===== src/Dispatch/Queue.antt =====
-- `ParallelDispatcher` of scripts/run_campaign_parallel.py: its state, `claim` and `record`, each of
-- which holds the claims lock from end to end. Episode keys are only compared, and a system id is
-- "s" before a number: both are numbers here. A return code is compared with 0 alone.
pub mod Counting
pub mod Claiming
use failure_prediction.Prelude.{
  ℕ, ◌+◌, ◌-◌, max, Bool, true, false, not, Option, none, some, List, [], ◌∷◌, ◌++◌, ◌||◌, ◌&&◌,
  leb, ltb, ◌==◌, if◌then◌else◌, map,
}

pub record Episode : Type 0 where
  pub episode_key : ℕ
  pub system : ℕ

-- A ledger row: the worker's codes and what `record` adds to them.
pub record Row : Type 0 where
  pub episode_key : ℕ
  pub system : ℕ
  pub returncode : ℕ
  pub episode_returncode : ℕ
  pub artifact_validation_returncode : Option ℕ
  pub worker_slot : ℕ

pub data StopReason : Type 0 where
  claim_limit_reached drain_requested free_space_reserve_reached systems_drained : StopReason
  queue_exhausted : StopReason
  invalid_episode : ℕ → StopReason

-- What the constructor is given; caps and the phase filter as it normalises them.
pub record Campaign : Type 0 where
  pub episodes : List Episode
  pub system_concurrency : ℕ → Option ℕ
  pub systems : Option (List ℕ)
  pub max_claims : Option ℕ
  pub minimum_free_bytes : ℕ
  pub stop_on_first_invalid : Bool
  pub wave_size : ℕ

-- The mutable attributes; `ledger` is the content of the ledger file, oldest row first.
pub record Dispatcher : Type 0 where
  pub ledger : List Row
  pub in_flight : List ℕ
  pub in_flight_systems : ℕ → ℕ
  pub peak_in_flight_systems : ℕ → ℕ
  pub stop_reason : Option StopReason
  pub stopped : Bool
  pub claimed : ℕ
  pub recorded : ℕ
  pub invalid : ℕ

abbrev pub mem : ℕ → List ℕ → Bool
mem k [] = false
mem k (x ∷ xs) = k == x || mem k xs

-- `attempted_keys(self.ledger)`
abbrev pub attempted_keys : List Row → List ℕ
attempted_keys [] = []
attempted_keys (r ∷ rs) = r.episode_key ∷ attempted_keys rs

-- `d[k] = v` on a dictionary whose missing values read as 0.
abbrev pub update : (ℕ → ℕ) → ℕ → ℕ → ℕ → ℕ
update f k v j = if j == k then v else f j

-- `set.discard`
abbrev pub discard : ℕ → List ℕ → List ℕ
discard k [] = []
discard k (x ∷ xs) = let rest = discard k xs in if k == x then rest else x ∷ rest

-- `_cap_blocked`
abbrev pub at_cap : Option ℕ → ℕ → Bool
at_cap none running = false
at_cap (some cap) running = leb cap running

unfoldable pub cap_blocked : Campaign → Dispatcher → Episode → Bool
cap_blocked c d e = at_cap (c.system_concurrency e.system) (d.in_flight_systems e.system)

-- `_outside_phase`
abbrev pub outside : Option (List ℕ) → ℕ → Bool
outside none system = false
outside (some systems) system = not (mem system systems)

unfoldable pub outside_phase : Campaign → Episode → Bool
outside_phase c e = outside c.systems e.system

-- `_stop_with`: the first reason stays.
unfoldable pub stop_with : StopReason → Dispatcher → Dispatcher
stop_with reason d = if d.stopped then d else record d { stop_reason = some reason; stopped = true }

-- The search of `claim` through the episodes, with its flags `blocked` and `deferred`.
pub data Scan : Type 0 where
  found : Episode → Scan
  nothing : Bool → Bool → Scan

unfoldable pub is_taken : Dispatcher → Episode → Bool
is_taken d e = mem e.episode_key (attempted_keys d.ledger) || mem e.episode_key d.in_flight

unfoldable pub scan : Campaign → Dispatcher → List Episode → Bool → Bool → Scan
scan c d [] blocked deferred = nothing blocked deferred
scan c d (e ∷ es) blocked deferred =
    let taken = scan c d es blocked deferred in
    let deferring = scan c d es blocked true in
    let blocking = scan c d es true deferred in
    if is_taken d e
    then taken
    else if outside_phase c e
    then deferring
    else if cap_blocked c d e
    then blocking
    else found e

pub data Claim : Type 0 where
  episode : Episode → Claim
  cap_wait stop : Claim

-- The bookkeeping of a successful claim.
unfoldable pub take_episode : Episode → Dispatcher → Dispatcher
take_episode e d =
    let running = d.in_flight_systems e.system + 1 in
    record d {
      in_flight = e.episode_key ∷ d.in_flight;
      in_flight_systems = update d.in_flight_systems e.system running;
      peak_in_flight_systems =
          update d.peak_in_flight_systems e.system
            (max running (d.peak_in_flight_systems e.system));
      claimed = d.claimed + 1;
    }

-- What `claim` does with the outcome of its search.
unfoldable pub claim_found : Scan → Dispatcher → Dispatcher × Claim
unfolding take_episode stop_with
claim_found (found e) d = (take_episode e d, episode e)
claim_found (nothing true deferred) d = (d, cap_wait)
claim_found (nothing false true) d = (stop_with systems_drained d, stop)
claim_found (nothing false false) d = (stop_with queue_exhausted d, stop)

abbrev pub limit_reached : Option ℕ → ℕ → Bool
limit_reached none claimed = false
limit_reached (some m) claimed = leb m claimed

-- `claim`; the drain marker and the free space are read from the file system at each call.
unfoldable pub claim : Campaign → Bool → ℕ → Dispatcher → Dispatcher × Claim
unfolding stop_with
claim c drain_marker free d =
    if d.stopped
    then (d, stop)
    else if limit_reached c.max_claims d.claimed
    then (stop_with claim_limit_reached d, stop)
    else if drain_marker
    then (stop_with drain_requested d, stop)
    else if ltb free c.minimum_free_bytes
    then (stop_with free_space_reserve_reached d, stop)
    else claim_found (scan c d c.episodes false false) d

-- The codes of one attempt: the runner's and the validator's, `none` where the call raised.
pub record Codes : Type 0 where
  pub returncode : ℕ
  pub episode_returncode : ℕ
  pub artifact_validation_returncode : Option ℕ

abbrev pub or_code : Option ℕ → ℕ → ℕ
or_code none crash = crash
or_code (some rc) crash = rc

abbrev or_else : ℕ → ℕ → ℕ
or_else a b = if a == 0 then b else a

-- The body of `_worker` between `claim` and `record`.
unfoldable pub attempt_codes : Option ℕ → Option ℕ → Codes
attempt_codes run validate =
    let episode_rc = or_code run 70 in
    let artifact_rc = if episode_rc == 0 then some (or_code validate 71) else none in
    record {
      returncode = or_else episode_rc (or_code artifact_rc 0);
      episode_returncode = episode_rc;
      artifact_validation_returncode = artifact_rc;
    }

abbrev pub row_of : Episode → ℕ → Codes → Row
row_of e slot c = record {
  episode_key = e.episode_key;
  system = e.system;
  returncode = c.returncode;
  episode_returncode = c.episode_returncode;
  artifact_validation_returncode = c.artifact_validation_returncode;
  worker_slot = slot;
}

-- `if key in self._in_flight: …`
unfoldable pub release : Episode → Dispatcher → Dispatcher
release e d =
    if mem e.episode_key d.in_flight
    then record d {
      in_flight = discard e.episode_key d.in_flight;
      in_flight_systems = update d.in_flight_systems e.system (d.in_flight_systems e.system - 1);
    }
    else d

unfoldable pub count_invalid : Campaign → Episode → Codes → Dispatcher → Dispatcher
unfolding stop_with
count_invalid c e codes d =
    if codes.returncode == 0
    then d
    else let d' = record d { invalid = d.invalid + 1 } in
      if c.stop_on_first_invalid then stop_with (invalid_episode e.episode_key) d' else d'

abbrev append_ledger : Row → Dispatcher → Dispatcher
append_ledger r d = record d { ledger = d.ledger ++ r ∷ [] }

abbrev count_recorded : Dispatcher → Dispatcher
count_recorded d = record d { recorded = d.recorded + 1 }

-- `record`; `none` is its refusal of a second row.
unfoldable pub record_row : Campaign → Episode → ℕ → Codes → Dispatcher → Option Dispatcher
unfolding release count_invalid
record_row c e slot codes d =
    if mem e.episode_key (attempted_keys d.ledger)
    then none
    else some (
        count_invalid c e codes
          (count_recorded (release e (append_ledger (row_of e slot codes) d))))
