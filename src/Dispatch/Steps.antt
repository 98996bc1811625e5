-- ===== src/Dispatch/Steps.antt =====
-- The worker threads of scripts/run_campaign_parallel.py as interleaved steps. Between its claim and
-- its record a worker runs its episode outside the lock: that is a flight of its slot. A slot claims
-- only when it has no flight. A worker that was told to wait or to stop has none either; that it
-- returns after a stop only leaves out steps that change nothing.
use failure_prediction.Prelude.{
  ℕ, Bool, false, Option, some, List, [], ◌∷◌, ◌++◌, ◌≡◌, ◌==◌, if◌then◌else◌, suc,
}
use failure_prediction.Dispatch.Queue.{
  Episode, Row, Campaign, Dispatcher, Claim, episode, cap_wait, stop, mem, claim, attempt_codes,
  record_row,
}

pub record Flight : Type 0 where
  pub slot : ℕ
  pub flown : Episode

pub record World : Type 0 where
  pub queue : Dispatcher
  pub flights : List Flight

abbrev pub keys_of : List Flight → List ℕ
keys_of [] = []
keys_of (f ∷ fs) = f.flown.episode_key ∷ keys_of fs

abbrev pub slots_of : List Flight → List ℕ
slots_of [] = []
slots_of (f ∷ fs) = f.slot ∷ slots_of fs

-- How many flights run an episode of a system.
abbrev pub running : ℕ → List Flight → ℕ
running system [] = 0
running system (f ∷ fs) =
    let rest = running system fs in if system == f.flown.system then suc rest else rest

-- What a worker does with the answer of `claim`.
abbrev pub after_claim : ℕ → Dispatcher × Claim → List Flight → World
after_claim slot (d, episode e) fs = record {
  queue = d;
  flights = (record { slot = slot; flown = e }) ∷ fs;
}
after_claim slot (d, cap_wait) fs = record { queue = d; flights = fs }
after_claim slot (d, stop) fs = record { queue = d; flights = fs }

-- `claims`: an idle slot claims, at any drain marker and free space. `records`: any flight ends, with
-- any result of its runner and of the validator, and its row is recorded.
pub data Step (c : Campaign) (w w' : World) : Type 0 where
  claims :
      (slot : ℕ) (drain_marker : Bool) (free : ℕ)
      → mem slot (slots_of w.flights) ≡ false
      → w' ≡ after_claim slot (claim c drain_marker free w.queue) w.flights
      → Step c w w'
  records :
      (before after : List Flight) (f : Flight) (run validate : Option ℕ) (d : Dispatcher)
      → w.flights ≡ before ++ f ∷ after
      → record_row c f.flown f.slot (attempt_codes run validate) w.queue ≡ some d
      → w' ≡ record { queue = d; flights = before ++ after }
      → Step c w w'

pub data Reach (c : Campaign) (w : World) : World → Type 0 where
  here : Reach c w w
  next : {v u : World} → Reach c w v → Step c v u → Reach c w u

-- A dispatcher as it is constructed over a ledger that may hold rows already.
abbrev pub fresh : List Row → World
fresh ledger = record {
  queue = record {
    ledger = ledger;
    in_flight = [];
    in_flight_systems = λ s. 0;
    peak_in_flight_systems = λ s. 0;
    stop_reason = Option.none;
    stopped = false;
    claimed = 0;
    recorded = 0;
    invalid = 0;
  };
  flights = [];
}
