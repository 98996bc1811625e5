-- ===== src/Recovery/Mission.antt =====
-- The end of a mission: `resumed_mission_terminal` of src/recovery/plumbing.py and the loop of
-- scripts/run_research2_episode.py that watches the goal. A tick holds what one round of the loop reads;
-- times are counted in a fixed unit. The counter of planning failures, the reason of an invalid episode
-- and the cancellations that go with an end are left out.
pub mod Newest
pub mod Success
mod Examples
use Prim.Native.String.{String}
use text.Mathlib.Text.{◌==◌ as str_eq}
use failure_prediction.Prelude.{
  ℕ, ◌+◌, Bool, true, false, not, Option, none, some, List, [], ◌∷◌, ◌&&◌, ◌||◌, ltb, leb, ◌==◌,
  if◌then◌else◌,
}

pub data Terminal : Type 0 where
  success planner_failure timeout collision invalid false_arrival : Terminal

pub record Goal : Type 0 where
  pub goal_id : String
  pub stamp : ℕ
  pub status : ℕ

abbrev pub goal_status_succeeded : ℕ
goal_status_succeeded = 4

abbrev pub goal_status_canceled : ℕ
goal_status_canceled = 5

abbrev pub goal_status_aborted : ℕ
goal_status_aborted = 6

unfoldable pub others : String → List Goal → List Goal
others own [] = []
others own (g ∷ gs) = let rest = others own gs in if str_eq g.goal_id own then rest else g ∷ rest

-- `max(others, key=...)`: the first of the goals with the largest stamp.
unfoldable pub newest_from : Goal → List Goal → Goal
newest_from best [] = best
newest_from best (g ∷ gs) = newest_from (if ltb best.stamp g.stamp then g else best) gs

unfoldable pub newest : List Goal → Option Goal
unfolding newest_from
newest [] = none
newest (g ∷ gs) = some (newest_from g gs)

unfoldable pub after_grace : ℕ → ℕ → ℕ → Option Terminal × ℕ
after_grace grace now last_activity =
    if leb (last_activity + grace) now then (some timeout, last_activity) else (none, last_activity)

abbrev is_active : ℕ → Bool
is_active status = status == 1 || status == 2 || status == 3

unfoldable pub verdict_of : Option Goal → ℕ → ℕ → ℕ → Option Terminal × ℕ
unfolding after_grace
verdict_of none grace now last_activity = after_grace grace now last_activity
verdict_of (some g) grace now last_activity =
    if is_active g.status
    then (none, now)
    else if g.status == goal_status_succeeded
    then (some success, now)
    else if g.status == goal_status_aborted
    then (some planner_failure, now)
    else after_grace grace now last_activity

unfoldable pub resumed_mission_terminal : List Goal → String → ℕ → ℕ → ℕ → Option Terminal × ℕ
unfolding others newest verdict_of
resumed_mission_terminal statuses own now last_activity grace =
    verdict_of (newest (others own statuses)) grace now last_activity

-- `result` is the status of the own goal once its future is done.
pub record Tick : Type 0 where
  pub wall : ℕ
  pub collided : Bool
  pub statuses : List Goal
  pub result : Option ℕ
  pub now : ℕ

pub record Setup : Type 0 where
  pub own_goal_id : String
  pub start_wall : ℕ
  pub timeout_s : ℕ
  pub grace_seconds : ℕ
  pub faulted : Bool
  pub clean_prefix_seconds : ℕ
  pub live_execution : Bool

pub data Round : Type 0 where
  ends : Terminal → Round
  continues : Option ℕ → Round

abbrev pub resumed_round : Option Terminal × ℕ → Round
resumed_round (none, last_activity) = continues (some last_activity)
resumed_round (some terminal, last_activity) = ends terminal

abbrev pub own_round : Setup → ℕ → Option ℕ → Round
own_round s now none = continues none
own_round s now (some status) =
    if status == goal_status_succeeded
    then ends success
    else if status == goal_status_aborted
    then if s.faulted && ltb now (s.start_wall + s.clean_prefix_seconds)
      then ends invalid
      else ends planner_failure
    else if status == goal_status_canceled && s.live_execution
    then continues (some now)
    else ends timeout

unfoldable pub followed : Setup → Option ℕ → Tick → Round
unfolding resumed_mission_terminal
followed s none t = own_round s t.now t.result
followed s (some last_activity) t =
    resumed_round
      (resumed_mission_terminal t.statuses s.own_goal_id t.now last_activity s.grace_seconds)

-- One round of the loop, its condition included.
unfoldable pub round : Setup → Option ℕ → Tick → Round
unfolding followed
round s resumed t =
    if leb (s.start_wall + s.timeout_s) t.wall
    then ends timeout
    else if t.collided
    then ends collision
    else followed s resumed t

-- `none` while the loop still runs.
unfoldable pub watch : Setup → Option ℕ → List Tick → Option Terminal
unfolding round
watch s resumed [] = none
watch s resumed (t ∷ ts) = elim (round s resumed t) [
  | ends terminal ↦ some terminal
  | continues resumed' ↦ watch s resumed' ts
]

-- The reported success and terminal state, from the terminal of the loop.
unfoldable pub classify : Terminal → ℕ → ℕ → Bool → Bool × Terminal
classify success distance tolerance collided =
    if leb distance tolerance
    then if collided then (false, collision) else (true, success)
    else (false, false_arrival)
classify planner_failure distance tolerance collided = (false, planner_failure)
classify timeout distance tolerance collided = (false, timeout)
classify collision distance tolerance collided = (false, collision)
classify invalid distance tolerance collided = (false, invalid)
classify false_arrival distance tolerance collided = (false, false_arrival)
