-- ===== src/Recovery/Verification/Grid.antt =====
-- The grid of src/recovery/verification.py stands for every state.
use failure_prediction.Prelude.{
  ℕ, ◌-◌, Bool, true, false, Option, none, some, ◌≡◌, ◌≢◌, refl, ap, ◌∙◌, arith, leb, if◌then◌else◌,
  Among, Among-for_each, inl, inr, if_either, ◌&&◌,
}
use failure_prediction.Prelude.Result.{ok}
use failure_prediction.Recovery.Types.{
  Action, controlled_stop, relocalise, replan_clear_costmaps, backup, spin_active_rescan, wait,
  request_assistance, needs_rear_clearance, needs_rotation_clearance, GuardConfig, RobotState,
}
use failure_prediction.Recovery.Guards.{
  validate_guards, verified, budget_exhausted, exhausted_guards, condition_guards, guard_table,
}
use failure_prediction.Recovery.Verification.{bools, clearances, counts, state_space}

-- The clearance of the grid that the guard treats in the same way.
abbrev grid_clearance : ℕ → ℕ → Option ℕ → Option ℕ
grid_clearance hundredth minimum none = none
grid_clearance hundredth minimum (some x) =
    if leb minimum x then some minimum else some (minimum - hundredth)

abbrev grid_count : ℕ → ℕ → ℕ
grid_count maximum count = if leb maximum count then maximum else 0

abbrev representative : ℕ → GuardConfig → RobotState → RobotState
representative hundredth c s = record {
  stopped = s.stopped;
  stop_allowed = s.stop_allowed;
  localisation_poor = s.localisation_poor;
  planning_stale_or_blocked = s.planning_stale_or_blocked;
  rear_clearance_m = grid_clearance hundredth c.minimum_rear_clearance_m s.rear_clearance_m;
  rotation_clearance_m =
      grid_clearance hundredth c.minimum_rotation_clearance_m s.rotation_clearance_m;
  immediate_collision_risk = s.immediate_collision_risk;
  obstruction_may_be_transient = s.obstruction_may_be_transient;
  relocalisation_available = s.relocalisation_available;
  repeated_recovery_count = grid_count c.maximum_repeated_recoveries s.repeated_recovery_count;
}

Among-bools : (b : Bool) → Among b bools
Among-bools false = inl refl
Among-bools true = inr (inl refl)

Among-clearances :
    (hundredth minimum : ℕ) (x : Option ℕ)
    → Among (grid_clearance hundredth minimum x) (clearances hundredth minimum)
Among-clearances hundredth minimum none = inl refl
Among-clearances hundredth minimum (some x) =
    if_either (λ o. Among o (clearances hundredth minimum)) (leb minimum x)
      (λ _. inr (inr (inl refl))) (λ _. inr (inl refl))

Among-counts : (maximum n : ℕ) → Among (grid_count maximum n) (counts maximum)
Among-counts maximum n =
    if_either (λ o. Among o (counts maximum)) (leb maximum n) (λ _. inr (inr (inl refl)))
      (λ _. inl refl)

verified-grid :
    (hundredth minimum : ℕ) (x : Option ℕ)
    → minimum ≢ 0
    → hundredth ≢ 0
    → verified (grid_clearance hundredth minimum x) minimum ≡ verified x minimum
verified-grid hundredth minimum none m h = refl
verified-grid hundredth minimum (some x) m h = ground arith

exhausted_grid : (maximum n : ℕ) → leb maximum (grid_count maximum n) ≡ leb maximum n
exhausted_grid maximum n = ground arith

representative-Among :
    (hundredth : ℕ) (c : GuardConfig) (s : RobotState)
    → Among (representative hundredth c s) (state_space hundredth c)
unfolding state_space
representative-Among hundredth c s = Among-for_each s.stopped _ bools _ (Among-bools s.stopped) (
    Among-for_each s.stop_allowed _ bools _ (Among-bools s.stop_allowed) (
      Among-for_each s.localisation_poor _ bools _ (Among-bools s.localisation_poor) (
        Among-for_each s.planning_stale_or_blocked _ bools _
          (Among-bools s.planning_stale_or_blocked)
          (Among-for_each _ _ (clearances hundredth c.minimum_rear_clearance_m) _
            (Among-clearances hundredth c.minimum_rear_clearance_m s.rear_clearance_m)
            (Among-for_each _ _ (clearances hundredth c.minimum_rotation_clearance_m) _
              (Among-clearances hundredth c.minimum_rotation_clearance_m s.rotation_clearance_m)
              (Among-for_each s.immediate_collision_risk _ bools _
                (Among-bools s.immediate_collision_risk)
                (Among-for_each s.obstruction_may_be_transient _ bools _
                  (Among-bools s.obstruction_may_be_transient)
                  (Among-for_each s.relocalisation_available _ bools _
                    (Among-bools s.relocalisation_available)
                    (Among-for_each _ _ (counts c.maximum_repeated_recoveries) _
                      (Among-counts c.maximum_repeated_recoveries s.repeated_recovery_count)
                      (inl refl))))))))))

positive_minima :
    (c : GuardConfig)
    → validate_guards c ≡ ok tt
    → (c.minimum_rear_clearance_m ≢ 0) × (c.minimum_rotation_clearance_m ≢ 0)
unfolding validate_guards
positive_minima c v = (ground arith, ground arith)

condition_guards-representative :
    (hundredth : ℕ) (c : GuardConfig) (s : RobotState) (a : Action)
    → validate_guards c ≡ ok tt
    → hundredth ≢ 0
    → condition_guards (representative hundredth c s) c a ≡ condition_guards s c a
unfolding condition_guards
condition_guards-representative hundredth c s controlled_stop v h = refl
condition_guards-representative hundredth c s relocalise v h = refl
condition_guards-representative hundredth c s replan_clear_costmaps v h = refl
condition_guards-representative hundredth c s backup v h =
    ap (λ b. record { eligible = s.stopped && b; reason = needs_rear_clearance })
      (verified-grid hundredth c.minimum_rear_clearance_m s.rear_clearance_m (positive_minima c v).0
        h)
condition_guards-representative hundredth c s spin_active_rescan v h =
    ap (λ b. record { eligible = s.stopped && b; reason = needs_rotation_clearance })
      (verified-grid hundredth c.minimum_rotation_clearance_m s.rotation_clearance_m
        (positive_minima c v).1 h)
condition_guards-representative hundredth c s wait v h = refl
condition_guards-representative hundredth c s request_assistance v h = refl

guard_table-representative :
    (hundredth : ℕ) (c : GuardConfig) (s : RobotState) (a : Action)
    → validate_guards c ≡ ok tt
    → hundredth ≢ 0
    → guard_table (representative hundredth c s) c a ≡ guard_table s c a
unfolding guard_table
guard_table-representative hundredth c s a v h =
    let g = representative hundredth c s in
    ap (λ b. if b then exhausted_guards a else condition_guards g c a)
      (exhausted_grid c.maximum_repeated_recoveries s.repeated_recovery_count)
    ∙ ap (λ x. if budget_exhausted s c then exhausted_guards a else x)
        (condition_guards-representative hundredth c s a v h)

-- Under a valid configuration every state, of any clearances and any number of recoveries, has a state of
-- the grid for which the guard answers the same for every action: the exhaustive check leaves none out.
pub state_space_covers :
    (hundredth : ℕ) (c : GuardConfig) (s : RobotState)
    → validate_guards c ≡ ok tt
    → hundredth ≢ 0
    → (g : RobotState) × Among g (state_space hundredth c)
      × ((a : Action) → guard_table g c a ≡ guard_table s c a)
state_space_covers hundredth c s v h = (
  representative hundredth c s,
  representative-Among hundredth c s,
  λ a. guard_table-representative hundredth c s a v h,
)
