-- ===== src/Lib.antt =====
-- The parts of failure-prediction that decide and act, as executable definitions with proofs.
--
-- A robot's online monitor scores the risk of a navigation failure; an alarm policy turns scores into
-- warnings; a recovery manager answers a warning with one bounded action that an independent guard
-- admits; and a dispatcher runs campaigns of simulated episodes on parallel workers. The parts:
--
--   Recovery          src/recovery/{guards,selector,manager}.py and ros_ws/src/recovery_manager:
--     Types           actions, guard inputs, policies and exceptions of src/recovery
--     Guards          `GuardConfig.validate`, `eligible_actions`; Permitted: a condition for each
--     Selector        `rule_matched_action`, `select_lowest_cost`; Cheapest: lemmas on the minimum
--     Manager         `RecoveryRequest.validate`, `decide_recovery`; Authority: what decisions satisfy
--     Execution       `LiveExecutor` (live_execution.py); Sequence: what it sends to the commander
--     Node            `_receive` and `handle_request` (node.py); Budget, Once, Stop: runs of messages
--     Costs           `CostWeights`, `cost_breakdown`, `observed_cost` (src/recovery/costs.py);
--                     Dominance: their order and bounds
--     Mission         `resumed_mission_terminal` (src/recovery/plumbing.py) and the loop of
--                     scripts/run_research2_episode.py; Newest, Success: what a success
--                     stands for
--     Verification    `state_space`, `verify_guard_space` (src/recovery/verification.py); Passes,
--                     Grid: its outcome, and that the grid stands for all states
--   Campaign          src/experiments/campaigns.py:
--     Expansion       `expand_balanced_pilot`; Apart, Seeds: that no two episodes share a seed
--     Pairing         `targeted_execution_order`, `expand_recovery_policies` and `campaign_episodes`
--                     (src/experiments/recovery_campaigns.py); Ordered, Paired: their episodes
--     Documents, Phases, Admission   YAML values, `phased_execution_findings` and
--                     `validate_parallel_execution_admission`; Within, Admitted: what no finding means
--   Dispatch          `ParallelDispatcher` of scripts/run_campaign_parallel.py:
--     Queue           its attributes, `claim`, `record`, `_stop_with`, the codes of `_worker`
--     Steps           the workers as steps between which other workers' steps may come
--     Exactly, Caps, Phase, Drain, Ends   invariants of the reachable states
--     Waves           `_finalize_complete_waves`; Reported: which waves it lists
--     Outcome         `DispatchResult.returncode` and the counters
--     Limits          `resolve_system_concurrency`; Strictest: its caps against each source
--   Alarm             src/evaluation/policy.py:
--     Policy          `AlarmPolicy`, `apply_alarm_policy`, and `Scorer.score` of
--                     ros_ws/src/failure_monitor/failure_monitor/monitor_core.py
--     Metrics         `evaluate_event_warnings` (src/evaluation/event_metrics.py)
--     Selection       `select_validation_threshold`; Candidates, Best, Optimal: the candidates against
--                     all thresholds, the ranking, and the selected threshold
--     Cooldown, Window, Replay   lemmas on the times of alarms, the bounded history and the replay
--   Labels            src/labels/causal_windows.py and src/labels/operational_events.py:
--     Windows         `LabelConfig.validate`, `_decision_times`, `_primary_terminal_event` and
--                     `label_decision_times`; Times, Judged, Primary: lemmas on each
--     Operational     `first_localisation_loss`; Evidence, Clocks, First: the samples behind it
--     Motion          `first_immobilisation`; Held: the samples behind it
--     Precedence      `first_unsafe_perception`, `first_primary_event`; Earliest: the choice
--   Monitor           src/features/causal.py and the failure_monitor package (monitor_core.py):
--     Causal          `extract_decision_rows`; Newest: the sample that a decision sees
--     Buffer          `SampleBuffer`; Drops, Sorted: lemmas on pruned and on growing series
--     Stream          the raw rows of `WindowBuilder`; Offline: against the offline extraction
--     State           `estimate_robot_state`; Fresh: against the guard
--     Core            `MonitorCore.step`, `due_grid_times`; Replayed, Numbered: runs of steps
--   ResearchLog       scripts/research_log.py: the log, `verify`, `append_record`, `main`; Dict: its
--                     dictionaries; Chain, Appended, Tampered: the chain of hashes
--   Protected         src/protected_data.py: `enforce_protected_boundary`, `held_out_campaign_gate`;
--                     Findings, Documents, Gate: what it means that there is no finding
--   Prelude           the names that the other files share
--
-- The monitor's warning reaches the recovery node as a message; the node passes the request through
-- `decide_recovery` to the executor, and both use the guards of Recovery.Guards. The design of a
-- campaign expands to the episodes that the dispatcher's workers claim, with the caps and phases that
-- an amendment admits.
--
-- Numbers: lengths, times, scores and thresholds are natural numbers in a fixed unit, since the code
-- only compares, adds and subtracts them there; costs, speeds, coordinates and yaw errors are integers,
-- and a coordinate that is not finite is `none`; ratios are compared across. A NaN, an infinity other
-- than the start values of the alarm policy, and rounding of floats have no counterpart. An exception
-- is a value of an error type, or `none` where it leaves a callback. Every recursion is structural but
-- those of `_decision_times` and `due_grid_times`, which have fuel: one round more than the time at
-- which they end, which a stride of one unit or more cannot use up.
--
-- Parameters: the patterns of amendment and system ids, `str.lower` and `str.split` for the admission
-- of parallel execution; the exit code of the readiness check; SHA-256 and the JSON coding of the
-- research log, whose lines may be of any type, and how two texts make one line; the monitor's
-- calibrated risk, diagnosed group, enriched row and clearances at a grid point, and whether its
-- extraction and its model return there; the patterns of the leakage policy; whether the decision time
-- of a message reads and the publications and snapshots for it succeed; whether `finalize` returns for
-- a wave; the Nav2 commander (which of its calls raise, given all earlier ones), the fitted selector
-- model (its predicted costs), the evidence gate's outcome, the odometry's measured stop, the episode
-- runner and the artifact validator (their codes), the drain marker and the free space.
--
-- Not modelled: ROS messages, files, locks of the operating system, threads beyond the interleaving of
-- whole `claim` and `record` calls, each of which the code runs under one lock; neural networks,
-- derived features and floating point statistics; the validators of each kind of campaign; the reports
-- of scripts/, and its command lines but that of the research log.
pub mod Prelude
pub mod Recovery
pub mod Dispatch
pub mod Alarm
pub mod Labels
pub mod Monitor
pub mod ResearchLog
pub mod Protected
pub mod Campaign
