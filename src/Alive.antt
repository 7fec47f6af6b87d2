-- ===== src/Alive.antt =====
-- The alive supervision (src/launch_manager_daemon/health_monitor_lib/src/score/lcm/saf/supervision/
-- Alive.cpp, .hpp): a process must report between a minimum and a maximum of indications in each
-- reference cycle. A method returns the new state. Logging is left out, the `default` branches of the
-- switches over the closed enumerations are not reachable here, and the assertions are hypotheses of
-- the theorems. `published` holds what `pushResultToObservers` gave the observers, newest first.
pub mod Evaluate
pub mod Valid
pub mod Invariant
pub mod Judged
pub mod Debounce
pub mod Termination
pub mod Cycles
use inc_lifecycle.Base.{
  ℕ, suc, ◌+◌, ◌-◌, Bool, true, false, not, ◌&&◌, ◌||◌, List, [], ◌∷◌, max, ltb, leb, ◌==◌,
  if◌then◌else◌, u64, u64_max, u32_max,
}
use inc_lifecycle.Buffer.{Buffer, create}
use inc_lifecycle.Tracker.{ProcState, Tracker, new, set_mark_process_active_at}
use inc_lifecycle.Checkpoint.{
  Status, deactivated, ok, failed, expired, UpdateEvent, UpdateType, Report, execution_error_for,
  initial_errors, default_execution_error,
}

pub data Reason : Type 0 where
  data_loss failed_tolerance_exceeded data_corruption overflow : Reason

pub data DataLossReason : Type 0 where
  no_data_loss buffer_full shared_memory : DataLossReason

pub record Config : Type 0 where
  pub alive_reference_cycle : ℕ
  pub min_alive_indications : ℕ
  pub max_alive_indications : ℕ
  pub is_min_check_disabled : Bool
  pub is_max_check_disabled : Bool
  pub failed_cycles_tolerance : ℕ

pub record Alive : Type 0 where
  pub config : Config
  pub open config use *
  pub data_loss_reason : DataLossReason
  pub status : Status
  pub reference_cycle_start : ℕ
  pub reference_cycle_end : ℕ
  pub indication_count : ℕ
  pub failed_supervision_cycles : ℕ
  pub event_timestamp : ℕ
  pub last_sync_timestamp : ℕ
  pub buffer : Buffer UpdateEvent
  pub alive_process : ℕ
  pub process_tracker : Tracker
  pub execution_errors : List (ℕ × ℕ)
  pub last_execution_error : ℕ
  pub published : List Report

-- The constructor, for the processes `process ∷ others` and a buffer of `size` elements.
unfoldable pub create_alive : Config → ℕ → List ℕ → ℕ → List ℕ → Alive
create_alive c size group_states process others = record {
  config = c;
  data_loss_reason = no_data_loss;
  status = deactivated;
  reference_cycle_start = 0;
  reference_cycle_end = u64_max;
  indication_count = 0;
  failed_supervision_cycles = 0;
  event_timestamp = 0;
  last_sync_timestamp = 0;
  buffer = create size;
  alive_process = process;
  process_tracker =
      set_mark_process_active_at ProcState.running (new group_states (process ∷ others));
  execution_errors = initial_errors (process ∷ others);
  last_execution_error = default_execution_error;
  published = [];
}

unfoldable pub push_result_to_observers : Alive → Alive
push_result_to_observers a = record a { published = report ∷ a.published }
  where
    report : Report
    report = record {
      status = a.status;
      timestamp = a.event_timestamp;
      execution_error = a.last_execution_error;
    }

unfoldable pub is_min_error : Alive → Bool
is_min_error a = not a.is_min_check_disabled && ltb a.indication_count a.min_alive_indications

unfoldable pub is_max_error : Alive → Bool
is_max_error a = not a.is_max_check_disabled && ltb a.max_alive_indications a.indication_count

unfoldable pub switch_to_deactivated : Alive → Alive
unfolding push_result_to_observers
switch_to_deactivated a = push_result_to_observers (record a {
  status = deactivated;
  failed_supervision_cycles = 0;
  indication_count = 0;
  reference_cycle_start = 0;
  reference_cycle_end = u64_max;
})

unfoldable pub switch_to_ok : Alive → Alive
unfolding push_result_to_observers
switch_to_ok a = push_result_to_observers (record a { status = ok; failed_supervision_cycles = 0 })

-- The execution error that the switch to expired leaves, by its reason.
unfoldable pub expiry_error : Reason → Alive → ℕ
expiry_error failed_tolerance_exceeded a = execution_error_for a.alive_process a.execution_errors
expiry_error data_loss a = default_execution_error
expiry_error data_corruption a = default_execution_error
expiry_error overflow a = default_execution_error

unfoldable pub switch_to_expired : Reason → Alive → Alive
unfolding push_result_to_observers
switch_to_expired reason a = push_result_to_observers (record a {
  status = expired;
  last_execution_error = expiry_error reason a;
  failed_supervision_cycles = a.failed_cycles_tolerance;
  indication_count = 0;
  reference_cycle_start = 0;
  reference_cycle_end = u64_max;
  data_loss_reason = no_data_loss;
})

-- The result says whether the timestamps would overflow.
unfoldable pub set_reference_cycle_timestamps : ℕ → Alive → Alive × Bool
unfolding switch_to_expired
set_reference_cycle_timestamps base a =
    if ltb (u64_max - a.alive_reference_cycle) base
    then (
      switch_to_expired overflow
          (record a { event_timestamp = max (u64 (a.reference_cycle_end + 1)) u64_max }),
      true,
    )
    else (
      record a {
        reference_cycle_start = base;
        reference_cycle_end = u64 (base + a.alive_reference_cycle);
      },
      false,
    )

unfoldable pub set_next_cycle : Alive → Alive
unfolding set_reference_cycle_timestamps
set_next_cycle a =
    let (a', overflowed) = set_reference_cycle_timestamps a.reference_cycle_end a in
    if overflowed then a' else record a' { indication_count = 0 }

unfoldable pub switch_to_failed : Alive → Alive
unfolding push_result_to_observers set_next_cycle
switch_to_failed a = set_next_cycle (
    push_result_to_observers
      (record a { status = failed; failed_supervision_cycles = suc a.failed_supervision_cycles }))

unfoldable pub inc_indication_count : ℕ → Alive → Alive
unfolding switch_to_expired
inc_indication_count t a =
    if a.indication_count == u32_max
    then switch_to_expired overflow (record a { event_timestamp = t })
    else record a { indication_count = suc a.indication_count }

unfoldable pub evaluate_ref_cycle_out_of_ok : Alive → Alive
unfolding is_min_error is_max_error switch_to_failed switch_to_expired set_next_cycle
evaluate_ref_cycle_out_of_ok a =
    if is_min_error a || is_max_error a
    then (if ltb a.failed_supervision_cycles a.failed_cycles_tolerance
        then switch_to_failed a
        else switch_to_expired failed_tolerance_exceeded a)
    else set_next_cycle a

unfoldable pub evaluate_ref_cycle_out_of_failed : Alive → Alive
unfolding is_min_error is_max_error switch_to_ok switch_to_expired set_next_cycle
evaluate_ref_cycle_out_of_failed a =
    if is_min_error a || is_max_error a
    then (if a.failed_supervision_cycles == u32_max
        then switch_to_expired overflow a
        else (let a' = record a { failed_supervision_cycles = suc a.failed_supervision_cycles } in
            if leb a'.failed_supervision_cycles a.failed_cycles_tolerance
            then set_next_cycle a'
            else switch_to_expired failed_tolerance_exceeded a'))
    else set_next_cycle (
        if leb a.failed_supervision_cycles 1
        then switch_to_ok a
        else record a { failed_supervision_cycles = a.failed_supervision_cycles - 1 })
