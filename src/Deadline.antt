-- ===== src/Deadline.antt =====
-- The deadline supervision (src/launch_manager_daemon/health_monitor_lib/src/score/lcm/saf/supervision/
-- Deadline.cpp, .hpp): the time from a source checkpoint to a target checkpoint must lie between a
-- minimum and a maximum. Logging is left out, the assertions are hypotheses of the theorems, and the
-- checkpoints and processes are known by their addresses. `published` holds what the observers were
-- given, newest first.
pub mod Evaluate
pub mod Statuses
pub mod Invariant
pub mod Overdue
use inc_lifecycle.Base.{
  ℕ, suc, ◌+◌, ◌-◌, Bool, true, false, not, ◌&&◌, ◌||◌, List, [], ◌∷◌, ltb, ◌==◌, if◌then◌else◌,
  u64,
}
use inc_lifecycle.Buffer.{Buffer, create}
use inc_lifecycle.Tracker.{Tracker, new}
use inc_lifecycle.Checkpoint.{
  Status, UpdateEvent, Report, execution_error_for, initial_errors, default_execution_error,
}

-- EDeadlineAdvState; `data_error` stands for corrupted memory only.
pub data AdvState : Type 0 where
  data_error deactivated ok ring_buffer_overflow history_buffer_overflow : AdvState
  consecutive_source_error max_deadline_error min_deadline_error : AdvState

pub record Config : Type 0 where
  pub min_deadline : ℕ
  pub max_deadline : ℕ
  pub is_min_check_disabled : Bool
  pub is_max_check_disabled : Bool
  -- The checkpoints, and the processes that report them.
  pub source : ℕ
  pub target : ℕ
  pub source_process : ℕ
  pub target_process : ℕ

pub record FailureInfo : Type 0 where
  pub source_target_diff_time : ℕ
  pub target_checkpoint_received : Bool

pub record Deadline : Type 0 where
  pub config : Config
  pub open config use *
  pub is_data_loss_event : Bool
  pub status : Status
  pub adv_state : AdvState
  pub failure_info : FailureInfo
  pub source_timestamp : ℕ
  pub target_timestamp : ℕ
  pub event_timestamp : ℕ
  pub last_sync_timestamp : ℕ
  pub buffer : Buffer UpdateEvent
  pub process_tracker : Tracker
  pub execution_errors : List (ℕ × ℕ)
  pub last_execution_error : ℕ
  pub published : List Report

abbrev pub no_failure : FailureInfo
no_failure = record { source_target_diff_time = 0; target_checkpoint_received = false }

unfoldable pub create_deadline : Config → ℕ → List ℕ → List ℕ → Deadline
create_deadline c size group_states processes = record {
  config = c;
  is_data_loss_event = false;
  status = Status.deactivated;
  adv_state = deactivated;
  failure_info = no_failure;
  source_timestamp = 0;
  target_timestamp = 0;
  event_timestamp = 0;
  last_sync_timestamp = 0;
  buffer = create size;
  process_tracker = new group_states processes;
  execution_errors = initial_errors processes;
  last_execution_error = default_execution_error;
  published = [];
}

unfoldable pub push_result_to_observers : Deadline → Deadline
push_result_to_observers d = record d { published = report ∷ d.published }
  where
    report : Report
    report = record {
      status = d.status;
      timestamp = d.event_timestamp;
      execution_error = d.last_execution_error;
    }

unfoldable pub reset_timestamps : Deadline → Deadline
reset_timestamps d = record d { source_timestamp = 0; target_timestamp = 0 }

unfoldable pub switch_to_deactivated : Deadline → Deadline
unfolding push_result_to_observers reset_timestamps
switch_to_deactivated d =
    push_result_to_observers
      (reset_timestamps (record d { status = Status.deactivated; adv_state = deactivated }))

unfoldable pub switch_to_ok : Deadline → Deadline
unfolding push_result_to_observers
switch_to_ok d = push_result_to_observers (record d { status = Status.ok; adv_state = ok })

-- The execution error that the switch to expired leaves, by the advanced state.
unfoldable pub expiry_error : AdvState → Deadline → ℕ
expiry_error consecutive_source_error d = execution_error_for d.source_process d.execution_errors
expiry_error max_deadline_error d = execution_error_for d.target_process d.execution_errors
expiry_error min_deadline_error d = execution_error_for d.target_process d.execution_errors
expiry_error _ d = default_execution_error

unfoldable pub switch_to_expired : Deadline → Deadline
unfolding push_result_to_observers reset_timestamps
switch_to_expired d = push_result_to_observers (
    reset_timestamps (record d {
      last_execution_error = expiry_error d.adv_state d;
      status = Status.expired;
      is_data_loss_event = false;
      failure_info = no_failure;
    }))

abbrev pub is_adv_error : AdvState → Bool
is_adv_error min_deadline_error = true
is_adv_error max_deadline_error = true
is_adv_error _ = false

-- The tests of evaluateDeadline, without the note of the failure behind them.
unfoldable pub judge_deadline : ℕ → Bool → Deadline → Deadline
unfolding reset_timestamps
judge_deadline lapsed received d =
    if not d.is_max_check_disabled && ltb d.max_deadline lapsed
    then reset_timestamps (record d {
      adv_state = max_deadline_error;
      event_timestamp = u64 (d.source_timestamp + d.max_deadline + 1);
    })
    else (if received
        then reset_timestamps (record d {
          adv_state =
              if not d.is_min_check_disabled && ltb lapsed d.min_deadline
              then min_deadline_error
              else ok;
        })
        else d)

unfoldable pub evaluate_deadline : ℕ → Bool → Deadline → Deadline
unfolding judge_deadline
evaluate_deadline lapsed received d =
    let d1 = judge_deadline lapsed received d in
    if is_adv_error d1.adv_state
    then record d1 {
      failure_info = record {
        source_target_diff_time = lapsed;
        target_checkpoint_received = received;
      };
    }
    else d1

unfoldable pub evaluate_source : ℕ → Deadline → Deadline
unfolding reset_timestamps
evaluate_source t d =
    if d.source_timestamp == 0
    then record d { source_timestamp = t }
    else reset_timestamps (record d { adv_state = consecutive_source_error; event_timestamp = t })

-- `timeDifference` is an unsigned difference.
abbrev pub since : ℕ → ℕ → ℕ
since t source = u64 (t + 18_446_744_073_709_551_616 - source)

unfoldable pub evaluate_target : ℕ → Deadline → Deadline
unfolding evaluate_deadline
evaluate_target t d =
    let d1 = record d { target_timestamp = t; event_timestamp = t } in
    if d.source_timestamp == 0
    then record d1 { target_timestamp = 0 }
    else evaluate_deadline (since t d.source_timestamp) true d1

unfoldable pub evaluate_missing_target : ℕ → Deadline → Deadline
unfolding evaluate_deadline
evaluate_missing_target t d =
    if d.source_timestamp == 0 then d else evaluate_deadline (since t d.source_timestamp) false d
