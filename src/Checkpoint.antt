-- ===== src/Checkpoint.antt =====
-- ICheckpointSupervision (src/launch_manager_daemon/health_monitor_lib/src/score/lcm/saf/supervision/
-- ICheckpointSupervision.cpp, .hpp): what the alive, deadline and logical supervisions share, and the
-- data that their sources report (ifappl/Checkpoint.hpp, ifexm/ProcessState.hpp).
use inc_lifecycle.Base.{ℕ, Bool, List, map, assign, lookup_or}
use inc_lifecycle.Tracker.{
  ProcState, ProcessStateSnapshot, ProcessChangeType, Tracker, generate_process_change_event,
}

pub data Status : Type 0 where
  deactivated ok failed expired : Status

pub data SupervisionType : Type 0 where
  alive deadline logical : SupervisionType

-- ProcessCfg::kDefaultProcessExecutionError.
abbrev pub default_execution_error : ℕ
default_execution_error = 1

-- An ifappl::Checkpoint as its observers read it. `identifier` is its address.
pub record CheckpointData : Type 0 where
  pub identifier : ℕ
  pub timestamp : ℕ
  pub data_loss : Bool

-- An ifexm::ProcessState as its observers read it.
pub record ProcessData : Type 0 where
  pub identifier : ℕ
  pub proc_state : ProcState
  pub process_group_state : ℕ
  pub timestamp : ℕ
  pub execution_error : ℕ

pub data UpdateEvent : Type 0 where
  process : ProcessStateSnapshot → UpdateEvent
  checkpoint : ℕ → ℕ → UpdateEvent
  sync : ℕ → UpdateEvent

pub data UpdateType : Type 0 where
  no_change activation deactivation checkpoint evaluation sync recovered_from_crash : UpdateType

unfoldable pub timestamp_of_update_event : UpdateEvent → ℕ
timestamp_of_update_event (process p) = p.timestamp
timestamp_of_update_event (checkpoint identifier t) = t
timestamp_of_update_event (sync t) = t

abbrev pub snapshot_of : ProcessData → ProcessStateSnapshot
snapshot_of p = record {
  identifier = p.identifier;
  proc_state = p.proc_state;
  process_group_state = p.process_group_state;
  timestamp = p.timestamp;
  execution_error = p.execution_error;
}

abbrev pub update_type_of : ProcessChangeType → UpdateType
update_type_of ProcessChangeType.no_change = UpdateType.no_change
update_type_of ProcessChangeType.activation = UpdateType.activation
update_type_of ProcessChangeType.deactivation = UpdateType.deactivation
update_type_of ProcessChangeType.recovered_from_crash = UpdateType.recovered_from_crash

-- `processExecErrs[p]`; a missing process reads as 0, as the entry that `operator[]` adds.
abbrev pub execution_error_for : ℕ → List (ℕ × ℕ) → ℕ
execution_error_for p errors = lookup_or 0 p errors

-- The constructor's map: every process of the supervision with the default error.
abbrev pub initial_errors : List ℕ → List (ℕ × ℕ)
initial_errors = map (λ p. (p, default_execution_error))

-- The type of an event, with the tracker and the execution errors as it leaves them.
unfoldable pub event_type :
    UpdateEvent → Tracker → List (ℕ × ℕ) → UpdateType × Tracker × List (ℕ × ℕ)
event_type (process p) tracker errors =
    let (change, tracker') = generate_process_change_event p tracker in
    (update_type_of change.change_type, tracker', assign p.identifier p.execution_error errors)
event_type (checkpoint identifier t) tracker errors = (UpdateType.checkpoint, tracker, errors)
event_type (sync t) tracker errors = (UpdateType.sync, tracker, errors)

-- What an observer of a checkpoint supervision reads when results are pushed to it.
pub record Report : Type 0 where
  pub status : Status
  pub timestamp : ℕ
  pub execution_error : ℕ
