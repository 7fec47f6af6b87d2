-- ===== src/Global.antt =====
-- The global supervision (src/launch_manager_daemon/health_monitor_lib/src/score/lcm/saf/supervision/
-- Global.cpp, .hpp): it accumulates the statuses of the local supervisions and, when an expired one
-- outlasts the tolerance of the process group state, stops and notifies the recovery. Logging is left
-- out. A local supervision is known by its address.
pub mod Evaluate
pub mod Accumulate
pub mod Invariant
pub mod Since
pub mod Tolerance
pub mod Notified
use inc_lifecycle.Base.{
  ℕ, suc, ◌+◌, Bool, true, false, ◌&&◌, ◌||◌, Option, none, some, List, [], ◌∷◌, ◌++◌, map, max,
  ltb, leb, ◌==◌, if◌then◌else◌, index_of, get_elem?, assign, insert_new, u64, u64_max,
}
use inc_lifecycle.Buffer.{Buffer, create, push, clear, elements}
use inc_lifecycle.Tracker.{ProcState}
use inc_lifecycle.Checkpoint.{SupervisionType, ProcessData, default_execution_error}
use inc_lifecycle.Monitor.{LocalStatus, GlobalStatus}
use inc_lifecycle.Local.{LocalReport}
use inc_lifecycle.Notification.{Notification, ErrorInfo, send}

pub record LocalState : Type 0 where
  pub local : ℕ
  pub state : LocalStatus
  pub supervision_type : SupervisionType
  pub timestamp : ℕ
  pub execution_error : ℕ

pub record GroupStateChange : Type 0 where
  pub expired_tolerance : ℕ
  pub timestamp : ℕ

pub data Element : Type 0 where
  local_state : LocalState → Element
  group_state_change : GroupStateChange → Element

pub record Global : Type 0 where
  pub expired_tolerances : List ℕ
  pub ref_group_states : List ℕ
  pub status : GlobalStatus
  pub start_expired : ℕ
  pub expired_tolerance : ℕ
  pub expired_supervision : SupervisionType
  pub execution_error : ℕ
  pub local_status : List (ℕ × LocalStatus)
  pub notifications : List Notification
  pub is_data_loss_event : Bool
  pub buffer : Buffer Element

unfoldable pub create_global : List ℕ → List ℕ → ℕ → Global
create_global tolerances group_states size = record {
  expired_tolerances = tolerances;
  ref_group_states = group_states;
  status = GlobalStatus.deactivated;
  start_expired = u64_max;
  expired_tolerance = 0;
  expired_supervision = SupervisionType.deadline;
  execution_error = default_execution_error;
  local_status = [];
  notifications = [];
  is_data_loss_event = false;
  buffer = create size;
}

unfoldable pub register_local_supervision : ℕ → Global → Global
register_local_supervision local g = record g {
  local_status = insert_new local LocalStatus.deactivated g.local_status;
}

unfoldable pub register_recovery_notification : Notification → Global → Global
register_recovery_notification n g = record g { notifications = g.notifications ++ n ∷ [] }

unfoldable pub store : Element → ℕ → Global → Global
store e t g =
    let (buffer', stored) = push e t g.buffer in
    if stored then record g { buffer = buffer' } else record g { is_data_loss_event = true }

-- The tolerance of the first process group state that matches, and 0 if none does.
unfoldable pub tolerance_of : ℕ → Global → ℕ
tolerance_of group_state g = elim (index_of group_state g.ref_group_states) [
  | none ↦ 0
  | some i ↦ elim (get_elem? g.expired_tolerances i) [ none ↦ 0 | some t ↦ t ]
]

-- updateData of a process state.
unfoldable pub update_process : ProcState → ProcessData → Global → Global
unfolding store tolerance_of
update_process ProcState.starting p g =
    store
      (group_state_change (record {
        expired_tolerance = tolerance_of p.process_group_state g;
        timestamp = p.timestamp;
      }))
      p.timestamp g
update_process ProcState.running p g =
    store
      (group_state_change (record {
        expired_tolerance = tolerance_of p.process_group_state g;
        timestamp = p.timestamp;
      }))
      p.timestamp g
update_process _ p g = g

-- updateData of a local supervision.
unfoldable pub update_local : ℕ → LocalReport → Global → Global
unfolding store
update_local local r g =
    store
      (local_state (record {
        local = local;
        state = r.status;
        supervision_type = r.supervision_type;
        timestamp = r.timestamp;
        execution_error = r.execution_error;
      }))
      r.timestamp g

unfoldable pub switch_to_deactivated : Global → Global
switch_to_deactivated g = record g {
  status = GlobalStatus.deactivated;
  start_expired = u64_max;
  expired_tolerance = 0;
}

unfoldable pub switch_to_ok : Global → Global
switch_to_ok g = record g { status = GlobalStatus.ok; start_expired = u64_max }

unfoldable pub switch_to_failed : Global → Global
switch_to_failed g = record g { status = GlobalStatus.failed; start_expired = u64_max }

unfoldable pub switch_to_expired : ℕ → Global → Global
switch_to_expired start g = record g { status = GlobalStatus.expired; start_expired = start }

abbrev pub error_info : Global → ErrorInfo
error_info g = record {
  failed_process_execution_error = g.execution_error;
  failed_supervision_type = g.expired_supervision;
}

-- The reason is only logged.
unfoldable pub switch_to_stopped : Global → Global
switch_to_stopped g = record g {
  status = GlobalStatus.stopped;
  start_expired = u64_max;
  notifications = map (send (error_info g)) g.notifications;
}
