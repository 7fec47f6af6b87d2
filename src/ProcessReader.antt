-- ===== src/ProcessReader.antt =====
-- The reader of the process states and the states that it keeps for the supervisions
-- (src/launch_manager_daemon/health_monitor_lib/src/score/lcm/saf/ifexm/ProcessStateReader.cpp,
-- ProcessState.cpp, .hpp, ProcessCfg.hpp). What the receiver answers is an input. Process ids and those
-- of process group states are numbers, and a process is known to the observers by its id.
pub mod News
pub mod Steps
pub mod Delivery
use inc_lifecycle.Base.{
  ℕ, Bool, true, false, Option, none, some, List, [], ◌∷◌, leb, ◌==◌, if◌then◌else◌, u64_max,
  lookup_or, assign,
}
use inc_lifecycle.Tracker.{ProcState}
use inc_lifecycle.Timer.{TimeSpec, convert_to_nano_sec}
use inc_lifecycle.Group.{ProcessState}
use inc_lifecycle.Checkpoint.{ProcessData, default_execution_error}

-- ifexm::ProcessState. The vectors of the configured states and of their errors, which share their
-- indices, are one list.
pub record MonitoredProcess : Type 0 where
  pub process_id : ℕ
  pub process_execution_errors : List (ℕ × ℕ)
  pub process_group_state : ℕ
  pub proc_state : ProcState
  pub timestamp : ℕ

unfoldable pub create_process : ℕ → List (ℕ × ℕ) → MonitoredProcess
create_process id errors = record {
  process_id = id;
  process_execution_errors = errors;
  process_group_state = 0;
  proc_state = ProcState.idle;
  timestamp = u64_max;
}

unfoldable pub get_process_execution_error : MonitoredProcess → ℕ
get_process_execution_error p =
    lookup_or default_execution_error p.process_group_state p.process_execution_errors

-- What the observers of a process read when it is pushed to them.
unfoldable pub process_data : MonitoredProcess → ProcessData
unfolding get_process_execution_error
process_data p = record {
  identifier = p.process_id;
  proc_state = p.proc_state;
  process_group_state = p.process_group_state;
  timestamp = p.timestamp;
  execution_error = get_process_execution_error p;
}

-- score::lcm::PosixProcess
pub record PosixProcess : Type 0 where
  pub id : ℕ
  pub process_state_id : ProcessState
  pub process_group_state_id : ℕ
  pub system_clock_timestamp : TimeSpec

-- What getNextChangedPosixProcess returns.
pub data Answer : Type 0 where
  changed : PosixProcess → Answer
  no_change failed : Answer

-- `last_changed_process` is a pointer into the map, here the id of the process; `pushed` is what the
-- observers were given, newest first.
pub record Reader : Type 0 where
  pub processes : List (ℕ × MonitoredProcess)
  pub is_push_pending : Bool
  pub last_changed_process : ℕ
  pub pushed : List ProcessData

abbrev pub find_process : ℕ → List (ℕ × MonitoredProcess) → Option MonitoredProcess
find_process id [] = none
find_process id ((j, p) ∷ m) = if j == id then some p else find_process id m

abbrev pub new_reader : Reader
new_reader = record {
  processes = [];
  is_push_pending = false;
  last_changed_process = 0;
  pushed = [];
}

-- The map keeps the process that was registered under an id first.
unfoldable pub register_process_state : MonitoredProcess → ℕ → Reader → Reader × Bool
register_process_state p id r = elim (find_process id r.processes) [
  | none ↦ (record r { processes = assign id p r.processes }, true)
  | some other ↦ (r, false)
]

unfoldable pub translate_process_state : ProcessState → ProcState
translate_process_state ProcessState.idle = ProcState.idle
translate_process_state ProcessState.starting = ProcState.starting
translate_process_state ProcessState.running = ProcState.running
translate_process_state ProcessState.terminating = ProcState.sigterm
translate_process_state ProcessState.terminated = ProcState.off

-- setState, setProcessGroupState and setTimestamp.
unfoldable pub set_process : PosixProcess → MonitoredProcess → MonitoredProcess
unfolding translate_process_state
set_process c p = record p {
  proc_state = translate_process_state c.process_state_id;
  process_group_state = c.process_group_state_id;
  timestamp = convert_to_nano_sec c.system_clock_timestamp;
}

-- pushData of the process with this id.
unfoldable pub push_process : ℕ → Reader → Reader
unfolding process_data
push_process id r = elim (find_process id r.processes) [
  | none ↦ r
  | some p ↦ record r { pushed = process_data p ∷ r.pushed }
]

-- The result says whether the change is later than the cycle, so that its push is to wait.
unfoldable pub push_update_till : PosixProcess → ℕ → Reader → Reader × Bool
unfolding set_process push_process
push_update_till c sync r = elim (find_process c.id r.processes) [
  | none ↦ (r, false)
  | some p ↦
      let r' = record r { processes = assign c.id (set_process c p) r.processes } in
      if leb (convert_to_nano_sec c.system_clock_timestamp) sync
      then (push_process c.id r', false)
      else (record r' { last_changed_process = c.id }, true)
]

-- The loop, with the answers that are left. The receiver has no change where the list ends.
unfoldable pub read_changes : ℕ → List Answer → Reader → Bool × Reader × List Answer
unfolding push_update_till
read_changes sync [] r = (true, r, [])
read_changes sync (no_change ∷ answers) r = (true, r, answers)
read_changes sync (failed ∷ answers) r = (false, r, answers)
read_changes sync (changed c ∷ answers) r =
    let (r', pending) = push_update_till c sync r in
    let rest = read_changes sync answers (record r' { is_push_pending = pending }) in
    if pending then (true, record r' { is_push_pending = pending }, answers) else rest

-- The push that the cycle before left.
unfoldable pub push_pending : Reader → Reader
unfolding push_process
push_pending r =
    if r.is_push_pending
    then record (push_process r.last_changed_process r) { is_push_pending = false }
    else r

-- False if the receiver failed.
unfoldable pub distribute_changes : ℕ → List Answer → Reader → Bool × Reader × List Answer
unfolding push_pending read_changes
distribute_changes sync answers r = read_changes sync answers (push_pending r)
