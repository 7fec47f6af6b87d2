-- ===== src/MonitorInterface.antt =====
-- The interface on which a monitored process reports its checkpoints
-- (src/launch_manager_daemon/health_monitor_lib/src/score/lcm/saf/ifappl/MonitorIfDaemon.cpp, .hpp,
-- Checkpoint.cpp). The channel in shared memory is an input: what `peek` finds there, one after the other.
pub mod Overflow
pub mod Reading
use inc_lifecycle.Base.{
  ℕ, Bool, true, false, List, [], ◌∷◌, ◌&&◌, ◌||◌, map, leb, ◌==◌, if◌then◌else◌,
}
use inc_lifecycle.Tracker.{ProcState}
use inc_lifecycle.Checkpoint.{CheckpointData, ProcessData}

-- ifappl::Checkpoint; `pushed` is what its observers were given, newest first.
pub record Checkpoint : Type 0 where
  pub identifier : ℕ
  pub checkpoint_id : ℕ
  pub is_data_loss_event : Bool
  pub timestamp : ℕ
  pub pushed : List CheckpointData

unfoldable pub set_data_loss_event : Bool → Checkpoint → Checkpoint
set_data_loss_event b c = record c { is_data_loss_event = b }

-- A timestamp of 0 stands for a failure of the clock.
unfoldable pub push_data : ℕ → Checkpoint → Checkpoint
push_data t c =
    let loss = t == 0 || c.is_data_loss_event in
    record c {
      timestamp = t;
      is_data_loss_event = loss;
      pushed = record { identifier = c.identifier; timestamp = t; data_loss = loss } ∷ c.pushed;
    }

-- EInternalState
pub data InterfaceState : Type 0 where
  active inactive inactive_overflow : InterfaceState

-- A checkpoint in the channel, with the result of the `pop` that takes it out, or a place where the
-- channel is corrupted. There is no data to read where the list ends.
pub data Element : Type 0 where
  reported : (checkpoint_id timestamp : ℕ) (popped : Bool) → Element
  corrupted : Element

pub record MonitorInterface : Type 0 where
  pub checkpoints : List Checkpoint
  pub status : InterfaceState
  pub is_activate_request : Bool
  pub is_deactivate_request : Bool
  pub is_process_restarted : Bool

abbrev pub is_inactive : InterfaceState → Bool
is_inactive inactive = true
is_inactive _ = false

abbrev pub starts : ProcState → Bool
starts ProcState.starting = true
starts ProcState.running = true
starts _ = false

abbrev pub is_off : ProcState → Bool
is_off ProcState.off = true
is_off _ = false

-- updateData, of a change of the process.
unfoldable pub update_process : ProcessData → MonitorInterface → MonitorInterface
update_process p m =
    if starts p.proc_state
    then record m {
      is_process_restarted = m.is_deactivate_request || m.is_process_restarted;
      is_activate_request = true;
      is_deactivate_request = false;
    }
    else (if is_off p.proc_state then record m { is_deactivate_request = true } else m)

unfoldable pub push_checkpoint_to_observers : ℕ → ℕ → List Checkpoint → List Checkpoint
unfolding push_data
push_checkpoint_to_observers id t = map (λ c. if id == c.checkpoint_id then push_data t c else c)

unfoldable pub push_overflow_info_to_observers : List Checkpoint → List Checkpoint
unfolding push_data set_data_loss_event
push_overflow_info_to_observers = map (λ c. push_data 0 (set_data_loss_event true c))

-- The loop: whether the reading succeeded, the checkpoints, and what is left in the channel. A
-- checkpoint whose `pop` failed stays.
unfoldable pub push_new_data :
    ℕ → List Element → List Checkpoint → Bool × List Checkpoint × List Element
unfolding push_checkpoint_to_observers
push_new_data sync [] cs = (true, cs, [])
push_new_data sync (corrupted ∷ channel) cs = (false, cs, corrupted ∷ channel)
push_new_data sync (reported id t popped ∷ channel) cs =
    let cs' = push_checkpoint_to_observers id t cs in
    let rest = push_new_data sync channel cs' in
    if leb t sync
    then (if popped then rest else (false, cs', reported id t popped ∷ channel))
    else (true, cs, reported id t popped ∷ channel)

unfoldable pub handle_overflow : MonitorInterface → MonitorInterface
unfolding push_overflow_info_to_observers
handle_overflow m = record m {
  checkpoints = push_overflow_info_to_observers m.checkpoints;
  status = inactive_overflow;
}

-- The case kActive; `overflow` is what the channel answers to `hasOverflow`.
unfoldable pub check_active :
    ℕ → Bool → List Element → MonitorInterface → MonitorInterface × List Element
unfolding handle_overflow push_new_data
check_active sync overflow channel m =
    let (ok, cs, left) = push_new_data sync channel m.checkpoints in
    let m' = record m { checkpoints = cs } in
    if overflow
    then (handle_overflow m, channel)
    else (if ok
        then (
          (if m'.is_deactivate_request
              then record m' {
                status = inactive;
                is_activate_request = false;
                is_deactivate_request = false;
              }
              else m'),
          left,
        )
        else (handle_overflow m', left))

unfoldable pub check_status :
    InterfaceState → ℕ → Bool → List Element → MonitorInterface → MonitorInterface × List Element
unfolding check_active push_overflow_info_to_observers
check_status active sync overflow channel m = check_active sync overflow channel m
check_status inactive_overflow sync overflow channel m = (
  if m.is_process_restarted
      then record m {
        is_process_restarted = false;
        checkpoints = push_overflow_info_to_observers m.checkpoints;
      }
      else m,
  channel,
)
check_status inactive sync overflow channel m = (m, channel)

unfoldable pub check_for_new_data :
    ℕ → Bool → List Element → MonitorInterface → MonitorInterface × List Element
unfolding check_status
check_for_new_data sync overflow channel m =
    let m1 =
      if m.is_activate_request && is_inactive m.status then record m { status = active } else m in
    check_status m1.status sync overflow channel m1

-- What can happen to an interface: a change of the process, or a cycle that finds the channel so.
pub data Input : Type 0 where
  process_input : ProcessData → Input
  cycle_input : ℕ → Bool → List Element → Input

unfoldable pub step : Input → MonitorInterface → MonitorInterface
step (process_input p) m = update_process p m
step (cycle_input sync overflow channel) m = (check_for_new_data sync overflow channel m).0

unfoldable pub run : List Input → MonitorInterface → MonitorInterface
unfolding step
run [] m = m
run (i ∷ rest) m = run rest (step i m)
