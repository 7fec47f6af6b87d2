-- ===== src/Tracker.antt =====
-- ProcessStateTracker (src/launch_manager_daemon/health_monitor_lib/src/score/lcm/saf/supervision/
-- ProcessStateTracker.cpp, .hpp): are the processes of a supervision active? Processes are known by
-- their addresses and process group states by their ids, both of them numbers here.
pub mod Changes
use inc_lifecycle.Base.{
  ℕ, ◌≡◌, Bool, true, false, not, ◌&&◌, ◌||◌, Option, none, some, List, [], ◌∷◌, map, length,
  if◌then◌else◌, get_elem?, set, all, any, index_of, elem,
}

-- ifexm::ProcessState::EProcState.
pub data ProcState : Type 0 where
  idle starting running sigterm off : ProcState

pub data ProcessStateType : Type 0 where
  deactivated activated crashed : ProcessStateType

pub data ProcessChangeType : Type 0 where
  no_change activation deactivation recovered_from_crash : ProcessChangeType

pub record ProcessStateSnapshot : Type 0 where
  pub identifier : ℕ
  pub proc_state : ProcState
  pub process_group_state : ℕ
  pub timestamp : ℕ
  pub execution_error : ℕ

pub record ProcessChangeEvent : Type 0 where
  pub timestamp : ℕ
  pub change_type : ProcessChangeType

-- `setMarkProcessActiveAt` takes any state, and all but `running` and `starting` mark nothing.
pub record Tracker : Type 0 where
  pub active_process_group_states : List ℕ
  pub ref_processes : List ℕ
  pub process_states : List ProcessStateType
  pub process_states_before : List ProcessStateType
  pub active_marker : ProcState

abbrev pub is_state : ProcessStateType → ProcessStateType → Bool
is_state deactivated deactivated = true
is_state activated activated = true
is_state crashed crashed = true
is_state _ _ = false

abbrev pub fill_states : ProcessStateType → List ProcessStateType → List ProcessStateType
fill_states s = map (λ _. s)

unfoldable pub new : List ℕ → List ℕ → Tracker
new group_states processes = record {
  active_process_group_states = group_states;
  ref_processes = processes;
  process_states = map (λ _. deactivated) processes;
  process_states_before = map (λ _. deactivated) processes;
  active_marker = starting;
}

unfoldable pub set_mark_process_active_at : ProcState → Tracker → Tracker
set_mark_process_active_at s t = record t { active_marker = s }

relevant : ProcState → ProcState → Bool
relevant running running = true
relevant running sigterm = true
relevant running off = true
relevant starting starting = true
relevant starting running = true
relevant starting sigterm = true
relevant starting off = true
relevant _ _ = false

unfoldable pub is_process_state_relevant : ProcState → Tracker → Bool
unfolding relevant
is_process_state_relevant s t = relevant t.active_marker s

unfoldable pub set_all_processes_active : Tracker → Tracker
set_all_processes_active t = record t {
  process_states = fill_states activated t.process_states;
  process_states_before = fill_states activated t.process_states_before;
}

-- Both are false on the empty vector.
abbrev pub all_in_state : List ProcessStateType → ProcessStateType → Bool
all_in_state [] v = false
all_in_state (x ∷ xs) v = all (is_state v) (x ∷ xs)

abbrev pub any_in_state : List ProcessStateType → ProcessStateType → Bool
any_in_state [] v = false
any_in_state (x ∷ xs) v = any (is_state v) (x ∷ xs)

unfoldable pub all_processes_active : Tracker → Bool
all_processes_active t = all_in_state t.process_states_before activated

active_at : ProcState → ProcState → Bool
active_at running running = true
active_at starting starting = true
active_at starting running = true
active_at _ _ = false

unfoldable pub is_process_active : ProcState → Tracker → Bool
unfolding active_at
is_process_active s t = active_at t.active_marker s

unfoldable pub is_active_process_group : ℕ → Tracker → Bool
is_active_process_group g t = elem g t.active_process_group_states

-- The branches of `updateProcessState` for a process that is found, by its current state.
unfoldable pub next_state : Bool → Bool → ProcState → ProcessStateType → ProcessStateType
next_state true true s current = activated
next_state true false s current = deactivated
next_state false _ sigterm current = deactivated
next_state false _ off deactivated = deactivated
next_state false _ off current = crashed
next_state false _ _ current = current

unfoldable pub update_process_state : ℕ → ProcState → ℕ → Tracker → Tracker
unfolding next_state is_process_active is_active_process_group
update_process_state process s group t = elim (index_of process t.ref_processes) [
  | none ↦ t
  | some i ↦ elim (get_elem? t.process_states i) [
    | none ↦ t
    | some current ↦ record t {
      process_states =
          set t.process_states i
            (next_state (is_process_active s t) (is_active_process_group group t) s current);
    }
  ]
]

unfoldable pub analyze_process_states : ℕ → Tracker → ProcessChangeEvent
analyze_process_states now t =
    let are_active = all_in_state t.process_states activated in
    let were_active = all_in_state t.process_states_before activated in
    if are_active && not were_active
    then (if any_in_state t.process_states_before crashed
        then record { timestamp = now; change_type = recovered_from_crash }
        else record { timestamp = now; change_type = activation })
    else (if not are_active && were_active && any_in_state t.process_states deactivated
        then record { timestamp = now; change_type = deactivation }
        else record { timestamp = 0; change_type = no_change })

unfoldable pub generate_process_change_event :
    ProcessStateSnapshot → Tracker → ProcessChangeEvent × Tracker
unfolding update_process_state analyze_process_states
generate_process_change_event p t =
    let t1 = update_process_state p.identifier p.proc_state p.process_group_state t in
    (analyze_process_states p.timestamp t1, record t1 { process_states_before = t1.process_states })
