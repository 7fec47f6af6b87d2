-- ===== src/Examples/Groups.antt =====
-- A process group and its transitions on small inputs: each theorem with hypotheses, applied where
-- they hold.
use inc_lifecycle.Base.{
  ℕ, ◌≤◌, true, false, Option, none, some, List, [], ◌∷◌, ◌++◌, length, get_elem?, elem, All, ltb,
  ◌==◌, ◌||◌, if◌then◌else◌, ◌≡◌, refl, ◌↔◌, ◌⊎◌, inl, arith,
}
use inc_lifecycle.Group.{
  success, in_transition, aborting, undefined_state, not_set, set_state_cancelled,
  set_state_success, failed_unexpected_termination_on_enter, initial_machine_state_not_set, idle,
  running, no_comms, Dependency, OsProcess, Node, ControlClientId, Graph, state_results,
}
use inc_lifecycle.Group.Nodes.{queue_head_nodes, start_transition}
use inc_lifecycle.Group.Work.{terminated_with, Attempt, entered}
use inc_lifecycle.Group.Work.{release_all}
use inc_lifecycle.Group.Released.{Waits, release_all-Waits}
use inc_lifecycle.Group.Start.{run_jobs}
use inc_lifecycle.Group.Requests.{process_state_transition, process_group_handler}
use inc_lifecycle.Group.States.{after, IsCompleted, after-IsCompleted}
use inc_lifecycle.Group.Ready.{Ascends, IsReady}
use inc_lifecycle.Group.Heads.{queue_head_nodes-IsReady}
use inc_lifecycle.Group.Drain.{
  nodes_executed, Succeeds, Fails, nodes_executed-success, nodes_executed-Fails,
}
use inc_lifecycle.Group.Kept.{control}
use inc_lifecycle.Group.Workers.{run_jobs_counts}
use inc_lifecycle.Group.Errors.{IsRefused, start_transition-IsRefused}
use inc_lifecycle.Group.Exits.{terminated_with-control}
use inc_lifecycle.Group.Requested.{process_state_transition_cancels}
use inc_lifecycle.Group.Recovery.{process_group_handler_recovers}

abbrev pub process : List Dependency → OsProcess
process ds = record {
  comms_type = no_comms;
  is_self_terminating = false;
  number_of_restart_attempts = 1;
  execution_error_code = 4;
  dependency_list = ds;
}

abbrev pub idle_node : OsProcess → Node
idle_node p = record {
  config = p;
  status = 0;
  state = idle;
  dependencies = 0;
  dependent_on_running = [];
  dependent_on_terminating = [];
  in_requested_state = true;
  is_included = false;
  is_head_node = false;
}

abbrev nobody : ControlClientId
nobody = record { process_group_index = 65_535; process_index = 65_535; future_id = 0 }

abbrev client : ControlClientId
client = record { process_group_index = 0; process_index = 1; future_id = 4 }

-- The states 1 and 2 of the group have both processes, 3 is the recovery state without any.
abbrev indexes : ℕ → Option (List ℕ)
indexes n = if n == 1 || n == 2 then some (0 ∷ 1 ∷ []) else if n == 3 then some [] else none

abbrev first_node : Node
first_node = record (idle_node (process [])) { dependent_on_running = 1 ∷ [] }

abbrev second_node : Node
second_node = idle_node (process (record { process_state = running; os_process_index = 0 } ∷ []))

-- Process 1 depends on process 0 that runs; both are wanted in the state 1.
abbrev pub group : Graph
group = record {
  nodes = first_node ∷ second_node ∷ [];
  nodes_to_execute = 2;
  nodes_in_flight = 0;
  starting = true;
  state = in_transition;
  pg_state_name = 1;
  last_state_manager = nobody;
  last_execution_error = 0;
  is_initial_state_transition = true;
  pending_state = 0;
  event = not_set;
  abort_code = not_set;
  cancel_message = record {
    pg_state_name = 0;
    originating_control_client = nobody;
    request_or_response = not_set;
  };
  off_state = 9;
  process_indexes = indexes;
  initial_state_transition_result = initial_machine_state_not_set;
  jobs = [];
  reported = [];
}

queue_head_nodes-IsReady_example :
    (added : List ℕ) × ((queue_head_nodes true group).1.jobs ≡ [] ++ added)
    × ((queue_head_nodes true group).1.nodes_in_flight ≡ length added)
    × ((queue_head_nodes true group).0 ≡ ltb 0 (length added))
    × All (λ i. (n : Node) × (get_elem? group.nodes i ≡ some n) × IsReady true group.nodes n) added
    × Ascends 0 added
    × ((i : ℕ) (n : Node)
        → get_elem? group.nodes i ≡ some n
        → IsReady true group.nodes n
        → elem i added ≡ true)
queue_head_nodes-IsReady_example = queue_head_nodes-IsReady true group refl

first_jobs : (queue_head_nodes true group).1.jobs ≡ 0 ∷ []
unfolding queue_head_nodes
first_jobs = refl

nodes_executed-success_example :
    ((j : ℕ) → j ≤ 1 → (nodes_executed j group).state ≡ in_transition)
    × Succeeds group (nodes_executed 2 group)
nodes_executed-success_example = nodes_executed-success 1 group refl refl refl

abbrev failing : Graph
failing = record group { state = aborting; nodes_in_flight = 2 }

nodes_executed-Fails_example :
    ((j : ℕ) → j ≤ 1 → (nodes_executed j failing).state ≡ aborting)
    × Fails failing (nodes_executed 2 failing)
nodes_executed-Fails_example = nodes_executed-Fails 1 failing (inl refl) refl

after-IsCompleted_example :
    after undefined_state (success ∷ in_transition ∷ []) ≡ success
    ↔ IsCompleted undefined_state (success ∷ in_transition ∷ [])
after-IsCompleted_example = after-IsCompleted undefined_state (success ∷ in_transition ∷ [])

-- The process is forked and does not exit.
abbrev pub runs : Attempt
runs = record {
  is_started = true;
  map_result = entered;
  exit_before_running = none;
  is_running_in_time = true;
  exit_on_request = none;
}

abbrev turn : (ℕ → Attempt) × Option ℕ
turn = (λ _. runs, none)

abbrev queued : Graph
queued = (queue_head_nodes true group).1

run_jobs_counts_example :
    (run_jobs (turn ∷ []) queued).nodes_in_flight ≡ length (run_jobs (turn ∷ []) queued).jobs
unfolding queue_head_nodes
run_jobs_counts_example = run_jobs_counts (turn ∷ []) queued (omega arith) refl

-- Both processes run in the end.
whole_transition :
    ((run_jobs (turn ∷ turn ∷ []) queued).state ≡ success)
    × ((run_jobs (turn ∷ turn ∷ []) queued).event ≡ set_state_success)
unfolding queue_head_nodes run_jobs state_results
whole_transition = (refl, refl)

start_transition-IsRefused_example :
    ((start_transition 7 failing).0 ≡ false ↔ IsRefused 7 failing)
    × ((start_transition 7 failing).0 ≡ false → (start_transition 7 failing).1 ≡ failing)
start_transition-IsRefused_example = start_transition-IsRefused 7 failing

abbrev with_running : Graph
with_running = record group { nodes = record first_node { state = running } ∷ second_node ∷ [] }

terminated_with-control_example :
    control (terminated_with 0 0 with_running)
    ≡ (aborting, not_set, failed_unexpected_termination_on_enter, 4, true, 2)
terminated_with-control_example =
    terminated_with-control 0 0 with_running (record first_node { state = running }) refl

process_state_transition_cancels_example :
    (g' : Graph) × (process_state_transition client 2 (some group) ≡ (set_state_success, some g'))
    × (g'.pending_state ≡ 2)
    × (g'.last_state_manager ≡ client)
    × (g'.cancel_message ≡ record {
      pg_state_name = 1;
      originating_control_client = nobody;
      request_or_response = set_state_cancelled;
    })
    × (g'.event ≡ not_set)
    × (g'.state ≡ undefined_state)
process_state_transition_cancels_example =
    process_state_transition_cancels client 2 group refl (λ h. absurd (cc))

-- A client has asked for the state 2 of a group in the undefined state.
abbrev asked : Graph
asked = record group { state = undefined_state; pending_state = 2 }

process_group_handler_recovers_example :
    ((process_group_handler 3 asked).pg_state_name ≡ 3)
    × (((process_group_handler 3 asked).state ≡ in_transition)
        ⊎ ((process_group_handler 3 asked).state ≡ success))
process_group_handler_recovers_example = process_group_handler_recovers 3 asked [] refl refl

-- Process 1 waits for two others.
abbrev waiting : Node
waiting = record second_node { is_included = true; dependencies = 2 }

abbrev with_waiting : Graph
with_waiting = record group { nodes = first_node ∷ waiting ∷ [] }

release_all-Waits_example :
    Waits 1 waiting 0 1 with_waiting (release_all (1 ∷ 0 ∷ 1 ∷ []) with_waiting)
release_all-Waits_example = release_all-Waits (1 ∷ 0 ∷ 1 ∷ []) 1 waiting with_waiting refl refl refl
