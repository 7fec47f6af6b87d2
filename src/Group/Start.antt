-- ===== src/Group/Start.antt =====
-- Starting the process of a node, with its restart attempts, and the work of a job
-- (src/launch_manager_daemon/src/process_group_manager/processinfonode.cpp and workerthread.cpp). `counter` is
-- `restart_counter_`, which only the worker that starts the process reads.
use inc_lifecycle.Base.{
  ℕ, zero, suc, not, ◌&&◌, ◌||◌, Option, none, some, List, [], ◌∷◌, ◌==◌, if◌then◌else◌,
}
use inc_lifecycle.Group.{
  in_transition, is_graph_state, ControlClientCode, set_state_failed,
  failed_unexpected_termination_on_enter, idle, starting, running, terminated, no_comms,
  launch_manager, Graph, abort, node_at,
}
use inc_lifecycle.Group.Nodes.{node_executed}
use inc_lifecycle.Group.Work.{
  is_comms_type, set_state, set_status, process_successor_nodes, queue_termination_successor_jobs,
  terminated_with, Attempt, entered, exited, map_full, status_of, exit_if, terminate_process,
}

-- `graph_->abort` where no restart attempts are left.
unfoldable pub abort_last : ℕ → ℕ → ControlClientCode → Graph → Graph
unfolding abort
abort_last counter code reason g = if counter == 0 then abort code reason g else g

unfoldable pub handle_process_running : ℕ → ℕ → Graph → Graph
unfolding set_state process_successor_nodes abort_last
handle_process_running counter i g = elim (node_at i g) [
  | none ↦ g
  | some n ↦
      let (is_set, g1) = set_state running i g in
      if is_set || n.is_self_terminating && n.status == 0
      then process_successor_nodes i g1
      else abort_last counter n.execution_error_code set_state_failed g1
]

-- Where the process has not reported in time, or has exited with an error.
unfoldable pub handle_timeout : Attempt → ℕ → ℕ → Graph → Graph
unfolding terminate_process abort_last
handle_timeout e counter i g = elim (node_at i g) [
  | none ↦ g
  | some n ↦
      abort_last counter n.execution_error_code
        (if n.status == 0 then set_state_failed else failed_unexpected_termination_on_enter)
        (terminate_process e.exit_on_request i g)
]

unfoldable pub handle_process_still_starting : Attempt → ℕ → ℕ → Graph → Graph
unfolding exit_if handle_process_running handle_timeout
handle_process_still_starting e counter i g =
    let g1 = exit_if e.exit_before_running i g in
    elim (node_at i g1) [
      | none ↦ g1
      | some n ↦
          if is_graph_state g.state in_transition
          then (if (is_comms_type n.comms_type no_comms || e.is_running_in_time) && n.status == 0
              then handle_process_running counter i g1
              else handle_timeout e counter i g1)
          else g1
    ]

unfoldable pub handle_process_already_terminated : ℕ → ℕ → Graph → Graph
unfolding abort_last queue_termination_successor_jobs
handle_process_already_terminated counter i g = elim (node_at i g) [
  | none ↦ g
  | some n ↦
      if not (n.status == 0) || not (is_comms_type n.comms_type no_comms)
      then abort_last counter n.execution_error_code failed_unexpected_termination_on_enter g
      else queue_termination_successor_jobs i g
]

-- What is left of the restart counter, and the graph after an attempt whose process was forked.
unfoldable pub handle_process_started : Attempt → ℕ → ℕ → Graph → ℕ × Graph
unfolding handle_process_still_starting handle_process_already_terminated terminated_with
    terminate_process abort
handle_process_started e counter i g = elim e.map_result [
  | entered ↦ (counter, handle_process_still_starting e counter i g)
  | exited status ↦
      (counter, handle_process_already_terminated counter i (terminated_with status i g))
  | map_full ↦ (
    0,
    elim (node_at i g) [
      | none ↦ g
      | some n ↦
          abort n.execution_error_code set_state_failed (terminate_process e.exit_on_request i g)
    ],
  )
]

-- The body of the loop once the node is idle.
unfoldable pub launch : Attempt → ℕ → ℕ → Graph → ℕ × Graph
unfolding set_state process_successor_nodes handle_process_started abort
launch e counter i g = elim (node_at i g) [
  | none ↦ (counter, g)
  | some n ↦
      let g1 = (set_state starting i g).1 in
      if is_comms_type n.comms_type launch_manager
      then (counter, process_successor_nodes i (set_state running i g1).1)
      else if e.is_started
      then handle_process_started e counter i g1
      else (counter, abort n.execution_error_code set_state_failed (set_state terminated i g1).1)
]

unfoldable pub attempt : Attempt → ℕ → ℕ → Graph → ℕ × Graph
unfolding set_status set_state launch
attempt e counter i g =
    let (is_set, g1) = set_state idle i (set_status 0 i g) in
    if is_set then launch e counter i g1 else (counter, g1)

-- The loop of startProcess; the environment of an attempt is known by the counter it begins with. An
-- attempt leaves the counter or sets it to 0.
unfoldable pub start_attempts : (ℕ → Attempt) → ℕ → ℕ → Graph → Graph
unfolding attempt
start_attempts env zero i g = (attempt (env 0) 0 i g).1
start_attempts env (suc counter) i g =
    let (left, g1) = attempt (env (suc counter)) (suc counter) i g in
    let rest = start_attempts env counter i g1 in
    if status_of i g1 == 0 || left == 0 then g1 else rest

unfoldable pub start_process : (ℕ → Attempt) → ℕ → Graph → Graph
unfolding start_attempts
start_process env i g = elim (node_at i g) [
  | none ↦ g
  | some n ↦ start_attempts env n.number_of_restart_attempts i g
]

-- The work by the phase, with the exit that a process to be terminated answers with.
unfoldable pub work : (ℕ → Attempt) → Option ℕ → ℕ → Graph → Graph
unfolding start_process terminate_process
work env exit i g =
    if is_graph_state g.state in_transition
    then (if g.starting then start_process env i g else terminate_process exit i g)
    else g

unfoldable pub do_work : (ℕ → Attempt) → Option ℕ → ℕ → Graph → Graph
unfolding work node_executed
do_work env exit i g = node_executed (work env exit i g)

-- One turn of a worker on the group's job: WorkerThread::run.
unfoldable pub run_job : (ℕ → Attempt) × Option ℕ → Graph → Graph
unfolding do_work
run_job (env, exit) g = elim g.jobs [
  | [] ↦ g
  | i ∷ is ↦ do_work env exit i (record g { jobs = is })
]

unfoldable pub run_jobs : List ((ℕ → Attempt) × Option ℕ) → Graph → Graph
unfolding run_job
run_jobs [] g = g
run_jobs (t ∷ ts) g = run_jobs ts (run_job t g)
