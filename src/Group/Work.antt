-- ===== src/Group/Work.antt =====
-- The work of a node (src/launch_manager_daemon/src/process_group_manager/processinfonode.cpp):
-- starting and terminating its process and what the OS handler reports of it. What the environment
-- does during one attempt to start it (fork, map of processes, waits) is an `Attempt`; the job of a
-- worker runs without others between, but for the exit that the OS handler reports in a wait.
use inc_lifecycle.Base.{
  ℕ, ◌-◌, Bool, true, false, not, ◌&&◌, ◌||◌, Option, none, some, List, [], ◌∷◌, ◌==◌, ltb,
  if◌then◌else◌, u32_max,
}
use inc_lifecycle.Group.{
  success, in_transition, is_graph_state, failed_unexpected_termination,
  failed_unexpected_termination_on_enter, ProcessState, idle, starting, running, terminating,
  terminated, no_comms, launch_manager, CommsType, reporting, control_client, Dependency, Node,
  Graph, abort, node_at, put_node,
}
use inc_lifecycle.Group.Nodes.{is_process_state, try_queue_node}

abbrev pub is_comms_type : CommsType → CommsType → Bool
is_comms_type no_comms no_comms = true
is_comms_type reporting reporting = true
is_comms_type control_client control_client = true
is_comms_type launch_manager launch_manager = true
is_comms_type _ _ = false

abbrev pub rank : ProcessState → ℕ
rank idle = 0
rank starting = 1
rank running = 2
rank terminating = 3
rank terminated = 4

-- The cases of setState in which the new state is stored.
unfoldable pub is_accepted : ProcessState → ProcessState → Bool
is_accepted old new =
    is_process_state new terminated
    || is_process_state new idle && is_process_state old terminated
    || not (ltb (rank new) (rank old))

unfoldable pub is_reported : ProcessState → Node → Bool
is_reported new n = not (is_comms_type n.comms_type no_comms) && not (is_process_state new idle)

-- setState of node i, with the state that is queued for the health monitor.
unfoldable pub set_state : ProcessState → ℕ → Graph → Bool × Graph
unfolding is_accepted is_reported
set_state new i g = elim (node_at i g) [
  | none ↦ (false, g)
  | some n ↦
      let g1 = put_node i (record n { state = new }) g in
      let g2 = if is_reported new n then record g1 { reported = (i, new) ∷ g1.reported } else g1 in
      if is_accepted n.state new then (true, g2) else (false, g)
]

unfoldable pub set_status : ℕ → ℕ → Graph → Graph
set_status status i g = elim (node_at i g) [
  | none ↦ g
  | some n ↦ put_node i (record n { status = status }) g
]

-- One dependency of an included node is met; the last one queues it (checkForEmptyDependencies and
-- the lambda of queueTerminationSuccessorJobs).
unfoldable pub release : ℕ → Graph → Graph
unfolding try_queue_node
release i g = elim (node_at i g) [
  | none ↦ g
  | some n ↦
      let g1 = put_node i (record n { dependencies = n.dependencies - 1 }) g in
      if n.is_included && ltb 0 n.dependencies
      then (if n.dependencies - 1 == 0 then try_queue_node i g1 else g1)
      else g
]

unfoldable pub release_all : List ℕ → Graph → Graph
unfolding release
release_all [] g = g
release_all (i ∷ is) g = release_all is (release i g)

unfoldable pub process_successor_nodes : ℕ → Graph → Graph
unfolding release_all
process_successor_nodes i g = elim (node_at i g) [
  | none ↦ g
  | some n ↦ release_all n.dependent_on_running g
]

-- While stopping, the successors are the nodes this one depends on, but for the terminated.
unfoldable pub release_predecessor : ℕ → Graph → Graph
unfolding release
release_predecessor i g = elim (node_at i g) [
  | none ↦ g
  | some n ↦ if is_process_state n.state terminated then g else release i g
]

unfoldable pub release_predecessors : List Dependency → Graph → Graph
unfolding release_predecessor
release_predecessors [] g = g
release_predecessors (d ∷ ds) g = release_predecessors ds (release_predecessor d.os_process_index g)

unfoldable pub queue_termination_successor_jobs : ℕ → Graph → Graph
unfolding release_all release_predecessors
queue_termination_successor_jobs i g = elim (node_at i g) [
  | none ↦ g
  | some n ↦
      if g.starting
      then release_all n.dependent_on_terminating g
      else release_predecessors n.dependency_list g
]

-- While the process is starting, the exit only cuts the wait for it short.
unfoldable pub unexpected_termination : ℕ → Graph → Graph
unfolding abort
unexpected_termination i g = elim (node_at i g) [
  | none ↦ g
  | some n ↦
      if is_graph_state g.state success
      then abort n.execution_error_code failed_unexpected_termination g
      else if is_process_state n.state starting
      then g
      else if is_graph_state g.state in_transition
      then abort n.execution_error_code failed_unexpected_termination_on_enter g
      else g
]

-- The status that is kept: -1 for an exit with 0 of a process that is not self-terminating.
unfoldable pub kept_status : Bool → ℕ → ℕ
kept_status self_terminating status =
    if not self_terminating && status == 0 then u32_max else status

abbrev pub is_empty : List ℕ → Bool
is_empty [] = true
is_empty (_ ∷ _) = false

unfoldable pub terminated_with : ℕ → ℕ → Graph → Graph
unfolding set_status set_state kept_status unexpected_termination queue_termination_successor_jobs
terminated_with status i g = elim (node_at i g) [
  | none ↦ g
  | some n ↦
      let g1 = set_status (kept_status n.is_self_terminating status) i g in
      let g2 =
        if (not n.is_self_terminating || not (status == 0)) && g1.starting
        then unexpected_termination i g1
        else g1 in
      let g3 = (set_state terminated i g2).1 in
      if n.is_self_terminating && not (is_empty n.dependent_on_terminating)
      then queue_termination_successor_jobs i g3
      else g3
]

-- The result of insertIfNotTerminated; `exited` has the status it was called back with.
pub data MapResult : Type 0 where
  entered map_full : MapResult
  exited : ℕ → MapResult

pub record Attempt : Type 0 where
  pub is_started : Bool
  pub map_result : MapResult
  pub exit_before_running : Option ℕ
  pub is_running_in_time : Bool
  pub exit_on_request : Option ℕ

abbrev pub status_of : ℕ → Graph → ℕ
status_of i g = elim (node_at i g) [ none ↦ 0 | some n ↦ n.status ]

unfoldable pub exit_if : Option ℕ → ℕ → Graph → Graph
unfolding terminated_with
exit_if none i g = g
exit_if (some status) i g = terminated_with status i g

-- terminateProcess, with the exit that the process answers the signals with; `none` where the request
-- fails, or the graph has left the transition before an exit.
unfoldable pub terminate_process : Option ℕ → ℕ → Graph → Graph
unfolding set_state exit_if queue_termination_successor_jobs
terminate_process exit i g = elim (node_at i g) [
  | none ↦ g
  | some n ↦
      let (is_set, g1) = set_state terminating i g in
      let g2 =
        if is_set
        then (if is_comms_type n.comms_type launch_manager
            then (set_state terminated i g1).1
            else exit_if exit i g1)
        else g1 in
      if not g2.starting || status_of i g2 == 0 then queue_termination_successor_jobs i g2 else g2
]
