-- ===== src/Group/Nodes.antt =====
-- The graph of nodes for a transition (src/launch_manager_daemon/src/process_group_manager/graph.cpp
-- and processinfonode.cpp): which nodes take part, which are queued, and the count of those that
-- are left. A job that finds the job queue full is tried again while the graph is in transition, so
-- it is queued here at once.
use inc_lifecycle.Base.{
  ℕ, suc, ◌-◌, Bool, true, false, not, ◌&&◌, none, some, List, [], ◌∷◌, ◌++◌, map, ◌==◌, ltb,
  if◌then◌else◌, get_elem?, elem,
}
use inc_lifecycle.Group.{
  GraphState, success, in_transition, aborting, undefined_state, is_graph_state, set_state_success,
  initial_machine_state_success, initial_machine_state_failed, ProcessState, idle, running,
  terminated, starting, terminating, Dependency, Node, Graph, set_graph_state, set_pending_event,
  set_initial_state_transition_result, conclude_initial, node_at, put_node,
}

abbrev pub is_process_state : ProcessState → ProcessState → Bool
is_process_state idle idle = true
is_process_state starting starting = true
is_process_state running running = true
is_process_state terminating terminating = true
is_process_state terminated terminated = true
is_process_state _ _ = false

-- `node->getState() == s`; an index out of range is no node.
abbrev pub has_state : ProcessState → List Node → ℕ → Bool
has_state s nodes i = elim (get_elem? nodes i) [
  | none ↦ false
  | some n ↦ is_process_state n.state s
]

abbrev pub count_states : ProcessState → List Node → List ℕ → ℕ
count_states s nodes [] = 0
count_states s nodes (i ∷ is) =
    let rest = count_states s nodes is in if has_state s nodes i then suc rest else rest

abbrev pub is_satisfied : List Node → Dependency → Bool
is_satisfied nodes d = has_state d.process_state nodes d.os_process_index

-- The decrements of `dependencies_` for the predecessors that are in the state already.
abbrev pub unsatisfied : List Node → List Dependency → ℕ
unsatisfied nodes [] = 0
unsatisfied nodes (d ∷ ds) =
    let rest = unsatisfied nodes ds in if is_satisfied nodes d then rest else suc rest

-- constructGraphNode. `nodes` are those of the graph; their states do not change here.
unfoldable pub construct_graph_node : Bool → List Node → Node → Node
construct_graph_node false nodes n =
    let deps = count_states running nodes n.dependent_on_running in
    let included =
      not (is_process_state n.state idle)
      && not (is_process_state n.state terminated)
      && not n.in_requested_state in
    record n { dependencies = deps; is_included = included; is_head_node = included && deps == 0 }
construct_graph_node true nodes n =
    let deps = unsatisfied nodes n.dependency_list in
    let included = n.in_requested_state && not (is_process_state n.state running) in
    record n { dependencies = deps; is_included = included; is_head_node = included && deps == 0 }

-- createSuccessorLists with addSuccessorNode: node i is put on the list of each node it depends on.
unfoldable pub add_successor_node : ℕ → ProcessState → Node → Node
add_successor_node i terminated n = record n {
  dependent_on_terminating = n.dependent_on_terminating ++ (i ∷ []);
}
add_successor_node i running n = record n {
  dependent_on_running = n.dependent_on_running ++ (i ∷ []);
}
add_successor_node i _ n = n

unfoldable pub add_successors : ℕ → List Dependency → Graph → Graph
unfolding add_successor_node
add_successors i [] g = g
add_successors i (d ∷ ds) g = add_successors i ds (elim (node_at d.os_process_index g) [
  | none ↦ g
  | some n ↦ put_node d.os_process_index (add_successor_node i d.process_state n) g
])

unfoldable pub create_successor_lists : ℕ → List Node → Graph → Graph
unfolding add_successors
create_successor_lists i [] g = g
create_successor_lists i (n ∷ ns) g =
    create_successor_lists (suc i) ns (add_successors i n.dependency_list g)

-- tryQueueNode with markNodeInFlight.
unfoldable pub try_queue_node : ℕ → Graph → Graph
try_queue_node i g =
    if is_graph_state g.state in_transition
    then record g { jobs = g.jobs ++ (i ∷ []); nodes_in_flight = suc g.nodes_in_flight }
    else g

abbrev pub count_included : List Node → ℕ
count_included [] = 0
count_included (n ∷ ns) = let rest = count_included ns in if n.is_included then suc rest else rest

-- queueHeadNodesForExecution, from node i on.
unfoldable pub queue_heads : ℕ → List Node → Graph → Graph
unfolding try_queue_node
queue_heads i [] g = g
queue_heads i (n ∷ ns) g = queue_heads (suc i) ns (if n.is_head_node then try_queue_node i g else g)

-- countExecutableNodes.
unfoldable pub construct_graph : Bool → Graph → Graph
unfolding construct_graph_node
construct_graph start g =
    let built = map (construct_graph_node start g.nodes) g.nodes in
    record g {
      starting = start;
      nodes = built;
      nodes_to_execute = count_included built;
      nodes_in_flight = 0;
    }

unfoldable pub queue_head_nodes : Bool → Graph → Bool × Graph
unfolding construct_graph queue_heads
queue_head_nodes start g =
    let g1 = construct_graph start g in
    let g2 = if ltb 0 g1.nodes_to_execute then queue_heads 0 g1.nodes g1 else g1 in
    (ltb 0 g2.nodes_in_flight, g2)

-- markRequested on all nodes, from node i on.
unfoldable pub mark_requested : List ℕ → ℕ → List Node → List Node
mark_requested wanted i [] = []
mark_requested wanted i (n ∷ ns) =
    record n { in_requested_state = elem i wanted } ∷ mark_requested wanted (suc i) ns

unfoldable pub queue_start_jobs : Graph → Graph
unfolding queue_head_nodes set_graph_state set_pending_event
queue_start_jobs g =
    let (queued, g1) = queue_head_nodes true g in
    if queued then g1 else set_pending_event set_state_success (set_graph_state success g1)

unfoldable pub queue_stop_jobs : List ℕ → Graph → Graph
unfolding queue_head_nodes queue_start_jobs mark_requested
queue_stop_jobs wanted g =
    let (queued, g1) =
      queue_head_nodes false (record g { nodes = mark_requested wanted 0 g.nodes }) in
    if queued then g1 else queue_start_jobs g1

-- The name that was requested before is put back where the transition is refused.
unfoldable pub start_transition : ℕ → Graph → Bool × Graph
unfolding set_graph_state queue_stop_jobs
start_transition pg_state g =
    let g1 = record g { pg_state_name = pg_state } in
    elim (g.process_indexes pg_state) [
      | none ↦ (false, record g1 { pg_state_name = g.pg_state_name })
      | some wanted ↦
          let g2 = set_graph_state in_transition g1 in
          if is_graph_state g2.state in_transition
          then (true, queue_stop_jobs wanted g2)
          else (false, record g2 { pg_state_name = g.pg_state_name })
    ]

unfoldable pub start_initial_transition : ℕ → Graph → Bool × Graph
unfolding start_transition set_initial_state_transition_result
start_initial_transition pg_state g =
    let (result, g1) =
      start_transition pg_state (record g { is_initial_state_transition = true }) in
    if result then (true, g1) else (
      false,
      set_initial_state_transition_result initial_machine_state_failed
          (record g1 { is_initial_state_transition = false }),
    )

unfoldable pub start_transition_to_off_state : Graph → Bool × Graph
unfolding set_graph_state queue_stop_jobs
start_transition_to_off_state g =
    let g1 = set_graph_state in_transition (record g { pg_state_name = g.off_state }) in
    if is_graph_state g1.state in_transition then (true, queue_stop_jobs [] g1) else (false, g1)

-- The last node of a phase: the transition is done after the start phase, which follows the stop phase.
unfoldable pub finish_phase : Graph → Graph
unfolding conclude_initial set_graph_state set_pending_event queue_start_jobs
finish_phase g =
    if g.starting
    then set_pending_event set_state_success
        (set_graph_state success (conclude_initial initial_machine_state_success g))
    else queue_start_jobs g

unfoldable pub handle_transition_execution : Graph → Graph
unfolding finish_phase
handle_transition_execution g =
    let g1 = record g {
      nodes_in_flight = g.nodes_in_flight - 1;
      nodes_to_execute = g.nodes_to_execute - 1;
    } in
    if ltb 0 g.nodes_to_execute
    then (if g1.nodes_to_execute == 0 then finish_phase g1 else g1)
    else g

unfoldable pub handle_non_transition_execution : GraphState → Graph → Graph
unfolding conclude_initial set_graph_state set_pending_event
handle_non_transition_execution current g =
    let g1 = record g { nodes_in_flight = g.nodes_in_flight - 1 } in
    let g2 = set_graph_state undefined_state (conclude_initial initial_machine_state_failed g1) in
    if g1.nodes_in_flight == 0
    then (if is_graph_state current aborting then set_pending_event g2.abort_code g2 else g2)
    else g1

unfoldable pub node_executed : Graph → Graph
unfolding handle_transition_execution handle_non_transition_execution
node_executed g =
    if is_graph_state g.state in_transition
    then handle_transition_execution g
    else handle_non_transition_execution g.state g
