-- ===== src/Group.antt =====
-- A process group (src/launch_manager_daemon/src/process_group_manager/graph.hpp, graph.cpp and
-- processinfonode.hpp): its graph of process nodes, the state of the graph and what is pending for the
-- control clients. A node is known by its index in `nodes_`, names by their hashes. The atomic
-- members are read and written one operation at a time; logging, the clock and the nudge of the
-- handler's thread are left out.
pub mod Nodes
pub mod Work
pub mod Start
pub mod States
pub mod Ready
pub mod Heads
pub mod Drain
pub mod Kept
pub mod Counted
pub mod Released
pub mod Starting
pub mod Workers
pub mod Errors
pub mod Exits
pub mod Doubled
pub mod Requests
pub mod Requested
pub mod Recovery
pub mod Managers
pub mod Polling
use inc_lifecycle.Base.{
  ℕ, suc, ◌+◌, ◌-◌, Bool, true, false, Option, none, some, List, [], ◌∷◌, ◌++◌, ◌==◌, ltb,
  if◌then◌else◌, get_elem?, set,
}

pub data GraphState : Type 0 where
  success in_transition aborting cancelled undefined_state : GraphState

pub data ControlClientCode : Type 0 where
  not_set invalid_request : ControlClientCode
  set_state_request set_state_invalid_arguments set_state_cancelled : ControlClientCode
  set_state_failed set_state_success set_state_already_in_state : ControlClientCode
  set_state_transition_to_same_state : ControlClientCode
  failed_unexpected_termination_on_enter failed_unexpected_termination : ControlClientCode
  get_initial_machine_state_request initial_machine_state_not_set : ControlClientCode
  initial_machine_state_failed initial_machine_state_success : ControlClientCode
  get_execution_error_request execution_error_invalid_arguments : ControlClientCode
  execution_error_request_failed execution_error_request_success : ControlClientCode
  validate_process_group_state validate_process_group_state_failed : ControlClientCode
  validate_process_group_state_success : ControlClientCode

-- score::lcm::ProcessState
pub data ProcessState : Type 0 where
  idle starting running terminating terminated : ProcessState

-- osal::CommsType
pub data CommsType : Type 0 where
  no_comms reporting control_client launch_manager : CommsType

pub record Dependency : Type 0 where
  pub process_state : ProcessState
  pub os_process_index : ℕ

-- The parts of an OsProcess and of its dependency list that the node reads.
pub record OsProcess : Type 0 where
  pub comms_type : CommsType
  pub is_self_terminating : Bool
  pub number_of_restart_attempts : ℕ
  pub execution_error_code : ℕ
  pub dependency_list : List Dependency

-- ProcessInfoNode. `status` is the two's complement of the exit status.
pub record Node : Type 0 where
  pub config : OsProcess
  pub open config use *
  pub status : ℕ
  pub state : ProcessState
  pub dependencies : ℕ
  pub dependent_on_running : List ℕ
  pub dependent_on_terminating : List ℕ
  pub in_requested_state : Bool
  pub is_included : Bool
  pub is_head_node : Bool

-- ControlClientID; the id of the request is only passed on and left out.
pub record ControlClientId : Type 0 where
  pub process_group_index : ℕ
  pub process_index : ℕ
  pub future_id : ℕ

pub record CancelMessage : Type 0 where
  pub pg_state_name : ℕ
  pub originating_control_client : ControlClientId
  pub request_or_response : ControlClientCode

-- Graph, with the nodes of the group in the job queue and the states that were reported, newest
-- first. `process_indexes` is what the configuration lists for a state of this group;
-- `nodes_in_flight` is signed in the code and never read below 0 here.
pub record Graph : Type 0 where
  pub nodes : List Node
  pub nodes_to_execute : ℕ
  pub nodes_in_flight : ℕ
  pub starting : Bool
  pub state : GraphState
  pub pg_state_name : ℕ
  pub last_state_manager : ControlClientId
  pub last_execution_error : ℕ
  pub is_initial_state_transition : Bool
  pub pending_state : ℕ
  pub event : ControlClientCode
  pub abort_code : ControlClientCode
  pub cancel_message : CancelMessage
  pub off_state : ℕ
  pub process_indexes : ℕ → Option (List ℕ)
  pub initial_state_transition_result : ControlClientCode
  pub jobs : List ℕ
  pub reported : List (ℕ × ProcessState)

abbrev pub is_graph_state : GraphState → GraphState → Bool
is_graph_state success success = true
is_graph_state in_transition in_transition = true
is_graph_state aborting aborting = true
is_graph_state cancelled cancelled = true
is_graph_state undefined_state undefined_state = true
is_graph_state _ _ = false

-- The table `state_results`: the row of the new state at the column of the old one.
unfoldable pub state_results : GraphState → GraphState → GraphState
state_results success success = success
state_results success in_transition = success
state_results success _ = undefined_state
state_results in_transition aborting = aborting
state_results in_transition cancelled = cancelled
state_results in_transition _ = in_transition
state_results aborting in_transition = aborting
state_results aborting aborting = aborting
state_results aborting cancelled = cancelled
state_results aborting _ = undefined_state
state_results cancelled success = undefined_state
state_results cancelled undefined_state = undefined_state
state_results cancelled _ = cancelled
state_results undefined_state in_transition = aborting
state_results undefined_state _ = undefined_state

-- setState: one exchange, where no other thread changes the state between.
unfoldable pub next_graph_state : GraphState → GraphState → GraphState
next_graph_state new old = if is_graph_state old new then old else state_results new old

unfoldable pub set_graph_state : GraphState → Graph → Graph
unfolding next_graph_state
set_graph_state new g = record g { state = next_graph_state new g.state }

unfoldable pub set_pending_event : ControlClientCode → Graph → Graph
set_pending_event e g = record g { event = e }

unfoldable pub set_initial_state_transition_result : ControlClientCode → Graph → Graph
set_initial_state_transition_result r g = record g { initial_state_transition_result = r }

-- `is_initial_state_transition_` is reset with the result that it leads to.
unfoldable pub conclude_initial : ControlClientCode → Graph → Graph
unfolding set_initial_state_transition_result
conclude_initial r g =
    if g.is_initial_state_transition
    then set_initial_state_transition_result r (record g { is_initial_state_transition = false })
    else g

-- `getState() < kAborting`.
abbrev pub is_before_aborting : GraphState → Bool
is_before_aborting success = true
is_before_aborting in_transition = true
is_before_aborting _ = false

unfoldable pub abort : ℕ → ControlClientCode → Graph → Graph
unfolding set_graph_state
abort code reason g =
    if is_before_aborting g.state
    then record (set_graph_state aborting g) { last_execution_error = code; abort_code = reason }
    else g

unfoldable pub cancel : Graph → Graph
unfolding set_graph_state set_pending_event conclude_initial
cancel g =
    let g1 = set_graph_state cancelled g in
    let g2 =
      if is_graph_state g1.state cancelled then set_pending_event set_state_cancelled g1 else g1 in
    if g2.nodes_in_flight == 0
    then set_graph_state undefined_state (conclude_initial initial_machine_state_failed g2)
    else g2

abbrev pub is_not_set : ControlClientCode → Bool
is_not_set not_set = true
is_not_set _ = false

-- setStateManager. `clearPendingEvent` is given the event that was just read.
unfoldable pub set_state_manager : ControlClientId → Graph → Graph
set_state_manager client g =
    let g1 = if is_not_set g.event then g else record g {
      cancel_message = record {
        pg_state_name = g.pg_state_name;
        originating_control_client = g.last_state_manager;
        request_or_response = g.event;
      };
      event = not_set;
    } in
    record g1 { last_state_manager = client }

-- setPendingState, with the state that was pending.
unfoldable pub set_pending_state : ℕ → Graph → ℕ × Graph
set_pending_state s g = (g.pending_state, record g { pending_state = s })

abbrev pub node_at : ℕ → Graph → Option Node
node_at i g = get_elem? g.nodes i

abbrev pub put_node : ℕ → Node → Graph → Graph
put_node i n g = record g { nodes = set g.nodes i n }
