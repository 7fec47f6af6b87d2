-- ===== src/Manager.antt =====
-- The process groups together and the channels to their control clients
-- (src/launch_manager_daemon/src/process_group_manager/processgroupmanager.cpp,
-- src/launch_manager_daemon/common/src/internal/controlclientchannel.cpp). A process group is known by
-- its index and found by its name, a number; a node by its index, below 2^16, to which the routing cuts
-- the indices. The semaphores only wake the other side, and shared memory that cannot be had is a channel that is not there.
pub mod Taken
pub mod Routing
pub mod Responses
pub mod Acknowledged
use inc_lifecycle.Base.{
  ℕ, zero, suc, ◌-◌, Bool, true, false, not, ◌&&◌, Option, none, some, List, [], ◌∷◌, get_elem?,
  set, ◌==◌, if◌then◌else◌,
}
use inc_lifecycle.Group.{
  ControlClientCode, not_set, invalid_request, set_state_request, get_execution_error_request,
  get_initial_machine_state_request, validate_process_group_state,
  validate_process_group_state_failed, initial_machine_state_not_set, ControlClientId, Graph,
  CancelMessage, is_not_set,
}
use inc_lifecycle.Group.Requests.{
  process_state_transition, process_get_execution_error, control_client_responses,
  process_get_initial_machine_state_transition_result, process_validate_function_state_id,
}

-- ControlClientMessage
pub record Message : Type 0 where
  pub request_or_response : ControlClientCode
  pub pg_name : ℕ
  pub pg_state_name : ℕ
  pub originating_control_client : ControlClientId
  pub execution_error_code : ℕ

-- ControlClientComms
pub record Comms : Type 0 where
  pub empty : Bool
  pub msg : Message

pub record ControlClientChannel : Type 0 where
  pub request : Comms
  pub response : Comms
  pub initial_result_count : ℕ

unfoldable pub initialize : ControlClientChannel → ControlClientChannel
initialize c = record c {
  request = record c.request { empty = true };
  response = record c.response { empty = true };
  initial_result_count = 0;
}

unfoldable pub send_response : Message → ControlClientChannel → ControlClientChannel × Bool
send_response msg c =
    if c.response.empty
    then (record c { response = record { empty = false; msg = msg } }, true)
    else (c, false)

-- The client takes its response.
unfoldable pub get_response : ControlClientChannel → Option Message × ControlClientChannel
get_response c =
    if c.response.empty
    then (none, c)
    else (some c.response.msg, record c { response = record c.response { empty = true } })

-- The client's part of sendRequest before it waits.
unfoldable pub send_request : Message → ControlClientChannel → ControlClientChannel
send_request msg c = record c { request = record { empty = false; msg = msg } }

unfoldable pub acknowledge_request : ControlClientChannel → ControlClientChannel
acknowledge_request c = record c { request = record c.request { empty = true } }

-- A process group with the channels of its nodes.
pub record ProcessGroup : Type 0 where
  pub name : ℕ
  pub graph : Graph
  pub channels : List (Option ControlClientChannel)

-- The result of the initial transition stands in the graph of the machine's
-- process group, the only one that sets it.
pub record Manager : Type 0 where
  pub process_groups : List ProcessGroup
  pub machine_process_group : Option ℕ

-- The index of the first group of this name.
unfoldable pub get_process_group : ℕ → List ProcessGroup → Option ℕ
get_process_group name [] = none
get_process_group name (g ∷ gs) =
    let rest : Option ℕ = elim (get_process_group name gs) [
      | none ↦ none
      | some i ↦ some (suc i)
    ] in
    if g.name == name then some 0 else rest

abbrev pub graph_of : Option ProcessGroup → Option Graph
graph_of none = none
graph_of (some g) = some g.graph

unfoldable pub initial_result : Manager → ControlClientCode
initial_result m = elim m.machine_process_group [
  | none ↦ initial_machine_state_not_set
  | some i ↦ elim (get_elem? m.process_groups i) [
    | none ↦ initial_machine_state_not_set
    | some g ↦ g.graph.initial_state_transition_result
  ]
]

-- The graph of the group of this name, as the handlers are given it.
unfoldable pub find_graph : ℕ → Manager → Option Graph
unfolding get_process_group
find_graph name m = elim (get_process_group name m.process_groups) [
  | none ↦ none
  | some i ↦ graph_of (get_elem? m.process_groups i)
]

unfoldable pub put_group : ℕ → ProcessGroup → Manager → Manager
put_group i g m = record m { process_groups = set m.process_groups i g }

unfoldable pub put_graph : ℕ → Option Graph → Manager → Manager
unfolding get_process_group put_group
put_graph name none m = m
put_graph name (some graph) m = elim (get_process_group name m.process_groups) [
  | none ↦ m
  | some i ↦ elim (get_elem? m.process_groups i) [
    | none ↦ m
    | some g ↦ put_group i (record g { graph = graph }) m
  ]
]

-- The channel of a node; getProcessInfoNode and getControlClientChannel.
unfoldable pub channel_of : ControlClientId → Manager → Option ControlClientChannel
channel_of id m = elim (get_elem? m.process_groups id.process_group_index) [
  | none ↦ none
  | some g ↦ elim (get_elem? g.channels id.process_index) [ none ↦ none | some c ↦ c ]
]

unfoldable pub put_channel : ControlClientId → ControlClientChannel → Manager → Manager
unfolding put_group
put_channel id c m = elim (get_elem? m.process_groups id.process_group_index) [
  | none ↦ m
  | some g ↦
      put_group id.process_group_index
        (record g { channels = set g.channels id.process_index (some c) }) m
]

-- A message to a client without a channel is taken for sent.
unfoldable pub send : Message → Manager → Manager × Bool
unfolding channel_of put_channel send_response
send msg m = elim (channel_of msg.originating_control_client m) [
  | none ↦ (m, true)
  | some c ↦
      let (c', sent) = send_response msg c in
      (put_channel msg.originating_control_client c' m, sent)
]

abbrev pub max_count : ℕ
max_count = 65_535

-- The answer to a request, with the graph and the counter that it leaves.
unfoldable pub process_request : ControlClientCode → Message → ℕ → Manager → Message × ℕ × Manager
unfolding find_graph put_graph
process_request set_state_request msg count m =
    let (code, graph) =
      process_state_transition msg.originating_control_client msg.pg_state_name
        (find_graph msg.pg_name m) in
    (record msg { request_or_response = code }, count, put_graph msg.pg_name graph m)
process_request get_execution_error_request msg count m =
    let (code, error) = process_get_execution_error (find_graph msg.pg_name m) in
    (
      record msg {
        request_or_response = code;
        execution_error_code = elim error [ none ↦ msg.execution_error_code | some e ↦ e ];
      },
      count,
      m,
    )
process_request get_initial_machine_state_request msg count m =
    let (code, count') =
      process_get_initial_machine_state_transition_result get_initial_machine_state_request
        (elim m.machine_process_group [ none ↦ false | some i ↦ true ]) max_count count in
    (record msg { request_or_response = code }, count', m)
process_request validate_process_group_state msg count m = (
  record msg {
    request_or_response = elim (find_graph msg.pg_name m) [
      | none ↦ validate_process_group_state_failed
      | some g ↦ process_validate_function_state_id msg.pg_state_name g
    ];
  },
  count,
  m,
)
process_request code msg count m = (record msg { request_or_response = invalid_request }, count, m)

-- The client keeps its own number; the process that it runs in is filled in.
abbrev pub routed : ControlClientId → Message → ControlClientId
routed id msg = record id { future_id = msg.originating_control_client.future_id }

abbrev pub route : ControlClientId → Message → Message
route id msg = record msg { originating_control_client = routed id msg }

-- A request in the channel of a node: its routing is filled in, it is processed and acknowledged.
unfoldable pub answer_request :
    ControlClientId → ControlClientChannel → Manager → ControlClientChannel × Manager
unfolding process_request acknowledge_request
answer_request id c m =
    let (msg, count, m') =
      process_request c.request.msg.request_or_response (route id c.request.msg)
        c.initial_result_count m in
    if c.request.empty then (c, m) else (
      acknowledge_request
          (record c { request = record c.request { msg = msg }; initial_result_count = count }),
      m',
    )

abbrev pub is_initial_not_set : ControlClientCode → Bool
is_initial_not_set initial_machine_state_not_set = true
is_initial_not_set _ = false

-- The result of the initial transition, for a request that waits for it.
unfoldable pub send_deferred : ControlClientCode → ControlClientChannel → ControlClientChannel
unfolding send_response
send_deferred result c =
    let msg : Message = record {
      request_or_response = result;
      pg_name = 0;
      pg_state_name = 0;
      originating_control_client = c.request.msg.originating_control_client;
      execution_error_code = 0;
    } in
    let (c', sent) = send_response msg c in
    if not (is_initial_not_set result) && not (c.initial_result_count == 0)
    then (if sent then record c' { initial_result_count = c.initial_result_count - 1 } else c')
    else c

-- The turn of controlClientRequests for one node.
unfoldable pub handle_request : ControlClientId → Manager → Manager
unfolding channel_of answer_request send_deferred put_channel initial_result
handle_request id m = elim (channel_of id m) [
  | none ↦ m
  | some c ↦
      let (c', m') = answer_request id c m in
      put_channel id (send_deferred (initial_result m') c') m'
]

abbrev pub event_message : ProcessGroup → Message
event_message g = record {
  request_or_response = g.graph.event;
  pg_name = g.name;
  pg_state_name = g.graph.pg_state_name;
  originating_control_client = g.graph.last_state_manager;
  execution_error_code = g.graph.last_execution_error;
}

-- The message that set_state_manager leaves for the client before; its error
-- code is never set.
abbrev pub cancellation : ProcessGroup → Message
cancellation g = record (event_message g) {
  request_or_response = g.graph.cancel_message.request_or_response;
  pg_state_name = g.graph.cancel_message.pg_state_name;
  originating_control_client = g.graph.cancel_message.originating_control_client;
  execution_error_code = 0;
}

-- Nothing is sent for a code that is not set.
unfoldable pub send_if_set : Message → Manager → Manager × Bool
unfolding send
send_if_set msg m = if is_not_set msg.request_or_response then (m, false) else send msg m

-- What could be sent is no longer pending in the group.
unfoldable pub clear_sent : ℕ → Bool → Bool → Manager → Manager
unfolding put_group control_client_responses
clear_sent i event_sent cancel_sent m = elim (get_elem? m.process_groups i) [
  | none ↦ m
  | some g ↦
      put_group i (record g { graph = control_client_responses event_sent cancel_sent g.graph }) m
]

-- controlClientResponses of the group with this index.
unfoldable pub send_responses : ℕ → Manager → Manager
unfolding send_if_set clear_sent
send_responses i m = elim (get_elem? m.process_groups i) [
  | none ↦ m
  | some g ↦
      let event_sent = send_if_set (event_message g) m in
      let cancel_sent = send_if_set (cancellation g) event_sent.0 in
      clear_sent i event_sent.1 cancel_sent.1 cancel_sent.0
]
