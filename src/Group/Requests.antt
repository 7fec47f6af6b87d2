-- ===== src/Group/Requests.antt =====
-- The requests to a process group and what is sent for it
-- (src/launch_manager_daemon/src/process_group_manager/processgroupmanager.cpp). The group that
-- getProcessGroup finds is an argument, `none` for an unknown one; the empty name of a state is 0.
-- Whether a channel takes a message and the configured recovery state are arguments.
use inc_lifecycle.Base.{ℕ, suc, Bool, not, ◌&&◌, ◌||◌, Option, none, some, ◌==◌, if◌then◌else◌}
use inc_lifecycle.Group.{
  success, in_transition, undefined_state, is_graph_state, ControlClientCode, not_set,
  set_state_success, set_state_invalid_arguments, set_state_already_in_state,
  set_state_transition_to_same_state, execution_error_invalid_arguments,
  execution_error_request_failed, execution_error_request_success,
  validate_process_group_state_failed, validate_process_group_state_success,
  initial_machine_state_not_set, ControlClientId, Graph, set_pending_event, cancel, is_not_set,
  set_state_manager, set_pending_state,
}
use inc_lifecycle.Group.Nodes.{start_transition}

-- The new state is pending, and a transition under way to another one is cancelled.
unfoldable pub replace_request : ℕ → Graph → Graph
unfolding cancel set_pending_state
replace_request wanted g = cancel (set_pending_state wanted g).1

unfoldable pub request_state : ℕ → Graph → ControlClientCode × Graph
unfolding replace_request set_pending_state
request_state wanted g =
    let same = g.pg_state_name == wanted in
    if is_graph_state g.state in_transition
    then (if not same
        then (set_state_success, replace_request wanted g)
        else (set_state_transition_to_same_state, g))
    else if is_graph_state g.state success && same
    then (set_state_already_in_state, g)
    else (set_state_success, (set_pending_state wanted g).1)

unfoldable pub process_state_transition :
    ControlClientId → ℕ → Option Graph → ControlClientCode × Option Graph
unfolding request_state set_state_manager
process_state_transition client wanted none = (set_state_invalid_arguments, none)
process_state_transition client wanted (some g) =
    let (code, g1) = request_state wanted g in (code, some (set_state_manager client g1))

unfoldable pub process_get_execution_error : Option Graph → ControlClientCode × Option ℕ
process_get_execution_error none = (execution_error_invalid_arguments, none)
process_get_execution_error (some g) =
    if not (is_graph_state g.state undefined_state)
    then (execution_error_request_failed, none)
    else (execution_error_request_success, some g.last_execution_error)

-- The results that a control client still waits for, up to the maximum of their counter.
unfoldable pub process_get_initial_machine_state_transition_result :
    ControlClientCode → Bool → ℕ → ℕ → ControlClientCode × ℕ
process_get_initial_machine_state_transition_result request has_group max_count count =
    if not has_group || count == max_count
    then (initial_machine_state_not_set, count)
    else (request, suc count)

unfoldable pub process_validate_function_state_id : ℕ → Graph → ControlClientCode
process_validate_function_state_id pg_state g = elim (g.process_indexes pg_state) [
  | none ↦ validate_process_group_state_failed
  | some _ ↦ validate_process_group_state_success
]

-- controlClientResponses: whether the pending event and the cancel message could be sent.
unfoldable pub control_client_responses : Bool → Bool → Graph → Graph
control_client_responses event_sent cancel_sent g =
    let g1 = if not (is_not_set g.event) && event_sent then record g { event = not_set } else g in
    if not (is_not_set g1.cancel_message.request_or_response) && cancel_sent
    then record g1 { cancel_message = record g1.cancel_message { request_or_response = not_set } }
    else g1

pub data RecoveryResponse : Type 0 where
  succeeded invalid_arguments in_transition_to_same_state already_in_state : RecoveryResponse

-- One turn of recoveryActionHandler.
unfoldable pub recovery_action : Bool → Bool → ℕ → Option Graph → RecoveryResponse × Option Graph
unfolding replace_request control_client_responses set_pending_state
recovery_action event_sent cancel_sent wanted none = (invalid_arguments, none)
recovery_action event_sent cancel_sent wanted (some g) =
    let same = g.pg_state_name == wanted in
    if is_graph_state g.state in_transition
    then (if not same
        then (
          succeeded,
          some (control_client_responses event_sent cancel_sent (replace_request wanted g)),
        )
        else (in_transition_to_same_state, some g))
    else if is_graph_state g.state success && same
    then (already_in_state, some g)
    else (succeeded, some (set_pending_state wanted g).1)

-- The start of the pending transition; one that is refused is answered.
unfoldable pub start_pending : ℕ → Graph → Graph
unfolding start_transition set_pending_event
start_pending wanted g =
    let (started, g1) = start_transition wanted g in
    if started then g1 else set_pending_event set_state_invalid_arguments g1

-- processGroupHandler. `undefined` is the state that was read at its start.
unfoldable pub process_group_handler : ℕ → Graph → Graph
unfolding set_pending_state start_pending start_transition
process_group_handler recovery_state g =
    let undefined = is_graph_state g.state undefined_state in
    let (wanted, g1) = set_pending_state 0 g in
    let g2 =
      if not (wanted == 0) && (not (wanted == g1.pg_state_name) || undefined)
      then start_pending wanted g1
      else g1 in
    if is_graph_state g.state success || undefined
    then (if undefined then (start_transition recovery_state g2).1 else g2)
    else g
