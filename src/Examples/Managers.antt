-- ===== src/Examples/Managers.antt =====
-- State managers: their list with a dead and a living one, and a channel with a request.
use inc_lifecycle.Base.{
  Option, ℕ, zero, suc, ap, ◌∙◌, ◌<◌, get_elem?, ◌≡◌, ◌≢◌, refl, true, false, none, some, [], ◌∷◌,
  ◌==◌, if◌then◌else◌, arith,
}
use inc_lifecycle.Group.{Graph, not_set, set_state_request, set_state_success, ControlClientId}
use inc_lifecycle.Group.Managers.{
  Managers, setup_control_client_channel, control_client_requests, no_managers, release_channel,
}
use inc_lifecycle.Group.Polling.{Polls, requests-Polls, setup_again-none}
use inc_lifecycle.Manager.{
  Message, ControlClientChannel, ProcessGroup, Manager, channel_of, routed, route, process_request,
  handle_request, event_message, send_responses,
}
use inc_lifecycle.Manager.Taken.{Takes, IsFirst}
use inc_lifecycle.Manager.Routing.{graph_at, handle_request-requests}
use inc_lifecycle.Manager.Acknowledged.{handle_request-acknowledges}
use inc_lifecycle.Manager.Responses.{send_responses-delivers}
use inc_lifecycle.Examples.Groups.{group}

-- The nodes 1 and 2 have got a channel, and the process of node 2 has terminated since.
abbrev listed : Managers
listed = record {
  has_channel = λ i. i == 1;
  next = λ i. if i == 0 then some 2 else if i == 2 then some 1 else none;
}

requests-Polls_example : Polls 5 5 0 (2 ∷ 1 ∷ []) listed
requests-Polls_example =
    requests-Polls 5 5 0 (2 ∷ 1 ∷ []) listed (omega arith) (omega arith) (refl, (refl, refl))
      (omega arith, (omega arith, tt)) ((omega arith, tt), (tt, tt))

-- The process of node 2 has terminated and is started again before the next polling.
abbrev terminated_manager : Managers
terminated_manager = release_channel 2 (setup_control_client_channel 2 no_managers)

setup_again-none_example :
    control_client_requests 100 100 0 (setup_control_client_channel 2 terminated_manager) ≡ none
unfolding setup_control_client_channel release_channel
setup_again-none_example = setup_again-none 100 100 2 terminated_manager (omega arith) refl

abbrev wanted : Message
wanted = record {
  request_or_response = set_state_request;
  pg_name = 7;
  pg_state_name = 2;
  originating_control_client = record { process_group_index = 0; process_index = 0; future_id = 5 };
  execution_error_code = 0;
}

abbrev channel : ControlClientChannel
channel = record {
  request = record { empty = false; msg = wanted };
  response = record { empty = true; msg = wanted };
  initial_result_count = 0;
}

abbrev process_group : ProcessGroup
process_group = record { name = 7; graph = group; channels = none ∷ some channel ∷ [] }

abbrev other_group : ProcessGroup
other_group = record process_group { name = 8; channels = [] }

abbrev manager : Manager
manager = record {
  process_groups = other_group ∷ process_group ∷ [];
  machine_process_group = some 0;
}

abbrev first_client : ControlClientId
first_client = record { process_group_index = 1; process_index = 1; future_id = 0 }

abbrev name_in : Option ProcessGroup → ℕ
name_in none = 0
name_in (some g) = g.name

before_it :
    (j : ℕ) (h : ProcessGroup) → j < 1 → get_elem? manager.process_groups j ≡ some h → h.name ≢ 7
before_it zero h l at e = let n : 8 ≡ 7 = ap name_in at ∙ e in absurd (omega (arith, n))
before_it (suc j) h l at e = absurd (omega arith)

manager-IsFirst : IsFirst 7 1 process_group manager.process_groups
manager-IsFirst = record { at = refl; named = refl; none_before = before_it }

handle_request-requests_example :
    ((h : Graph) × (graph_at 1 (handle_request first_client manager) ≡ some h)
      × Takes 2 (routed first_client wanted) group h)
    × ((j : ℕ) → j ≢ 1 → graph_at j (handle_request first_client manager) ≡ graph_at j manager)
unfolding channel_of
handle_request-requests_example =
    handle_request-requests 1 first_client channel process_group manager refl refl refl
      manager-IsFirst

handle_request-acknowledges_example :
    (c' : ControlClientChannel) × (channel_of first_client (handle_request first_client manager)
      ≡ some c')
    × (c'.request.empty ≡ true)
    × (c'.request.msg ≡ (process_request set_state_request (route first_client wanted) 0 manager).0)
unfolding channel_of
handle_request-acknowledges_example =
    handle_request-acknowledges first_client channel manager refl refl

-- The transition has succeeded and the client is to hear of it.
abbrev succeeded_group : ProcessGroup
succeeded_group = record process_group {
  graph = record group { event = set_state_success; last_state_manager = first_client };
}

abbrev to_answer : Manager
to_answer = record manager { process_groups = other_group ∷ succeeded_group ∷ [] }

send_responses-delivers_example :
    (channel_of first_client (send_responses 1 to_answer)
      ≡ some (record channel {
        response = record { empty = false; msg = event_message succeeded_group };
      }))
    × (graph_at 1 (send_responses 1 to_answer)
        ≡ some (record succeeded_group.graph { event = not_set }))
unfolding channel_of
send_responses-delivers_example =
    send_responses-delivers 1 succeeded_group channel to_answer refl refl refl refl
