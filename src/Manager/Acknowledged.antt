-- ===== src/Manager/Acknowledged.antt =====
-- The answer to a request in the channel that it came from.
use inc_lifecycle.Base.{
  ℕ, ◌≡◌, refl, ap, ◌∙◌, true, false, Option, none, some, get_elem?, Option-cases, inl, inr, arith,
}
use inc_lifecycle.Group.{ControlClientCode, set_state_request, ControlClientId, Graph}
use inc_lifecycle.Manager.{
  Message, ControlClientChannel, Manager, get_process_group, put_graph, channel_of, process_request,
  answer_request, acknowledge_request, send_response, send_deferred, initial_result, route,
  handle_request,
}
use inc_lifecycle.Manager.Responses.{put_group-channel, put_channel-channel}

put_graph-channel :
    (id : ControlClientId) (name : ℕ) (o : Option Graph) (m : Manager)
    → channel_of id (put_graph name o m) ≡ channel_of id m
unfolding put_graph
put_graph-channel id name none m = refl
put_graph-channel id name (some graph) m =
    elim (Option-cases (get_process_group name m.process_groups)) [
      | inl e ↦ rw (e, put_graph) refl
      | inr (i, e) ↦ elim (Option-cases (get_elem? m.process_groups i)) [
        | inl missing ↦ rw (e, missing, put_graph) refl
        | inr (g, at) ↦ rw (e, at, put_graph) (put_group-channel id i g graph m at)
      ]
    ]

process_request-channel :
    (id : ControlClientId) (code : ControlClientCode) (msg : Message) (count : ℕ) (m : Manager)
    → channel_of id (process_request code msg count m).2 ≡ channel_of id m
unfolding process_request
process_request-channel id set_state_request msg count m = put_graph-channel id msg.pg_name _ m
process_request-channel id code msg count m = ap (channel_of id) (ground arith)

send_deferred-request :
    (result : ControlClientCode) (c : ControlClientChannel)
    → (send_deferred result c).request ≡ c.request
unfolding send_deferred send_response
send_deferred-request result c = ground arith

-- The request with its answer, and what the handler leaves.
answered :
    (id : ControlClientId) (c : ControlClientChannel) (m : Manager)
    → c.request.empty ≡ false
    → let (msg, count, m') =
        process_request c.request.msg.request_or_response
          (route id c.request.msg)
          c.initial_result_count
          m in
      answer_request id c m ≡ (
        record c { request = record { empty = true; msg = msg }; initial_result_count = count },
        m',
      )
unfolding answer_request acknowledge_request
answered id c m there = rw (there, answer_request) refl

-- Every request is acknowledged: after a turn for its channel the request is taken, and the answer
-- of its handler with the routing filled in stands in its place.
pub handle_request-acknowledges :
    (id : ControlClientId) (c : ControlClientChannel) (m : Manager)
    → channel_of id m ≡ some c
    → c.request.empty ≡ false
    → (c' : ControlClientChannel) × (channel_of id (handle_request id m) ≡ some c')
      × (c'.request.empty ≡ true)
      × (c'.request.msg
          ≡ (process_request c.request.msg.request_or_response
              (route id c.request.msg)
              c.initial_result_count
              m).0)
unfolding handle_request
handle_request-acknowledges id c m e there =
    let msg = route id c.request.msg in
    let code = c.request.msg.request_or_response in
    let r = answer_request id c m in
    let c' = send_deferred (initial_result r.1) r.0 in
    let done = answered id c m there in
    let found : channel_of id r.1 ≡ some c =
      ap (λ x. channel_of id x.1) done
      ∙ process_request-channel id code msg c.initial_result_count m
      ∙ e in
    let request = send_deferred-request (initial_result r.1) r.0 ∙ ap (λ x. x.0.request) done in
    (
      c',
      rw (e, handle_request) (put_channel-channel id c c' r.1 found),
      ap (λ q. q.empty) request,
      ap (λ q. q.msg) request,
    )
