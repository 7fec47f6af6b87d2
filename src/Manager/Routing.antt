-- ===== src/Manager/Routing.antt =====
-- Which process groups a request of a control client can change.
use inc_lifecycle.Base.{
  ℕ, ◌≡◌, ◌≢◌, ◌⊎◌, refl, sym, ap, ◌∙◌, true, false, Option, none, some, get_elem?, get_elem?-set,
  get_elem?-set_ne, set, arith, ◌==◌, Bool-cases, Option-cases, inl, inr,
}
use inc_lifecycle.Group.{ControlClientCode, ControlClientId, Graph, set_state_manager}
use inc_lifecycle.Group.Requests.{request_state, process_state_transition}
use inc_lifecycle.Group.{set_state_request}
use inc_lifecycle.Manager.Taken.{Takes, request-Takes, IsFirst, get_process_group-IsFirst}
use inc_lifecycle.Manager.{
  Message, ControlClientChannel, ProcessGroup, Manager, get_process_group, put_group, put_graph,
  put_channel, channel_of, find_graph, process_request, answer_request, send_deferred,
  handle_request, route, routed, initial_result,
}

abbrev pub graph_in : Option ProcessGroup → Option Graph
graph_in none = none
graph_in (some g) = some g.graph

abbrev pub graph_at : ℕ → Manager → Option Graph
graph_at j m = graph_in (get_elem? m.process_groups j)

pub put_group-graph :
    (j i : ℕ) (g g' : ProcessGroup) (m : Manager)
    → get_elem? m.process_groups i ≡ some g
    → (j ≢ i) ⊎ (g'.graph ≡ g.graph)
    → graph_at j (put_group i g' m) ≡ graph_at j m
unfolding put_group
put_group-graph j i g g' m e (inl n) = ap graph_in (get_elem?-set_ne m.process_groups i j g' n)
put_group-graph j i g g' m e (inr same) = elim (Bool-cases (j == i)) [
  | inl equal ↦
      let at : j ≡ i = ground arith in
      ap graph_in
        (ap (get_elem? (set m.process_groups i g')) at ∙ get_elem?-set m.process_groups i g g' e)
      ∙ ap some same
      ∙ sym (ap graph_in (ap (get_elem? m.process_groups) at ∙ e))
  | inr other ↦ ap graph_in (get_elem?-set_ne m.process_groups i j g' (ground arith))
]

pub put_channel-graph :
    (j : ℕ) (id : ControlClientId) (c : ControlClientChannel) (m : Manager)
    → graph_at j (put_channel id c m) ≡ graph_at j m
unfolding put_channel
put_channel-graph j id c m =
    elim (Option-cases (get_elem? m.process_groups id.process_group_index)) [
      | inl e ↦ rw (e, put_channel) refl
      | inr (g, e) ↦
          rw (e, put_channel)
            (put_group-graph j id.process_group_index g
              (record g { channels = set g.channels id.process_index (some c) }) m e (inr refl))
    ]

put_graph-other :
    (j name : ℕ) (o : Option Graph) (m : Manager)
    → get_process_group name m.process_groups ≢ some j
    → graph_at j (put_graph name o m) ≡ graph_at j m
unfolding put_graph
put_graph-other j name none m n = refl
put_graph-other j name (some graph) m n =
    elim (Option-cases (get_process_group name m.process_groups)) [
      | inl e ↦ rw (e, put_graph) refl
      | inr (i, e) ↦ elim (Option-cases (get_elem? m.process_groups i)) [
        | inl e' ↦ rw (e, e', put_graph) refl
        | inr (g, e') ↦
            rw (e, e', put_graph)
              (put_group-graph j i g (record g { graph = graph }) m e'
                (inl (λ same. n (e ∙ ap some (sym same)))))
      ]
    ]

process_request-other :
    (j : ℕ) (code : ControlClientCode) (msg : Message) (count : ℕ) (m : Manager)
    → (code ≢ set_state_request) ⊎ (get_process_group msg.pg_name m.process_groups ≢ some j)
    → graph_at j (process_request code msg count m).2 ≡ graph_at j m
unfolding process_request
process_request-other j set_state_request msg count m (inl n) = absurd (n refl)
process_request-other j set_state_request msg count m (inr n) = put_graph-other j msg.pg_name _ m n
process_request-other j code msg count m n = ground arith

handle_request-graph :
    (j : ℕ) (id : ControlClientId) (c : ControlClientChannel) (m : Manager)
    → channel_of id m ≡ some c
    → graph_at j (handle_request id m) ≡ graph_at j (answer_request id c m).1
unfolding handle_request
handle_request-graph j id c m e =
    let r = answer_request id c m in
    rw (e, handle_request) (put_channel-graph j id (send_deferred (initial_result r.1) r.0) r.1)

-- A turn of the polling for the channel of a node leaves the graph of a process group as it is if
-- there is no request, or one that does not set a state, or one that names another group.
pub handle_request-other :
    (j : ℕ) (id : ControlClientId) (c : ControlClientChannel) (m : Manager)
    → channel_of id m ≡ some c
    → (c.request.empty ≡ true)
      ⊎ (c.request.msg.request_or_response ≢ set_state_request)
      ⊎ (get_process_group c.request.msg.pg_name m.process_groups ≢ some j)
    → graph_at j (handle_request id m) ≡ graph_at j m
unfolding answer_request
handle_request-other j id c m e (inl none_there) =
    handle_request-graph j id c m e ∙ rw (none_there, answer_request) refl
handle_request-other j id c m e (inr other) = elim (Bool-cases c.request.empty) [
  | inl none_there ↦ handle_request-graph j id c m e ∙ rw (none_there, answer_request) refl
  | inr there ↦
      handle_request-graph j id c m e
      ∙ rw (there, answer_request)
          (process_request-other j c.request.msg.request_or_response (route id c.request.msg)
            c.initial_result_count m other)
]

put_graph_self :
    (i name : ℕ) (g : ProcessGroup) (graph : Graph) (m : Manager)
    → get_process_group name m.process_groups ≡ some i
    → get_elem? m.process_groups i ≡ some g
    → graph_at i (put_graph name (some graph) m) ≡ some graph
unfolding put_graph put_group
put_graph_self i name g graph m e at =
    rw (e, at, put_graph)
      (ap graph_in (get_elem?-set m.process_groups i g (record g { graph = graph }) at))

find_graph-eq :
    (i name : ℕ) (g : ProcessGroup) (m : Manager)
    → get_process_group name m.process_groups ≡ some i
    → get_elem? m.process_groups i ≡ some g
    → find_graph name m ≡ some g.graph
unfolding find_graph
find_graph-eq i name g m name_at at = rw (name_at, at, find_graph) refl

some-injective : {i j : ℕ} → some i ≡ some j → i ≡ j
some-injective e = cc

requested_graph :
    (i : ℕ) (id : ControlClientId) (c : ControlClientChannel) (g : ProcessGroup) (m : Manager)
    → channel_of id m ≡ some c
    → c.request.empty ≡ false
    → c.request.msg.request_or_response ≡ set_state_request
    → get_process_group c.request.msg.pg_name m.process_groups ≡ some i
    → get_elem? m.process_groups i ≡ some g
    → graph_at i (handle_request id m)
      ≡ some (
          set_state_manager
            (routed id c.request.msg)
            (request_state c.request.msg.pg_state_name g.graph).1)
unfolding answer_request process_request process_state_transition
requested_graph i id c g m e there code name at =
    handle_request-graph i id c m e
    ∙ rw
        (
          there,
          code,
          answer_request,
          process_request,
          find_graph-eq i c.request.msg.pg_name g m name at,
          process_state_transition,
        )
        (put_graph_self i c.request.msg.pg_name g
          (set_state_manager (routed id c.request.msg)
            (request_state c.request.msg.pg_state_name g.graph).1)
          m name at)

-- A request for a state reaches the first group of the name that it gives. There the state is pending
-- unless the group is in it or on the way to it, a transition to another state is cancelled, at once
-- undefined if no node is in flight, and the client whose channel the request came from becomes the
-- state manager. The graphs of the other groups stay as they are.
pub handle_request-requests :
    (i : ℕ) (id : ControlClientId) (c : ControlClientChannel) (g : ProcessGroup) (m : Manager)
    → channel_of id m ≡ some c
    → c.request.empty ≡ false
    → c.request.msg.request_or_response ≡ set_state_request
    → IsFirst c.request.msg.pg_name i g m.process_groups
    → ((h : Graph) × (graph_at i (handle_request id m) ≡ some h)
        × Takes c.request.msg.pg_state_name (routed id c.request.msg) g.graph h)
      × ((j : ℕ) → j ≢ i → graph_at j (handle_request id m) ≡ graph_at j m)
handle_request-requests i id c g m e there code first =
    let found = get_process_group-IsFirst c.request.msg.pg_name i g m.process_groups first in
    (
      (
        set_state_manager (routed id c.request.msg)
            (request_state c.request.msg.pg_state_name g.graph).1,
        requested_graph i id c g m e there code found first.at,
        request-Takes c.request.msg.pg_state_name (routed id c.request.msg) g.graph,
      ),
      λ j n.
          handle_request-other j id c m e (inr (inr (λ at. n (some-injective (sym at ∙ found))))),
    )
