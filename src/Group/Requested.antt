-- ===== src/Group/Requested.antt =====
-- What the requests to a process group lead to
-- (src/launch_manager_daemon/src/process_group_manager/processgroupmanager.cpp and graph.cpp).
use inc_lifecycle.Base.{
  ℕ, false, some, ◌==◌, if◌then◌else◌, ◌≡◌, ◌≢◌, refl, ap, ◌∙◌, arith, inl, inr, Bool-cases,
}
use inc_lifecycle.Group.{
  in_transition, cancelled, undefined_state, not_set, set_state_success, set_state_cancelled,
  ControlClientId, Graph, set_pending_event, set_graph_state, next_graph_state, state_results,
  cancel, set_state_manager, set_pending_state, conclude_initial,
  set_initial_state_transition_result,
}
use inc_lifecycle.Group.Requests.{replace_request, request_state, process_state_transition}

-- What a cancellation in the transition leaves.
abbrev Cancels : Graph → Graph → Type 0
Cancels g h =
    (h.event ≡ set_state_cancelled)
    × (h.pg_state_name ≡ g.pg_state_name)
    × (h.last_state_manager ≡ g.last_state_manager)
    × (h.pending_state ≡ g.pending_state)
    × (h.state ≡ (if g.nodes_in_flight == 0 then undefined_state else cancelled))

cancel-Cancels : (g : Graph) → g.state ≡ in_transition → Cancels g (cancel g)
unfolding cancel set_graph_state next_graph_state state_results set_pending_event conclude_initial
    set_initial_state_transition_result
cancel-Cancels g h = elim (Bool-cases (g.nodes_in_flight == 0)) [
  | inl b ↦ elim (Bool-cases g.is_initial_state_transition) [
    | inl c ↦ rw (h, b, c) (refl, refl, refl, refl, refl)
    | inr c ↦ rw (h, b, c) (refl, refl, refl, refl, refl)
  ]
  | inr b ↦ rw (h, b) (refl, refl, refl, refl, refl)
]

not_same : (a b : ℕ) → a ≢ b → a == b ≡ false
not_same a b n = ground arith

request_state_replaces :
    (wanted : ℕ) (g : Graph)
    → g.state ≡ in_transition
    → g.pg_state_name ≢ wanted
    → request_state wanted g ≡ (set_state_success, replace_request wanted g)
unfolding request_state
request_state_replaces wanted g h n = rw (h, not_same g.pg_state_name wanted n, request_state) refl

-- A pending event becomes the message to the client before.
set_state_manager_moves :
    (client : ControlClientId) (g : Graph)
    → g.event ≡ set_state_cancelled
    → set_state_manager client g ≡ record g {
      cancel_message = record {
        pg_state_name = g.pg_state_name;
        originating_control_client = g.last_state_manager;
        request_or_response = set_state_cancelled;
      };
      event = not_set;
      last_state_manager = client;
    }
unfolding set_state_manager
set_state_manager_moves client g e = rw (e, set_state_manager) refl

replace_request-Cancels :
    (wanted : ℕ) (g : Graph)
    → g.state ≡ in_transition
    → Cancels (record g { pending_state = wanted }) (replace_request wanted g)
unfolding replace_request set_pending_state
replace_request-Cancels wanted g h = cancel-Cancels (record g { pending_state = wanted }) h

-- A request for another state than that of the transition under way is accepted: the state is pending
-- and the client becomes the state manager. The client before is sent the cancellation under the name
-- of its state, no event is left, and the group is cancelled while nodes are in flight and in the
-- undefined state otherwise.
pub process_state_transition_cancels :
    (client : ControlClientId) (wanted : ℕ) (g : Graph)
    → g.state ≡ in_transition
    → g.pg_state_name ≢ wanted
    → (g' : Graph) × (process_state_transition client wanted (some g)
        ≡ (set_state_success, some g'))
      × (g'.pending_state ≡ wanted)
      × (g'.last_state_manager ≡ client)
      × (g'.cancel_message ≡ record {
        pg_state_name = g.pg_state_name;
        originating_control_client = g.last_state_manager;
        request_or_response = set_state_cancelled;
      })
      × (g'.event ≡ not_set)
      × (g'.state ≡ (if g.nodes_in_flight == 0 then undefined_state else cancelled))
unfolding process_state_transition
process_state_transition_cancels client wanted g h n =
    let r = replace_request wanted g in
    let (event, name, manager, pending, state) = replace_request-Cancels wanted g h in
    let moved = set_state_manager_moves client r event in
    (
      set_state_manager client r,
      ap (λ c. (c.0, some (set_state_manager client c.1))) (request_state_replaces wanted g h n),
      ap (λ x. x.pending_state) moved ∙ pending,
      ap (λ x. x.last_state_manager) moved,
      ap (λ x. x.cancel_message) moved ∙ cc,
      ap (λ x. x.event) moved,
      ap (λ x. x.state) moved ∙ state,
    )
