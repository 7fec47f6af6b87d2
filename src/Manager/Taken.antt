-- ===== src/Manager/Taken.antt =====
-- What a process group makes of a request for a state, and which group a name stands for.
use inc_lifecycle.Base.{
  ℕ, zero, suc, ◌<◌, ◌≡◌, ◌≢◌, refl, ◌∙◌, Bool, true, false, not, ◌&&◌, ◌||◌, none, some, List, [],
  ◌∷◌, ◌==◌, if◌then◌else◌, get_elem?, arith,
}
use inc_lifecycle.Group.{
  success, in_transition, cancelled, undefined_state, is_graph_state, not_set, ControlClientId,
  Graph, set_graph_state, next_graph_state, state_results, set_pending_event, cancel,
  set_state_manager, set_pending_state, conclude_initial, set_initial_state_transition_result,
}
use inc_lifecycle.Group.Requests.{replace_request, request_state}
use inc_lifecycle.Manager.{ProcessGroup, get_process_group}

-- The group is in the state already, or on the way to it.
abbrev pub is_reached : ℕ → Graph → Bool
is_reached wanted g =
    (g.pg_state_name == wanted)
    && (is_graph_state g.state in_transition || is_graph_state g.state success)

-- The state is pending unless it is reached, and a transition to another one is cancelled, at once if
-- nothing is in flight. The client is the state manager from then on, and nothing is queued.
pub record Takes (wanted : ℕ) (client : ControlClientId) (g h : Graph) : Type 0 where
  pub manager : h.last_state_manager ≡ client
  pub pending : h.pending_state ≡ (if is_reached wanted g then g.pending_state else wanted)
  pub state : h.state ≡ (
      if is_graph_state g.state in_transition && not (g.pg_state_name == wanted)
      then (if g.nodes_in_flight == 0 then undefined_state else cancelled)
      else g.state)
  pub target : h.pg_state_name ≡ g.pg_state_name
  pub event : h.event ≡ not_set
  pub jobs : h.jobs ≡ g.jobs

manager_set :
    (client : ControlClientId) (g : Graph)
    → let h = set_state_manager client g in
      (h.last_state_manager ≡ client)
      × (h.pending_state ≡ g.pending_state)
      × (h.state ≡ g.state)
      × (h.pg_state_name ≡ g.pg_state_name)
      × (h.event ≡ not_set)
      × (h.jobs ≡ g.jobs)
unfolding set_state_manager
manager_set client g = ground arith

state_requested :
    (wanted : ℕ) (g : Graph)
    → let h = (request_state wanted g).1 in
      (h.pending_state ≡ (if is_reached wanted g then g.pending_state else wanted))
      × (h.state ≡ (
          if is_graph_state g.state in_transition && not (g.pg_state_name == wanted)
          then (if g.nodes_in_flight == 0 then undefined_state else cancelled)
          else g.state))
      × (h.pg_state_name ≡ g.pg_state_name)
      × (h.jobs ≡ g.jobs)
unfolding request_state replace_request cancel set_pending_state set_graph_state next_graph_state
    state_results set_pending_event conclude_initial set_initial_state_transition_result
state_requested wanted g = ground arith

pub request-Takes :
    (wanted : ℕ) (client : ControlClientId) (g : Graph)
    → Takes wanted client g (set_state_manager client (request_state wanted g).1)
request-Takes wanted client g =
    let set_to = manager_set client (request_state wanted g).1 in
    let asked = state_requested wanted g in
    record {
      manager = set_to.0;
      pending = set_to.1 ∙ asked.0;
      state = set_to.2 ∙ asked.1;
      target = set_to.3 ∙ asked.2;
      event = set_to.4;
      jobs = set_to.5 ∙ asked.3;
    }

-- The group at i has this name, and none before it has.
pub record IsFirst (name i : ℕ) (g : ProcessGroup) (groups : List ProcessGroup) : Type 0 where
  pub at : get_elem? groups i ≡ some g
  pub named : g.name ≡ name
  pub none_before : (j : ℕ) (h : ProcessGroup) → j < i → get_elem? groups j ≡ some h → h.name ≢ name

pub get_process_group-IsFirst :
    (name i : ℕ) (g : ProcessGroup) (groups : List ProcessGroup)
    → IsFirst name i g groups
    → get_process_group name groups ≡ some i
unfolding get_process_group
get_process_group-IsFirst name i g [] f = absurd (none≢some f.at)
  where
    none≢some : none ≡ some g → ⊥
    none≢some e = cc
get_process_group-IsFirst name zero g (h ∷ groups) f =
    let e : (h.name == name) ≡ true = ground (arith, f.at, f.named) in
    rw (e, get_process_group) refl
get_process_group-IsFirst name (suc i) g (h ∷ groups) f =
    let other : h.name ≢ name = f.none_before 0 h (omega arith) refl in
    let e : (h.name == name) ≡ false = ground arith in
    let rest = get_process_group-IsFirst name i g groups (record {
      at = f.at;
      named = f.named;
      none_before = λ j k l at. f.none_before (suc j) k (omega arith) at;
    }) in
    rw (e, get_process_group, rest) refl
