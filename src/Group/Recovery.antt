-- ===== src/Group/Recovery.antt =====
-- The handler of a process group in an undefined state
-- (src/launch_manager_daemon/src/process_group_manager/processgroupmanager.cpp and graph.cpp).
use inc_lifecycle.Base.{
  ℕ, Bool, true, false, not, ◌&&◌, ◌||◌, none, some, List, ◌++◌, length, ◌==◌, ltb, if◌then◌else◌,
  ◌≡◌, refl, ap, ◌∙◌, arith, ◌⊎◌, inl, inr, Option-cases,
}
use inc_lifecycle.Group.{
  GraphState, success, in_transition, aborting, cancelled, undefined_state, is_graph_state,
  set_state_success, Graph, set_pending_event, set_graph_state, next_graph_state, state_results,
  set_pending_state,
}
use inc_lifecycle.Group.Nodes.{
  start_transition, queue_stop_jobs, queue_start_jobs, queue_head_nodes, construct_graph,
  mark_requested,
}
use inc_lifecycle.Group.Heads.{queue_head_nodes_lem, first_jobs, with_jobs}
use inc_lifecycle.Group.Requests.{start_pending, process_group_handler}

-- The transition to the state that g names is under way or done.
abbrev pub IsUnderWay : Graph → Graph → Type 0
IsUnderWay g h =
    (h.pg_state_name ≡ g.pg_state_name)
    × (h.process_indexes ≡ g.process_indexes)
    × ((h.state ≡ in_transition) ⊎ (h.state ≡ success))

if_IsUnderWay :
    (b : Bool) (g h k : Graph) → IsUnderWay g h → IsUnderWay g k → IsUnderWay g (if b then h else k)
if_IsUnderWay true g h k x y = x
if_IsUnderWay false g h k x y = y

queued_or :
    (start : Bool) (g : Graph) (f : Graph → Graph)
    → g.state ≡ in_transition
    → ((h : Graph) → h.state ≡ in_transition → IsUnderWay h (f h))
    → let (queued, g1) = queue_head_nodes start g in IsUnderWay g (if queued then g1 else f g1)
unfolding construct_graph
queued_or start g f h w =
    let g1 =
      with_jobs (g.jobs ++ first_jobs start g) (length (first_jobs start g))
        (construct_graph start g) in
    rw (queue_head_nodes_lem start g h)
      (if_IsUnderWay (ltb 0 (length (first_jobs start g))) g g1 (f g1) (refl, refl, inl h) (w g1 h))

finished :
    (g : Graph)
    → g.state ≡ in_transition
    → IsUnderWay g (set_pending_event set_state_success (set_graph_state success g))
unfolding set_pending_event set_graph_state next_graph_state state_results
finished g h = rw h (refl, refl, inr refl)

queue_start_jobs-IsUnderWay :
    (g : Graph) → g.state ≡ in_transition → IsUnderWay g (queue_start_jobs g)
unfolding queue_start_jobs
queue_start_jobs-IsUnderWay g h =
    queued_or true g (λ x. set_pending_event set_state_success (set_graph_state success x)) h
      finished

queue_stop_jobs-IsUnderWay :
    (wanted : List ℕ) (g : Graph)
    → g.state ≡ in_transition
    → IsUnderWay g (queue_stop_jobs wanted g)
unfolding queue_stop_jobs
queue_stop_jobs-IsUnderWay wanted g h =
    queued_or false (record g { nodes = mark_requested wanted 0 g.nodes }) queue_start_jobs h
      queue_start_jobs-IsUnderWay

abbrev entered : ℕ → Graph → Graph
entered pg_state g = record g { pg_state_name = pg_state; state = in_transition }

start_transition_lem :
    (pg_state : ℕ) (g : Graph) (wanted : List ℕ)
    → g.process_indexes pg_state ≡ some wanted
    → next_graph_state in_transition g.state ≡ in_transition
    → start_transition pg_state g ≡ (true, queue_stop_jobs wanted (entered pg_state g))
unfolding start_transition set_graph_state
start_transition_lem pg_state g wanted e h = rw (e, start_transition) (rw h refl)

start_transition_unknown :
    (pg_state : ℕ) (g : Graph)
    → g.process_indexes pg_state ≡ none
    → start_transition pg_state g ≡ (false, g)
unfolding start_transition
start_transition_unknown pg_state g e = rw (e, start_transition) refl

-- A state in which a transition can start.
can_start :
    (s : GraphState)
    → (s ≡ in_transition) ⊎ ((s ≡ success) ⊎ (s ≡ undefined_state))
    → next_graph_state in_transition s ≡ in_transition
unfolding next_graph_state state_results
can_start in_transition h = refl
can_start success h = refl
can_start undefined_state h = refl
can_start aborting h = ground arith
can_start cancelled h = ground arith

either :
    (s : GraphState)
    → (s ≡ in_transition) ⊎ (s ≡ success)
    → (s ≡ in_transition) ⊎ ((s ≡ success) ⊎ (s ≡ undefined_state))
either s (inl h) = inl h
either s (inr h) = inr (inl h)

start_pending-can_start :
    (pg_state : ℕ) (g : Graph)
    → g.state ≡ undefined_state
    → ((start_pending pg_state g).process_indexes ≡ g.process_indexes)
      × (next_graph_state in_transition (start_pending pg_state g).state ≡ in_transition)
unfolding start_pending set_pending_event
start_pending-can_start pg_state g h = elim (Option-cases (g.process_indexes pg_state)) [
  | inl e ↦
      rw (start_transition_unknown pg_state g e, start_pending)
        (refl, can_start g.state (inr (inr h)))
  | inr (w, e) ↦
      let stops = queue_stop_jobs w (entered pg_state g) in
      let (_, indexes, state) = queue_stop_jobs-IsUnderWay w (entered pg_state g) refl in
      let ready : next_graph_state in_transition stops.state ≡ in_transition =
        can_start stops.state (either stops.state state) in
      let started = start_transition_lem pg_state g w e (can_start g.state (inr (inr h))) in
      rw (started, start_pending) (indexes, ready)
]

after_pending :
    (b : Bool) (pg_state : ℕ) (g : Graph)
    → g.state ≡ undefined_state
    → let g2 = if b then start_pending pg_state g else g in
      (g2.process_indexes ≡ g.process_indexes)
      × (next_graph_state in_transition g2.state ≡ in_transition)
after_pending true pg_state g h = start_pending-can_start pg_state g h
after_pending false pg_state g h = (refl, can_start g.state (inr (inr h)))

-- In the undefined state the handler of a process group leaves the transition to the recovery state
-- under way or done, where the configuration lists that state, also when it has just started the
-- transition that was pending: the requested state is the recovery state in the end.
pub process_group_handler_recovers :
    (recovery_state : ℕ) (g : Graph) (wanted : List ℕ)
    → g.state ≡ undefined_state
    → g.process_indexes recovery_state ≡ some wanted
    → let h = process_group_handler recovery_state g in
      (h.pg_state_name ≡ recovery_state) × ((h.state ≡ in_transition) ⊎ (h.state ≡ success))
unfolding process_group_handler set_pending_state
process_group_handler_recovers recovery_state g wanted h e =
    let g1 = record g { pending_state = 0 } in
    let b = not (g.pending_state == 0) && (not (g.pending_state == g.pg_state_name) || true) in
    let g2 = if b then start_pending g.pending_state g1 else g1 in
    let (same, ready) = after_pending b g.pending_state g1 h in
    let started =
      start_transition_lem recovery_state g2 wanted (ap (λ f. f recovery_state) same ∙ e) ready in
    let (name, _, state) = queue_stop_jobs-IsUnderWay wanted (entered recovery_state g2) refl in
    let undefined : is_graph_state g.state undefined_state ≡ true =
      ap (λ s. is_graph_state s undefined_state) h in
    let no_success : is_graph_state g.state success ≡ false =
      ap (λ s. is_graph_state s success) h in
    rw (undefined, no_success, process_group_handler) (rw started (name, state))
