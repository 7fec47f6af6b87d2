-- ===== src/Group/Drain.antt =====
-- The end of the phases of a transition, as the workers report the nodes of a process group
-- (src/launch_manager_daemon/src/process_group_manager/graph.cpp).
use inc_lifecycle.Base.{
  ℕ, zero, suc, ◌+◌, ◌-◌, ◌≤◌, ◌<◌, true, false, ◌⊎◌, if◌then◌else◌, ◌≡◌, refl, sym, ap, subst, ◌∙◌,
  arith,
}
use inc_lifecycle.Group.{
  GraphState, in_transition, success, aborting, cancelled, undefined_state, is_graph_state,
  set_state_success, initial_machine_state_success, initial_machine_state_failed, Graph,
  next_graph_state, state_results, set_graph_state, set_pending_event,
  set_initial_state_transition_result, conclude_initial,
}
use inc_lifecycle.Group.Nodes.{
  finish_phase, handle_transition_execution, handle_non_transition_execution, node_executed,
}

-- k nodes are reported.
abbrev pub nodes_executed : ℕ → Graph → Graph
nodes_executed zero g = g
nodes_executed (suc k) g = nodes_executed k (node_executed g)

abbrev pub counted_down : ℕ → Graph → Graph
counted_down k g = record g {
  nodes_to_execute = g.nodes_to_execute - k;
  nodes_in_flight = g.nodes_in_flight - k;
}

pub node_executed_inner :
    (g : Graph)
    → g.state ≡ in_transition
    → 1 < g.nodes_to_execute
    → node_executed g ≡ counted_down 1 g
unfolding node_executed handle_transition_execution
node_executed_inner g h l = ground arith

node_executed_last :
    (g : Graph)
    → g.state ≡ in_transition
    → g.nodes_to_execute ≡ 1
    → node_executed g ≡ finish_phase (counted_down 1 g)
unfolding node_executed handle_transition_execution
node_executed_last g h l = ground arith

node_executed_failing :
    (g : Graph)
    → is_graph_state g.state in_transition ≡ false
    → 1 < g.nodes_in_flight
    → node_executed g ≡ record g { nodes_in_flight = g.nodes_in_flight - 1 }
unfolding node_executed handle_non_transition_execution
node_executed_failing g h l = ground arith

counted_down-counted_down :
    (j k : ℕ) (g : Graph) → counted_down k (counted_down j g) ≡ counted_down (j + k) g
counted_down-counted_down j k g =
    let a : g.nodes_to_execute - j - k ≡ g.nodes_to_execute - (j + k) = omega arith in
    let b : g.nodes_in_flight - j - k ≡ g.nodes_in_flight - (j + k) = omega arith in cc

nodes_executed_within :
    (k : ℕ) (g : Graph)
    → g.state ≡ in_transition
    → k < g.nodes_to_execute
    → nodes_executed k g ≡ counted_down k g
nodes_executed_within zero g h l =
    let a : g.nodes_to_execute - 0 ≡ g.nodes_to_execute = omega arith in
    let b : g.nodes_in_flight - 0 ≡ g.nodes_in_flight = omega arith in sym (cc)
nodes_executed_within (suc k) g h l =
    ap (nodes_executed k) (node_executed_inner g h (omega arith))
    ∙ nodes_executed_within k (counted_down 1 g) h (omega arith)
    ∙ counted_down-counted_down 1 k g
    ∙ ap (λ j. counted_down j g) (omega arith)

nodes_executed_split :
    (j k : ℕ) (g : Graph) → nodes_executed (j + k) g ≡ nodes_executed k (nodes_executed j g)
nodes_executed_split zero k g = let e : 0 + k ≡ k = omega arith in ap (λ i. nodes_executed i g) e
nodes_executed_split (suc j) k g =
    let e : suc j + k ≡ suc (j + k) = omega arith in
    ap (λ i. nodes_executed i g) e ∙ nodes_executed_split j k (node_executed g)

nodes_executed_phase :
    (k : ℕ) (g : Graph)
    → g.state ≡ in_transition
    → g.nodes_to_execute ≡ suc k
    → nodes_executed (suc k) g ≡ finish_phase (counted_down (suc k) g)
nodes_executed_phase k g h l =
    let sum : suc k ≡ k + 1 = omega arith in
    ap (λ j. nodes_executed j g) sum
    ∙ nodes_executed_split k 1 g
    ∙ ap node_executed (nodes_executed_within k g h (omega arith))
    ∙ node_executed_last (counted_down k g) h (omega arith)
    ∙ ap finish_phase (counted_down-counted_down k 1 g ∙ ap (λ j. counted_down j g) (sym sum))

-- The end of a transition of g: an initial one has its result.
abbrev pub Succeeds : Graph → Graph → Type 0
Succeeds g done =
    (done.state ≡ success)
    × (done.event ≡ set_state_success)
    × (done.is_initial_state_transition ≡ false)
    × (done.initial_state_transition_result ≡ (
        if g.is_initial_state_transition
        then initial_machine_state_success
        else g.initial_state_transition_result))

finish_phase-success :
    (g : Graph) → g.state ≡ in_transition → g.starting ≡ true → Succeeds g (finish_phase g)
unfolding finish_phase set_pending_event set_graph_state next_graph_state state_results
    conclude_initial set_initial_state_transition_result
finish_phase-success g h b = ground arith

-- In the start phase of a transition with k + 1 nodes to execute, the transition is under way until
-- that many nodes are reported and is then done: the state is success, the control client's event is
-- that of success, and an initial transition has its result.
pub nodes_executed-success :
    (k : ℕ) (g : Graph)
    → g.state ≡ in_transition
    → g.starting ≡ true
    → g.nodes_to_execute ≡ suc k
    → ((j : ℕ) → j ≤ k → (nodes_executed j g).state ≡ in_transition)
      × Succeeds g (nodes_executed (suc k) g)
nodes_executed-success k g h b l = (
  λ j le. ap (λ x. x.state) (nodes_executed_within j g h (omega arith)) ∙ h,
  rw (nodes_executed_phase k g h l) (finish_phase-success (counted_down (suc k) g) h b),
)

-- Where the transition fails.
abbrev pub Fails : Graph → Graph → Type 0
Fails g done =
    (done.state ≡ undefined_state)
    × (done.event ≡ (if is_graph_state g.state aborting then g.abort_code else g.event))
    × (done.nodes_in_flight ≡ 0)
    × (done.is_initial_state_transition ≡ false)
    × (done.initial_state_transition_result ≡ (
        if g.is_initial_state_transition
        then initial_machine_state_failed
        else g.initial_state_transition_result))

node_executed-Fails :
    (s : GraphState) (g : Graph)
    → g.state ≡ s
    → (s ≡ aborting) ⊎ (s ≡ cancelled)
    → g.nodes_in_flight ≡ 1
    → Fails g (node_executed g)
unfolding node_executed handle_non_transition_execution set_pending_event set_graph_state
    next_graph_state state_results conclude_initial set_initial_state_transition_result
node_executed-Fails aborting g h b l = ground arith
node_executed-Fails cancelled g h b l = ground arith
node_executed-Fails success g h b l = ground arith
node_executed-Fails in_transition g h b l = ground arith
node_executed-Fails undefined_state g h b l = ground arith

nodes_executed_failing :
    (k : ℕ) (g : Graph)
    → is_graph_state g.state in_transition ≡ false
    → k < g.nodes_in_flight
    → nodes_executed k g ≡ record g { nodes_in_flight = g.nodes_in_flight - k }
nodes_executed_failing zero g h l =
    let b : g.nodes_in_flight - 0 ≡ g.nodes_in_flight = omega arith in sym (cc)
nodes_executed_failing (suc k) g h l =
    let e : g.nodes_in_flight - 1 - k ≡ g.nodes_in_flight - suc k = omega arith in
    ap (nodes_executed k) (node_executed_failing g h (omega arith))
    ∙ nodes_executed_failing k (record g { nodes_in_flight = g.nodes_in_flight - 1 }) h
        (omega arith)
    ∙ ap (λ n. record g { nodes_in_flight = n }) e

stopped :
    (s : GraphState) → (s ≡ aborting) ⊎ (s ≡ cancelled) → is_graph_state s in_transition ≡ false
stopped aborting h = refl
stopped cancelled h = refl
stopped success h = refl
stopped undefined_state h = refl
stopped in_transition h = ground arith

-- A transition that was aborted or cancelled with k + 1 nodes in flight keeps its state until they are
-- reported, and is then in the undefined state with none in flight; an abort leaves its code as the
-- event for the control client, a cancellation leaves the event; an initial transition has failed.
pub nodes_executed-Fails :
    (k : ℕ) (g : Graph)
    → (g.state ≡ aborting) ⊎ (g.state ≡ cancelled)
    → g.nodes_in_flight ≡ suc k
    → ((j : ℕ) → j ≤ k → (nodes_executed j g).state ≡ g.state) × Fails g (nodes_executed (suc k) g)
nodes_executed-Fails k g s l =
    let sum : suc k ≡ k + 1 = omega arith in
    let not_in : is_graph_state g.state in_transition ≡ false = stopped g.state s in
    let inner = nodes_executed_failing k g not_in (omega arith) in
    let done =
      ap (λ j. nodes_executed j g) sum ∙ nodes_executed_split k 1 g ∙ ap node_executed inner in
    (
      λ j le. ap (λ x. x.state) (nodes_executed_failing j g not_in (omega arith)),
      subst (Fails g) (sym done) (
          node_executed-Fails g.state (record g { nodes_in_flight = g.nodes_in_flight - k }) refl s
            (omega arith)),
    )
