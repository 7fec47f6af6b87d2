-- ===== src/Group/Workers.antt =====
-- The workers' loop over the job queue of a process group
-- (src/launch_manager_daemon/src/process_group_manager/workerthread.cpp, processinfonode.cpp and
-- graph.cpp), one worker's job after the other.
use inc_lifecycle.Base.{
  ℕ, suc, ◌-◌, ◌<◌, Bool, true, false, Option, List, [], ◌∷◌, length, ◌≡◌, refl, sym, ap, ◌∙◌,
  arith, inl, inr, Bool-cases, if◌then◌else◌, ◌==◌,
}
use inc_lifecycle.Group.{
  GraphState, in_transition, aborting, is_graph_state, undefined_state,
  initial_machine_state_failed, ControlClientCode, Graph, set_graph_state, conclude_initial,
  set_initial_state_transition_result, set_pending_event,
}
use inc_lifecycle.Group.Nodes.{node_executed, handle_non_transition_execution}
use inc_lifecycle.Group.Work.{Attempt}
use inc_lifecycle.Group.Start.{work, do_work, run_job, run_jobs}
use inc_lifecycle.Group.Drain.{node_executed_inner}
use inc_lifecycle.Group.Counted.{IsWorked, IsWorked-refl, if_IsWorked, terminate_process-IsWorked}
use inc_lifecycle.Group.Starting.{start_process-IsWorked}

work-IsWorked :
    (env : ℕ → Attempt) (exit : Option ℕ) (i : ℕ) (g : Graph) → IsWorked g (work env exit i g)
unfolding work
work-IsWorked env exit i g =
    if_IsWorked (is_graph_state g.state in_transition) g _ g
      (if_IsWorked g.starting g _ _ (start_process-IsWorked env i g)
        (terminate_process-IsWorked exit i g))
      (IsWorked-refl g)

is_in_transition : (s : GraphState) → is_graph_state s in_transition ≡ true → s ≡ in_transition
is_in_transition s h = ground arith

-- A node that is reported outside a transition.
Leaves : Graph → Graph → Type 0
Leaves g h =
    (h.jobs ≡ g.jobs)
    × (h.nodes_in_flight ≡ g.nodes_in_flight - 1)
    × (h.nodes_to_execute ≡ g.nodes_to_execute)

if_Leaves : (b : Bool) (g h k : Graph) → Leaves g h → Leaves g k → Leaves g (if b then h else k)
if_Leaves true g h k x y = x
if_Leaves false g h k x y = y

conclude_initial-Leaves :
    (r : ControlClientCode) (g h : Graph) → Leaves g h → Leaves g (conclude_initial r h)
unfolding Leaves conclude_initial set_initial_state_transition_result
conclude_initial-Leaves r g h l = if_Leaves h.is_initial_state_transition g _ h l l

handle_non_transition_execution-Leaves :
    (s : GraphState) (g : Graph) → Leaves g (handle_non_transition_execution s g)
unfolding handle_non_transition_execution Leaves set_graph_state set_pending_event
handle_non_transition_execution-Leaves s g =
    let g1 = record g { nodes_in_flight = g.nodes_in_flight - 1 } in
    let g2 = set_graph_state undefined_state (conclude_initial initial_machine_state_failed g1) in
    let w : Leaves g g2 =
      conclude_initial-Leaves initial_machine_state_failed g g1 (refl, refl, refl) in
    if_Leaves (g1.nodes_in_flight == 0) g _ g1
      (if_Leaves (is_graph_state s aborting) g (set_pending_event g2.abort_code g2) g2 w w)
      (refl, refl, refl)

node_executed_counts :
    (g : Graph) (k : ℕ)
    → suc k < g.nodes_to_execute
    → g.nodes_in_flight ≡ suc (length g.jobs)
    → ((node_executed g).nodes_in_flight ≡ length (node_executed g).jobs)
      × (k < (node_executed g).nodes_to_execute)
unfolding node_executed Leaves
node_executed_counts g k l f = elim (Bool-cases (is_graph_state g.state in_transition)) [
  | inl b ↦
      rw (node_executed_inner g (is_in_transition g.state b) (omega arith))
        (omega arith, omega arith)
  | inr b ↦
      let (js, n, e) = handle_non_transition_execution-Leaves g.state g in
      rw (b, node_executed) (omega (arith, ap length js), omega arith)
]

do_work_counts :
    (env : ℕ → Attempt) (exit : Option ℕ) (i k : ℕ) (g : Graph)
    → suc k < g.nodes_to_execute
    → g.nodes_in_flight ≡ suc (length g.jobs)
    → ((do_work env exit i g).nodes_in_flight ≡ length (do_work env exit i g).jobs)
      × (k < (do_work env exit i g).nodes_to_execute)
unfolding do_work
do_work_counts env exit i k g l f =
    let (_, e, c) = work-IsWorked env exit i g in
    node_executed_counts (work env exit i g) k (omega arith) (omega arith)

run_job_counts :
    (t : (ℕ → Attempt) × Option ℕ) (g : Graph) (k : ℕ)
    → suc k < g.nodes_to_execute
    → g.nodes_in_flight ≡ length g.jobs
    → ((run_job t g).nodes_in_flight ≡ length (run_job t g).jobs)
      × (k < (run_job t g).nodes_to_execute)
unfolding run_job
run_job_counts (env, exit) g k l f = popped g.jobs refl
  where
    popped :
        (js : List ℕ)
        → g.jobs ≡ js
        → ((run_job (env, exit) g).nodes_in_flight ≡ length (run_job (env, exit) g).jobs)
          × (k < (run_job (env, exit) g).nodes_to_execute)
    popped [] e = rw (e, run_job) (f ∙ ap length e ∙ sym (ap length e), omega arith)
    popped (i ∷ is) e =
        rw (e, run_job) (do_work_counts env exit i k (record g { jobs = is }) l (f ∙ ap length e))

-- While the workers take jobs one after the other, fewer than there are nodes to execute, the nodes
-- in flight remain as many as there are jobs in the queue, whatever the processes do.
pub run_jobs_counts :
    (ts : List ((ℕ → Attempt) × Option ℕ)) (g : Graph)
    → length ts < g.nodes_to_execute
    → g.nodes_in_flight ≡ length g.jobs
    → (run_jobs ts g).nodes_in_flight ≡ length (run_jobs ts g).jobs
unfolding run_jobs
run_jobs_counts [] g l f = f
run_jobs_counts (t ∷ ts) g l f =
    let (e, m) = run_job_counts t g (length ts) l f in run_jobs_counts ts (run_job t g) m e
