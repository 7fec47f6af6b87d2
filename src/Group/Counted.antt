-- ===== src/Group/Counted.antt =====
-- Jobs that are in flight: the queued ones and those of the workers
-- (src/launch_manager_daemon/src/process_group_manager/processinfonode.cpp, graph.cpp and
-- workerthread.cpp).
use inc_lifecycle.Base.{
  ℕ, Bool, true, false, Option, none, some, ◌≡◌, refl, ap, ◌∙◌, if◌then◌else◌, ◌&&◌, ◌||◌, not,
  ◌==◌,
}
use inc_lifecycle.Group.{
  in_transition, success, starting, terminating, terminated, is_graph_state, ControlClientCode,
  failed_unexpected_termination, is_before_aborting, failed_unexpected_termination_on_enter,
  ProcessState, Graph, Node, abort, set_graph_state, node_at, launch_manager,
}
use inc_lifecycle.Group.Nodes.{is_process_state}
use inc_lifecycle.Group.Work.{
  set_state, set_status, process_successor_nodes, queue_termination_successor_jobs,
  unexpected_termination, terminated_with, kept_status, is_empty, exit_if, terminate_process,
  status_of, is_comms_type,
}
use inc_lifecycle.Group.Kept.{
  IsKept, IsCounted, IsCounted-trans, set_state-IsKept, set_status-IsKept,
  process_successor_nodes-IsKept, queue_termination_successor_jobs-IsKept,
}

-- The work on a node leaves the phase as it is.
abbrev pub IsWorked : Graph → Graph → Type 0
IsWorked g h = (h.starting ≡ g.starting) × (h.nodes_to_execute ≡ g.nodes_to_execute) × IsCounted g h

pub IsWorked-refl : (g : Graph) → IsWorked g g
IsWorked-refl g = (refl, refl, refl)

pub IsWorked-trans : (a b c : Graph) → IsWorked a b → IsWorked b c → IsWorked a c
IsWorked-trans a b c h k = (k.0 ∙ h.0, k.1 ∙ h.1, IsCounted-trans a b c h.2 k.2)

pub IsKept-IsWorked : (g h : Graph) → IsKept g h → IsWorked g h
IsKept-IsWorked g h k = (ap (λ c. c.4) k.0, ap (λ c. c.5) k.0, k.1)

pub if_IsWorked :
    (b : Bool) (g h k : Graph) → IsWorked g h → IsWorked g k → IsWorked g (if b then h else k)
if_IsWorked true g h k x y = x
if_IsWorked false g h k x y = y

pub node_IsWorked :
    (o : Option Node) (g h : Graph) (f : Node → Graph)
    → IsWorked g h
    → ((n : Node) → IsWorked g (f n))
    → IsWorked g (elim o [ none ↦ h | some n ↦ f n ])
node_IsWorked none g h f k w = k
node_IsWorked (some n) g h f k w = w n

pub abort-IsWorked :
    (code : ℕ) (reason : ControlClientCode) (g : Graph) → IsWorked g (abort code reason g)
unfolding abort set_graph_state
abort-IsWorked code reason g =
    if_IsWorked (is_before_aborting g.state) g _ g (refl, refl, refl) (IsWorked-refl g)

pub set_state-IsWorked : (new : ProcessState) (i : ℕ) (g : Graph) → IsWorked g (set_state new i g).1
set_state-IsWorked new i g = IsKept-IsWorked g (set_state new i g).1 (set_state-IsKept new i g)

unexpected_termination-IsWorked : (i : ℕ) (g : Graph) → IsWorked g (unexpected_termination i g)
unfolding unexpected_termination
unexpected_termination-IsWorked i g = node_IsWorked (node_at i g) g g _ (IsWorked-refl g) (λ n.
    let code = n.execution_error_code in
    if_IsWorked (is_graph_state g.state success) g _ _
      (abort-IsWorked code failed_unexpected_termination g)
      (if_IsWorked (is_process_state n.state starting) g g _ (IsWorked-refl g) (
        if_IsWorked (is_graph_state g.state in_transition) g _ g
          (abort-IsWorked code failed_unexpected_termination_on_enter g) (IsWorked-refl g))))

pub queue_termination_successor_jobs-IsWorked :
    (i : ℕ) (g : Graph) → IsWorked g (queue_termination_successor_jobs i g)
queue_termination_successor_jobs-IsWorked i g =
    IsKept-IsWorked g (queue_termination_successor_jobs i g)
      (queue_termination_successor_jobs-IsKept i g)

pub process_successor_nodes-IsWorked :
    (i : ℕ) (g : Graph) → IsWorked g (process_successor_nodes i g)
process_successor_nodes-IsWorked i g =
    IsKept-IsWorked g (process_successor_nodes i g) (process_successor_nodes-IsKept i g)

pub terminated_with-IsWorked : (status i : ℕ) (g : Graph) → IsWorked g (terminated_with status i g)
unfolding terminated_with
terminated_with-IsWorked status i g = node_IsWorked (node_at i g) g g _ (IsWorked-refl g) (λ n.
    let g1 = set_status (kept_status n.is_self_terminating status) i g in
    let g2 =
      if (not n.is_self_terminating || not (status == 0)) && g1.starting
      then unexpected_termination i g1
      else g1 in
    let g3 = (set_state terminated i g2).1 in
    let h1 =
      IsKept-IsWorked g g1 (set_status-IsKept (kept_status n.is_self_terminating status) i g) in
    let h2 : IsWorked g1 g2 =
      if_IsWorked ((not n.is_self_terminating || not (status == 0)) && g1.starting) g1 _ g1
        (unexpected_termination-IsWorked i g1) (IsWorked-refl g1) in
    let h3 =
      IsWorked-trans g g2 g3 (IsWorked-trans g g1 g2 h1 h2) (set_state-IsWorked terminated i g2) in
    if_IsWorked (n.is_self_terminating && not (is_empty n.dependent_on_terminating)) g _ g3
      (IsWorked-trans g g3 (queue_termination_successor_jobs i g3) h3
        (queue_termination_successor_jobs-IsWorked i g3))
      h3)

pub exit_if-IsWorked : (exit : Option ℕ) (i : ℕ) (g : Graph) → IsWorked g (exit_if exit i g)
unfolding exit_if
exit_if-IsWorked none i g = IsWorked-refl g
exit_if-IsWorked (some status) i g = terminated_with-IsWorked status i g

pub terminate_process-IsWorked :
    (exit : Option ℕ) (i : ℕ) (g : Graph) → IsWorked g (terminate_process exit i g)
unfolding terminate_process
terminate_process-IsWorked exit i g = node_IsWorked (node_at i g) g g _ (IsWorked-refl g) (λ n.
    let (is_set, g1) = set_state terminating i g in
    let g2 =
      if is_set
      then (if is_comms_type n.comms_type launch_manager
          then (set_state terminated i g1).1
          else exit_if exit i g1)
      else g1 in
    let h1 = set_state-IsWorked terminating i g in
    let h2 : IsWorked g1 g2 =
      if_IsWorked is_set g1 _ g1
        (if_IsWorked (is_comms_type n.comms_type launch_manager) g1 _ _
          (set_state-IsWorked terminated i g1) (exit_if-IsWorked exit i g1))
        (IsWorked-refl g1) in
    let h = IsWorked-trans g g1 g2 h1 h2 in
    if_IsWorked (not g2.starting || status_of i g2 == 0) g _ g2
      (IsWorked-trans g g2 (queue_termination_successor_jobs i g2) h
        (queue_termination_successor_jobs-IsWorked i g2))
      h)
