-- ===== src/Group/Kept.antt =====
-- What the work on a node leaves of the process group: a job that is queued is counted as in flight
-- (src/launch_manager_daemon/src/process_group_manager/processinfonode.cpp).
use inc_lifecycle.Base.{
  ℕ, ◌+◌, ◌-◌, Bool, true, false, Option, none, some, List, [], ◌∷◌, length, ◌≡◌, refl, ◌∙◌, arith,
  inl, inr, Bool-cases, Option-cases, length-append, if◌then◌else◌, ◌&&◌, ◌==◌, ltb,
}
use inc_lifecycle.Group.{
  GraphState, in_transition, is_graph_state, ControlClientCode, ProcessState, terminated,
  Dependency, Graph, Node, node_at, put_node,
}
use inc_lifecycle.Group.Nodes.{try_queue_node, is_process_state}
use inc_lifecycle.Group.Work.{
  set_state, set_status, release, release_all, release_predecessor, release_predecessors,
  process_successor_nodes, queue_termination_successor_jobs, is_accepted, is_reported,
}

-- What only the phases, abort and cancel change.
abbrev pub control : Graph → GraphState × ControlClientCode × ControlClientCode × ℕ × Bool × ℕ
control g = (g.state, g.event, g.abort_code, g.last_execution_error, g.starting, g.nodes_to_execute)

abbrev pub IsCounted : Graph → Graph → Type 0
IsCounted g h = h.nodes_in_flight + length g.jobs ≡ g.nodes_in_flight + length h.jobs

abbrev pub IsKept : Graph → Graph → Type 0
IsKept g h = (control h ≡ control g) × IsCounted g h

pub IsKept-refl : (g : Graph) → IsKept g g
IsKept-refl g = (refl, refl)

pub IsCounted-trans : (a b c : Graph) → IsCounted a b → IsCounted b c → IsCounted a c
IsCounted-trans a b c h k = omega arith

pub IsKept-trans : (a b c : Graph) → IsKept a b → IsKept b c → IsKept a c
IsKept-trans a b c h k = (k.0 ∙ h.0, IsCounted-trans a b c h.1 k.1)

try_queue_node-IsKept : (i : ℕ) (g : Graph) → IsKept g (try_queue_node i g)
unfolding try_queue_node
try_queue_node-IsKept i g =
    let one = length-append g.jobs (i ∷ []) in
    elim (Bool-cases (is_graph_state g.state in_transition)) [
      | inl b ↦ rw b (refl, omega arith)
      | inr b ↦ rw b (IsKept-refl g)
    ]

-- A branch keeps what both its sides keep.
pub if_IsKept : (b : Bool) (g h k : Graph) → IsKept g h → IsKept g k → IsKept g (if b then h else k)
if_IsKept true g h k x y = x
if_IsKept false g h k x y = y

pub node_IsKept :
    (o : Option Node) (g : Graph) (f : Node → Graph)
    → ((n : Node) → IsKept g (f n))
    → IsKept g (elim o [ none ↦ g | some n ↦ f n ])
node_IsKept none g f h = IsKept-refl g
node_IsKept (some n) g f h = h n

release-IsKept : (i : ℕ) (g : Graph) → IsKept g (release i g)
unfolding release
release-IsKept i g = node_IsKept (node_at i g) g _ (λ n.
    let g1 = put_node i (record n { dependencies = n.dependencies - 1 }) g in
    if_IsKept (n.is_included && ltb 0 n.dependencies) g _ g
      (if_IsKept (n.dependencies - 1 == 0) g (try_queue_node i g1) g1 (try_queue_node-IsKept i g1)
        (IsKept-refl g1))
      (IsKept-refl g))

pub release_all-IsKept : (is : List ℕ) (g : Graph) → IsKept g (release_all is g)
unfolding release_all
release_all-IsKept [] g = IsKept-refl g
release_all-IsKept (i ∷ is) g =
    IsKept-trans g (release i g) (release_all is (release i g)) (release-IsKept i g)
      (release_all-IsKept is (release i g))

release_predecessor-IsKept : (i : ℕ) (g : Graph) → IsKept g (release_predecessor i g)
unfolding release_predecessor
release_predecessor-IsKept i g = node_IsKept (node_at i g) g _ (λ n.
    if_IsKept (is_process_state n.state terminated) g g (release i g) (IsKept-refl g)
      (release-IsKept i g))

release_predecessors-IsKept :
    (ds : List Dependency) (g : Graph) → IsKept g (release_predecessors ds g)
unfolding release_predecessors
release_predecessors-IsKept [] g = IsKept-refl g
release_predecessors-IsKept (d ∷ ds) g =
    let g1 = release_predecessor d.os_process_index g in
    IsKept-trans g g1 (release_predecessors ds g1) (release_predecessor-IsKept d.os_process_index g)
      (release_predecessors-IsKept ds g1)

pub process_successor_nodes-IsKept : (i : ℕ) (g : Graph) → IsKept g (process_successor_nodes i g)
unfolding process_successor_nodes
process_successor_nodes-IsKept i g =
    node_IsKept (node_at i g) g _ (λ n. release_all-IsKept n.dependent_on_running g)

pub queue_termination_successor_jobs-IsKept :
    (i : ℕ) (g : Graph) → IsKept g (queue_termination_successor_jobs i g)
unfolding queue_termination_successor_jobs
queue_termination_successor_jobs-IsKept i g = node_IsKept (node_at i g) g _ (λ n.
    if_IsKept g.starting g _ _ (release_all-IsKept n.dependent_on_terminating g)
      (release_predecessors-IsKept n.dependency_list g))

pub set_state-IsKept : (new : ProcessState) (i : ℕ) (g : Graph) → IsKept g (set_state new i g).1
unfolding set_state
set_state-IsKept new i g = elim (Option-cases (node_at i g)) [
  | inl e ↦ rw (e, set_state) (IsKept-refl g)
  | inr (n, e) ↦
      rw (e, set_state)
        (elim (Bool-cases (is_accepted n.state new)) [
          | inl b ↦ rw b (if_IsKept (is_reported new n) g _ _ (IsKept-refl g) (IsKept-refl g))
          | inr b ↦ rw b (IsKept-refl g)
        ])
]

pub set_status-IsKept : (status i : ℕ) (g : Graph) → IsKept g (set_status status i g)
unfolding set_status
set_status-IsKept status i g = node_IsKept (node_at i g) g _ (λ n. IsKept-refl g)
