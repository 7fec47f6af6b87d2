-- ===== src/Group/Exits.antt =====
-- Processes that end while their process group is in a state or enters one
-- (src/launch_manager_daemon/src/process_group_manager/processinfonode.cpp).
use inc_lifecycle.Base.{
  get_elem?-set, ℕ, Bool, true, false, Option, none, some, ◌≡◌, refl, ap, ◌∙◌, if◌then◌else◌, ◌&&◌,
  ◌||◌, not, ◌==◌,
}
use inc_lifecycle.Group.{
  GraphState, in_transition, success, aborting, undefined_state, cancelled, ControlClientCode,
  failed_unexpected_termination, failed_unexpected_termination_on_enter, Graph, Node,
  set_graph_state, next_graph_state, state_results, abort, node_at, put_node, ProcessState, idle,
  running, terminating, starting, terminated,
}
use inc_lifecycle.Group.Nodes.{is_process_state}
use inc_lifecycle.Group.Work.{
  set_state, set_status, kept_status, unexpected_termination, terminated_with, is_empty,
  queue_termination_successor_jobs,
}
use inc_lifecycle.Group.Kept.{
  IsKept, IsKept-trans, if_IsKept, set_state-IsKept, queue_termination_successor_jobs-IsKept,
  control,
}

-- An exit is expected of a self-terminating process with the status 0, and of any process while the
-- process group is stopping processes.
abbrev pub is_expected : ℕ → Node → Graph → Bool
is_expected status n g = not g.starting || n.is_self_terminating && status == 0

-- The state of the process group and the reason of the abort after an unexpected exit.
abbrev pub abort_on_exit : GraphState → ProcessState → Option (GraphState × ControlClientCode)
abort_on_exit success _ = some (undefined_state, failed_unexpected_termination)
abort_on_exit in_transition starting = none
abort_on_exit in_transition _ = some (aborting, failed_unexpected_termination_on_enter)
abort_on_exit _ _ = none

abbrev pub exit_control :
    Bool → Node → Graph → GraphState × ControlClientCode × ControlClientCode × ℕ × Bool × ℕ
exit_control true n g = control g
exit_control false n g = elim (abort_on_exit g.state n.state) [
  | none ↦ control g
  | some (s, c) ↦ (s, g.event, c, n.execution_error_code, g.starting, g.nodes_to_execute)
]

if_same : (b : Bool) (g : Graph) → (if b then g else g) ≡ g
if_same true g = refl
if_same false g = refl

unexpected_termination_lem :
    (s : GraphState) (p : ProcessState) (i : ℕ) (g : Graph) (n : Node)
    → g.state ≡ s
    → n.state ≡ p
    → node_at i g ≡ some n
    → control (unexpected_termination i g) ≡ exit_control false n g
unfolding unexpected_termination abort set_graph_state next_graph_state state_results
unexpected_termination_lem success p i g n e h a = rw (a, unexpected_termination) (rw e refl)
unexpected_termination_lem in_transition starting i g n e h a =
    rw (a, unexpected_termination) (rw (e, h) refl)
unexpected_termination_lem in_transition idle i g n e h a =
    rw (a, unexpected_termination) (rw (e, h) refl)
unexpected_termination_lem in_transition running i g n e h a =
    rw (a, unexpected_termination) (rw (e, h) refl)
unexpected_termination_lem in_transition terminating i g n e h a =
    rw (a, unexpected_termination) (rw (e, h) refl)
unexpected_termination_lem in_transition terminated i g n e h a =
    rw (a, unexpected_termination) (rw (e, h) refl)
unexpected_termination_lem aborting p i g n e h a =
    rw (a, unexpected_termination)
      (rw e
        (ap control (if_same (is_process_state n.state starting) (record g { state = aborting }))))
unexpected_termination_lem cancelled p i g n e h a =
    rw (a, unexpected_termination)
      (rw e
        (ap control (if_same (is_process_state n.state starting) (record g { state = cancelled }))))
unexpected_termination_lem undefined_state p i g n e h a =
    rw (a, unexpected_termination)
      (rw e (
        ap control
          (if_same (is_process_state n.state starting) (record g { state = undefined_state }))))

aftermath_IsKept :
    (b : Bool) (i : ℕ) (g : Graph)
    → IsKept g (
        if b
        then queue_termination_successor_jobs i (set_state terminated i g).1
        else (set_state terminated i g).1)
aftermath_IsKept b i g =
    let g1 = (set_state terminated i g).1 in
    let w = set_state-IsKept terminated i g in
    if_IsKept b g (queue_termination_successor_jobs i g1) g1
      (IsKept-trans g g1 (queue_termination_successor_jobs i g1) w
        (queue_termination_successor_jobs-IsKept i g1))
      w

unexpected_not : (b s z : Bool) → (not s || not z) && b ≡ not (not b || s && z)
unexpected_not true true true = refl
unexpected_not true true false = refl
unexpected_not true false z = refl
unexpected_not false true true = refl
unexpected_not false true false = refl
unexpected_not false false z = refl

reported_exit :
    (b : Bool) (i : ℕ) (g : Graph) (n : Node)
    → node_at i g ≡ some n
    → control (if not b then unexpected_termination i g else g) ≡ exit_control b n g
reported_exit true i g n a = refl
reported_exit false i g n a = unexpected_termination_lem g.state n.state i g n refl refl a

set_status_lem :
    (k i : ℕ) (g : Graph) (n : Node)
    → node_at i g ≡ some n
    → set_status k i g ≡ put_node i (record n { status = k }) g
unfolding set_status
set_status_lem k i g n a = rw (a, set_status) refl

expected_same :
    (b : Bool) (n : Node) (k : ℕ) (g : Graph) (i : ℕ)
    → exit_control b (record n { status = k }) (put_node i (record n { status = k }) g)
      ≡ exit_control b n g
expected_same true n k g i = refl
expected_same false n k g i = refl

-- An exit of the process of node i that is expected leaves the state of the process group, its event
-- and its errors. An unexpected one in the state success makes the state undefined, and one of a
-- process that has been started aborts the transition under way; both record the reason and the
-- execution error of the process, and neither sets an event. In other states nothing is recorded.
pub terminated_with-control :
    (status i : ℕ) (g : Graph) (n : Node)
    → node_at i g ≡ some n
    → control (terminated_with status i g) ≡ exit_control (is_expected status n g) n g
unfolding terminated_with
terminated_with-control status i g n a =
    let k = kept_status n.is_self_terminating status in
    let m = record n { status = k } in
    let g1 = put_node i m g in
    let f = (not n.is_self_terminating || not (status == 0)) && g.starting in
    let g2 = if f then unexpected_termination i g1 else g1 in
    let b = n.is_self_terminating && not (is_empty n.dependent_on_terminating) in
    let flag = unexpected_not g.starting n.is_self_terminating (status == 0) in
    let done =
      (aftermath_IsKept b i g2).0
      ∙ ap (λ x. control (if x then unexpected_termination i g1 else g1)) flag
      ∙ reported_exit (is_expected status n g) i g1 m (get_elem?-set g.nodes i n m a)
      ∙ expected_same (is_expected status n g) n k g i in
    rw (a, terminated_with) (rw (set_status_lem k i g n a) done)
