-- ===== src/Group/Starting.antt =====
-- What starting the process of a node leaves of its process group
-- (src/launch_manager_daemon/src/process_group_manager/processinfonode.cpp).
use inc_lifecycle.Base.{
  ℕ, zero, suc, Bool, true, false, Option, none, some, ◌≡◌, refl, if◌then◌else◌, ◌&&◌, ◌||◌, not,
  ◌==◌,
}
use inc_lifecycle.Group.{
  in_transition, idle, starting, running, terminated, is_graph_state, ControlClientCode,
  set_state_failed, failed_unexpected_termination_on_enter, Graph, Node, abort, node_at,
  launch_manager, no_comms,
}
use inc_lifecycle.Group.Work.{
  set_state, set_status, process_successor_nodes, terminated_with, exit_if, terminate_process,
  Attempt, MapResult, entered, exited, map_full, status_of, is_comms_type,
}
use inc_lifecycle.Group.Start.{
  abort_last, handle_process_running, handle_timeout, handle_process_still_starting,
  handle_process_already_terminated, handle_process_started, launch, attempt, start_attempts,
  start_process,
}
use inc_lifecycle.Group.Kept.{set_status-IsKept}
use inc_lifecycle.Group.Counted.{
  IsWorked, IsWorked-refl, IsWorked-trans, IsKept-IsWorked, if_IsWorked, node_IsWorked,
  abort-IsWorked, set_state-IsWorked, queue_termination_successor_jobs-IsWorked,
  process_successor_nodes-IsWorked, terminated_with-IsWorked, exit_if-IsWorked,
  terminate_process-IsWorked,
}

abort_last-IsWorked :
    (counter code : ℕ) (reason : ControlClientCode) (g : Graph)
    → IsWorked g (abort_last counter code reason g)
unfolding abort_last
abort_last-IsWorked counter code reason g =
    if_IsWorked (counter == 0) g _ g (abort-IsWorked code reason g) (IsWorked-refl g)

-- An abort after some work.
abort_last-IsWorked_after :
    (counter code : ℕ) (reason : ControlClientCode) (g h : Graph)
    → IsWorked g h
    → IsWorked g (abort_last counter code reason h)
abort_last-IsWorked_after counter code reason g h w =
    IsWorked-trans g h (abort_last counter code reason h) w
      (abort_last-IsWorked counter code reason h)

handle_process_running-IsWorked :
    (counter i : ℕ) (g : Graph) → IsWorked g (handle_process_running counter i g)
unfolding handle_process_running
handle_process_running-IsWorked counter i g =
    node_IsWorked (node_at i g) g g _ (IsWorked-refl g) (λ n.
      let (is_set, g1) = set_state running i g in
      let h = set_state-IsWorked running i g in
      if_IsWorked (is_set || n.is_self_terminating && n.status == 0) g _ _
        (IsWorked-trans g g1 (process_successor_nodes i g1) h
          (process_successor_nodes-IsWorked i g1))
        (abort_last-IsWorked_after counter n.execution_error_code set_state_failed g g1 h))

handle_timeout-IsWorked :
    (e : Attempt) (counter i : ℕ) (g : Graph) → IsWorked g (handle_timeout e counter i g)
unfolding handle_timeout
handle_timeout-IsWorked e counter i g = node_IsWorked (node_at i g) g g _ (IsWorked-refl g) (λ n.
    abort_last-IsWorked_after counter n.execution_error_code _ g
      (terminate_process e.exit_on_request i g) (terminate_process-IsWorked e.exit_on_request i g))

handle_process_still_starting-IsWorked :
    (e : Attempt) (counter i : ℕ) (g : Graph)
    → IsWorked g (handle_process_still_starting e counter i g)
unfolding handle_process_still_starting
handle_process_still_starting-IsWorked e counter i g =
    let g1 = exit_if e.exit_before_running i g in
    let h = exit_if-IsWorked e.exit_before_running i g in
    node_IsWorked (node_at i g1) g g1 _ h (λ n.
      if_IsWorked (is_graph_state g.state in_transition) g _ g1
        (if_IsWorked
          ((is_comms_type n.comms_type no_comms || e.is_running_in_time) && n.status == 0) g _ _
          (IsWorked-trans g g1 (handle_process_running counter i g1) h
            (handle_process_running-IsWorked counter i g1))
          (IsWorked-trans g g1 (handle_timeout e counter i g1) h
            (handle_timeout-IsWorked e counter i g1)))
        h)

handle_process_already_terminated-IsWorked :
    (counter i : ℕ) (g : Graph) → IsWorked g (handle_process_already_terminated counter i g)
unfolding handle_process_already_terminated
handle_process_already_terminated-IsWorked counter i g =
    node_IsWorked (node_at i g) g g _ (IsWorked-refl g) (λ n.
      if_IsWorked (not (n.status == 0) || not (is_comms_type n.comms_type no_comms)) g _ _
        (abort_last-IsWorked counter n.execution_error_code failed_unexpected_termination_on_enter
          g)
        (queue_termination_successor_jobs-IsWorked i g))

given_up_IsWorked :
    (e : Attempt) (i : ℕ) (g : Graph) (n : Node)
    → IsWorked g
        (abort n.execution_error_code set_state_failed (terminate_process e.exit_on_request i g))
given_up_IsWorked e i g n =
    let g1 = terminate_process e.exit_on_request i g in
    IsWorked-trans g g1 (abort n.execution_error_code set_state_failed g1)
      (terminate_process-IsWorked e.exit_on_request i g)
      (abort-IsWorked n.execution_error_code set_state_failed g1)

handle_process_started-IsWorked :
    (e : Attempt) (counter i : ℕ) (g : Graph) → IsWorked g (handle_process_started e counter i g).1
unfolding handle_process_started
handle_process_started-IsWorked e counter i g = started e.map_result e refl
  where
    started :
        (r : MapResult) (e : Attempt)
        → e.map_result ≡ r
        → IsWorked g (handle_process_started e counter i g).1
    started entered e h =
        rw (h, handle_process_started) (handle_process_still_starting-IsWorked e counter i g)
    started (exited status) e h =
        rw (h, handle_process_started)
          (IsWorked-trans g (terminated_with status i g)
            (handle_process_already_terminated counter i (terminated_with status i g))
            (terminated_with-IsWorked status i g)
            (handle_process_already_terminated-IsWorked counter i (terminated_with status i g)))
    started map_full e h =
        rw (h, handle_process_started)
          (node_IsWorked (node_at i g) g g _ (IsWorked-refl g) (given_up_IsWorked e i g))

-- The branches of a function that returns the counter too.
if_pair_IsWorked :
    (b : Bool) (g : Graph) (p q : ℕ × Graph)
    → IsWorked g p.1
    → IsWorked g q.1
    → IsWorked g (if b then p else q).1
if_pair_IsWorked true g p q x y = x
if_pair_IsWorked false g p q x y = y

node_pair_IsWorked :
    (o : Option Node) (g : Graph) (p : ℕ × Graph) (f : Node → ℕ × Graph)
    → IsWorked g p.1
    → ((n : Node) → IsWorked g (f n).1)
    → IsWorked g (elim o as (λ _. ℕ × Graph) [ none ↦ p | some n ↦ f n ]).1
node_pair_IsWorked none g p f x w = x
node_pair_IsWorked (some n) g p f x w = w n

launch-IsWorked : (e : Attempt) (counter i : ℕ) (g : Graph) → IsWorked g (launch e counter i g).1
unfolding launch
launch-IsWorked e counter i g =
    node_pair_IsWorked (node_at i g) g (counter, g) _ (IsWorked-refl g)
      (λ n.
        let g1 = (set_state starting i g).1 in
        let w = set_state-IsWorked starting i g in
        let running_one = (set_state running i g1).1 in
        let terminated_one = (set_state terminated i g1).1 in
        let failed = abort n.execution_error_code set_state_failed terminated_one in
        if_pair_IsWorked (is_comms_type n.comms_type launch_manager) g
          (counter, process_successor_nodes i running_one) _
          (IsWorked-trans g running_one (process_successor_nodes i running_one)
            (IsWorked-trans g g1 running_one w (set_state-IsWorked running i g1))
            (process_successor_nodes-IsWorked i running_one))
          (if_pair_IsWorked e.is_started g (handle_process_started e counter i g1) (counter, failed)
            (IsWorked-trans g g1 (handle_process_started e counter i g1).1 w
              (handle_process_started-IsWorked e counter i g1))
            (IsWorked-trans g terminated_one failed
              (IsWorked-trans g g1 terminated_one w (set_state-IsWorked terminated i g1))
              (abort-IsWorked n.execution_error_code set_state_failed terminated_one))))

attempt-IsWorked : (e : Attempt) (counter i : ℕ) (g : Graph) → IsWorked g (attempt e counter i g).1
unfolding attempt
attempt-IsWorked e counter i g =
    let g0 = set_status 0 i g in
    let (is_set, g1) = set_state idle i g0 in
    let w0 = IsKept-IsWorked g g0 (set_status-IsKept 0 i g) in
    let w1 = IsWorked-trans g g0 g1 w0 (set_state-IsWorked idle i g0) in
    if_pair_IsWorked is_set g (launch e counter i g1) (counter, g1)
      (IsWorked-trans g g1 (launch e counter i g1).1 w1 (launch-IsWorked e counter i g1)) w1

start_attempts-IsWorked :
    (env : ℕ → Attempt) (counter i : ℕ) (g : Graph) → IsWorked g (start_attempts env counter i g)
unfolding start_attempts
start_attempts-IsWorked env zero i g = attempt-IsWorked (env 0) 0 i g
start_attempts-IsWorked env (suc counter) i g =
    let (left, g1) = attempt (env (suc counter)) (suc counter) i g in
    let w = attempt-IsWorked (env (suc counter)) (suc counter) i g in
    if_IsWorked (status_of i g1 == 0 || left == 0) g g1 (start_attempts env counter i g1) w (
      IsWorked-trans g g1 (start_attempts env counter i g1) w
        (start_attempts-IsWorked env counter i g1))

pub start_process-IsWorked :
    (env : ℕ → Attempt) (i : ℕ) (g : Graph) → IsWorked g (start_process env i g)
unfolding start_process
start_process-IsWorked env i g =
    node_IsWorked (node_at i g) g g _ (IsWorked-refl g)
      (λ n. start_attempts-IsWorked env n.number_of_restart_attempts i g)
