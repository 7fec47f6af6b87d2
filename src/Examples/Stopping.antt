-- ===== src/Examples/Stopping.antt =====
-- A process group that stops on a small input.
use inc_lifecycle.Base.{true, false, some, List, [], ◌∷◌, ◌≡◌, refl}
use inc_lifecycle.Group.{running, Dependency, Node, Graph}
use inc_lifecycle.Group.Work.{terminate_process, release_predecessors}
use inc_lifecycle.Group.Doubled.{ended, terminate_process-release_predecessors}
use inc_lifecycle.Group.Start.{do_work}
use inc_lifecycle.Examples.Groups.{process, idle_node, group, runs}

-- Process 0 has to stop after the processes 1 and 2, of which 1 is self-terminating and has a
-- successor on its termination; all but that one are running.
abbrev running_first : Node
running_first = record (idle_node (process [])) {
  state = running;
  in_requested_state = false;
  is_included = true;
  dependencies = 2;
}

abbrev after_first : List Dependency
after_first = record { process_state = running; os_process_index = 0 } ∷ []

abbrev leaving : Node
leaving = record (idle_node (record (process after_first) { is_self_terminating = true })) {
  state = running;
  in_requested_state = false;
  is_included = true;
  dependent_on_terminating = 3 ∷ [];
}

abbrev staying : Node
staying = record (idle_node (process after_first)) {
  state = running;
  in_requested_state = false;
  is_included = true;
}

abbrev stopping : Graph
stopping = record group {
  nodes = running_first ∷ leaving ∷ staying ∷ idle_node (process []) ∷ [];
  nodes_to_execute = 3;
  nodes_in_flight = 2;
  starting = false;
}

-- The exit of process 1 counts twice for process 0, which is queued while process 2 runs.
early_stop : (do_work (λ _. runs) (some 0) 1 stopping).jobs ≡ 0 ∷ []
unfolding do_work
early_stop = refl

terminate_process-release_predecessors_example :
    terminate_process (some 0) 1 stopping
    ≡ release_predecessors after_first (release_predecessors after_first (ended 0 1 stopping))
terminate_process-release_predecessors_example =
    terminate_process-release_predecessors 0 1 stopping leaving refl refl refl refl refl refl
