-- ===== src/Examples/Paths.antt =====
-- The logical supervision and the process tracker on small inputs.
use inc_lifecycle.Base.{ℕ, ◌≡◌, refl, ◌⊎◌, true, false, Option, none, some, List, [], ◌∷◌, map}
use inc_lifecycle.Tracker.{ProcState, ProcessStateSnapshot, Tracker, activated, crashed, new}
use inc_lifecycle.Checkpoint.{ok, expired}
use inc_lifecycle.Logical.{GraphElement, Graph, Logical, create_logical, is_valid_transition}
use inc_lifecycle.Logical.Evaluate.{process_events}
use inc_lifecycle.Logical.Evaluate
use inc_lifecycle.Logical.Paths.{Decides}
use inc_lifecycle.Logical.Transitions.{is_valid_transition-Step}
use inc_lifecycle.Logical.Walks.{Walk, Leaves, Holds, checkpoint, reported, process_events-Walk}
use inc_lifecycle.Logical.Deactivated.{Fits}

-- Checkpoint 100, then 200, which is final.
abbrev nodes : List GraphElement
nodes =
    record { tracked_checkpoint = 100; is_final = false; valid_next_elements = 1 ∷ [] }
    ∷ record { tracked_checkpoint = 200; is_final = true; valid_next_elements = [] }
    ∷ []

abbrev graph : Graph
graph = record {
  elements = nodes;
  entries = 0 ∷ [];
  is_graph_active = false;
  current_graph_position = none;
}

abbrev logical_ok : Logical
logical_ok = record (create_logical (λ n. n) (λ n. 7) 8 (1 ∷ []) (7 ∷ [])) {
  status = ok;
  graph = some graph;
}

graph-Holds : Holds nodes (0 ∷ []) none logical_ok
graph-Holds = record {
  graph = graph;
  held = refl;
  same_elements = refl;
  same_entries = refl;
  is_placed = λ h. absurd (cc);
  at = refl;
}

abbrev reports : List (ℕ × ℕ)
reports = (100, 6) ∷ (200, 7) ∷ (200, 8) ∷ []

process_events-Walk_example :
    (((process_events (map checkpoint reports) logical_ok).status ≡ ok)
      × (q : Option ℕ) × Walk nodes (0 ∷ []) none (map reported reports) q
      × Holds nodes (0 ∷ []) q (process_events (map checkpoint reports) logical_ok))
    ⊎ (((process_events (map checkpoint reports) logical_ok).status ≡ expired)
        × Leaves nodes (0 ∷ []) none (map reported reports))
process_events-Walk_example =
    process_events-Walk reports none logical_ok nodes (0 ∷ []) refl graph-Holds

is_valid_transition-Step_example : Decides 100 graph (is_valid_transition 100 graph)
is_valid_transition-Step_example = is_valid_transition-Step 100 graph (λ h. absurd (cc))

logical_ok-Fits : Fits logical_ok.status logical_ok.graph
unfolding Fits
logical_ok-Fits h = absurd (cc)

abbrev observed : ℕ → Logical → Logical
observed = Evaluate.evaluate

-- A process of two was crashed and is started again, while the other one is active.
abbrev restarting : Tracker
restarting = record (new (1 ∷ []) (7 ∷ 8 ∷ [])) {
  process_states = crashed ∷ activated ∷ [];
  process_states_before = crashed ∷ activated ∷ [];
}

abbrev restart : ProcessStateSnapshot
restart = record {
  identifier = 7;
  proc_state = ProcState.starting;
  process_group_state = 1;
  timestamp = 9;
  execution_error = 1;
}
