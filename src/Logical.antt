-- ===== src/Logical.antt =====
-- The logical supervision (src/launch_manager_daemon/health_monitor_lib/src/score/lcm/saf/supervision/
-- Logical.cpp, .hpp): checkpoints must follow the edges of a graph. A graph element is known by its
-- index in the vector `elements`, checkpoints and processes by their addresses. Logging and the
-- attaching of observers are left out. `published` holds what the observers were given, newest first.
pub mod Evaluate
pub mod Search
pub mod Paths
pub mod Transitions
pub mod Walks
pub mod Deactivated
use inc_lifecycle.Base.{
  ℕ, Bool, true, false, Option, none, some, List, [], ◌∷◌, ◌==◌, if◌then◌else◌, get_elem?,
}
use inc_lifecycle.Buffer.{Buffer, create}
use inc_lifecycle.Tracker.{Tracker, new}
use inc_lifecycle.Checkpoint.{
  Status, deactivated, ok, expired, UpdateEvent, Report, execution_error_for, initial_errors,
  default_execution_error,
}

-- A GraphElement, with the indices that `validNextElements` points to.
pub record GraphElement : Type 0 where
  pub tracked_checkpoint : ℕ
  pub is_final : Bool
  pub valid_next_elements : List ℕ

-- GraphElement::EResult.
pub data Result : Type 0 where
  error valid valid_final : Result

pub record Graph : Type 0 where
  pub elements : List GraphElement
  pub entries : List ℕ
  pub is_graph_active : Bool
  pub current_graph_position : Option ℕ

-- Logical::EReason.
pub data Reason : Type 0 where
  data_loss invalid_transition data_corruption : Reason

pub record ExpiredFailureInfo : Type 0 where
  pub current_checkpoint_id : ℕ
  pub reported_checkpoint_id : ℕ
  pub process_reported_invalid_cp : ℕ

-- `id_of` and `process_of` are getId and getProcess of the checkpoints, which are constant.
pub record Logical : Type 0 where
  pub id_of : ℕ → ℕ
  pub process_of : ℕ → ℕ
  pub graph : Option Graph
  pub is_data_loss_event : Bool
  pub status : Status
  pub failure_info : ExpiredFailureInfo
  pub event_timestamp : ℕ
  pub last_sync_timestamp : ℕ
  pub buffer : Buffer UpdateEvent
  pub process_tracker : Tracker
  pub execution_errors : List (ℕ × ℕ)
  pub last_execution_error : ℕ
  pub published : List Report

abbrev pub no_failure : ExpiredFailureInfo
no_failure = record {
  current_checkpoint_id = 0;
  reported_checkpoint_id = 0;
  process_reported_invalid_cp = 0;
}

unfoldable pub create_logical : (ℕ → ℕ) → (ℕ → ℕ) → ℕ → List ℕ → List ℕ → Logical
create_logical ids reporters size group_states processes = record {
  id_of = ids;
  process_of = reporters;
  graph = none;
  is_data_loss_event = false;
  status = deactivated;
  failure_info = no_failure;
  event_timestamp = 0;
  last_sync_timestamp = 0;
  buffer = create size;
  process_tracker = new group_states processes;
  execution_errors = initial_errors processes;
  last_execution_error = default_execution_error;
  published = [];
}

unfoldable pub add_graph : List ℕ → List GraphElement → Logical → Logical
add_graph es elems l = record l {
  graph = some (record {
    elements = elems;
    entries = es;
    is_graph_active = false;
    current_graph_position = none;
  });
}

abbrev pub result_of : GraphElement → Result
result_of e = if e.is_final then valid_final else valid

-- One turn of the loop of getNextElement: a later match replaces an earlier one.
unfoldable pub visit : List GraphElement → ℕ → ℕ → Result × Option ℕ → Result × Option ℕ
visit elems c i found = elim (get_elem? elems i) [
  | none ↦ found
  | some e ↦ if e.tracked_checkpoint == c then (result_of e, some i) else found
]

unfoldable pub scan : List GraphElement → ℕ → List ℕ → Result × Option ℕ → Result × Option ℕ
scan elems c [] found = found
scan elems c (i ∷ is) found = scan elems c is (visit elems c i found)

-- getNextElement of the current position, which it also replaces.
unfoldable pub get_next_element : ℕ → Graph → Result × Option ℕ
get_next_element c g = elim g.current_graph_position [
  | none ↦ (error, none)
  | some p ↦ elim (get_elem? g.elements p) [
    | none ↦ (error, some p)
    | some e ↦ scan g.elements c e.valid_next_elements (error, some p)
  ]
]

-- The first entry that tracks the checkpoint.
unfoldable pub find_entry : List GraphElement → ℕ → List ℕ → Option ℕ
find_entry elems c [] = none
find_entry elems c (i ∷ is) =
    let rest = find_entry elems c is in
    elim (get_elem? elems i) [
      | none ↦ rest
      | some e ↦ if e.tracked_checkpoint == c then some i else rest
    ]

-- What an active graph makes of the next element.
abbrev pub advance : Graph → Result × Option ℕ → Bool × Graph
advance g (valid_final, position) =
    (true, record g { is_graph_active = false; current_graph_position = position })
advance g (error, position) = (false, record g { current_graph_position = position })
advance g (valid, position) = (true, record g { current_graph_position = position })

-- isValidTransition, with the graph as it leaves it.
unfoldable pub is_valid_transition : ℕ → Graph → Bool × Graph
is_valid_transition c g =
    if g.is_graph_active
    then advance g (get_next_element c g)
    else elim (find_entry g.elements c g.entries) [
      | none ↦ (false, g)
      | some i ↦ (true, record g { is_graph_active = true; current_graph_position = some i })
    ]

unfoldable pub reset_graph : Graph → Graph
reset_graph g = record g { is_graph_active = false; current_graph_position = none }

unfoldable pub push_result_to_observers : Logical → Logical
push_result_to_observers l = record l { published = report ∷ l.published }
  where
    report : Report
    report = record {
      status = l.status;
      timestamp = l.event_timestamp;
      execution_error = l.last_execution_error;
    }

abbrev pub reset_optional : Option Graph → Option Graph
reset_optional none = none
reset_optional (some g) = some (reset_graph g)

unfoldable pub switch_to_deactivated : Logical → Logical
unfolding push_result_to_observers
switch_to_deactivated l =
    push_result_to_observers (record l { status = deactivated; graph = reset_optional l.graph })

unfoldable pub switch_to_ok : Logical → Logical
unfolding push_result_to_observers
switch_to_ok l = push_result_to_observers (record l { status = ok })

abbrev pub expiry_error : Reason → Logical → ℕ
expiry_error invalid_transition l =
    execution_error_for l.failure_info.process_reported_invalid_cp l.execution_errors
expiry_error _ l = default_execution_error

unfoldable pub switch_to_expired : Reason → Logical → Logical
unfolding push_result_to_observers
switch_to_expired r l =
    push_result_to_observers
      (record l { last_execution_error = expiry_error r l; status = expired })
