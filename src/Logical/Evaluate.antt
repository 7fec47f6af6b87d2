-- ===== src/Logical/Evaluate.antt =====
-- Logical.cpp: the updates that the supervision observes, the transitions and `evaluate`.
use inc_lifecycle.Base.{
  ℕ, Bool, true, false, Option, none, some, List, [], ◌∷◌, ◌==◌, if◌then◌else◌, get_elem?,
}
use inc_lifecycle.Buffer.{push, clear, elements}
use inc_lifecycle.Tracker.{is_process_state_relevant, set_all_processes_active}
use inc_lifecycle.Checkpoint.{
  Status, CheckpointData, ProcessData, UpdateEvent, UpdateType, timestamp_of_update_event,
  snapshot_of, event_type,
}
use inc_lifecycle.Logical.{
  Logical, Graph, Reason, is_valid_transition, switch_to_deactivated, switch_to_ok,
  switch_to_expired,
}

-- A push into the history buffer; a full buffer is a data loss.
unfoldable pub store : UpdateEvent → ℕ → Logical → Logical
store e t l =
    let (buffer', stored) = push e t l.buffer in
    if stored
    then record l { buffer = buffer' }
    else record l { is_data_loss_event = true; event_timestamp = l.last_sync_timestamp }

-- updateData of a checkpoint.
unfoldable pub update_checkpoint : CheckpointData → Logical → Logical
unfolding store
update_checkpoint c l =
    if c.data_loss
    then record l {
      is_data_loss_event = true;
      event_timestamp = if c.timestamp == 0 then l.last_sync_timestamp else c.timestamp;
    }
    else store (UpdateEvent.checkpoint c.identifier c.timestamp) c.timestamp l

-- updateData of a process state.
unfoldable pub update_process : ProcessData → Logical → Logical
unfolding store
update_process p l =
    if is_process_state_relevant p.proc_state l.process_tracker
    then store (UpdateEvent.process (snapshot_of p)) p.timestamp l
    else l

abbrev pub is_expired : Status → Bool
is_expired Status.expired = true
is_expired _ = false

abbrev pub is_deactivated : Status → Bool
is_deactivated Status.deactivated = true
is_deactivated _ = false

unfoldable pub handle_data_loss : Logical → Logical
handle_data_loss l =
    let l1 = if is_expired l.status then l else switch_to_expired Reason.data_loss l in
    record l1 {
      buffer = clear l1.buffer;
      process_tracker = set_all_processes_active l1.process_tracker;
      is_data_loss_event = false;
    }

unfoldable pub check_transitions_out_of_deactivated : UpdateType → ℕ → Logical → Logical
check_transitions_out_of_deactivated UpdateType.activation t l =
    switch_to_ok (record l { event_timestamp = t })
check_transitions_out_of_deactivated _ t l = l

-- The id of the checkpoint at the current position, for the log; 0 while the graph is inactive.
abbrev pub current_id : (ℕ → ℕ) → Graph → ℕ
current_id ids g =
    if g.is_graph_active
    then (elim g.current_graph_position [
      | none ↦ 0
      | some p ↦ elim (get_elem? g.elements p) [ none ↦ 0 | some e ↦ ids e.tracked_checkpoint ]
    ])
    else 0

-- An invalid transition, with the graph as the test of the transition left it.
unfoldable pub expire_invalid : ℕ → ℕ → Logical → Logical
expire_invalid c current l = switch_to_expired Reason.invalid_transition (record l {
  failure_info = record {
    current_checkpoint_id = current;
    reported_checkpoint_id = l.id_of c;
    process_reported_invalid_cp = l.process_of c;
  };
})

-- What the supervision makes of the answer of the graph.
unfoldable pub settle : Bool × Graph → ℕ → ℕ → Logical → Logical
settle (true, g) c t l = record l { event_timestamp = t; graph = some g }
settle (false, g) c t l =
    expire_invalid c (current_id l.id_of g) (record l { event_timestamp = t; graph = some g })

-- A checkpoint in the status ok. A supervision without a graph accepts none.
unfoldable pub observe : Option Graph → ℕ → ℕ → Logical → Logical
unfolding settle
observe none c t l = expire_invalid c 0 (record l { event_timestamp = t })
observe (some g) c t l = settle (is_valid_transition c g) c t l

unfoldable pub check_transitions_out_of_ok : UpdateType → ℕ → UpdateEvent → Logical → Logical
check_transitions_out_of_ok UpdateType.checkpoint t (UpdateEvent.checkpoint c stamp) l =
    observe l.graph c t l
check_transitions_out_of_ok _ t e l = l

-- The switch over the status; a logical supervision is never failed, and that is data corruption.
unfoldable pub check_status : Status → UpdateType → ℕ → UpdateEvent → Logical → Logical
check_status Status.deactivated u t e l = check_transitions_out_of_deactivated u t l
check_status Status.ok u t e l = check_transitions_out_of_ok u t e l
check_status Status.expired u t e l = l
check_status Status.failed u t e l =
    switch_to_expired Reason.data_corruption (record l { event_timestamp = l.last_sync_timestamp })

-- checkForRecoveryTransition, and checkTransitionsToDeactivated where that answers no.
unfoldable pub check_common_transitions : UpdateType → ℕ → Logical → Logical
check_common_transitions UpdateType.recovered_from_crash t l =
    check_transitions_out_of_deactivated UpdateType.activation t (switch_to_deactivated l)
check_common_transitions UpdateType.deactivation t l =
    if is_deactivated l.status then l else switch_to_deactivated (record l { event_timestamp = t })
check_common_transitions _ t l = l

-- One round of the loop of `evaluate`.
unfoldable pub process_event : UpdateEvent → Logical → Logical
process_event e l =
    let t = timestamp_of_update_event e in
    let (u, tracker, errors) = event_type e l.process_tracker l.execution_errors in
    let l1 = record l { process_tracker = tracker; execution_errors = errors } in
    check_common_transitions u t (check_status l1.status u t e l1)

unfoldable pub process_events : List UpdateEvent → Logical → Logical
process_events [] l = l
process_events (e ∷ rest) l = process_events rest (process_event e l)

unfoldable pub evaluate : ℕ → Logical → Logical
evaluate t l =
    if l.is_data_loss_event
    then record (handle_data_loss l) { last_sync_timestamp = t }
    else (let l1 = process_events (elements l.buffer) l in
        record l1 { buffer = clear l1.buffer; last_sync_timestamp = t })
