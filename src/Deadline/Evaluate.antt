-- ===== src/Deadline/Evaluate.antt =====
-- Deadline.cpp: the updates that the supervision observes, the transitions and `evaluate`.
use inc_lifecycle.Base.{ℕ, Bool, true, false, List, [], ◌∷◌, ◌==◌, if◌then◌else◌}
use inc_lifecycle.Buffer.{push, clear, elements}
use inc_lifecycle.Tracker.{is_process_state_relevant, set_all_processes_active}
use inc_lifecycle.Checkpoint.{
  Status, CheckpointData, ProcessData, UpdateEvent, UpdateType, timestamp_of_update_event,
  snapshot_of, event_type,
}
use inc_lifecycle.Deadline.{
  Deadline, AdvState, switch_to_deactivated, switch_to_ok, switch_to_expired, evaluate_source,
  evaluate_target, evaluate_missing_target,
}

-- A push into the history buffer; a full buffer is a data loss.
unfoldable pub store : UpdateEvent → ℕ → Deadline → Deadline
store e t d =
    let (buffer', stored) = push e t d.buffer in
    if stored then record d { buffer = buffer' } else record d {
      is_data_loss_event = true;
      adv_state = AdvState.history_buffer_overflow;
      event_timestamp = d.last_sync_timestamp;
    }

-- updateData of a checkpoint.
unfoldable pub update_checkpoint : CheckpointData → Deadline → Deadline
unfolding store
update_checkpoint c d =
    if c.data_loss
    then record d {
      is_data_loss_event = true;
      adv_state = AdvState.ring_buffer_overflow;
      event_timestamp = d.last_sync_timestamp;
    }
    else store (UpdateEvent.checkpoint c.identifier c.timestamp) c.timestamp d

-- updateData of a process state.
unfoldable pub update_process : ProcessData → Deadline → Deadline
unfolding store
update_process p d =
    if is_process_state_relevant p.proc_state d.process_tracker
    then store (UpdateEvent.process (snapshot_of p)) p.timestamp d
    else d

abbrev pub is_ok : AdvState → Bool
is_ok AdvState.ok = true
is_ok _ = false

abbrev pub is_expired : Status → Bool
is_expired Status.expired = true
is_expired _ = false

abbrev pub is_deactivated : Status → Bool
is_deactivated Status.deactivated = true
is_deactivated _ = false

unfoldable pub handle_data_loss_reaction : Deadline → Deadline
handle_data_loss_reaction d =
    let d1 = if is_expired d.status then d else switch_to_expired d in
    record d1 {
      buffer = clear d1.buffer;
      process_tracker = set_all_processes_active d1.process_tracker;
      is_data_loss_event = false;
    }

unfoldable pub check_transitions_out_of_deactivated : UpdateType → ℕ → Deadline → Deadline
check_transitions_out_of_deactivated UpdateType.activation t d =
    switch_to_ok (record d { event_timestamp = t })
check_transitions_out_of_deactivated _ t d = d

-- What the event does in the status ok, before the look at the advanced state.
unfoldable pub observe : UpdateType → ℕ → UpdateEvent → Deadline → Deadline
observe UpdateType.checkpoint t (UpdateEvent.checkpoint identifier stamp) d =
    if identifier == d.source
    then evaluate_source t d
    else (if identifier == d.target then evaluate_target t d else d)
observe UpdateType.checkpoint t _ d = d
observe _ t e d = evaluate_missing_target t d

unfoldable pub check_transitions_out_of_ok : UpdateType → ℕ → UpdateEvent → Deadline → Deadline
check_transitions_out_of_ok u t e d =
    let d1 = observe u t e d in if is_ok d1.adv_state then d1 else switch_to_expired d1

-- The switch over the status; a deadline supervision is never failed, and that is data corruption.
unfoldable pub check_status : Status → UpdateType → ℕ → UpdateEvent → Deadline → Deadline
check_status Status.deactivated u t e d = check_transitions_out_of_deactivated u t d
check_status Status.ok u t e d = check_transitions_out_of_ok u t e d
check_status Status.expired u t e d = d
check_status Status.failed u t e d =
    switch_to_expired
      (record d { event_timestamp = d.last_sync_timestamp; adv_state = AdvState.data_error })

-- checkForRecoveryTransition, and checkTransitionsToDeactivated where that answers no.
unfoldable pub check_common_transitions : UpdateType → ℕ → Deadline → Deadline
check_common_transitions UpdateType.recovered_from_crash t d =
    check_transitions_out_of_deactivated UpdateType.activation t (switch_to_deactivated d)
check_common_transitions UpdateType.deactivation t d =
    if is_deactivated d.status then d else switch_to_deactivated (record d { event_timestamp = t })
check_common_transitions _ t d = d

-- checkTransitions, one round of the loop.
unfoldable pub check_transitions : UpdateEvent → Deadline → Deadline
check_transitions e d =
    let t = timestamp_of_update_event e in
    let (u, tracker, errors) = event_type e d.process_tracker d.execution_errors in
    let d1 = record d { process_tracker = tracker; execution_errors = errors } in
    check_common_transitions u t (check_status d1.status u t e d1)

unfoldable pub process_events : List UpdateEvent → Deadline → Deadline
process_events [] d = d
process_events (e ∷ rest) d = process_events rest (check_transitions e d)

-- The event of the synchronization comes last and is not stored.
unfoldable pub evaluate : ℕ → Deadline → Deadline
evaluate t d =
    if d.is_data_loss_event
    then record (handle_data_loss_reaction d) { last_sync_timestamp = t }
    else (let d1 = check_transitions (UpdateEvent.sync t) (process_events (elements d.buffer) d) in
        record d1 { buffer = clear d1.buffer; last_sync_timestamp = t })
