-- ===== src/Alive/Evaluate.antt =====
-- Alive.cpp: the updates that the supervision observes, and `evaluate` with its loop over the sorted
-- events. The loop takes an event again after each evaluation of a reference cycle that ended before
-- it, so it is written as one function on fuel for the rounds of one event, and one over the events.
use inc_lifecycle.Base.{
  ℕ, zero, suc, Bool, true, false, ◌&&◌, ◌||◌, Option, none, some, List, [], ◌∷◌, ltb, ◌==◌,
  if◌then◌else◌,
}
use inc_lifecycle.Buffer.{push, clear, elements}
use inc_lifecycle.Tracker.{is_process_state_relevant, set_all_processes_active}
use inc_lifecycle.Checkpoint.{
  Status, deactivated, ok, failed, expired, CheckpointData, ProcessData, UpdateEvent, UpdateType,
  timestamp_of_update_event, snapshot_of, event_type,
}
use inc_lifecycle.Alive.{
  Alive, data_loss, DataLossReason, no_data_loss, buffer_full, shared_memory, switch_to_deactivated,
  switch_to_ok, switch_to_expired, set_reference_cycle_timestamps, inc_indication_count,
  evaluate_ref_cycle_out_of_ok, evaluate_ref_cycle_out_of_failed,
}

-- A push into the history buffer; a full buffer is a data loss.
unfoldable pub store : UpdateEvent → ℕ → Alive → Alive
store e t a =
    let (buffer', stored) = push e t a.buffer in
    if stored
    then record a { buffer = buffer' }
    else record a { data_loss_reason = buffer_full; event_timestamp = a.last_sync_timestamp }

-- updateData of a checkpoint.
unfoldable pub update_checkpoint : CheckpointData → Alive → Alive
unfolding store
update_checkpoint c a =
    if c.data_loss
    then record a {
      data_loss_reason = shared_memory;
      event_timestamp = if c.timestamp == 0 then a.last_sync_timestamp else c.timestamp;
    }
    else store (UpdateEvent.checkpoint c.identifier c.timestamp) c.timestamp a

-- updateData of a process state.
unfoldable pub update_process : ProcessData → Alive → Alive
unfolding store
update_process p a =
    if is_process_state_relevant p.proc_state a.process_tracker
    then store (UpdateEvent.process (snapshot_of p)) p.timestamp a
    else a

unfoldable pub store_sync_event : ℕ → Alive → Alive
unfolding store
store_sync_event t a = store (UpdateEvent.sync t) t a

abbrev pub is_status : Status → Status → Bool
is_status deactivated deactivated = true
is_status ok ok = true
is_status failed failed = true
is_status expired expired = true
is_status _ _ = false

unfoldable pub handle_data_loss_reaction : Alive → Alive
handle_data_loss_reaction a =
    let a' = if is_status a.status expired then a else switch_to_expired data_loss a in
    record a' {
      buffer = clear a'.buffer;
      process_tracker = set_all_processes_active a'.process_tracker;
      data_loss_reason = no_data_loss;
    }

abbrev is_sync : UpdateEvent → Bool
is_sync (UpdateEvent.sync t) = true
is_sync _ = false

unfoldable pub detect_evaluation_event : ℕ → UpdateEvent → Alive → Bool
detect_evaluation_event t e a =
    if is_status a.status deactivated || is_status a.status expired
    then false
    else ltb a.reference_cycle_end t || (a.reference_cycle_end == t && is_sync e)

unfoldable pub alive_event_type : Bool → UpdateEvent → Alive → UpdateType × Alive
alive_event_type true e a = (UpdateType.evaluation, a)
alive_event_type false e a =
    let (u, tracker, errors) = event_type e a.process_tracker a.execution_errors in
    (u, record a { process_tracker = tracker; execution_errors = errors })

unfoldable pub check_transitions_out_of_deactivated : UpdateType → ℕ → Alive → Alive
check_transitions_out_of_deactivated UpdateType.activation t a =
    let (a', overflowed) = set_reference_cycle_timestamps t a in
    if overflowed then a' else switch_to_ok (record a' { event_timestamp = t })
check_transitions_out_of_deactivated _ t a = a

unfoldable pub check_transitions_out_of_ok : UpdateType → ℕ → Alive → Alive
check_transitions_out_of_ok UpdateType.evaluation t a = evaluate_ref_cycle_out_of_ok a
check_transitions_out_of_ok UpdateType.checkpoint t a = inc_indication_count t a
check_transitions_out_of_ok _ t a = a

unfoldable pub check_transitions_out_of_failed : UpdateType → ℕ → Alive → Alive
check_transitions_out_of_failed UpdateType.evaluation t a = evaluate_ref_cycle_out_of_failed a
check_transitions_out_of_failed UpdateType.checkpoint t a = inc_indication_count t a
check_transitions_out_of_failed _ t a = a

-- The switch over the status.
unfoldable pub check_transitions : Status → UpdateType → ℕ → Alive → Alive
check_transitions deactivated u t a = check_transitions_out_of_deactivated u t a
check_transitions ok u t a = check_transitions_out_of_ok u t a
check_transitions failed u t a = check_transitions_out_of_failed u t a
check_transitions expired u t a = a

-- checkForRecoveryTransition, and checkTransitionsToDeactivated where that answers no.
unfoldable pub check_common_transitions : UpdateType → ℕ → Alive → Alive
check_common_transitions UpdateType.recovered_from_crash t a =
    check_transitions_out_of_deactivated UpdateType.activation t (switch_to_deactivated a)
check_common_transitions UpdateType.deactivation t a =
    if is_status a.status deactivated
    then a
    else switch_to_deactivated (record a { event_timestamp = t })
check_common_transitions _ t a = a

-- One round of the loop. The result says whether it was an evaluation of a reference cycle, after
-- which the same event is taken again.
unfoldable pub round : UpdateEvent → Alive → Alive × Bool
round e a =
    let evaluates = detect_evaluation_event (timestamp_of_update_event e) e a in
    let t = if evaluates then a.reference_cycle_end else timestamp_of_update_event e in
    let a1 = if evaluates then record a { event_timestamp = a.reference_cycle_end } else a in
    let (u, a2) = alive_event_type evaluates e a1 in
    (check_common_transitions u t (check_transitions a2.status u t a2), evaluates)

unfoldable pub process_event : ℕ → UpdateEvent → Alive → Option Alive
process_event zero e a = none
process_event (suc fuel) e a =
    let (a', again) = round e a in
    let more = process_event fuel e a' in if again then more else some a'

unfoldable pub process_events : ℕ → List UpdateEvent → Alive → Option Alive
process_events fuel [] a = some a
process_events fuel (e ∷ rest) a = elim (process_event fuel e a) [
  | none ↦ none
  | some a' ↦ process_events fuel rest a'
]

abbrev pub lost_data : DataLossReason → Bool
lost_data no_data_loss = false
lost_data _ = true

-- `none` where the fuel for the rounds of one event runs out.
unfoldable pub evaluate : ℕ → ℕ → Alive → Option Alive
evaluate fuel t a =
    let a1 = store_sync_event t a in
    if lost_data a1.data_loss_reason
    then some (record (handle_data_loss_reaction a1) { last_sync_timestamp = t })
    else elim (process_events fuel (elements a1.buffer) a1) [
      | none ↦ none
      | some a2 ↦ some (record a2 { buffer = clear a2.buffer; last_sync_timestamp = t })
    ]
