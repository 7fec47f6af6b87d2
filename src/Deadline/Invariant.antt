-- ===== src/Deadline/Invariant.antt =====
-- What holds of a deadline supervision between two rounds of its evaluation.
use inc_lifecycle.Base.{
  ℕ, ◌≡◌, ◌≢◌, refl, sym, ◌∙◌, inl, inr, true, false, List, [], ◌∷◌, arith, Bool-cases,
}
use inc_lifecycle.Buffer.{push, elements, clear}
use inc_lifecycle.Checkpoint.{
  Status, deactivated, ok, failed, expired, UpdateEvent, UpdateType, timestamp_of_update_event,
  event_type, CheckpointData,
}
use inc_lifecycle.Deadline.{
  Deadline, AdvState, Config, create_deadline, switch_to_deactivated, switch_to_ok,
  switch_to_expired, push_result_to_observers, reset_timestamps,
}
use inc_lifecycle.Deadline.Evaluate.{
  is_ok, is_deactivated, check_transitions_out_of_deactivated, check_transitions_out_of_ok, observe,
  check_status, check_common_transitions, check_transitions, process_events,
  handle_data_loss_reaction, evaluate, store, update_checkpoint,
}
use inc_lifecycle.Deadline.Statuses.{observe-status}

pub record IsValid (d : Deadline) : Type 0 where
  pub not_failed : d.status ≢ failed
  -- The advanced state is ok while the supervision is.
  pub ok_advanced : d.status ≡ ok → d.adv_state ≡ AdvState.ok
  -- No measurement is under way outside the status ok.
  pub no_source : d.status ≢ ok → d.source_timestamp ≡ 0

-- The same where updates were stored since: an update that is lost may have set the advanced state.
pub record IsPending (d : Deadline) : Type 0 where
  pub not_failed : d.status ≢ failed
  pub ok_advanced : d.status ≡ ok → d.is_data_loss_event ≡ false → d.adv_state ≡ AdvState.ok
  pub no_source : d.status ≢ ok → d.source_timestamp ≡ 0

-- No data is lost since.
pub IsPending-IsValid : (d : Deadline) → IsPending d → d.is_data_loss_event ≡ false → IsValid d
IsPending-IsValid d v l = record {
  not_failed = v.not_failed;
  ok_advanced = λ q. v.ok_advanced q l;
  no_source = v.no_source;
}

pub IsValid-IsPending : (d : Deadline) → IsValid d → IsPending d
IsValid-IsPending d v = record {
  not_failed = v.not_failed;
  ok_advanced = λ q _. v.ok_advanced q;
  no_source = v.no_source;
}

store-IsPending : (e : UpdateEvent) (t : ℕ) (d : Deadline) → IsPending d → IsPending (store e t d)
unfolding store
store-IsPending e t d v = elim (Bool-cases (push e t d.buffer).1) [
  | inl h ↦
      rw h
        (record { not_failed = v.not_failed; ok_advanced = v.ok_advanced; no_source = v.no_source })
  | inr h ↦ rw h (record {
    not_failed = v.not_failed;
    ok_advanced = λ q l. absurd (cc);
    no_source = v.no_source;
  })
]

-- The updates that come in between two evaluations keep the state ready for the next one.
pub update_checkpoint-IsPending :
    (c : CheckpointData) (d : Deadline) → IsPending d → IsPending (update_checkpoint c d)
unfolding update_checkpoint
update_checkpoint-IsPending c d v = elim (Bool-cases c.data_loss) [
  | inl h ↦ rw h (record {
    not_failed = v.not_failed;
    ok_advanced = λ q l. absurd (cc);
    no_source = v.no_source;
  })
  | inr h ↦ rw h (store-IsPending (UpdateEvent.checkpoint c.identifier c.timestamp) c.timestamp d v)
]

pub create_deadline-IsValid :
    (c : Config) (size : ℕ) (gs ps : List ℕ) → IsValid (create_deadline c size gs ps)
unfolding create_deadline
create_deadline-IsValid c size gs ps = ground arith

switch_to_deactivated-IsValid : (d : Deadline) → IsValid (switch_to_deactivated d)
unfolding switch_to_deactivated push_result_to_observers reset_timestamps
switch_to_deactivated-IsValid d = ground arith

switch_to_expired-IsValid : (d : Deadline) → IsValid (switch_to_expired d)
unfolding switch_to_expired push_result_to_observers reset_timestamps
switch_to_expired-IsValid d = ground arith

activation-IsValid :
    (u : UpdateType) (t : ℕ) (d : Deadline)
    → IsValid d
    → d.status ≢ ok
    → IsValid (check_transitions_out_of_deactivated u t d)
unfolding check_transitions_out_of_deactivated switch_to_ok push_result_to_observers
activation-IsValid UpdateType.activation t d v n = record {
  not_failed = λ q. absurd (cc);
  ok_advanced = λ q. refl;
  no_source = λ q. absurd (q refl);
}
activation-IsValid _ t d v n = v

ok≢failed : ok ≢ failed
ok≢failed q = absurd (cc)

-- The rest of the state does not count.
alike-IsValid :
    (d e : Deadline)
    → IsValid d
    → e.status ≡ d.status
    → e.adv_state ≡ d.adv_state
    → e.source_timestamp ≡ d.source_timestamp
    → IsValid e
alike-IsValid d e v s a t = record {
  not_failed = λ q. v.not_failed (sym s ∙ q);
  ok_advanced = λ q. a ∙ v.ok_advanced (sym s ∙ q);
  no_source = λ n. t ∙ v.no_source (λ q. n (s ∙ q));
}

is_ok-ok : (s : AdvState) → is_ok s ≡ true → s ≡ AdvState.ok
is_ok-ok s h = ground arith

ok-IsValid :
    (u : UpdateType) (t : ℕ) (e : UpdateEvent) (d : Deadline)
    → d.status ≡ ok
    → IsValid (check_transitions_out_of_ok u t e d)
unfolding check_transitions_out_of_ok
ok-IsValid u t e d k = elim (Bool-cases (is_ok (observe u t e d).adv_state)) [
  | inl h ↦ rw h (record {
    not_failed = λ q. absurd (ok≢failed (sym (observe-status u t e d ∙ k) ∙ q));
    ok_advanced = λ q. is_ok-ok (observe u t e d).adv_state h;
    no_source = λ q. absurd (q (observe-status u t e d ∙ k));
  })
  | inr h ↦ rw h (switch_to_expired-IsValid (observe u t e d))
]

check_status-IsValid :
    (s : Status) (u : UpdateType) (t : ℕ) (e : UpdateEvent) (d : Deadline)
    → d.status ≡ s
    → IsValid d
    → IsValid (check_status s u t e d)
unfolding check_status
check_status-IsValid deactivated u t e d k v = activation-IsValid u t d v (λ q. absurd (cc))
check_status-IsValid ok u t e d k v = ok-IsValid u t e d k
check_status-IsValid expired u t e d k v = v
check_status-IsValid failed u t e d k v = absurd (v.not_failed k)

check_common_transitions-IsValid :
    (u : UpdateType) (t : ℕ) (d : Deadline) → IsValid d → IsValid (check_common_transitions u t d)
unfolding check_common_transitions switch_to_deactivated push_result_to_observers
check_common_transitions-IsValid UpdateType.recovered_from_crash t d v =
    activation-IsValid UpdateType.activation t (switch_to_deactivated d)
      (switch_to_deactivated-IsValid d) (λ q. absurd (cc))
check_common_transitions-IsValid UpdateType.deactivation t d v =
    elim (Bool-cases (is_deactivated d.status)) [
      | inl h ↦ rw h v
      | inr h ↦ rw h (switch_to_deactivated-IsValid (record d { event_timestamp = t }))
    ]
check_common_transitions-IsValid _ t d v = v

pub check_transitions-IsValid :
    (e : UpdateEvent) (d : Deadline) → IsValid d → IsValid (check_transitions e d)
unfolding check_transitions
check_transitions-IsValid e d v =
    let (u, tracker, errors) = event_type e d.process_tracker d.execution_errors in
    let d1 = record d { process_tracker = tracker; execution_errors = errors } in
    let t = timestamp_of_update_event e in
    check_common_transitions-IsValid u t (check_status d.status u t e d1)
      (check_status-IsValid d.status u t e d1 refl (alike-IsValid d d1 v refl refl refl))

pub process_events-IsValid :
    (es : List UpdateEvent) (d : Deadline) → IsValid d → IsValid (process_events es d)
unfolding process_events
process_events-IsValid [] d v = v
process_events-IsValid (e ∷ es) d v =
    process_events-IsValid es (check_transitions e d) (check_transitions-IsValid e d v)

-- An evaluation leaves a deadline supervision valid, whatever updates were stored before it, lost
-- ones included: the status failed is never reached, the advanced
-- state is ok while the status is, and a measurement is under way in the status ok only.
pub evaluate-IsValid : (t : ℕ) (d : Deadline) → IsPending d → IsValid (evaluate t d)
unfolding evaluate handle_data_loss_reaction switch_to_expired push_result_to_observers
    reset_timestamps
evaluate-IsValid t d v = elim (Bool-cases d.is_data_loss_event) [
  | inl h ↦ ground arith
  | inr h ↦ simp h (
      alike-IsValid after (record after { buffer = clear after.buffer; last_sync_timestamp = t })
        (check_transitions-IsValid (UpdateEvent.sync t) (process_events (elements d.buffer) d)
          (process_events-IsValid (elements d.buffer) d (IsPending-IsValid d v h)))
        refl refl refl)
]
  where
    after : Deadline
    after = check_transitions (UpdateEvent.sync t) (process_events (elements d.buffer) d)
