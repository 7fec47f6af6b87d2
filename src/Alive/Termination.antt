-- ===== src/Alive/Termination.antt =====
-- The end of the loop of Alive::evaluate, by the end of the reference cycle.
use inc_lifecycle.Base.{
  ℕ, zero, suc, ◌+◌, ◌≤◌, ◌<◌, ◌≡◌, refl, ◌⊎◌, inl, inr, true, false, some, List, [], ◌∷◌, ◌++◌,
  arith, Bool-cases, All,
}
use inc_lifecycle.Checkpoint.{
  Status, deactivated, ok, failed, expired, UpdateEvent, UpdateType, timestamp_of_update_event,
  event_type,
}
use inc_lifecycle.Alive.{Alive, evaluate_ref_cycle_out_of_ok, evaluate_ref_cycle_out_of_failed}
use inc_lifecycle.Alive.Evaluate.{
  check_transitions, check_transitions_out_of_deactivated, check_transitions_out_of_ok,
  check_transitions_out_of_failed, check_common_transitions, alive_event_type,
  detect_evaluation_event, round, process_event, process_events,
}
use inc_lifecycle.Alive.Valid.{is_running, IsValid}
use inc_lifecycle.Alive.Invariant.{round-IsValid}

abbrev time : UpdateEvent → ℕ
time e = timestamp_of_update_event e

detect_due :
    (t : ℕ) (e : UpdateEvent) (a : Alive)
    → detect_evaluation_event t e a ≡ true
    → (is_running a.status ≡ true) × (a.reference_cycle_end ≤ t)
unfolding detect_evaluation_event
detect_due t e a h = ground arith

detect_settled :
    (t : ℕ) (a : Alive)
    → detect_evaluation_event t (UpdateEvent.sync t) a ≡ false
    → is_running a.status ≡ true
    → t < a.reference_cycle_end
unfolding detect_evaluation_event
detect_settled t a h r = ground arith

abbrev Moves : Alive → Alive → Type 0
Moves a b = (is_running b.status ≡ false) ⊎ (a.reference_cycle_end < b.reference_cycle_end)

evaluate_ref_cycle_out_of_ok-Moves :
    (a : Alive) → IsValid a → a.status ≡ ok → Moves a (evaluate_ref_cycle_out_of_ok a)
unfolding evaluate_ref_cycle_out_of_ok
evaluate_ref_cycle_out_of_ok-Moves a v h = ground arith

evaluate_ref_cycle_out_of_failed-Moves :
    (a : Alive) → IsValid a → a.status ≡ failed → Moves a (evaluate_ref_cycle_out_of_failed a)
unfolding evaluate_ref_cycle_out_of_failed
evaluate_ref_cycle_out_of_failed-Moves a v h = ground arith

check_transitions-Moves :
    (s : Status) (t : ℕ) (a : Alive)
    → IsValid a
    → a.status ≡ s
    → is_running s ≡ true
    → Moves a (check_transitions s UpdateType.evaluation t a)
unfolding check_transitions check_transitions_out_of_ok check_transitions_out_of_failed
check_transitions-Moves ok t a v h r = evaluate_ref_cycle_out_of_ok-Moves a v h
check_transitions-Moves failed t a v h r = evaluate_ref_cycle_out_of_failed-Moves a v h
check_transitions-Moves deactivated t a v h r = absurd (cc)
check_transitions-Moves expired t a v h r = absurd (cc)

-- A round that evaluates a reference cycle runs the evaluation at the end of the cycle.
pub round_evaluation :
    (e : UpdateEvent) (a : Alive)
    → (round e a).1 ≡ true
    → (round e a).0
      ≡ check_transitions a.status UpdateType.evaluation a.reference_cycle_end
          (record a { event_timestamp = a.reference_cycle_end })
unfolding round alive_event_type check_common_transitions
round_evaluation e a h = rw h refl

round-Moves :
    (e : UpdateEvent) (a : Alive)
    → IsValid a
    → (round e a).1 ≡ true
    → Moves a (round e a).0 × (a.reference_cycle_end ≤ time e) × (is_running a.status ≡ true)
unfolding round
round-Moves e a v h =
    let due = detect_due (time e) e a h in
    (
      rw (round_evaluation e a h) (
          check_transitions-Moves a.status a.reference_cycle_end
            (record a { event_timestamp = a.reference_cycle_end }) (ground arith) refl due.0),
      due.1,
      due.0,
    )

check_transitions_sync :
    (s : Status) (t : ℕ) (a : Alive) → check_transitions s UpdateType.sync t a ≡ a
unfolding check_transitions check_transitions_out_of_deactivated check_transitions_out_of_ok
    check_transitions_out_of_failed
check_transitions_sync deactivated t a = refl
check_transitions_sync _ t a = refl

-- What a round that does not evaluate does to the event at the synchronization: nothing.
round_sync_settled :
    (t : ℕ) (a : Alive)
    → (round (UpdateEvent.sync t) a).1 ≡ false
    → (round (UpdateEvent.sync t) a).0 ≡ a
unfolding round alive_event_type event_type check_common_transitions
round_sync_settled t a h = rw h (check_transitions_sync a.status _ a)

process_event-total :
    (fuel : ℕ) (e : UpdateEvent) (a : Alive)
    → IsValid a
    → (is_running a.status ≡ true → time e + 2 ≤ fuel + a.reference_cycle_end)
    → 0 < fuel
    → (b : Alive) × (process_event fuel e a ≡ some b) × IsValid b
unfolding process_event
process_event-total zero e a v h p = elim p [ ]
process_event-total (suc fuel) e a v h p = elim (Bool-cases (round e a).1) [
  | inl again ↦
      let moves = round-Moves e a v again in
      let rest =
        process_event-total fuel e (round e a).0 (round-IsValid e a v)
          (ground (arith, moves, h moves.2)) (omega (arith, moves.1, h moves.2)) in
      (rest.0, rw (again, process_event) rest.1, rest.2)
  | inr settled ↦ ((round e a).0, rw (settled, process_event) refl, round-IsValid e a v)
]

sync_settled :
    (t : ℕ) (a : Alive)
    → (round (UpdateEvent.sync t) a).1 ≡ false
    → is_running a.status ≡ true
    → t < a.reference_cycle_end
unfolding round timestamp_of_update_event
sync_settled t a h r = detect_settled t a h r

-- The event of the synchronization leaves no reference cycle that has ended.
process_event_sync :
    (fuel t : ℕ) (a : Alive) {b : Alive}
    → process_event fuel (UpdateEvent.sync t) a ≡ some b
    → is_running b.status ≡ true
    → t < b.reference_cycle_end
unfolding process_event
process_event_sync zero t a h r = absurd (cc)
process_event_sync (suc fuel) t a {b} h r = elim (Bool-cases (round (UpdateEvent.sync t) a).1) [
  | inl again ↦
      process_event_sync fuel t (round (UpdateEvent.sync t) a).0 {b = b} (ground (arith, again)) r
  | inr settled ↦
      let same = round_sync_settled t a settled in
      ground (arith, settled, same, sync_settled t a settled)
]

-- With fuel beyond the synchronization every event is processed, the synchronization last.
pub process_events-total :
    (fuel t : ℕ) (events : List UpdateEvent) (a : Alive)
    → IsValid a
    → All (λ e. timestamp_of_update_event e ≤ t) events
    → t + 2 ≤ fuel
    → (b : Alive) × (process_events fuel (events ++ UpdateEvent.sync t ∷ []) a ≡ some b)
      × IsValid b
      × (is_running b.status ≡ true → t < b.reference_cycle_end)
unfolding process_events
process_events-total fuel t [] a v early enough =
    let last = process_event-total fuel (UpdateEvent.sync t) a v (λ r. sync_time) (omega arith) in
    (
      last.0,
      rw (last.1, process_events) refl,
      last.2,
      process_event_sync fuel t a {b = last.0} last.1,
    )
  where
    sync_time : time (UpdateEvent.sync t) + 2 ≤ fuel + a.reference_cycle_end
    sync_time = unfold timestamp_of_update_event in omega arith
process_events-total fuel t (e ∷ rest) a v early enough =
    let first = process_event-total fuel e a v (λ r. omega arith) (omega arith) in
    let later = process_events-total fuel t rest first.0 first.2 early.1 enough in
    (later.0, rw (first.1, process_events) later.1, later.2, later.3)
