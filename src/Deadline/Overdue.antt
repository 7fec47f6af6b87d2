-- ===== src/Deadline/Overdue.antt =====
-- The judgement of a target, and targets that are overdue.
use inc_lifecycle.Base.{
  ℕ, ◌-◌, ◌≤◌, ◌≡◌, ◌≢◌, refl, sym, ap, subst, ◌∙◌, ◌⊎◌, inl, inr, Bool, true, false, ◌&&◌, ◌||◌,
  arith, leb, ◌==◌, if◌then◌else◌, u64_max, Bool-cases,
}
use inc_lifecycle.Buffer.{elements}
use inc_lifecycle.Checkpoint.{
  Status, deactivated, ok, failed, expired, UpdateEvent, UpdateType, timestamp_of_update_event,
  event_type,
}
use inc_lifecycle.Deadline.{
  Deadline, AdvState, Config, switch_to_expired, push_result_to_observers, reset_timestamps,
  judge_deadline, evaluate_deadline, since, evaluate_target, evaluate_missing_target,
}
use inc_lifecycle.Deadline.Evaluate.{
  is_ok, check_transitions_out_of_deactivated, check_transitions_out_of_ok, observe, check_status,
  check_common_transitions, check_transitions, process_events, evaluate,
}
use inc_lifecycle.Deadline.Statuses.{evaluate_deadline-status}
use inc_lifecycle.Deadline.Invariant.{IsValid, IsPending, IsPending-IsValid, process_events-IsValid}

since-exact : (s t : ℕ) → s ≤ t → t ≤ u64_max → since t s ≡ t - s
since-exact s t l b = omega arith

-- The time from the source to the target lies in the bounds that are checked.
abbrev pub is_in_time : Config → ℕ → Bool
is_in_time c lapsed =
    (c.is_max_check_disabled || leb lapsed c.max_deadline)
    && (c.is_min_check_disabled || leb c.min_deadline lapsed)

-- No checked maximum has passed since the source.
abbrev NotOverdue : ℕ → Deadline → Type 0
NotOverdue t d =
    (d.source_timestamp ≡ 0)
    ⊎ (d.is_max_check_disabled ≡ true)
    ⊎ (since t d.source_timestamp ≤ d.max_deadline)

judged :
    (lapsed : ℕ) (d : Deadline)
    → d.adv_state ≡ AdvState.ok
    → is_ok (evaluate_deadline lapsed true d).adv_state ≡ is_in_time d.config lapsed
unfolding evaluate_deadline judge_deadline reset_timestamps
judged lapsed d k = ground arith

missed :
    (t : ℕ) (d : Deadline)
    → d.adv_state ≡ AdvState.ok
    → is_ok (evaluate_missing_target t d).adv_state ≡ true
    → NotOverdue t (evaluate_missing_target t d)
unfolding evaluate_missing_target evaluate_deadline judge_deadline reset_timestamps
missed t d k h = ground arith

==-refl : (n : ℕ) → (n == n) ≡ true
==-refl n = ground arith

deactivated≢ok : deactivated ≢ ok
deactivated≢ok q = absurd (cc)

expired≢ok : expired ≢ ok
expired≢ok q = absurd (cc)

-- The status ok after an observation: it expires where the advanced state is an error.
abbrev conclude : Deadline → Deadline
conclude d = if is_ok d.adv_state then d else switch_to_expired d

missed_round :
    (t : ℕ) (d : Deadline)
    → d.adv_state ≡ AdvState.ok
    → (conclude (evaluate_missing_target t d)).status ≡ ok
    → NotOverdue t (conclude (evaluate_missing_target t d))
unfolding switch_to_expired push_result_to_observers reset_timestamps
missed_round t d a k = elim (Bool-cases (is_ok (evaluate_missing_target t d).adv_state)) [
  | inl h ↦ rw h (missed t d a h)
  | inr h ↦ rw h (inl refl)
]

sync_status :
    (s : Status) (t : ℕ) (d : Deadline)
    → d.status ≡ s
    → IsValid d
    → (check_status s UpdateType.sync t (UpdateEvent.sync t) d).status ≡ ok
    → NotOverdue t (check_status s UpdateType.sync t (UpdateEvent.sync t) d)
unfolding check_status check_transitions_out_of_ok check_transitions_out_of_deactivated observe
sync_status deactivated t d q v k = absurd (deactivated≢ok (sym q ∙ k))
sync_status ok t d q v k = missed_round t d (v.ok_advanced q) k
sync_status expired t d q v k = absurd (expired≢ok (sym q ∙ k))
sync_status failed t d q v k = absurd (v.not_failed q)

-- The round of the event of the synchronization.
sync_round :
    (t : ℕ) (d : Deadline)
    → IsValid d
    → (check_transitions (UpdateEvent.sync t) d).status ≡ ok
    → NotOverdue t (check_transitions (UpdateEvent.sync t) d)
unfolding check_transitions check_status check_common_transitions event_type
    timestamp_of_update_event
sync_round t d v k = sync_status d.status t d refl v k

-- A deadline supervision that an evaluation at `t` leaves in the status ok has no target overdue: no
-- source is waiting for its target, or the maximum is not checked, or no more than the maximum has
-- passed since the source. This is where the supervision was valid and no data was lost.
pub evaluate-NotOverdue :
    (t : ℕ) (d : Deadline)
    → IsPending d
    → d.is_data_loss_event ≡ false
    → (evaluate t d).status ≡ ok
    → ((evaluate t d).source_timestamp ≡ 0)
      ⊎ ((evaluate t d).is_max_check_disabled ≡ true)
      ⊎ (since t (evaluate t d).source_timestamp ≤ (evaluate t d).max_deadline)
unfolding evaluate
evaluate-NotOverdue t d v l k = simp l (
    sync_round t (process_events (elements d.buffer) d)
      (process_events-IsValid (elements d.buffer) d (IsPending-IsValid d v l)) (simp l at k))

evaluate_deadline-source_timestamp :
    (lapsed : ℕ) (d : Deadline) → ((evaluate_deadline lapsed true d).source_timestamp ≡ 0)
unfolding evaluate_deadline judge_deadline reset_timestamps
evaluate_deadline-source_timestamp lapsed d = ground arith

target_round :
    (t : ℕ) (d : Deadline)
    → d.status ≡ ok
    → (d.target == d.source) ≡ false
    → (d.source_timestamp == 0) ≡ false
    → d.source_timestamp ≤ t
    → t ≤ u64_max
    → check_transitions (UpdateEvent.checkpoint d.target t) d
      ≡ conclude (
          evaluate_deadline
            (t - d.source_timestamp)
            true
            (record d { target_timestamp = t; event_timestamp = t }))
unfolding check_transitions check_status check_common_transitions event_type
    timestamp_of_update_event check_transitions_out_of_ok observe evaluate_target
target_round t d k apart pending early bounded =
    ap (λ s. check_status s UpdateType.checkpoint t (UpdateEvent.checkpoint d.target t) d) k
    ∙ ap conclude observed
  where
    observed :
        observe UpdateType.checkpoint t (UpdateEvent.checkpoint d.target t) d
        ≡ evaluate_deadline
            (t - d.source_timestamp)
            true
            (record d { target_timestamp = t; event_timestamp = t })
    observed =
        rw (apart, ==-refl d.target, pending, since-exact d.source_timestamp t early bounded) refl

abbrev Verdict : Bool → Deadline → Type 0
Verdict in_time d =
    (d.source_timestamp ≡ 0)
    × ((in_time ≡ true) × (d.status ≡ ok) ⊎ (in_time ≡ false) × (d.status ≡ expired))

judged_round :
    (lapsed : ℕ) (d : Deadline)
    → d.status ≡ ok
    → d.adv_state ≡ AdvState.ok
    → Verdict (is_in_time d.config lapsed) (conclude (evaluate_deadline lapsed true d))
unfolding switch_to_expired push_result_to_observers reset_timestamps
judged_round lapsed d k a = elim (Bool-cases (is_ok (evaluate_deadline lapsed true d).adv_state)) [
  | inl h ↦ rw h (
    evaluate_deadline-source_timestamp lapsed d,
    inl (sym (judged lapsed d a) ∙ h, evaluate_deadline-status lapsed true d ∙ k),
  )
  | inr h ↦ rw h (refl, inr (sym (judged lapsed d a) ∙ h, refl))
]

-- A target checkpoint at `t`, in the status ok with a source at an earlier time: the supervision
-- stays ok if the time between them lies in the bounds that are checked, and expires if it does not.
-- Either way the measurement is over.
pub check_target :
    (t : ℕ) (d : Deadline)
    → d.status ≡ ok
    → d.adv_state ≡ AdvState.ok
    → (d.target == d.source) ≡ false
    → (d.source_timestamp == 0) ≡ false
    → d.source_timestamp ≤ t
    → t ≤ u64_max
    → ((check_transitions (UpdateEvent.checkpoint d.target t) d).source_timestamp ≡ 0)
      × ((is_in_time d.config (t - d.source_timestamp) ≡ true)
            × ((check_transitions (UpdateEvent.checkpoint d.target t) d).status ≡ ok)
          ⊎ (is_in_time d.config (t - d.source_timestamp) ≡ false)
            × ((check_transitions (UpdateEvent.checkpoint d.target t) d).status ≡ expired))
check_target t d k a apart pending early bounded =
    subst (Verdict (is_in_time d.config (t - d.source_timestamp)))
      (sym (target_round t d k apart pending early bounded))
      (judged_round (t - d.source_timestamp)
        (record d { target_timestamp = t; event_timestamp = t }) k a)
