-- ===== src/Deadline/Statuses.antt =====
-- The observations of a deadline supervision and its status.
use inc_lifecycle.Base.{ℕ, ◌≡◌, refl, inl, inr, Bool, true, false, arith, ◌==◌, Bool-cases}
use inc_lifecycle.Checkpoint.{UpdateEvent, UpdateType}
use inc_lifecycle.Deadline.{
  Deadline, reset_timestamps, is_adv_error, judge_deadline, evaluate_deadline, evaluate_source,
  since, evaluate_target, evaluate_missing_target,
}
use inc_lifecycle.Deadline.Evaluate.{observe}

judge_deadline-status :
    (lapsed : ℕ) (received : Bool) (d : Deadline)
    → (judge_deadline lapsed received d).status ≡ d.status
unfolding judge_deadline reset_timestamps
judge_deadline-status lapsed received d = ground arith

pub evaluate_deadline-status :
    (lapsed : ℕ) (received : Bool) (d : Deadline)
    → (evaluate_deadline lapsed received d).status ≡ d.status
unfolding evaluate_deadline
evaluate_deadline-status lapsed received d =
    elim (Bool-cases (is_adv_error (judge_deadline lapsed received d).adv_state)) [
      | inl h ↦ rw h (judge_deadline-status lapsed received d)
      | inr h ↦ rw h (judge_deadline-status lapsed received d)
    ]

evaluate_source-status : (t : ℕ) (d : Deadline) → (evaluate_source t d).status ≡ d.status
unfolding evaluate_source reset_timestamps
evaluate_source-status t d = ground arith

evaluate_target-status : (t : ℕ) (d : Deadline) → (evaluate_target t d).status ≡ d.status
unfolding evaluate_target
evaluate_target-status t d = elim (Bool-cases (d.source_timestamp == 0)) [
  | inl h ↦ rw h refl
  | inr h ↦ rw h (
      evaluate_deadline-status (since t d.source_timestamp) true
        (record d { target_timestamp = t; event_timestamp = t }))
]

evaluate_missing_target-status :
    (t : ℕ) (d : Deadline) → (evaluate_missing_target t d).status ≡ d.status
unfolding evaluate_missing_target
evaluate_missing_target-status t d = elim (Bool-cases (d.source_timestamp == 0)) [
  | inl h ↦ rw h refl
  | inr h ↦ rw h (evaluate_deadline-status (since t d.source_timestamp) false d)
]

pub observe-status :
    (u : UpdateType) (t : ℕ) (e : UpdateEvent) (d : Deadline) → (observe u t e d).status ≡ d.status
unfolding observe
observe-status UpdateType.checkpoint t (UpdateEvent.checkpoint c stamp) d =
    elim (Bool-cases (c == d.source)) [
      | inl h ↦ rw h (evaluate_source-status t d)
      | inr h ↦ elim (Bool-cases (c == d.target)) [
        | inl h' ↦ rw h (rw h' (evaluate_target-status t d))
        | inr h' ↦ rw h (rw h' refl)
      ]
    ]
observe-status UpdateType.checkpoint t _ d = refl
observe-status _ t e d = evaluate_missing_target-status t d
