-- ===== src/Examples/Timing.antt =====
-- The deadline supervision and the cycle timer on small inputs.
use inc_lifecycle.Base.{
  ◌≤◌, ◌≡◌, refl, ◌⊎◌, true, false, [], ◌∷◌, arith, ◌+◌, ◌*◌, ◌<◌, some, u64_max,
}
use inc_lifecycle.Buffer.{create, elements, drain, get_next_element}
use inc_lifecycle.Checkpoint.{ok, UpdateEvent, event_type, timestamp_of_update_event}
use inc_lifecycle.Deadline.{
  AdvState, Config, Deadline, create_deadline, since, evaluate_missing_target, evaluate_deadline,
  judge_deadline,
}
use inc_lifecycle.Deadline.Evaluate.{
  check_transitions, check_status, check_common_transitions, check_transitions_out_of_ok, observe,
  process_events, evaluate,
}
use inc_lifecycle.Deadline.Invariant.{IsPending}
use inc_lifecycle.Timer.{TimeSpec, nanoseconds_per_second, shots, convert_to_nano_sec}
use inc_lifecycle.Timer.Drift.{shots-convert}
use inc_lifecycle.Deadline.Overdue.{evaluate-NotOverdue}

-- The target must come from 2 to 8 ns after the source.
abbrev deadline_config : Config
deadline_config = record {
  min_deadline = 2;
  max_deadline = 8;
  is_min_check_disabled = false;
  is_max_check_disabled = false;
  source = 100;
  target = 200;
  source_process = 7;
  target_process = 8;
}

abbrev deadline_new : Deadline
deadline_new = create_deadline deadline_config 8 (1 ∷ []) (7 ∷ 8 ∷ [])

-- The source was reported at 6.
abbrev deadline_waiting : Deadline
deadline_waiting = record deadline_new {
  status = ok;
  adv_state = AdvState.ok;
  source_timestamp = 6;
}

deadline_waiting-IsPending : IsPending deadline_waiting
unfolding create_deadline
deadline_waiting-IsPending = record {
  not_failed = λ h. absurd (cc);
  ok_advanced = λ h l. refl;
  no_source = λ h. absurd (h refl);
}

deadline_kept : (evaluate 10 deadline_waiting).status ≡ ok
unfolding evaluate process_events check_transitions check_status check_common_transitions
    check_transitions_out_of_ok observe evaluate_missing_target evaluate_deadline judge_deadline
    create_deadline create elements drain get_next_element event_type timestamp_of_update_event
deadline_kept = refl

deadline_lossless : deadline_waiting.is_data_loss_event ≡ false
unfolding create_deadline
deadline_lossless = refl

evaluate-NotOverdue_example :
    ((evaluate 10 deadline_waiting).source_timestamp ≡ 0)
    ⊎ ((evaluate 10 deadline_waiting).is_max_check_disabled ≡ true)
    ⊎ (since 10 (evaluate 10 deadline_waiting).source_timestamp
        ≤ (evaluate 10 deadline_waiting).max_deadline)
evaluate-NotOverdue_example =
    evaluate-NotOverdue 10 deadline_waiting deadline_waiting-IsPending deadline_lossless
      deadline_kept

abbrev judged : Deadline → Deadline
judged d = check_transitions (UpdateEvent.checkpoint d.target 10) d

abbrev started_at : TimeSpec
started_at = record { tv_sec = 5; tv_nsec = 900_000_000 }

started_fits : convert_to_nano_sec started_at + 3 * 50_000_000 ≤ u64_max
unfolding convert_to_nano_sec
started_fits = omega arith

shots-convert_example :
    (t : TimeSpec) × (shots 61 50_000_000 3 started_at ≡ some t)
    × (t.tv_nsec < nanoseconds_per_second)
    × (convert_to_nano_sec t ≡ convert_to_nano_sec started_at + 3 * 50_000_000)
shots-convert_example =
    shots-convert 50_000_000 3 started_at (omega arith) (omega arith) started_fits (omega arith)
