-- ===== src/Examples/Escalation.antt =====
-- The local and global supervisions and the recovery notification on small inputs.
use inc_lifecycle.Base.{u64_max, ℕ, ◌+◌, ◌≤◌, ◌≡◌, refl, true, false, List, [], ◌∷◌, arith, all}
use inc_lifecycle.Buffer.{create, push, sort, elements, drain, get_next_element}
use inc_lifecycle.Checkpoint.{Status, ok, failed, expired, SupervisionType, Report}
use inc_lifecycle.Monitor.{LocalStatus, GlobalStatus}
use inc_lifecycle.Local.{
  Local, SupervisionEvent, create_local, is_all_deactivated, is_one_failed, process_event,
}
use inc_lifecycle.Local.Reported.{entry, last_reported}
use inc_lifecycle.Local.Invariant.{IsConsistent, evaluate-IsConsistent}
use inc_lifecycle.Notification.{Notification, idle, Input, send_input, trigger, done, run}
use inc_lifecycle.Notification.Requests.{sends, promised, requests-le-sends}
use inc_lifecycle.Global.{Global, local_state, switch_to_expired, create_global}
use inc_lifecycle.Global.Evaluate.{
  process_element, evaluate_local_supervision_update, check_transitions,
  check_transitions_out_of_ok, expire, stop_if_debounced, is_debounced, process_elements,
  process_time_sorted_events, evaluate,
}
use inc_lifecycle.Global.Invariant.{IsTracking, evaluate-IsTracking}
use inc_lifecycle.Cluster.{Chain, report, evaluate_supervisions}
use inc_lifecycle.Cluster.Escalation.{evaluate_supervisions-stops}
use inc_lifecycle.Global.Since.{expired_since, tolerance_after}
use inc_lifecycle.Global.Tolerance.{IsOverdue, InRange, is_busy, evaluate_tolerance}

abbrev event : Status → SupervisionEvent
event s = record {
  supervision = 1;
  status = s;
  supervision_type = SupervisionType.alive;
  timestamp = 9;
  execution_error = 4;
}

abbrev local_with : LocalStatus → Status → Status → Local
local_with s a b = record (create_local 8) { status = s; registered = (1, a) ∷ (2, b) ∷ [] }

abbrev local_failed : Local
local_failed = local_with LocalStatus.failed failed ok

abbrev local_expired : Local
local_expired = local_with LocalStatus.expired expired ok

-- The supervision 2 reports that it has expired.
abbrev told : Local
told = record local_failed {
  buffer = (push (record (event expired) { supervision = 2 }) 9 (create 8)).0;
}

told-IsConsistent : IsConsistent told
told-IsConsistent = ((λ h. absurd (cc)), ((λ h. absurd (cc)), tt))

evaluate-IsConsistent_example :
    IsConsistent (inc_lifecycle.Local.evaluate 9 told)
    × ((k : ℕ)
        → entry k (inc_lifecycle.Local.evaluate 9 told).registered
          ≡ last_reported k (elements told.buffer) (entry k told.registered))
unfolding create_local
evaluate-IsConsistent_example = evaluate-IsConsistent 9 told told-IsConsistent

abbrev notification : Notification
notification = record {
  current_state = idle;
  is_config_available = true;
  timeout_limit = 100;
  start_timestamp = 0;
  requests = 0;
}

abbrev inputs : List Input
inputs =
    send_input (record {
      failed_process_execution_error = 4;
      failed_supervision_type = SupervisionType.alive;
    })
    ∷ trigger 3 4 done
    ∷ trigger 5 6 done
    ∷ []

requests-le-sends_example :
    (run inputs notification).requests ≤ promised notification + sends inputs
requests-le-sends_example = requests-le-sends inputs notification

abbrev statuses : List (ℕ × LocalStatus)
statuses = (1, LocalStatus.ok) ∷ (2, LocalStatus.failed) ∷ []

-- An expired local supervision, tolerated for 5 ns from 10 on.
abbrev tolerating : Global
tolerating = record (create_global (5 ∷ []) (1 ∷ []) 8) {
  status = GlobalStatus.expired;
  start_expired = 10;
  expired_tolerance = 5;
  local_status = (1, LocalStatus.expired) ∷ [];
  notifications = notification ∷ [];
}

tolerating-IsTracking : IsTracking tolerating
tolerating-IsTracking = record { worst_local = refl; clock_idle = λ h. absurd (h refl) }

evaluate-IsTracking_example : IsTracking (evaluate 15 tolerating)
evaluate-IsTracking_example = evaluate-IsTracking 15 tolerating tolerating-IsTracking

-- The same local supervision expires at 10, in the cycle.
abbrev expiring : Global
expiring = record tolerating {
  status = GlobalStatus.ok;
  start_expired = u64_max;
  local_status = (1, LocalStatus.ok) ∷ [];
  buffer =
      (push
        (local_state (record {
          local = 1;
          state = LocalStatus.expired;
          supervision_type = SupervisionType.alive;
          timestamp = 10;
          execution_error = 4;
        }))
        10 (create 8)).0;
}

lossless : expiring.is_data_loss_event ≡ false
unfolding create_global
lossless = refl

made_expired : (process_time_sorted_events expiring).status ≡ GlobalStatus.expired
unfolding process_time_sorted_events process_elements process_element
    evaluate_local_supervision_update check_transitions check_transitions_out_of_ok expire
    stop_if_debounced is_debounced switch_to_expired create_global create push sort elements drain
    get_next_element
made_expired = refl

in_range : InRange 15 10 5
in_range = record {
  time_bounded = omega arith;
  start_bounded = omega arith;
  tolerance_bounded = omega arith;
}

evaluate_tolerance_example :
    (IsOverdue 15 10 5
      → ((evaluate 15 expiring).status ≡ GlobalStatus.stopped)
        × (all is_busy (evaluate 15 expiring).notifications ≡ true))
    × (¬ IsOverdue 15 10 5 → evaluate 15 expiring ≡ process_time_sorted_events expiring)
unfolding expired_since tolerance_after process_time_sorted_events process_elements process_element
    evaluate_local_supervision_update check_transitions check_transitions_out_of_ok expire
    stop_if_debounced is_debounced switch_to_expired create_global create push sort elements drain
    get_next_element
evaluate_tolerance_example = evaluate_tolerance 15 expiring lossless made_expired in_range

abbrev chain : Chain
chain = record {
  local_id = 1;
  local = create_local 8;
  global = record (create_global (5 ∷ []) (1 ∷ []) 8) { notifications = notification ∷ [] };
}

abbrev expired_report : Report
expired_report = record { status = expired; timestamp = 9; execution_error = 4 }

abbrev evaluated_chain : Chain
evaluated_chain = evaluate_supervisions 12 (report 3 SupervisionType.deadline expired_report chain)

evaluate_supervisions-stops_example :
    (evaluated_chain.global.status ≡ GlobalStatus.stopped)
    × (all is_busy evaluated_chain.global.notifications ≡ true)
unfolding create_local create_global
evaluate_supervisions-stops_example =
    evaluate_supervisions-stops 12 3 7 7 SupervisionType.deadline expired_report chain refl refl
      refl (λ h. absurd (cc)) refl refl (λ h. absurd (cc)) refl
