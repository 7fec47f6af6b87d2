-- ===== src/Notification.antt =====
-- The recovery notification (src/launch_manager_daemon/health_monitor_lib/src/score/lcm/saf/recovery/
-- Notification.cpp, .hpp): it asks the launch manager for the recovery state and waits for the answer.
-- The clock and the future of the recovery client are inputs of the cyclic trigger.
pub mod Requests
use inc_lifecycle.Base.{
  ℕ, suc, ◌+◌, ◌-◌, ◌≡◌, refl, Bool, true, false, List, [], ◌∷◌, ltb, if◌then◌else◌, u64,
}
use inc_lifecycle.Checkpoint.{SupervisionType}

pub data State : Type 0 where
  idle sending waiting_for_response timeout : State

-- What the future of the recovery request is found to be.
pub data Future : Type 0 where
  invalid pending failed done : Future

-- SupervisionErrorInfo
pub record ErrorInfo : Type 0 where
  pub failed_process_execution_error : ℕ
  pub failed_supervision_type : SupervisionType

-- `requests` counts the calls of `sendRecoveryRequest`.
pub record Notification : Type 0 where
  pub current_state : State
  pub is_config_available : Bool
  pub timeout_limit : ℕ
  pub start_timestamp : ℕ
  pub requests : ℕ

abbrev pub is_state : State → State → Bool
is_state idle idle = true
is_state sending sending = true
is_state waiting_for_response waiting_for_response = true
is_state timeout timeout = true
is_state _ _ = false

unfoldable pub set_final_timeout_state : Notification → Notification
set_final_timeout_state n = record n { current_state = timeout }

-- The error information is not read.
unfoldable pub send : ErrorInfo → Notification → Notification
unfolding set_final_timeout_state
send info n =
    if n.is_config_available
    then (if is_state n.current_state idle then record n { current_state = sending } else n)
    else set_final_timeout_state n

unfoldable pub invoke_recovery_handler : ℕ → Notification → Notification
invoke_recovery_handler now n = record n {
  requests = suc n.requests;
  start_timestamp = now;
  current_state = waiting_for_response;
}

unfoldable pub verify_recovery_handler_response : ℕ → Future → Notification → Notification
unfolding set_final_timeout_state
verify_recovery_handler_response now invalid n =
    set_final_timeout_state (record n { start_timestamp = 0 })
verify_recovery_handler_response now pending n =
    if ltb n.timeout_limit (u64 (now + 18_446_744_073_709_551_616 - n.start_timestamp))
    then set_final_timeout_state (record n { start_timestamp = 0 })
    else n
verify_recovery_handler_response now failed n =
    set_final_timeout_state (record n { start_timestamp = 0 })
verify_recovery_handler_response now done n = record n { start_timestamp = 0; current_state = idle }

-- `requested` is the time that is read after the request, `now` the time of the check.
unfoldable pub cyclic_trigger : ℕ → ℕ → Future → Notification → Notification
unfolding invoke_recovery_handler verify_recovery_handler_response
cyclic_trigger requested now future n =
    let n1 = if is_state n.current_state sending then invoke_recovery_handler requested n else n in
    if is_state n1.current_state waiting_for_response
    then verify_recovery_handler_response now future n1
    else n1

unfoldable pub is_final_timeout_state_reached : Notification → Bool
is_final_timeout_state_reached n = is_state n.current_state timeout

-- What can happen to a notification: an error is sent to it, or the cyclic trigger runs.
pub data Input : Type 0 where
  send_input : ErrorInfo → Input
  trigger : ℕ → ℕ → Future → Input

unfoldable pub step : Input → Notification → Notification
step (send_input info) n = send info n
step (trigger requested now future) n = cyclic_trigger requested now future n

unfoldable pub run : List Input → Notification → Notification
unfolding step
run [] n = n
run (i ∷ rest) n = run rest (step i n)
