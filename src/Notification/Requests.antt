-- ===== src/Notification/Requests.antt =====
-- How often a notification asks for the recovery, and where it ends.
use inc_lifecycle.Base.{ℕ, suc, ◌+◌, ◌≤◌, ◌≡◌, refl, List, [], ◌∷◌, arith, if◌then◌else◌}
use inc_lifecycle.Notification.{
  timeout, sending, Notification, Input, send_input, trigger, is_state, send, cyclic_trigger, step,
  run,
}

step_timeout : (i : Input) (n : Notification) → n.current_state ≡ timeout → step i n ≡ n
unfolding step send cyclic_trigger
step_timeout (send_input info) n h = ground arith
step_timeout (trigger requested now future) n h = ground arith

-- The final timeout state is final: no input changes the notification any more.
pub run_timeout :
    (inputs : List Input) (n : Notification) → n.current_state ≡ timeout → run inputs n ≡ n
unfolding run
run_timeout [] n h = refl
run_timeout (i ∷ rest) n h = ground (arith, step_timeout i n h, run_timeout rest n h)

abbrev pub sends : List Input → ℕ
sends [] = 0
sends (send_input info ∷ rest) = suc (sends rest)
sends (trigger requested now future ∷ rest) = sends rest

-- The requests made, and the one that is due.
abbrev pub promised : Notification → ℕ
promised n = if is_state n.current_state sending then suc n.requests else n.requests

promised-step :
    (i : Input) (rest : List Input) (n : Notification)
    → promised (step i n) + sends rest ≤ promised n + sends (i ∷ rest)
unfolding step send cyclic_trigger
promised-step (send_input info) rest n = ground arith
promised-step (trigger requested now future) rest n = ground arith

promised-run :
    (inputs : List Input) (n : Notification) → promised (run inputs n) ≤ promised n + sends inputs
unfolding run
promised-run [] n = omega arith
promised-run (i ∷ rest) n = omega (arith, promised-step i rest n, promised-run rest (step i n))

-- Over any inputs a notification makes at most one recovery request for each error sent to it,
-- beside the one that was due at the start, however often the cyclic trigger runs.
pub requests-le-sends :
    (inputs : List Input) (n : Notification) → (run inputs n).requests ≤ promised n + sends inputs
requests-le-sends inputs n = ground (arith, promised-run inputs n)
