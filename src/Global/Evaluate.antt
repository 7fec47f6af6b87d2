-- ===== src/Global/Evaluate.antt =====
-- Global.cpp: the accumulated state, the debouncing, the transitions and `evaluate`.
use inc_lifecycle.Base.{
  ℕ, ◌+◌, Bool, true, false, Option, none, some, List, [], ◌∷◌, max, leb, ◌==◌, if◌then◌else◌,
  assign, u64, u64_max,
}
use inc_lifecycle.Buffer.{clear, elements}
use inc_lifecycle.Checkpoint.{SupervisionType, default_execution_error}
use inc_lifecycle.Monitor.{LocalStatus, GlobalStatus}
use inc_lifecycle.Global.{
  Global, LocalState, GroupStateChange, Element, local_state, group_state_change,
  switch_to_deactivated, switch_to_ok, switch_to_failed, switch_to_expired, switch_to_stopped,
}

-- The loop of `getAccumulatedState` on `aggregateState`, whose -1 is `none`. The value of
-- `kDeactivated` is skipped, and `kExpired` breaks the loop.
abbrev pub larger : ℕ → Option ℕ → Option ℕ
larger v none = some v
larger v (some n) = some (max v n)

unfoldable pub aggregate : Option ℕ → List (ℕ × LocalStatus) → Option ℕ
aggregate n [] = n
aggregate n ((k, LocalStatus.deactivated) ∷ rest) = aggregate n rest
aggregate n ((k, LocalStatus.ok) ∷ rest) = aggregate (larger 0 n) rest
aggregate n ((k, LocalStatus.failed) ∷ rest) = aggregate (larger 1 n) rest
aggregate n ((k, LocalStatus.expired) ∷ rest) = larger 2 n

-- The cast back to the enumeration.
abbrev pub status_of : Option ℕ → LocalStatus
status_of none = LocalStatus.deactivated
status_of (some n) =
    if n == 0 then LocalStatus.ok else if n == 1 then LocalStatus.failed else LocalStatus.expired

unfoldable pub accumulated_state : List (ℕ × LocalStatus) → LocalStatus
unfolding aggregate
accumulated_state m = status_of (aggregate none m)

-- On a clock error the supervision type and the execution error are those of an internal error.
unfoldable pub is_debounced : ℕ → Global → Global × Bool
is_debounced t g =
    let clock_error = t == 0 in
    let time = if clock_error then u64_max else t in
    let g1 =
      if clock_error
      then record g {
        expired_supervision = SupervisionType.alive;
        execution_error = default_execution_error;
      }
      else g in
    if g.expired_tolerance == 0
    then (g1, true)
    else (let sum = u64 (g.start_expired + g.expired_tolerance) in
        let tolerance_end = if leb sum g.start_expired then u64_max else sum in
        (g1, leb tolerance_end time))

-- `isDebounced`, and the switch to stopped if it holds.
unfoldable pub stop_if_debounced : ℕ → Global → Global × Bool
unfolding is_debounced
stop_if_debounced t g =
    let (g1, debounced) = is_debounced t g in
    if debounced then (switch_to_stopped g1, true) else (g1, false)

-- The branch for an expired local supervision that deactivated, ok and failed share.
unfoldable pub expire : LocalState → Global → Global
expire l g =
    let (g1, stops) = stop_if_debounced l.timestamp (record g {
      expired_supervision = l.supervision_type;
      execution_error = l.execution_error;
    }) in
    if stops then g1 else switch_to_expired l.timestamp g1

unfoldable pub check_transitions_out_of_deactivated : LocalStatus → LocalState → Global → Global
check_transitions_out_of_deactivated LocalStatus.ok l g = switch_to_ok g
check_transitions_out_of_deactivated LocalStatus.failed l g = switch_to_failed g
check_transitions_out_of_deactivated LocalStatus.expired l g = expire l g
check_transitions_out_of_deactivated LocalStatus.deactivated l g = g

-- `accState` is kDeactivated: switch to deactivated; otherwise nothing.
abbrev if_deactivated : LocalStatus → Global → Global
if_deactivated LocalStatus.deactivated g = switch_to_deactivated g
if_deactivated _ g = g

unfoldable pub check_transitions_out_of_ok : LocalStatus → LocalState → Global → Global
check_transitions_out_of_ok LocalStatus.deactivated l g =
    if_deactivated (accumulated_state g.local_status) g
check_transitions_out_of_ok LocalStatus.failed l g = switch_to_failed g
check_transitions_out_of_ok LocalStatus.expired l g = expire l g
check_transitions_out_of_ok LocalStatus.ok l g = g

-- The accumulated state is deactivated or ok: switch there; otherwise remain failed.
abbrev heal_failed : LocalStatus → Global → Global
heal_failed LocalStatus.deactivated g = switch_to_deactivated g
heal_failed LocalStatus.ok g = switch_to_ok g
heal_failed _ g = g

unfoldable pub check_transitions_out_of_failed : LocalStatus → LocalState → Global → Global
check_transitions_out_of_failed LocalStatus.expired l g = expire l g
check_transitions_out_of_failed LocalStatus.failed l g = g
check_transitions_out_of_failed LocalStatus.deactivated l g =
    heal_failed (accumulated_state g.local_status) g
check_transitions_out_of_failed LocalStatus.ok l g =
    heal_failed (accumulated_state g.local_status) g

-- The accumulated state is not expired: switch there; otherwise remain.
abbrev heal : LocalStatus → Global → Global
heal LocalStatus.deactivated g = switch_to_deactivated g
heal LocalStatus.ok g = switch_to_ok g
heal LocalStatus.failed g = switch_to_failed g
heal LocalStatus.expired g = g

heal_unless_expired : LocalStatus → Global → Global
heal_unless_expired LocalStatus.expired g = g
heal_unless_expired _ g = heal (accumulated_state g.local_status) g

unfoldable pub check_transitions_out_of_expired : LocalStatus → LocalState → Global → Global
unfolding heal_unless_expired
check_transitions_out_of_expired s l g =
    let (g1, stops) = stop_if_debounced l.timestamp g in
    if stops then g1 else heal_unless_expired s g1

unfoldable pub check_transitions_out_of_stopped : Global → Global
check_transitions_out_of_stopped g = heal (accumulated_state g.local_status) g

-- The switch over the status; `GlobalStatus` has no other value for its `default`.
unfoldable pub check_transitions : GlobalStatus → LocalState → Global → Global
check_transitions GlobalStatus.deactivated l g = check_transitions_out_of_deactivated l.state l g
check_transitions GlobalStatus.ok l g = check_transitions_out_of_ok l.state l g
check_transitions GlobalStatus.failed l g = check_transitions_out_of_failed l.state l g
check_transitions GlobalStatus.expired l g = check_transitions_out_of_expired l.state l g
check_transitions GlobalStatus.stopped l g = check_transitions_out_of_stopped g

unfoldable pub evaluate_local_supervision_update : LocalState → Global → Global
evaluate_local_supervision_update l g =
    let g1 = record g { local_status = assign l.local l.state g.local_status } in
    check_transitions g1.status l g1

abbrev pub is_expired : GlobalStatus → Bool
is_expired GlobalStatus.expired = true
is_expired _ = false

unfoldable pub evaluate_group_state_change : GroupStateChange → Global → Global
evaluate_group_state_change c g =
    let g1 = record g { expired_tolerance = c.expired_tolerance } in
    if is_expired g.status then (stop_if_debounced c.timestamp g1).0 else g1

unfoldable pub process_element : Element → Global → Global
process_element (local_state l) g = evaluate_local_supervision_update l g
process_element (group_state_change c) g = evaluate_group_state_change c g

unfoldable pub process_elements : List Element → Global → Global
process_elements [] g = g
process_elements (e ∷ rest) g = process_elements rest (process_element e g)

unfoldable pub process_time_sorted_events : Global → Global
process_time_sorted_events g =
    let g1 = process_elements (elements g.buffer) g in record g1 { buffer = clear g1.buffer }

-- What `evaluate` does without a data loss.
unfoldable pub evaluate_events : ℕ → Global → Global
evaluate_events t g =
    let g1 = process_time_sorted_events g in
    if is_expired g1.status then (stop_if_debounced t g1).0 else g1

unfoldable pub evaluate : ℕ → Global → Global
evaluate t g =
    if g.is_data_loss_event
    then (let g1 = switch_to_stopped (record g {
      expired_supervision = SupervisionType.alive;
      execution_error = default_execution_error;
    }) in
        record g1 { buffer = clear g1.buffer; is_data_loss_event = false })
    else evaluate_events t g
