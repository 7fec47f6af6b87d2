-- ===== src/Global/Invariant.antt =====
-- The status of the global supervision and the worst local status.
use inc_lifecycle.Base.{
  ℕ, ◌≤◌, ◌≡◌, ◌≢◌, refl, ap, true, false, List, [], ◌∷◌, max, arith, assign, u64_max,
}
use inc_lifecycle.Monitor.{LocalStatus, GlobalStatus}
use inc_lifecycle.Buffer.{elements, clear}
use inc_lifecycle.Global.{
  Global, LocalState, GroupStateChange, Element, local_state, group_state_change,
  switch_to_deactivated, switch_to_ok, switch_to_failed, switch_to_expired, switch_to_stopped,
}
use inc_lifecycle.Global.Evaluate.{
  accumulated_state, stop_if_debounced, expire, check_transitions_out_of_deactivated,
  check_transitions_out_of_ok, check_transitions_out_of_failed, check_transitions_out_of_expired,
  check_transitions_out_of_stopped, check_transitions, evaluate_local_supervision_update,
  evaluate_group_state_change, process_element, process_elements, process_time_sorted_events,
  evaluate_events, evaluate,
}
use inc_lifecycle.Global.Accumulate.{
  severity, worst, worst-le, worst-assign, accumulated_state-worst,
}

abbrev pub Tracks : GlobalStatus → ℕ → Type 0
Tracks GlobalStatus.deactivated n = n ≡ 0
Tracks GlobalStatus.ok n = n ≡ 1
Tracks GlobalStatus.failed n = n ≡ 2
Tracks GlobalStatus.expired n = n ≡ 3
Tracks GlobalStatus.stopped n = Unit

-- The clock of the tolerance runs exactly while the status is expired.
pub record IsTracking (g : Global) : Type 0 where
  pub worst_local : Tracks g.status (worst g.local_status)
  pub clock_idle : g.status ≢ GlobalStatus.expired → g.start_expired ≡ u64_max

-- Both outcomes of the test of the tolerance leave the map.
stop_if_debounced_cases :
    (t : ℕ) (g : Global)
    → let (g1, stops) = stop_if_debounced t g in
      (g1.local_status ≡ g.local_status)
      × ((stops ≡ true) → (g1.status ≡ GlobalStatus.stopped) × (g1.start_expired ≡ u64_max))
      × ((stops ≡ false) → (g1.status ≡ g.status) × (g1.start_expired ≡ g.start_expired))
unfolding stop_if_debounced switch_to_stopped
stop_if_debounced_cases t g = ground arith

abbrev blamed : LocalState → Global → Global
blamed l g = record g {
  expired_supervision = l.supervision_type;
  execution_error = l.execution_error;
}

expire-IsTracking :
    (l : LocalState) (g : Global) → worst g.local_status ≡ 3 → IsTracking (expire l g)
unfolding expire switch_to_expired
expire-IsTracking l g h = ground (arith, stop_if_debounced_cases l.timestamp (blamed l g))

out_of_deactivated-IsTracking :
    (s : LocalStatus) (l : LocalState) (g : Global)
    → g.status ≡ GlobalStatus.deactivated
    → g.start_expired ≡ u64_max
    → worst g.local_status ≡ severity s
    → IsTracking (check_transitions_out_of_deactivated s l g)
unfolding check_transitions_out_of_deactivated switch_to_ok switch_to_failed
out_of_deactivated-IsTracking LocalStatus.expired l g q c w = expire-IsTracking l g w
out_of_deactivated-IsTracking _ l g q c w = ground arith

out_of_ok-IsTracking :
    (s : LocalStatus) (l : LocalState) (g : Global)
    → g.status ≡ GlobalStatus.ok
    → g.start_expired ≡ u64_max
    → severity s ≤ worst g.local_status
    → worst g.local_status ≤ max (severity s) 1
    → IsTracking (check_transitions_out_of_ok s l g)
unfolding check_transitions_out_of_ok switch_to_failed switch_to_deactivated
out_of_ok-IsTracking LocalStatus.expired l g q c lo hi =
    expire-IsTracking l g (omega (arith, worst-le g.local_status))
out_of_ok-IsTracking _ l g q c lo hi = ground (arith, accumulated_state-worst g.local_status)

out_of_failed-IsTracking :
    (s : LocalStatus) (l : LocalState) (g : Global)
    → g.status ≡ GlobalStatus.failed
    → g.start_expired ≡ u64_max
    → severity s ≤ worst g.local_status
    → worst g.local_status ≤ max (severity s) 2
    → IsTracking (check_transitions_out_of_failed s l g)
unfolding check_transitions_out_of_failed switch_to_ok switch_to_deactivated
out_of_failed-IsTracking LocalStatus.expired l g q c lo hi =
    expire-IsTracking l g (omega (arith, worst-le g.local_status))
out_of_failed-IsTracking _ l g q c lo hi = ground (arith, accumulated_state-worst g.local_status)

out_of_expired-IsTracking :
    (s : LocalStatus) (l : LocalState) (g : Global)
    → g.status ≡ GlobalStatus.expired
    → severity s ≤ worst g.local_status
    → IsTracking (check_transitions_out_of_expired s l g)
unfolding check_transitions_out_of_expired switch_to_ok switch_to_deactivated switch_to_failed
out_of_expired-IsTracking LocalStatus.expired l g q lo =
    ground (arith, worst-le g.local_status, stop_if_debounced_cases l.timestamp g)
out_of_expired-IsTracking s l g q lo =
    let after = (stop_if_debounced l.timestamp g).0 in
    ground (
      arith,
      stop_if_debounced_cases l.timestamp g,
      accumulated_state-worst g.local_status,
      ap accumulated_state (stop_if_debounced_cases l.timestamp g).0,
    )

out_of_stopped-IsTracking :
    (g : Global)
    → g.status ≡ GlobalStatus.stopped
    → g.start_expired ≡ u64_max
    → IsTracking (check_transitions_out_of_stopped g)
unfolding check_transitions_out_of_stopped switch_to_ok switch_to_deactivated switch_to_failed
out_of_stopped-IsTracking g q c = ground (arith, accumulated_state-worst g.local_status)

check_transitions-IsTracking :
    (s : GlobalStatus) (l : LocalState) (g : Global) (n : ℕ)
    → g.status ≡ s
    → Tracks s n
    → (s ≢ GlobalStatus.expired → g.start_expired ≡ u64_max)
    → severity l.state ≤ worst g.local_status
    → worst g.local_status ≤ max (severity l.state) n
    → IsTracking (check_transitions s l g)
unfolding check_transitions
check_transitions-IsTracking GlobalStatus.deactivated l g n q t c lo hi =
    out_of_deactivated-IsTracking l.state l g q (c (λ x. cc)) (omega arith)
check_transitions-IsTracking GlobalStatus.ok l g n q t c lo hi =
    out_of_ok-IsTracking l.state l g q (c (λ x. cc)) lo (omega arith)
check_transitions-IsTracking GlobalStatus.failed l g n q t c lo hi =
    out_of_failed-IsTracking l.state l g q (c (λ x. cc)) lo (omega arith)
check_transitions-IsTracking GlobalStatus.expired l g n q t c lo hi =
    out_of_expired-IsTracking l.state l g q lo
check_transitions-IsTracking GlobalStatus.stopped l g n q t c lo hi =
    out_of_stopped-IsTracking g q (c (λ x. cc))

update-IsTracking :
    (l : LocalState) (g : Global)
    → IsTracking g
    → IsTracking (evaluate_local_supervision_update l g)
unfolding evaluate_local_supervision_update
update-IsTracking l g v =
    let bounds = worst-assign l.local l.state g.local_status in
    check_transitions-IsTracking g.status l
      (record g { local_status = assign l.local l.state g.local_status }) (worst g.local_status)
      refl v.worst_local v.clock_idle bounds.0 bounds.1

stop_if_debounced-IsTracking :
    (t : ℕ) (g : Global) → IsTracking g → IsTracking (stop_if_debounced t g).0
stop_if_debounced-IsTracking t g v = ground (arith, stop_if_debounced_cases t g)

change-IsTracking :
    (c : GroupStateChange) (g : Global)
    → IsTracking g
    → IsTracking (evaluate_group_state_change c g)
unfolding evaluate_group_state_change
change-IsTracking c g v =
    let h = record g { expired_tolerance = c.expired_tolerance } in
    ground (arith, stop_if_debounced_cases c.timestamp h)

process_elements-IsTracking :
    (es : List Element) (g : Global) → IsTracking g → IsTracking (process_elements es g)
unfolding process_elements process_element
process_elements-IsTracking [] g v = v
process_elements-IsTracking (local_state l ∷ es) g v =
    process_elements-IsTracking es (evaluate_local_supervision_update l g) (update-IsTracking l g v)
process_elements-IsTracking (group_state_change c ∷ es) g v =
    process_elements-IsTracking es (evaluate_group_state_change c g) (change-IsTracking c g v)

evaluate_events-IsTracking : (t : ℕ) (g : Global) → IsTracking g → IsTracking (evaluate_events t g)
unfolding evaluate_events process_time_sorted_events
evaluate_events-IsTracking t g v =
    let g1 = process_elements (elements g.buffer) g in
    let w : IsTracking g1 = process_elements-IsTracking (elements g.buffer) g v in
    ground (arith, w, stop_if_debounced_cases t (record g1 { buffer = clear g1.buffer }))

-- Each evaluation keeps the global status equal to the worst status in the map of the local
-- supervisions, unless it is stopped, and keeps the start of the tolerance unset unless the status is
-- expired. This holds for any events and through a data loss.
pub evaluate-IsTracking : (t : ℕ) (g : Global) → IsTracking g → IsTracking (evaluate t g)
unfolding evaluate switch_to_stopped
evaluate-IsTracking t g v = ground (arith, evaluate_events-IsTracking t g v)
