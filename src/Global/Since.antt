-- ===== src/Global/Since.antt =====
-- The event from which the tolerance of an expired global supervision is counted.
use inc_lifecycle.Base.{
  ℕ, ◌≡◌, refl, ap, assign, ◌∙◌, Bool, true, false, not, ◌&&◌, List, [], ◌∷◌, arith, if◌then◌else◌,
  Bool-cases, inl, inr,
}
use inc_lifecycle.Monitor.{LocalStatus, GlobalStatus}
use inc_lifecycle.Buffer.{elements}
use inc_lifecycle.Global.{
  Global, LocalState, Element, local_state, group_state_change, switch_to_deactivated, switch_to_ok,
  switch_to_failed, switch_to_expired, switch_to_stopped,
}
use inc_lifecycle.Global.Evaluate.{
  is_expired, is_debounced, stop_if_debounced, expire, check_transitions_out_of_deactivated,
  check_transitions_out_of_ok, check_transitions_out_of_failed, check_transitions_out_of_expired,
  check_transitions_out_of_stopped, check_transitions, evaluate_local_supervision_update,
  evaluate_group_state_change, process_element, process_elements, process_time_sorted_events,
}

abbrev pub time_of : Element → ℕ
time_of (local_state l) = l.timestamp
time_of (group_state_change c) = c.timestamp

-- The time of the last of the events that made the status expired, and the first argument if
-- none did.
unfoldable pub expired_since : ℕ → List Element → Global → ℕ
expired_since since [] g = since
expired_since since (e ∷ rest) g =
    let g1 = process_element e g in
    expired_since (if not (is_expired g.status) && is_expired g1.status then time_of e else since)
      rest g1

abbrev is_deactivated : GlobalStatus → Bool
is_deactivated GlobalStatus.deactivated = true
is_deactivated _ = false

-- A change of the process group state brings its tolerance, and a deactivation takes it away.
abbrev pub tolerance_of : Element → Global → Global → ℕ → ℕ
tolerance_of (group_state_change c) g g1 before = c.expired_tolerance
tolerance_of (local_state l) g g1 before =
    if is_deactivated g1.status && not (is_deactivated g.status) then 0 else before

unfoldable pub tolerance_after : ℕ → List Element → Global → ℕ
tolerance_after tolerance [] g = tolerance
tolerance_after tolerance (e ∷ rest) g =
    let g1 = process_element e g in tolerance_after (tolerance_of e g g1 tolerance) rest g1

-- What a step from one supervision to another does with the start of the tolerance.
abbrev Starts : ℕ → Global → Global → Type 0
Starts t g g1 =
    is_expired g1.status ≡ true
    → g1.start_expired ≡ (if is_expired g.status then g.start_expired else t)

stop_if_debounced-Starts : (t : ℕ) (g : Global) → Starts t g (stop_if_debounced t g).0
unfolding stop_if_debounced is_debounced switch_to_stopped
stop_if_debounced-Starts t g h = ground arith

expire-Starts :
    (l : LocalState) (g : Global) → is_expired g.status ≡ false → Starts l.timestamp g (expire l g)
unfolding expire stop_if_debounced is_debounced switch_to_stopped switch_to_expired
expire-Starts l g q h = ground arith

out_of_expired-Starts :
    (s : LocalStatus) (l : LocalState) (g : Global)
    → is_expired g.status ≡ true
    → Starts l.timestamp g (check_transitions_out_of_expired s l g)
unfolding check_transitions_out_of_expired stop_if_debounced is_debounced switch_to_stopped
    switch_to_deactivated switch_to_ok switch_to_failed
out_of_expired-Starts s l g q h = ground arith

out_of_deactivated-Starts :
    (s : LocalStatus) (l : LocalState) (g : Global)
    → g.status ≡ GlobalStatus.deactivated
    → Starts l.timestamp g (check_transitions_out_of_deactivated s l g)
unfolding check_transitions_out_of_deactivated switch_to_ok switch_to_failed
out_of_deactivated-Starts LocalStatus.expired l g q = expire-Starts l g (ground arith)
out_of_deactivated-Starts _ l g q = λ h. ground arith

out_of_ok-Starts :
    (s : LocalStatus) (l : LocalState) (g : Global)
    → g.status ≡ GlobalStatus.ok
    → Starts l.timestamp g (check_transitions_out_of_ok s l g)
unfolding check_transitions_out_of_ok switch_to_failed switch_to_deactivated
out_of_ok-Starts LocalStatus.expired l g q = expire-Starts l g (ground arith)
out_of_ok-Starts _ l g q = λ h. ground arith

out_of_failed-Starts :
    (s : LocalStatus) (l : LocalState) (g : Global)
    → g.status ≡ GlobalStatus.failed
    → Starts l.timestamp g (check_transitions_out_of_failed s l g)
unfolding check_transitions_out_of_failed switch_to_ok switch_to_deactivated
out_of_failed-Starts LocalStatus.expired l g q = expire-Starts l g (ground arith)
out_of_failed-Starts _ l g q = λ h. ground arith

out_of_stopped-Starts :
    (t : ℕ) (g : Global)
    → g.status ≡ GlobalStatus.stopped
    → Starts t g (check_transitions_out_of_stopped g)
unfolding check_transitions_out_of_stopped switch_to_ok switch_to_deactivated switch_to_failed
out_of_stopped-Starts t g q h = ground arith

check_transitions-Starts :
    (s : GlobalStatus) (l : LocalState) (g : Global)
    → g.status ≡ s
    → Starts l.timestamp g (check_transitions s l g)
unfolding check_transitions
check_transitions-Starts GlobalStatus.deactivated l g q = out_of_deactivated-Starts l.state l g q
check_transitions-Starts GlobalStatus.ok l g q = out_of_ok-Starts l.state l g q
check_transitions-Starts GlobalStatus.failed l g q = out_of_failed-Starts l.state l g q
check_transitions-Starts GlobalStatus.expired l g q =
    out_of_expired-Starts l.state l g (ground arith)
check_transitions-Starts GlobalStatus.stopped l g q = out_of_stopped-Starts l.timestamp g q

process_element-Starts : (e : Element) (g : Global) → Starts (time_of e) g (process_element e g)
unfolding process_element evaluate_local_supervision_update evaluate_group_state_change
process_element-Starts (local_state l) g =
    check_transitions-Starts g.status l
      (record g { local_status = assign l.local l.state g.local_status }) refl
process_element-Starts (group_state_change c) g =
    let changed = record g { expired_tolerance = c.expired_tolerance } in
    λ h. ground (arith, stop_if_debounced-Starts c.timestamp changed)

process_elements-since :
    (since : ℕ) (es : List Element) (g : Global)
    → (is_expired g.status ≡ true → g.start_expired ≡ since)
    → is_expired (process_elements es g).status ≡ true
    → (process_elements es g).start_expired ≡ expired_since since es g
unfolding process_elements expired_since
process_elements-since since [] g before h = before h
process_elements-since since (e ∷ es) g before h =
    let g1 = process_element e g in
    process_elements-since
      (if not (is_expired g.status) && is_expired g1.status then time_of e else since) es g1
      (λ now. ground (arith, process_element-Starts e g now, before)) h

-- After the events of a cycle, an expired supervision counts its tolerance from the last event that
-- made it expired, or goes on counting it.
pub process_time_sorted_events-since :
    (g : Global)
    → (process_time_sorted_events g).status ≡ GlobalStatus.expired
    → (process_time_sorted_events g).start_expired
      ≡ expired_since g.start_expired (elements g.buffer) g
unfolding process_time_sorted_events
process_time_sorted_events-since g h =
    process_elements-since g.start_expired (elements g.buffer) g (λ e. refl) (ap is_expired h)

abbrev Keeps : Global → Global → Type 0
Keeps g g1 =
    g1.expired_tolerance
    ≡ (if is_deactivated g1.status && not (is_deactivated g.status) then 0 else g.expired_tolerance)

expire-tolerance :
    (l : LocalState) (g : Global)
    → ((expire l g).expired_tolerance ≡ g.expired_tolerance)
      × (is_deactivated (expire l g).status ≡ false)
unfolding expire stop_if_debounced is_debounced switch_to_stopped switch_to_expired
expire-tolerance l g = ground arith

out_of_expired-Keeps :
    (s : LocalStatus) (l : LocalState) (g : Global)
    → g.status ≡ GlobalStatus.expired
    → Keeps g (check_transitions_out_of_expired s l g)
unfolding check_transitions_out_of_expired stop_if_debounced is_debounced switch_to_stopped
    switch_to_deactivated switch_to_ok switch_to_failed
out_of_expired-Keeps s l g q = ground arith

check_transitions-Keeps :
    (s : GlobalStatus) (l : LocalState) (g : Global)
    → g.status ≡ s
    → Keeps g (check_transitions s l g)
unfolding check_transitions check_transitions_out_of_deactivated check_transitions_out_of_ok
    check_transitions_out_of_failed check_transitions_out_of_stopped switch_to_ok switch_to_failed
    switch_to_deactivated
check_transitions-Keeps GlobalStatus.expired l g q = out_of_expired-Keeps l.state l g q
check_transitions-Keeps _ l g q = ground (arith, expire-tolerance l g)

process_element-tolerance :
    (e : Element) (g : Global)
    → (process_element e g).expired_tolerance
      ≡ tolerance_of e g (process_element e g) g.expired_tolerance
unfolding process_element evaluate_local_supervision_update evaluate_group_state_change
    stop_if_debounced is_debounced switch_to_stopped
process_element-tolerance (local_state l) g =
    check_transitions-Keeps g.status l
      (record g { local_status = assign l.local l.state g.local_status }) refl
process_element-tolerance (group_state_change c) g = elim (Bool-cases (is_expired g.status)) [
  | inl e ↦ rw e (stopped_kept c.timestamp (record g { expired_tolerance = c.expired_tolerance }))
  | inr e ↦ rw e refl
]
  where
    stopped_kept :
        (t : ℕ) (h : Global) → (stop_if_debounced t h).0.expired_tolerance ≡ h.expired_tolerance
    stopped_kept t h = ground arith

process_elements-tolerance :
    (es : List Element) (g : Global)
    → (process_elements es g).expired_tolerance ≡ tolerance_after g.expired_tolerance es g
unfolding process_elements tolerance_after
process_elements-tolerance [] g = refl
process_elements-tolerance (e ∷ es) g =
    let g1 = process_element e g in
    process_elements-tolerance es g1
    ∙ ap (λ n. tolerance_after n es g1) (process_element-tolerance e g)

-- The tolerance after the events of a cycle.
pub process_time_sorted_events-tolerance :
    (g : Global)
    → (process_time_sorted_events g).expired_tolerance
      ≡ tolerance_after g.expired_tolerance (elements g.buffer) g
unfolding process_time_sorted_events
process_time_sorted_events-tolerance g = process_elements-tolerance (elements g.buffer) g
