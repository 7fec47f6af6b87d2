-- ===== src/Global/Notified.antt =====
-- What an evaluation of a global supervision can do to its recovery notifications: it sends to them.
use inc_lifecycle.Base.{
  ℕ, Bool, true, false, List, [], ◌∷◌, map, arith, if◌then◌else◌, Bool-cases, inl, inr, assign,
}
use inc_lifecycle.Buffer.{elements}
use inc_lifecycle.Monitor.{LocalStatus, GlobalStatus}
use inc_lifecycle.Checkpoint.{SupervisionType, default_execution_error}
use inc_lifecycle.Notification.{Notification, ErrorInfo, send}
use inc_lifecycle.Global.{
  Global, LocalState, Element, local_state, group_state_change, error_info, switch_to_stopped,
  switch_to_expired, switch_to_deactivated, switch_to_ok, switch_to_failed,
}
use inc_lifecycle.Global.Evaluate.{
  is_debounced, stop_if_debounced, expire, check_transitions_out_of_deactivated,
  check_transitions_out_of_ok, check_transitions_out_of_failed, check_transitions_out_of_expired,
  check_transitions_out_of_stopped, check_transitions, evaluate_local_supervision_update,
  evaluate_group_state_change, process_element, process_elements, process_time_sorted_events,
  evaluate_events, evaluate, is_expired,
}

-- A property of a list of notifications that sending to all of them keeps.
module _ (P : List Notification → Type 0)
    (closed : (i : ErrorInfo) (ns : List Notification) → P ns → P (map (send i) ns)) where
  Kept : Global → Type 0
  Kept g = P g.notifications

  switch_to_stopped-Kept : (g : Global) → Kept g → Kept (switch_to_stopped g)
  unfolding Kept switch_to_stopped
  switch_to_stopped-Kept g h = closed (error_info g) g.notifications h

  is_debounced-Kept : (t : ℕ) (g : Global) → Kept g → Kept (is_debounced t g).0
  unfolding Kept is_debounced
  is_debounced-Kept t g h = ground (arith, h)

  if-Kept : (b : Bool) (x y : Global) → Kept x → Kept y → Kept (if b then x else y)
  if-Kept true x y hx hy = hx
  if-Kept false x y hx hy = hy

  stop_if_debounced-Kept : (t : ℕ) (g : Global) → Kept g → Kept (stop_if_debounced t g).0
  unfolding stop_if_debounced
  stop_if_debounced-Kept t g h =
      let now = is_debounced-Kept t g h in
      elim (Bool-cases (is_debounced t g).1) [
        | inl e ↦ rw (e, stop_if_debounced) (switch_to_stopped-Kept (is_debounced t g).0 now)
        | inr e ↦ rw (e, stop_if_debounced) now
      ]

  expire-Kept : (l : LocalState) (g : Global) → Kept g → Kept (expire l g)
  unfolding expire Kept switch_to_expired
  expire-Kept l g h =
      let blamed = record g {
        expired_supervision = l.supervision_type;
        execution_error = l.execution_error;
      } in
      let now = stop_if_debounced-Kept l.timestamp blamed h in
      if-Kept (stop_if_debounced l.timestamp blamed).1 _ _ now now

  check_out_of_deactivated-Kept :
      (s : LocalStatus) (l : LocalState) (g : Global)
      → Kept g
      → Kept (check_transitions_out_of_deactivated s l g)
  unfolding check_transitions_out_of_deactivated Kept switch_to_ok switch_to_failed
  check_out_of_deactivated-Kept LocalStatus.deactivated l g h = h
  check_out_of_deactivated-Kept LocalStatus.ok l g h = h
  check_out_of_deactivated-Kept LocalStatus.failed l g h = h
  check_out_of_deactivated-Kept LocalStatus.expired l g h = expire-Kept l g h

  check_out_of_ok-Kept :
      (s : LocalStatus) (l : LocalState) (g : Global)
      → Kept g
      → Kept (check_transitions_out_of_ok s l g)
  unfolding check_transitions_out_of_ok Kept switch_to_failed switch_to_deactivated
  check_out_of_ok-Kept LocalStatus.deactivated l g h = ground (arith, h)
  check_out_of_ok-Kept LocalStatus.ok l g h = h
  check_out_of_ok-Kept LocalStatus.failed l g h = h
  check_out_of_ok-Kept LocalStatus.expired l g h = expire-Kept l g h

  check_out_of_failed-Kept :
      (s : LocalStatus) (l : LocalState) (g : Global)
      → Kept g
      → Kept (check_transitions_out_of_failed s l g)
  unfolding check_transitions_out_of_failed Kept switch_to_ok switch_to_deactivated
  check_out_of_failed-Kept LocalStatus.deactivated l g h = ground (arith, h)
  check_out_of_failed-Kept LocalStatus.ok l g h = ground (arith, h)
  check_out_of_failed-Kept LocalStatus.failed l g h = h
  check_out_of_failed-Kept LocalStatus.expired l g h = expire-Kept l g h

  heal-Kept : (l : LocalState) (g : Global) → Kept g → Kept (check_transitions_out_of_stopped g)
  unfolding check_transitions_out_of_stopped Kept switch_to_ok switch_to_failed
      switch_to_deactivated
  heal-Kept l g h = ground (arith, h)

  check_out_of_expired-Kept :
      (s : LocalStatus) (l : LocalState) (g : Global)
      → Kept g
      → Kept (check_transitions_out_of_expired s l g)
  unfolding check_transitions_out_of_expired check_transitions_out_of_stopped
  check_out_of_expired-Kept LocalStatus.deactivated l g h =
      let now = stop_if_debounced-Kept l.timestamp g h in
      if-Kept (stop_if_debounced l.timestamp g).1 _ _ now
        (heal-Kept l (stop_if_debounced l.timestamp g).0 now)
  check_out_of_expired-Kept LocalStatus.ok l g h =
      let now = stop_if_debounced-Kept l.timestamp g h in
      if-Kept (stop_if_debounced l.timestamp g).1 _ _ now
        (heal-Kept l (stop_if_debounced l.timestamp g).0 now)
  check_out_of_expired-Kept LocalStatus.failed l g h =
      let now = stop_if_debounced-Kept l.timestamp g h in
      if-Kept (stop_if_debounced l.timestamp g).1 _ _ now
        (heal-Kept l (stop_if_debounced l.timestamp g).0 now)
  check_out_of_expired-Kept LocalStatus.expired l g h =
      let now = stop_if_debounced-Kept l.timestamp g h in
      if-Kept (stop_if_debounced l.timestamp g).1 _ _ now now

  check_transitions-Kept :
      (s : GlobalStatus) (l : LocalState) (g : Global) → Kept g → Kept (check_transitions s l g)
  unfolding check_transitions
  check_transitions-Kept GlobalStatus.deactivated l g h =
      check_out_of_deactivated-Kept l.state l g h
  check_transitions-Kept GlobalStatus.ok l g h = check_out_of_ok-Kept l.state l g h
  check_transitions-Kept GlobalStatus.failed l g h = check_out_of_failed-Kept l.state l g h
  check_transitions-Kept GlobalStatus.expired l g h = check_out_of_expired-Kept l.state l g h
  check_transitions-Kept GlobalStatus.stopped l g h = heal-Kept l g h

  process_element-Kept : (e : Element) (g : Global) → Kept g → Kept (process_element e g)
  unfolding process_element evaluate_local_supervision_update evaluate_group_state_change Kept
  process_element-Kept (local_state l) g h =
      check_transitions-Kept g.status l
        (record g { local_status = assign l.local l.state g.local_status }) h
  process_element-Kept (group_state_change c) g h =
      let g1 = record g { expired_tolerance = c.expired_tolerance } in
      if-Kept (is_expired g.status) _ _ (stop_if_debounced-Kept c.timestamp g1 h) h

  process_elements-Kept : (es : List Element) (g : Global) → Kept g → Kept (process_elements es g)
  unfolding process_elements
  process_elements-Kept [] g h = h
  process_elements-Kept (e ∷ es) g h =
      process_elements-Kept es (process_element e g) (process_element-Kept e g h)

  evaluate_events-Kept : (t : ℕ) (g : Global) → Kept g → Kept (evaluate_events t g)
  unfolding evaluate_events process_time_sorted_events Kept
  evaluate_events-Kept t g h =
      let now = process_elements-Kept (elements g.buffer) g h in
      let g1 = process_time_sorted_events g in
      if-Kept (is_expired g1.status) _ _ (stop_if_debounced-Kept t g1 now) now

  -- Whatever sending an error keeps of the notifications, an evaluation keeps.
  pub evaluate-Kept : (t : ℕ) (g : Global) → P g.notifications → P (evaluate t g).notifications
  unfolding evaluate Kept
  evaluate-Kept t g h =
      let internal =
        switch_to_stopped-Kept
          (record g {
            expired_supervision = SupervisionType.alive;
            execution_error = default_execution_error;
          })
          h in
      if-Kept g.is_data_loss_event _ _ internal (evaluate_events-Kept t g h)
