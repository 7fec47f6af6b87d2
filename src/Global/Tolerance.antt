-- ===== src/Global/Tolerance.antt =====
-- The tolerance for an expired local supervision.
use inc_lifecycle.Base.{
  ℕ, ◌+◌, ◌≤◌, ◌<◌, ◌≡◌, refl, subst, ◌⊎◌, inl, inr, Bool, true, false, List, [], ◌∷◌, map, arith,
  if◌then◌else◌, u64_max, all,
}
use inc_lifecycle.Monitor.{GlobalStatus}
use inc_lifecycle.Notification.{Notification, State, is_state, send}
use inc_lifecycle.Checkpoint.{SupervisionType, default_execution_error}
use inc_lifecycle.Global.{Global, error_info, switch_to_stopped}
use inc_lifecycle.Buffer.{elements}
use inc_lifecycle.Global.Since.{
  expired_since, tolerance_after, process_time_sorted_events-since,
  process_time_sorted_events-tolerance,
}
use inc_lifecycle.Global.Evaluate.{
  is_debounced, stop_if_debounced, process_time_sorted_events, evaluate_events, evaluate,
}

-- The tolerance is used up: there is none, it ends by then, or the clock has failed.
abbrev pub IsOverdue : ℕ → ℕ → ℕ → Type 0
IsOverdue t start tolerance = (t ≡ 0) ⊎ (start + tolerance ≤ t) ⊎ (tolerance ≡ 0)

-- The machine ranges of a time and of the two that are added.
pub record InRange (t start tolerance : ℕ) : Type 0 where
  pub time_bounded : t < u64_max
  pub start_bounded : start ≤ u64_max
  pub tolerance_bounded : tolerance ≤ u64_max

abbrev pub is_busy : Notification → Bool
is_busy n = if is_state n.current_state State.idle then false else true

pub send_busy :
    (g : Global) (n : List Notification) → all is_busy (map (send (error_info g)) n) ≡ true
unfolding send
send_busy g [] = refl
send_busy g (n ∷ rest) = ground (arith, send_busy g rest)

stop_if_debounced_overdue :
    (t : ℕ) (g : Global)
    → InRange t g.start_expired g.expired_tolerance
    → IsOverdue t g.start_expired g.expired_tolerance
    → ((stop_if_debounced t g).0.status ≡ GlobalStatus.stopped)
      × (all is_busy (stop_if_debounced t g).0.notifications ≡ true)
unfolding stop_if_debounced is_debounced switch_to_stopped
stop_if_debounced_overdue t g r o = ground (
  arith,
  send_busy g g.notifications,
  send_busy
      (record g {
        expired_supervision = SupervisionType.alive;
        execution_error = default_execution_error;
      })
      g.notifications,
)

stop_if_debounced_early :
    (t : ℕ) (g : Global)
    → InRange t g.start_expired g.expired_tolerance
    → 0 < t
    → 0 < g.expired_tolerance
    → t < g.start_expired + g.expired_tolerance
    → (stop_if_debounced t g).0 ≡ g
unfolding stop_if_debounced is_debounced
stop_if_debounced_early t g r p q o = ground arith

-- What the evaluation does with a tolerance from this start.
abbrev Outcome : ℕ → Global → ℕ → ℕ → Type 0
Outcome t g start tolerance =
    InRange t start tolerance
    → (IsOverdue t start tolerance
        → ((evaluate t g).status ≡ GlobalStatus.stopped)
          × (all is_busy (evaluate t g).notifications ≡ true))
      × (¬ IsOverdue t start tolerance → evaluate t g ≡ process_time_sorted_events g)

evaluate_tolerance_fields :
    (t : ℕ) (g : Global)
    → g.is_data_loss_event ≡ false
    → (process_time_sorted_events g).status ≡ GlobalStatus.expired
    → Outcome t g
        (process_time_sorted_events g).start_expired
        (process_time_sorted_events g).expired_tolerance
unfolding evaluate evaluate_events
evaluate_tolerance_fields t g kept h r =
    let g1 = process_time_sorted_events g in
    (
      λ o. let s = stop_if_debounced_overdue t g1 r o in ground arith,
      λ o.
          let s =
            stop_if_debounced_early t g1 r (nonzero (λ e. o (inl e)))
              (nonzero (λ e. o (inr (inr e)))) (early (λ e. o (inr (inl e)))) in
          ground arith,
    )
  where
    nonzero : {n : ℕ} → ¬ (n ≡ 0) → 0 < n
    nonzero h = omega arith

    early : {m n : ℕ} → ¬ (m ≤ n) → n < m
    early h = omega arith

-- While an expired local supervision is tolerated, the evaluation at a synchronization stops the
-- global supervision exactly when the tolerance is used up or the clock has failed, also where the sum
-- overflows; then no recovery notification stays idle. Before that it changes nothing beyond what the
-- events did. The tolerance is the one of the last change of the process group state, unless the
-- supervision was deactivated since, and it is counted from the event that made the status expired.
pub evaluate_tolerance :
    (t : ℕ) (g : Global)
    → let es = elements g.buffer in
      let start = expired_since g.start_expired es g in
      let tolerance = tolerance_after g.expired_tolerance es g in
      g.is_data_loss_event ≡ false
      → (process_time_sorted_events g).status ≡ GlobalStatus.expired
      → InRange t start tolerance
      → (IsOverdue t start tolerance
          → ((evaluate t g).status ≡ GlobalStatus.stopped)
            × (all is_busy (evaluate t g).notifications ≡ true))
        × (¬ IsOverdue t start tolerance → evaluate t g ≡ process_time_sorted_events g)
evaluate_tolerance t g kept h =
    let g1 = process_time_sorted_events g in
    let tolerance = tolerance_after g.expired_tolerance (elements g.buffer) g in
    subst (λ n. Outcome t g n tolerance) (process_time_sorted_events-since g h)
      (subst (λ n. Outcome t g g1.start_expired n) (process_time_sorted_events-tolerance g)
        (evaluate_tolerance_fields t g kept h))
