-- ===== src/Alive/Invariant.antt =====
-- Validity over the rounds of the evaluation of an alive supervision.
use inc_lifecycle.Base.{
  ℕ, suc, ◌-◌, ◌≤◌, ◌<◌, ◌≡◌, refl, ap, inl, inr, Bool, true, false, ◌||◌, List, arith, leb, leb→le,
  leb→gt, ◌==◌, Bool-cases, if◌then◌else◌, u64_max, u32_max,
}
use inc_lifecycle.Checkpoint.{
  Status, deactivated, ok, failed, expired, UpdateEvent, UpdateType, timestamp_of_update_event,
}
use inc_lifecycle.Alive.{
  Config, Alive, overflow, failed_tolerance_exceeded, is_min_error, is_max_error, create_alive,
  switch_to_deactivated, switch_to_ok, switch_to_expired, set_reference_cycle_timestamps,
  set_next_cycle, evaluate_ref_cycle_out_of_failed,
}
use inc_lifecycle.Alive.Evaluate.{
  check_transitions_out_of_deactivated, check_transitions_out_of_ok,
  check_transitions_out_of_failed, check_transitions, check_common_transitions, alive_event_type,
  detect_evaluation_event, round,
}
use inc_lifecycle.Alive.Valid.{
  is_running, IsValid, switch_to_deactivated-IsValid, switch_to_expired-IsValid,
  set_next_cycle-IsValid, inc_indication_count-IsValid, evaluate_ref_cycle_out_of_ok-IsValid,
}

-- The branches of the reference cycle in the status failed.
raised-IsValid :
    (a : Alive)
    → IsValid a
    → a.status ≡ failed
    → suc a.failed_supervision_cycles ≤ a.failed_cycles_tolerance
    → IsValid (record a { failed_supervision_cycles = suc a.failed_supervision_cycles })
raised-IsValid a v r h = ground arith

exceeded-IsValid :
    (n : ℕ) (a : Alive)
    → IsValid a
    → IsValid
        (switch_to_expired failed_tolerance_exceeded (record a { failed_supervision_cycles = n }))
unfolding switch_to_expired
exceeded-IsValid n a v = ground arith

healed-IsValid : (a : Alive) → IsValid a → a.status ≡ failed → IsValid (switch_to_ok a)
unfolding switch_to_ok
healed-IsValid a v r = ground arith

lowered-IsValid :
    (a : Alive)
    → IsValid a
    → a.status ≡ failed
    → 1 < a.failed_supervision_cycles
    → IsValid (record a { failed_supervision_cycles = a.failed_supervision_cycles - 1 })
lowered-IsValid a v r h = ground arith

bad_cycle-IsValid :
    (a : Alive)
    → IsValid a
    → a.status ≡ failed
    → IsValid (
        if leb (suc a.failed_supervision_cycles) a.failed_cycles_tolerance
        then set_next_cycle
            (record a { failed_supervision_cycles = suc a.failed_supervision_cycles })
        else switch_to_expired failed_tolerance_exceeded
            (record a { failed_supervision_cycles = suc a.failed_supervision_cycles }))
bad_cycle-IsValid a v r =
    let raised = record a { failed_supervision_cycles = suc a.failed_supervision_cycles } in
    elim (Bool-cases (leb (suc a.failed_supervision_cycles) a.failed_cycles_tolerance)) [
      | inl h ↦
          rw h
            (set_next_cycle-IsValid raised (raised-IsValid a v r (leb→le _ _ h)) (ap is_running r))
      | inr h ↦ rw h (exceeded-IsValid (suc a.failed_supervision_cycles) a v)
    ]

good_cycle-IsValid :
    (a : Alive)
    → IsValid a
    → a.status ≡ failed
    → IsValid (
        set_next_cycle (
          if leb a.failed_supervision_cycles 1
          then switch_to_ok a
          else record a { failed_supervision_cycles = a.failed_supervision_cycles - 1 }))
good_cycle-IsValid a v r = elim (Bool-cases (leb a.failed_supervision_cycles 1)) [
  | inl h ↦
      rw h (
        set_next_cycle-IsValid (switch_to_ok a) (healed-IsValid a v r)
          (unfold switch_to_ok in refl))
  | inr h ↦ rw h (
      set_next_cycle-IsValid
        (record a { failed_supervision_cycles = a.failed_supervision_cycles - 1 })
        (lowered-IsValid a v r (leb→gt _ _ h)) (ap is_running r))
]

evaluate_ref_cycle_out_of_failed-IsValid :
    (a : Alive) → IsValid a → a.status ≡ failed → IsValid (evaluate_ref_cycle_out_of_failed a)
unfolding evaluate_ref_cycle_out_of_failed
evaluate_ref_cycle_out_of_failed-IsValid a v r =
    elim (Bool-cases (is_min_error a || is_max_error a)) [
      | inl bad ↦ elim (Bool-cases (a.failed_supervision_cycles == u32_max)) [
        | inl full ↦ simp (bad, full) (switch_to_expired-IsValid overflow a v)
        | inr room ↦ simp (bad, room) (bad_cycle-IsValid a v r)
      ]
      | inr good ↦ simp good (good_cycle-IsValid a v r)
    ]

out_of_deactivated-IsValid :
    (u : UpdateType) (t : ℕ) (a : Alive)
    → IsValid a
    → a.status ≡ deactivated
    → IsValid (check_transitions_out_of_deactivated u t a)
unfolding check_transitions_out_of_deactivated set_reference_cycle_timestamps switch_to_ok
out_of_deactivated-IsValid UpdateType.activation t a v r = ground arith
out_of_deactivated-IsValid _ t a v r = v

pub check_transitions-IsValid :
    (s : Status) (u : UpdateType) (t : ℕ) (a : Alive)
    → IsValid a
    → a.status ≡ s
    → IsValid (check_transitions s u t a)
unfolding check_transitions check_transitions_out_of_ok check_transitions_out_of_failed
check_transitions-IsValid deactivated u t a v r = out_of_deactivated-IsValid u t a v r
check_transitions-IsValid ok UpdateType.evaluation t a v r =
    evaluate_ref_cycle_out_of_ok-IsValid a v r
check_transitions-IsValid ok UpdateType.checkpoint t a v r =
    inc_indication_count-IsValid t a v (ap is_running r)
check_transitions-IsValid ok _ t a v r = v
check_transitions-IsValid failed UpdateType.evaluation t a v r =
    evaluate_ref_cycle_out_of_failed-IsValid a v r
check_transitions-IsValid failed UpdateType.checkpoint t a v r =
    inc_indication_count-IsValid t a v (ap is_running r)
check_transitions-IsValid failed _ t a v r = v
check_transitions-IsValid expired u t a v r = v

check_common_transitions-IsValid :
    (u : UpdateType) (t : ℕ) (a : Alive) → IsValid a → IsValid (check_common_transitions u t a)
unfolding check_common_transitions switch_to_deactivated
check_common_transitions-IsValid UpdateType.recovered_from_crash t a v =
    out_of_deactivated-IsValid UpdateType.activation t (switch_to_deactivated a)
      (switch_to_deactivated-IsValid a v) refl
check_common_transitions-IsValid UpdateType.deactivation t a v = ground arith
check_common_transitions-IsValid _ t a v = v

alive_event_type-IsValid :
    (b : Bool) (e : UpdateEvent) (a : Alive) → IsValid a → IsValid (alive_event_type b e a).1
unfolding alive_event_type
alive_event_type-IsValid true e a v = v
alive_event_type-IsValid false e a v = ground arith

-- Every round of the evaluation, for any event, keeps a valid supervision valid: its counters stay in
-- their machine types and within the tolerance, they fit the status, and a reference cycle is open
-- exactly while the supervision is ok or failed.
pub round-IsValid : (e : UpdateEvent) (a : Alive) → IsValid a → IsValid (round e a).0
unfolding round
round-IsValid e a v =
    let evaluates = detect_evaluation_event (timestamp_of_update_event e) e a in
    let t = if evaluates then a.reference_cycle_end else timestamp_of_update_event e in
    let a1 : Alive =
      if evaluates then record a { event_timestamp = a.reference_cycle_end } else a in
    let typed = alive_event_type evaluates e a1 in
    let v2 = alive_event_type-IsValid evaluates e a1 (stamped evaluates) in
    check_common_transitions-IsValid typed.0 t (check_transitions typed.1.status typed.0 t typed.1)
      (check_transitions-IsValid typed.1.status typed.0 t typed.1 v2 refl)
  where
    stamped :
        (b : Bool) → IsValid (if b then record a { event_timestamp = a.reference_cycle_end } else a)
    stamped true = ground arith
    stamped false = v

-- A new supervision is valid, if its configuration is.
pub create_alive-IsValid :
    (c : Config) (size : ℕ) (groups : List ℕ) (process : ℕ) (others : List ℕ)
    → 0 < c.alive_reference_cycle
    → c.alive_reference_cycle ≤ u64_max
    → c.failed_cycles_tolerance ≤ u32_max
    → IsValid (create_alive c size groups process others)
unfolding create_alive
create_alive-IsValid c size groups process others p b t = ground arith
