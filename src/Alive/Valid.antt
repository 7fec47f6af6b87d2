-- ===== src/Alive/Valid.antt =====
-- What holds of an alive supervision between two rounds of its evaluation, and its operations.
use inc_lifecycle.Base.{ℕ, ◌+◌, ◌≤◌, ◌<◌, ◌≡◌, Bool, true, false, arith, u64_max, u32_max}
use inc_lifecycle.Checkpoint.{Status, ok, failed, expired}
use inc_lifecycle.Alive.{
  Alive, Reason, switch_to_deactivated, switch_to_failed, switch_to_expired, set_next_cycle,
  inc_indication_count, evaluate_ref_cycle_out_of_ok,
}

abbrev pub is_running : Status → Bool
is_running ok = true
is_running failed = true
is_running _ = false

pub record IsValid (a : Alive) : Type 0 where
  -- The configuration: a 64-bit cycle that is not 0, and a 32-bit tolerance.
  pub cycle_positive : 0 < a.alive_reference_cycle
  pub cycle_bounded : a.alive_reference_cycle ≤ u64_max
  pub tolerance_bounded : a.failed_cycles_tolerance ≤ u32_max
  -- No counter wraps.
  pub count_bounded : a.indication_count ≤ u32_max
  pub cycles_bounded : a.failed_supervision_cycles ≤ a.failed_cycles_tolerance
  -- The failed cycles are counted in the status failed.
  pub ok_clean : a.status ≡ ok → a.failed_supervision_cycles ≡ 0
  pub failed_counted : a.status ≡ failed → 0 < a.failed_supervision_cycles
  pub expired_exhausted :
      a.status ≡ expired → a.failed_supervision_cycles ≡ a.failed_cycles_tolerance
  -- A reference cycle is open exactly while the supervision runs.
  pub cycle_open :
      is_running a.status ≡ true
      → (a.reference_cycle_end ≡ a.reference_cycle_start + a.alive_reference_cycle)
        × (a.reference_cycle_end ≤ u64_max)
  pub cycle_closed :
      is_running a.status ≡ false
      → (a.reference_cycle_end ≡ u64_max) × (a.reference_cycle_start ≡ 0) × (a.indication_count ≡ 0)

pub switch_to_deactivated-IsValid : (a : Alive) → IsValid a → IsValid (switch_to_deactivated a)
unfolding switch_to_deactivated
switch_to_deactivated-IsValid a v = ground arith

pub switch_to_expired-IsValid :
    (r : Reason) (a : Alive) → IsValid a → IsValid (switch_to_expired r a)
unfolding switch_to_expired
switch_to_expired-IsValid r a v = ground arith

pub set_next_cycle-IsValid :
    (a : Alive) → IsValid a → is_running a.status ≡ true → IsValid (set_next_cycle a)
unfolding set_next_cycle
set_next_cycle-IsValid a v r = ground arith

pub switch_to_failed-IsValid :
    (a : Alive)
    → IsValid a
    → is_running a.status ≡ true
    → a.failed_supervision_cycles < a.failed_cycles_tolerance
    → IsValid (switch_to_failed a)
unfolding switch_to_failed
switch_to_failed-IsValid a v r h = ground arith

pub inc_indication_count-IsValid :
    (t : ℕ) (a : Alive)
    → IsValid a
    → is_running a.status ≡ true
    → IsValid (inc_indication_count t a)
unfolding inc_indication_count
inc_indication_count-IsValid t a v r = ground arith

pub evaluate_ref_cycle_out_of_ok-IsValid :
    (a : Alive) → IsValid a → a.status ≡ ok → IsValid (evaluate_ref_cycle_out_of_ok a)
unfolding evaluate_ref_cycle_out_of_ok
evaluate_ref_cycle_out_of_ok-IsValid a v r = ground arith
