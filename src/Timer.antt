-- ===== src/Timer.antt =====
-- The cycle timer of the daemon and the conversion of its deadlines
-- (src/launch_manager_daemon/health_monitor_lib/src/score/lcm/saf/timers/CycleTimer.cpp,
-- TimeConversion.cpp). The times of the monotonic clock are not negative, so the fields of a
-- `timespec` are natural numbers and the tests for a sign are left out.
pub mod Drift
use inc_lifecycle.Base.{
  ℕ, zero, suc, ◌+◌, ◌-◌, ◌*◌, Bool, true, false, ◌&&◌, Option, none, some, leb, if◌then◌else◌,
  u64_max,
}

pub record TimeSpec : Type 0 where
  pub tv_sec : ℕ
  pub tv_nsec : ℕ

-- k_nanoSecondsPerSecond and k_nanoSecInSec.
abbrev pub nanoseconds_per_second : ℕ
nanoseconds_per_second = 1_000_000_000

-- UINT64_MAX / k_nanoSecInSec.
abbrev pub time_max_second : ℕ
time_max_second = 18_446_744_073

-- The loop, on fuel for its turns.
unfoldable pub handle_nano_sec_overflow : ℕ → TimeSpec → Option TimeSpec
handle_nano_sec_overflow zero t = none
handle_nano_sec_overflow (suc fuel) t =
    let rest =
      handle_nano_sec_overflow fuel
        (record { tv_sec = suc t.tv_sec; tv_nsec = t.tv_nsec - nanoseconds_per_second }) in
    if leb nanoseconds_per_second t.tv_nsec then rest else some t

-- The deadline after the next one; the interval is that of the timer.
unfoldable pub calc_next_shot : ℕ → ℕ → TimeSpec → Option TimeSpec
calc_next_shot fuel interval t =
    handle_nano_sec_overflow fuel (record t { tv_nsec = t.tv_nsec + interval })

-- The deadline of the cycle with this number, from the one that `start` read.
unfoldable pub shots : ℕ → ℕ → ℕ → TimeSpec → Option TimeSpec
shots fuel interval zero t = some t
shots fuel interval (suc n) t = elim (shots fuel interval n t) [
  | none ↦ none
  | some t' ↦ calc_next_shot fuel interval t'
]

-- 0 stands for an invalid time.
unfoldable pub convert_to_nano_sec : TimeSpec → ℕ
convert_to_nano_sec t =
    if leb t.tv_sec time_max_second && leb t.tv_nsec (u64_max - t.tv_sec * nanoseconds_per_second)
    then t.tv_sec * nanoseconds_per_second + t.tv_nsec
    else 0
