-- ===== src/Examples/Watchdogs.antt =====
-- The watchdogs on two devices: each theorem with hypotheses, applied where they hold.
use inc_lifecycle.Base.{
  ℕ, suc, ◌+◌, ◌≤◌, ◌≡◌, refl, true, false, none, some, List, [], ◌∷◌, map, arith, ◌==◌,
  if◌then◌else◌, All, ◌⊎◌,
}
use inc_lifecycle.Watchdog.Calls.{Call, opened, used, closed, Os, is_open, IsSafe, IsPosix}
use inc_lifecycle.Watchdog.{
  DeviceConfig, Watchdog, activated, Operation, init_operation, enable_operation, disable_operation,
  service_operation, fire_operation, new_watchdog, init, enable_device, enable_devices, enable, run,
}
use inc_lifecycle.Watchdog.Holding.{holders, count}
use inc_lifecycle.Watchdog.Descriptors.{run-IsSafe}
use inc_lifecycle.Watchdog.Setup.{closed_device, IsAcceptable, HaveOwnFiles, init-IsAcceptable}
use inc_lifecycle.Watchdog.Shutdown.{IsStuck, run-IsStuck}

-- A descriptor above all that were opened.
abbrev pub fresh : List Call → ℕ
fresh [] = 3
fresh (opened name none ∷ calls) = fresh calls
fresh (opened name (some n) ∷ calls) = suc (n + fresh calls)
fresh (used n request ∷ calls) = fresh calls
fresh (closed n ∷ calls) = fresh calls

fresh_above : (calls : List Call) (fd : ℕ) → fresh calls ≤ fd → is_open fd calls ≡ false
fresh_above [] fd h = refl
fresh_above (opened name none ∷ calls) fd h = fresh_above calls fd h
fresh_above (opened name (some n) ∷ calls) fd h = ground (arith, fresh_above calls fd)
fresh_above (used n request ∷ calls) fd h = fresh_above calls fd h
fresh_above (closed n ∷ calls) fd h = ground (arith, fresh_above calls fd)

-- All devices can be opened but the one with this name, and take every timeout.
abbrev pub os_without : ℕ → Os
os_without broken = record {
  open_answer = λ name calls. if name == broken then none else some (fresh calls);
  timeout_answer = λ fd calls. some 60;
  time_left_answer = λ fd calls. some 50;
  set_timeout_answer = λ fd s calls. some s;
  enable_answer = λ fd calls. true;
}

pub os_without-IsPosix : (broken : ℕ) → IsPosix (os_without broken)
os_without-IsPosix broken name calls fd h = ground (arith, fresh_above calls fd)

abbrev pub seconds_2 : DeviceConfig
seconds_2 = record {
  file_name = 1;
  timeout_min = 0;
  timeout_max = 2_000;
  can_be_deactivated = true;
  needs_magic_close = true;
}

abbrev pub nowayout : DeviceConfig
nowayout = record seconds_2 { file_name = 2; can_be_deactivated = false }

abbrev both : List DeviceConfig
both = seconds_2 ∷ nowayout ∷ []

abbrev operations : List Operation
operations =
    init_operation 50_000_000 (some both)
    ∷ enable_operation
    ∷ service_operation
    ∷ disable_operation
    ∷ service_operation
    ∷ fire_operation
    ∷ []

run-IsSafe_example :
    let w = run (os_without 0) operations new_watchdog in
    IsSafe w.calls × ((fd : ℕ) → holders fd w.devices ≤ count (is_open fd w.calls))
run-IsSafe_example = run-IsSafe (os_without 0) (os_without-IsPosix 0) operations

init-IsAcceptable_example :
    ((All (IsAcceptable 50_000_000) both × HaveOwnFiles both)
      × (init 50_000_000 (some both) new_watchdog
          ≡ (true, record new_watchdog { devices = map closed_device both })))
    ⊎ ((¬ (All (IsAcceptable 50_000_000) both × HaveOwnFiles both))
        × ((init 50_000_000 (some both) new_watchdog).0 ≡ false))
init-IsAcceptable_example = init-IsAcceptable 50_000_000 both

-- The first device is open, and the second is not.
abbrev half_open : Watchdog
half_open = record {
  devices = record { config = seconds_2; file_descriptor = some 3 } ∷ closed_device nowayout ∷ [];
  state = activated;
  calls = opened 2 none ∷ opened 1 (some 3) ∷ [];
}

run-IsStuck_example :
    let w = run (os_without 2) (disable_operation ∷ enable_operation ∷ []) half_open in
    IsStuck w × (enable (os_without 2) w ≡ (false, w))
run-IsStuck_example =
    run-IsStuck (os_without 2) (disable_operation ∷ enable_operation ∷ []) half_open
      ((λ e. cc), refl)

-- A second device that does not open leaves the watchdog activated.
enable_half :
    (enable (os_without 2) (record new_watchdog { devices = map closed_device both })).1.state
    ≡ activated
unfolding enable enable_devices enable_device
enable_half = refl
