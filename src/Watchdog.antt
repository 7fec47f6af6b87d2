-- ===== src/Watchdog.antt =====
-- The watchdogs of the machine, for Linux
-- (src/launch_manager_daemon/health_monitor_lib/src/score/lcm/saf/watchdog/WatchdogImpl.cpp, .hpp,
-- IWatchdogIf.hpp, IDeviceConfigFactory.hpp). File names stand as numbers, times are not negative.
-- Logging, exceptions for want of memory and the endless wait after a reaction are left out; the
-- products of the conversion to milliseconds are taken to fit, as the code asserts.
pub mod Calls
pub mod Setup
pub mod Holding
pub mod Descriptors
pub mod Service
pub mod Shutdown
use inc_lifecycle.Base.{
  ℕ, ◌*◌, ◌%◌, Bool, true, false, not, ◌&&◌, ◌||◌, Option, none, some, List, [], ◌∷◌, ◌++◌, leb,
  ◌==◌, if◌then◌else◌,
}
use Prim.Native.Nat.{◌/◌}
use inc_lifecycle.Watchdog.Calls.{
  Call, opened, used, closed, get_timeout, get_time_left, set_timeout, enable_card, disable_card,
  keep_alive, magic_close, Os,
}

pub record DeviceConfig : Type 0 where
  pub file_name : ℕ
  pub timeout_min : ℕ
  pub timeout_max : ℕ
  pub can_be_deactivated : Bool
  pub needs_magic_close : Bool

pub record WatchdogDevice : Type 0 where
  pub config : DeviceConfig
  pub file_descriptor : Option ℕ

-- ELibState
pub data LibState : Type 0 where
  idle activated react : LibState

-- `calls` are those to the operating system, newest first.
pub record Watchdog : Type 0 where
  pub devices : List WatchdogDevice
  pub state : LibState
  pub calls : List Call

abbrev pub is_idle : LibState → Bool
is_idle idle = true
is_idle _ = false

abbrev pub is_activated : LibState → Bool
is_activated activated = true
is_activated _ = false

abbrev pub new_watchdog : Watchdog
new_watchdog = record { devices = []; state = idle; calls = [] }

-- kTimeoutMinMillis, kTimeoutMaxMillis and kTimeoutResolution.
abbrev pub timeout_min_millis : ℕ
timeout_min_millis = 1_000

abbrev pub timeout_max_millis : ℕ
timeout_max_millis = 30_000

abbrev pub timeout_resolution : ℕ
timeout_resolution = 1_000

unfoldable pub has_valid_timeout : DeviceConfig → Bool
has_valid_timeout c =
    (leb timeout_min_millis c.timeout_max && leb c.timeout_max timeout_max_millis)
    && c.timeout_max % timeout_resolution == 0

unfoldable pub device_already_configured : DeviceConfig → List WatchdogDevice → Bool
device_already_configured c [] = false
device_already_configured c (d ∷ ds) =
    d.config.file_name == c.file_name || device_already_configured c ds

-- The cycle time is given in nanoseconds.
unfoldable pub validate_timeout_with_cycle_time : ℕ → DeviceConfig → Bool
validate_timeout_with_cycle_time cycle c = leb (cycle / 1_000_000) c.timeout_max

unfoldable pub is_valid_device_config : DeviceConfig → ℕ → List WatchdogDevice → Bool
unfolding has_valid_timeout validate_timeout_with_cycle_time
is_valid_device_config c cycle ds =
    not (device_already_configured c ds)
    && (has_valid_timeout c && validate_timeout_with_cycle_time cycle c)

unfoldable pub configure_device : DeviceConfig → ℕ → Watchdog → Bool × Watchdog
unfolding is_valid_device_config
configure_device c cycle w =
    if is_idle w.state && is_valid_device_config c cycle w.devices
    then (
      true,
      record w { devices = w.devices ++ record { config = c; file_descriptor = none } ∷ [] },
    )
    else (false, w)

-- The loop of `init`, with the result so far.
unfoldable pub configure_devices : List DeviceConfig → ℕ → Bool → Watchdog → Bool × Watchdog
configure_devices [] cycle result w = (result, w)
configure_devices (c ∷ cs) cycle result w =
    let (configured, w') = configure_device c cycle w in
    configure_devices cs cycle (result && configured) w'

-- No list of configurations is an invalid configuration.
unfoldable pub init : ℕ → Option (List DeviceConfig) → Watchdog → Bool × Watchdog
unfolding configure_devices configure_device
init cycle none w = (false, w)
init cycle (some configs) w = configure_devices configs cycle true w

module _ (os : Os) where
  -- In milliseconds, or `none` for a failure.
  unfoldable pub get_configured_timeout : ℕ → List Call → Option ℕ × List Call
  get_configured_timeout fd calls = (
    elim (os.timeout_answer fd calls) [ none ↦ none | some s ↦ some (s * 1_000) ],
    used fd get_timeout ∷ calls,
  )

  unfoldable pub get_remaining_time : ℕ → List Call → Option ℕ × List Call
  get_remaining_time fd calls = (
    elim (os.time_left_answer fd calls) [ none ↦ none | some s ↦ some (s * 1_000) ],
    used fd get_time_left ∷ calls,
  )

  -- The driver may have taken another timeout than the one that was asked for.
  unfoldable pub set_device_timeout : ℕ → ℕ → List Call → Bool × List Call
  set_device_timeout fd ms calls = (
    elim (os.set_timeout_answer fd (ms / 1_000) calls) [
      | none ↦ false
      | some s ↦ ms / 1_000 * 1_000 == s * 1_000
    ],
    used fd (set_timeout (ms / 1_000)) ∷ calls,
  )

  unfoldable pub set_enable_card_option : ℕ → List Call → Bool × List Call
  set_enable_card_option fd calls = (os.enable_answer fd calls, used fd enable_card ∷ calls)

  unfoldable pub update_timeout : DeviceConfig → ℕ → ℕ → List Call → Bool × List Call
  unfolding get_remaining_time set_device_timeout
  update_timeout c fd configured calls =
      let (remaining, calls') = get_remaining_time fd calls in
      if configured == c.timeout_max then (true, calls) else (elim remaining [
        | none ↦ (false, calls')
        | some time ↦ set_device_timeout fd c.timeout_max calls'
      ])

  -- What follows on the successful opening of a device.
  unfoldable pub enable_opened : DeviceConfig → ℕ → List Call → Bool × List Call
  unfolding get_configured_timeout update_timeout set_enable_card_option
  enable_opened c fd calls =
      let (configured, calls1) = get_configured_timeout fd calls in
      elim configured [
        | none ↦ (false, calls1)
        | some time ↦
            let (updated, calls2) = update_timeout c fd time calls1 in
            if updated then set_enable_card_option fd calls2 else (false, calls2)
      ]

  -- The device keeps its descriptor if a later step fails.
  unfoldable pub enable_device : WatchdogDevice → List Call → Bool × WatchdogDevice × List Call
  unfolding enable_opened
  enable_device d calls =
      let fd = os.open_answer d.config.file_name calls in
      let calls1 = opened d.config.file_name fd ∷ calls in
      let d' = record d { file_descriptor = fd } in
      elim fd [
        | none ↦ (false, d', calls1)
        | some n ↦ let (enabled, calls2) = enable_opened d.config n calls1 in (enabled, d', calls2)
      ]

  -- The loop of `enable`, with the result and the state so far.
  unfoldable pub enable_devices :
      List WatchdogDevice
      → Bool
      → LibState
      → List Call
      → Bool × LibState × List WatchdogDevice × List Call
  enable_devices [] result s calls = (result, s, [], calls)
  enable_devices (d ∷ ds) result s calls =
      let (was_enabled, d', calls1) = enable_device d calls in
      let (result', s', ds', calls2) =
        enable_devices ds (result && was_enabled) (if was_enabled then activated else s) calls1 in
      (result', s', d' ∷ ds', calls2)

  unfoldable pub enable : Watchdog → Bool × Watchdog
  enable w =
      let (result, s, ds, calls) = enable_devices w.devices true w.state w.calls in
      if is_idle w.state
      then (result, record { devices = ds; state = s; calls = calls })
      else (false, w)

  unfoldable pub fire_devices : List WatchdogDevice → List Call → List Call
  unfolding set_device_timeout
  fire_devices [] calls = calls
  fire_devices (d ∷ ds) calls =
      fire_devices ds
        (elim d.file_descriptor [ none ↦ calls | some fd ↦ (set_device_timeout fd 0 calls).1 ])

  -- The state in which the daemon waits for the reset.
  unfoldable pub fire_watchdog_reaction : Watchdog → Watchdog
  unfolding fire_devices
  fire_watchdog_reaction w =
      if is_activated w.state
      then record w { state = react; calls = fire_devices w.devices w.calls }
      else w

-- What `disable_device` tells a device that is open.
abbrev pub disable_calls : DeviceConfig → ℕ → List Call → List Call
disable_calls c fd calls =
    closed fd
    ∷ used fd disable_card
    ∷ (if c.needs_magic_close then used fd magic_close ∷ calls else calls)

unfoldable pub disable_device : WatchdogDevice → List Call → Bool × WatchdogDevice × List Call
disable_device d calls = elim d.file_descriptor [
  | none ↦ (false, d, calls)
  | some fd ↦
      if d.config.can_be_deactivated
      then (true, record d { file_descriptor = none }, disable_calls d.config fd calls)
      else (false, d, calls)
]

-- The loop of `disable`, with the result so far.
unfoldable pub disable_devices :
    List WatchdogDevice → Bool → List Call → Bool × List WatchdogDevice × List Call
disable_devices [] result calls = (result, [], calls)
disable_devices (d ∷ ds) result calls =
    let (was_disabled, d', calls1) = disable_device d calls in
    let (result', ds', calls2) = disable_devices ds (result && was_disabled) calls1 in
    (result', d' ∷ ds', calls2)

unfoldable pub disable : Watchdog → Watchdog
disable w =
    let (all_disabled, ds, calls) = disable_devices w.devices true w.calls in
    if is_activated w.state
    then record { devices = ds; state = if all_disabled then idle else w.state; calls = calls }
    else w

unfoldable pub service_devices : List WatchdogDevice → List Call → List Call
service_devices [] calls = calls
service_devices (d ∷ ds) calls =
    service_devices ds
      (elim d.file_descriptor [ none ↦ calls | some fd ↦ used fd keep_alive ∷ calls ])

unfoldable pub service_watchdog : Watchdog → Watchdog
unfolding service_devices
service_watchdog w =
    if is_activated w.state then record w { calls = service_devices w.devices w.calls } else w

-- The calls of the interface.
pub data Operation : Type 0 where
  init_operation : ℕ → Option (List DeviceConfig) → Operation
  enable_operation disable_operation service_operation fire_operation : Operation

unfoldable pub step : Os → Operation → Watchdog → Watchdog
step os (init_operation cycle configs) w = (init cycle configs w).1
step os enable_operation w = (enable os w).1
step os disable_operation w = disable w
step os service_operation w = service_watchdog w
step os fire_operation w = fire_watchdog_reaction os w

unfoldable pub run : Os → List Operation → Watchdog → Watchdog
unfolding step
run os [] w = w
run os (o ∷ rest) w = run os rest (step os o w)
