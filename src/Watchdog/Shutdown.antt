-- ===== src/Watchdog/Shutdown.antt =====
-- What `disable` leaves open, and what a device that was not opened means for it.
use inc_lifecycle.Base.{
  ℕ, ◌≡◌, ◌≢◌, refl, sym, subst, ◌∙◌, ap, Bool, true, false, not, ◌&&◌, none, some, List, [], ◌∷◌,
  map, arith, ◌==◌, if◌then◌else◌, all, any,
}
use inc_lifecycle.Watchdog.Calls.{Call, Os, is_open}
use inc_lifecycle.Watchdog.{
  DeviceConfig, WatchdogDevice, Watchdog, idle, activated, Operation, init_operation,
  enable_operation, disable_operation, service_operation, fire_operation, configure_device,
  configure_devices, init, enable, disable_device, disable_devices, disable, service_watchdog,
  fire_watchdog_reaction, step, run,
}

abbrev pub is_closed : WatchdogDevice → Bool
is_closed d = elim d.file_descriptor [ none ↦ true | some fd ↦ false ]

-- Open, and allowed to be closed.
abbrev pub can_shut : WatchdogDevice → Bool
can_shut d = not (is_closed d) && d.config.can_be_deactivated

abbrev pub shut : WatchdogDevice → WatchdogDevice
shut d = if d.config.can_be_deactivated then record d { file_descriptor = none } else d

abbrev pub has_descriptor : ℕ → WatchdogDevice → Bool
has_descriptor fd d = elim d.file_descriptor [ none ↦ false | some n ↦ n == fd ]

-- A device with this descriptor, which may be closed.
abbrev pub shuts : ℕ → WatchdogDevice → Bool
shuts fd d = has_descriptor fd d && d.config.can_be_deactivated

disable_device_lem :
    (d : WatchdogDevice) (calls : List Call)
    → ((disable_device d calls).0 ≡ can_shut d) × ((disable_device d calls).1 ≡ shut d)
unfolding disable_device
disable_device_lem d calls = ground arith

is_open-disable_device :
    (fd : ℕ) (d : WatchdogDevice) (calls : List Call)
    → is_open fd (disable_device d calls).2 ≡ (is_open fd calls && not (shuts fd d))
unfolding disable_device
is_open-disable_device fd d calls = ground arith

disable_devices-map :
    (ds : List WatchdogDevice) (result : Bool) (calls : List Call)
    → ((disable_devices ds result calls).0 ≡ (result && all can_shut ds))
      × ((disable_devices ds result calls).1 ≡ map shut ds)
unfolding disable_devices
disable_devices-map [] result calls = ground arith
disable_devices-map (d ∷ ds) result calls =
    let r = disable_device d calls in
    ground (arith, disable_device_lem d calls, disable_devices-map ds (result && r.0) r.2)

is_open-disable_devices :
    (fd : ℕ) (ds : List WatchdogDevice) (result : Bool) (calls : List Call)
    → is_open fd (disable_devices ds result calls).2 ≡ (is_open fd calls && not (any (shuts fd) ds))
unfolding disable_devices
is_open-disable_devices fd [] result calls = ground arith
is_open-disable_devices fd (d ∷ ds) result calls =
    let r = disable_device d calls in
    is_open-disable_devices fd ds (result && r.0) r.2
    ∙ ap (λ (b : Bool). b && not (any (shuts fd) ds)) (is_open-disable_device fd d calls)
    ∙ ground arith

-- Disabling an activated watchdog takes the descriptors from the devices that can be deactivated, and
-- from no others, and closes these and no others; it is idle then if every device was open and can be
-- deactivated, and otherwise still activated.
pub disable-shut :
    (w : Watchdog) (fd : ℕ)
    → w.state ≡ activated
    → ((disable w).devices ≡ map shut w.devices)
      × ((disable w).state ≡ (if all can_shut w.devices then idle else activated))
      × (is_open fd (disable w).calls ≡ (is_open fd w.calls && not (any (shuts fd) w.devices)))
unfolding disable
disable-shut w fd s = ground (
  arith,
  disable_devices-map w.devices true w.calls,
  is_open-disable_devices fd w.devices true w.calls,
)

-- It has been enabled, and a device is not open.
abbrev pub IsStuck : Watchdog → Type 0
IsStuck w = (w.state ≢ idle) × (any is_closed w.devices ≡ true)

configure_device_busy :
    (c : DeviceConfig) (cycle : ℕ) (w : Watchdog)
    → w.state ≢ idle
    → configure_device c cycle w ≡ (false, w)
unfolding configure_device
configure_device_busy c cycle w n = ground arith

configure_devices_busy :
    (cs : List DeviceConfig) (cycle : ℕ) (result : Bool) (w : Watchdog)
    → w.state ≢ idle
    → (configure_devices cs cycle result w).1 ≡ w
unfolding configure_devices
configure_devices_busy [] cycle result w n = refl
configure_devices_busy (c ∷ cs) cycle result w n =
    rw (configure_device_busy c cycle w n, configure_devices)
      (configure_devices_busy cs cycle (result && false) w n)

closed_stays :
    (ds : List WatchdogDevice) → any is_closed ds ≡ true → any is_closed (map shut ds) ≡ true
closed_stays [] h = h
closed_stays (d ∷ ds) h = ground (arith, closed_stays ds)

closed_not_shut : (ds : List WatchdogDevice) → any is_closed ds ≡ true → all can_shut ds ≡ false
closed_not_shut [] h = cc
closed_not_shut (d ∷ ds) h = ground (arith, closed_not_shut ds)

step-IsStuck : (os : Os) (o : Operation) (w : Watchdog) → IsStuck w → IsStuck (step os o w)
unfolding step init enable disable service_watchdog fire_watchdog_reaction
step-IsStuck os (init_operation cycle none) w h = h
step-IsStuck os (init_operation cycle (some cs)) w h =
    subst IsStuck (sym (configure_devices_busy cs cycle true w h.0)) h
step-IsStuck os enable_operation w h = ground arith
step-IsStuck os disable_operation w h = ground (
  arith,
  disable_devices-map w.devices true w.calls,
  closed_stays w.devices,
  closed_not_shut w.devices,
)
step-IsStuck os service_operation w h = ground arith
step-IsStuck os fire_operation w h = ground arith

-- Once a watchdog is not idle while one of its devices is not open, it is so for ever: no operations
-- make it idle again, also not `disable`, so that no later `enable` can succeed.
pub run-IsStuck :
    (os : Os) (ops : List Operation) (w : Watchdog)
    → IsStuck w
    → IsStuck (run os ops w) × (enable os (run os ops w) ≡ (false, run os ops w))
unfolding run enable
run-IsStuck os [] w h = (h, ground arith)
run-IsStuck os (o ∷ ops) w h = run-IsStuck os ops (step os o w) (step-IsStuck os o w h)
