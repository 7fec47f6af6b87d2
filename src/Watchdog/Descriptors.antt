-- ===== src/Watchdog/Descriptors.antt =====
-- That no call of the watchdogs uses a descriptor that is closed.
use inc_lifecycle.Base.{
  ℕ, ◌+◌, ◌≤◌, ◌≡◌, Bool, true, false, ◌&&◌, Option, none, some, List, [], ◌∷◌, ◌++◌, arith,
  if◌then◌else◌,
}
use inc_lifecycle.Watchdog.Calls.{
  Call, used, Request, Os, is_open, IsSafe, IsPosix, keep_alive, set_timeout,
}
use inc_lifecycle.Watchdog.{
  DeviceConfig, WatchdogDevice, Watchdog, LibState, activated, Operation, init_operation,
  enable_operation, disable_operation, service_operation, fire_operation, new_watchdog, is_idle,
  is_activated, configure_device, configure_devices, init, enable_device, enable_devices, enable,
  disable_device, disable_devices, disable, service_devices, service_watchdog, fire_devices,
  fire_watchdog_reaction, step, run,
}
use inc_lifecycle.Watchdog.Holding.{
  count, holds, holders, eq_self, Held, AllHeld, enable_device-Held, disable_device-Held,
}

-- The loops handle the first device beside the rest, and then the rest beside it.
module _ (others : ℕ → ℕ) (d : WatchdogDevice) (ds : List WatchdogDevice) {calls : List Call} where
  first-Held : AllHeld others (d ∷ ds) calls → Held (λ fd. others fd + holders fd ds) d calls
  first-Held h = record { owned = λ fd. omega (arith, h.owned fd); safe = h.safe }

  rest-AllHeld :
      Held (λ fd. others fd + holders fd ds) d calls
      → AllHeld (λ fd. others fd + holds fd d.file_descriptor) ds calls
  rest-AllHeld h = record { owned = λ fd. omega (arith, h.owned fd); safe = h.safe }

  join-AllHeld :
      AllHeld (λ fd. others fd + holds fd d.file_descriptor) ds calls
      → AllHeld others (d ∷ ds) calls
  join-AllHeld h = record { owned = λ fd. omega (arith, h.owned fd); safe = h.safe }

enable_devices-AllHeld :
    (os : Os) (posix : IsPosix os) (others : ℕ → ℕ) (ds : List WatchdogDevice) (result : Bool)
    (s : LibState) (calls : List Call)
    → AllHeld others ds calls
    → let (result', s', ds', calls') = enable_devices os ds result s calls in
      AllHeld others ds' calls'
unfolding enable_devices
enable_devices-AllHeld os posix others [] result s calls h = h
enable_devices-AllHeld os posix others (d ∷ ds) result s calls h =
    let (was_enabled, d', calls1) = enable_device os d calls in
    let rest = λ (fd : ℕ). others fd + holders fd ds in
    let now = enable_device-Held os posix rest d calls (first-Held others d ds h) in
    let r =
      enable_devices os ds (result && was_enabled) (if was_enabled then activated else s) calls1 in
    join-AllHeld others d' r.2 (
      enable_devices-AllHeld os posix (λ fd. others fd + holds fd d'.file_descriptor) ds
        (result && was_enabled) (if was_enabled then activated else s) calls1
        (rest-AllHeld others d' ds now))

disable_devices-AllHeld :
    (others : ℕ → ℕ) (ds : List WatchdogDevice) (result : Bool) (calls : List Call)
    → AllHeld others ds calls
    → let (result', ds', calls') = disable_devices ds result calls in AllHeld others ds' calls'
unfolding disable_devices
disable_devices-AllHeld others [] result calls h = h
disable_devices-AllHeld others (d ∷ ds) result calls h =
    let (was_disabled, d', calls1) = disable_device d calls in
    let rest = λ (fd : ℕ). others fd + holders fd ds in
    let now = disable_device-Held rest d calls (first-Held others d ds h) in
    let r = disable_devices ds (result && was_disabled) calls1 in
    join-AllHeld others d' r.1 (
      disable_devices-AllHeld (λ fd. others fd + holds fd d'.file_descriptor) ds
        (result && was_disabled) calls1 (rest-AllHeld others d' ds now))

-- A request to a device that is held leaves everything held.
used-AllHeld :
    (ds : List WatchdogDevice) (o : Option ℕ) (request : Request) (calls : List Call)
    (others : ℕ → ℕ)
    → ((fd : ℕ) → holds fd o ≤ others fd)
    → AllHeld others ds calls
    → AllHeld others ds (elim o [ none ↦ calls | some fd ↦ used fd request ∷ calls ])
used-AllHeld ds none request calls others k h = h
used-AllHeld ds (some n) request calls others k h = record {
  owned = h.owned;
  safe = (ground (arith, h.owned n, k n, eq_self n), h.safe);
}

service_devices-AllHeld :
    (others : ℕ → ℕ) (ds : List WatchdogDevice) (calls : List Call)
    → AllHeld others ds calls
    → AllHeld others ds (service_devices ds calls)
unfolding service_devices
service_devices-AllHeld others [] calls h = h
service_devices-AllHeld others (d ∷ ds) calls h = join-AllHeld others d ds (
    service_devices-AllHeld (λ fd. others fd + holds fd d.file_descriptor) ds
      (elim d.file_descriptor [ none ↦ calls | some fd ↦ used fd keep_alive ∷ calls ])
      (used-AllHeld ds d.file_descriptor keep_alive calls _ (λ fd. omega arith)
        record { owned = λ fd. omega (arith, h.owned fd); safe = h.safe }))

fire_devices-AllHeld :
    (os : Os) (others : ℕ → ℕ) (ds : List WatchdogDevice) (calls : List Call)
    → AllHeld others ds calls
    → AllHeld others ds (fire_devices os ds calls)
unfolding fire_devices
fire_devices-AllHeld os others [] calls h = h
fire_devices-AllHeld os others (d ∷ ds) calls h = join-AllHeld others d ds (
    fire_devices-AllHeld os (λ fd. others fd + holds fd d.file_descriptor) ds
      (elim d.file_descriptor [ none ↦ calls | some fd ↦ used fd (set_timeout 0) ∷ calls ])
      (used-AllHeld ds d.file_descriptor (set_timeout 0) calls _ (λ fd. omega arith)
        (rest-AllHeld others d ds (first-Held others d ds h))))

abbrev pub IsHeld : Watchdog → Type 0
IsHeld w = AllHeld (λ fd. 0) w.devices w.calls

pub new-IsHeld : IsHeld new_watchdog
new-IsHeld = record { owned = λ fd. omega arith; safe = tt }

if-IsHeld : (b : Bool) (x y : Watchdog) → IsHeld x → IsHeld y → IsHeld (if b then x else y)
if-IsHeld true x y hx hy = hx
if-IsHeld false x y hx hy = hy

result-IsHeld :
    (b : Bool) (x y : Bool × Watchdog) → IsHeld x.1 → IsHeld y.1 → IsHeld (if b then x else y).1
result-IsHeld true x y hx hy = hx
result-IsHeld false x y hx hy = hy

holders-add :
    (fd : ℕ) (c : DeviceConfig) (ds : List WatchdogDevice)
    → holders fd (ds ++ record { config = c; file_descriptor = none } ∷ []) ≡ holders fd ds
holders-add fd c [] = omega arith
holders-add fd c (d ∷ ds) = omega (arith, holders-add fd c ds)

configure_device-IsHeld :
    (c : DeviceConfig) (cycle : ℕ) (w : Watchdog) → IsHeld w → IsHeld (configure_device c cycle w).1
unfolding configure_device
configure_device-IsHeld c cycle w h = record {
  owned = λ fd. ground (arith, h.owned fd, holders-add fd c w.devices);
  safe = ground (arith, h.safe);
}

configure_devices-IsHeld :
    (cs : List DeviceConfig) (cycle : ℕ) (result : Bool) (w : Watchdog)
    → IsHeld w
    → IsHeld (configure_devices cs cycle result w).1
unfolding configure_devices
configure_devices-IsHeld [] cycle result w h = h
configure_devices-IsHeld (c ∷ cs) cycle result w h =
    configure_devices-IsHeld cs cycle (result && (configure_device c cycle w).0)
      (configure_device c cycle w).1 (configure_device-IsHeld c cycle w h)

module _ (os : Os) (posix : IsPosix os) where
  pub enable-IsHeld : (w : Watchdog) → IsHeld w → IsHeld (enable os w).1
  unfolding enable
  enable-IsHeld w h =
      let r = enable_devices-AllHeld os posix (λ fd. 0) w.devices true w.state w.calls h in
      result-IsHeld (is_idle w.state) _ _ (record { owned = r.owned; safe = r.safe }) h

  pub step-IsHeld : (o : Operation) (w : Watchdog) → IsHeld w → IsHeld (step os o w)
  unfolding step init enable disable service_watchdog fire_watchdog_reaction
  step-IsHeld (init_operation cycle none) w h = h
  step-IsHeld (init_operation cycle (some cs)) w h = configure_devices-IsHeld cs cycle true w h
  step-IsHeld enable_operation w h = enable-IsHeld w h
  step-IsHeld disable_operation w h =
      let r = disable_devices-AllHeld (λ fd. 0) w.devices true w.calls h in
      if-IsHeld (is_activated w.state) _ _ (record { owned = r.owned; safe = r.safe }) h
  step-IsHeld service_operation w h =
      let r = service_devices-AllHeld (λ fd. 0) w.devices w.calls h in
      if-IsHeld (is_activated w.state) _ _ (record { owned = r.owned; safe = r.safe }) h
  step-IsHeld fire_operation w h =
      let r = fire_devices-AllHeld os (λ fd. 0) w.devices w.calls h in
      if-IsHeld (is_activated w.state) _ _ (record { owned = r.owned; safe = r.safe }) h

  run-IsHeld : (ops : List Operation) (w : Watchdog) → IsHeld w → IsHeld (run os ops w)
  unfolding run
  run-IsHeld [] w h = h
  run-IsHeld (o ∷ ops) w h = run-IsHeld ops (step os o w) (step-IsHeld o w h)

  -- Whatever is called on a new watchdog, in any order and with any failures of the operating system,
  -- no request and no close is made on a descriptor that is not open; in the end each descriptor that
  -- a device holds is open, and no two devices hold the same. `open` has to answer with a descriptor
  -- that is not open.
  pub run-IsSafe :
      (ops : List Operation)
      → let w = run os ops new_watchdog in
        IsSafe w.calls × ((fd : ℕ) → holders fd w.devices ≤ count (is_open fd w.calls))
  run-IsSafe ops =
      let h = run-IsHeld ops new_watchdog new-IsHeld in (h.safe, λ fd. omega (arith, h.owned fd))
