-- ===== src/Watchdog/Setup.antt =====
-- Which configurations `init` takes over.
use inc_lifecycle.Base.{
  ℕ, ◌+◌, ◌*◌, ◌%◌, ◌≤◌, ◌<◌, ◌≡◌, ◌≢◌, ◌⊎◌, refl, ap, ◌∙◌, Bool, true, false, ◌||◌, some, none,
  List, [], ◌∷◌, ◌++◌, map, arith, ◌==◌, All, Bool-cases, inl, inr,
}
use mathlib.Core.List.{append_assoc, append-nil}
use inc_lifecycle.Watchdog.{
  DeviceConfig, WatchdogDevice, Watchdog, idle, new_watchdog, device_already_configured,
  is_valid_device_config, configure_device, configure_devices, init,
}

abbrev pub closed_device : DeviceConfig → WatchdogDevice
closed_device c = record { config = c; file_descriptor = none }

-- The timeout is a number of seconds from 1 to 30, and the cycle is less than 1 ms longer at most.
abbrev pub IsAcceptable : ℕ → DeviceConfig → Type 0
IsAcceptable cycle c =
    (1_000 ≤ c.timeout_max)
    × (c.timeout_max ≤ 30_000)
    × (c.timeout_max % 1_000 ≡ 0)
    × (cycle < (c.timeout_max + 1) * 1_000_000)

-- No other device has this file.
abbrev pub HasOwnFile : DeviceConfig → List DeviceConfig → Type 0
HasOwnFile c cs = All (λ (other : DeviceConfig). c.file_name ≢ other.file_name) cs

abbrev pub HaveOwnFiles : List DeviceConfig → Type 0
HaveOwnFiles [] = Unit
HaveOwnFiles (c ∷ cs) = HasOwnFile c cs × HaveOwnFiles cs

abbrev IsNew : List WatchdogDevice → DeviceConfig → Type 0
IsNew ds c = device_already_configured c ds ≡ false

is_valid-IsAcceptable :
    (c : DeviceConfig) (cycle : ℕ) (ds : List WatchdogDevice)
    → is_valid_device_config c cycle ds ≡ true
    → IsNew ds c × IsAcceptable cycle c
unfolding is_valid_device_config
is_valid-IsAcceptable c cycle ds h = ground arith

IsAcceptable-is_valid :
    (c : DeviceConfig) (cycle : ℕ) (ds : List WatchdogDevice)
    → IsNew ds c
    → IsAcceptable cycle c
    → is_valid_device_config c cycle ds ≡ true
unfolding is_valid_device_config
IsAcceptable-is_valid c cycle ds n h = ground arith

already-add :
    (c other : DeviceConfig) (ds : List WatchdogDevice)
    → device_already_configured other (ds ++ closed_device c ∷ [])
      ≡ (device_already_configured other ds || c.file_name == other.file_name)
unfolding device_already_configured
already-add c other [] = ground arith
already-add c other (d ∷ ds) = ground (arith, already-add c other ds)

IsNew-add :
    (c other : DeviceConfig) (ds : List WatchdogDevice)
    → IsNew (ds ++ closed_device c ∷ []) other
    → IsNew ds other × (c.file_name ≢ other.file_name)
IsNew-add c other ds h = ground (arith, already-add c other ds)

add-IsNew :
    (c other : DeviceConfig) (ds : List WatchdogDevice)
    → IsNew ds other
    → c.file_name ≢ other.file_name
    → IsNew (ds ++ closed_device c ∷ []) other
add-IsNew c other ds n h = ground (arith, already-add c other ds)

split-IsNew :
    (c : DeviceConfig) (ds : List WatchdogDevice) (cs : List DeviceConfig)
    → All (IsNew (ds ++ closed_device c ∷ [])) cs
    → All (IsNew ds) cs × HasOwnFile c cs
split-IsNew c ds [] h = (tt, tt)
split-IsNew c ds (x ∷ cs) h =
    let now = IsNew-add c x ds h.0 in
    let rest = split-IsNew c ds cs h.1 in ((now.0, rest.0), (now.1, rest.1))

join-IsNew :
    (c : DeviceConfig) (ds : List WatchdogDevice) (cs : List DeviceConfig)
    → All (IsNew ds) cs
    → HasOwnFile c cs
    → All (IsNew (ds ++ closed_device c ∷ [])) cs
join-IsNew c ds [] h k = tt
join-IsNew c ds (x ∷ cs) h k = (add-IsNew c x ds h.0 k.0, join-IsNew c ds cs h.1 k.1)

-- What the loop of `init` takes over, from a watchdog that is idle.
abbrev IsTaken : ℕ → List WatchdogDevice → List DeviceConfig → Type 0
IsTaken cycle ds cs = All (IsAcceptable cycle) cs × HaveOwnFiles cs × All (IsNew ds) cs

add_device : DeviceConfig → Watchdog → Watchdog
add_device c w = record w { devices = w.devices ++ closed_device c ∷ [] }

configure_device_valid :
    (c : DeviceConfig) (cycle : ℕ) (w : Watchdog)
    → w.state ≡ idle
    → is_valid_device_config c cycle w.devices ≡ true
    → configure_device c cycle w ≡ (true, add_device c w)
unfolding configure_device add_device
configure_device_valid c cycle w s v = ground arith

configure_device_invalid :
    (c : DeviceConfig) (cycle : ℕ) (w : Watchdog)
    → is_valid_device_config c cycle w.devices ≡ false
    → configure_device c cycle w ≡ (false, w)
unfolding configure_device
configure_device_invalid c cycle w v = ground arith

configure_devices_failed :
    (cs : List DeviceConfig) (cycle : ℕ) (w : Watchdog)
    → (configure_devices cs cycle false w).0 ≡ false
unfolding configure_devices
configure_devices_failed [] cycle w = refl
configure_devices_failed (c ∷ cs) cycle w =
    configure_devices_failed cs cycle (configure_device c cycle w).1

configure_devices-IsTaken :
    (cs : List DeviceConfig) (cycle : ℕ) (w : Watchdog)
    → w.state ≡ idle
    → (configure_devices cs cycle true w).0 ≡ true
    → IsTaken cycle w.devices cs
unfolding configure_devices add_device
configure_devices-IsTaken [] cycle w s h = (tt, tt, tt)
configure_devices-IsTaken (c ∷ cs) cycle w s h =
    elim (Bool-cases (is_valid_device_config c cycle w.devices)) [
      | inl v ↦
          let now = is_valid-IsAcceptable c cycle w.devices v in
          let rest =
            configure_devices-IsTaken cs cycle (add_device c w) s
              (rw (configure_device_valid c cycle w s v, configure_devices) at h) in
          let new = split-IsNew c w.devices cs rest.2 in
          ((now.1, rest.0), (new.1, rest.1), (now.0, new.0))
      | inr v ↦
          ground (arith, configure_device_invalid c cycle w v, configure_devices_failed cs cycle w)
    ]

IsTaken-configure_devices :
    (cs : List DeviceConfig) (cycle : ℕ) (w : Watchdog)
    → w.state ≡ idle
    → IsTaken cycle w.devices cs
    → configure_devices cs cycle true w
      ≡ (true, record w { devices = w.devices ++ map closed_device cs })
unfolding configure_devices add_device
IsTaken-configure_devices [] cycle w s t = rw append-nil refl
IsTaken-configure_devices (c ∷ cs) cycle w s t =
    let v = IsAcceptable-is_valid c cycle w.devices t.2.0 t.0.0 in
    let rest =
      IsTaken-configure_devices cs cycle (add_device c w) s
        (t.0.1, t.1.1, join-IsNew c w.devices cs t.2.1 t.1.0) in
    rw (configure_device_valid c cycle w s v)
      (rest ∙ rw (append_assoc w.devices (closed_device c ∷ []) (map closed_device cs)) refl)

none-IsNew : (cs : List DeviceConfig) → All (IsNew []) cs
unfolding device_already_configured
none-IsNew [] = tt
none-IsNew (c ∷ cs) = (refl, none-IsNew cs)

init-IsTaken :
    (cycle : ℕ) (cs : List DeviceConfig)
    → (init cycle (some cs) new_watchdog).0 ≡ true
    → All (IsAcceptable cycle) cs × HaveOwnFiles cs
unfolding init
init-IsTaken cycle cs h =
    let t = configure_devices-IsTaken cs cycle new_watchdog refl h in (t.0, t.1)

IsTaken-init :
    (cycle : ℕ) (cs : List DeviceConfig)
    → All (IsAcceptable cycle) cs × HaveOwnFiles cs
    → init cycle (some cs) new_watchdog
      ≡ (true, record new_watchdog { devices = map closed_device cs })
unfolding init
IsTaken-init cycle cs t =
    IsTaken-configure_devices cs cycle new_watchdog refl (t.0, t.1, none-IsNew cs)

-- A new watchdog takes over a list of configurations, its devices being those of the list in its
-- order, not open, with nothing called, and `init` says so, if each of them has a timeout of 1 to 30
-- whole seconds, the cycle time is less than 1 ms beyond each timeout at most, and no two of them
-- name the same file. Otherwise `init` fails.
pub init-IsAcceptable :
    (cycle : ℕ) (cs : List DeviceConfig)
    → ((All (IsAcceptable cycle) cs × HaveOwnFiles cs)
        × (init cycle (some cs) new_watchdog
            ≡ (true, record new_watchdog { devices = map closed_device cs })))
      ⊎ ((¬ (All (IsAcceptable cycle) cs × HaveOwnFiles cs))
          × ((init cycle (some cs) new_watchdog).0 ≡ false))
init-IsAcceptable cycle cs = elim (Bool-cases (init cycle (some cs) new_watchdog).0) [
  | inl e ↦ inl (init-IsTaken cycle cs e, IsTaken-init cycle cs (init-IsTaken cycle cs e))
  | inr e ↦ inr ((λ t. cc (e, ap (λ (r : Bool × Watchdog). r.0) (IsTaken-init cycle cs t))), e)
]
