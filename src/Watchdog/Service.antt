-- ===== src/Watchdog/Service.antt =====
-- Enabling the devices, keeping them alive, and what a shutdown leaves.
use inc_lifecycle.Base.{
  ℕ, zero, suc, ◌+◌, ◌*◌, ◌≤◌, ◌≡◌, ◌≢◌, refl, sym, subst, ◌∙◌, ap, Bool, true, false, ◌&&◌, none,
  some, List, [], ◌∷◌, arith, ◌==◌, if◌then◌else◌, All, ◌⊎◌, inl, inr, Bool-cases, Option-cases,
}
use Prim.Native.Nat.{◌/◌}
use inc_lifecycle.Watchdog.Calls.{
  Call, opened, used, closed, Request, get_timeout, get_time_left, keep_alive, Os, IsPosix,
}
use inc_lifecycle.Watchdog.{
  DeviceConfig, WatchdogDevice, Watchdog, LibState, idle, activated, update_timeout, enable_opened,
  enable_device, enable_devices, enable, service_devices, service_watchdog,
}
use inc_lifecycle.Watchdog.Holding.{eq_self, holds, holders, count}
use inc_lifecycle.Watchdog.Descriptors.{IsHeld, enable-IsHeld}

module _ (os : Os) where
  -- The driver has confirmed the timeout, as the one that it had or as the one that was set.
  abbrev pub IsConfirmed : DeviceConfig → ℕ → Type 0
  IsConfirmed c fd =
      (calls : List Call) × (s : ℕ) × ((os.timeout_answer fd calls ≡ some s)
        ⊎ (os.set_timeout_answer fd (c.timeout_max / 1_000) calls ≡ some s))
      × (s ≡ c.timeout_max / 1_000)

  abbrev pub IsEnabled : WatchdogDevice → Type 0
  IsEnabled d =
      (fd : ℕ) × (d.file_descriptor ≡ some fd)
      × IsConfirmed d.config fd
      × ((calls : List Call) × (os.enable_answer fd calls ≡ true))

  ==→eq : (a b : ℕ) → (a == b) ≡ true → a ≡ b
  ==→eq a b h = ground arith

  update_timeout-IsConfirmed :
      (c : DeviceConfig) (fd s : ℕ) (calls before : List Call)
      → os.timeout_answer fd before ≡ some s
      → (update_timeout os c fd (s * 1_000) calls).0 ≡ true
      → IsConfirmed c fd
  unfolding update_timeout
  update_timeout-IsConfirmed c fd s calls before e h =
      elim (Bool-cases (s * 1_000 == c.timeout_max)) [
        | inl same ↦ (before, s, inl e, omega (arith, ==→eq _ _ same))
        | inr other ↦
            (used fd get_time_left ∷ calls, c.timeout_max / 1_000, inr (ground arith), refl)
      ]

  enable_opened-IsConfirmed :
      (c : DeviceConfig) (fd : ℕ) (calls : List Call)
      → (enable_opened os c fd calls).0 ≡ true
      → IsConfirmed c fd × ((calls' : List Call) × (os.enable_answer fd calls' ≡ true))
  unfolding enable_opened
  enable_opened-IsConfirmed c fd calls h = elim (Option-cases (os.timeout_answer fd calls)) [
    | inl failed ↦ ground arith
    | inr (s, e) ↦
        let r = update_timeout os c fd (s * 1_000) (used fd get_timeout ∷ calls) in
        (
          update_timeout-IsConfirmed c fd s (used fd get_timeout ∷ calls) calls e (ground arith),
          (r.1, ground arith),
        )
  ]

  -- A device keeps its configuration, and holds what `open` answered.
  enable_device-device :
      (d : WatchdogDevice) (calls : List Call)
      → (enable_device os d calls).1
        ≡ record d { file_descriptor = os.open_answer d.config.file_name calls }
  unfolding enable_device
  enable_device-device d calls = ground arith

  enable_device-IsEnabled :
      (d : WatchdogDevice) (calls : List Call)
      → (enable_device os d calls).0 ≡ true
      → IsEnabled (enable_device os d calls).1
  unfolding enable_device
  enable_device-IsEnabled d calls h =
      elim (Option-cases (os.open_answer d.config.file_name calls)) [
        | inl failed ↦ ground arith
        | inr (fd, e) ↦
            let calls1 =
              opened d.config.file_name (os.open_answer d.config.file_name calls) ∷ calls in
            let c = enable_opened-IsConfirmed d.config fd calls1 (ground arith) in
            subst IsEnabled (sym (enable_device-device d calls)) (fd, e, c.0, c.1)
      ]

  enable_devices_failed :
      (ds : List WatchdogDevice) (s : LibState) (calls : List Call)
      → (enable_devices os ds false s calls).0 ≡ false
  unfolding enable_devices
  enable_devices_failed [] s calls = refl
  enable_devices_failed (d ∷ ds) s calls =
      let r = enable_device os d calls in
      enable_devices_failed ds (if r.0 then activated else s) r.2

  enable_devices_activated :
      (ds : List WatchdogDevice) (result : Bool) (calls : List Call)
      → (enable_devices os ds result activated calls).1 ≡ activated
  unfolding enable_devices
  enable_devices_activated [] result calls = refl
  enable_devices_activated (d ∷ ds) result calls = elim (Bool-cases (enable_device os d calls).0) [
    | inl e ↦
        rw (e, enable_devices)
          (enable_devices_activated ds (result && true) (enable_device os d calls).2)
    | inr e ↦
        rw (e, enable_devices)
          (enable_devices_activated ds (result && false) (enable_device os d calls).2)
  ]

  enable_devices-IsEnabled :
      (ds : List WatchdogDevice) (s : LibState) (calls : List Call)
      → (enable_devices os ds true s calls).0 ≡ true
      → All IsEnabled (enable_devices os ds true s calls).2
  unfolding enable_devices
  enable_devices-IsEnabled [] s calls h = tt
  enable_devices-IsEnabled (d ∷ ds) s calls h =
      let r = enable_device os d calls in
      elim (Bool-cases r.0) [
        | inl e ↦ (
          enable_device-IsEnabled d calls e,
          rw (e, enable_devices)
              (enable_devices-IsEnabled ds activated r.2 (rw (e, enable_devices) at h)),
        )
        | inr e ↦ absurd (ground (arith, enable_devices_failed ds s r.2))
      ]

  -- One success is enough for the state.
  enable_devices_started :
      (ds : List WatchdogDevice) (s : LibState) (calls : List Call)
      → ds ≢ []
      → (enable_devices os ds true s calls).0 ≡ true
      → (enable_devices os ds true s calls).1 ≡ activated
  unfolding enable_devices
  enable_devices_started [] s calls n h = absurd (n refl)
  enable_devices_started (d ∷ ds) s calls n h =
      let r = enable_device os d calls in
      ground (arith, enable_devices_failed ds s r.2, enable_devices_activated ds true r.2)

abbrev pub is_keep_alive : Request → Bool
is_keep_alive keep_alive = true
is_keep_alive _ = false

-- How often the device behind a descriptor was told to stay quiet.
abbrev pub keep_alives : ℕ → List Call → ℕ
keep_alives fd [] = 0
keep_alives fd (used n request ∷ calls) =
    count (n == fd && is_keep_alive request) + keep_alives fd calls
keep_alives fd (opened name o ∷ calls) = keep_alives fd calls
keep_alives fd (closed n ∷ calls) = keep_alives fd calls

-- That many calls of the service in a row.
abbrev pub services : ℕ → Watchdog → Watchdog
services zero w = w
services (suc n) w = service_watchdog (services n w)

keep_alives-service_devices :
    (fd : ℕ) (ds : List WatchdogDevice) (calls : List Call)
    → keep_alives fd (service_devices ds calls) ≡ holders fd ds + keep_alives fd calls
unfolding service_devices
keep_alives-service_devices fd [] calls = omega arith
keep_alives-service_devices fd (d ∷ ds) calls =
    let calls1 : List Call = elim d.file_descriptor [
      | none ↦ calls
      | some n ↦ used n keep_alive ∷ calls
    ] in
    keep_alives-service_devices fd ds calls1 ∙ ground arith

services_kept :
    (n : ℕ) (w : Watchdog) → ((services n w).devices ≡ w.devices) × ((services n w).state ≡ w.state)
unfolding service_watchdog
services_kept zero w = (refl, refl)
services_kept (suc n) w = ground (arith, services_kept n w)

pub keep_alives-services :
    (fd n : ℕ) (w : Watchdog)
    → w.state ≡ activated
    → keep_alives fd (services n w).calls ≡ n * holders fd w.devices + keep_alives fd w.calls
unfolding service_watchdog
keep_alives-services fd zero w s = omega arith
keep_alives-services fd (suc n) w s =
    let k = services_kept n w in
    let now = keep_alives-service_devices fd (services n w).devices (services n w).calls in
    grind (arith, now, k, keep_alives-services fd n w s)

pub one_holder : (x : ℕ) (b : Bool) → 0 + x ≤ count b → 1 ≤ 0 + x → x ≡ 1
one_holder x b h l = ground arith

module _ (os : Os) where
  -- Each device of a list that is enabled holds a descriptor, which thus has a holder.
  pub enabled_holds :
      (others : ℕ → ℕ) (P : ℕ → Type 0) (ds : List WatchdogDevice)
      → ((fd : ℕ) → 1 ≤ others fd + holders fd ds → P fd)
      → All (IsEnabled os) ds
      → All (λ (d : WatchdogDevice). (fd : ℕ) × (d.file_descriptor ≡ some fd) × P fd) ds
  enabled_holds others P [] h e = tt
  enabled_holds others P (d ∷ ds) h ((fd, held, confirmed, enabled), es) = (
    (fd, held, h fd (ground (arith, eq_self fd))),
    enabled_holds (λ x. others x + holds x d.file_descriptor) P ds (λ x l. h x (omega arith)) es,
  )

  -- What `enable` does to an idle watchdog that has devices, where it succeeds.
  pub enable_succeeded :
      (w : Watchdog)
      → w.state ≡ idle
      → w.devices ≢ []
      → (enable os w).0 ≡ true
      → All (IsEnabled os) (enable os w).1.devices × ((enable os w).1.state ≡ activated)
  unfolding enable
  enable_succeeded w s n h = (
    rw (s, enable) (enable_devices-IsEnabled os w.devices idle w.calls (rw (s, enable) at h)),
    rw (s, enable) (enable_devices_started os w.devices idle w.calls n (rw (s, enable) at h)),
  )

  -- An idle watchdog with devices whose `enable` returns true has every device open, its timeout
  -- confirmed by the driver and its card enabled; and each time that the watchdog is serviced then, every
  -- device is told to stay alive exactly once. `open` has to answer with a descriptor that is not
  -- open, and the watchdog to come from a new one by its operations, or hold its descriptors as such a
  -- one does.
  pub enable-services :
      (posix : IsPosix os) (w : Watchdog) (n : ℕ)
      → IsHeld w
      → w.state ≡ idle
      → w.devices ≢ []
      → (enable os w).0 ≡ true
      → let w' = (enable os w).1 in
        All (IsEnabled os) w'.devices
        × All
            (λ (d : WatchdogDevice).
              (fd : ℕ) × (d.file_descriptor ≡ some fd)
              × (keep_alives fd (services n w').calls ≡ n + keep_alives fd w'.calls))
            w'.devices
  enable-services posix w n held s ne h =
      let e = enable_succeeded w s ne h in
      let w' = (enable os w).1 in
      let k = enable-IsHeld os posix w held in
      (
        e.0,
        enabled_holds (λ fd. 0) _ w'.devices
            (λ fd l. omega (
              arith,
              ap (λ (x : ℕ). n * x) (one_holder _ _ (k.owned fd) l),
              keep_alives-services fd n w' e.1,
            ))
            e.0,
      )
