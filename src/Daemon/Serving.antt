-- ===== src/Daemon/Serving.antt =====
-- How often the daemon tells the watchdog devices to stay quiet.
use inc_lifecycle.Base.{
  ℕ, suc, ◌+◌, ◌*◌, ◌≡◌, ◌≢◌, refl, sym, ap, subst, ◌∙◌, Bool, true, false, not, ◌||◌, Option, none,
  some, List, [], ◌∷◌, ◌++◌, map, any, arith, if◌then◌else◌, All, Bool-cases, inl, inr,
}
use inc_lifecycle.ProcessReader.{distribute_changes}
use inc_lifecycle.Watchdog
use inc_lifecycle.Watchdog.{
  DeviceConfig, WatchdogDevice, Watchdog, idle, activated, LibState, new_watchdog, service_watchdog,
  fire_watchdog_reaction, fire_devices, init_operation,
}
use inc_lifecycle.Watchdog.Calls.{Call, used, set_timeout, Os, IsPosix}
use inc_lifecycle.Watchdog.Holding.{holders}
use inc_lifecycle.Watchdog.Descriptors.{IsHeld, new-IsHeld, step-IsHeld, enable-IsHeld}
use inc_lifecycle.Watchdog.Setup.{closed_device, init-IsAcceptable}
use inc_lifecycle.Watchdog.Service.{
  keep_alives, keep_alives-services, IsEnabled, enabled_holds, enable_succeeded, one_holder,
}
use inc_lifecycle.Daemon.{
  Handler, Daemon, Cycle, no_error, sync_timestamp, init, react, perform_cyclic_triggers,
  perform_cycles,
}

module _ (os : Os) where
  keep_alives-fire_devices :
      (fd : ℕ) (ds : List WatchdogDevice) (calls : List Call)
      → keep_alives fd (fire_devices os ds calls) ≡ keep_alives fd calls
  unfolding fire_devices
  keep_alives-fire_devices fd [] calls = refl
  keep_alives-fire_devices fd (d ∷ ds) calls =
      let calls1 : List Call = elim d.file_descriptor [
        | none ↦ calls
        | some n ↦ used n (set_timeout 0) ∷ calls
      ] in
      keep_alives-fire_devices fd ds calls1 ∙ ground arith

  -- What a watchdog does in a cycle, by whether it is critical.
  react_critical :
      (fd : ℕ) (w : Watchdog)
      → w.state ≡ activated
      → ((react os true w).state ≡ LibState.react)
        × (keep_alives fd (react os true w).calls ≡ keep_alives fd w.calls)
  unfolding react fire_watchdog_reaction
  react_critical fd w s = ground (arith, keep_alives-fire_devices fd w.devices w.calls)

  react_over : (critical : Bool) (w : Watchdog) → w.state ≡ LibState.react → react os critical w ≡ w
  unfolding react fire_watchdog_reaction service_watchdog
  react_over true w s = ground arith
  react_over false w s = ground arith

  react_healthy :
      (fd : ℕ) (w : Watchdog)
      → w.state ≡ activated
      → ((react os false w).state ≡ activated)
        × ((react os false w).devices ≡ w.devices)
        × (keep_alives fd (react os false w).calls ≡ holders fd w.devices + keep_alives fd w.calls)
  unfolding react service_watchdog
  react_healthy fd w s = ground (arith, keep_alives-services fd 1 w s)

  module _ {H E : Type 0} (handler : Handler H E) where
    -- The receiver fails in this cycle, or a recovery notification has timed out by its end.
    abbrev pub is_critical : Cycle E → Daemon H → Bool
    is_critical c d =
        not
          (distribute_changes (sync_timestamp c.clock) (d.receiver ++ c.arrivals)
            (record d.reader { pushed = [] })).0
        || any handler.has_recovery_notification_timeout
            (perform_cyclic_triggers os handler c d).handlers

    -- The cycles before the first that is critical.
    abbrev pub healthy_cycles : List (Cycle E) → Daemon H → ℕ
    healthy_cycles [] d = 0
    healthy_cycles (c ∷ cs) d =
        let rest = healthy_cycles cs (perform_cyclic_triggers os handler c d) in
        if is_critical c d then 0 else suc rest

    cycle-watchdog :
        (c : Cycle E) (d : Daemon H)
        → (perform_cyclic_triggers os handler c d).watchdog ≡ react os (is_critical c d) d.watchdog
    unfolding perform_cyclic_triggers
    cycle-watchdog c d = refl

    cycles_over :
        (cs : List (Cycle E)) (d : Daemon H)
        → d.watchdog.state ≡ LibState.react
        → (perform_cycles os handler cs d).watchdog ≡ d.watchdog
    unfolding perform_cycles
    cycles_over [] d s = refl
    cycles_over (c ∷ cs) d s =
        let same = cycle-watchdog c d ∙ react_over (is_critical c d) d.watchdog s in
        cycles_over cs (perform_cyclic_triggers os handler c d)
          (ap (λ (w : Watchdog). w.state) same ∙ s)
        ∙ same

    -- Once in each healthy cycle, and never after the first critical one.
    keep_alives-perform_cycles :
        (fd : ℕ) (cs : List (Cycle E)) (d : Daemon H)
        → d.watchdog.state ≡ activated
        → keep_alives fd (perform_cycles os handler cs d).watchdog.calls
          ≡ healthy_cycles cs d * holders fd d.watchdog.devices + keep_alives fd d.watchdog.calls
    unfolding perform_cycles
    keep_alives-perform_cycles fd [] d s = omega arith
    keep_alives-perform_cycles fd (c ∷ cs) d s =
        let d1 = perform_cyclic_triggers os handler c d in
        let w1 = cycle-watchdog c d in
        elim (Bool-cases (is_critical c d)) [
          | inl e ↦
              let now = react_critical fd d.watchdog s in
              let same : d1.watchdog ≡ react os true d.watchdog =
                w1 ∙ ap (λ b. react os b d.watchdog) e in
              let over = cycles_over cs d1 (ap (λ (w : Watchdog). w.state) same ∙ now.0) in
              ap (λ (w : Watchdog). keep_alives fd w.calls) (over ∙ same)
              ∙ now.1
              ∙ rw e (omega arith)
          | inr e ↦
              let now = react_healthy fd d.watchdog s in
              let same : d1.watchdog ≡ react os false d.watchdog =
                w1 ∙ ap (λ b. react os b d.watchdog) e in
              let rest =
                keep_alives-perform_cycles fd cs d1 (ap (λ (w : Watchdog). w.state) same ∙ now.0) in
              rest ∙ rw (e, same, now.1, now.2) (omega arith)
        ]

-- What a start-up without an error has done to the watchdog.
init-no_error :
    (os : Os) (configured constructed timed : Bool) (cycle : ℕ)
    (devices : Option (List DeviceConfig)) (w w' : Watchdog)
    → init os configured constructed timed cycle devices w ≡ (no_error, w')
    → ((Watchdog.init cycle devices w).0 ≡ true)
      × (Watchdog.enable os (Watchdog.init cycle devices w).1 ≡ (true, w'))
unfolding init
init-no_error os configured constructed timed cycle devices w w' h = ground arith

-- The devices that a new watchdog has taken over.
init_taken :
    (cycle : ℕ) (configs : List DeviceConfig)
    → (Watchdog.init cycle (some configs) new_watchdog).0 ≡ true
    → (Watchdog.init cycle (some configs) new_watchdog).1
      ≡ record new_watchdog { devices = map closed_device configs }
init_taken cycle configs h = elim (init-IsAcceptable cycle configs) [
  | inl (acceptable, e) ↦ ap (λ (r : Bool × Watchdog). r.1) e
  | inr (unacceptable, e) ↦ cc
]

cons-ne-nil {ℓ} : {A : Type ℓ} (x : A) (xs : List A) → x ∷ xs ≢ []
cons-ne-nil x xs e = cc

taken-IsHeld :
    (os : Os) (posix : IsPosix os) (cycle : ℕ) (configs : List DeviceConfig)
    → IsHeld (Watchdog.init cycle (some configs) new_watchdog).1
unfolding Watchdog.step
taken-IsHeld os posix cycle configs =
    step-IsHeld os posix (init_operation cycle (some configs)) new_watchdog new-IsHeld

module _ (os : Os) (posix : IsPosix os) {H E : Type 0} (handler : Handler H E) where
  -- A daemon whose start-up succeeded with at least one device tells each device to stay alive exactly
  -- once in every cycle before the first critical one, and never again after that: a cycle is
  -- critical if the receiver of the process states fails in it, or a recovery notification has timed
  -- out by its end. Each device is open, has its timeout confirmed by the driver and its card
  -- enabled. `open` has to answer with a descriptor that is not open.
  pub init-perform_cycles :
      (configured constructed timed : Bool) (cycle : ℕ) (c : DeviceConfig) (cs : List DeviceConfig)
      (d : Daemon H) (cycles : List (Cycle E))
      → init os configured constructed timed cycle (some (c ∷ cs)) new_watchdog
        ≡ (no_error, d.watchdog)
      → All (IsEnabled os) d.watchdog.devices
        × All
            (λ (device : WatchdogDevice).
              (fd : ℕ) × (device.file_descriptor ≡ some fd)
              × (keep_alives fd (perform_cycles os handler cycles d).watchdog.calls
                  ≡ healthy_cycles os handler cycles d + keep_alives fd d.watchdog.calls))
            d.watchdog.devices
  init-perform_cycles configured constructed timed cycle c cs d cycles h =
      let configs = c ∷ cs in
      let w1 = (Watchdog.init cycle (some configs) new_watchdog).1 in
      let n =
        init-no_error os configured constructed timed cycle (some configs) new_watchdog d.watchdog
          h in
      let taken = init_taken cycle configs n.0 in
      let same = ap (λ (r : Bool × Watchdog). r.1) n.1 in
      let e =
        enable_succeeded os w1 (ap (λ (w : Watchdog). w.state) taken)
          (λ none_left. cons-ne-nil _ _ (sym (ap (λ (w : Watchdog). w.devices) taken) ∙ none_left))
          (ap (λ (r : Bool × Watchdog). r.0) n.1) in
      let held =
        subst IsHeld same (enable-IsHeld os posix w1 (taken-IsHeld os posix cycle configs)) in
      let enabled = subst (λ (w : Watchdog). All (IsEnabled os) w.devices) same e.0 in
      let started = sym (ap (λ (w : Watchdog). w.state) same) ∙ e.1 in
      (
        enabled,
        enabled_holds os (λ fd. 0) _ d.watchdog.devices
            (λ fd l. omega (
              arith,
              ap (λ (x : ℕ). healthy_cycles os handler cycles d * x)
                  (one_holder _ _ (held.owned fd) l),
              keep_alives-perform_cycles os handler fd cycles d started,
            ))
            enabled,
      )
