-- ===== src/Examples/Health.antt =====
-- The cycle of the health monitor on small inputs: each theorem with hypotheses, applied where they
-- hold.
use inc_lifecycle.Base.{ℕ, ◌+◌, ◌≤◌, ◌≡◌, refl, inl, true, false, some, List, [], ◌∷◌, All}
use inc_lifecycle.Tracker.{ProcState}
use inc_lifecycle.Monitor.{LocalStatus, GlobalStatus}
use inc_lifecycle.Checkpoint.{Status, SupervisionType, ProcessData}
use inc_lifecycle.Notification.{Notification, Future, State}
use inc_lifecycle.Local.{create_local}
use inc_lifecycle.Global.{create_global}
use inc_lifecycle.Cluster.{Chain}
use inc_lifecycle.Group.{ProcessState}
use inc_lifecycle.ProcessReader.{Answer, changed, Reader, new_reader}
use inc_lifecycle.MonitorInterface.{
  Checkpoint, InterfaceState, Element, reported, MonitorInterface, Input, process_input,
  cycle_input, run,
}
use inc_lifecycle.MonitorInterface.Overflow.{HaveLost, restarts, due, run_lost}
use inc_lifecycle.Watchdog.{Watchdog, WatchdogDevice, LibState, new_watchdog}
use inc_lifecycle.Watchdog
use inc_lifecycle.Watchdog.Holding.{holders}
use inc_lifecycle.Watchdog.Service.{keep_alives, IsEnabled}
use inc_lifecycle.Daemon.{Daemon, Cycle, init, perform_cyclic_triggers, perform_cycles}
use inc_lifecycle.Daemon.Serving.{healthy_cycles, init-perform_cycles}
use inc_lifecycle.Daemon.Reaction.{ChainInputs, chain_handler, zero_timeouts, expired_report-fires}
use inc_lifecycle.Examples.Watchdogs.{os_without, os_without-IsPosix, seconds_2, nowayout}

abbrev change_at : ℕ → Answer
change_at t = changed (record {
  id = 5;
  process_state_id = ProcessState.running;
  process_group_state_id = 9;
  system_clock_timestamp = record { tv_sec = 0; tv_nsec = t };
})

abbrev reader : Reader
reader = record new_reader {
  processes =
      (
        5,
        record {
          process_id = 5;
          process_execution_errors = (9, 40) ∷ [];
          process_group_state = 0;
          proc_state = ProcState.idle;
          timestamp = 0;
        },
      )
      ∷ [];
}

abbrev checkpoint : ℕ → Checkpoint
checkpoint id = record {
  identifier = id;
  checkpoint_id = id;
  is_data_loss_event = false;
  timestamp = 0;
  pushed = [];
}

abbrev interface : MonitorInterface
interface = record {
  checkpoints = checkpoint 1 ∷ checkpoint 2 ∷ [];
  status = InterfaceState.inactive;
  is_activate_request = true;
  is_deactivate_request = false;
  is_process_restarted = false;
}

abbrev channel : List Element
channel = reported 1 5 true ∷ reported 2 6 true ∷ reported 1 30 true ∷ []

abbrev overflowed : MonitorInterface
overflowed = record interface { status = InterfaceState.inactive_overflow }

abbrev started : ProcessData
started = record {
  identifier = 5;
  proc_state = ProcState.starting;
  process_group_state = 9;
  timestamp = 8;
  execution_error = 1;
}

abbrev restart : List Input
restart =
    process_input (record started { proc_state = ProcState.off })
    ∷ process_input started
    ∷ cycle_input 20 false channel
    ∷ []

run_lost_example :
    ((run restart overflowed).status ≡ InterfaceState.inactive_overflow)
    × ((n : ℕ) × (n ≤ due overflowed + restarts false restart)
        × HaveLost n overflowed.checkpoints (run restart overflowed).checkpoints)
run_lost_example = run_lost restart overflowed refl

abbrev configured_watchdog : Watchdog
configured_watchdog =
    (init (os_without 0) true true true 50_000_000 (some (seconds_2 ∷ nowayout ∷ []))
      new_watchdog).1

abbrev notification : Notification
notification = record {
  current_state = State.idle;
  is_config_available = false;
  timeout_limit = 0;
  start_timestamp = 0;
  requests = 0;
}

abbrev chain : Chain
chain = record {
  local_id = 3;
  local = record (create_local 8) { status = LocalStatus.ok };
  global = record (create_global [] [] 8) {
    status = GlobalStatus.ok;
    notifications = notification ∷ [];
  };
}

abbrev daemon : Daemon Chain
daemon = record {
  receiver = [];
  reader = reader;
  handlers = chain ∷ [];
  watchdog = configured_watchdog;
}

abbrev quiet_cycle : Cycle ChainInputs
quiet_cycle = record {
  clock = 20;
  arrivals = [];
  inputs = record { reports = []; requested = 0; now = 0; future = Future.pending };
}

abbrev failing_cycle : Cycle ChainInputs
failing_cycle = record quiet_cycle {
  inputs = record {
    reports =
        (
          7,
          SupervisionType.alive,
          record { status = Status.expired; timestamp = 19; execution_error = 40 },
        )
        ∷ [];
    requested = 0;
    now = 0;
    future = Future.pending;
  };
}

abbrev cycles : List (Cycle ChainInputs)
cycles = quiet_cycle ∷ failing_cycle ∷ quiet_cycle ∷ []

init-perform_cycles_example :
    All (IsEnabled (os_without 0)) daemon.watchdog.devices
    × All
        (λ (device : WatchdogDevice).
          (fd : ℕ) × (device.file_descriptor ≡ some fd)
          × (keep_alives fd
                (perform_cycles (os_without 0) chain_handler cycles daemon).watchdog.calls
              ≡ healthy_cycles (os_without 0) chain_handler cycles daemon
                + keep_alives fd daemon.watchdog.calls))
        daemon.watchdog.devices
unfolding init Watchdog.init Watchdog.device_already_configured Watchdog.enable
    Watchdog.enable_devices Watchdog.enable_device
init-perform_cycles_example =
    init-perform_cycles (os_without 0) (os_without-IsPosix 0) chain_handler true true true
      50_000_000 seconds_2 (nowayout ∷ []) daemon cycles refl

expired_report-fires_example :
    let d' = perform_cyclic_triggers (os_without 0) chain_handler failing_cycle daemon in
    (d'.watchdog.state ≡ LibState.react)
    × (zero_timeouts 3 d'.watchdog.calls
        ≡ holders 3 daemon.watchdog.devices + zero_timeouts 3 daemon.watchdog.calls)
unfolding init Watchdog.init Watchdog.device_already_configured Watchdog.enable
    Watchdog.enable_devices Watchdog.enable_device create_local create_global
expired_report-fires_example =
    expired_report-fires (os_without 0) 3 7 7 7 SupervisionType.alive
      (record { status = Status.expired; timestamp = 19; execution_error = 40 }) failing_cycle
      daemon chain [] refl refl refl refl refl refl refl refl refl (λ e. cc) refl refl (λ e. cc)
      refl ((λ e. cc), ((refl, inl refl), tt))
