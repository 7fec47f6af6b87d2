-- ===== src/Daemon.antt =====
-- The daemon of the health monitor
-- (src/launch_manager_daemon/health_monitor_lib/src/score/lcm/saf/daemon/PhmDaemon.cpp, .hpp): its
-- start-up, its cycle and its end. The software clusters are known by an interface, which Cluster can
-- fill; the clock, the receiver of the process states and the operating system are inputs. A sleep that
-- is interrupted and a request to terminate end the list of cycles.
pub mod Serving
pub mod Reaction
use inc_lifecycle.Base.{
  ℕ, Bool, true, false, not, ◌||◌, Option, none, some, List, [], ◌∷◌, ◌++◌, map, any, reverse, ◌==◌,
  if◌then◌else◌, u64_max,
}
use inc_lifecycle.Checkpoint.{ProcessData}
use inc_lifecycle.ProcessReader.{Answer, Reader, distribute_changes}
use inc_lifecycle.Watchdog
use inc_lifecycle.Watchdog.{
  DeviceConfig, Watchdog, service_watchdog, fire_watchdog_reaction, disable,
}
use inc_lifecycle.Watchdog.Calls.{Os}

-- The interface of a SwClusterHandler: what its observers of process states do, its cycle and whether
-- one of its recovery notifications has timed out.
pub record Handler (H E : Type 0) : Type 0 where
  pub observe : ProcessData → H → H
  pub perform_cyclic_triggers : ℕ → E → H → H
  pub has_recovery_notification_timeout : H → Bool

-- `receiver` holds what the receiver of the process states has still to answer.
pub record Daemon (H : Type 0) : Type 0 where
  pub receiver : List Answer
  pub reader : Reader
  pub handlers : List H
  pub watchdog : Watchdog

-- What a cycle meets: the clock, what the receiver gets, and the inputs of the clusters.
pub record Cycle (E : Type 0) : Type 0 where
  pub clock : ℕ
  pub arrivals : List Answer
  pub inputs : E

-- EInitCode
pub data InitCode : Type 0 where
  no_error not_initialized cycle_time_init_failed construct_flat_cfg_factory_failed
        watchdog_init_failed watchdog_enable_failed machine_config_init_failed
        signal_handler_registration_failed general_error :
      InitCode

-- Without a valid time all data is considered.
unfoldable pub sync_timestamp : ℕ → ℕ
sync_timestamp clock = if clock == 0 then u64_max else clock

module _ (os : Os) where
  -- What the other parts answer to the start-up: the configuration of the machine and of the clusters
  -- could be read, and the timer has taken the adjusted cycle time, here a number.
  unfoldable pub init :
      Bool → Bool → Bool → ℕ → Option (List DeviceConfig) → Watchdog → InitCode × Watchdog
  init configured constructed timed cycle devices w =
      let (taken, w1) = Watchdog.init cycle devices w in
      let (enabled, w2) = Watchdog.enable os w1 in
      if configured
      then (if constructed
          then (if timed
              then (if taken
                  then (if enabled then (no_error, w2) else (watchdog_enable_failed, w2))
                  else (watchdog_init_failed, w1))
              else (cycle_time_init_failed, w))
          else (construct_flat_cfg_factory_failed, w))
      else (machine_config_init_failed, w)

  -- The end of a cycle.
  unfoldable pub react : Bool → Watchdog → Watchdog
  react critical w = if critical then fire_watchdog_reaction os w else service_watchdog w

  module _ {H E : Type 0} (handler : Handler H E) where
    -- The pushes of the reader reach the observers in their order, which is not that of the list.
    unfoldable pub observe_all : List ProcessData → H → H
    observe_all [] h = h
    observe_all (p ∷ earlier) h = handler.observe p (observe_all earlier h)

    unfoldable pub trigger_handlers : ℕ → E → List H → List H
    trigger_handlers sync e = map (handler.perform_cyclic_triggers sync e)

    unfoldable pub perform_cyclic_triggers : Cycle E → Daemon H → Daemon H
    unfolding sync_timestamp observe_all trigger_handlers react
    perform_cyclic_triggers c d =
        let sync = sync_timestamp c.clock in
        let (ok, reader, left) =
          distribute_changes sync (d.receiver ++ c.arrivals) (record d.reader { pushed = [] }) in
        let observed = map (observe_all reader.pushed) d.handlers in
        let handlers = if ok then trigger_handlers sync c.inputs observed else observed in
        let critical = not ok || any handler.has_recovery_notification_timeout handlers in
        record {
          receiver = left;
          reader = reader;
          handlers = handlers;
          watchdog = react critical d.watchdog;
        }

    unfoldable pub perform_cycles : List (Cycle E) → Daemon H → Daemon H
    perform_cycles [] d = d
    perform_cycles (c ∷ cs) d = perform_cycles cs (perform_cyclic_triggers c d)

    -- False if the clock does not give a time at the start.
    unfoldable pub start_cyclic_exec : ℕ → List (Cycle E) → Daemon H → Daemon H × Bool
    unfolding perform_cycles
    start_cyclic_exec start cs d =
        let d' = perform_cycles cs d in
        if start == 0 then (d, false) else (record d' { watchdog = disable d'.watchdog }, true)
