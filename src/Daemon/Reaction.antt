-- ===== src/Daemon/Reaction.antt =====
-- The way of an expired checkpoint supervision to the watchdog, for a cluster whose recovery
-- notifications are not configured.
use inc_lifecycle.Base.{
  ℕ, suc, ◌+◌, ◌≡◌, ◌≢◌, refl, sym, subst, ◌∙◌, ◌⊎◌, inr, true, false, ◌&&◌, none, some, List, [],
  ◌∷◌, ◌++◌, map, any, all, arith, ◌==◌, All,
}
use inc_lifecycle.Buffer.{create}
use inc_lifecycle.Checkpoint.{SupervisionType, Report, expired}
use inc_lifecycle.Monitor.{LocalStatus, GlobalStatus}
use inc_lifecycle.Notification.{
  Notification, ErrorInfo, Future, State, send, cyclic_trigger, is_final_timeout_state_reached,
}
use inc_lifecycle.Local
use inc_lifecycle.Local.{LocalReport}
use inc_lifecycle.Global
use inc_lifecycle.Global.{Global}
use inc_lifecycle.Global.Tolerance.{is_busy}
use inc_lifecycle.Global.Notified.{evaluate-Kept}
use inc_lifecycle.Cluster.{
  Chain, report, forward, evaluate_supervisions, evaluate_recovery_notifications,
  has_recovery_notification_timeout,
}
use inc_lifecycle.Cluster.Escalation.{evaluate_supervisions-stops}
use inc_lifecycle.ProcessReader.{distribute_changes}
use inc_lifecycle.Watchdog.{
  WatchdogDevice, Watchdog, activated, LibState, fire_watchdog_reaction, fire_devices,
}
use inc_lifecycle.Watchdog.Calls.{Call, used, set_timeout, Os}
use inc_lifecycle.Watchdog.Holding.{count, holders}
use inc_lifecycle.Daemon.{Handler, Daemon, Cycle, sync_timestamp, perform_cyclic_triggers, react}

-- What the rest of the cluster and the recovery client do in a cycle: the reports of the checkpoint
-- supervisions, the times that the notifications read, and what the future of a request holds.
pub record ChainInputs : Type 0 where
  pub reports : List (ℕ × SupervisionType × Report)
  pub requested : ℕ
  pub now : ℕ
  pub future : Future

abbrev pub report_all : List (ℕ × SupervisionType × Report) → Chain → Chain
report_all [] c = c
report_all ((s, type, r) ∷ rest) c = report_all rest (report s type r c)

-- A chain of supervisions as a software cluster; the global one observes the processes.
abbrev pub chain_handler : Handler Chain ChainInputs
chain_handler = record {
  observe = λ p c. record c { global = Global.update_process p.proc_state p c.global };
  perform_cyclic_triggers = λ sync e c.
      evaluate_recovery_notifications e.requested e.now e.future
        (evaluate_supervisions sync (report_all e.reports c));
  has_recovery_notification_timeout = has_recovery_notification_timeout;
}

-- The notification has no configuration: it asks for nothing, and an error ends it.
abbrev pub IsUnconfigured : Notification → Type 0
IsUnconfigured n =
    (n.is_config_available ≡ false)
    × ((n.current_state ≡ State.idle) ⊎ (n.current_state ≡ State.timeout))

send-IsUnconfigured :
    (i : ErrorInfo) (n : Notification) → IsUnconfigured n → IsUnconfigured (send i n)
unfolding send
send-IsUnconfigured i n h = (ground arith, inr (ground arith))

-- There are notifications, and none is configured.
abbrev pub AreUnconfigured : List Notification → Type 0
AreUnconfigured ns = (ns ≢ []) × All IsUnconfigured ns

send-AreUnconfigured :
    (i : ErrorInfo) (ns : List Notification)
    → AreUnconfigured ns
    → AreUnconfigured (map (send i) ns)
send-AreUnconfigured i [] h = absurd (h.0 refl)
send-AreUnconfigured i (n ∷ ns) h =
    ((λ e. cc (e)), (send-IsUnconfigured i n h.1.0, send_rest i ns h.1.1))
  where
    send_rest :
        (j : ErrorInfo) (ms : List Notification)
        → All IsUnconfigured ms
        → All IsUnconfigured (map (send j) ms)
    send_rest j [] k = tt
    send_rest j (x ∷ ms) k = (send-IsUnconfigured j x k.0, send_rest j ms k.1)

update_local_notifications :
    (id : ℕ) (r : LocalReport) (g : Global)
    → (Global.update_local id r g).notifications ≡ g.notifications
unfolding Global.update_local
update_local_notifications id r g = ground arith

forward_notifications :
    (id : ℕ) (rs : List LocalReport) (g : Global)
    → (forward id rs g).notifications ≡ g.notifications
unfolding forward
forward_notifications id [] g = refl
forward_notifications id (r ∷ rs) g =
    update_local_notifications id r (forward id rs g) ∙ forward_notifications id rs g

timed_out :
    (requested now : ℕ) (f : Future) (n : Notification)
    → IsUnconfigured n
    → is_busy n ≡ true
    → is_final_timeout_state_reached (cyclic_trigger requested now f n) ≡ true
unfolding is_final_timeout_state_reached cyclic_trigger
timed_out requested now f n h b = ground arith

some_timed_out :
    (requested now : ℕ) (f : Future) (ns : List Notification)
    → ns ≢ []
    → All IsUnconfigured ns
    → all is_busy ns ≡ true
    → any is_final_timeout_state_reached (map (cyclic_trigger requested now f) ns) ≡ true
some_timed_out requested now f [] ne h b = absurd (ne refl)
some_timed_out requested now f (n ∷ ns) ne h b = ground (arith, timed_out requested now f n h.0)

-- How often the device behind a descriptor was given a timeout of 0.
abbrev pub zero_timeouts : ℕ → List Call → ℕ
zero_timeouts fd [] = 0
zero_timeouts fd (used n (set_timeout ms) ∷ calls) =
    count (n == fd && ms == 0) + zero_timeouts fd calls
zero_timeouts fd (_ ∷ calls) = zero_timeouts fd calls

zero_timeouts-fire_devices :
    (os : Os) (fd : ℕ) (ds : List WatchdogDevice) (calls : List Call)
    → zero_timeouts fd (fire_devices os ds calls) ≡ holders fd ds + zero_timeouts fd calls
unfolding fire_devices
zero_timeouts-fire_devices os fd [] calls = omega arith
zero_timeouts-fire_devices os fd (d ∷ ds) calls =
    let calls1 : List Call = elim d.file_descriptor [
      | none ↦ calls
      | some n ↦ used n (set_timeout 0) ∷ calls
    ] in
    zero_timeouts-fire_devices os fd ds calls1 ∙ ground arith

react-fires :
    (os : Os) (fd : ℕ) (w : Watchdog)
    → w.state ≡ activated
    → ((react os true w).state ≡ LibState.react)
      × (zero_timeouts fd (react os true w).calls ≡ holders fd w.devices + zero_timeouts fd w.calls)
unfolding react fire_watchdog_reaction
react-fires os fd w s = ground (arith, zero_timeouts-fire_devices os fd w.devices w.calls)

module _ (t s n m : ℕ) (type : SupervisionType) (r : Report) (c : Chain) (e : r.status ≡ expired)
    (lossless : c.local.is_data_loss_event ≡ false) (empty : c.local.buffer ≡ create (suc n))
    (fresh : c.local.status ≢ LocalStatus.expired) (whole : c.global.is_data_loss_event ≡ false)
    (clear : c.global.buffer ≡ create (suc m)) (runs : c.global.status ≢ GlobalStatus.stopped)
    (strict : c.global.expired_tolerance ≡ 0) (notifies : c.global.notifications ≢ [])
    (unconfigured : All IsUnconfigured c.global.notifications) (i : ChainInputs)
    (one : i.reports ≡ (s, type, r) ∷ []) where
  chain_times_out :
      has_recovery_notification_timeout (chain_handler.perform_cyclic_triggers t i c) ≡ true
  unfolding evaluate_recovery_notifications has_recovery_notification_timeout evaluate_supervisions
      report
  chain_times_out =
      let after = evaluate_supervisions t (report s type r c) in
      let busy =
        (evaluate_supervisions-stops t s n m type r c e lossless empty fresh whole clear runs
          strict).1 in
      let l = Local.evaluate t (record (report s type r c).local { published = [] }) in
      let kept =
        evaluate-Kept AreUnconfigured send-AreUnconfigured t
          (forward c.local_id l.published c.global)
          (subst AreUnconfigured (sym (forward_notifications c.local_id l.published c.global))
            (notifies, unconfigured)) in
      rw one
        (some_timed_out i.requested i.now i.future after.global.notifications kept.0 kept.1 busy)

quiet_reader :
    (sync : ℕ) (d : Daemon Chain) (cycle : Cycle ChainInputs)
    → d.receiver ≡ []
    → cycle.arrivals ≡ []
    → d.reader.is_push_pending ≡ false
    → distribute_changes sync (d.receiver ++ cycle.arrivals) (record d.reader { pushed = [] })
      ≡ (true, record d.reader { pushed = [] }, [])
unfolding distribute_changes
quiet_reader sync d cycle q a p = rw (q, a, p, distribute_changes) refl

-- A cycle in which the receiver has nothing and a first cluster times out.
quiet_cycle :
    (os : Os) (cycle : Cycle ChainInputs) (d : Daemon Chain) (c : Chain) (cs : List Chain)
    → d.receiver ≡ []
    → cycle.arrivals ≡ []
    → d.reader.is_push_pending ≡ false
    → d.handlers ≡ c ∷ cs
    → has_recovery_notification_timeout
        (chain_handler.perform_cyclic_triggers (sync_timestamp cycle.clock) cycle.inputs c)
      ≡ true
    → (perform_cyclic_triggers os chain_handler cycle d).watchdog ≡ react os true d.watchdog
unfolding perform_cyclic_triggers
quiet_cycle os cycle d c cs q a p h timeout =
    rw
      (quiet_reader (sync_timestamp cycle.clock) d cycle q a p, h, timeout, perform_cyclic_triggers)
      refl

-- A checkpoint supervision of the first cluster that reports to be expired lets the daemon fire the
-- watchdog in the same cycle, if the recovery notifications of the global supervision, of which there is
-- one at least, are not configured: the watchdog is in its final state, and each device is given a
-- timeout of 0 once for each holder of its descriptor. This is so where the watchdog is
-- activated, the cycle brings no change of a process and no other report, no data was lost and the
-- buffers are empty, the local supervision is not expired yet and the global one not stopped, and no
-- tolerance is configured.
pub expired_report-fires :
    (os : Os) (fd s n m : ℕ) (type : SupervisionType) (r : Report) (cycle : Cycle ChainInputs)
    (d : Daemon Chain) (c : Chain) (cs : List Chain)
    → d.watchdog.state ≡ activated
    → d.receiver ≡ []
    → cycle.arrivals ≡ []
    → d.reader.is_push_pending ≡ false
    → d.handlers ≡ c ∷ cs
    → cycle.inputs.reports ≡ (s, type, r) ∷ []
    → r.status ≡ expired
    → c.local.is_data_loss_event ≡ false
    → c.local.buffer ≡ create (suc n)
    → c.local.status ≢ LocalStatus.expired
    → c.global.is_data_loss_event ≡ false
    → c.global.buffer ≡ create (suc m)
    → c.global.status ≢ GlobalStatus.stopped
    → c.global.expired_tolerance ≡ 0
    → AreUnconfigured c.global.notifications
    → let d' = perform_cyclic_triggers os chain_handler cycle d in
      (d'.watchdog.state ≡ LibState.react)
      × (zero_timeouts fd d'.watchdog.calls
          ≡ holders fd d.watchdog.devices + zero_timeouts fd d.watchdog.calls)
expired_report-fires os fd s n m type r cycle d c cs w q a p h one e ld lb lf gd gb gs gt u =
    let timeout =
      chain_times_out (sync_timestamp cycle.clock) s n m type r c e ld lb lf gd gb gs gt u.0 u.1
        cycle.inputs one in
    subst
      (λ (x : Watchdog).
        (x.state ≡ LibState.react)
        × (zero_timeouts fd x.calls
            ≡ holders fd d.watchdog.devices + zero_timeouts fd d.watchdog.calls))
      (sym (quiet_cycle os cycle d c cs q a p h timeout)) (react-fires os fd d.watchdog w)
