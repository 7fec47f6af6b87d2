-- ===== src/Cluster.antt =====
-- A chain of supervisions in one cycle of the daemon
-- (src/launch_manager_daemon/health_monitor_lib/src/score/lcm/saf/daemon/SwClusterHandler.cpp,
-- evaluateSupervisions and evaluateRecoveryNotifications): a local supervision, the global one that
-- observes it and its notifications. The checkpoint supervisions before them push reports.
pub mod Escalation
use inc_lifecycle.Base.{ℕ, List, [], ◌∷◌, map, Bool, any}
use inc_lifecycle.Checkpoint.{SupervisionType, Report}
use inc_lifecycle.Local.{Local, LocalReport, update_data}
use inc_lifecycle.Global.{Global, update_local}
use inc_lifecycle.Notification.{
  Notification, Future, cyclic_trigger, is_final_timeout_state_reached,
}

pub record Chain : Type 0 where
  pub local_id : ℕ
  pub local : Local
  pub global : Global

-- A report of a checkpoint supervision to the local one that observes it.
unfoldable pub report : ℕ → SupervisionType → Report → Chain → Chain
report supervision type r c = record c { local = update_data supervision type r c.local }

-- What the local supervision published, newest first, pushed to the global one in its order.
unfoldable pub forward : ℕ → List LocalReport → Global → Global
forward id [] g = g
forward id (r ∷ earlier) g = update_local id r (forward id earlier g)

unfoldable pub evaluate_supervisions : ℕ → Chain → Chain
unfolding forward
evaluate_supervisions t c =
    let l = inc_lifecycle.Local.evaluate t (record c.local { published = [] }) in
    record c {
      local = l;
      global = inc_lifecycle.Global.Evaluate.evaluate t (forward c.local_id l.published c.global);
    }

unfoldable pub evaluate_recovery_notifications : ℕ → ℕ → Future → Chain → Chain
evaluate_recovery_notifications requested now future c = record c {
  global = record c.global {
    notifications = map (cyclic_trigger requested now future) c.global.notifications;
  };
}

unfoldable pub has_recovery_notification_timeout : Chain → Bool
has_recovery_notification_timeout c = any is_final_timeout_state_reached c.global.notifications
