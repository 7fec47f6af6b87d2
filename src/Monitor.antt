-- ===== src/Monitor.antt =====
-- The statuses that the health monitor publishes (src/launch_manager_daemon/health_monitor_lib/
-- include/score/lcm/Monitor.h).

-- score::lcm::LocalSupervisionStatus
pub data LocalStatus : Type 0 where
  ok failed expired deactivated : LocalStatus

-- score::lcm::GlobalSupervisionStatus
pub data GlobalStatus : Type 0 where
  ok failed expired stopped deactivated : GlobalStatus
