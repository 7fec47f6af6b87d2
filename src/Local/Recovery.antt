-- ===== src/Local/Recovery.antt =====
-- The ways of a local supervision into the statuses expired and failed and out of them.
use inc_lifecycle.Base.{ℕ, ◌≡◌, ◌≢◌, ◌⊎◌, true, false, List, ◌∷◌, arith, assign}
use inc_lifecycle.Monitor.{LocalStatus}
use inc_lifecycle.Checkpoint.{Status, deactivated, expired}
use inc_lifecycle.Local.{
  Local, SupervisionEvent, LocalReport, is_all_deactivated, is_one_failed, update_state,
  process_event, check_transitions_out_of_deactivated, check_transitions_out_of_ok,
  check_transitions_out_of_failed, check_transitions_out_of_expired,
}

abbrev pub reported : SupervisionEvent → LocalReport
reported e = record {
  status = LocalStatus.expired;
  supervision_type = e.supervision_type;
  timestamp = e.timestamp;
  execution_error = e.execution_error;
}

-- An expired checkpoint supervision expires the local one at once, from every status. The observers
-- are told once, with the type, the time and the execution error of the one that expired, and not
-- again while the status is expired already.
pub expired_event_expires :
    (e : SupervisionEvent) (l : Local)
    → e.status ≡ expired
    → ((process_event e l).status ≡ LocalStatus.expired)
      × (l.status ≢ LocalStatus.expired → (process_event e l).published ≡ reported e ∷ l.published)
      × (l.status ≡ LocalStatus.expired → (process_event e l).published ≡ l.published)
unfolding process_event update_state check_transitions_out_of_deactivated
    check_transitions_out_of_ok check_transitions_out_of_failed check_transitions_out_of_expired
expired_event_expires e l h = ground arith

abbrev pub map_after : SupervisionEvent → Local → List (ℕ × Status)
map_after e l = assign e.supervision e.status l.registered

-- The status expired is left for deactivated only, by a deactivation after which all the checkpoint
-- supervisions are deactivated; every other event changes nothing but the map.
pub expired_exit :
    (e : SupervisionEvent) (l : Local)
    → l.status ≡ LocalStatus.expired
    → (process_event e l ≡ record l { registered = map_after e l })
      ⊎ (((process_event e l).status ≡ LocalStatus.deactivated)
          × (e.status ≡ deactivated)
          × (is_all_deactivated (map_after e l) ≡ true))
unfolding process_event update_state check_transitions_out_of_expired
expired_exit e l h = ground arith

-- A local supervision that is failed stays failed when the last failed checkpoint supervision is
-- deactivated, as long as another one is not: no supervision is failed then.
pub failed_lingers :
    (e : SupervisionEvent) (l : Local)
    → l.status ≡ LocalStatus.failed
    → e.status ≡ deactivated
    → is_all_deactivated (map_after e l) ≡ false
    → is_one_failed (map_after e l) ≡ false
    → ((process_event e l).status ≡ LocalStatus.failed)
      × (is_one_failed (process_event e l).registered ≡ false)
unfolding process_event update_state check_transitions_out_of_failed
failed_lingers e l f d a n = ground arith
