-- ===== src/Local.antt =====
-- The local supervision (src/launch_manager_daemon/health_monitor_lib/src/score/lcm/saf/supervision/
-- Local.cpp, .hpp): it joins the statuses of the checkpoint supervisions that report to it. Logging is
-- left out; `published` holds what the observers were given, newest first. A checkpoint supervision
-- is known by its address.
pub mod Reported
pub mod Invariant
pub mod Recovery
use inc_lifecycle.Base.{
  ℕ, Bool, true, false, not, Option, none, some, List, [], ◌∷◌, all, any, assign, insert_new,
  if◌then◌else◌,
}
use inc_lifecycle.Buffer.{Buffer, create, push, clear, elements}
use inc_lifecycle.Monitor.{LocalStatus}
use inc_lifecycle.Checkpoint.{
  Status, deactivated, ok, failed, expired, SupervisionType, Report, default_execution_error,
}

pub record SupervisionEvent : Type 0 where
  pub supervision : ℕ
  pub status : Status
  pub supervision_type : SupervisionType
  pub timestamp : ℕ
  pub execution_error : ℕ

-- What an observer of a local supervision reads.
pub record LocalReport : Type 0 where
  pub status : LocalStatus
  pub supervision_type : SupervisionType
  pub timestamp : ℕ
  pub execution_error : ℕ

pub record Local : Type 0 where
  pub status : LocalStatus
  pub supervision_type : SupervisionType
  pub is_data_loss_event : Bool
  pub supervision_type_data_loss : SupervisionType
  pub registered : List (ℕ × Status)
  pub event_timestamp : ℕ
  pub last_sync_timestamp : ℕ
  pub buffer : Buffer SupervisionEvent
  pub execution_error : ℕ
  pub published : List LocalReport

unfoldable pub create_local : ℕ → Local
create_local size = record {
  status = LocalStatus.deactivated;
  supervision_type = SupervisionType.alive;
  is_data_loss_event = false;
  supervision_type_data_loss = SupervisionType.alive;
  registered = [];
  event_timestamp = 0;
  last_sync_timestamp = 0;
  buffer = create size;
  execution_error = default_execution_error;
  published = [];
}

unfoldable pub push_result_to_observers : Local → Local
push_result_to_observers l = record l { published = report ∷ l.published }
  where
    report : LocalReport
    report = record {
      status = l.status;
      supervision_type = l.supervision_type;
      timestamp = l.event_timestamp;
      execution_error = l.execution_error;
    }

-- updateDataGeneralized, of all three kinds of checkpoint supervisions.
unfoldable pub update_data : ℕ → SupervisionType → Report → Local → Local
update_data supervision type r l =
    let e : SupervisionEvent = record {
      supervision = supervision;
      status = r.status;
      supervision_type = type;
      timestamp = r.timestamp;
      execution_error = r.execution_error;
    } in
    let (buffer', stored) = push e r.timestamp l.buffer in
    if stored then record l { buffer = buffer' } else record l {
      event_timestamp = l.last_sync_timestamp;
      is_data_loss_event = true;
      supervision_type_data_loss = type;
    }

unfoldable pub switch_to_deactivated : SupervisionType → Local → Local
unfolding push_result_to_observers
switch_to_deactivated type l =
    push_result_to_observers
      (record l { supervision_type = type; status = LocalStatus.deactivated })

unfoldable pub switch_to_ok : SupervisionType → Local → Local
unfolding push_result_to_observers
switch_to_ok type l =
    push_result_to_observers (record l { supervision_type = type; status = LocalStatus.ok })

unfoldable pub switch_to_failed : SupervisionType → Local → Local
unfolding push_result_to_observers
switch_to_failed type l =
    push_result_to_observers (record l { supervision_type = type; status = LocalStatus.failed })

unfoldable pub switch_to_expired : SupervisionType → ℕ → Local → Local
unfolding push_result_to_observers
switch_to_expired type error l =
    push_result_to_observers
      (record l { supervision_type = type; execution_error = error; status = LocalStatus.expired })

abbrev pub is_deactivated : Status → Bool
is_deactivated deactivated = true
is_deactivated _ = false

abbrev pub is_failed : Status → Bool
is_failed failed = true
is_failed _ = false

abbrev pub is_expired : Status → Bool
is_expired expired = true
is_expired _ = false

unfoldable pub is_all_deactivated : List (ℕ × Status) → Bool
is_all_deactivated [] = true
is_all_deactivated ((k, s) ∷ rest) = if is_deactivated s then is_all_deactivated rest else false

unfoldable pub is_one_failed : List (ℕ × Status) → Bool
is_one_failed [] = false
is_one_failed ((k, s) ∷ rest) = if is_failed s then true else is_one_failed rest

unfoldable pub check_transitions_out_of_deactivated : Status → SupervisionEvent → Local → Local
unfolding switch_to_ok switch_to_failed switch_to_expired
check_transitions_out_of_deactivated ok e l =
    switch_to_ok e.supervision_type (record l { event_timestamp = e.timestamp })
check_transitions_out_of_deactivated failed e l =
    switch_to_failed e.supervision_type (record l { event_timestamp = e.timestamp })
check_transitions_out_of_deactivated expired e l =
    switch_to_expired e.supervision_type e.execution_error
      (record l { event_timestamp = e.timestamp })
check_transitions_out_of_deactivated deactivated e l = l

-- The branch that ok, failed and expired share.
unfoldable pub deactivate_if_all : SupervisionEvent → Local → Local
unfolding switch_to_deactivated
deactivate_if_all e l =
    if is_all_deactivated l.registered
    then switch_to_deactivated e.supervision_type (record l { event_timestamp = e.timestamp })
    else l

unfoldable pub check_transitions_out_of_ok : Status → SupervisionEvent → Local → Local
unfolding deactivate_if_all switch_to_failed switch_to_expired
check_transitions_out_of_ok deactivated e l = deactivate_if_all e l
check_transitions_out_of_ok failed e l =
    switch_to_failed e.supervision_type (record l { event_timestamp = e.timestamp })
check_transitions_out_of_ok expired e l =
    switch_to_expired e.supervision_type e.execution_error
      (record l { event_timestamp = e.timestamp })
check_transitions_out_of_ok ok e l = l

unfoldable pub check_transitions_out_of_failed : Status → SupervisionEvent → Local → Local
unfolding deactivate_if_all switch_to_ok switch_to_expired
check_transitions_out_of_failed deactivated e l = deactivate_if_all e l
check_transitions_out_of_failed ok e l =
    if is_one_failed l.registered
    then l
    else switch_to_ok e.supervision_type (record l { event_timestamp = e.timestamp })
check_transitions_out_of_failed expired e l =
    switch_to_expired e.supervision_type e.execution_error
      (record l { event_timestamp = e.timestamp })
check_transitions_out_of_failed failed e l = l

unfoldable pub check_transitions_out_of_expired : Status → SupervisionEvent → Local → Local
unfolding deactivate_if_all
check_transitions_out_of_expired deactivated e l = deactivate_if_all e l
check_transitions_out_of_expired _ e l = l

-- updateState; `LocalStatus` has no other value for its `default`.
unfoldable pub update_state : LocalStatus → SupervisionEvent → Local → Local
update_state LocalStatus.deactivated e l = check_transitions_out_of_deactivated e.status e l
update_state LocalStatus.ok e l = check_transitions_out_of_ok e.status e l
update_state LocalStatus.failed e l = check_transitions_out_of_failed e.status e l
update_state LocalStatus.expired e l = check_transitions_out_of_expired e.status e l

-- One round of the loop of `evaluate`.
unfoldable pub process_event : SupervisionEvent → Local → Local
process_event e l =
    let l1 = record l { registered = assign e.supervision e.status l.registered } in
    update_state l1.status e l1

unfoldable pub process_events : List SupervisionEvent → Local → Local
process_events [] l = l
process_events (e ∷ rest) l = process_events rest (process_event e l)

abbrev is_local_expired : LocalStatus → Bool
is_local_expired LocalStatus.expired = true
is_local_expired _ = false

unfoldable pub handle_data_loss_reaction : Local → Local
handle_data_loss_reaction l =
    let l1 =
      if is_local_expired l.status
      then l
      else switch_to_expired l.supervision_type_data_loss default_execution_error l in
    record l1 { is_data_loss_event = false; buffer = clear l1.buffer }

unfoldable pub evaluate : ℕ → Local → Local
evaluate t l =
    if l.is_data_loss_event
    then record (handle_data_loss_reaction l) { last_sync_timestamp = t }
    else (let l1 = process_events (elements l.buffer) l in
        record l1 { buffer = clear l1.buffer; last_sync_timestamp = t })

-- The map's `insert` keeps an entry that is there; registering twice is asserted against.
unfoldable pub register_checkpoint_supervision : ℕ → Local → Local
register_checkpoint_supervision supervision l = record l {
  registered = insert_new supervision deactivated l.registered;
}
