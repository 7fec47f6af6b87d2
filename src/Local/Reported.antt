-- ===== src/Local/Reported.antt =====
-- The map of a local supervision and what its checkpoint supervisions reported.
use inc_lifecycle.Base.{
  ℕ, ◌≡◌, refl, ap, ◌∙◌, Option, none, some, List, [], ◌∷◌, arith, if◌then◌else◌, ◌==◌, assign,
}
use inc_lifecycle.Monitor.{LocalStatus}
use inc_lifecycle.Checkpoint.{Status}
use inc_lifecycle.Local.{
  Local, SupervisionEvent, check_transitions_out_of_deactivated, check_transitions_out_of_ok,
  check_transitions_out_of_failed, check_transitions_out_of_expired, deactivate_if_all,
  update_state, process_event, process_events, handle_data_loss_reaction, switch_to_expired,
}

-- The entry of a supervision, and the status that it reported last.
abbrev pub entry : ℕ → List (ℕ × Status) → Option Status
entry k [] = none
entry k ((j, v) ∷ m) = if j == k then some v else entry k m

abbrev pub last_reported : ℕ → List SupervisionEvent → Option Status → Option Status
last_reported k [] before = before
last_reported k (e ∷ es) before =
    last_reported k es (if e.supervision == k then some e.status else before)

entry-assign :
    (k j : ℕ) (v : Status) (m : List (ℕ × Status))
    → entry k (assign j v m) ≡ (if j == k then some v else entry k m)
entry-assign k j v [] = refl
entry-assign k j v ((i, w) ∷ m) = ground (arith, entry-assign k j v m)

update_state-registered :
    (s : LocalStatus) (e : SupervisionEvent) (l : Local)
    → (update_state s e l).registered ≡ l.registered
unfolding update_state check_transitions_out_of_deactivated check_transitions_out_of_ok
    check_transitions_out_of_failed check_transitions_out_of_expired deactivate_if_all
update_state-registered s e l = ground arith

process_event-entry :
    (k : ℕ) (e : SupervisionEvent) (l : Local)
    → entry k (process_event e l).registered
      ≡ (if e.supervision == k then some e.status else entry k l.registered)
unfolding process_event
process_event-entry k e l =
    ap (entry k) (
      update_state-registered l.status e
        (record l { registered = assign e.supervision e.status l.registered }))
    ∙ entry-assign k e.supervision e.status l.registered

pub process_events-entry :
    (k : ℕ) (es : List SupervisionEvent) (l : Local)
    → entry k (process_events es l).registered ≡ last_reported k es (entry k l.registered)
unfolding process_events
process_events-entry k [] l = refl
process_events-entry k (e ∷ es) l =
    process_events-entry k es (process_event e l)
    ∙ ap (last_reported k es) (process_event-entry k e l)

pub handle_data_loss_reaction-registered :
    (l : Local) → (handle_data_loss_reaction l).registered ≡ l.registered
unfolding handle_data_loss_reaction switch_to_expired
handle_data_loss_reaction-registered l = ground arith
