-- ===== src/Cluster/Escalation.antt =====
-- The way of an expired checkpoint supervision to the recovery notification.
use inc_lifecycle.Base.{
  ℕ, suc, ◌≡◌, ◌≢◌, refl, sym, ap, subst, ◌∙◌, ltb, if◌then◌else◌, assign, Bool, true, false, [],
  ◌∷◌, all, arith,
}
use inc_lifecycle.Buffer.{create, sort, position, push, get_next_element, drain, elements, clear}
use inc_lifecycle.Checkpoint.{expired, SupervisionType, Report, default_execution_error}
use inc_lifecycle.Monitor.{LocalStatus, GlobalStatus}
use inc_lifecycle.Local.{
  Local, SupervisionEvent, LocalReport, update_data, process_events, process_event,
}
use inc_lifecycle.Local.Recovery.{reported, expired_event_expires}
use inc_lifecycle.Global.{
  Global, LocalState, Element, local_state, update_local, store, error_info, switch_to_stopped,
}
use inc_lifecycle.Global.Evaluate.{
  is_debounced, stop_if_debounced, expire, check_transitions_out_of_deactivated,
  check_transitions_out_of_ok, check_transitions_out_of_failed, check_transitions_out_of_expired,
  check_transitions, evaluate_local_supervision_update, process_element, process_elements,
  process_time_sorted_events, evaluate_events, is_expired,
}
use inc_lifecycle.Global.Tolerance.{is_busy, send_busy}
use inc_lifecycle.Cluster.{Chain, report, forward, evaluate_supervisions}

-- One element in a buffer that was empty.
push-create :
    {A : Type 0} (a : A) (t n : ℕ)
    → ((push a t (create (suc n))).1 ≡ true) × (elements (push a t (create (suc n))).0 ≡ a ∷ [])
unfolding push create sort position elements drain get_next_element
push-create a t n = rw room (refl, refl)
  where
    room : ltb 0 (suc n) ≡ true
    room = ground arith

Stopped : Global → Type 0
Stopped g = (g.status ≡ GlobalStatus.stopped) × (all is_busy g.notifications ≡ true)

stop_at_once :
    (t : ℕ) (g : Global)
    → g.expired_tolerance ≡ 0
    → ((stop_if_debounced t g).1 ≡ true) × Stopped (stop_if_debounced t g).0
unfolding Stopped stop_if_debounced is_debounced switch_to_stopped
stop_at_once t g h = ground (
  arith,
  send_busy g g.notifications,
  send_busy
      (record g {
        expired_supervision = SupervisionType.alive;
        execution_error = default_execution_error;
      })
      g.notifications,
)

expire-stops : (l : LocalState) (g : Global) → g.expired_tolerance ≡ 0 → Stopped (expire l g)
unfolding expire
expire-stops l g h =
    let blamed = record g {
      expired_supervision = l.supervision_type;
      execution_error = l.execution_error;
    } in
    let (stops, stopped) = stop_at_once l.timestamp blamed h in rw stops stopped

check_transitions-stops :
    (s : GlobalStatus) (l : LocalState) (g : Global)
    → s ≢ GlobalStatus.stopped
    → l.state ≡ LocalStatus.expired
    → g.expired_tolerance ≡ 0
    → Stopped (check_transitions s l g)
unfolding check_transitions check_transitions_out_of_deactivated check_transitions_out_of_ok
    check_transitions_out_of_failed check_transitions_out_of_expired expire
check_transitions-stops GlobalStatus.deactivated l g n e h = rw e (expire-stops l g h)
check_transitions-stops GlobalStatus.ok l g n e h = rw e (expire-stops l g h)
check_transitions-stops GlobalStatus.failed l g n e h = rw e (expire-stops l g h)
check_transitions-stops GlobalStatus.expired l g n e h =
    let (stops, stopped) = stop_at_once l.timestamp g h in rw stops stopped
check_transitions-stops GlobalStatus.stopped l g n e h = absurd (n refl)

abbrev evaluate_global : ℕ → Global → Global
evaluate_global = inc_lifecycle.Global.Evaluate.evaluate

finish :
    (t : ℕ) (g : Global)
    → Stopped g
    → Stopped (if is_expired g.status then (stop_if_debounced t g).0 else g)
unfolding Stopped
finish t g h = simp (h.0) (refl, h.1)

-- The one element in the buffer of a global supervision.
single_event :
    (t : ℕ) (l : LocalState) (g : Global)
    → elements g.buffer ≡ local_state l ∷ []
    → l.state ≡ LocalStatus.expired
    → g.status ≢ GlobalStatus.stopped
    → g.expired_tolerance ≡ 0
    → Stopped (evaluate_events t g)
unfolding evaluate_events process_time_sorted_events process_elements process_element
    evaluate_local_supervision_update Stopped
single_event t l g one e n h =
    let g1 = record g { local_status = assign l.local l.state g.local_status } in
    let stopped = check_transitions-stops g.status l g1 n e h in
    let after = check_transitions g.status l g1 in
    simp one (finish t (record after { buffer = clear after.buffer }) stopped)

otherwise :
    (P : Global → Type 0) (b : Bool) (x y : Global) → b ≡ false → P y → P (if b then x else y)
otherwise P true x y h p = absurd (cc)
otherwise P false x y h p = p

single :
    (t : ℕ) (l : LocalState) (g : Global)
    → elements g.buffer ≡ local_state l ∷ []
    → g.is_data_loss_event ≡ false
    → l.state ≡ LocalStatus.expired
    → g.status ≢ GlobalStatus.stopped
    → g.expired_tolerance ≡ 0
    → Stopped (evaluate_global t g)
unfolding inc_lifecycle.Global.Evaluate.evaluate
single t l g one lossless e n h =
    otherwise Stopped g.is_data_loss_event _ (evaluate_events t g) lossless
      (single_event t l g one e n h)

-- An update of an expired local supervision stops the global one at its next evaluation.
update_local-stops :
    (t id m : ℕ) (r : LocalReport) (g : Global)
    → r.status ≡ LocalStatus.expired
    → g.is_data_loss_event ≡ false
    → g.buffer ≡ create (suc m)
    → g.status ≢ GlobalStatus.stopped
    → g.expired_tolerance ≡ 0
    → Stopped (evaluate_global t (update_local id r g))
unfolding update_local store
update_local-stops t id m r g e lossless empty n h =
    subst (λ b. Stopped (evaluate_global t (update_local id r (record g { buffer = b }))))
      (sym empty)
      (rw pushed.0 (
        single t l (record g { buffer = (push (local_state l) r.timestamp (create (suc m))).0 })
          pushed.1 lossless e n h))
  where
    l : LocalState
    l = record {
      local = id;
      state = r.status;
      supervision_type = r.supervision_type;
      timestamp = r.timestamp;
      execution_error = r.execution_error;
    }

    pushed :
        ((push (local_state l) r.timestamp (create (suc m))).1 ≡ true)
        × (elements (push (local_state l) r.timestamp (create (suc m))).0 ≡ local_state l ∷ [])
    pushed = push-create (local_state l) r.timestamp m

abbrev evaluate_local : ℕ → Local → Local
evaluate_local = inc_lifecycle.Local.evaluate

abbrev event : ℕ → SupervisionType → Report → SupervisionEvent
event s type r = record {
  supervision = s;
  status = r.status;
  supervision_type = type;
  timestamp = r.timestamp;
  execution_error = r.execution_error;
}

-- The one element in the buffer of a local supervision that lost no data.
single_local :
    (t : ℕ) (v : SupervisionEvent) (l : Local)
    → elements l.buffer ≡ v ∷ []
    → l.is_data_loss_event ≡ false
    → v.status ≡ expired
    → l.status ≢ LocalStatus.expired
    → l.published ≡ []
    → (evaluate_local t l).published ≡ reported v ∷ []
unfolding inc_lifecycle.Local.evaluate process_events
single_local t v l one lossless e fresh none_yet =
    simp (lossless, one)
      ((expired_event_expires v l e).1 fresh ∙ ap (λ rs. reported v ∷ rs) none_yet)

update_data-expires :
    (t s n : ℕ) (type : SupervisionType) (r : Report) (l : Local)
    → r.status ≡ expired
    → l.is_data_loss_event ≡ false
    → l.buffer ≡ create (suc n)
    → l.status ≢ LocalStatus.expired
    → (evaluate_local t (record (update_data s type r l) { published = [] })).published
      ≡ reported (event s type r) ∷ []
unfolding update_data
update_data-expires t s n type r l e lossless empty fresh =
    subst
      (λ b.
        (evaluate_local t
          (record (update_data s type r (record l { buffer = b })) { published = [] })).published
        ≡ reported (event s type r) ∷ [])
      (sym empty)
      (rw pushed.0 (
        single_local t (event s type r)
          (record l {
            buffer = (push (event s type r) r.timestamp (create (suc n))).0;
            published = [];
          })
          pushed.1 lossless e fresh refl))
  where
    pushed :
        ((push (event s type r) r.timestamp (create (suc n))).1 ≡ true)
        × (elements (push (event s type r) r.timestamp (create (suc n))).0 ≡ event s type r ∷ [])
    pushed = push-create (event s type r) r.timestamp n

-- A checkpoint supervision that reports to be expired makes the global
-- supervision stop within the cycle, and no recovery notification stays idle: where no data was lost
-- and the buffers were empty, the local supervision was not expired and the global one not stopped,
-- and no tolerance is configured.
pub evaluate_supervisions-stops :
    (t s n m : ℕ) (type : SupervisionType) (r : Report) (c : Chain)
    → r.status ≡ expired
    → c.local.is_data_loss_event ≡ false
    → c.local.buffer ≡ create (suc n)
    → c.local.status ≢ LocalStatus.expired
    → c.global.is_data_loss_event ≡ false
    → c.global.buffer ≡ create (suc m)
    → c.global.status ≢ GlobalStatus.stopped
    → c.global.expired_tolerance ≡ 0
    → ((evaluate_supervisions t (report s type r c)).global.status ≡ GlobalStatus.stopped)
      × (all is_busy (evaluate_supervisions t (report s type r c)).global.notifications ≡ true)
unfolding evaluate_supervisions report forward Stopped
evaluate_supervisions-stops t s n m type r c e kept empty fresh lossless empty' n' h =
    subst (λ rs. Stopped (evaluate_global t (forward c.local_id rs c.global)))
      (sym (update_data-expires t s n type r c.local e kept empty fresh))
      (update_local-stops t c.local_id m (reported (event s type r)) c.global refl lossless empty'
        n' h)
