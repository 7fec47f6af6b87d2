-- ===== src/Local/Invariant.antt =====
-- How the status of a local supervision stands to the statuses of its checkpoint supervisions.
use inc_lifecycle.Base.{
  ℕ, ◌≡◌, ◌≢◌, refl, ap, inl, inr, Bool, true, false, List, [], ◌∷◌, arith, if◌then◌else◌, ◌==◌,
  assign, Bool-cases,
}
use inc_lifecycle.Monitor.{LocalStatus}
use inc_lifecycle.Checkpoint.{Status, deactivated, ok, failed, expired}
use inc_lifecycle.Buffer.{clear, elements}
use inc_lifecycle.Local.Reported.{
  entry, last_reported, process_events-entry, handle_data_loss_reaction-registered,
}
use inc_lifecycle.Local.{
  Local, SupervisionEvent, is_all_deactivated, is_one_failed, check_transitions_out_of_deactivated,
  check_transitions_out_of_ok, check_transitions_out_of_failed, check_transitions_out_of_expired,
  deactivate_if_all, update_state, process_event, process_events, handle_data_loss_reaction,
  evaluate, switch_to_expired,
}

-- The statuses that the map may hold while the local supervision has the status.
abbrev pub Allows : LocalStatus → Status → Type 0
Allows LocalStatus.deactivated s = s ≡ deactivated
Allows LocalStatus.ok s = (s ≢ failed) × (s ≢ expired)
Allows LocalStatus.failed s = s ≢ expired
Allows LocalStatus.expired s = Unit

abbrev pub Registered : LocalStatus → List (ℕ × Status) → Type 0
Registered s [] = Unit
Registered s ((k, v) ∷ rest) = Allows s v × Registered s rest

abbrev pub IsConsistent : Local → Type 0
IsConsistent l = Registered l.status l.registered

assign-Registered :
    (s : LocalStatus) (k : ℕ) (v : Status) (m : List (ℕ × Status))
    → Allows s v
    → Registered s m
    → Registered s (assign k v m)
assign-Registered s k v [] a r = (a, tt)
assign-Registered s k v ((j, w) ∷ m) a r = elim (Bool-cases (j == k)) [
  | inl same ↦ rw same (a, r.1)
  | inr other ↦ rw other (r.0, assign-Registered s k v m a r.1)
]

-- A status that allows more is reached without a look at the map.
weaken :
    (s t : LocalStatus) (m : List (ℕ × Status))
    → ((v : Status) → Allows s v → Allows t v)
    → Registered s m
    → Registered t m
weaken s t [] h r = tt
weaken s t ((k, v) ∷ m) h r = (h v r.0, weaken s t m h r.1)

all_deactivated-Registered :
    (m : List (ℕ × Status)) → is_all_deactivated m ≡ true → Registered LocalStatus.deactivated m
unfolding is_all_deactivated
all_deactivated-Registered [] h = tt
all_deactivated-Registered ((k, deactivated) ∷ m) h = (refl, all_deactivated-Registered m h)
all_deactivated-Registered ((k, ok) ∷ m) h = absurd (cc)
all_deactivated-Registered ((k, failed) ∷ m) h = absurd (cc)
all_deactivated-Registered ((k, expired) ∷ m) h = absurd (cc)

none_failed-Registered :
    (m : List (ℕ × Status))
    → is_one_failed m ≡ false
    → Registered LocalStatus.failed m
    → Registered LocalStatus.ok m
unfolding is_one_failed
none_failed-Registered [] h r = tt
none_failed-Registered ((k, failed) ∷ m) h r = absurd (cc)
none_failed-Registered ((k, deactivated) ∷ m) h r = ((λ e. cc, r.0), none_failed-Registered m h r.1)
none_failed-Registered ((k, ok) ∷ m) h r = ((λ e. cc, r.0), none_failed-Registered m h r.1)
none_failed-Registered ((k, expired) ∷ m) h r = absurd (r.0 refl)

-- The map after the event, under a status that allows the event's.
updated :
    (s t : LocalStatus) (k : ℕ) (v : Status) (m : List (ℕ × Status))
    → ((w : Status) → Allows s w → Allows t w)
    → Allows t v
    → Registered s m
    → Registered t (assign k v m)
updated s t k v m h a r = assign-Registered t k v m a (weaken s t m h r)

deactivate_if_all-IsConsistent :
    (e : SupervisionEvent) (l : Local) → IsConsistent l → IsConsistent (deactivate_if_all e l)
unfolding deactivate_if_all
deactivate_if_all-IsConsistent e l c = elim (Bool-cases (is_all_deactivated l.registered)) [
  | inl gone ↦ rw gone (all_deactivated-Registered l.registered gone)
  | inr some_left ↦ rw some_left c
]

module _ (e : SupervisionEvent) (l : Local) (k : ℕ) (m : List (ℕ × Status)) where
  -- The event leaves the status.
  stays :
      (s : LocalStatus) (v : Status)
      → l.status ≡ s
      → l.registered ≡ assign k v m
      → Allows s v
      → Registered s m
      → IsConsistent l
  stays s v p q a r = rw (p, q) (assign-Registered s k v m a r)

  out_of_deactivated-IsConsistent :
      (v : Status)
      → l.status ≡ LocalStatus.deactivated
      → l.registered ≡ assign k v m
      → Registered LocalStatus.deactivated m
      → IsConsistent (check_transitions_out_of_deactivated v e l)
  unfolding check_transitions_out_of_deactivated
  out_of_deactivated-IsConsistent deactivated s q r =
      stays LocalStatus.deactivated deactivated s q refl r
  out_of_deactivated-IsConsistent ok s q r = rw q (
      updated LocalStatus.deactivated LocalStatus.ok k ok m (λ w h. (λ x. cc, λ x. cc))
        (λ x. cc, λ x. cc) r)
  out_of_deactivated-IsConsistent failed s q r =
      rw q (updated LocalStatus.deactivated LocalStatus.failed k failed m (λ w h x. cc) (λ x. cc) r)
  out_of_deactivated-IsConsistent expired s q r =
      rw q (updated LocalStatus.deactivated LocalStatus.expired k expired m (λ w h. tt) tt r)

  out_of_ok-IsConsistent :
      (v : Status)
      → l.status ≡ LocalStatus.ok
      → l.registered ≡ assign k v m
      → Registered LocalStatus.ok m
      → IsConsistent (check_transitions_out_of_ok v e l)
  unfolding check_transitions_out_of_ok
  out_of_ok-IsConsistent deactivated s q r =
      deactivate_if_all-IsConsistent e l (stays LocalStatus.ok deactivated s q (λ x. cc, λ x. cc) r)
  out_of_ok-IsConsistent ok s q r = stays LocalStatus.ok ok s q (λ x. cc, λ x. cc) r
  out_of_ok-IsConsistent failed s q r =
      rw q (updated LocalStatus.ok LocalStatus.failed k failed m (λ w h. h.1) (λ x. cc) r)
  out_of_ok-IsConsistent expired s q r =
      rw q (updated LocalStatus.ok LocalStatus.expired k expired m (λ w h. tt) tt r)

  out_of_failed-IsConsistent :
      (v : Status)
      → l.status ≡ LocalStatus.failed
      → l.registered ≡ assign k v m
      → Registered LocalStatus.failed m
      → IsConsistent (check_transitions_out_of_failed v e l)
  unfolding check_transitions_out_of_failed
  out_of_failed-IsConsistent deactivated s q r =
      deactivate_if_all-IsConsistent e l (stays LocalStatus.failed deactivated s q (λ x. cc) r)
  out_of_failed-IsConsistent ok s q r =
      let c = stays LocalStatus.failed ok s q (λ x. cc) r in
      elim (Bool-cases (is_one_failed l.registered)) [
        | inl still ↦ rw still c
        | inr none_left ↦ rw none_left (
            none_failed-Registered l.registered none_left
              (rw q (assign-Registered LocalStatus.failed k ok m (λ x. cc) r)))
      ]
  out_of_failed-IsConsistent failed s q r = stays LocalStatus.failed failed s q (λ x. cc) r
  out_of_failed-IsConsistent expired s q r =
      rw q (updated LocalStatus.failed LocalStatus.expired k expired m (λ w h. tt) tt r)

  out_of_expired-IsConsistent :
      (v : Status)
      → l.status ≡ LocalStatus.expired
      → l.registered ≡ assign k v m
      → Registered LocalStatus.expired m
      → IsConsistent (check_transitions_out_of_expired v e l)
  unfolding check_transitions_out_of_expired
  out_of_expired-IsConsistent deactivated s q r =
      deactivate_if_all-IsConsistent e l (stays LocalStatus.expired deactivated s q tt r)
  out_of_expired-IsConsistent ok s q r = stays LocalStatus.expired ok s q tt r
  out_of_expired-IsConsistent failed s q r = stays LocalStatus.expired failed s q tt r
  out_of_expired-IsConsistent expired s q r = stays LocalStatus.expired expired s q tt r

update_state-IsConsistent :
    (s : LocalStatus) (e : SupervisionEvent) (l : Local) (m : List (ℕ × Status))
    → l.status ≡ s
    → l.registered ≡ assign e.supervision e.status m
    → Registered s m
    → IsConsistent (update_state s e l)
unfolding update_state
update_state-IsConsistent LocalStatus.deactivated e l m =
    out_of_deactivated-IsConsistent e l e.supervision m e.status
update_state-IsConsistent LocalStatus.ok e l m = out_of_ok-IsConsistent e l e.supervision m e.status
update_state-IsConsistent LocalStatus.failed e l m =
    out_of_failed-IsConsistent e l e.supervision m e.status
update_state-IsConsistent LocalStatus.expired e l m =
    out_of_expired-IsConsistent e l e.supervision m e.status

process_event-IsConsistent :
    (e : SupervisionEvent) (l : Local) → IsConsistent l → IsConsistent (process_event e l)
unfolding process_event
process_event-IsConsistent e l c =
    update_state-IsConsistent l.status e
      (record l { registered = assign e.supervision e.status l.registered }) l.registered refl refl
      c

process_events-IsConsistent :
    (es : List SupervisionEvent) (l : Local) → IsConsistent l → IsConsistent (process_events es l)
unfolding process_events
process_events-IsConsistent [] l c = c
process_events-IsConsistent (e ∷ es) l c =
    process_events-IsConsistent es (process_event e l) (process_event-IsConsistent e l c)

any_allowed : (m : List (ℕ × Status)) → Registered LocalStatus.expired m
any_allowed [] = tt
any_allowed ((k, v) ∷ m) = (tt, any_allowed m)

handle_data_loss_reaction-expires :
    (l : Local) → ((handle_data_loss_reaction l).status ≡ LocalStatus.expired)
unfolding handle_data_loss_reaction switch_to_expired
handle_data_loss_reaction-expires l = ground arith

-- Each evaluation leaves each checkpoint supervision in the map with the status that it reported last,
-- and the local status consistent with these: deactivated only while all of them are, ok only while
-- none is failed or expired, failed only while none is expired. This holds for any events; on a data
-- loss, where the events are dropped, the map stays as it is.
pub evaluate-IsConsistent :
    (t : ℕ) (l : Local)
    → IsConsistent l
    → IsConsistent (evaluate t l)
      × ((k : ℕ)
          → entry k (evaluate t l).registered ≡ (
              if l.is_data_loss_event
              then entry k l.registered
              else last_reported k (elements l.buffer) (entry k l.registered)))
unfolding evaluate
evaluate-IsConsistent t l c = (branches l.is_data_loss_event, entries l.is_data_loss_event)
  where
    lost : Local
    lost = handle_data_loss_reaction l

    kept : Local
    kept = process_events (elements l.buffer) l

    after : Bool → Local
    after b =
        if b
        then record lost { last_sync_timestamp = t }
        else record kept { buffer = clear kept.buffer; last_sync_timestamp = t }

    branches : (b : Bool) → IsConsistent (after b)
    branches true = rw (handle_data_loss_reaction-expires l) (any_allowed lost.registered)
    branches false = process_events-IsConsistent (elements l.buffer) l c

    entries :
        (b : Bool) (k : ℕ)
        → entry k (after b).registered ≡ (
            if b
            then entry k l.registered
            else last_reported k (elements l.buffer) (entry k l.registered))
    entries true k = ap (entry k) (handle_data_loss_reaction-registered l)
    entries false k = process_events-entry k (elements l.buffer) l
