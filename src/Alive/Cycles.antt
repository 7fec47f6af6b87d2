-- ===== src/Alive/Cycles.antt =====
-- Alive::evaluate as a whole.
use inc_lifecycle.Base.{
  ℕ, ◌+◌, ◌≤◌, ◌<◌, ◌≡◌, refl, inl, inr, true, false, some, List, [], ◌∷◌, ◌++◌, arith, Bool-cases,
  length, All,
}
use inc_lifecycle.Buffer.{Entry, Buffer, push, clear, elements}
use inc_lifecycle.Buffer.Contract.{IsFiled, push_outcome, elements-push_latest, All-elements}
use inc_lifecycle.Checkpoint.{expired, UpdateEvent, timestamp_of_update_event}
use inc_lifecycle.Alive.{Alive, data_loss, buffer_full, switch_to_expired}
use inc_lifecycle.Alive.Evaluate.{
  store_sync_event, handle_data_loss_reaction, lost_data, process_events, evaluate,
}
use inc_lifecycle.Alive.Valid.{is_running, IsValid, switch_to_expired-IsValid}
use inc_lifecycle.Alive.Termination.{process_events-total}

-- What an evaluation at `t` leaves.
pub record IsEvaluated (t : ℕ) (b : Alive) : Type 0 where
  pub valid : IsValid b
  pub cycle_ahead : is_running b.status ≡ true → t < b.reference_cycle_end
  pub synchronized : b.last_sync_timestamp ≡ t
  pub emptied : b.buffer.chain ≡ []

handle_data_loss_reaction-IsValid :
    (a : Alive)
    → IsValid a
    → IsValid (handle_data_loss_reaction a) × ((handle_data_loss_reaction a).status ≡ expired)
unfolding handle_data_loss_reaction
handle_data_loss_reaction-IsValid a v =
    ground (arith, switch_to_expired-IsValid data_loss a v, expires)
  where
    expires : (switch_to_expired data_loss a).status ≡ expired
    expires = unfold switch_to_expired in refl

-- The two outcomes of storing the event of the synchronization.
store_sync_event-stored :
    (t : ℕ) (a : Alive)
    → (push (UpdateEvent.sync t) t a.buffer).1 ≡ true
    → store_sync_event t a ≡ record a { buffer = (push (UpdateEvent.sync t) t a.buffer).0 }
unfolding store_sync_event
store_sync_event-stored t a h = rw h refl

store_sync_event-full :
    (t : ℕ) (a : Alive)
    → (push (UpdateEvent.sync t) t a.buffer).1 ≡ false
    → store_sync_event t a
      ≡ record a { data_loss_reason = buffer_full; event_timestamp = a.last_sync_timestamp }
unfolding store_sync_event
store_sync_event-full t a h = rw h refl

store_sync_event-IsValid : (t : ℕ) (a : Alive) → IsValid a → IsValid (store_sync_event t a)
store_sync_event-IsValid t a v = elim (Bool-cases (push (UpdateEvent.sync t) t a.buffer).1) [
  | inl stored ↦ rw (store_sync_event-stored t a stored) (ground arith)
  | inr full ↦ rw (store_sync_event-full t a full) (ground arith)
]

data_loss-IsEvaluated :
    (fuel t : ℕ) (a : Alive)
    → IsValid (store_sync_event t a)
    → lost_data (store_sync_event t a).data_loss_reason ≡ true
    → (b : Alive) × (evaluate fuel t a ≡ some b) × IsEvaluated t b
unfolding evaluate clear handle_data_loss_reaction
data_loss-IsEvaluated fuel t a v lost =
    let a1 = handle_data_loss_reaction (store_sync_event t a) in
    let valid = handle_data_loss_reaction-IsValid (store_sync_event t a) v in
    (
      record a1 { last_sync_timestamp = t },
      rw lost refl,
      record {
        valid = ground (arith, valid);
        cycle_ahead = λ r. ground (arith, valid, r);
        synchronized = refl;
        emptied = refl;
      },
    )

evaluate_kept :
    (fuel t : ℕ) (a a1 b : Alive) (events : List UpdateEvent)
    → store_sync_event t a ≡ a1
    → lost_data a1.data_loss_reason ≡ false
    → elements a1.buffer ≡ events
    → process_events fuel events a1 ≡ some b
    → evaluate fuel t a ≡ some (record b { buffer = clear b.buffer; last_sync_timestamp = t })
unfolding evaluate
evaluate_kept fuel t a a1 b events e k s d = rw (e, k, s, d) refl

-- Alive::evaluate returns, for a synchronization that is not before any event in the buffer and fuel
-- beyond it. It leaves the supervision valid, the buffer empty and, if the supervision is ok or
-- failed, a reference cycle that ends after the synchronization: none that has ended is unjudged.
pub evaluate-IsEvaluated :
    (fuel t : ℕ) (a : Alive)
    → IsValid a
    → IsFiled timestamp_of_update_event a.buffer
    → All (λ (e : Entry UpdateEvent). e.timestamp ≤ t) a.buffer.chain
    → t + 2 ≤ fuel
    → (b : Alive) × (evaluate fuel t a ≡ some b) × IsEvaluated t b
unfolding clear
evaluate-IsEvaluated fuel t a v filed late enough =
    elim (Bool-cases (lost_data (store_sync_event t a).data_loss_reason)) [
      | inl lost ↦ data_loss-IsEvaluated fuel t a (store_sync_event-IsValid t a v) lost
      | inr kept ↦ elim (Bool-cases (push (UpdateEvent.sync t) t a.buffer).1) [
        | inr full ↦ absurd (ground (arith, kept, store_sync_event-full t a full))
        | inl stored ↦
            let a1 = record a { buffer = (push (UpdateEvent.sync t) t a.buffer).0 } in
            let room : length a.buffer.chain < a.buffer.capacity =
              ground (arith, push_outcome (UpdateEvent.sync t) t a.buffer) in
            let stores = store_sync_event-stored t a stored in
            let events = sync_last t a.buffer filed late room in
            let early = All-elements timestamp_of_update_event t a.buffer filed late in
            let done =
              process_events-total fuel t (elements a.buffer) a1 (ground arith) early enough in
            (
              record done.0 { buffer = clear done.0.buffer; last_sync_timestamp = t },
              evaluate_kept fuel t a a1 done.0 (elements a.buffer ++ UpdateEvent.sync t ∷ []) stores
                  (rw stores at kept) events done.1,
              record {
                valid = let w = done.2 in ground arith;
                cycle_ahead = done.3;
                synchronized = refl;
                emptied = refl;
              },
            )
      ]
    ]
  where
    sync_last :
        (t : ℕ) (b : Buffer UpdateEvent)
        → IsFiled timestamp_of_update_event b
        → All (λ (e : Entry UpdateEvent). e.timestamp ≤ t) b.chain
        → length b.chain < b.capacity
        → elements (push (UpdateEvent.sync t) t b).0 ≡ elements b ++ UpdateEvent.sync t ∷ []
    sync_last t b filed late room =
        unfold timestamp_of_update_event in
        elements-push_latest timestamp_of_update_event (UpdateEvent.sync t) b filed late room
