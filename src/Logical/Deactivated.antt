-- ===== src/Logical/Deactivated.antt =====
-- The graph of a logical supervision by its status, over whole evaluations.
use inc_lifecycle.Base.{
  ℕ, ◌≡◌, refl, sym, ◌∙◌, subst, inl, inr, Bool, true, false, Option, none, some, List, [], ◌∷◌,
  Bool-cases,
}
use inc_lifecycle.Buffer.{elements}
use inc_lifecycle.Checkpoint.{
  Status, deactivated, ok, failed, expired, UpdateEvent, UpdateType, timestamp_of_update_event,
  event_type,
}
use inc_lifecycle.Logical.{
  Graph, Logical, reset_graph, reset_optional, is_valid_transition, switch_to_deactivated,
  switch_to_ok, switch_to_expired, push_result_to_observers,
}
use inc_lifecycle.Logical.Evaluate.{
  expire_invalid, settle, observe, is_deactivated, is_expired, check_transitions_out_of_deactivated,
  check_transitions_out_of_ok, check_status, check_common_transitions, process_event,
  process_events, handle_data_loss, evaluate,
}
use inc_lifecycle.Logical.Search.{true≢false}
use inc_lifecycle.Logical.Paths.{IsPlaced}
use inc_lifecycle.Logical.Transitions.{is_valid_transition-Step}

-- No status is failed; a deactivated supervision has an inactive graph, and an active graph has a
-- position.
unfoldable pub Fits : Status → Option Graph → Type 0
Fits failed o = ⊥
Fits deactivated none = Unit
Fits deactivated (some g) = g.is_graph_active ≡ false
Fits _ none = Unit
Fits _ (some g) = IsPlaced g

abbrev IsValid : Logical → Type 0
IsValid l = Fits l.status l.graph

reset-Fits : (o : Option Graph) → Fits deactivated (reset_optional o)
unfolding Fits reset_graph
reset-Fits none = tt
reset-Fits (some g) = refl

inactive-IsPlaced : (g : Graph) → g.is_graph_active ≡ false → IsPlaced g
inactive-IsPlaced g h b = absurd (true≢false (sym b ∙ h))

activate-Fits : (o : Option Graph) → Fits deactivated o → Fits ok o
unfolding Fits
activate-Fits none f = f
activate-Fits (some g) f = inactive-IsPlaced g f

expire-Fits : (s : Status) (o : Option Graph) → Fits s o → Fits expired o
unfolding Fits
expire-Fits deactivated none f = f
expire-Fits deactivated (some g) f = inactive-IsPlaced g f
expire-Fits ok none f = f
expire-Fits ok (some g) f = f
expire-Fits expired none f = f
expire-Fits expired (some g) f = f
expire-Fits failed o f = absurd f

settle-IsValid :
    (b : Bool) (g : Graph) (c t : ℕ) (l : Logical)
    → l.status ≡ ok
    → IsPlaced g
    → IsValid (settle (b, g) c t l)
unfolding Fits settle expire_invalid switch_to_expired push_result_to_observers
settle-IsValid true g c t l k p = subst (λ s. Fits s (some g)) (sym k) p
settle-IsValid false g c t l k p = p

observe-IsValid :
    (o : Option Graph) (c t : ℕ) (l : Logical)
    → l.status ≡ ok
    → l.graph ≡ o
    → Fits ok o
    → IsValid (observe o c t l)
unfolding Fits observe expire_invalid switch_to_expired push_result_to_observers
observe-IsValid none c t l k q f = subst (Fits expired) (sym q) f
observe-IsValid (some g) c t l k q f =
    settle-IsValid (is_valid_transition c g).0 (is_valid_transition c g).1 c t l k
      (is_valid_transition-Step c g f).0

activation-IsValid :
    (u : UpdateType) (t : ℕ) (l : Logical)
    → l.status ≡ deactivated
    → IsValid l
    → IsValid (check_transitions_out_of_deactivated u t l)
unfolding check_transitions_out_of_deactivated switch_to_ok push_result_to_observers
activation-IsValid UpdateType.activation t l k f =
    activate-Fits l.graph (subst (λ s. Fits s l.graph) k f)
activation-IsValid _ t l k f = f

ok-IsValid :
    (u : UpdateType) (t : ℕ) (e : UpdateEvent) (l : Logical)
    → l.status ≡ ok
    → IsValid l
    → IsValid (check_transitions_out_of_ok u t e l)
unfolding check_transitions_out_of_ok
ok-IsValid UpdateType.checkpoint t (UpdateEvent.checkpoint c stamp) l k f =
    observe-IsValid l.graph c t l k refl (subst (λ s. Fits s l.graph) k f)
ok-IsValid _ t e l k f = f

check_status-IsValid :
    (s : Status) (u : UpdateType) (t : ℕ) (e : UpdateEvent) (l : Logical)
    → l.status ≡ s
    → IsValid l
    → IsValid (check_status s u t e l)
unfolding check_status Fits
check_status-IsValid deactivated u t e l k f = activation-IsValid u t l k f
check_status-IsValid ok u t e l k f = ok-IsValid u t e l k f
check_status-IsValid expired u t e l k f = f
check_status-IsValid failed u t e l k f = absurd (subst (λ s. Fits s l.graph) k f)

check_common_transitions-IsValid :
    (u : UpdateType) (t : ℕ) (l : Logical) → IsValid l → IsValid (check_common_transitions u t l)
unfolding check_common_transitions switch_to_deactivated push_result_to_observers
check_common_transitions-IsValid UpdateType.recovered_from_crash t l f =
    activation-IsValid UpdateType.activation t (switch_to_deactivated l) refl (reset-Fits l.graph)
check_common_transitions-IsValid UpdateType.deactivation t l f =
    elim (Bool-cases (is_deactivated l.status)) [
      | inl h ↦ rw h f
      | inr h ↦ rw h (reset-Fits l.graph)
    ]
check_common_transitions-IsValid _ t l f = f

process_event-IsValid : (e : UpdateEvent) (l : Logical) → IsValid l → IsValid (process_event e l)
unfolding process_event
process_event-IsValid e l f =
    let (u, tracker, errors) = event_type e l.process_tracker l.execution_errors in
    let l1 = record l { process_tracker = tracker; execution_errors = errors } in
    let t = timestamp_of_update_event e in
    check_common_transitions-IsValid u t (check_status l.status u t e l1)
      (check_status-IsValid l.status u t e l1 refl f)

process_events-IsValid :
    (es : List UpdateEvent) (l : Logical) → IsValid l → IsValid (process_events es l)
unfolding process_events
process_events-IsValid [] l f = f
process_events-IsValid (e ∷ es) l f =
    process_events-IsValid es (process_event e l) (process_event-IsValid e l f)

-- An evaluation keeps a logical supervision valid: the status failed is never reached, the graph of
-- a deactivated supervision is inactive, so that the next checkpoint must be an entry, and the graph
-- has a position while it is active, so that the code never follows a null pointer.
pub evaluate-Fits :
    (t : ℕ) (l : Logical) → Fits l.status l.graph → Fits (evaluate t l).status (evaluate t l).graph
unfolding evaluate handle_data_loss switch_to_expired push_result_to_observers
evaluate-Fits t l f = elim (Bool-cases l.is_data_loss_event) [
  | inl h ↦ elim (Bool-cases (is_expired l.status)) [
    | inl x ↦ rw h (rw x f)
    | inr x ↦ rw h (rw x (expire-Fits l.status l.graph f))
  ]
  | inr h ↦ simp h (process_events-IsValid (elements l.buffer) l f)
]
