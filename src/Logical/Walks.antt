-- ===== src/Logical/Walks.antt =====
-- What a logical supervision in the status ok makes of a sequence of checkpoints.
use inc_lifecycle.Base.{
  ℕ, ◌≡◌, refl, sym, ap, ◌∙◌, subst, ◌⊎◌, inl, inr, Bool, true, false, Option, none, some, List, [],
  ◌∷◌, map, Bool-cases,
}
use inc_lifecycle.Checkpoint.{
  ok, expired, UpdateEvent, UpdateType, timestamp_of_update_event, event_type,
}
use inc_lifecycle.Logical.{
  GraphElement, Graph, Logical, Result, error, valid, valid_final, advance, get_next_element,
  find_entry, is_valid_transition, switch_to_expired, push_result_to_observers,
}
use inc_lifecycle.Logical.Evaluate.{
  expire_invalid, settle, observe, check_transitions_out_of_ok, check_status,
  check_common_transitions, process_event, process_events,
}
use inc_lifecycle.Logical.Search.{true≢false}
use inc_lifecycle.Logical.Paths.{Step, IsPlaced, position_of}
use inc_lifecycle.Logical.Transitions.{is_valid_transition-Step}

-- The graph that a supervision holds, at a position.
pub record Holds (elems : List GraphElement) (entries : List ℕ) (position : Option ℕ) (l : Logical)
    : Type 0 where
  pub graph : Graph
  pub held : l.graph ≡ some graph
  pub same_elements : graph.elements ≡ elems
  pub same_entries : graph.entries ≡ entries
  pub is_placed : IsPlaced graph
  pub at : position_of graph ≡ position

module _ (elems : List GraphElement) (entries : List ℕ) where
  -- The checkpoints are a walk of the graph.
  pub data Walk : Option ℕ → List ℕ → Option ℕ → Type 0 where
    done : (p : Option ℕ) → Walk p [] p
    next :
        (p q r : Option ℕ) (c : ℕ) (cs : List ℕ)
        → Step elems entries p c q
        → Walk q cs r
        → Walk p (c ∷ cs) r

  -- The checkpoints leave the graph: a walk, and then a checkpoint that no step takes.
  pub data Leaves : Option ℕ → List ℕ → Type 0 where
    here :
        (p : Option ℕ) (c : ℕ) (cs : List ℕ)
        → ((q : Option ℕ) → ¬ Step elems entries p c q)
        → Leaves p (c ∷ cs)
    later :
        (p q : Option ℕ) (c : ℕ) (cs : List ℕ)
        → Step elems entries p c q
        → Leaves q cs
        → Leaves p (c ∷ cs)

abbrev pub checkpoint : ℕ × ℕ → UpdateEvent
checkpoint (c, t) = UpdateEvent.checkpoint c t

abbrev pub reported : ℕ × ℕ → ℕ
reported (c, t) = c

advance-graph :
    (g : Graph) (r : Result × Option ℕ)
    → ((advance g r).1.elements ≡ g.elements) × ((advance g r).1.entries ≡ g.entries)
advance-graph g (error, q) = (refl, refl)
advance-graph g (valid, q) = (refl, refl)
advance-graph g (valid_final, q) = (refl, refl)

found-graph :
    (g : Graph) (c : ℕ) (o : Option ℕ)
    → find_entry g.elements c g.entries ≡ o
    → g.is_graph_active ≡ false
    → ((is_valid_transition c g).1.elements ≡ g.elements)
      × ((is_valid_transition c g).1.entries ≡ g.entries)
unfolding is_valid_transition
found-graph g c none q h = simp (is_valid_transition, h, q) (refl, refl)
found-graph g c (some i) q h = simp (is_valid_transition, h, q) (refl, refl)

is_valid_transition-graph :
    (c : ℕ) (g : Graph)
    → ((is_valid_transition c g).1.elements ≡ g.elements)
      × ((is_valid_transition c g).1.entries ≡ g.entries)
unfolding is_valid_transition
is_valid_transition-graph c g = elim (Bool-cases g.is_graph_active) [
  | inl h ↦ simp (is_valid_transition, h) (advance-graph g (get_next_element c g))
  | inr h ↦ found-graph g c (find_entry g.elements c g.entries) refl h
]

module _ (c t : ℕ) (l : Logical) where
  process_event-observe :
      l.status ≡ ok → process_event (UpdateEvent.checkpoint c t) l ≡ observe l.graph c t l
  unfolding process_event check_status check_common_transitions check_transitions_out_of_ok
      event_type timestamp_of_update_event
  process_event-observe k =
      ap (λ s. check_status s UpdateType.checkpoint t (UpdateEvent.checkpoint c t) l) k

  settle-true :
      (b : Bool) (g : Graph)
      → b ≡ true
      → settle (b, g) c t l ≡ record l { event_timestamp = t; graph = some g }
  unfolding settle
  settle-true true g h = refl
  settle-true false g h = absurd (true≢false (sym h))

  settle-false : (g : Graph) → (settle (false, g) c t l).status ≡ expired
  unfolding settle expire_invalid switch_to_expired push_result_to_observers
  settle-false g = refl

Outcome : List GraphElement → List ℕ → Option ℕ → ℕ → Logical → Type 0
Outcome elems entries p c l =
    ((l.status ≡ ok) × (q : Option ℕ) × Step elems entries p c q × Holds elems entries q l)
    ⊎ ((l.status ≡ expired) × ((q : Option ℕ) → ¬ Step elems entries p c q))

settle-Outcome :
    (c t : ℕ) (l : Logical) (g : Graph)
    → l.status ≡ ok
    → IsPlaced g
    → Outcome g.elements g.entries (position_of g) c (settle (is_valid_transition c g) c t l)
unfolding Outcome
settle-Outcome c t l g k placed =
    let (placed', decided) = is_valid_transition-Step c g placed in
    elim decided [
      | inl (b, s) ↦
          subst (Outcome g.elements g.entries (position_of g) c)
            (sym (settle-true c t l (is_valid_transition c g).0 (is_valid_transition c g).1 b))
            (inl (
              k,
              position_of (is_valid_transition c g).1,
              s,
              record {
                graph = (is_valid_transition c g).1;
                held = refl;
                same_elements = (is_valid_transition-graph c g).0;
                same_entries = (is_valid_transition-graph c g).1;
                is_placed = placed';
                at = refl;
              },
            ))
      | inr (b, none_left, eq) ↦
          subst (λ r. Outcome g.elements g.entries (position_of g) c (settle r c t l)) (sym eq)
            (inr (settle-false c t l g, none_left))
    ]

-- The supervision takes a step of the graph and stays ok, or there is none and it expires.
process_event-Outcome :
    (p : Option ℕ) (c t : ℕ) (l : Logical) (elems : List GraphElement) (entries : List ℕ)
    → l.status ≡ ok
    → Holds elems entries p l
    → Outcome elems entries p c (process_event (UpdateEvent.checkpoint c t) l)
unfolding observe
process_event-Outcome p c t l elems entries k h =
    subst (λ x. Outcome elems entries x c after) h.at
      (subst (λ x. Outcome elems x (position_of h.graph) c after) h.same_entries
        (subst (λ x. Outcome x h.graph.entries (position_of h.graph) c after) h.same_elements
          (subst (Outcome h.graph.elements h.graph.entries (position_of h.graph) c)
            (sym (process_event-observe c t l k ∙ ap (λ o. observe o c t l) h.held))
            (settle-Outcome c t l h.graph k h.is_placed))))
  where
    after : Logical
    after = process_event (UpdateEvent.checkpoint c t) l

process_events-expired :
    (cs : List (ℕ × ℕ)) (l : Logical)
    → l.status ≡ expired
    → (process_events (map checkpoint cs) l).status ≡ expired
unfolding process_events process_event check_status check_common_transitions event_type
    timestamp_of_update_event
process_events-expired [] l h = h
process_events-expired ((c, t) ∷ cs) l h =
    process_events-expired cs (process_event (UpdateEvent.checkpoint c t) l) (
      ap (λ s. (check_status s UpdateType.checkpoint t (UpdateEvent.checkpoint c t) l).status) h
      ∙ h)

-- A supervision that is ok stays ok over a sequence of checkpoints just where they are a walk of its
-- graph: it is ok in the end and they are one, or it is expired in the end and they leave the graph.
pub process_events-Walk :
    (cs : List (ℕ × ℕ)) (p : Option ℕ) (l : Logical) (elems : List GraphElement) (entries : List ℕ)
    → l.status ≡ ok
    → Holds elems entries p l
    → (((process_events (map checkpoint cs) l).status ≡ ok)
        × (q : Option ℕ) × Walk elems entries p (map reported cs) q
        × Holds elems entries q (process_events (map checkpoint cs) l))
      ⊎ (((process_events (map checkpoint cs) l).status ≡ expired)
          × Leaves elems entries p (map reported cs))
unfolding process_events Outcome
process_events-Walk [] p l elems entries k h = inl (k, p, done p, h)
process_events-Walk ((c, t) ∷ cs) p l elems entries k h =
    elim (process_event-Outcome p c t l elems entries k h) [
      | inl (k', q, s, h') ↦ elim (process_events-Walk cs q after elems entries k' h') [
        | inl (k'', r, w, h'') ↦ inl (k'', r, next p q r c (map reported cs) s w, h'')
        | inr (x, w) ↦ inr (x, later p q c (map reported cs) s w)
      ]
      | inr (x, none_left) ↦
          inr (process_events-expired cs after x, here p c (map reported cs) none_left)
    ]
  where
    after : Logical
    after = process_event (UpdateEvent.checkpoint c t) l
