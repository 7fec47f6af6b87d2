-- ===== src/Group/States.antt =====
-- Sequences of setState calls on a process group
-- (src/launch_manager_daemon/src/process_group_manager/graph.cpp and graph.hpp).
use inc_lifecycle.Base.{List, [], ◌∷◌, ◌≡◌, refl, ◌⊎◌, inl, inr, arith, sym, subst, ap, ◌↔◌}
use inc_lifecycle.Group.{
  GraphState, success, in_transition, aborting, cancelled, undefined_state, state_results,
  next_graph_state,
}

-- The state after the calls, the latest first.
abbrev pub after : GraphState → List GraphState → GraphState
after s [] = s
after s (r ∷ rs) = next_graph_state r (after s rs)

-- The latest calls are a request of the transition, from success or the undefined state, and repeats
-- of it.
pub data IsEntered (s : GraphState) : List GraphState → Type 0 where
  was_in : s ≡ in_transition → IsEntered s []
  entered :
      {rs : List GraphState}
      → (after s rs ≡ success) ⊎ (after s rs ≡ undefined_state)
      → IsEntered s (in_transition ∷ rs)
  remains : {rs : List GraphState} → IsEntered s rs → IsEntered s (in_transition ∷ rs)

pub data IsCompleted (s : GraphState) : List GraphState → Type 0 where
  was_done : s ≡ success → IsCompleted s []
  completed : {rs : List GraphState} → IsEntered s rs → IsCompleted s (success ∷ rs)
  keeps : {rs : List GraphState} → IsCompleted s rs → IsCompleted s (success ∷ rs)

next-in_transition :
    (r s : GraphState)
    → next_graph_state r s ≡ in_transition
    → (r ≡ in_transition) × ((s ≡ in_transition) ⊎ ((s ≡ success) ⊎ (s ≡ undefined_state)))
unfolding next_graph_state state_results
next-in_transition in_transition success h = (refl, inr (inl refl))
next-in_transition in_transition in_transition h = (refl, inl refl)
next-in_transition in_transition undefined_state h = (refl, inr (inr refl))
next-in_transition in_transition aborting h = absurd (cc)
next-in_transition in_transition cancelled h = absurd (cc)
next-in_transition success s h = ground arith
next-in_transition aborting s h = ground arith
next-in_transition cancelled s h = ground arith
next-in_transition undefined_state s h = ground arith

next-success :
    (r s : GraphState)
    → next_graph_state r s ≡ success
    → (r ≡ success) × ((s ≡ success) ⊎ (s ≡ in_transition))
unfolding next_graph_state state_results
next-success success success h = (refl, inl refl)
next-success success in_transition h = (refl, inr refl)
next-success success aborting h = absurd (cc)
next-success success cancelled h = absurd (cc)
next-success success undefined_state h = absurd (cc)
next-success in_transition s h = ground arith
next-success aborting s h = ground arith
next-success cancelled s h = ground arith
next-success undefined_state s h = ground arith

in_transition-IsEntered :
    (s : GraphState) (rs : List GraphState) → after s rs ≡ in_transition → IsEntered s rs
in_transition-IsEntered s [] h = was_in h
in_transition-IsEntered s (r ∷ rs) h =
    let (e, before) = next-in_transition r (after s rs) h in
    subst (λ x. IsEntered s (x ∷ rs)) (sym e)
      (elim before [ inl k ↦ remains (in_transition-IsEntered s rs k) | inr k ↦ entered k ])

success-IsCompleted :
    (s : GraphState) (rs : List GraphState) → after s rs ≡ success → IsCompleted s rs
success-IsCompleted s [] h = was_done h
success-IsCompleted s (r ∷ rs) h =
    let (e, before) = next-success r (after s rs) h in
    subst (λ x. IsCompleted s (x ∷ rs)) (sym e)
      (elim before [
        | inl k ↦ keeps (success-IsCompleted s rs k)
        | inr k ↦ completed (in_transition-IsEntered s rs k)
      ])

IsEntered-after :
    (s : GraphState) (rs : List GraphState) → IsEntered s rs → after s rs ≡ in_transition
unfolding next_graph_state state_results
IsEntered-after s [] (was_in h) = h
IsEntered-after s (_ ∷ rs) (entered (inl h)) = ap (next_graph_state in_transition) h
IsEntered-after s (_ ∷ rs) (entered (inr h)) = ap (next_graph_state in_transition) h
IsEntered-after s (_ ∷ rs) (remains e) =
    ap (next_graph_state in_transition) (IsEntered-after s rs e)

IsCompleted-after :
    (s : GraphState) (rs : List GraphState) → IsCompleted s rs → after s rs ≡ success
unfolding next_graph_state state_results
IsCompleted-after s [] (was_done h) = h
IsCompleted-after s (_ ∷ rs) (completed e) = ap (next_graph_state success) (IsEntered-after s rs e)
IsCompleted-after s (_ ∷ rs) (keeps c) = ap (next_graph_state success) (IsCompleted-after s rs c)

-- After any calls of setState a process group is in the state success exactly where it was so before
-- and only success was asked for since, or a transition was asked for in the state success or in the
-- undefined state (or was under way at the start), and after it nothing but the transition and then
-- nothing but success.
pub after-IsCompleted :
    (s : GraphState) (rs : List GraphState) → after s rs ≡ success ↔ IsCompleted s rs
after-IsCompleted s rs = (success-IsCompleted s rs, IsCompleted-after s rs)
