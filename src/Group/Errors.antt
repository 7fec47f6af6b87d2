-- ===== src/Group/Errors.antt =====
-- Transitions that are refused and processes that end unexpectedly
-- (src/launch_manager_daemon/src/process_group_manager/graph.cpp and processinfonode.cpp).
use inc_lifecycle.Base.{
  ℕ, true, false, none, some, List, ◌≡◌, refl, sym, ap, ◌∙◌, arith, ◌⊎◌, inl, inr, ◌↔◌, Bool-cases,
  Option-cases,
}
use inc_lifecycle.Group.{
  GraphState, in_transition, success, aborting, cancelled, undefined_state, is_graph_state, Graph,
  set_graph_state, next_graph_state, state_results,
}
use inc_lifecycle.Group.Nodes.{start_transition}

-- A transition to a state is refused where the configuration does not list it or the process group
-- has a failed transition that is not over.
abbrev pub IsRefused : ℕ → Graph → Type 0
IsRefused pg_state g =
    (g.process_indexes pg_state ≡ none) ⊎ ((g.state ≡ aborting) ⊎ (g.state ≡ cancelled))

refused_state :
    (s : GraphState)
    → is_graph_state (next_graph_state in_transition s) in_transition ≡ false
    → ((s ≡ aborting) ⊎ (s ≡ cancelled)) × (next_graph_state in_transition s ≡ s)
unfolding next_graph_state state_results
refused_state aborting h = (inl refl, refl)
refused_state cancelled h = (inr refl, refl)
refused_state success h = absurd (cc)
refused_state in_transition h = absurd (cc)
refused_state undefined_state h = absurd (cc)

state_refused :
    (s : GraphState)
    → (s ≡ aborting) ⊎ (s ≡ cancelled)
    → is_graph_state (next_graph_state in_transition s) in_transition ≡ false
unfolding next_graph_state state_results
state_refused aborting h = refl
state_refused cancelled h = refl
state_refused success h = ground arith
state_refused in_transition h = ground arith
state_refused undefined_state h = ground arith

start_transition_in :
    (pg_state : ℕ) (g : Graph) (w : List ℕ)
    → g.process_indexes pg_state ≡ some w
    → is_graph_state (next_graph_state in_transition g.state) in_transition ≡ true
    → (start_transition pg_state g).0 ≡ true
unfolding start_transition set_graph_state
start_transition_in pg_state g w e b = rw (e, start_transition) (rw b refl)

start_transition_out :
    (pg_state : ℕ) (g : Graph) (w : List ℕ)
    → g.process_indexes pg_state ≡ some w
    → is_graph_state (next_graph_state in_transition g.state) in_transition ≡ false
    → start_transition pg_state g ≡ (false, g)
unfolding start_transition set_graph_state
start_transition_out pg_state g w e b =
    let same = (refused_state g.state b).1 in
    rw (e, start_transition) (rw b (ap (λ s. (false, record g { state = s })) same))

true-ne-false : true ≡ false → ⊥
true-ne-false h = absurd (cc)

-- A transition is started exactly where it is not refused; a refused one leaves the process group as
-- it was.
pub start_transition-IsRefused :
    (pg_state : ℕ) (g : Graph)
    → ((start_transition pg_state g).0 ≡ false ↔ IsRefused pg_state g)
      × ((start_transition pg_state g).0 ≡ false → (start_transition pg_state g).1 ≡ g)
unfolding start_transition set_graph_state
start_transition-IsRefused pg_state g = elim (Option-cases (g.process_indexes pg_state)) [
  | inl e ↦ rw (e, start_transition) ((λ _. inl refl, λ _. refl), λ _. refl)
  | inr (w, e) ↦
      elim (Bool-cases (is_graph_state (next_graph_state in_transition g.state) in_transition)) [
        | inl b ↦
            let started = start_transition_in pg_state g w e b in
            (
              (
                λ k. absurd (cc),
                λ r. elim r [
                  | inl k ↦ absurd (cc)
                  | inr k ↦ absurd (true-ne-false (sym b ∙ state_refused g.state k))
                ],
              ),
              λ k. absurd (cc),
            )
        | inr b ↦
            let refused = start_transition_out pg_state g w e b in
            let why : IsRefused pg_state g = inr (refused_state g.state b).0 in
            ((λ _. why, λ _. ap (λ r. r.0) refused), λ _. ap (λ r. r.1) refused)
      ]
]
