-- ===== src/Logical/Transitions.antt =====
-- The test of a checkpoint (Logical.cpp, isValidTransition) against the steps of the graph.
use inc_lifecycle.Base.{
  ℕ, ◌≡◌, refl, sym, ap, subst, ◌∙◌, inl, inr, true, false, Option, none, some, if◌then◌else◌,
  Bool-cases, Option-cases, get_elem?, elem,
}
use inc_lifecycle.Logical.{
  GraphElement, Graph, Result, error, valid, valid_final, result_of, get_next_element, find_entry,
  advance, is_valid_transition,
}
use inc_lifecycle.Logical.Search.{At, true≢false, scan-cases, find_entry-cases}
use inc_lifecycle.Logical.Paths.{
  Step, position_of, IsPlaced, Decides, no_enter, no_move, no_position, reject, enter_lem, move_lem,
  finish_lem,
}

module _ (c : ℕ) (g : Graph) where
  entered :
      (i : ℕ)
      → g.is_graph_active ≡ false
      → find_entry g.elements c g.entries ≡ some i
      → is_valid_transition c g
        ≡ (true, record g { is_graph_active = true; current_graph_position = some i })
  unfolding is_valid_transition
  entered i h r = simp (is_valid_transition, h, r)

  not_entered :
      g.is_graph_active ≡ false
      → find_entry g.elements c g.entries ≡ none
      → is_valid_transition c g ≡ (false, g)
  unfolding is_valid_transition
  not_entered h r = simp (is_valid_transition, h, r)

  moved :
      (r : Result × Option ℕ)
      → g.is_graph_active ≡ true
      → get_next_element c g ≡ r
      → is_valid_transition c g ≡ advance g r
  unfolding is_valid_transition
  moved r h n = opened ∙ ap (advance g) n
    where
      opened : is_valid_transition c g ≡ advance g (get_next_element c g)
      opened = simp (is_valid_transition, h)

  stayed :
      (p : ℕ)
      → g.is_graph_active ≡ true
      → g.current_graph_position ≡ some p
      → get_next_element c g ≡ (error, some p)
      → is_valid_transition c g ≡ (false, g)
  stayed p h at_p n =
      moved (error, some p) h n
      ∙ ap (λ x. (false, record g { current_graph_position = x })) (sym at_p)

inactive-Decides :
    (c : ℕ) (g : Graph) → g.is_graph_active ≡ false → Decides c g (is_valid_transition c g)
inactive-Decides c g h = elim (find_entry-cases g.elements c g.entries) [
  | inl (i, e, r, m, a, q) ↦ subst (Decides c g) (sym (entered c g i h r)) (
    (λ _. (i, refl)),
    inl (refl, enter_lem g.elements g.entries c i e (position_of g) (rw h refl) m a q),
  )
  | inr (r, missing) ↦ subst (Decides c g) (sym (not_entered c g h r)) (
      reject c g (λ b. absurd (true≢false (sym b ∙ h))) none (rw h refl)
        (no_enter g.elements g.entries c missing))
]

taken-Decides :
    (c i p : ℕ) (g : Graph) (d e : GraphElement)
    → g.is_graph_active ≡ true
    → g.current_graph_position ≡ some p
    → At g.elements p d
    → elem i d.valid_next_elements ≡ true
    → At g.elements i e
    → e.tracked_checkpoint ≡ c
    → get_next_element c g ≡ (result_of e, some i)
    → Decides c g (is_valid_transition c g)
taken-Decides c i p g d e h at_p at m a q r = elim (Bool-cases e.is_final) [
  | inl f ↦
      subst (Decides c g)
        (sym (
          moved c g (valid_final, some i) h
            (r ∙ ap (λ b. (if b then valid_final else valid, some i)) f)))
        (
          (λ b. absurd (true≢false (sym b))),
          inl (
            refl,
            finish_lem g.elements g.entries c i e (position_of g) p d (rw h at_p) at m a q f,
          ),
        )
  | inr f ↦
      subst (Decides c g)
        (sym (
          moved c g (valid, some i) h (r ∙ ap (λ b. (if b then valid_final else valid, some i)) f)))
        (
          (λ _. (i, refl)),
          inl (
            refl,
            rw h (move_lem g.elements g.entries c i e g.current_graph_position p d at_p at m a q f),
          ),
        )
]

active-Decides :
    (c p : ℕ) (g : Graph)
    → g.is_graph_active ≡ true
    → g.current_graph_position ≡ some p
    → Decides c g (is_valid_transition c g)
unfolding get_next_element
active-Decides c p g h at_p = elim (Option-cases (get_elem? g.elements p)) [
  | inl n ↦ stays (rw (get_next_element, at_p) (rw n refl)) (no_position g.elements g.entries c p n)
  | inr (d, at) ↦ elim (scan-cases g.elements c d.valid_next_elements (error, some p)) [
    | inl (i, e, m, a, q, r) ↦
        taken-Decides c i p g d e h at_p at m a q (rw (get_next_element, at_p) (rw at r))
    | inr (missing, r) ↦
        stays (rw (get_next_element, at_p) (rw at r))
          (no_move g.elements g.entries c p d at missing)
  ]
]
  where
    stays :
        get_next_element c g ≡ (error, some p)
        → ((q : Option ℕ) → ¬ Step g.elements g.entries (some p) c q)
        → Decides c g (is_valid_transition c g)
    stays r none_left =
        subst (Decides c g) (sym (stayed c g p h at_p r))
          (reject c g (λ _. (p, at_p)) (some p) (rw h at_p) none_left)

-- The test of a checkpoint decides the steps of the graph: it holds exactly where there is a step,
-- and then it takes the graph along one; where it does not, there is no step and the graph stays.
pub is_valid_transition-Step :
    (c : ℕ) (g : Graph) → IsPlaced g → Decides c g (is_valid_transition c g)
is_valid_transition-Step c g placed = elim (Bool-cases g.is_graph_active) [
  | inl h ↦ active-Decides c (placed h).0 g h (placed h).1
  | inr h ↦ inactive-Decides c g h
]
