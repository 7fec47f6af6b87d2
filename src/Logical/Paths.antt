-- ===== src/Logical/Paths.antt =====
-- The graph of a logical supervision as a relation, and the checkpoints that it accepts.
use inc_lifecycle.Base.{
  ℕ, ◌≡◌, refl, sym, subst, ◌∙◌, ◌⊎◌, inr, Bool, true, false, Option, none, some, List,
  if◌then◌else◌, get_elem?, elem,
}
use inc_lifecycle.Logical.{GraphElement, Graph}
use inc_lifecycle.Logical.Search.{At, Missing}

-- A step of the graph between two positions, `none` while the graph is inactive. A final element
-- ends the path; an entry does not, also where it is final.
pub data Step (elems : List GraphElement) (entries : List ℕ)
    : Option ℕ → ℕ → Option ℕ → Type 0 where
  enter :
      (i : ℕ) (e : GraphElement)
      → elem i entries ≡ true
      → At elems i e
      → Step elems entries none e.tracked_checkpoint (some i)
  move :
      (p i : ℕ) (d e : GraphElement)
      → At elems p d
      → elem i d.valid_next_elements ≡ true
      → At elems i e
      → e.is_final ≡ false
      → Step elems entries (some p) e.tracked_checkpoint (some i)
  finish :
      (p i : ℕ) (d e : GraphElement)
      → At elems p d
      → elem i d.valid_next_elements ≡ true
      → At elems i e
      → e.is_final ≡ true
      → Step elems entries (some p) e.tracked_checkpoint none

abbrev pub position_of : Graph → Option ℕ
position_of g = if g.is_graph_active then g.current_graph_position else none

-- An active graph has a position.
abbrev pub IsPlaced : Graph → Type 0
IsPlaced g = g.is_graph_active ≡ true → (p : ℕ) × (g.current_graph_position ≡ some p)

pub no_enter :
    (elems : List GraphElement) (entries : List ℕ) (c : ℕ)
    → Missing elems c entries
    → (q : Option ℕ) → ¬ Step elems entries none c q
no_enter elems entries c missing q (enter i e m a) = missing i e m a refl

same_next :
    (d d' : GraphElement) (i : ℕ)
    → some d ≡ some d'
    → elem i d.valid_next_elements ≡ true
    → elem i d'.valid_next_elements ≡ true
same_next d d' i q m = cc

pub no_move :
    (elems : List GraphElement) (entries : List ℕ) (c p : ℕ) (d : GraphElement)
    → At elems p d
    → Missing elems c d.valid_next_elements
    → (q : Option ℕ) → ¬ Step elems entries (some p) c q
no_move elems entries c p d at missing q (move _ i d' e at' m a f) =
    missing i e (same_next d' d i (sym at' ∙ at) m) a refl
no_move elems entries c p d at missing q (finish _ i d' e at' m a f) =
    missing i e (same_next d' d i (sym at' ∙ at) m) a refl

pub no_position :
    (elems : List GraphElement) (entries : List ℕ) (c p : ℕ)
    → get_elem? elems p ≡ none
    → (q : Option ℕ) → ¬ Step elems entries (some p) c q
no_position elems entries c p n q (move _ i d' e at' m a f) = absurd (cc)
no_position elems entries c p n q (finish _ i d' e at' m a f) = absurd (cc)

-- What the test of a checkpoint answers, and where it leaves the graph.
abbrev pub Decides : ℕ → Graph → Bool × Graph → Type 0
Decides c g r =
    IsPlaced r.1
    × ((r.0 ≡ true) × Step g.elements g.entries (position_of g) c (position_of r.1)
        ⊎ (r.0 ≡ false)
          × ((q : Option ℕ) → ¬ Step g.elements g.entries (position_of g) c q)
          × (r ≡ (false, g)))

module _ (elems : List GraphElement) (entries : List ℕ) (c i : ℕ) (e : GraphElement) where
  pub enter_lem :
      (position : Option ℕ)
      → position ≡ none
      → elem i entries ≡ true
      → At elems i e
      → e.tracked_checkpoint ≡ c
      → Step elems entries position c (some i)
  enter_lem position n m a q =
      subst (λ x. Step elems entries x c (some i)) (sym n)
        (subst (λ x. Step elems entries none x (some i)) q (enter i e m a))

  pub move_lem :
      (position : Option ℕ) (p : ℕ) (d : GraphElement)
      → position ≡ some p
      → At elems p d
      → elem i d.valid_next_elements ≡ true
      → At elems i e
      → e.tracked_checkpoint ≡ c
      → e.is_final ≡ false
      → Step elems entries position c (some i)
  move_lem position p d n at m a q f =
      subst (λ x. Step elems entries x c (some i)) (sym n)
        (subst (λ x. Step elems entries (some p) x (some i)) q (move p i d e at m a f))

  pub finish_lem :
      (position : Option ℕ) (p : ℕ) (d : GraphElement)
      → position ≡ some p
      → At elems p d
      → elem i d.valid_next_elements ≡ true
      → At elems i e
      → e.tracked_checkpoint ≡ c
      → e.is_final ≡ true
      → Step elems entries position c none
  finish_lem position p d n at m a q f =
      subst (λ x. Step elems entries x c none) (sym n)
        (subst (λ x. Step elems entries (some p) x none) q (finish p i d e at m a f))

pub reject :
    (c : ℕ) (g : Graph)
    → IsPlaced g
    → (position : Option ℕ) → position_of g ≡ position
    → ((q : Option ℕ) → ¬ Step g.elements g.entries position c q)
    → Decides c g (false, g)
reject c g placed position n none_left = (
  placed,
  inr (refl, (λ q s. none_left q (subst (λ x. Step g.elements g.entries x c q) n s)), refl),
)
