-- ===== src/Group/Ready.antt =====
-- Which nodes are ready for a phase of a transition, and the marks that say so
-- (src/launch_manager_daemon/src/process_group_manager/graph.cpp and processinfonode.cpp).
use inc_lifecycle.Base.{
  ℕ, ◌≤◌, zero, suc, ◌+◌, Bool, true, false, ◌↔◌, inl, inr, some, List, [], ◌∷◌, map, if◌then◌else◌,
  get_elem?, elem, All, all, any, ◌≡◌, refl, subst, arith, Bool-cases,
}
use inc_lifecycle.Group.{ProcessState, idle, running, terminated, Dependency, Node}
use inc_lifecycle.Group.Nodes.{
  is_process_state, has_state, count_states, is_satisfied, unsatisfied, construct_graph_node,
}

-- What lets node n be started, or be stopped, at once.
abbrev pub IsReady : Bool → List Node → Node → Type 0
IsReady true nodes n =
    (n.in_requested_state ≡ true)
    × (is_process_state n.state running ≡ false)
    × (all (is_satisfied nodes) n.dependency_list ≡ true)
IsReady false nodes n =
    (n.in_requested_state ≡ false)
    × (is_process_state n.state idle ≡ false)
    × (is_process_state n.state terminated ≡ false)
    × (any (has_state running nodes) n.dependent_on_running ≡ false)

unfoldable pub heads : ℕ → List Node → List ℕ
heads i [] = []
heads i (n ∷ ns) = let rest = heads (suc i) ns in if n.is_head_node then i ∷ rest else rest

-- The indices go up from the first number on.
abbrev pub Ascends : ℕ → List ℕ → Type 0
Ascends lo [] = Unit
Ascends lo (i ∷ l) = (lo ≤ i) × Ascends (suc i) l

Ascends-lower : (lo i : ℕ) (l : List ℕ) → lo ≤ i → Ascends i l → Ascends lo l
Ascends-lower lo i [] h a = tt
Ascends-lower lo i (j ∷ l) h a = (omega (arith, a.0), a.1)

pub heads-Ascends : (i : ℕ) (ns : List Node) → Ascends i (heads i ns)
unfolding heads
heads-Ascends i [] = tt
heads-Ascends i (n ∷ ns) =
    let rest = heads-Ascends (suc i) ns in
    elim (Bool-cases n.is_head_node) [
      | inl b ↦ rw b (omega arith, rest)
      | inr b ↦ rw b (Ascends-lower i (suc i) (heads (suc i) ns) (omega arith) rest)
    ]

pub heads-All :
    (P : ℕ → Type 0) (i : ℕ) (ns : List Node)
    → ((k : ℕ) (n : Node) → get_elem? ns k ≡ some n → n.is_head_node ≡ true → P (i + k))
    → All P (heads i ns)
unfolding heads
heads-All P i [] h = tt
heads-All P i (n ∷ ns) h =
    let shift : (k : ℕ) → i + suc k ≡ suc i + k = λ k. omega arith in
    let here : i + 0 ≡ i = omega arith in
    let rest = heads-All P (suc i) ns (λ k m e b. subst P (shift k) (h (suc k) m e b)) in
    elim (Bool-cases n.is_head_node) [
      | inl b ↦ rw b (subst P here (h 0 n refl b), rest)
      | inr b ↦ rw b rest
    ]

pub elem-heads :
    (i : ℕ) (ns : List Node) (k : ℕ) (n : Node)
    → get_elem? ns k ≡ some n
    → n.is_head_node ≡ true
    → elem (i + k) (heads i ns) ≡ true
unfolding heads
elem-heads i [] k n e b = absurd (cc)
elem-heads i (m ∷ ns) zero n e b = ground arith
elem-heads i (m ∷ ns) (suc k) n e b =
    let shift : suc i + k ≡ i + suc k = omega arith in
    let rest =
      subst (λ j. elem j (heads (suc i) ns) ≡ true) shift (elem-heads (suc i) ns k n e b) in
    ground (arith, rest)

pub get_elem?-map :
    (f : Node → Node) (ns : List Node) (k : ℕ) (m : Node)
    → get_elem? (map f ns) k ≡ some m
    → (n : Node) × (get_elem? ns k ≡ some n) × (f n ≡ m)
get_elem?-map f [] k m e = absurd (cc)
get_elem?-map f (n ∷ ns) zero m e = (n, refl, cc)
get_elem?-map f (n ∷ ns) (suc k) m e = get_elem?-map f ns k m e

pub map-get_elem? :
    (f : Node → Node) (ns : List Node) (k : ℕ) (n : Node)
    → get_elem? ns k ≡ some n
    → get_elem? (map f ns) k ≡ some (f n)
map-get_elem? f [] k n e = absurd (cc)
map-get_elem? f (m ∷ ns) zero n e = cc
map-get_elem? f (m ∷ ns) (suc k) n e = map-get_elem? f ns k n e

pub unsatisfied_none :
    (nodes : List Node) (ds : List Dependency)
    → unsatisfied nodes ds ≡ 0 ↔ all (is_satisfied nodes) ds ≡ true
unsatisfied_none nodes [] = (λ _. refl, λ _. refl)
unsatisfied_none nodes (d ∷ ds) =
    let (to, from) = unsatisfied_none nodes ds in
    elim (Bool-cases (is_satisfied nodes d)) [
      | inl b ↦ rw b (to, from)
      | inr b ↦ rw b (λ e. absurd (omega arith), λ e. absurd (cc))
    ]

pub count_states_none :
    (s : ProcessState) (nodes : List Node) (is : List ℕ)
    → count_states s nodes is ≡ 0 ↔ any (has_state s nodes) is ≡ false
count_states_none s nodes [] = (λ _. refl, λ _. refl)
count_states_none s nodes (i ∷ is) =
    let (to, from) = count_states_none s nodes is in
    elim (Bool-cases (has_state s nodes i)) [
      | inl b ↦ rw b (λ e. absurd (omega arith), λ e. absurd (cc))
      | inr b ↦ rw b (to, from)
    ]

pub construct_graph_node-IsReady :
    (start : Bool) (nodes : List Node) (n : Node)
    → (construct_graph_node start nodes n).is_head_node ≡ true
    → IsReady start nodes n
unfolding construct_graph_node
construct_graph_node-IsReady true nodes n h =
    ground (arith, (unsatisfied_none nodes n.dependency_list).0)
construct_graph_node-IsReady false nodes n h =
    ground (arith, (count_states_none running nodes n.dependent_on_running).0)

pub IsReady-construct_graph_node :
    (start : Bool) (nodes : List Node) (n : Node)
    → IsReady start nodes n
    → (construct_graph_node start nodes n).is_head_node ≡ true
unfolding construct_graph_node
IsReady-construct_graph_node true nodes n h =
    ground (arith, (unsatisfied_none nodes n.dependency_list).1)
IsReady-construct_graph_node false nodes n h =
    ground (arith, (count_states_none running nodes n.dependent_on_running).1)
