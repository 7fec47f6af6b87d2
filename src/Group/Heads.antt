-- ===== src/Group/Heads.antt =====
-- The nodes that a phase of a transition queues first
-- (src/launch_manager_daemon/src/process_group_manager/graph.cpp and processinfonode.cpp).
use mathlib.Core.List.{append_assoc, append-nil}
use inc_lifecycle.Base.{
  ℕ, suc, ◌+◌, Bool, true, false, inl, inr, some, List, [], ◌∷◌, ◌++◌, map, ltb, get_elem?, elem,
  length, All, ◌≡◌, refl, sym, ap, ◌∙◌, subst, arith, Bool-cases,
}
use inc_lifecycle.Group.{in_transition, Node, Graph}
use inc_lifecycle.Group.Nodes.{
  construct_graph_node, try_queue_node, count_included, queue_heads, construct_graph,
  queue_head_nodes,
}
use inc_lifecycle.Group.Ready.{
  IsReady, heads, heads-All, Ascends, heads-Ascends, elem-heads, get_elem?-map, map-get_elem?,
  construct_graph_node-IsReady, IsReady-construct_graph_node,
}

abbrev pub with_jobs : List ℕ → ℕ → Graph → Graph
with_jobs js k g = record g { jobs = js; nodes_in_flight = k }

pub try_queue_node_lem :
    (i : ℕ) (g : Graph)
    → g.state ≡ in_transition
    → try_queue_node i g ≡ with_jobs (g.jobs ++ i ∷ []) (suc g.nodes_in_flight) g
unfolding try_queue_node
try_queue_node_lem i g h = ground arith

queue_heads_lem :
    (i : ℕ) (ns : List Node) (g : Graph)
    → g.state ≡ in_transition
    → queue_heads i ns g
      ≡ with_jobs (g.jobs ++ heads i ns) (g.nodes_in_flight + length (heads i ns)) g
unfolding queue_heads try_queue_node heads
queue_heads_lem i [] g h =
    let js : g.jobs ++ [] ≡ g.jobs = append-nil g.jobs in
    let k : g.nodes_in_flight + 0 ≡ g.nodes_in_flight = omega arith in sym (cc)
queue_heads_lem i (n ∷ ns) g h =
    let js = append_assoc g.jobs (i ∷ []) (heads (suc i) ns) in
    let k : suc g.nodes_in_flight + length (heads (suc i) ns)
        ≡ g.nodes_in_flight + suc (length (heads (suc i) ns)) =
      omega arith in
    elim (Bool-cases n.is_head_node) [
      | inl b ↦
          rw (b, try_queue_node_lem i g h)
            (queue_heads_lem (suc i) ns (with_jobs (g.jobs ++ i ∷ []) (suc g.nodes_in_flight) g) h
              ∙ cc)
      | inr b ↦ rw b (queue_heads_lem (suc i) ns g h)
    ]

count_included_none :
    (start : Bool) (nodes : List Node) (i : ℕ) (ns : List Node)
    → count_included (map (construct_graph_node start nodes) ns) ≡ 0
    → heads i (map (construct_graph_node start nodes) ns) ≡ []
unfolding heads construct_graph_node
count_included_none start nodes i [] h = refl
count_included_none true nodes i (n ∷ ns) h =
    ground (arith, count_included_none true nodes (suc i) ns)
count_included_none false nodes i (n ∷ ns) h =
    ground (arith, count_included_none false nodes (suc i) ns)

ltb_zero : (n : ℕ) → ltb 0 n ≡ false → n ≡ 0
ltb_zero n h = ground arith

-- The nodes that a phase queues first.
unfoldable pub first_jobs : Bool → Graph → List ℕ
unfolding construct_graph heads
first_jobs start g = heads 0 (construct_graph start g).nodes

pub queue_head_nodes_lem :
    (start : Bool) (g : Graph)
    → g.state ≡ in_transition
    → queue_head_nodes start g ≡ (
      ltb 0 (length (first_jobs start g)),
      with_jobs
          (g.jobs ++ first_jobs start g)
          (length (first_jobs start g))
          (construct_graph start g),
    )
unfolding queue_head_nodes construct_graph first_jobs
queue_head_nodes_lem start g h =
    let g1 = construct_graph start g in
    let filled = queue_heads_lem 0 g1.nodes g1 h in
    let left : 0 + length (heads 0 g1.nodes) ≡ length (heads 0 g1.nodes) = omega arith in
    let js = append-nil g.jobs in
    elim (Bool-cases (ltb 0 g1.nodes_to_execute)) [
      | inl b ↦ rw (b, filled, left) refl
      | inr b ↦
          let none_in : count_included g1.nodes ≡ 0 = ltb_zero g1.nodes_to_execute b in
          rw (b, count_included_none start g.nodes 0 g.nodes none_in, js) refl
    ]

first_jobs-All :
    (start : Bool) (g : Graph)
    → All
        (λ i. (n : Node) × (get_elem? g.nodes i ≡ some n) × IsReady start g.nodes n)
        (first_jobs start g)
unfolding first_jobs construct_graph
first_jobs-All start g =
    heads-All (λ i. (n : Node) × (get_elem? g.nodes i ≡ some n) × IsReady start g.nodes n) 0 _
      (λ k m e b.
        let (n, at, built) = get_elem?-map (construct_graph_node start g.nodes) g.nodes k m e in
        let here : k ≡ 0 + k = omega arith in
        (
          n,
          subst (λ j. get_elem? g.nodes j ≡ some n) here at,
          construct_graph_node-IsReady start g.nodes n (ap (λ x. x.is_head_node) built ∙ b),
        ))

elem-first_jobs :
    (start : Bool) (g : Graph) (i : ℕ) (n : Node)
    → get_elem? g.nodes i ≡ some n
    → IsReady start g.nodes n
    → elem i (first_jobs start g) ≡ true
unfolding first_jobs construct_graph
elem-first_jobs start g i n e r =
    let f = construct_graph_node start g.nodes in
    let here : 0 + i ≡ i = omega arith in
    subst (λ j. elem j (heads 0 (map f g.nodes)) ≡ true) here
      (elem-heads 0 (map f g.nodes) i (f n) (map-get_elem? f g.nodes i n e)
        (IsReady-construct_graph_node start g.nodes n r))

first_jobs-Ascends : (start : Bool) (g : Graph) → Ascends 0 (first_jobs start g)
unfolding first_jobs
first_jobs-Ascends start g = heads-Ascends 0 (construct_graph start g).nodes

-- Either phase of a transition that is under way adds to the job queue exactly the nodes that are
-- ready, each once and in the order of their indices: to be stopped, those that are neither idle nor terminated nor wanted and on whose running
-- no running process depends; to be started, those that are wanted, not running and whose
-- dependencies are all met. As many are in flight, and the result says whether there are any.
pub queue_head_nodes-IsReady :
    (start : Bool) (g : Graph)
    → g.state ≡ in_transition
    → (added : List ℕ) × ((queue_head_nodes start g).1.jobs ≡ g.jobs ++ added)
      × ((queue_head_nodes start g).1.nodes_in_flight ≡ length added)
      × ((queue_head_nodes start g).0 ≡ ltb 0 (length added))
      × All (λ i. (n : Node) × (get_elem? g.nodes i ≡ some n) × IsReady start g.nodes n) added
      × Ascends 0 added
      × ((i : ℕ) (n : Node)
          → get_elem? g.nodes i ≡ some n
          → IsReady start g.nodes n
          → elem i added ≡ true)
queue_head_nodes-IsReady start g h =
    let e = queue_head_nodes_lem start g h in
    (
      first_jobs start g,
      ap (λ r. r.1.jobs) e,
      ap (λ r. r.1.nodes_in_flight) e,
      ap (λ r. r.0) e,
      first_jobs-All start g,
      first_jobs-Ascends start g,
      elem-first_jobs start g,
    )
