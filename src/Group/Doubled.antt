-- ===== src/Group/Doubled.antt =====
-- The exit of a self-terminating process while its process group stops
-- (src/launch_manager_daemon/src/process_group_manager/processinfonode.cpp).
use inc_lifecycle.Base.{
  ℕ, zero, suc, Bool, true, false, not, ◌&&◌, ◌||◌, Option, none, some, List, [], ◌∷◌, ◌==◌, ◌-◌,
  ltb, if◌then◌else◌, get_elem?, set, get_elem?-set, ◌≡◌, refl, sym, ap, ◌∙◌, inl, inr, Bool-cases,
  Option-cases,
}
use inc_lifecycle.Group.{
  ProcessState, running, terminating, terminated, launch_manager, in_transition, is_graph_state,
  Dependency, OsProcess, Node, Graph, node_at, put_node,
}
use inc_lifecycle.Group.Work.{
  set_state, set_status, release, release_predecessor, release_predecessors,
  queue_termination_successor_jobs, terminated_with, terminate_process, exit_if, is_accepted,
  is_reported, kept_status, status_of, is_comms_type, is_empty,
}
use inc_lifecycle.Group.Nodes.{try_queue_node, is_process_state}

config_of : Option Node → Option OsProcess
config_of o = elim o [ none ↦ none | some n ↦ some n.config ]

config_of-set :
    (ns : List Node) (i j : ℕ) (n m : Node)
    → get_elem? ns j ≡ some n
    → m.config ≡ n.config
    → config_of (get_elem? (set ns j m) i) ≡ config_of (get_elem? ns i)
unfolding config_of
config_of-set [] i j n m e c = refl
config_of-set (x ∷ ns) zero zero n m e c = ap some c ∙ sym (ap config_of e)
config_of-set (x ∷ ns) zero (suc j) n m e c = refl
config_of-set (x ∷ ns) (suc i) zero n m e c = refl
config_of-set (x ∷ ns) (suc i) (suc j) n m e c = config_of-set ns i j n m e c

-- The nodes are configured as before, and the phase is the same.
IsConfigured : ℕ → Graph → Graph → Type 0
IsConfigured i g h = (config_of (node_at i h) ≡ config_of (node_at i g)) × (h.starting ≡ g.starting)

if_IsConfigured :
    (b : Bool) (i : ℕ) (g h k : Graph)
    → IsConfigured i g h
    → IsConfigured i g k
    → IsConfigured i g (if b then h else k)
if_IsConfigured true i g h k x y = x
if_IsConfigured false i g h k x y = y

release-IsConfigured : (i j : ℕ) (g : Graph) → IsConfigured i g (release j g)
unfolding release try_queue_node IsConfigured
release-IsConfigured i j g = elim (Option-cases (node_at j g)) [
  | inl e ↦ rw (e, release) (refl, refl)
  | inr (n, e) ↦
      let m = record n { dependencies = n.dependencies - 1 } in
      let g1 = put_node j m g in
      let w : IsConfigured i g g1 = (config_of-set g.nodes i j n m e refl, refl) in
      rw (e, release)
        (if_IsConfigured (n.is_included && ltb 0 n.dependencies) i g _ g
          (if_IsConfigured (n.dependencies - 1 == 0) i g (try_queue_node j g1) g1
            (if_IsConfigured (is_graph_state g.state in_transition) i g _ g1 w w) w)
          (refl, refl))
]

release_predecessor-IsConfigured :
    (j i : ℕ) (g : Graph) → IsConfigured i g (release_predecessor j g)
unfolding release_predecessor IsConfigured
release_predecessor-IsConfigured j i g = elim (Option-cases (node_at j g)) [
  | inl e ↦ rw (e, release_predecessor) (refl, refl)
  | inr (n, e) ↦
      rw (e, release_predecessor)
        (if_IsConfigured (is_process_state n.state terminated) i g g (release j g) (refl, refl)
          (release-IsConfigured i j g))
]

release_predecessors-IsConfigured :
    (ds : List Dependency) (i : ℕ) (g : Graph) → IsConfigured i g (release_predecessors ds g)
unfolding release_predecessors release_predecessor IsConfigured
release_predecessors-IsConfigured [] i g = (refl, refl)
release_predecessors-IsConfigured (d ∷ ds) i g =
    let g1 = release_predecessor d.os_process_index g in
    let (a, b) = release_predecessor-IsConfigured d.os_process_index i g in
    let (a2, b2) = release_predecessors-IsConfigured ds i g1 in (a2 ∙ a, b2 ∙ b)

-- While stopping, the successors of a node are what its configuration lists.
none-ne-some : (p : OsProcess) → none ≡ some p → ⊥
none-ne-some p e = absurd (cc)

some_injective : {p q : OsProcess} → some p ≡ some q → p ≡ q
some_injective e = cc

queue_stopping :
    (i : ℕ) (p : OsProcess) (g : Graph)
    → config_of (node_at i g) ≡ some p
    → g.starting ≡ false
    → queue_termination_successor_jobs i g ≡ release_predecessors p.dependency_list g
unfolding queue_termination_successor_jobs config_of
queue_stopping i p g c s = elim (Option-cases (node_at i g)) [
  | inl e ↦ absurd (none-ne-some p (sym (ap config_of e) ∙ c))
  | inr (n, e) ↦
      rw (e, queue_termination_successor_jobs)
        (rw s (
          ap (λ q. release_predecessors q.dependency_list (record g { starting = false }))
            (some_injective (sym (ap config_of e) ∙ c))))
]

-- An accepted state is stored.
set_state_stored :
    (new : ProcessState) (i : ℕ) (g : Graph) (n : Node)
    → node_at i g ≡ some n
    → is_accepted n.state new ≡ true
    → ((set_state new i g).0 ≡ true)
      × (node_at i (set_state new i g).1 ≡ some (record n { state = new }))
      × ((set_state new i g).1.starting ≡ g.starting)
unfolding set_state
set_state_stored new i g n e a =
    let at = get_elem?-set g.nodes i n (record n { state = new }) e in
    elim (Bool-cases (is_reported new n)) [
      | inl b ↦ rw (e, set_state) (rw (a, b) (refl, at, refl))
      | inr b ↦ rw (e, set_state) (rw (a, b) (refl, at, refl))
    ]

-- The process has ended and its predecessors do not know yet.
unfoldable pub ended : ℕ → ℕ → Graph → Graph
unfolding set_state set_status
ended status i g = (set_state terminated i (set_status status i (set_state terminating i g).1)).1

all_terminated : (s : ProcessState) → is_accepted s terminated ≡ true
unfolding is_accepted
all_terminated s = refl

kept_self : (b : Bool) (status : ℕ) → b ≡ true → kept_status b status ≡ status
unfolding kept_status
kept_self true status h = refl
kept_self false status h = absurd (cc)

and_false : (b c : Bool) → c ≡ false → b && c ≡ false
and_false true c h = h
and_false false c h = refl

both : (b c : Bool) → b ≡ true → c ≡ false → b && not c ≡ true
both true true b c = absurd (cc)
both true false b c = refl
both false c b h = absurd (cc)

terminated_with_stopping :
    (status i : ℕ) (g : Graph) (n : Node)
    → node_at i g ≡ some n
    → g.starting ≡ false
    → n.is_self_terminating ≡ true
    → is_empty n.dependent_on_terminating ≡ false
    → let h = (set_state terminated i (set_status status i g)).1 in
      (terminated_with status i g ≡ release_predecessors n.dependency_list h)
      × (config_of (node_at i h) ≡ some n.config)
      × (h.starting ≡ false)
unfolding terminated_with config_of set_status
terminated_with_stopping status i g n e s t d =
    let m = record n { status = status } in
    let g1 = put_node i m g in
    let same : set_status status i g ≡ g1 = rw (e, set_status) refl in
    let h = (set_state terminated i g1).1 in
    let (_, at, on) =
      set_state_stored terminated i g1 m (get_elem?-set g.nodes i n m e) (all_terminated m.state) in
    let conf : config_of (node_at i h) ≡ some n.config = ap config_of at in
    let off : h.starting ≡ false = on ∙ s in
    let k : kept_status n.is_self_terminating status ≡ status =
      kept_self n.is_self_terminating status t in
    let quiet = and_false (not n.is_self_terminating || not (status == 0)) g.starting s in
    let tells = both n.is_self_terminating (is_empty n.dependent_on_terminating) t d in
    let first : terminated_with status i g ≡ release_predecessors n.dependency_list h =
      rw (e, terminated_with) (rw (k, same, quiet, tells) (queue_stopping i n.config h conf off)) in
    rw same (first, conf, off)

not_or : (b c : Bool) → b ≡ false → not b || c ≡ true
not_or true c h = absurd (cc)
not_or false c h = refl

can_stop : (s : ProcessState) → s ≡ running → is_accepted s terminating ≡ true
unfolding is_accepted
can_stop s h = rw h refl

released_config :
    (ds : List Dependency) (i : ℕ) (p : OsProcess) (g : Graph)
    → config_of (node_at i g) ≡ some p
    → g.starting ≡ false
    → (config_of (node_at i (release_predecessors ds g)) ≡ some p)
      × ((release_predecessors ds g).starting ≡ false)
unfolding IsConfigured
released_config ds i p g c s =
    let (a, b) = release_predecessors-IsConfigured ds i g in (a ∙ c, b ∙ s)

-- While a process group stops, the worker that terminates a running, self-terminating process with a
-- successor on its termination releases the processes it depends on a second time, after the exit of
-- the process has released them.
pub terminate_process-release_predecessors :
    (status i : ℕ) (g : Graph) (n : Node)
    → node_at i g ≡ some n
    → g.starting ≡ false
    → n.state ≡ running
    → is_comms_type n.comms_type launch_manager ≡ false
    → n.is_self_terminating ≡ true
    → is_empty n.dependent_on_terminating ≡ false
    → terminate_process (some status) i g
      ≡ release_predecessors n.dependency_list
          (release_predecessors n.dependency_list (ended status i g))
unfolding terminate_process exit_if ended
terminate_process-release_predecessors status i g n e s r c t d =
    let g1 = (set_state terminating i g).1 in
    let h = (set_state terminated i (set_status status i g1)).1 in
    let stops : is_accepted n.state terminating ≡ true = can_stop n.state r in
    let (is_set, at, on) = set_state_stored terminating i g n e stops in
    let m = record n { state = terminating } in
    let (exits, conf, off) = terminated_with_stopping status i g1 m at (on ∙ s) t d in
    let r1 = release_predecessors n.dependency_list h in
    let (conf1, off1) = released_config n.dependency_list i n.config h conf off in
    let again = not_or r1.starting (status_of i r1 == 0) off1 in
    rw (e, terminate_process)
      (rw (is_set, c, exits, again) (queue_stopping i n.config r1 conf1 off1))
