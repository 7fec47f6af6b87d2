-- ===== src/Group/Released.antt =====
-- Nodes that wait for others and are queued when the last of these is done
-- (src/launch_manager_daemon/src/process_group_manager/processinfonode.cpp).
use inc_lifecycle.Base.{
  subst, ℕ, zero, suc, ◌+◌, ◌-◌, ◌<◌, Bool, true, false, ◌&&◌, some, List, [], ◌∷◌, ◌++◌, ◌==◌, ltb,
  leb, if◌then◌else◌, get_elem?-set, get_elem?-set_ne, ◌≡◌, ◌≢◌, refl, sym, ap, ◌∙◌, arith, inl,
  inr, Bool-cases, Option-cases,
}
use inc_lifecycle.Group.{in_transition, Graph, Node, node_at, put_node}
use inc_lifecycle.Group.Nodes.{try_queue_node}
use inc_lifecycle.Group.Work.{release, release_all}
use inc_lifecycle.Group.Heads.{try_queue_node_lem}

-- How often a number is in a list.
abbrev pub count : ℕ → List ℕ → ℕ
count i [] = 0
count i (j ∷ js) = let rest = count i js in if j == i then suc rest else rest

count-append : (i : ℕ) (xs ys : List ℕ) → count i (xs ++ ys) ≡ count i xs + count i ys
count-append i [] ys = omega arith
count-append i (x ∷ xs) ys = ground (arith, count-append i xs ys)

ne_of_eqb : (a b : ℕ) → a == b ≡ false → a ≢ b
ne_of_eqb a b h e = ground arith

eqb_refl : (a : ℕ) → a == a ≡ true
eqb_refl a = ground arith

not_eqb : (a k : ℕ) → a ≡ suc k → a == 0 ≡ false
not_eqb a k h = ground arith

never : (b : Bool) (k : ℕ) → k ≡ 0 → b && ltb 0 k ≡ false
never true k h = ground arith
never false k h = refl

waiting : (b : Bool) (k : ℕ) → b ≡ true → 0 < k → b && ltb 0 k ≡ true
waiting true k h l = ground arith
waiting false k h l = ground arith

-- The node is what it was but for its dependencies, and is queued so often more.
abbrev pub Waits : ℕ → Node → ℕ → ℕ → Graph → Graph → Type 0
Waits i n left queued g h =
    (h.state ≡ g.state)
    × (node_at i h ≡ some (record n { dependencies = left }))
    × (count i h.jobs ≡ count i g.jobs + queued)

Waits-refl : (i : ℕ) (n : Node) (g : Graph) → node_at i g ≡ some n → Waits i n n.dependencies 0 g g
Waits-refl i n g e = (refl, e, omega arith)

if_Waits :
    (b : Bool) (i left queued : ℕ) (n : Node) (g h k : Graph)
    → Waits i n left queued g h
    → Waits i n left queued g k
    → Waits i n left queued g (if b then h else k)
if_Waits true i left queued n g h k x y = x
if_Waits false i left queued n g h k x y = y

-- Another node is queued or only counts down.
put_other :
    (i j : ℕ) (n m : Node) (g : Graph)
    → j == i ≡ false
    → g.state ≡ in_transition
    → node_at i g ≡ some n
    → Waits i n n.dependencies 0 g (put_node j m g)
      × Waits i n n.dependencies 0 g (try_queue_node j (put_node j m g))
put_other i j n m g d s e =
    let away : i ≢ j = λ same. ne_of_eqb j i d (sym same) in
    let kept = get_elem?-set_ne g.nodes j i m away ∙ e in
    let more = count-append i g.jobs (j ∷ []) in
    let off : count i (j ∷ []) ≡ 0 = rw d refl in
    (
      (refl, kept, omega arith),
      rw (try_queue_node_lem j (put_node j m g) s) (refl, kept, omega (arith, more, off)),
    )

release_other :
    (i j : ℕ) (n : Node) (g : Graph)
    → j == i ≡ false
    → g.state ≡ in_transition
    → node_at i g ≡ some n
    → Waits i n n.dependencies 0 g (release j g)
unfolding release
release_other i j n g d s e = elim (Option-cases (node_at j g)) [
  | inl f ↦ rw (f, release) (Waits-refl i n g e)
  | inr (m, f) ↦
      let m1 = record m { dependencies = m.dependencies - 1 } in
      let g1 = put_node j m1 g in
      let (plain, queued) = put_other i j n m1 g d s e in
      rw (f, release)
        (if_Waits (m.is_included && ltb 0 m.dependencies) i n.dependencies 0 n g _ g
          (if_Waits (m.dependencies - 1 == 0) i n.dependencies 0 n g (try_queue_node j g1) g1 queued
            plain)
          (Waits-refl i n g e))
]

-- A node that is included and waits, released once.
release_waiting :
    (i : ℕ) (n : Node) (g : Graph)
    → node_at i g ≡ some n
    → n.is_included && ltb 0 n.dependencies ≡ true
    → let g1 = put_node i (record n { dependencies = n.dependencies - 1 }) g in
      release i g ≡ (if n.dependencies - 1 == 0 then try_queue_node i g1 else g1)
unfolding release
release_waiting i n g e b = rw (e, release) (rw b refl)

release_none :
    (i : ℕ) (n : Node) (g : Graph) → node_at i g ≡ some n → n.dependencies ≡ 0 → release i g ≡ g
unfolding release
release_none i n g e d =
    let b : n.is_included && ltb 0 n.dependencies ≡ false = never n.is_included n.dependencies d in
    rw (e, release) (rw b refl)

release_last :
    (i : ℕ) (n : Node) (g : Graph)
    → g.state ≡ in_transition
    → node_at i g ≡ some n
    → n.is_included ≡ true
    → n.dependencies ≡ 1
    → Waits i n 0 1 g (release i g)
release_last i n g s e b d =
    let m = record n { dependencies = n.dependencies - 1 } in
    let g1 = put_node i m g in
    let zeroed : n.dependencies - 1 ≡ 0 = omega arith in
    let last : n.dependencies - 1 == 0 ≡ true = ap (λ k. k == 0) zeroed in
    let at =
      get_elem?-set g.nodes i n m e ∙ ap (λ k. some (record n { dependencies = k })) zeroed in
    let more = count-append i g.jobs (i ∷ []) in
    let one : count i (i ∷ []) ≡ 1 = rw (eqb_refl i) refl in
    rw (release_waiting i n g e (waiting n.is_included n.dependencies b (omega arith)), last)
      (rw (try_queue_node_lem i g1 s) (refl, at, omega (arith, more, one)))

release_more :
    (i k : ℕ) (n : Node) (g : Graph)
    → node_at i g ≡ some n
    → n.is_included ≡ true
    → n.dependencies ≡ suc (suc k)
    → Waits i n (suc k) 0 g (release i g)
release_more i k n g e b d =
    let m = record n { dependencies = n.dependencies - 1 } in
    let less : n.dependencies - 1 ≡ suc k = omega arith in
    let on : n.dependencies - 1 == 0 ≡ false = not_eqb (n.dependencies - 1) k less in
    let at = get_elem?-set g.nodes i n m e ∙ ap (λ j. some (record n { dependencies = j })) less in
    rw (release_waiting i n g e (waiting n.is_included n.dependencies b (omega arith)), on)
      (refl, at, omega arith)

-- How often a node that waits for d others is queued by m releases.
abbrev pub queued_for : ℕ → ℕ → ℕ
queued_for d m = if ltb 0 d && leb d m then 1 else 0

Waits-trans :
    (i l1 l2 q1 q2 : ℕ) (n : Node) (g h k : Graph)
    → Waits i n l1 q1 g h
    → Waits i (record n { dependencies = l1 }) l2 q2 h k
    → Waits i n l2 (q1 + q2) g k
Waits-trans i l1 l2 q1 q2 n g h k a b = (b.0 ∙ a.0, b.1, omega (arith, a.2, b.2))

-- The same node under other numbers.
Waits-eq :
    (i : ℕ) {l1 l2 q1 q2 : ℕ} (n : Node) (g h : Graph)
    → l1 ≡ l2
    → q1 ≡ q2
    → Waits i n l1 q1 g h
    → Waits i n l2 q2 g h
Waits-eq i {l2 = l2} {q1 = q1} n g h e f w =
    subst (λ q. Waits i n l2 q g h) f (subst (λ l. Waits i n l q1 g h) e w)

never_queued : (d : ℕ) → 0 ≡ queued_for d 0
never_queued d = ground arith

eq_of_eqb : (a b : ℕ) → a == b ≡ true → a ≡ b
eq_of_eqb a b h = ground arith

queued_for-suc : (d m : ℕ) → queued_for d 1 + queued_for (d - 1) m ≡ queued_for d (suc m)
queued_for-suc d m = ground arith

late : (k : ℕ) → 0 ≡ queued_for (suc (suc k)) 1
late k = ground arith

release_self :
    (i d : ℕ) (n : Node) (g : Graph)
    → g.state ≡ in_transition
    → node_at i g ≡ some n
    → n.is_included ≡ true
    → n.dependencies ≡ d
    → Waits i n (d - 1) (queued_for d 1) g (release i g)
release_self i zero n g s e b h =
    rw (release_none i n g e h) (Waits-eq i n g g (h ∙ omega arith) refl (Waits-refl i n g e))
release_self i (suc zero) n g s e b h = release_last i n g s e b h
release_self i (suc (suc k)) n g s e b h =
    Waits-eq i n g (release i g) (omega arith) (late k) (release_more i k n g e b h)

-- What releasing the nodes of a list does to a node that is included while the transition is under
-- way: its dependencies go down by one for each time it is in the list, not below 0, and it is queued
-- once if they reach 0 by that, and else not at all.
pub release_all-Waits :
    (is : List ℕ) (i : ℕ) (n : Node) (g : Graph)
    → g.state ≡ in_transition
    → node_at i g ≡ some n
    → n.is_included ≡ true
    → Waits i n
        (n.dependencies - count i is)
        (queued_for n.dependencies (count i is))
        g
        (release_all is g)
unfolding release_all
release_all-Waits [] i n g s e b =
    Waits-eq i n g g (omega arith) (never_queued n.dependencies) (Waits-refl i n g e)
release_all-Waits (j ∷ js) i n g s e b = elim (Bool-cases (j == i)) [
  | inr d ↦
      let (s1, e1, c1) = release_other i j n g d s e in
      let rest = release_all-Waits js i n (release j g) (s1 ∙ s) e1 b in
      rw d (
        Waits-eq i n g (release_all js (release j g)) refl (omega arith) (
          Waits-trans i n.dependencies _ 0 _ n g (release j g) (release_all js (release j g))
            (s1, e1, c1) rest))
  | inl d ↦
      let same : j ≡ i = eq_of_eqb j i d in
      let once = release_self i n.dependencies n g s e b refl in
      let n1 = record n { dependencies = n.dependencies - 1 } in
      let rest = release_all-Waits js i n1 (release i g) (once.0 ∙ s) once.1 b in
      let both =
        Waits-trans i (n.dependencies - 1) _ (queued_for n.dependencies 1) _ n g (release i g)
          (release_all js (release i g)) once rest in
      rw d (
        Waits-eq i n g (release_all js (release j g)) (omega arith)
          (queued_for-suc n.dependencies (count i js))
          (subst
            (λ x.
              Waits i n (n.dependencies - 1 - count i js)
                (queued_for n.dependencies 1 + queued_for (n.dependencies - 1) (count i js)) g
                (release_all js (release x g)))
            (sym same) both))
]
