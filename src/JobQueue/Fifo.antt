-- ===== src/JobQueue/Fifo.antt =====
-- The queue of jobs is a bounded first-in-first-out queue
-- (src/launch_manager_daemon/src/process_group_manager/jobqueue.cpp).
use native.Mathlib.Nat.{mod-mod_of_dvd, mod-eq_of_lt, mod-lt}
use Prim.Native.Nat.{◌∣◌}
use inc_lifecycle.Base.{
  get_elem?-set_self, get_elem?-set_ne, length-set, ℕ, suc, ◌+◌, ◌-◌, ◌%◌, ◌<◌, ◌≤◌, Bool, true,
  false, Option, none, some, List, [], ◌∷◌, ◌++◌, ◌==◌, ltb, Bool-cases, if◌then◌else◌, get_elem?,
  set, length, length-append, ◌≡◌, refl, sym, ap, inl, inr, ◌∙◌, arith,
}
use inc_lifecycle.JobQueue.{JobQueue, index_range, create, add_job_to_queue, get_job_from_queue}
use inc_lifecycle.JobQueue.Slots.{slot_ne, slot_wrap, not_zero, length-no_jobs, get_elem?-append}

-- The running queue holds the jobs, the oldest first.
record Holds (q : JobQueue) (xs : List ℕ) : Type 0 where
  divides : q.capacity ∣ index_range
  runs : q.is_running ≡ true
  size : length q.the_items ≡ q.capacity
  items : q.num_items ≡ length xs
  spaces : q.num_spaces + length xs ≡ q.capacity
  index : q.in_index ≡ (q.out_index + length xs) % index_range
  stored :
      (k y : ℕ)
      → get_elem? xs k ≡ some y
      → get_elem? q.the_items ((q.out_index + k) % q.capacity) ≡ some (some y)

ltb→lt : (a b : ℕ) → ltb a b ≡ true → a < b
ltb→lt a b h = ground arith

ltb→ge : (a b : ℕ) → ltb a b ≡ false → b ≤ a
ltb→ge a b h = ground arith

no_item : (q : JobQueue) → q.num_items ≡ 0 → get_job_from_queue q ≡ none
unfolding get_job_from_queue
no_item q e = rw (e, get_job_from_queue) refl

no_space : (q : JobQueue) (job : ℕ) → q.num_spaces ≡ 0 → add_job_to_queue job q ≡ (false, q)
unfolding add_job_to_queue
no_space q job e = rw (e, add_job_to_queue) refl

add_job_to_queue-Holds :
    (q : JobQueue) (xs : List ℕ) (job : ℕ)
    → Holds q xs
    → length xs < q.capacity
    → (q' : JobQueue) × (add_job_to_queue job q ≡ (true, q'))
      × Holds q' (xs ++ job ∷ [])
      × (q'.capacity ≡ q.capacity)
unfolding add_job_to_queue
add_job_to_queue-Holds q xs job h l =
    let place : q.in_index % q.capacity ≡ (q.out_index + length xs) % q.capacity =
      ap (λ x. x % q.capacity) h.index
      ∙ mod-mod_of_dvd q.capacity (q.out_index + length xs) h.divides in
    let c : 0 < q.capacity = omega arith in
    let low : q.in_index % q.capacity < q.capacity = mod-lt q.in_index c in
    let longer = length-append xs (job ∷ []) in
    let free : q.num_spaces == 0 ≡ false = not_zero q.num_spaces (omega (arith, h.spaces)) in
    (
      record q {
        num_spaces = q.num_spaces - 1;
        in_index = suc q.in_index % index_range;
        the_items = set q.the_items (q.in_index % q.capacity) (some job);
        num_items = suc q.num_items;
      },
      rw (free, add_job_to_queue) refl,
      record {
        divides = h.divides;
        runs = h.runs;
        size = length-set q.the_items (q.in_index % q.capacity) (some job) ∙ h.size;
        items = omega (arith, h.items, longer);
        spaces = omega (arith, h.spaces, longer);
        index = omega (arith, h.index, longer);
        stored = λ k y e. elim (get_elem?-append xs job k y e) [
          | inl (m, f) ↦
              get_elem?-set_ne q.the_items _ _ (some job) (λ same.
                slot_ne (q.out_index + k) q.capacity (length xs - k) (omega arith) (omega arith)
                  (ap (λ x. x % q.capacity) (omega arith) ∙ sym place ∙ sym same))
              ∙ h.stored k y f
          | inr (m, f) ↦
              let here : (q.out_index + k) % q.capacity ≡ q.in_index % q.capacity =
                ap (λ x. (q.out_index + x) % q.capacity) m ∙ sym place in
              rw here (
                get_elem?-set_self q.the_items (q.in_index % q.capacity) (some job)
                  (omega (arith, low, h.size))
                ∙ ap (λ x. some (some x)) f)
        ];
      },
      refl,
    )

get_job_from_queue-Holds :
    (q : JobQueue) (x : ℕ) (xs : List ℕ)
    → Holds q (x ∷ xs)
    → (q' : JobQueue) × (get_job_from_queue q ≡ some (some x, q'))
      × Holds q' xs
      × (q'.capacity ≡ q.capacity)
unfolding get_job_from_queue
get_job_from_queue-Holds q x xs h =
    let some_item : q.num_items == 0 ≡ false = not_zero q.num_items (omega (arith, h.items)) in
    let start : q.out_index + 0 ≡ q.out_index = omega arith in
    let first = ap (λ i. get_elem? q.the_items (i % q.capacity)) (sym start) ∙ h.stored 0 x refl in
    (
      record q {
        num_items = q.num_items - 1;
        out_index = suc q.out_index % index_range;
        num_spaces = suc q.num_spaces;
      },
      rw (some_item, h.runs, first, get_job_from_queue) refl,
      record {
        divides = h.divides;
        runs = h.runs;
        size = h.size;
        items = omega (arith, h.items);
        spaces = omega (arith, h.spaces);
        index = omega (arith, h.index);
        stored = λ k y e.
            let next : suc q.out_index + k ≡ q.out_index + suc k = omega arith in
            ap (get_elem? q.the_items)
              (slot_wrap (suc q.out_index) q.capacity k h.divides ∙ ap (λ i. i % q.capacity) next)
            ∙ h.stored (suc k) y e;
      },
      refl,
    )

create-Holds :
    (capacity : ℕ) → capacity ∣ index_range → capacity < index_range → Holds (create capacity) []
unfolding create
create-Holds capacity d l = record {
  divides = d;
  runs = refl;
  size = length-no_jobs capacity;
  items = refl;
  spaces = omega (arith, mod-eq_of_lt l);
  index = refl;
  stored = λ k y e. absurd (cc);
}

pub data Op : Type 0 where
  add : ℕ → Op
  get : Op

-- What a call returns: `waits` for a worker that waits for a job.
pub data Reply : Type 0 where
  added : Bool → Reply
  got : Option ℕ → Reply
  waits : Reply

unfoldable pub call : Op → JobQueue → Reply × JobQueue
unfolding add_job_to_queue get_job_from_queue
call (add job) q = let (ok, q') = add_job_to_queue job q in (added ok, q')
call get q = elim (get_job_from_queue q) [ none ↦ (waits, q) | some (job, q') ↦ (got job, q') ]

unfoldable pub run : JobQueue → List Op → List Reply
unfolding call
run q [] = []
run q (o ∷ ops) = let (r, q') = call o q in r ∷ run q' ops

-- A queue of at most `capacity` jobs, the oldest first.
unfoldable pub fifo : ℕ → List ℕ → List Op → List Reply
fifo capacity xs [] = []
fifo capacity xs (add job ∷ ops) =
    let longer = fifo capacity (xs ++ job ∷ []) ops in
    let same = fifo capacity xs ops in
    if ltb (length xs) capacity then added true ∷ longer else added false ∷ same
fifo capacity [] (get ∷ ops) = waits ∷ fifo capacity [] ops
fifo capacity (x ∷ xs) (get ∷ ops) = got (some x) ∷ fifo capacity xs ops

run-Holds :
    (ops : List Op) (q : JobQueue) (xs : List ℕ) → Holds q xs → run q ops ≡ fifo q.capacity xs ops
unfolding run fifo call
run-Holds [] q xs h = refl
run-Holds (get ∷ ops) q [] h =
    let empty : get_job_from_queue q ≡ none = no_item q h.items in
    rw (empty, call) (ap (λ r. waits ∷ r) (run-Holds ops q [] h))
run-Holds (get ∷ ops) q (x ∷ xs) h =
    let (q', e, h', c) = get_job_from_queue-Holds q x xs h in
    rw (e, call) (ap (λ r. got (some x) ∷ r) (run-Holds ops q' xs h' ∙ ap (λ n. fifo n xs ops) c))
run-Holds (add job ∷ ops) q xs h = elim (Bool-cases (ltb (length xs) q.capacity)) [
  | inl b ↦
      let (q', e, h', c) = add_job_to_queue-Holds q xs job h (ltb→lt (length xs) q.capacity b) in
      rw (b, e, call)
        (ap (λ r. added true ∷ r)
          (run-Holds ops q' (xs ++ job ∷ []) h' ∙ ap (λ n. fifo n (xs ++ job ∷ []) ops) c))
  | inr b ↦
      let full : add_job_to_queue job q ≡ (false, q) =
        no_space q job (omega (arith, h.spaces, ltb→ge (length xs) q.capacity b)) in
      rw (b, full, call) (ap (λ r. added false ∷ r) (run-Holds ops q xs h))
]

-- A new queue, whose capacity divides the range of its 32-bit indices, answers any sequence of calls
-- as a first-in-first-out queue of at most that many jobs does: a job is added where there is room,
-- and the jobs are handed out once each in the order in which they were added, past any number of
-- wrap-arounds.
pub run-fifo :
    (capacity : ℕ) (ops : List Op)
    → capacity ∣ index_range
    → capacity < index_range
    → run (create capacity) ops ≡ fifo capacity [] ops
unfolding create
run-fifo capacity ops d l = run-Holds ops (create capacity) [] (create-Holds capacity d l)
