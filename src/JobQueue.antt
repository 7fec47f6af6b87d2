-- ===== src/JobQueue.antt =====
-- The ring buffer of jobs between the process groups and the workers
-- (src/launch_manager_daemon/src/process_group_manager/jobqueue.cpp). A semaphore is its count; a wait
-- with a limit fails where the count stays 0. The indices are 32-bit and wrap around.
pub mod Slots
pub mod Fifo
use inc_lifecycle.Base.{
  ℕ, zero, suc, ◌+◌, ◌-◌, ◌%◌, Bool, true, false, Option, none, some, List, [], ◌∷◌, ◌==◌,
  if◌then◌else◌, get_elem?, set,
}

pub record JobQueue : Type 0 where
  pub num_items : ℕ
  pub num_spaces : ℕ
  pub in_index : ℕ
  pub out_index : ℕ
  pub capacity : ℕ
  pub the_items : List (Option ℕ)
  pub is_running : Bool

abbrev pub index_range : ℕ
index_range = 4_294_967_296

abbrev pub no_jobs : ℕ → List (Option ℕ)
no_jobs zero = []
no_jobs (suc n) = none ∷ no_jobs n

-- The constructor; the semaphore takes the capacity modulo 2^32.
unfoldable pub create : ℕ → JobQueue
create capacity = record {
  num_items = 0;
  num_spaces = capacity % index_range;
  in_index = 0;
  out_index = 0;
  capacity = capacity;
  the_items = no_jobs capacity;
  is_running = true;
}

-- addJobToQueue, where no space becomes free in the time of the wait.
unfoldable pub add_job_to_queue : ℕ → JobQueue → Bool × JobQueue
add_job_to_queue job q = if q.num_spaces == 0 then (false, q) else (
  true,
  record q {
    num_spaces = q.num_spaces - 1;
    in_index = suc q.in_index % index_range;
    the_items = set q.the_items (q.in_index % q.capacity) (some job);
    num_items = suc q.num_items;
  },
)

-- getJobFromQueue: `none` where it waits for an item, and the empty pointer where the queue is stopped.
unfoldable pub get_job_from_queue : JobQueue → Option (Option ℕ × JobQueue)
get_job_from_queue q =
    if q.num_items == 0
    then none
    else if q.is_running
    then some (
      elim (get_elem? q.the_items (q.out_index % q.capacity)) [ none ↦ none | some job ↦ job ],
      record q {
        num_items = q.num_items - 1;
        out_index = suc q.out_index % index_range;
        num_spaces = suc q.num_spaces;
      },
    )
    else some (none, record q { num_items = q.num_items - 1 })

unfoldable pub stop_queue : ℕ → JobQueue → JobQueue
stop_queue nr_threads q = record q { is_running = false; num_items = q.num_items + nr_threads }
