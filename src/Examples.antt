-- ===== src/Examples.antt =====
-- The supervisions on small inputs: each theorem with hypotheses, applied where they hold.
pub mod Paths
pub mod Timing
pub mod Escalation
pub mod Groups
pub mod Stopping
pub mod Queues
pub mod Watchdogs
pub mod Health
pub mod Managers
use inc_lifecycle.Base.{
  ℕ, ◌+◌, ◌*◌, ◌≤◌, ◌<◌, ◌≡◌, refl, ◌⊎◌, inl, inr, Bool, true, false, Option, none, some, List, [],
  ◌∷◌, map, arith, length, All, u64_max, u32_max,
}
use inc_lifecycle.Buffer.{Entry, Buffer, create, sort, push, elements}
use inc_lifecycle.Buffer.Order.{Chronological, at_time}
use inc_lifecycle.Buffer.Contract.{IsFiled, create-IsFiled, push-IsFiled, fill, elements-fill}
use inc_lifecycle.Tracker.{ProcState, Tracker, new}
use inc_lifecycle.Checkpoint.{
  Status, CheckpointData, ProcessData, UpdateEvent, SupervisionType, timestamp_of_update_event,
  snapshot_of, ok,
}
use inc_lifecycle.Alive.{Config, Alive, create_alive}
use inc_lifecycle.Alive.Evaluate.{update_checkpoint, update_process, store, evaluate, round}
use inc_lifecycle.Alive.Valid.{IsValid, is_running}
use inc_lifecycle.Alive.Invariant.{create_alive-IsValid, round-IsValid}
use inc_lifecycle.Alive.Cycles.{IsEvaluated, evaluate-IsEvaluated}
use inc_lifecycle.Alive.Judged.{cycles, bucket, is_bad}
use inc_lifecycle.Alive.Debounce.{StandsAt, cycles-bucket}

abbrev same : ℕ → ℕ
same n = n

elements-fill_example :
    Chronological same (elements (fill same (3 ∷ 1 ∷ 2 ∷ []) (create 3)))
    × ((t : ℕ)
        → at_time same t (elements (fill same (3 ∷ 1 ∷ 2 ∷ []) (create 3)))
          ≡ at_time same t (3 ∷ 1 ∷ 2 ∷ []))
elements-fill_example = elements-fill same 3 (3 ∷ 1 ∷ 2 ∷ []) (omega arith)

-- At least one and at most two reports each 10 ns, and one failed cycle is tolerated.
abbrev alive_config : Config
alive_config = record {
  alive_reference_cycle = 10;
  min_alive_indications = 1;
  max_alive_indications = 2;
  is_min_check_disabled = false;
  is_max_check_disabled = false;
  failed_cycles_tolerance = 1;
}

abbrev started : ProcessData
started = record {
  identifier = 7;
  proc_state = ProcState.running;
  process_group_state = 1;
  timestamp = 5;
  execution_error = 3;
}

abbrev reported_at : ℕ → ℕ → CheckpointData
reported_at c t = record { identifier = c; timestamp = t; data_loss = false }

abbrev alive_new : Alive
alive_new = create_alive alive_config 8 (1 ∷ []) 7 []

abbrev activation : UpdateEvent
activation = UpdateEvent.process (snapshot_of started)

abbrev fed : Buffer UpdateEvent
fed = (push (UpdateEvent.checkpoint 100 8) 8 (push activation 5 (create 8)).0).0

-- The process started at 5 and reported at 8.
abbrev alive_fed : Alive
alive_fed = record alive_new { buffer = fed }

alive_fed-IsValid : IsValid alive_fed
alive_fed-IsValid =
    let v =
      create_alive-IsValid alive_config 8 (1 ∷ []) 7 [] (omega arith) (omega arith) (omega arith) in
    ground (arith, v)

fed-IsFiled : IsFiled timestamp_of_update_event fed
unfolding timestamp_of_update_event
fed-IsFiled =
    push-IsFiled timestamp_of_update_event (UpdateEvent.checkpoint 100 8)
      (push activation 5 (create 8)).0
      (push-IsFiled timestamp_of_update_event activation (create 8)
        (create-IsFiled timestamp_of_update_event 8))

fed_early : All (λ (e : Entry UpdateEvent). e.timestamp ≤ 40) fed.chain
unfolding push sort create
fed_early = (omega arith, (omega arith, tt))

evaluate-IsEvaluated_example : (b : Alive) × (evaluate 42 40 alive_fed ≡ some b) × IsEvaluated 40 b
evaluate-IsEvaluated_example =
    evaluate-IsEvaluated 42 40 alive_fed alive_fed-IsValid fed-IsFiled fed_early (omega arith)

round-IsValid_example : IsValid (round activation alive_fed).0
round-IsValid_example = round-IsValid activation alive_fed alive_fed-IsValid

-- A supervision that runs since 5.
abbrev alive_running : Alive
alive_running = record alive_new {
  status = ok;
  reference_cycle_start = 5;
  reference_cycle_end = 15;
}

alive_running-IsValid : IsValid alive_running
unfolding create_alive
alive_running-IsValid = record {
  cycle_positive = omega arith;
  cycle_bounded = omega arith;
  tolerance_bounded = omega arith;
  count_bounded = omega arith;
  cycles_bounded = omega arith;
  ok_clean = λ _. refl;
  failed_counted = λ h. absurd (cc);
  expired_exhausted = λ h. absurd (cc);
  cycle_open = λ _. (refl, omega arith);
  cycle_closed = λ h. absurd (cc);
}

cycles-bucket_example :
    StandsAt
      (bucket 1 (map (is_bad alive_config) (1 ∷ 0 ∷ 3 ∷ [])) (some 0))
      (cycles (1 ∷ 0 ∷ 3 ∷ []) alive_running)
unfolding create_alive
cycles-bucket_example =
    cycles-bucket (1 ∷ 0 ∷ 3 ∷ []) alive_running alive_running-IsValid refl refl
      (omega arith, (omega arith, (omega arith, tt))) (omega arith)
