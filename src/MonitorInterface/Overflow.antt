-- ===== src/MonitorInterface/Overflow.antt =====
-- What becomes of an interface that has lost data, and of its checkpoints.
use inc_lifecycle.Base.{
  ℕ, zero, suc, ◌+◌, ◌≤◌, ◌≡◌, refl, ◌∙◌, Bool, true, false, List, [], ◌∷◌, ◌++◌, map, arith,
  if◌then◌else◌, All, Bool-cases, inl, inr,
}
use inc_lifecycle.Checkpoint.{CheckpointData, ProcessData}
use inc_lifecycle.MonitorInterface.{
  Checkpoint, inactive_overflow, Element, reported, corrupted, MonitorInterface, starts, is_off,
  update_process, push_checkpoint_to_observers, push_overflow_info_to_observers, push_new_data,
  check_for_new_data, Input, process_input, cycle_input, step, run,
}

-- What a data loss is for the observers of a checkpoint.
abbrev pub loss : ℕ → CheckpointData
loss identifier = record { identifier = identifier; timestamp = 0; data_loss = true }

abbrev pub losses : ℕ → ℕ → List CheckpointData
losses zero identifier = []
losses (suc n) identifier = loss identifier ∷ losses n identifier

abbrev pub identifiers : List Checkpoint → List ℕ
identifiers = map (λ (c : Checkpoint). c.identifier)

-- The checkpoints of the second list are those of the first, which were given these losses.
abbrev pub HaveLost : ℕ → List Checkpoint → List Checkpoint → Type 0
HaveLost n [] [] = Unit
HaveLost n (c ∷ cs) (c' ∷ cs') =
    (c'.identifier ≡ c.identifier)
    × (c'.pushed ≡ losses n c.identifier ++ c.pushed)
    × HaveLost n cs cs'
HaveLost n _ _ = ⊥

HaveLost-refl : (cs : List Checkpoint) → HaveLost 0 cs cs
HaveLost-refl [] = tt
HaveLost-refl (c ∷ cs) = (refl, refl, HaveLost-refl cs)

HaveLost-push :
    (n : ℕ) (cs cs' : List Checkpoint)
    → HaveLost n cs cs'
    → HaveLost (suc n) cs (push_overflow_info_to_observers cs')
unfolding push_overflow_info_to_observers
HaveLost-push n [] [] h = tt
HaveLost-push n [] (c' ∷ cs') h = h
HaveLost-push n (c ∷ cs) [] h = h
HaveLost-push n (c ∷ cs) (c' ∷ cs') h = (h.0, ground arith, HaveLost-push n cs cs' h.2)

-- The restarts of the process: it starts or runs again after it was off. The first argument says
-- whether it has been off since it was last seen to start or run.
abbrev pub restarts : Bool → List Input → ℕ
restarts off [] = 0
restarts off (process_input p ∷ rest) =
    let again = restarts false rest in
    if starts p.proc_state
    then (if off then suc again else again)
    else (if is_off p.proc_state then restarts true rest else restarts off rest)
restarts off (cycle_input sync overflow channel ∷ rest) = restarts off rest

abbrev pub due : MonitorInterface → ℕ
due m = if m.is_process_restarted then 1 else 0

-- So many losses were pushed since, from an interface that has lost data.
record Lost (total : ℕ) (cs : List Checkpoint) (rest : List Input) (m : MonitorInterface)
    : Type 0 where
  count : ℕ
  bound : count + (due m + restarts m.is_deactivate_request rest) ≤ total
  stays : m.status ≡ inactive_overflow
  pushes : HaveLost count cs m.checkpoints

update_process_kept :
    (p : ProcessData) (m : MonitorInterface)
    → ((update_process p m).checkpoints ≡ m.checkpoints) × ((update_process p m).status ≡ m.status)
unfolding update_process
update_process_kept p m = ground arith

due-update_process :
    (p : ProcessData) (rest : List Input) (m : MonitorInterface)
    → due (update_process p m) + restarts (update_process p m).is_deactivate_request rest
      ≤ due m + restarts m.is_deactivate_request (process_input p ∷ rest)
unfolding update_process
due-update_process p rest m = ground arith

-- A cycle of an interface that has lost data reads nothing; it repeats the loss after a restart.
check_lost_again :
    (sync : ℕ) (overflow : Bool) (channel : List Element) (m : MonitorInterface)
    → m.status ≡ inactive_overflow
    → m.is_process_restarted ≡ true
    → (check_for_new_data sync overflow channel m).0 ≡ record m {
      is_process_restarted = false;
      checkpoints = push_overflow_info_to_observers m.checkpoints;
    }
unfolding check_for_new_data
check_lost_again sync overflow channel m s e = ground arith

check_lost :
    (sync : ℕ) (overflow : Bool) (channel : List Element) (m : MonitorInterface)
    → m.status ≡ inactive_overflow
    → m.is_process_restarted ≡ false
    → (check_for_new_data sync overflow channel m).0 ≡ m
unfolding check_for_new_data
check_lost sync overflow channel m s e = ground arith

step-Lost :
    (total : ℕ) (cs : List Checkpoint) (i : Input) (rest : List Input) (m : MonitorInterface)
    → Lost total cs (i ∷ rest) m
    → Lost total cs rest (step i m)
unfolding step
step-Lost total cs (process_input p) rest m l =
    let k = update_process_kept p m in
    record {
      count = l.count;
      bound = omega (arith, l.bound, due-update_process p rest m);
      stays = k.1 ∙ l.stays;
      pushes = rw k.0 l.pushes;
    }
step-Lost total cs (cycle_input sync overflow channel) rest m l =
    elim (Bool-cases m.is_process_restarted) [
      | inl e ↦ rw (check_lost_again sync overflow channel m l.stays e) (record {
        count = suc l.count;
        bound = ground (arith, l.bound);
        stays = l.stays;
        pushes = HaveLost-push l.count cs m.checkpoints l.pushes;
      })
      | inr e ↦
          rw (check_lost sync overflow channel m l.stays e)
            (record { count = l.count; bound = l.bound; stays = l.stays; pushes = l.pushes })
    ]

run-Lost :
    (total : ℕ) (cs : List Checkpoint) (inputs : List Input) (m : MonitorInterface)
    → Lost total cs inputs m
    → Lost total cs [] (run inputs m)
unfolding run
run-Lost total cs [] m l = l
run-Lost total cs (i ∷ rest) m l = run-Lost total cs rest (step i m) (step-Lost total cs i rest m l)

-- An interface that has lost data is never active again, whatever the process and the channel do:
-- its checkpoints give their observers nothing any more but data losses, and no more of these than there
-- are restarts of the process after it was off, and one that was not yet reported.
pub run_lost :
    (inputs : List Input) (m : MonitorInterface)
    → m.status ≡ inactive_overflow
    → ((run inputs m).status ≡ inactive_overflow)
      × ((n : ℕ) × (n ≤ due m + restarts m.is_deactivate_request inputs)
          × HaveLost n m.checkpoints (run inputs m).checkpoints)
run_lost inputs m s =
    let l =
      run-Lost (due m + restarts m.is_deactivate_request inputs) m.checkpoints inputs m (record {
        count = 0;
        bound = omega arith;
        stays = s;
        pushes = HaveLost-refl m.checkpoints;
      }) in
    (l.stays, (l.count, omega (arith, l.bound), l.pushes))

-- How often the observers of a checkpoint were given one without a data loss.
abbrev pub sound_reports : List CheckpointData → ℕ
sound_reports [] = 0
sound_reports (d ∷ ds) = if d.data_loss then sound_reports ds else suc (sound_reports ds)

-- It reports data losses, and has not reported anything else more often than this.
abbrev pub IsLossy : ℕ → Checkpoint → Type 0
IsLossy k c = (c.is_data_loss_event ≡ true) × (sound_reports c.pushed ≤ k)

module _ (k : ℕ) where
  push_checkpoint-IsLossy :
      (id t : ℕ) (cs : List Checkpoint)
      → All (IsLossy k) cs
      → All (IsLossy k) (push_checkpoint_to_observers id t cs)
  unfolding push_checkpoint_to_observers
  push_checkpoint-IsLossy id t [] h = tt
  push_checkpoint-IsLossy id t (c ∷ cs) h =
      (ground (arith, h.0), push_checkpoint-IsLossy id t cs h.1)

  push_overflow-IsLossy :
      (cs : List Checkpoint)
      → All (IsLossy k) cs
      → All (IsLossy k) (push_overflow_info_to_observers cs)
  unfolding push_overflow_info_to_observers
  push_overflow-IsLossy [] h = tt
  push_overflow-IsLossy (c ∷ cs) h = (ground (arith, h.0), push_overflow-IsLossy cs h.1)

  push_new_data-IsLossy :
      (sync : ℕ) (channel : List Element) (cs : List Checkpoint)
      → All (IsLossy k) cs
      → All (IsLossy k) (push_new_data sync channel cs).1
  unfolding push_new_data
  push_new_data-IsLossy sync [] cs h = h
  push_new_data-IsLossy sync (corrupted ∷ channel) cs h = h
  push_new_data-IsLossy sync (reported id t popped ∷ channel) cs h =
      let now = push_checkpoint-IsLossy id t cs h in
      let rest = push_new_data-IsLossy sync channel (push_checkpoint_to_observers id t cs) now in
      ground (arith, h, now, rest)

  check_for_new_data-IsLossy :
      (sync : ℕ) (overflow : Bool) (channel : List Element) (m : MonitorInterface)
      → All (IsLossy k) m.checkpoints
      → All (IsLossy k) (check_for_new_data sync overflow channel m).0.checkpoints
  unfolding check_for_new_data
  check_for_new_data-IsLossy sync overflow channel m h =
      let read = push_new_data-IsLossy sync channel m.checkpoints h in
      ground (
        arith,
        h,
        read,
        push_overflow-IsLossy m.checkpoints h,
        push_overflow-IsLossy (push_new_data sync channel m.checkpoints).1 read,
      )

  -- Checkpoints that report a data loss go on to do so: whatever the process and the channel do, none
  -- of their later reports is without one, also not after a restart of the process.
  pub run-IsLossy :
      (inputs : List Input) (m : MonitorInterface)
      → All (IsLossy k) m.checkpoints
      → All (IsLossy k) (run inputs m).checkpoints
  unfolding run step
  run-IsLossy [] m h = h
  run-IsLossy (process_input p ∷ rest) m h =
      run-IsLossy rest (update_process p m) (rw (update_process_kept p m).0 h)
  run-IsLossy (cycle_input sync overflow channel ∷ rest) m h =
      run-IsLossy rest (check_for_new_data sync overflow channel m).0
        (check_for_new_data-IsLossy sync overflow channel m h)
