-- ===== src/Examples/Queues.antt =====
-- The job queue and the map of process ids on small inputs: each theorem with hypotheses, applied
-- where they hold.
use native.Mathlib.Nat.{dvd_of_mod-eq-zero}
use inc_lifecycle.Base.{ℕ, none, some, List, [], ◌∷◌, ◌≡◌, ◌≢◌, refl, true, ◌+◌, arith}
use inc_lifecycle.JobQueue.{JobQueue, create}
use inc_lifecycle.JobQueue.Fifo.{Op, add, get, added, got, run, fifo, run-fifo}
use inc_lifecycle.ProcessMap
use inc_lifecycle.ProcessMap.{
  ProcessInfoData, SafeProcessMap, returns_0, returns_1, target, lookup, search_map,
  find_terminated, insert_if_not_terminated,
}
use inc_lifecycle.ProcessMap.Trie.{size}
use inc_lifecycle.ProcessMap.Toggle.{toggle}
use inc_lifecycle.ProcessMap.Searches.{
  entry, IsOrdered, search_map-toggle, Meets, insert_if_not_terminated-find_terminated,
}

abbrev ops : List Op
ops = get ∷ add 5 ∷ add 6 ∷ add 7 ∷ get ∷ get ∷ []

run-fifo_example : run (create 2) ops ≡ fifo 2 [] ops
run-fifo_example = run-fifo 2 ops (dvd_of_mod-eq-zero 2 refl) (omega arith)

-- At the wrap-around of the indices, where the capacity 3 does not divide their range: the second job
-- takes the place of the first.
abbrev wrapping : JobQueue
wrapping = record (create 3) { in_index = 4_294_967_295; out_index = 4_294_967_295 }

lost_job :
    run wrapping (add 5 ∷ add 6 ∷ get ∷ get ∷ [])
    ≡ added true ∷ added true ∷ got (some 6) ∷ got (some 6) ∷ []
unfolding run create
lost_job = refl

abbrev empty_map : SafeProcessMap
empty_map = ProcessMap.create 2

abbrev started : ProcessInfoData
started = record { status = 0; pin = some 8 }

search_map-toggle_example :
    let (code, call, m) = search_map 5 started empty_map in
    ((code, entry 5 m, m.free) ≡ toggle started (entry 5 empty_map) empty_map.free)
    × (call ≡ target started (entry 5 empty_map))
    × ((j : ℕ) → j ≢ 5 → entry j m ≡ entry j empty_map)
    × IsOrdered m
    × (size m.pid_root + m.free ≡ size empty_map.pid_root + empty_map.free)
unfolding ProcessMap.create
search_map-toggle_example = search_map-toggle 5 started empty_map tt

insert_if_not_terminated-find_terminated_example :
    Meets
      (returns_0, none)
      (returns_0, some (8, 3))
      (insert_if_not_terminated 5 8)
      (find_terminated 5 3)
      empty_map
    × Meets
        (returns_1, none)
        (returns_1, some (8, 3))
        (find_terminated 5 3)
        (insert_if_not_terminated 5 8)
        empty_map
unfolding ProcessMap.create lookup
insert_if_not_terminated-find_terminated_example =
    insert_if_not_terminated-find_terminated 5 8 3 1 empty_map tt refl refl

abbrev calls : List (ℕ × ProcessInfoData)
calls = (5, started) ∷ (7, started) ∷ []
