-- ===== src/ProcessReader/News.antt =====
-- The changes of the registered processes as their observers are to read them.
use inc_lifecycle.Base.{
  ℕ, ◌≡◌, refl, ap, sym, ◌∙◌, Option, none, some, List, [], ◌∷◌, ◌++◌, inl, inr, arith, ◌==◌,
  if◌then◌else◌, Option-cases, lookup_or, assign,
}
use mathlib.Core.Path.{fun_ext}
use mathlib.Core.List.{append_assoc}
use inc_lifecycle.Timer.{convert_to_nano_sec}
use inc_lifecycle.Checkpoint.{ProcessData, default_execution_error}
use inc_lifecycle.ProcessReader.{
  MonitoredProcess, PosixProcess, Answer, changed, no_change, failed, find_process, process_data,
  set_process, translate_process_state,
}

abbrev pub Processes : Type 0
Processes = List (ℕ × MonitoredProcess)

-- What never changes of a process that is registered: its id and its execution errors.
abbrev pub configuration : Processes → ℕ → Option (ℕ × List (ℕ × ℕ))
configuration m id = elim (find_process id m) [
  | none ↦ none
  | some p ↦ some (p.process_id, p.process_execution_errors)
]

-- A change as the observers of the process are to read it.
abbrev pub news_of : PosixProcess → ℕ × List (ℕ × ℕ) → ProcessData
news_of c (id, errors) = record {
  identifier = id;
  proc_state = translate_process_state c.process_state_id;
  process_group_state = c.process_group_state_id;
  timestamp = convert_to_nano_sec c.system_clock_timestamp;
  execution_error = lookup_or default_execution_error c.process_group_state_id errors;
}

-- The changes of the registered processes, the latest first, before what there is.
abbrev pub news :
    (ℕ → Option (ℕ × List (ℕ × ℕ))) → List Answer → List ProcessData → List ProcessData
news f [] old = old
news f (no_change ∷ answers) old = news f answers old
news f (failed ∷ answers) old = news f answers old
news f (changed c ∷ answers) old =
    news f answers (elim (f c.id) [ none ↦ old | some s ↦ news_of c s ∷ old ])

pub find-assign :
    (j k : ℕ) (p : MonitoredProcess) (m : Processes)
    → find_process j (assign k p m) ≡ (if k == j then some p else find_process j m)
find-assign j k p [] = refl
find-assign j k p ((i, q) ∷ m) = ground (arith, find-assign j k p m)

pub find-assign_self :
    (k : ℕ) (p : MonitoredProcess) (m : Processes) → find_process k (assign k p m) ≡ some p
find-assign_self k p m = ground (arith, find-assign k k p m)

pub set_process-data :
    (c : PosixProcess) (p : MonitoredProcess)
    → process_data (set_process c p) ≡ news_of c (p.process_id, p.process_execution_errors)
unfolding process_data set_process
set_process-data c p = refl

pub configuration-set :
    (c : PosixProcess) (p : MonitoredProcess) (m : Processes)
    → find_process c.id m ≡ some p
    → configuration (assign c.id (set_process c p) m) ≡ configuration m
unfolding set_process
configuration-set c p m e =
    fun_ext (λ (j : ℕ). ground (arith, find-assign j c.id (set_process c p) m))

pub news-append :
    (f : ℕ → Option (ℕ × List (ℕ × ℕ))) (answers : List Answer) (old : List ProcessData)
    → news f answers old ≡ news f answers [] ++ old
news-append f [] old = refl
news-append f (no_change ∷ answers) old = news-append f answers old
news-append f (failed ∷ answers) old = news-append f answers old
news-append f (changed c ∷ answers) old = elim (Option-cases (f c.id)) [
  | inl e ↦ rw e (news-append f answers old)
  | inr (s, e) ↦ rw e (
      news-append f answers (news_of c s ∷ old)
      ∙ sym (append_assoc (news f answers []) (news_of c s ∷ []) old)
      ∙ ap (λ (l : List ProcessData). l ++ old) (sym (news-append f answers (news_of c s ∷ []))))
]
