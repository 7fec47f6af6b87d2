-- ===== src/ProcessReader/Delivery.antt =====
-- Which changes a cycle hands on to the observers, and which it leaves for the next.
use inc_lifecycle.Base.{
  ℕ, ◌≤◌, ◌<◌, ◌≡◌, Bool, true, false, none, some, List, [], ◌∷◌, ◌++◌, ◌⊎◌, if◌then◌else◌, All,
}
use inc_lifecycle.Checkpoint.{ProcessData}
use inc_lifecycle.ProcessReader.{Answer, no_change, failed, Reader, find_process, process_data}
use inc_lifecycle.ProcessReader.News.{configuration, news}

-- The push that waits for the next cycle.
abbrev pub due : Reader → List ProcessData
due r =
    if r.is_push_pending
    then (elim (find_process r.last_changed_process r.processes) [
      | none ↦ []
      | some p ↦ process_data p ∷ []
    ])
    else []

abbrev pub IsEarly : ℕ → ProcessData → Type 0
IsEarly sync p = p.timestamp ≤ sync

abbrev pub IsLate : ℕ → ProcessData → Type 0
IsLate sync p = sync < p.timestamp

-- Why a cycle ends its reading: a change is to wait, there is no more, or the receiver says so.
abbrev pub IsRead : Reader → List Answer → List Answer → Type 0
IsRead r read left =
    (r.is_push_pending ≡ true)
    ⊎ (left ≡ [])
    ⊎ ((before : List Answer) × (read ≡ before ++ no_change ∷ []))
    ⊎ ((before : List Answer) × (read ≡ before ++ failed ∷ []))

-- From `r`, the answers up to `left` were read; what waited was pushed, then the early changes.
pub record Delivers (sync : ℕ) (answers : List Answer) (r r' : Reader) (left : List Answer)
    : Type 0 where
  pub read : List Answer
  pub early : List ProcessData
  pub split : answers ≡ read ++ left
  pub pushes : r'.pushed ≡ early ++ (due r ++ r.pushed)
  pub all_news : due r' ++ early ≡ news (configuration r.processes) read []
  pub on_time : All (IsEarly sync) early
  pub waits : All (IsLate sync) (due r')
  pub stops : IsRead r' read left
  pub kept : configuration r'.processes ≡ configuration r.processes

abbrev Done : Type 0
Done = Bool × Reader × List Answer

abbrev Outcome : ℕ → List Answer → Reader → Done → Type 0
Outcome sync answers r o = Delivers sync answers r o.1 o.2

-- What is due is pushed.
record Pushes (r r' : Reader) : Type 0 where
  no_more : r'.is_push_pending ≡ false
  given : r'.pushed ≡ due r ++ r.pushed
  same : r'.processes ≡ r.processes
