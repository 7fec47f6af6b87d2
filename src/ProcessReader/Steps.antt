-- ===== src/ProcessReader/Steps.antt =====
-- One step of the loop that reads the changes of the processes.
use inc_lifecycle.Base.{ℕ, ◌≡◌, refl, true, false, none, some, List, ◌∷◌, arith, leb, assign}
use inc_lifecycle.Timer.{convert_to_nano_sec}
use inc_lifecycle.ProcessReader.{
  MonitoredProcess, PosixProcess, Answer, changed, Reader, find_process, set_process, push_process,
  push_update_till, read_changes,
}
use inc_lifecycle.ProcessReader.News.{news_of, find-assign_self, set_process-data}

-- The reader after a change of a registered process, which it pushes or leaves for the next cycle.
abbrev pub pushed_reader : PosixProcess → MonitoredProcess → Reader → Reader
pushed_reader c p r = record r {
  processes = assign c.id (set_process c p) r.processes;
  pushed = news_of c (p.process_id, p.process_execution_errors) ∷ r.pushed;
  is_push_pending = false;
}

abbrev pub waiting_reader : PosixProcess → MonitoredProcess → Reader → Reader
waiting_reader c p r = record r {
  processes = assign c.id (set_process c p) r.processes;
  last_changed_process = c.id;
  is_push_pending = true;
}

module _ (sync : ℕ) (c : PosixProcess) (answers : List Answer) (r : Reader) where
  pub push_unknown : find_process c.id r.processes ≡ none → push_update_till c sync r ≡ (r, false)
  unfolding push_update_till
  push_unknown e = ground arith

  pub read_changes_unknown :
      find_process c.id r.processes ≡ none
      → read_changes sync (changed c ∷ answers) r
        ≡ read_changes sync answers (record r { is_push_pending = false })
  unfolding read_changes
  read_changes_unknown e = rw (push_unknown e, read_changes) refl

  pub push_early :
      (p : MonitoredProcess)
      → find_process c.id r.processes ≡ some p
      → leb (convert_to_nano_sec c.system_clock_timestamp) sync ≡ true
      → push_update_till c sync r
        ≡ (record (pushed_reader c p r) { is_push_pending = r.is_push_pending }, false)
  unfolding push_update_till push_process
  push_early p e l =
      ground (arith, find-assign_self c.id (set_process c p) r.processes, set_process-data c p)

  pub push_late :
      (p : MonitoredProcess)
      → find_process c.id r.processes ≡ some p
      → leb (convert_to_nano_sec c.system_clock_timestamp) sync ≡ false
      → push_update_till c sync r
        ≡ (record (waiting_reader c p r) { is_push_pending = r.is_push_pending }, true)
  unfolding push_update_till
  push_late p e l = ground arith

  pub read_changes_early :
      (p : MonitoredProcess)
      → find_process c.id r.processes ≡ some p
      → leb (convert_to_nano_sec c.system_clock_timestamp) sync ≡ true
      → read_changes sync (changed c ∷ answers) r ≡ read_changes sync answers (pushed_reader c p r)
  unfolding read_changes
  read_changes_early p e l = rw (push_early p e l, read_changes) refl

  pub read_changes_late :
      (p : MonitoredProcess)
      → find_process c.id r.processes ≡ some p
      → leb (convert_to_nano_sec c.system_clock_timestamp) sync ≡ false
      → read_changes sync (changed c ∷ answers) r ≡ (true, waiting_reader c p r, answers)
  unfolding read_changes
  read_changes_late p e l = rw (push_late p e l, read_changes) refl
