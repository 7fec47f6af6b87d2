-- ===== src/MonitorInterface/Reading.antt =====
-- Which checkpoints a cycle takes from the channel, and who is told.
use inc_lifecycle.Base.{
  ℕ, ◌≡◌, Bool, true, false, List, [], ◌∷◌, ◌++◌, map, ◌⊎◌, leb, ◌==◌, if◌then◌else◌, All,
}
use inc_lifecycle.Checkpoint.{CheckpointData}
use inc_lifecycle.MonitorInterface.{
  Checkpoint, active, inactive, Element, reported, corrupted, MonitorInterface,
}

-- The channel holds a checkpoint there, and gives it out.
abbrev pub is_intact : Element → Bool
is_intact (reported id t popped) = popped
is_intact corrupted = false

abbrev pub is_early : ℕ → Element → Bool
is_early sync (reported id t popped) = leb t sync
is_early sync corrupted = false

abbrev pub IsLateFrom : ℕ → List Element → Type 0
IsLateFrom sync [] = Unit
IsLateFrom sync (e ∷ channel) = is_early sync e ≡ false

abbrev pub times : Checkpoint → List ℕ
times c = map (λ (d : CheckpointData). d.timestamp) c.pushed

-- The times at which a checkpoint was reported, the latest first, before those of old.
abbrev pub times_of : ℕ → List Element → List ℕ → List ℕ
times_of id [] old = old
times_of id (corrupted ∷ channel) old = times_of id channel old
times_of id (reported j t popped ∷ channel) old =
    times_of id channel (if j == id then t ∷ old else old)

-- Each checkpoint pushes its own reports.
abbrev pub pushes_of : List Element → Checkpoint → List ℕ
pushes_of read c = times_of c.checkpoint_id read (times c)

pub record Reads (sync : ℕ) (channel : List Element) (cs cs' : List Checkpoint)
    (left : List Element) : Type 0 where
  pub read : List Element
  pub split : channel ≡ read ++ left
  pub early : All (λ e. is_early sync e ≡ true) read
  pub late : IsLateFrom sync left
  pub pushes : map times cs' ≡ map (pushes_of read) cs

-- It reads in the next cycle: it is active, or was inactive and its process has started.
abbrev pub WillRead : MonitorInterface → Type 0
WillRead m = (m.status ≡ active) ⊎ ((m.status ≡ inactive) × (m.is_activate_request ≡ true))
