-- ===== src/Watchdog/Calls.antt =====
-- The calls of the watchdogs to the operating system, which
-- src/launch_manager_daemon/health_monitor_lib/src/score/lcm/saf/watchdog/DeviceIf.cpp passes on, and
-- what the operating system answers. A negative descriptor or result stands as `none` or `false`.
use inc_lifecycle.Base.{
  ℕ, ◌≡◌, Bool, true, false, Option, none, some, List, [], ◌∷◌, ◌==◌, if◌then◌else◌,
}

-- The requests on a descriptor: the ioctls, with the seconds that are set, and the write of 'V'.
pub data Request : Type 0 where
  get_timeout get_time_left enable_card disable_card keep_alive magic_close : Request
  set_timeout : ℕ → Request

pub data Call : Type 0 where
  opened : ℕ → Option ℕ → Call
  used : ℕ → Request → Call
  closed : ℕ → Call

-- The answers depend on the calls so far, newest first. The drivers count in seconds. The answers to
-- the other requests are not read.
pub record Os : Type 0 where
  pub open_answer : ℕ → List Call → Option ℕ
  pub timeout_answer : ℕ → List Call → Option ℕ
  pub time_left_answer : ℕ → List Call → Option ℕ
  pub set_timeout_answer : ℕ → ℕ → List Call → Option ℕ
  pub enable_answer : ℕ → List Call → Bool

-- After these calls the descriptor stands for an open file.
abbrev pub is_open : ℕ → List Call → Bool
is_open fd [] = false
is_open fd (opened name none ∷ calls) = is_open fd calls
is_open fd (opened name (some n) ∷ calls) = if n == fd then true else is_open fd calls
is_open fd (used n request ∷ calls) = is_open fd calls
is_open fd (closed n ∷ calls) = if n == fd then false else is_open fd calls

-- Every call is on a descriptor that was open then.
abbrev pub IsSafe : List Call → Type 0
IsSafe [] = Unit
IsSafe (opened name fd ∷ calls) = IsSafe calls
IsSafe (used fd request ∷ calls) = (is_open fd calls ≡ true) × IsSafe calls
IsSafe (closed fd ∷ calls) = (is_open fd calls ≡ true) × IsSafe calls

-- POSIX: `open` answers with a descriptor that is not open.
abbrev pub IsPosix : Os → Type 0
IsPosix os =
    (name : ℕ) (calls : List Call) (fd : ℕ)
    → os.open_answer name calls ≡ some fd
    → is_open fd calls ≡ false
