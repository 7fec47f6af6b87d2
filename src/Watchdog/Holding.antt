-- ===== src/Watchdog/Holding.antt =====
-- Which watchdog devices hold which descriptors, and what one device does to them.
use inc_lifecycle.Base.{
  ℕ, ◌+◌, ◌≤◌, ◌≡◌, Bool, true, false, Option, none, some, List, [], ◌∷◌, arith, ◌==◌, Option-cases,
  inl, inr,
}
use inc_lifecycle.Watchdog.Calls.{Call, opened, Os, is_open, IsSafe, IsPosix}
use inc_lifecycle.Watchdog.{
  DeviceConfig, WatchdogDevice, enable_opened, enable_device, disable_device,
}

abbrev pub count : Bool → ℕ
count true = 1
count false = 0

abbrev pub holds : ℕ → Option ℕ → ℕ
holds fd none = 0
holds fd (some n) = count (n == fd)

-- How many of the devices hold this descriptor.
abbrev pub holders : ℕ → List WatchdogDevice → ℕ
holders fd [] = 0
holders fd (d ∷ ds) = holds fd d.file_descriptor + holders fd ds

-- Requests on an open descriptor change no descriptor.
abbrev pub Uses : List Call → List Call → ℕ → Type 0
Uses calls calls' n =
    ((fd : ℕ) → is_open fd calls' ≡ is_open fd calls)
    × (IsSafe calls → is_open n calls ≡ true → IsSafe calls')

pub eq_self : (n : ℕ) → (n == n) ≡ true
eq_self n = ground arith

module _ (os : Os) where
  pub enable_opened-Uses :
      (c : DeviceConfig) (n : ℕ) (calls : List Call) → Uses calls (enable_opened os c n calls).1 n
  unfolding enable_opened
  enable_opened-Uses c n calls = ((λ fd. ground arith), (λ s o. ground arith))

-- The calls so far are safe, and each descriptor has at most one holder, and none if it is not open:
-- this device, or one of those that `others` counts.
pub record Held (others : ℕ → ℕ) (d : WatchdogDevice) (calls : List Call) : Type 0 where
  pub owned : (fd : ℕ) → others fd + holds fd d.file_descriptor ≤ count (is_open fd calls)
  pub safe : IsSafe calls

-- The same for a list of devices.
pub record AllHeld (others : ℕ → ℕ) (ds : List WatchdogDevice) (calls : List Call) : Type 0 where
  pub owned : (fd : ℕ) → others fd + holders fd ds ≤ count (is_open fd calls)
  pub safe : IsSafe calls

module _ (os : Os) (posix : IsPosix os) where
  pub enable_device-Held :
      (others : ℕ → ℕ) (d : WatchdogDevice) (calls : List Call)
      → Held others d calls
      → let (enabled, d', calls') = enable_device os d calls in Held others d' calls'
  unfolding enable_device
  enable_device-Held others d calls h =
      elim (Option-cases (os.open_answer d.config.file_name calls)) [
        | inl failed ↦ record {
          owned = λ fd. ground (arith, h.owned fd);
          safe = ground (arith, h.safe);
        }
        | inr (n, e) ↦
            let p = posix d.config.file_name calls n e in
            let u =
              enable_opened-Uses os d.config n
                (opened d.config.file_name (os.open_answer d.config.file_name calls) ∷ calls) in
            record {
              owned = λ fd. ground (arith, h.owned fd, u.0 fd);
              safe = ground (arith, u.1 h.safe, eq_self n);
            }
      ]

pub disable_device-Held :
    (others : ℕ → ℕ) (d : WatchdogDevice) (calls : List Call)
    → Held others d calls
    → let (disabled, d', calls') = disable_device d calls in Held others d' calls'
unfolding disable_device
disable_device-Held others d calls h = elim (Option-cases d.file_descriptor) [
  | inl none_open ↦ record {
    owned = λ fd. ground (arith, h.owned fd);
    safe = ground (arith, h.safe);
  }
  | inr (n, e) ↦ record {
    owned = λ fd. ground (arith, h.owned fd);
    safe = ground (arith, h.owned n, h.safe, eq_self n);
  }
]
