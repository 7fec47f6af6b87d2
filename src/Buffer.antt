-- ===== src/Buffer.antt =====
-- TimeSortingBuffer and the FixedSizeVector under it
-- (src/launch_manager_daemon/health_monitor_lib/src/score/lcm/saf/common/TimeSortingBuffer.hpp,
-- FixedSizeVector.hpp): elements kept in the order of their timestamps, in a storage of fixed size.
--
-- The sort chain is a list whose head is `sortChainEnd_p` and whose tail follows `previous_p`, so
-- `sort` walks it as the source does, from the newest element. `lastReportedElement_p` is the number
-- of elements up to and including it, counted from `sortChainStart_p`; 0 is the null pointer.
pub mod Order
pub mod Contract
use inc_lifecycle.Base.{
  ℕ, zero, suc, ◌≡◌, Bool, true, false, Option, none, some, List, [], ◌∷◌, reverse, ltb, leb,
  if◌then◌else◌, length, get_elem?,
}

pub record Entry {ℓ} (A : Type ℓ) : Type ℓ where
  pub element : A
  pub timestamp : ℕ

pub record Buffer {ℓ} (A : Type ℓ) : Type ℓ where
  pub capacity : ℕ
  pub chain : List (Entry A)
  pub reported : ℕ

module _ {ℓ} {A : Type ℓ} where
  unfoldable pub create : ℕ → Buffer A
  create size = record { capacity = size; chain = []; reported = 0 }

  -- `pushAfter` the first entry, from the end, that is not newer; `pushFront` if there is none.
  unfoldable pub sort : Entry A → List (Entry A) → List (Entry A)
  sort e [] = e ∷ []
  sort e (c ∷ older) = if leb c.timestamp e.timestamp then e ∷ c ∷ older else c ∷ sort e older

  -- How many entries stand before the new one.
  unfoldable pub position : Entry A → List (Entry A) → ℕ
  position e [] = 0
  position e (c ∷ older) =
      if leb c.timestamp e.timestamp then length (c ∷ older) else position e older

  -- The pointer to the last reported element stays on its element.
  unfoldable pub push : A → ℕ → Buffer A → Buffer A × Bool
  unfolding sort position
  push a t b =
      if ltb (length b.chain) b.capacity
      then (
        record b {
          chain = sort (record { element = a; timestamp = t }) b.chain;
          reported =
              if ltb (position (record { element = a; timestamp = t }) b.chain) b.reported
              then suc b.reported
              else b.reported;
        },
        true,
      )
      else (b, false)

  unfoldable pub get_next_element : Buffer A → Option A × Buffer A
  get_next_element b = elim (get_elem? (reverse b.chain) b.reported) [
    | none ↦ (none, b)
    | some e ↦ (some e.element, record b { reported = suc b.reported })
  ]

  unfoldable pub clear : Buffer A → Buffer A
  clear b = record b { chain = []; reported = 0 }

  -- What `while ((p = getNextElement()) != nullptr)` goes through, with fuel for the calls.
  unfoldable pub drain : ℕ → Buffer A → List A
  unfolding get_next_element
  drain zero b = []
  drain (suc fuel) b =
      let (next, b') = get_next_element b in elim next [ none ↦ [] | some a ↦ a ∷ drain fuel b' ]

  -- One call for each element, and the one that finds the end.
  unfoldable pub elements : Buffer A → List A
  unfolding drain
  elements b = drain (suc (length b.chain)) b
