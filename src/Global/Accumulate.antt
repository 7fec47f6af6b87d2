-- ===== src/Global/Accumulate.antt =====
-- The accumulated state and the worst of the local statuses.
use inc_lifecycle.Base.{
  ℕ, suc, ◌≤◌, ◌≡◌, refl, Option, none, some, List, [], ◌∷◌, max, arith, assign,
}
use inc_lifecycle.Monitor.{LocalStatus}
use inc_lifecycle.Global.Evaluate.{larger, aggregate, status_of, accumulated_state}

-- How critical a status is, after Global.hpp.
abbrev pub severity : LocalStatus → ℕ
severity LocalStatus.deactivated = 0
severity LocalStatus.ok = 1
severity LocalStatus.failed = 2
severity LocalStatus.expired = 3

abbrev pub worst : List (ℕ × LocalStatus) → ℕ
worst [] = 0
worst ((k, s) ∷ m) = max (severity s) (worst m)

abbrev rank : Option ℕ → ℕ
rank none = 0
rank (some n) = suc n

pub worst-le : (m : List (ℕ × LocalStatus)) → worst m ≤ 3
worst-le [] = omega arith
worst-le ((k, LocalStatus.deactivated) ∷ m) = omega (arith, worst-le m)
worst-le ((k, LocalStatus.ok) ∷ m) = omega (arith, worst-le m)
worst-le ((k, LocalStatus.failed) ∷ m) = omega (arith, worst-le m)
worst-le ((k, LocalStatus.expired) ∷ m) = omega (arith, worst-le m)

rank-larger : (v : ℕ) (n : Option ℕ) → rank (larger v n) ≡ max (suc v) (rank n)
rank-larger v none = omega arith
rank-larger v (some n) = omega arith

rank-aggregate :
    (n : Option ℕ) (m : List (ℕ × LocalStatus))
    → rank n ≤ 3
    → rank (aggregate n m) ≡ max (rank n) (worst m)
unfolding aggregate
rank-aggregate n [] h = omega arith
rank-aggregate n ((k, LocalStatus.deactivated) ∷ m) h = omega (arith, rank-aggregate n m h)
rank-aggregate n ((k, LocalStatus.ok) ∷ m) h =
    let l = rank-larger 0 n in omega (arith, rank-aggregate (larger 0 n) m (omega arith))
rank-aggregate n ((k, LocalStatus.failed) ∷ m) h =
    let l = rank-larger 1 n in omega (arith, rank-aggregate (larger 1 n) m (omega arith))
rank-aggregate n ((k, LocalStatus.expired) ∷ m) h = omega (arith, rank-larger 2 n, worst-le m)

severity-status_of : (n : Option ℕ) → rank n ≤ 3 → severity (status_of n) ≡ rank n
severity-status_of none h = refl
severity-status_of (some n) h = ground arith

-- The accumulated state of any map of local statuses is the most critical one in it, and deactivated
-- on the empty map; the early end of the loop does not change that.
pub accumulated_state-worst :
    (m : List (ℕ × LocalStatus)) → severity (accumulated_state m) ≡ worst m
unfolding accumulated_state
accumulated_state-worst m =
    let r = rank-aggregate none m (omega arith) in
    omega (arith, r, severity-status_of (aggregate none m) (omega (arith, r, worst-le m)))

-- A written status counts, and the others do not get worse.
pub worst-assign :
    (k : ℕ) (s : LocalStatus) (m : List (ℕ × LocalStatus))
    → (severity s ≤ worst (assign k s m)) × (worst (assign k s m) ≤ max (severity s) (worst m))
worst-assign k s [] = omega arith
worst-assign k s ((j, t) ∷ m) = ground (arith, worst-assign k s m)
