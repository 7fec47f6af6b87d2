-- ===== src/JobQueue/Slots.antt =====
-- The places of a ring buffer, and the lists that the queue of jobs stands on
-- (src/launch_manager_daemon/src/process_group_manager/jobqueue.cpp).
use native.Mathlib.Nat.{mod-mod_of_dvd, add-mod, mod-eq_of_lt, mod-lt, mod-eq-sub-mod}
use Prim.Native.Nat.{◌∣◌}
use inc_lifecycle.Base.{
  ℕ, zero, suc, ◌+◌, ◌-◌, ◌%◌, ◌<◌, false, some, List, [], ◌∷◌, ◌++◌, ◌==◌, leb, leb→le, leb→gt,
  Bool-cases, get_elem?, length, ◌≡◌, ◌≢◌, ◌⊎◌, refl, sym, ap, inl, inr, ◌∙◌, arith,
}
use inc_lifecycle.JobQueue.{index_range, no_jobs}

pub add_mod_ne : (r c d : ℕ) → r < c → 0 < d → d < c → (r + d) % c ≢ r
add_mod_ne r c d l p m e = elim (Bool-cases (leb c (r + d))) [
  | inr h ↦ let small = mod-eq_of_lt (leb→gt c (r + d) h) in absurd (omega arith)
  | inl h ↦
      let k = leb→le c (r + d) h in
      let less : (r + d) % c ≡ (r + d - c) % c = mod-eq-sub-mod k in
      let low : r + d - c < c = omega arith in let same = mod-eq_of_lt low in absurd (omega arith)
]

-- Different jobs in the queue stand at different places.
pub slot_ne : (a c d : ℕ) → 0 < d → d < c → (a + d) % c ≢ a % c
slot_ne a c d p l e =
    let small = mod-eq_of_lt l in
    let pos : 0 < c = omega arith in
    let low : a % c < c = mod-lt a pos in
    let split = add-mod a d c ∙ ap (λ x. (a % c + x) % c) small in
    add_mod_ne (a % c) c d low p l (sym split ∙ e)

-- The wrap-around of an index keeps the places where the capacity divides the range of the index.
pub slot_wrap : (a c k : ℕ) → c ∣ index_range → (a % index_range + k) % c ≡ (a + k) % c
slot_wrap a c k d =
    add-mod (a % index_range) k c
    ∙ ap (λ x. (x + k % c) % c) (mod-mod_of_dvd c a d)
    ∙ sym (add-mod a k c)

pub not_zero : (n : ℕ) → 0 < n → n == 0 ≡ false
not_zero n l = ground arith

pub length-no_jobs : (n : ℕ) → length (no_jobs n) ≡ n
length-no_jobs zero = refl
length-no_jobs (suc n) = ap suc (length-no_jobs n)

pub get_elem?-append :
    (xs : List ℕ) (x k y : ℕ)
    → get_elem? (xs ++ x ∷ []) k ≡ some y
    → ((k < length xs) × (get_elem? xs k ≡ some y)) ⊎ ((k ≡ length xs) × (x ≡ y))
get_elem?-append [] x zero y e = inr (refl, cc)
get_elem?-append [] x (suc k) y e = absurd (cc)
get_elem?-append (z ∷ xs) x zero y e = inl (omega arith, e)
get_elem?-append (z ∷ xs) x (suc k) y e = elim (get_elem?-append xs x k y e) [
  | inl (l, f) ↦ inl (omega arith, f)
  | inr (l, f) ↦ inr (ap suc l, f)
]
