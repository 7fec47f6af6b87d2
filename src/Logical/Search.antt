-- ===== src/Logical/Search.antt =====
-- What the searches of a graph find (Logical.cpp, getNextElement and isValidEntry).
use inc_lifecycle.Base.{
  ℕ, ◌≡◌, ◌≢◌, refl, sym, ap, ◌∙◌, ◌⊎◌, inl, inr, true, false, Option, none, some, List, [], ◌∷◌,
  arith, ◌==◌, Bool-cases, Option-cases, get_elem?, elem,
}
use inc_lifecycle.Logical.{GraphElement, Result, result_of, visit, scan, find_entry}

-- The element at an index of the graph.
abbrev pub At : List GraphElement → ℕ → GraphElement → Type 0
At elems i e = get_elem? elems i ≡ some e

abbrev pub Found : List GraphElement → ℕ → List ℕ → Result × Option ℕ → Type 0
Found elems c is r =
    (i : ℕ) × (e : GraphElement) × (elem i is ≡ true)
    × At elems i e
    × (e.tracked_checkpoint ≡ c)
    × (r ≡ (result_of e, some i))

abbrev pub Missing : List GraphElement → ℕ → List ℕ → Type 0
Missing elems c is =
    (i : ℕ) (e : GraphElement) → elem i is ≡ true → At elems i e → e.tracked_checkpoint ≢ c

pub true≢false : true ≢ false
true≢false b = absurd (cc)

==→≡ : (a b : ℕ) → (a == b) ≡ true → a ≡ b
==→≡ a b h = ground arith

==→≢ : (a b : ℕ) → (a == b) ≡ false → a ≢ b
==→≢ a b h q = ground arith

ap_tracked : (e e' : GraphElement) → some e ≡ some e' → e.tracked_checkpoint ≡ e'.tracked_checkpoint
ap_tracked e e' q = cc

elem-cons : (i j : ℕ) (is : List ℕ) → elem i (j ∷ is) ≡ true → (j ≡ i) ⊎ (elem i is ≡ true)
elem-cons i j is h = ground arith

elem_here : (i : ℕ) (is : List ℕ) → elem i (i ∷ is) ≡ true
elem_here i is = ground arith

elem_there : (i j : ℕ) (is : List ℕ) → elem i is ≡ true → elem i (j ∷ is) ≡ true
elem_there i j is h = ground arith

Missing-cons :
    (elems : List GraphElement) (c j : ℕ) (is : List ℕ)
    → ((e : GraphElement) → At elems j e → e.tracked_checkpoint ≢ c)
    → Missing elems c is
    → Missing elems c (j ∷ is)
Missing-cons elems c j is here there i e m a q = elim (elem-cons i j is m) [
  | inl eq ↦ here e (ap (get_elem? elems) eq ∙ a) q
  | inr m' ↦ there i e m' a q
]

visit-cases :
    (elems : List GraphElement) (c i : ℕ) (found : Result × Option ℕ)
    → ((e : GraphElement) × At elems i e
        × (e.tracked_checkpoint ≡ c)
        × (visit elems c i found ≡ (result_of e, some i)))
      ⊎ (((e : GraphElement) → At elems i e → e.tracked_checkpoint ≢ c)
          × (visit elems c i found ≡ found))
unfolding visit
visit-cases elems c i found = elim (Option-cases (get_elem? elems i)) [
  | inl n ↦ inr ((λ e a _. absurd (cc)), rw (visit, n) refl)
  | inr (e, a) ↦ elim (Bool-cases (e.tracked_checkpoint == c)) [
    | inl h ↦ inl (e, a, ==→≡ e.tracked_checkpoint c h, rw (visit, a) (rw h refl))
    | inr h ↦ inr (
      (λ e' a' q. ==→≢ e.tracked_checkpoint c h (ap_tracked e e' (sym a ∙ a') ∙ q)),
      rw (visit, a) (rw h refl),
    )
  ]
]

pub scan-cases :
    (elems : List GraphElement) (c : ℕ) (is : List ℕ) (found : Result × Option ℕ)
    → Found elems c is (scan elems c is found)
      ⊎ (Missing elems c is × (scan elems c is found ≡ found))
unfolding scan
scan-cases elems c [] found = inr ((λ i e m a. absurd (cc)), refl)
scan-cases elems c (j ∷ is) found = elim (scan-cases elems c is (visit elems c j found)) [
  | inl (i, e, m, a, q, r) ↦ inl (i, e, elem_there i j is m, a, q, r)
  | inr (missing, r) ↦ elim (visit-cases elems c j found) [
    | inl (e, a, q, v) ↦ inl (j, e, elem_here j is, a, q, r ∙ v)
    | inr (here, v) ↦ inr (Missing-cons elems c j is here missing, r ∙ v)
  ]
]

abbrev pub Entered : List GraphElement → ℕ → List ℕ → Type 0
Entered elems c is =
    ((i : ℕ) × (e : GraphElement) × (find_entry elems c is ≡ some i)
      × (elem i is ≡ true)
      × At elems i e
      × (e.tracked_checkpoint ≡ c))
    ⊎ ((find_entry elems c is ≡ none) × Missing elems c is)

find_entry-skip :
    (elems : List GraphElement) (c j : ℕ) (is : List ℕ)
    → Entered elems c is
    → ((e : GraphElement) → At elems j e → e.tracked_checkpoint ≢ c)
    → find_entry elems c (j ∷ is) ≡ find_entry elems c is
    → Entered elems c (j ∷ is)
find_entry-skip elems c j is (inl (i, e, r, m, a, q)) here s =
    inl (i, e, s ∙ r, elem_there i j is m, a, q)
find_entry-skip elems c j is (inr (r, missing)) here s =
    inr (s ∙ r, Missing-cons elems c j is here missing)

pub find_entry-cases : (elems : List GraphElement) (c : ℕ) (is : List ℕ) → Entered elems c is
unfolding find_entry
find_entry-cases elems c [] = inr (refl, λ i e m a. absurd (cc))
find_entry-cases elems c (j ∷ is) = elim (Option-cases (get_elem? elems j)) [
  | inl n ↦
      find_entry-skip elems c j is (find_entry-cases elems c is) (λ e a. absurd (cc))
        (rw (find_entry, n) refl)
  | inr (e, a) ↦ elim (Bool-cases (e.tracked_checkpoint == c)) [
    | inl h ↦
        inl (j, e, rw (find_entry, a) (rw h refl), elem_here j is, a, ==→≡ e.tracked_checkpoint c h)
    | inr h ↦
        find_entry-skip elems c j is (find_entry-cases elems c is)
          (λ e' a' q. ==→≢ e.tracked_checkpoint c h (ap_tracked e e' (sym a ∙ a') ∙ q))
          (rw (find_entry, a) (rw h refl))
  ]
]
