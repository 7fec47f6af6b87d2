-- ===== src/Buffer/Order.antt =====
-- The order of the elements of TimeSortingBuffer.
use mathlib.Core.List.{reverse-cons, append-nil, map-append}
use inc_lifecycle.Base.{
  ℕ, zero, suc, ◌≤◌, ◌<◌, ◌≡◌, refl, sym, ap, ◌∙◌, ◌≢◌, inl, inr, none, some, List, [], ◌∷◌, ◌++◌,
  map, reverse, arith, leb, ◌==◌, if◌then◌else◌, Bool-cases, Option-cases, leb→le, leb→gt, length,
  get_elem?, drop, All, All-append, length-reverse,
}
use inc_lifecycle.Buffer.{Entry, Buffer, sort, drain, elements}

module _ {ℓ} {A : Type ℓ} where
  get_elem?-drop :
      (xs : List A) (k : ℕ) {x : A} → get_elem? xs k ≡ some x → drop k xs ≡ x ∷ drop (suc k) xs
  get_elem?-drop [] k h = absurd (cc)
  get_elem?-drop (x ∷ xs) zero h = cc
  get_elem?-drop (x ∷ xs) (suc k) h = get_elem?-drop xs k h

  get_elem?-drop-none : (xs : List A) (k : ℕ) → get_elem? xs k ≡ none → drop k xs ≡ []
  get_elem?-drop-none [] zero h = refl
  get_elem?-drop-none [] (suc k) h = refl
  get_elem?-drop-none (x ∷ xs) zero h = absurd (cc)
  get_elem?-drop-none (x ∷ xs) (suc k) h = get_elem?-drop-none xs k h

module _ {ℓ} {A : Type ℓ} where
  abbrev pub to_elements : List (Entry A) → List A
  to_elements = map (λ (e : Entry A). e.element)

  drain-drop :
      (fuel : ℕ) (b : Buffer A)
      → length (drop b.reported (reverse b.chain)) < fuel
      → drain fuel b ≡ to_elements (drop b.reported (reverse b.chain))
  unfolding drain
  drain-drop zero b h = elim h [ ]
  drain-drop (suc fuel) b h = elim (Option-cases (get_elem? (reverse b.chain) b.reported)) [
    | inl e ↦ ground (arith, get_elem?-drop-none (reverse b.chain) b.reported e)
    | inr (x, e) ↦
        let tail = get_elem?-drop (reverse b.chain) b.reported e in
        let rest =
          drain-drop fuel (record b { reported = suc b.reported })
            (omega (arith, ap length tail)) in
        ground (arith, tail, rest)
  ]

  -- From a fresh cursor the calls of `getNextElement` give the chain, oldest first.
  pub elements-eq : (b : Buffer A) → b.reported ≡ 0 → elements b ≡ to_elements (reverse b.chain)
  unfolding elements
  elements-eq b h =
      drain-drop (suc (length b.chain)) b (rw h (omega (arith, length-reverse b.chain)))
      ∙ ap (λ k. to_elements (drop k (reverse b.chain))) h

module _ {ℓ} {A : Type ℓ} (time : A → ℕ) where
  -- Oldest first.
  abbrev pub Chronological : List A → Type 0
  Chronological [] = Unit
  Chronological (x ∷ xs) = All (λ y. time x ≤ time y) xs × Chronological xs

  -- The elements of one timestamp, in their order.
  abbrev pub at_time : ℕ → List A → List A
  at_time t [] = []
  at_time t (x ∷ xs) = if time x == t then x ∷ at_time t xs else at_time t xs

  abbrev pub Stamped : List (Entry A) → Type 0
  Stamped [] = Unit
  Stamped (c ∷ cs) = (c.timestamp ≡ time c.element) × Stamped cs

  abbrev pub Descending : List (Entry A) → Type 0
  Descending [] = Unit
  Descending (c ∷ cs) = All (λ (d : Entry A). d.timestamp ≤ c.timestamp) cs × Descending cs

  pub at_time-append :
      (t : ℕ) (xs ys : List A) → at_time t (xs ++ ys) ≡ at_time t xs ++ at_time t ys
  at_time-append t [] ys = refl
  at_time-append t (x ∷ xs) ys = ground (arith, at_time-append t xs ys)

  abbrev oldest_at : ℕ → List (Entry A) → List A
  oldest_at t c = at_time t (to_elements (reverse c))

  oldest_at-cons :
      (t : ℕ) (c : Entry A) (cs : List (Entry A))
      → oldest_at t (c ∷ cs) ≡ oldest_at t cs ++ at_time t (c.element ∷ [])
  oldest_at-cons t c cs = rw (reverse-cons c cs) (
      rw (map-append (λ (e : Entry A). e.element) (reverse cs) (c ∷ []))
        (at_time-append t (to_elements (reverse cs)) (c.element ∷ [])))

  -- Elements of different times may change places.
  singles_comm :
      (t : ℕ) (x y : A) (xs : List A)
      → time x ≢ time y
      → (xs ++ at_time t (x ∷ [])) ++ at_time t (y ∷ [])
        ≡ (xs ++ at_time t (y ∷ [])) ++ at_time t (x ∷ [])
  singles_comm t x y xs h =
      ground (arith, append-nil xs, append-nil (xs ++ x ∷ []), append-nil (xs ++ y ∷ []))

  pub oldest_at-sort :
      (t : ℕ) (e : Entry A) (c : List (Entry A))
      → e.timestamp ≡ time e.element
      → Stamped c
      → oldest_at t (sort e c) ≡ oldest_at t c ++ at_time t (e.element ∷ [])
  unfolding sort
  oldest_at-sort t e [] s st = oldest_at-cons t e []
  oldest_at-sort t e (c ∷ older) s st = elim (Bool-cases (leb c.timestamp e.timestamp)) [
    | inl le ↦ rw le (oldest_at-cons t e (c ∷ older))
    | inr gt ↦ rw gt (
        oldest_at-cons t c (sort e older)
        ∙ ap (λ xs. xs ++ at_time t (c.element ∷ [])) (oldest_at-sort t e older s st.1)
        ∙ singles_comm t e.element c.element (oldest_at t older)
            (omega (arith, s, st.0, leb→gt c.timestamp e.timestamp gt))
        ∙ ap (λ xs. xs ++ at_time t (e.element ∷ [])) (sym (oldest_at-cons t c older)))
  ]

  sort-All {κ} :
      (P : Entry A → Type κ) (e : Entry A) (c : List (Entry A)) → P e → All P c → All P (sort e c)
  unfolding sort
  sort-All P e [] p h = (p, tt)
  sort-All P e (c ∷ older) p h = elim (Bool-cases (leb c.timestamp e.timestamp)) [
    | inl le ↦ rw le (p, h)
    | inr gt ↦ rw gt (h.0, sort-All P e older p h.1)
  ]

  All-le :
      {m n : ℕ} (c : List (Entry A))
      → m ≤ n
      → All (λ (d : Entry A). d.timestamp ≤ m) c
      → All (λ (d : Entry A). d.timestamp ≤ n) c
  All-le [] h a = tt
  All-le (x ∷ c) h a = (omega arith, All-le c h a.1)

  pub sort-Descending : (e : Entry A) (c : List (Entry A)) → Descending c → Descending (sort e c)
  unfolding sort
  sort-Descending e [] d = (tt, tt)
  sort-Descending e (c ∷ older) d = elim (Bool-cases (leb c.timestamp e.timestamp)) [
    | inl le ↦
        let below : c.timestamp ≤ e.timestamp = leb→le c.timestamp e.timestamp le in
        rw le ((below, All-le older below d.0), d)
    | inr gt ↦
        let above = leb→gt c.timestamp e.timestamp gt in
        rw gt (
          sort-All (λ (x : Entry A). x.timestamp ≤ c.timestamp) e older (omega arith) d.0,
          sort-Descending e older d.1,
        )
  ]

  pub sort-Stamped :
      (e : Entry A) (c : List (Entry A))
      → e.timestamp ≡ time e.element
      → Stamped c
      → Stamped (sort e c)
  unfolding sort
  sort-Stamped e [] p s = (p, tt)
  sort-Stamped e (c ∷ older) p s = elim (Bool-cases (leb c.timestamp e.timestamp)) [
    | inl le ↦ rw le (p, s)
    | inr gt ↦ rw gt (s.0, sort-Stamped e older p s.1)
  ]

  Chronological-snoc :
      (xs : List A) (y : A)
      → Chronological xs
      → All (λ x. time x ≤ time y) xs
      → Chronological (xs ++ y ∷ [])
  Chronological-snoc [] y c a = (tt, tt)
  Chronological-snoc (x ∷ xs) y c a =
      (All-append (λ z. time x ≤ time z) xs (y ∷ []) c.0 (a.0, tt), Chronological-snoc xs y c.1 a.1)

  pub All-oldest :
      (n : ℕ) (c : List (Entry A))
      → Stamped c
      → All (λ (d : Entry A). d.timestamp ≤ n) c
      → All (λ x. time x ≤ n) (to_elements (reverse c))
  All-oldest n [] s a = tt
  All-oldest n (c ∷ cs) s a = rw (reverse-cons c cs) (
      rw (map-append (λ (e : Entry A). e.element) (reverse cs) (c ∷ [])) (
        All-append (λ x. time x ≤ n) (to_elements (reverse cs)) (c.element ∷ [])
          (All-oldest n cs s.1 a.1) (omega arith, tt)))

  pub Descending-Chronological :
      (c : List (Entry A)) → Stamped c → Descending c → Chronological (to_elements (reverse c))
  Descending-Chronological [] s d = tt
  Descending-Chronological (c ∷ cs) s d = rw (reverse-cons c cs) (
      rw (map-append (λ (e : Entry A). e.element) (reverse cs) (c ∷ [])) (
        Chronological-snoc (to_elements (reverse cs)) c.element
          (Descending-Chronological cs s.1 d.1) (rw (← s.0) (All-oldest c.timestamp cs s.1 d.0))))
