-- ===== src/Buffer/Contract.antt =====
-- The contract of TimeSortingBuffer for clients that push each element under its own timestamp.
use inc_lifecycle.Base.{
  ℕ, suc, ◌+◌, ◌≤◌, ◌<◌, ◌≡◌, refl, sym, ap, ◌∙◌, inl, inr, true, false, List, [], ◌∷◌, ◌++◌,
  reverse, arith, ltb, Bool-cases, length, All,
}
use mathlib.Core.List.{append_assoc, append-nil, reverse-cons, map-append}
use inc_lifecycle.Buffer.{Entry, Buffer, create, sort, push, clear, elements}
use inc_lifecycle.Buffer.Order.{
  elements-eq, Chronological, at_time, Stamped, Descending, at_time-append, oldest_at-sort,
  sort-Descending, sort-Stamped, All-oldest, Descending-Chronological,
}

module _ {ℓ} {A : Type ℓ} where
  pub length-sort : (e : Entry A) (c : List (Entry A)) → length (sort e c) ≡ suc (length c)
  unfolding sort
  length-sort e [] = refl
  length-sort e (c ∷ older) = ground (arith, length-sort e older)

  pub sort_latest :
      (e : Entry A) (c : List (Entry A))
      → All (λ (d : Entry A). d.timestamp ≤ e.timestamp) c
      → sort e c ≡ e ∷ c
  unfolding sort
  sort_latest e [] h = refl
  sort_latest e (c ∷ older) h = ground (arith, h.0)

  -- A push is refused exactly when the storage is full, and then changes nothing.
  pub push_outcome :
      (a : A) (t : ℕ) (b : Buffer A)
      → ((push a t b).1 ≡ ltb (length b.chain) b.capacity)
        × ((push a t b).1 ≡ false → (push a t b).0 ≡ b)
        × ((push a t b).1 ≡ true → length (push a t b).0.chain ≡ suc (length b.chain))
        × ((push a t b).0.capacity ≡ b.capacity)
  unfolding push
  push_outcome a t b =
      let e : Entry A = record { element = a; timestamp = t } in
      elim (Bool-cases (ltb (length b.chain) b.capacity)) [
        | inl room ↦ rw room (refl, λ h. absurd (cc), λ h. length-sort e b.chain, refl)
        | inr full ↦ rw full (refl, λ h. refl, λ h. absurd (cc), refl)
      ]

module _ {ℓ} {A : Type ℓ} (time : A → ℕ) where
  -- What the clients keep: nothing is reported yet, and each element is filed under its own time.
  pub record IsFiled (b : Buffer A) : Type 0 where
    pub fresh : b.reported ≡ 0
    pub stamped : Stamped time b.chain
    pub sorted : Descending time b.chain

  pub clear-IsFiled : (b : Buffer A) → IsFiled (clear b)
  unfolding clear
  clear-IsFiled b = record { fresh = refl; stamped = tt; sorted = tt }

  pub create-IsFiled : (n : ℕ) → IsFiled (create {A = A} n)
  unfolding create
  create-IsFiled n = record { fresh = refl; stamped = tt; sorted = tt }

  pub push-IsFiled : (a : A) (b : Buffer A) → IsFiled b → IsFiled (push a (time a) b).0
  unfolding push
  push-IsFiled a b f =
      let e : Entry A = record { element = a; timestamp = time a } in
      elim (Bool-cases (ltb (length b.chain) b.capacity)) [
        | inl room ↦ rw room (record {
          fresh = rw f.fresh (ground arith);
          stamped = sort-Stamped time e b.chain refl f.stamped;
          sorted = sort-Descending time e b.chain f.sorted;
        })
        | inr full ↦ rw full f
      ]

  pub elements-Chronological : (b : Buffer A) → IsFiled b → Chronological time (elements b)
  elements-Chronological b f =
      rw (elements-eq b f.fresh) (Descending-Chronological time b.chain f.stamped f.sorted)

  pub at_time-push :
      (t : ℕ) (a : A) (b : Buffer A)
      → IsFiled b
      → length b.chain < b.capacity
      → at_time time t (elements (push a (time a) b).0)
        ≡ at_time time t (elements b) ++ at_time time t (a ∷ [])
  unfolding push
  at_time-push t a b f room =
      let e : Entry A = record { element = a; timestamp = time a } in
      let new = push-IsFiled a b f in
      rw (elements-eq b f.fresh, elements-eq (push a (time a) b).0 new.fresh)
        (rw (room_test b room) (oldest_at-sort time t e b.chain refl f.stamped))
    where
      room_test :
          (b : Buffer A) → length b.chain < b.capacity → ltb (length b.chain) b.capacity ≡ true
      room_test b h = ground arith

  -- An element that is not older than any other goes to the end.
  pub elements-push_latest :
      (a : A) (b : Buffer A)
      → IsFiled b
      → All (λ (e : Entry A). e.timestamp ≤ time a) b.chain
      → length b.chain < b.capacity
      → elements (push a (time a) b).0 ≡ elements b ++ a ∷ []
  unfolding push
  elements-push_latest a b f late room =
      let e : Entry A = record { element = a; timestamp = time a } in
      rw (elements-eq b f.fresh, elements-eq (push a (time a) b).0 (push-IsFiled a b f).fresh)
        (rw (room_test b room, sort_latest e b.chain late, reverse-cons e b.chain)
          (map-append (λ (e : Entry A). e.element) (reverse b.chain) (e ∷ [])))
    where
      room_test :
          (b : Buffer A) → length b.chain < b.capacity → ltb (length b.chain) b.capacity ≡ true
      room_test b h = ground arith

  pub All-elements :
      (n : ℕ) (b : Buffer A)
      → IsFiled b
      → All (λ (e : Entry A). e.timestamp ≤ n) b.chain
      → All (λ x. time x ≤ n) (elements b)
  All-elements n b f late = rw (elements-eq b f.fresh) (All-oldest time n b.chain f.stamped late)

  pub fill : List A → Buffer A → Buffer A
  fill [] b = b
  fill (a ∷ rest) b = fill rest (push a (time a) b).0

  fill-elements :
      (items : List A) (b : Buffer A)
      → IsFiled b
      → length b.chain + length items ≤ b.capacity
      → Chronological time (elements (fill items b))
        × ((t : ℕ)
            → at_time time t (elements (fill items b))
              ≡ at_time time t (elements b) ++ at_time time t items)
  unfolding fill
  fill-elements [] b f room = (elements-Chronological b f, λ t. sym (append-nil _))
  fill-elements (a ∷ rest) b f room =
      let next = (push a (time a) b).0 in
      let outcome = push_outcome a (time a) b in
      let fits : (push a (time a) b).1 ≡ true = ground (arith, outcome.0) in
      let later =
        fill-elements rest next (push-IsFiled a b f) (omega (arith, outcome.2 fits, outcome.3)) in
      (
        later.0,
        λ t.
            later.1 t
            ∙ ap (λ xs. xs ++ at_time time t rest) (at_time-push t a b f (omega arith))
            ∙ append_assoc (at_time time t (elements b)) (at_time time t (a ∷ []))
                (at_time time t rest)
            ∙ ap (◌++◌ (at_time time t (elements b))) (sym (at_time-append time t (a ∷ []) rest)),
      )

  -- Elements that are pushed into a new buffer with room for them come out in the order of their
  -- timestamps, and for each timestamp exactly those that were pushed with it, in the order of the
  -- pushes.
  pub elements-fill :
      (n : ℕ) (pushed : List A)
      → length pushed ≤ n
      → Chronological time (elements (fill pushed (create n)))
        × ((t : ℕ) → at_time time t (elements (fill pushed (create n))) ≡ at_time time t pushed)
  unfolding create
  elements-fill n pushed room =
      let all = fill-elements pushed (create n) (create-IsFiled n) (omega arith) in
      (
        all.0,
        λ t. all.1 t ∙ ap (λ xs. at_time time t xs ++ at_time time t pushed) (empty_elements n),
      )
    where
      empty_elements : (n : ℕ) → elements (create {A = A} n) ≡ []
      empty_elements n = elements-eq (create n) refl
