-- ===== src/ProcessMap/Deletion.antt =====
-- The deletion of an item from the map of process ids
-- (src/launch_manager_daemon/src/process_group_manager/safeprocessmap.cpp).
use inc_lifecycle.Base.{ℕ, suc, true, false, none, ◌≡◌, ◌≢◌, refl, sym, arith, subst, inl, inr}
use inc_lifecycle.ProcessMap.{ProcessInfoData, Tree, leaf, node, bit, delete_node, lookup}
use inc_lifecycle.ProcessMap.Trie.{
  AllKeys, IsTrie, size, Pop, pop_leaf-cases, Pop-AllKeys, Pop-IsTrie, size-Pop, lookup-Pop,
  AllKeys-imp, AllKeys-and, bit_ne, false-ne-true, Pop-fresh, lookup_absent,
}

-- What is left of a tree t without its item at p.
abbrev pub Deletes : ℕ → ℕ → Tree → Tree → Type 0
Deletes d p t rest =
    (lookup d p rest ≡ none)
    × ((j : ℕ) → j ≢ p → lookup d j rest ≡ lookup d j t)
    × IsTrie d rest
    × (suc (size rest) ≡ size t)

delete_left :
    (d p k : ℕ) (x v : ProcessInfoData) (l r rest : Tree)
    → Pop l k v rest
    → IsTrie d (node p x l r)
    → Deletes d p (node p x l r) (node k v rest r)
unfolding lookup
delete_left d p k x v l r rest q h =
    let at = (Pop-AllKeys (λ j. (bit d j ≡ true) × (j ≢ p)) q h.0).0 in
    let others = (Pop-AllKeys (λ j. (bit d j ≡ true) × (j ≢ p)) q h.0).1 in
    let no_left =
      lookup_absent (suc d) p rest (AllKeys-imp _ (λ j. j ≢ p) rest (λ j m. m.1) others) in
    let no_right = lookup_absent (suc d) p r (AllKeys-imp _ (λ j. j ≢ p) r (λ j m. m.1) h.1) in
    (
      ground (arith, no_left, no_right, at),
      λ j n. ground (arith, (lookup-Pop (suc d) j q h.2).1, at),
      (
        AllKeys-and _ (λ j. j ≢ k) rest
            (AllKeys-imp _ (λ j. bit d j ≡ true) rest (λ j m. m.0) others)
            (Pop-fresh (suc d) q h.2),
        AllKeys-imp _ (λ j. (bit d j ≡ false) × (j ≢ k)) r
            (λ j m. (m.0, bit_ne d j k false true m.0 at.0 false-ne-true)) h.1,
        Pop-IsTrie (suc d) q h.2,
        h.3,
      ),
      omega (arith, size-Pop q),
    )

delete_right :
    (d p k : ℕ) (x v : ProcessInfoData) (r rest : Tree)
    → Pop r k v rest
    → IsTrie d (node p x leaf r)
    → Deletes d p (node p x leaf r) (node k v leaf rest)
unfolding lookup
delete_right d p k x v r rest q h =
    let at = (Pop-AllKeys (λ j. (bit d j ≡ false) × (j ≢ p)) q h.1).0 in
    let others = (Pop-AllKeys (λ j. (bit d j ≡ false) × (j ≢ p)) q h.1).1 in
    let no_right =
      lookup_absent (suc d) p rest (AllKeys-imp _ (λ j. j ≢ p) rest (λ j m. m.1) others) in
    (
      ground (arith, no_right, at),
      λ j n. ground (arith, (lookup-Pop (suc d) j q h.3).1, at),
      (
        tt,
        AllKeys-and _ (λ j. j ≢ k) rest
            (AllKeys-imp _ (λ j. bit d j ≡ false) rest (λ j m. m.0) others)
            (Pop-fresh (suc d) q h.3),
        tt,
        Pop-IsTrie (suc d) q h.3,
      ),
      omega (arith, size-Pop q),
    )

delete_last : (d p : ℕ) (x : ProcessInfoData) → Deletes d p (node p x leaf leaf) leaf
unfolding lookup
delete_last d p x = (refl, λ j n. ground arith, tt, refl)

pub delete_node-Deletes :
    (d p : ℕ) (x : ProcessInfoData) (l r : Tree)
    → IsTrie d (node p x l r)
    → Deletes d p (node p x l r) (delete_node l r)
unfolding delete_node lookup
delete_node-Deletes d p x l r h = elim (pop_leaf-cases l) [
  | inr (k, v, rest, e, q) ↦ rw (e, delete_node) (delete_left d p k x v l r rest q h)
  | inl (e, f) ↦ elim (pop_leaf-cases r) [
    | inr (k, v, rest, e', q) ↦
        let moved =
          subst (λ t. IsTrie d (node p x t r) → Deletes d p (node p x t r) (node k v t rest))
            (sym e) (delete_right d p k x v r rest q) in
        rw (f, e', delete_node) (moved h)
    | inl (e', f') ↦
        let gone =
          subst (λ t. Deletes d p (node p x t r) leaf) (sym e)
            (subst (λ t. Deletes d p (node p x leaf t) leaf) (sym e') (delete_last d p x)) in
        rw (f, f', delete_node) gone
  ]
]

pub delete_node-AllKeys :
    (P : ℕ → Type 0) (p : ℕ) (x : ProcessInfoData) (l r : Tree)
    → AllKeys P (node p x l r)
    → AllKeys P (delete_node l r)
unfolding delete_node
delete_node-AllKeys P p x l r h = elim (pop_leaf-cases l) [
  | inr (k, v, rest, e, q) ↦ let (a, b) = Pop-AllKeys P q h.1 in rw (e, delete_node) (a, b, h.2)
  | inl (e, f) ↦ elim (pop_leaf-cases r) [
    | inr (k, v, rest, e', q) ↦
        let (a, b) = Pop-AllKeys P q h.2 in rw (f, e', delete_node) (a, h.1, b)
    | inl (e', f') ↦ rw (f, f', delete_node) tt
  ]
]
