-- ===== src/ProcessMap/Toggle.antt =====
-- A search of the map of process ids as an operation on one entry
-- (src/launch_manager_daemon/src/process_group_manager/safeprocessmap.cpp).
use inc_lifecycle.Base.{
  ℕ, zero, suc, ◌+◌, true, false, Option, none, some, ◌==◌, if◌then◌else◌, ◌≡◌, ◌≢◌, refl, sym, ap,
  ◌∙◌, arith, inl, inr, Bool-cases,
}
use inc_lifecycle.ProcessMap.{
  ProcessInfoData, Tree, leaf, node, Result, no_memory, anomaly, bit, delete_node, is_pair,
  result_of_insert, result_of_remove, search_tree, lookup,
}
use inc_lifecycle.ProcessMap.Trie.{AllKeys, IsTrie, size}
use inc_lifecycle.ProcessMap.Deletion.{delete_node-Deletes, delete_node-AllKeys}

-- What a search for a key makes of its entry and of the number of free items: it enters what is not
-- there, and takes an entry out with the other half of the pair.
abbrev pub toggle :
    ProcessInfoData → Option ProcessInfoData → ℕ → Result × Option ProcessInfoData × ℕ
toggle item none zero = (no_memory, none, 0)
toggle item none (suc free) = (result_of_insert item.pin, some item, free)
toggle item (some x) free =
    if is_pair item.pin x.pin
    then (result_of_remove item.pin, none, suc free)
    else (anomaly, some x, free)

abbrev pub Toggles : ℕ → ℕ → ProcessInfoData → Tree → ℕ → Result × Tree × ℕ → Type 0
Toggles d key item t free (code, t', free') =
    ((code, lookup d key t', free') ≡ toggle item (lookup d key t) free)
    × ((j : ℕ) → j ≢ key → lookup d j t' ≡ lookup d j t)
    × IsTrie d t'
    × (size t' + free' ≡ size t + free)

pub eqb→eq : (a b : ℕ) → a == b ≡ true → a ≡ b
eqb→eq a b h = ground arith

pub eqb→ne : (a b : ℕ) → a == b ≡ false → a ≢ b
eqb→ne a b h e = ground arith

search_tree-AllKeys :
    (P : ℕ → Type 0) (d key : ℕ) (item : ProcessInfoData) (t : Tree) (free : ℕ)
    → P key
    → AllKeys P t
    → AllKeys P (search_tree d key item t free).1
unfolding search_tree
search_tree-AllKeys P d key item leaf zero k h = tt
search_tree-AllKeys P d key item leaf (suc free) k h = (k, tt, tt)
search_tree-AllKeys P d key item (node p x l r) free k h =
    let left = search_tree-AllKeys P (suc d) key item l free k h.1 in
    let right = search_tree-AllKeys P (suc d) key item r free k h.2 in
    elim (Bool-cases (key == p)) [
      | inl b ↦ elim (Bool-cases (is_pair item.pin x.pin)) [
        | inl c ↦ rw (b, c) (delete_node-AllKeys P p x l r h)
        | inr c ↦ rw (b, c) h
      ]
      | inr b ↦ elim (Bool-cases (bit d key)) [
        | inl c ↦ rw (b, c) (h.0, left, h.2)
        | inr c ↦ rw (b, c) (h.0, h.1, right)
      ]
    ]

pub search_tree-Toggles :
    (d key : ℕ) (item : ProcessInfoData) (t : Tree) (free : ℕ)
    → IsTrie d t
    → Toggles d key item t free (search_tree d key item t free)
unfolding search_tree lookup
search_tree-Toggles d key item leaf zero h = (refl, λ j n. refl, tt, refl)
search_tree-Toggles d key item leaf (suc free) h =
    (ground arith, λ j n. ground arith, (tt, tt, tt, tt), omega arith)
search_tree-Toggles d key item (node p x l r) free h =
    let left = search_tree-Toggles (suc d) key item l free h.2 in
    let right = search_tree-Toggles (suc d) key item r free h.3 in
    elim (Bool-cases (key == p)) [
      | inl b ↦
          let here : key ≡ p = eqb→eq key p b in
          let del = delete_node-Deletes d p x l r h in
          elim (Bool-cases (is_pair item.pin x.pin)) [
            | inl c ↦
                rw (b, c)
                  (
                    ap (λ o. (result_of_remove item.pin, o, suc free))
                        (ap (λ k. lookup d k (delete_node l r)) here ∙ del.0),
                    λ j n. del.1 j (λ e. n (e ∙ sym here)),
                    del.2,
                    omega (arith, del.3),
                  )
            | inr c ↦ rw (b, c) (ap (λ o. (anomaly, o, free)) (rw b refl), λ j n. refl, h, refl)
          ]
      | inr b ↦
          let away : key ≢ p = eqb→ne key p b in
          elim (Bool-cases (bit d key)) [
            | inl c ↦
                rw (b, c)
                  (
                    rw (b, c) left.0,
                    λ j n. ground (arith, left.1 j n),
                    (search_tree-AllKeys _ (suc d) key item l free (c, away) h.0, h.1, left.2, h.3),
                    omega (arith, left.3),
                  )
            | inr c ↦
                rw (b, c)
                  (
                    rw (b, c) right.0,
                    λ j n. ground (arith, right.1 j n),
                    (
                      h.0,
                      search_tree-AllKeys _ (suc d) key item r free (c, away) h.1,
                      h.2,
                      right.2,
                    ),
                    omega (arith, right.3),
                  )
          ]
    ]
