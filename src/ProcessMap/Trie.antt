-- ===== src/ProcessMap/Trie.antt =====
-- The order of the map of process ids by the bits of the keys, and that a deletion keeps it
-- (src/launch_manager_daemon/src/process_group_manager/safeprocessmap.cpp).
use inc_lifecycle.Base.{
  ℕ, suc, ◌+◌, Bool, true, false, none, some, ◌==◌, if◌then◌else◌, ◌≡◌, ◌≢◌, refl, sym, ap, ◌∙◌,
  arith, subst, ◌⊎◌, inl, inr,
}
use inc_lifecycle.ProcessMap.{ProcessInfoData, Tree, leaf, node, bit, pop_leaf, lookup}

abbrev pub AllKeys : (ℕ → Type 0) → Tree → Type 0
AllKeys P leaf = Unit
AllKeys P (node p x l r) = P p × AllKeys P l × AllKeys P r

-- Below an item at depth d the keys go by their bit d, and none is the item's.
abbrev pub IsTrie : ℕ → Tree → Type 0
IsTrie d leaf = Unit
IsTrie d (node p x l r) =
    AllKeys (λ k. (bit d k ≡ true) × (k ≢ p)) l
    × AllKeys (λ k. (bit d k ≡ false) × (k ≢ p)) r
    × IsTrie (suc d) l
    × IsTrie (suc d) r

abbrev pub size : Tree → ℕ
size leaf = 0
size (node p x l r) = suc (size l + size r)

-- The leaf k is taken off a tree.
pub data Pop : Tree → ℕ → ProcessInfoData → Tree → Type 0 where
  here : {p : ℕ} {x : ProcessInfoData} → Pop (node p x leaf leaf) p x leaf
  left :
      {p k : ℕ} {x v : ProcessInfoData} {l r rest : Tree}
      → Pop l k v rest
      → Pop (node p x l r) k v (node p x rest r)
  right :
      {p k : ℕ} {x v : ProcessInfoData} {r rest : Tree}
      → Pop r k v rest
      → Pop (node p x leaf r) k v (node p x leaf rest)

pub pop_leaf-cases :
    (t : Tree)
    → ((t ≡ leaf) × (pop_leaf t ≡ none))
      ⊎ ((k : ℕ) × (v : ProcessInfoData) × (rest : Tree) × (pop_leaf t ≡ some (k, v, rest))
          × Pop t k v rest)
unfolding pop_leaf
pop_leaf-cases leaf = inl (refl, refl)
pop_leaf-cases (node p x l r) = elim (pop_leaf-cases l) [
  | inr (k, v, rest, e, h) ↦ inr (k, v, node p x rest r, rw (e, pop_leaf) refl, left h)
  | inl (e, f) ↦ elim (pop_leaf-cases r) [
    | inr (k, v, rest, e', h) ↦ inr (
      k,
      v,
      node p x leaf rest,
      rw (f, e', pop_leaf) (ap (λ t. some (k, v, node p x t rest)) e),
      subst (λ t. Pop (node p x t r) k v (node p x leaf rest)) (sym e) (right h),
    )
    | inl (e', f') ↦ inr (
      p,
      x,
      leaf,
      rw (f, f', pop_leaf) refl,
      subst (λ t. Pop (node p x t r) p x leaf) (sym e)
          (subst (λ t. Pop (node p x leaf t) p x leaf) (sym e') here),
    )
  ]
]

pub Pop-AllKeys :
    (P : ℕ → Type 0) {t rest : Tree} {k : ℕ} {v : ProcessInfoData}
    → Pop t k v rest
    → AllKeys P t
    → P k × AllKeys P rest
Pop-AllKeys P here h = (h.0, tt)
Pop-AllKeys P (left q) h = let (a, b) = Pop-AllKeys P q h.1 in (a, (h.0, b, h.2))
Pop-AllKeys P (right q) h = let (a, b) = Pop-AllKeys P q h.2 in (a, (h.0, tt, b))

pub Pop-IsTrie :
    (d : ℕ) {t rest : Tree} {k : ℕ} {v : ProcessInfoData}
    → Pop t k v rest
    → IsTrie d t
    → IsTrie d rest
Pop-IsTrie d here h = tt
Pop-IsTrie d (left q) h = ((Pop-AllKeys _ q h.0).1, h.1, Pop-IsTrie (suc d) q h.2, h.3)
Pop-IsTrie d (right q) h = (tt, (Pop-AllKeys _ q h.1).1, tt, Pop-IsTrie (suc d) q h.3)

pub size-Pop :
    {t rest : Tree} {k : ℕ} {v : ProcessInfoData} → Pop t k v rest → size t ≡ suc (size rest)
size-Pop here = refl
size-Pop (left q) = omega (arith, size-Pop q)
size-Pop (right q) = omega (arith, size-Pop q)

-- What a lookup finds in a tree: the leaf that is taken off, or what it finds in the rest.
pub lookup-Pop :
    (d key : ℕ) {t rest : Tree} {k : ℕ} {v : ProcessInfoData}
    → Pop t k v rest
    → IsTrie d t
    → (lookup d k rest ≡ none) × (lookup d key t ≡ (if key == k then some v else lookup d key rest))
unfolding lookup
lookup-Pop d key here h = (refl, ground arith)
lookup-Pop d key (left q) h =
    let at = (Pop-AllKeys _ q h.0).0 in
    let (gone, found) = lookup-Pop (suc d) key q h.2 in ground arith
lookup-Pop d key (right q) h =
    let at = (Pop-AllKeys _ q h.1).0 in
    let (gone, found) = lookup-Pop (suc d) key q h.3 in ground arith

pub AllKeys-imp : (P Q : ℕ → Type 0) (t : Tree) → ((k : ℕ) → P k → Q k) → AllKeys P t → AllKeys Q t
AllKeys-imp P Q leaf f h = tt
AllKeys-imp P Q (node p x l r) f h = (f p h.0, AllKeys-imp P Q l f h.1, AllKeys-imp P Q r f h.2)

pub AllKeys-and :
    (P Q : ℕ → Type 0) (t : Tree) → AllKeys P t → AllKeys Q t → AllKeys (λ k. P k × Q k) t
AllKeys-and P Q leaf h k = tt
AllKeys-and P Q (node p x l r) h k =
    ((h.0, k.0), AllKeys-and P Q l h.1 k.1, AllKeys-and P Q r h.2 k.2)

-- Keys with different bits differ.
pub bit_ne : (d j k : ℕ) (b c : Bool) → bit d j ≡ b → bit d k ≡ c → b ≢ c → j ≢ k
bit_ne d j k b c e f n same = n (sym e ∙ ap (bit d) same ∙ f)

pub false-ne-true : false ≢ true
false-ne-true e = absurd (cc)

pub true-ne-false : true ≢ false
true-ne-false e = absurd (cc)

-- The leaf that was taken off is not in the rest.
pub Pop-fresh :
    (d : ℕ) {t rest : Tree} {k : ℕ} {v : ProcessInfoData}
    → Pop t k v rest
    → IsTrie d t
    → AllKeys (λ j. j ≢ k) rest
Pop-fresh d here h = tt
Pop-fresh d (left {p = p} {k = k} {r = r} q) h =
    let at = (Pop-AllKeys _ q h.0).0 in
    (
      λ e. at.1 (sym e),
      Pop-fresh (suc d) q h.2,
      AllKeys-imp _ (λ j. j ≢ k) r (λ j m. bit_ne d j k false true m.0 at.0 false-ne-true) h.1,
    )
Pop-fresh d (right {p = p} {k = k} q) h =
    let at = (Pop-AllKeys _ q h.1).0 in (λ e. at.1 (sym e), tt, Pop-fresh (suc d) q h.3)

pub lookup_absent : (d key : ℕ) (t : Tree) → AllKeys (λ k. k ≢ key) t → lookup d key t ≡ none
unfolding lookup
lookup_absent d key leaf h = refl
lookup_absent d key (node p x l r) h =
    ground (arith, lookup_absent (suc d) key l h.1, lookup_absent (suc d) key r h.2)
