-- ===== src/ProcessMap.antt =====
-- The map of process ids (src/launch_manager_daemon/src/process_group_manager/safeprocessmap.hpp and
-- safeprocessmap.cpp): a tree in which a key goes by its bits, the lowest at the root, and the free
-- items. A link is the subtree that it leads to, the free list its length. A key is not negative, and
-- a `ProcessInfoNode*` that is not null is a number. The lock on the root makes a search one step.
pub mod Trie
pub mod Deletion
pub mod Toggle
pub mod Searches
use inc_lifecycle.Base.{
  ℕ, zero, suc, ◌%◌, Bool, true, false, Option, none, some, ◌==◌, if◌then◌else◌,
}
use Prim.Native.Nat.{◌/◌, ◌^◌}

pub record ProcessInfoData : Type 0 where
  pub status : ℕ
  pub pin : Option ℕ

pub data Tree : Type 0 where
  leaf : Tree
  node : ℕ → ProcessInfoData → Tree → Tree → Tree

pub record SafeProcessMap : Type 0 where
  pub pid_root : Tree
  pub free : ℕ

-- What search returns: 0, 1, -1 without memory and -2 for the anomaly, which it tries again.
pub data Result : Type 0 where
  returns_0 returns_1 no_memory anomaly : Result

unfoldable pub create : ℕ → SafeProcessMap
create capacity = record { pid_root = leaf; free = capacity }

-- `key & mask` at the mask of depth d.
unfoldable pub bit : ℕ → ℕ → Bool
bit d key = key / 2 ^ d % 2 == 1

-- findLeaf from an item, the left link first, with what deleteNode leaves of its subtree.
unfoldable pub pop_leaf : Tree → Option (ℕ × ProcessInfoData × Tree)
pop_leaf leaf = none
pop_leaf (node p x l r) =
    let left = pop_leaf l in
    let right = pop_leaf r in
    elim left [
      | some (k, v, rest) ↦ some (k, v, node p x rest r)
      | none ↦ elim right [
        | some (k, v, rest) ↦ some (k, v, node p x l rest)
        | none ↦ some (p, x, leaf)
      ]
    ]

-- removeNode with deleteNode, for an item with these links: the leaf that is found takes its place.
unfoldable pub delete_node : Tree → Tree → Tree
unfolding pop_leaf
delete_node l r = elim (pop_leaf l) [
  | some (k, v, rest) ↦ node k v rest r
  | none ↦ elim (pop_leaf r) [ some (k, v, rest) ↦ node k v l rest | none ↦ leaf ]
]

-- Exactly one of the two is a node.
unfoldable pub is_pair : Option ℕ → Option ℕ → Bool
is_pair none (some _) = true
is_pair (some _) none = true
is_pair _ _ = false

unfoldable pub result_of_insert : Option ℕ → Result
result_of_insert none = returns_1
result_of_insert (some _) = returns_0

unfoldable pub result_of_remove : Option ℕ → Result
result_of_remove (some _) = returns_1
result_of_remove none = returns_0

-- findNode with insertNode and removeNode below an item, and the free items after it. An empty tree
-- without a free item is only in a map of capacity 0, where the source reads past its items.
unfoldable pub search_tree : ℕ → ℕ → ProcessInfoData → Tree → ℕ → Result × Tree × ℕ
unfolding delete_node is_pair result_of_insert result_of_remove
search_tree d key item leaf zero = (no_memory, leaf, 0)
search_tree d key item leaf (suc free) = (result_of_insert item.pin, node key item leaf leaf, free)
search_tree d key item (node p x l r) free =
    let (lc, l', lf) = search_tree (suc d) key item l free in
    let (rc, r', rf) = search_tree (suc d) key item r free in
    if key == p
    then (if is_pair item.pin x.pin
        then (result_of_remove item.pin, delete_node l r, suc free)
        else (anomaly, node p x l r, free))
    else (if bit d key then (lc, node p x l' r, lf) else (rc, node p x l r', rf))

unfoldable pub lookup : ℕ → ℕ → Tree → Option ProcessInfoData
unfolding bit
lookup d key leaf = none
lookup d key (node p x l r) =
    let left = lookup (suc d) key l in
    let right = lookup (suc d) key r in
    if key == p then some x else (if bit d key then left else right)

-- The node that search reports the termination to, with the status: of the item that was found and
-- of the data, one has the node and the other one the status.
unfoldable pub target : ProcessInfoData → Option ProcessInfoData → Option (ℕ × ℕ)
target item none = none
target item (some x) = elim x.pin [
  | none ↦ elim item.pin [ none ↦ none | some pin ↦ some (pin, x.status) ]
  | some pin ↦ elim item.pin [ none ↦ some (pin, item.status) | some _ ↦ none ]
]

-- search, with the call of `terminated` that follows it.
unfoldable pub search_map :
    ℕ → ProcessInfoData → SafeProcessMap → Result × Option (ℕ × ℕ) × SafeProcessMap
unfolding search_tree lookup target
search_map key item m =
    let (code, t, free) = search_tree 0 key item m.pid_root m.free in
    (code, target item (lookup 0 key m.pid_root), record { pid_root = t; free = free })

unfoldable pub find_terminated : ℕ → ℕ → SafeProcessMap → Result × Option (ℕ × ℕ) × SafeProcessMap
unfolding search_map
find_terminated key status m = search_map key (record { status = status; pin = none }) m

unfoldable pub insert_if_not_terminated :
    ℕ → ℕ → SafeProcessMap → Result × Option (ℕ × ℕ) × SafeProcessMap
unfolding search_map
insert_if_not_terminated key object m = search_map key (record { status = 0; pin = some object }) m
