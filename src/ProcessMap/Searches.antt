-- ===== src/ProcessMap/Searches.antt =====
-- The map of process ids from outside: searches, pairs and sequences of them
-- (src/launch_manager_daemon/src/process_group_manager/safeprocessmap.cpp).
use inc_lifecycle.Base.{
  ℕ, suc, ◌+◌, true, Option, none, some, List, [], ◌∷◌, ◌==◌, ◌≡◌, ◌≢◌, refl, sym, ap, ◌∙◌, arith,
  inl, inr, Bool-cases,
}
use inc_lifecycle.ProcessMap.{
  ProcessInfoData, SafeProcessMap, Result, returns_0, returns_1, create, is_pair, result_of_insert,
  result_of_remove, lookup, target, search_map, find_terminated, insert_if_not_terminated,
}
use inc_lifecycle.ProcessMap.Trie.{IsTrie, size}
use inc_lifecycle.ProcessMap.Toggle.{eqb→eq, eqb→ne, toggle, search_tree-Toggles}

abbrev pub entry : ℕ → SafeProcessMap → Option ProcessInfoData
entry key m = lookup 0 key m.pid_root

abbrev pub IsOrdered : SafeProcessMap → Type 0
IsOrdered m = IsTrie 0 m.pid_root

-- A search of an ordered map changes the entry of its key alone: a process that is not there is
-- entered while an item is free, an entry with the other half of the pair is taken out, and one with
-- the same half is the anomaly, which changes nothing. A termination is reported exactly where a node
-- and a status have met. The map stays ordered, and its entries and free items stay as many.
pub search_map-toggle :
    (key : ℕ) (item : ProcessInfoData) (m : SafeProcessMap)
    → IsOrdered m
    → let (code, call, m') = search_map key item m in
      ((code, entry key m', m'.free) ≡ toggle item (entry key m) m.free)
      × (call ≡ target item (entry key m))
      × ((j : ℕ) → j ≢ key → entry j m' ≡ entry j m)
      × IsOrdered m'
      × (size m'.pid_root + m'.free ≡ size m.pid_root + m.free)
unfolding search_map
search_map-toggle key item m h =
    let (a, b, c, d) = search_tree-Toggles 0 key item m.pid_root m.free h in (a, refl, b, c, d)

-- What two calls for a key leave: the codes, the reports and the map after them.
abbrev pub Meets :
    Result × Option (ℕ × ℕ)
    → Result × Option (ℕ × ℕ)
    → (SafeProcessMap → Result × Option (ℕ × ℕ) × SafeProcessMap)
    → (SafeProcessMap → Result × Option (ℕ × ℕ) × SafeProcessMap)
    → SafeProcessMap
    → Type 0
Meets first second f g m =
    let (code, call, m') = f m in
    let (code2, call2, m2) = g m' in
    (code ≡ first.0)
    × (call ≡ first.1)
    × (code2 ≡ second.0)
    × (call2 ≡ second.1)
    × ((j : ℕ) → entry j m2 ≡ entry j m)
    × (m2.free ≡ m.free)

toggle_pair :
    (a b : ProcessInfoData) (free : ℕ)
    → is_pair b.pin a.pin ≡ true
    → toggle b (some a) free ≡ (result_of_remove b.pin, none, suc free)
toggle_pair a b free p = rw p refl

pair_Meets :
    (key free : ℕ) (a b : ProcessInfoData) (m : SafeProcessMap)
    → IsOrdered m
    → entry key m ≡ none
    → m.free ≡ suc free
    → is_pair b.pin a.pin ≡ true
    → Meets
        (result_of_insert a.pin, none)
        (result_of_remove b.pin, target b (some a))
        (search_map key a)
        (search_map key b)
        m
unfolding target
pair_Meets key free a b m h e f p =
    let m1 = (search_map key a m).2 in
    let m2 = (search_map key b m1).2 in
    let (first, call, same, h1, _) = search_map-toggle key a m h in
    let entered = first ∙ ap (λ o. toggle a o m.free) e ∙ ap (λ n. toggle a none n) f in
    let here : entry key m1 ≡ some a = ap (λ r. r.1) entered in
    let (second, call2, same2, _, _) = search_map-toggle key b m1 h1 in
    let taken = second ∙ ap (λ o. toggle b o m1.free) here ∙ toggle_pair a b m1.free p in
    (
      ap (λ r. r.0) entered,
      call ∙ ap (target a) e,
      ap (λ r. r.0) taken,
      call2 ∙ ap (target b) here,
      λ j. elim (Bool-cases (j == key)) [
        | inl q ↦
            let at = eqb→eq j key q in
            ap (λ k. entry k m2) at ∙ ap (λ r. r.1) taken ∙ sym e ∙ sym (ap (λ k. entry k m) at)
        | inr q ↦ let off = eqb→ne j key q in same2 j off ∙ same j off
      ],
      ap (λ r. r.2) taken ∙ ap suc (ap (λ r. r.2) entered) ∙ sym f,
    )

-- A process that has no entry leaves the map as it was, entry by entry, once its node and its
-- termination have both been handed to it, in either order; only the second search reports to the
-- node, with the status. An item has to be free.
pub insert_if_not_terminated-find_terminated :
    (key pin status free : ℕ) (m : SafeProcessMap)
    → IsOrdered m
    → entry key m ≡ none
    → m.free ≡ suc free
    → Meets
        (returns_0, none)
        (returns_0, some (pin, status))
        (insert_if_not_terminated key pin)
        (find_terminated key status)
        m
      × Meets
          (returns_1, none)
          (returns_1, some (pin, status))
          (find_terminated key status)
          (insert_if_not_terminated key pin)
          m
unfolding insert_if_not_terminated find_terminated is_pair result_of_insert result_of_remove target
insert_if_not_terminated-find_terminated key pin status free m h e f =
    let started : ProcessInfoData = record { status = 0; pin = some pin } in
    let exited : ProcessInfoData = record { status = status; pin = none } in
    (
      pair_Meets key free started exited m h e f refl,
      pair_Meets key free exited started m h e f refl,
    )

-- Calls of the map, in order: a key with the item to search for.
unfoldable pub searches : List (ℕ × ProcessInfoData) → SafeProcessMap → SafeProcessMap
unfolding search_map
searches [] m = m
searches ((key, item) ∷ cs) m = searches cs (search_map key item m).2

searches-IsOrdered :
    (cs : List (ℕ × ProcessInfoData)) (m : SafeProcessMap)
    → IsOrdered m
    → IsOrdered (searches cs m)
      × (size (searches cs m).pid_root + (searches cs m).free ≡ size m.pid_root + m.free)
unfolding searches
searches-IsOrdered [] m h = (h, refl)
searches-IsOrdered ((key, item) ∷ cs) m h =
    let (_, _, _, o, s) = search_map-toggle key item m h in
    let (o', s') = searches-IsOrdered cs (search_map key item m).2 o in (o', s' ∙ s)

-- After any searches of a new map, it is ordered, and its entries and free items are together its
-- capacity: no item is lost or used twice.
pub size-searches :
    (capacity : ℕ) (cs : List (ℕ × ProcessInfoData))
    → IsOrdered (searches cs (create capacity))
      × (size (searches cs (create capacity)).pid_root + (searches cs (create capacity)).free
          ≡ capacity)
unfolding create
size-searches capacity cs =
    let (o, s) = searches-IsOrdered cs (create capacity) tt in (o, s ∙ zero_add capacity)
  where
    zero_add : (n : ℕ) → 0 + n ≡ n
    zero_add n = omega arith
