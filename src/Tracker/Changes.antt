-- ===== src/Tracker/Changes.antt =====
-- Which changes a tracker reports, by the states that its processes had.
use inc_lifecycle.Base.{
  ℕ, ◌≡◌, refl, ◌∙◌, ◌⊎◌, inl, inr, true, false, List, [], ◌∷◌, all, any, Bool-cases, get_elem?,
  index_of, Option-cases, ap,
}
use inc_lifecycle.Tracker.{
  ProcessStateType, deactivated, activated, crashed, no_change, recovered_from_crash, ProcState,
  ProcessStateSnapshot, Tracker, is_state, all_in_state, any_in_state, update_process_state,
  analyze_process_states, generate_process_change_event,
}

not_all_active :
    (xs : List ProcessStateType)
    → any (is_state crashed) xs ≡ true
    → all (is_state activated) xs ≡ false
not_all_active [] h = absurd (cc)
not_all_active (activated ∷ xs) h = not_all_active xs h
not_all_active (deactivated ∷ xs) h = refl
not_all_active (crashed ∷ xs) h = refl

not_all_in_state :
    (xs : List ProcessStateType)
    → any_in_state xs crashed ≡ true
    → all_in_state xs activated ≡ false
not_all_in_state [] h = absurd (cc)
not_all_in_state (x ∷ xs) h = not_all_active (x ∷ xs) h

update_process_state-before :
    (i : ℕ) (s : ProcState) (g : ℕ) (t : Tracker)
    → (update_process_state i s g t).process_states_before ≡ t.process_states_before
unfolding update_process_state
update_process_state-before i s g t = elim (Option-cases (index_of i t.ref_processes)) [
  | inl n ↦ simp (update_process_state, n)
  | inr (k, at) ↦ elim (Option-cases (get_elem? t.process_states k)) [
    | inl n ↦ simp (update_process_state, at, n)
    | inr (current, found) ↦ simp (update_process_state, at, found)
  ]
]

analyzed :
    (now : ℕ) (t : Tracker)
    → any_in_state t.process_states_before crashed ≡ true
    → ((analyze_process_states now t).change_type ≡ recovered_from_crash)
        × (all_in_state t.process_states activated ≡ true)
      ⊎ ((analyze_process_states now t).change_type ≡ no_change)
        × (all_in_state t.process_states activated ≡ false)
unfolding analyze_process_states
analyzed now t h = elim (Bool-cases (all_in_state t.process_states activated)) [
  | inl b ↦ inl (simp (b, not_all_in_state t.process_states_before h, h), b)
  | inr b ↦ inr (simp (b, not_all_in_state t.process_states_before h, h), b)
]

-- While a process was crashed at the last look, a tracker reports no plain activation and no
-- deactivation, also where another process terminates properly: it reports the recovery as soon as
-- all the processes are active, and until then no change.
pub crashed_masks :
    (p : ProcessStateSnapshot) (t : Tracker)
    → any_in_state t.process_states_before crashed ≡ true
    → ((generate_process_change_event p t).0.change_type ≡ recovered_from_crash)
        × (all_in_state (generate_process_change_event p t).1.process_states activated ≡ true)
      ⊎ ((generate_process_change_event p t).0.change_type ≡ no_change)
        × (all_in_state (generate_process_change_event p t).1.process_states activated ≡ false)
unfolding generate_process_change_event
crashed_masks p t h =
    analyzed p.timestamp (update_process_state p.identifier p.proc_state p.process_group_state t) (
      ap (λ xs. any_in_state xs crashed)
        (update_process_state-before p.identifier p.proc_state p.process_group_state t)
      ∙ h)
