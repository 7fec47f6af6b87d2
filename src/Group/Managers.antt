-- ===== src/Group/Managers.antt =====
-- The list of the state managers of a process group, which goes from the first node along the nodes
-- with a channel to a control client (src/launch_manager_daemon/src/process_group_manager/
-- processinfonode.cpp: setupControlClientChannel, terminated, getNextStateManager), and the loop over
-- it (processgroupmanager.cpp: controlClientRequests). The nodes are known by their indices.
use inc_lifecycle.Base.{
  ℕ, zero, suc, Bool, true, false, Option, none, some, List, [], ◌∷◌, ◌==◌, if◌then◌else◌,
}

-- control_client_channel_ is there or not, and next_state_manager_.
pub record Managers : Type 0 where
  pub has_channel : ℕ → Bool
  pub next : ℕ → Option ℕ

abbrev pub update {ℓ} : {A : Type ℓ} → ℕ → A → (ℕ → A) → ℕ → A
update i a f j = if j == i then a else f j

abbrev pub no_managers : Managers
no_managers = record { has_channel = λ i. false; next = λ i. none }

-- Of a node whose channel could be had.
unfoldable pub setup_control_client_channel : ℕ → Managers → Managers
setup_control_client_channel i m =
    let m1 = record m { has_channel = update i true m.has_channel } in
    if i == 0 then m1 else record m1 { next = update 0 (some i) (update i (m1.next 0) m1.next) }

-- The part of `terminated` that gives the channel up.
unfoldable pub release_channel : ℕ → Managers → Managers
release_channel i m = record m { has_channel = update i false m.has_channel }

-- The loop takes dead state managers out of the list; on fuel.
unfoldable pub get_next_state_manager : ℕ → ℕ → Managers → Option (Option ℕ × Managers)
get_next_state_manager zero i m = none
get_next_state_manager (suc fuel) i m = elim (m.next i) [
  | none ↦ some (none, m)
  | some j ↦ elim (m.has_channel j) [
    | true ↦ some (some j, m)
    | false ↦ get_next_state_manager fuel i (record m { next = update i (m.next j) m.next })
  ]
]

abbrev pub visit : ℕ → Option (List ℕ × Managers) → Option (List ℕ × Managers)
visit i none = none
visit i (some (visited, m)) = some (i ∷ visited, m)

-- The nodes whose channels are polled for a request, from this node on; on fuel for its turns and
-- for those of the loop inside.
unfoldable pub control_client_requests : ℕ → ℕ → ℕ → Managers → Option (List ℕ × Managers)
unfolding get_next_state_manager
control_client_requests inner zero i m = none
control_client_requests inner (suc fuel) i m = elim (get_next_state_manager inner i m) [
  | none ↦ none
  | some (none, m') ↦ some (i ∷ [], m')
  | some (some j, m') ↦ visit i (control_client_requests inner fuel j m')
]
