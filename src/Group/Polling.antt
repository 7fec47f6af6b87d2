-- ===== src/Group/Polling.antt =====
-- Which state managers are polled, and where the polling does not end.
use inc_lifecycle.Base.{
  ℕ, zero, suc, ◌<◌, ◌≡◌, ◌≢◌, refl, sym, subst, ◌∙◌, Bool, true, false, Option, none, some, List,
  [], ◌∷◌, ◌==◌, if◌then◌else◌, All, ◌⊎◌, length, arith, Bool-cases, inl, inr,
}
use inc_lifecycle.Group.Managers.{
  Managers, update, setup_control_client_channel, get_next_state_manager, control_client_requests,
}

-- From this node the list goes along these nodes and ends.
abbrev pub Leads : (ℕ → Option ℕ) → ℕ → List ℕ → Type 0
Leads next i [] = next i ≡ none
Leads next i (j ∷ l) = (next i ≡ some j) × Leads next j l

abbrev pub IsNew : ℕ → List ℕ → Type 0
IsNew i l = All (λ (j : ℕ). j ≢ i) l

abbrev pub AreDistinct : List ℕ → Type 0
AreDistinct [] = Unit
AreDistinct (i ∷ l) = IsNew i l × AreDistinct l

abbrev pub alive : (ℕ → Bool) → List ℕ → List ℕ
alive has [] = []
alive has (i ∷ l) = if has i then i ∷ alive has l else alive has l

-- A write elsewhere changes nothing of the list.
Leads-update :
    (next : ℕ → Option ℕ) (k : ℕ) (o : Option ℕ) (i : ℕ) (l : List ℕ)
    → i ≢ k
    → IsNew k l
    → Leads next i l
    → Leads (update k o next) i l
Leads-update next k o i [] n h e = ground arith
Leads-update next k o i (j ∷ l) n h e = (ground (arith, e.0), Leads-update next k o j l h.0 h.1 e.1)

-- The channels are those of before, and the list is only changed from this node.
record Same (i : ℕ) (m m' : Managers) : Type 0 where
  channels : m'.has_channel ≡ m.has_channel
  frame : (k : ℕ) → k ≢ i → m'.next k ≡ m.next k

-- A search that ends at the end of the list, and one that finds a state manager.
record Missed (f i : ℕ) (l : List ℕ) (m : Managers) : Type 0 where
  left : Managers
  result : get_next_state_manager f i m ≡ some (none, left)
  nothing : alive m.has_channel l ≡ []
  same : Same i m left
  ends : left.next i ≡ none

record Found (f i : ℕ) (l : List ℕ) (m : Managers) : Type 0 where
  left : Managers
  manager : ℕ
  rest : List ℕ
  result : get_next_state_manager f i m ≡ some (some manager, left)
  first : alive m.has_channel l ≡ manager ∷ alive m.has_channel rest
  same : Same i m left
  leads : Leads left.next i (manager ∷ rest)
  shorter : length rest < length l
  new : (k : ℕ) → IsNew k l → IsNew k (manager ∷ rest)
  distinct : AreDistinct (manager ∷ rest)

skip : ℕ → ℕ → Managers → Managers
skip i j m = record m { next = update i (m.next j) m.next }

skip-Same : (i j : ℕ) (m m' : Managers) → Same i (skip i j m) m' → Same i m m'
unfolding skip
skip-Same i j m m' s = record { channels = s.channels; frame = λ k n. s.frame k n ∙ ground arith }

skip-result :
    (f i j : ℕ) (m : Managers)
    → m.next i ≡ some j
    → m.has_channel j ≡ false
    → get_next_state_manager (suc f) i m ≡ get_next_state_manager f i (skip i j m)
unfolding get_next_state_manager skip
skip-result f i j m e dead = rw (e, dead, get_next_state_manager) refl

skip-Leads :
    (i j : ℕ) (l : List ℕ) (m : Managers)
    → IsNew i (j ∷ l)
    → Leads m.next j l
    → Leads (skip i j m).next i l
unfolding skip
skip-Leads i j [] m n e = ground arith
skip-Leads i j (k ∷ l) m n e =
    (ground (arith, e.0), Leads-update m.next i (m.next j) k l n.1.0 n.1.1 e.1)

get_next_finds :
    (l : List ℕ) (f i : ℕ) (m : Managers)
    → length l < f
    → Leads m.next i l
    → IsNew i l
    → AreDistinct l
    → Missed f i l m ⊎ Found f i l m
unfolding get_next_state_manager skip
get_next_finds l zero i m b e n d = absurd (omega arith)
get_next_finds [] (suc f) i m b e n d = inl (record {
  left = m;
  result = rw (e, get_next_state_manager) refl;
  nothing = refl;
  same = record { channels = refl; frame = λ k ne. refl };
  ends = e;
})
get_next_finds (j ∷ l) (suc f) i m b e n d = elim (Bool-cases (m.has_channel j)) [
  | inl lives ↦ inr (record {
    left = m;
    manager = j;
    rest = l;
    result = rw (e.0, lives, get_next_state_manager) refl;
    first = rw lives refl;
    same = record { channels = refl; frame = λ k ne. refl };
    leads = e;
    shorter = omega arith;
    new = λ k h. h;
    distinct = d;
  })
  | inr dead ↦
      elim (get_next_finds l f i (skip i j m) (omega arith) (skip-Leads i j l m n e.1) n.1 d.1) [
        | inl r ↦ inl (record {
          left = r.left;
          result = skip-result f i j m e.0 dead ∙ r.result;
          nothing = rw dead r.nothing;
          same = skip-Same i j m r.left r.same;
          ends = r.ends;
        })
        | inr r ↦ inr (record {
          left = r.left;
          manager = r.manager;
          rest = r.rest;
          result = skip-result f i j m e.0 dead ∙ r.result;
          first = rw dead r.first;
          same = skip-Same i j m r.left r.same;
          leads = r.leads;
          shorter = omega (arith, r.shorter);
          new = λ k h. r.new k h.1;
          distinct = r.distinct;
        })
      ]
]

-- What a turn over the list from a node does: it visits the node and the living managers after it,
-- each once and in their order, and leaves the list of these.
pub record Polls (inner fuel i : ℕ) (l : List ℕ) (m : Managers) : Type 0 where
  pub left : Managers
  pub visits : control_client_requests inner fuel i m ≡ some (i ∷ alive m.has_channel l, left)
  pub leads : Leads left.next i (alive m.has_channel l)
  pub channels : left.has_channel ≡ m.has_channel
  pub frame : (k : ℕ) → k ≢ i → IsNew k l → left.next k ≡ m.next k

Missed-Polls :
    (inner fuel i : ℕ) (l : List ℕ) (m : Managers)
    → Missed inner i l m
    → Polls inner (suc fuel) i l m
unfolding control_client_requests
Missed-Polls inner fuel i l m r = record {
  left = r.left;
  visits = rw (r.result, control_client_requests, r.nothing) refl;
  leads = rw r.nothing r.ends;
  channels = r.same.channels;
  frame = λ k n h. r.same.frame k n;
}

Found-Polls :
    (inner fuel i : ℕ) (l : List ℕ) (m : Managers) (r : Found inner i l m)
    → IsNew i l
    → Polls inner fuel r.manager r.rest r.left
    → Polls inner (suc fuel) i l m
unfolding control_client_requests
Found-Polls inner fuel i l m r n p =
    let new = r.new i n in
    let kept = p.frame i (λ e. new.0 (sym e)) new.1 in
    record {
      left = p.left;
      visits = rw (r.result, control_client_requests, p.visits, r.same.channels, r.first) refl;
      leads = rw r.first (
        kept ∙ r.leads.0,
        subst (λ h. Leads p.left.next r.manager (alive h r.rest)) r.same.channels p.leads,
      );
      channels = p.channels ∙ r.same.channels;
      frame =
          λ k ne h. let at = r.new k h in p.frame k (λ e. at.0 (sym e)) at.1 ∙ r.same.frame k ne;
    }

-- The polling of the state managers ends, for a list without a cycle and fuel beyond its length: the
-- first node and those of the list that have a channel are polled, each once and in the order of the
-- list, which then consists of them.
pub requests-Polls :
    (inner fuel i : ℕ) (l : List ℕ) (m : Managers)
    → length l < inner
    → length l < fuel
    → Leads m.next i l
    → IsNew i l
    → AreDistinct l
    → Polls inner fuel i l m
requests-Polls inner zero i l m bi bf e n d = absurd (omega arith)
requests-Polls inner (suc fuel) i l m bi bf e n d = elim (get_next_finds l inner i m bi e n d) [
  | inl r ↦ Missed-Polls inner fuel i l m r
  | inr r ↦ Found-Polls inner fuel i l m r n (
      requests-Polls inner fuel r.manager r.rest r.left (omega (arith, r.shorter))
        (omega (arith, r.shorter)) r.leads.1 r.distinct.0 r.distinct.1)
]

setup_next :
    (i : ℕ) (m : Managers)
    → i ≢ 0
    → (setup_control_client_channel i m).next ≡ update 0 (some i) (update i (m.next 0) m.next)
unfolding setup_control_client_channel
setup_next i m n = rw (not_zero, setup_control_client_channel) refl
  where
    not_zero : (i == 0) ≡ false
    not_zero = ground arith

-- A node that is not in the list is put behind the first node by its setup.
pub setup-Leads :
    (i : ℕ) (l : List ℕ) (m : Managers)
    → i ≢ 0
    → Leads m.next 0 l
    → IsNew 0 l
    → IsNew i l
    → Leads (setup_control_client_channel i m).next 0 (i ∷ l)
setup-Leads i l m n e z new =
    subst (λ f. Leads f 0 (i ∷ l)) (sym (setup_next i m n))
      (refl, Leads-update (update i (m.next 0) m.next) 0 (some i) i l n z (front l e new))
  where
    front :
        (rest : List ℕ)
        → Leads m.next 0 rest
        → IsNew i rest
        → Leads (update i (m.next 0) m.next) i rest
    front [] f k = ground arith
    front (j ∷ rest) f k =
        (ground (arith, f.0), Leads-update m.next i (m.next 0) j rest k.0 k.1 f.1)

-- A list in which a living state manager follows itself.
stuck_at :
    (inner fuel i : ℕ) (m : Managers)
    → m.next i ≡ some i
    → m.has_channel i ≡ true
    → control_client_requests inner fuel i m ≡ none
unfolding control_client_requests get_next_state_manager
stuck_at inner zero i m e h = refl
stuck_at zero (suc fuel) i m e h = refl
stuck_at (suc inner) (suc fuel) i m e h =
    rw (e, h, stuck_at (suc inner) fuel i m e h, control_client_requests, get_next_state_manager)
      refl

stuck_after :
    (inner fuel i j : ℕ) (m : Managers)
    → m.next i ≡ some j
    → m.next j ≡ some j
    → m.has_channel j ≡ true
    → control_client_requests inner fuel i m ≡ none
unfolding control_client_requests get_next_state_manager
stuck_after inner zero i j m e f h = refl
stuck_after zero (suc fuel) i j m e f h = refl
stuck_after (suc inner) (suc fuel) i j m e f h =
    rw (e, h, stuck_at (suc inner) fuel j m f h, control_client_requests, get_next_state_manager)
      refl

-- A state manager that is set up again while it is the first behind the first node follows itself
-- then: with no fuel does the polling of the process group end.
pub setup_again-none :
    (inner fuel i : ℕ) (m : Managers)
    → i ≢ 0
    → m.next 0 ≡ some i
    → control_client_requests inner fuel 0 (setup_control_client_channel i m) ≡ none
unfolding setup_control_client_channel
setup_again-none inner fuel i m n e =
    stuck_after inner fuel 0 i (setup_control_client_channel i m) (ground arith) (ground arith)
      (ground arith)
