-- ===== src/Alive/Judged.antt =====
-- The judgement of a reference cycle of an alive supervision against one counter as its specification.
use inc_lifecycle.Base.{
  ℕ, zero, suc, ◌+◌, ◌-◌, ◌≤◌, ◌<◌, ◌≡◌, refl, ◌∙◌, Bool, true, false, not, ◌&&◌, ◌||◌, Option,
  none, some, List, [], ◌∷◌, arith, ltb, if◌then◌else◌, u64_max, u32_max,
}
use inc_lifecycle.Checkpoint.{Status, deactivated, ok, failed, expired, UpdateType}
use inc_lifecycle.Alive.{
  Config, Alive, evaluate_ref_cycle_out_of_ok, evaluate_ref_cycle_out_of_failed,
  inc_indication_count,
}
use inc_lifecycle.Alive.Evaluate.{
  check_transitions, check_transitions_out_of_ok, check_transitions_out_of_failed,
}
use inc_lifecycle.Alive.Valid.{is_running, IsValid}

-- The specification: `none` is an exceeded tolerance, which stays.
abbrev pub bucket_step : ℕ → Bool → Option ℕ → Option ℕ
bucket_step tolerance bad none = none
bucket_step tolerance true (some n) = if ltb n tolerance then some (suc n) else none
bucket_step tolerance false (some n) = some (n - 1)

abbrev pub bucket : ℕ → List Bool → Option ℕ → Option ℕ
bucket tolerance [] n = n
bucket tolerance (bad ∷ rest) n = bucket tolerance rest (bucket_step tolerance bad n)

abbrev pub is_bad : Config → ℕ → Bool
is_bad c k =
    not c.is_min_check_disabled && ltb k c.min_alive_indications
    || not c.is_max_check_disabled && ltb c.max_alive_indications k

level_of : Status → ℕ → Option ℕ
level_of ok n = some n
level_of failed n = some n
level_of _ n = none

pub level : Alive → Option ℕ
unfolding level_of
level a = level_of a.status a.failed_supervision_cycles

-- `k` reports of the checkpoint.
pub indicate : ℕ → Alive → Alive
indicate zero a = a
indicate (suc k) a = indicate k (check_transitions a.status UpdateType.checkpoint 0 a)

-- Reference cycles with so many reports each, each judged at its end.
unfoldable pub cycles : List ℕ → Alive → Alive
unfolding indicate
cycles [] a = a
cycles (k ∷ ks) a =
    let b = indicate k a in
    cycles ks (check_transitions b.status UpdateType.evaluation b.reference_cycle_end b)

pub counted :
    (s : Status) (a : Alive)
    → is_running s ≡ true
    → a.indication_count < u32_max
    → check_transitions s UpdateType.checkpoint 0 a
      ≡ record a { indication_count = suc a.indication_count }
unfolding check_transitions check_transitions_out_of_ok check_transitions_out_of_failed
    inc_indication_count
counted ok a r h = ground arith
counted failed a r h = ground arith
counted deactivated a r h = absurd (cc)
counted expired a r h = absurd (cc)

pub indicate-running :
    (k : ℕ) (a : Alive)
    → is_running a.status ≡ true
    → a.indication_count + k ≤ u32_max
    → indicate k a ≡ record a { indication_count = a.indication_count + k }
unfolding indicate
indicate-running zero a r h = ground arith
indicate-running (suc k) a r h = rw (counted a.status a r (omega arith)) (
    indicate-running k (record a { indication_count = suc a.indication_count }) r (omega arith)
    ∙ same_count)
  where
    same_count :
        record a { indication_count = suc a.indication_count + k }
        ≡ record a { indication_count = a.indication_count + suc k }
    same_count = ground arith

pub ignored :
    (s : Status) (u : UpdateType) (t : ℕ) (a : Alive) → s ≡ expired → check_transitions s u t a ≡ a
unfolding check_transitions
ignored s u t a h = rw h refl

pub indicate-expired : (k : ℕ) (a : Alive) → a.status ≡ expired → indicate k a ≡ a
unfolding indicate
indicate-expired zero a h = refl
indicate-expired (suc k) a h =
    rw (ignored a.status UpdateType.checkpoint 0 a h) (indicate-expired k a h)

-- What the judgement of a reference cycle does, where the timestamps do not overflow.
pub record Judged (a b : Alive) : Type 0 where
  pub same_config : b.config ≡ a.config
  pub levelled :
      level b
      ≡ bucket_step a.failed_cycles_tolerance
          (is_bad a.config a.indication_count)
          (some a.failed_supervision_cycles)
  pub cycle_moved :
      is_running b.status ≡ true
      → (b.reference_cycle_end ≡ a.reference_cycle_end + a.alive_reference_cycle)
        × (b.indication_count ≡ 0)
  pub expires : is_running b.status ≡ false → b.status ≡ expired

ok-Judged :
    (a : Alive)
    → IsValid a
    → a.status ≡ ok
    → a.reference_cycle_end + a.alive_reference_cycle ≤ u64_max
    → Judged a (evaluate_ref_cycle_out_of_ok a)
unfolding evaluate_ref_cycle_out_of_ok level
ok-Judged a v r h = ground arith

failed-Judged :
    (a : Alive)
    → IsValid a
    → a.status ≡ failed
    → a.reference_cycle_end + a.alive_reference_cycle ≤ u64_max
    → Judged a (evaluate_ref_cycle_out_of_failed a)
unfolding evaluate_ref_cycle_out_of_failed level
failed-Judged a v r h = ground arith

pub judged :
    (s : Status) (t : ℕ) (a : Alive)
    → IsValid a
    → a.status ≡ s
    → is_running s ≡ true
    → a.reference_cycle_end + a.alive_reference_cycle ≤ u64_max
    → Judged a (check_transitions s UpdateType.evaluation t a)
unfolding check_transitions check_transitions_out_of_ok check_transitions_out_of_failed
judged ok t a v e r h = ok-Judged a v e h
judged failed t a v e r h = failed-Judged a v e h
judged deactivated t a v e r h = absurd (cc)
judged expired t a v e r h = absurd (cc)

pub level-running :
    (a : Alive) → is_running a.status ≡ true → level a ≡ some a.failed_supervision_cycles
unfolding level
level-running a r = ground arith

pub level-expired : (a : Alive) → a.status ≡ expired → level a ≡ none
unfolding level
level-expired a r = rw r refl

pub bucket-none : (tolerance : ℕ) (bads : List Bool) → bucket tolerance bads none ≡ none
bucket-none tolerance [] = refl
bucket-none tolerance (bad ∷ rest) = bucket-none tolerance rest

pub cycles-expired : (ks : List ℕ) (a : Alive) → a.status ≡ expired → cycles ks a ≡ a
unfolding cycles
cycles-expired [] a h = refl
cycles-expired (k ∷ ks) a h =
    rw (indicate-expired k a h) (rw (ignored a.status _ _ a h) (cycles-expired ks a h))

pub indicated-IsValid :
    (k : ℕ) (a : Alive)
    → IsValid a
    → is_running a.status ≡ true
    → k ≤ u32_max
    → IsValid (record a { indication_count = k })
indicated-IsValid k a v r h = ground arith
