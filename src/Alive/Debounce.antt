-- ===== src/Alive/Debounce.antt =====
-- The two states ok and failed, the counter of failed cycles and its tolerance, against one counter
-- as their specification.
use inc_lifecycle.Base.{
  ℕ, zero, suc, subst, ◌+◌, ◌*◌, ◌≤◌, ◌≡◌, refl, sym, ap, ◌∙◌, inl, inr, true, Option, none, some,
  List, [], ◌∷◌, map, arith, u64_max, u32_max, Bool-cases, length, All,
}
use inc_lifecycle.Checkpoint.{ok, failed, expired, UpdateType}
use inc_lifecycle.Alive.{Config, Alive}
use inc_lifecycle.Alive.Evaluate.{check_transitions}
use inc_lifecycle.Alive.Valid.{is_running, IsValid}
use inc_lifecycle.Alive.Invariant.{check_transitions-IsValid}
use inc_lifecycle.Alive.Judged.{
  bucket, is_bad, cycles, indicate-running, judged, level-running, level-expired, bucket-none,
  cycles-expired, indicated-IsValid,
}

-- The supervision stands where the specification does: ok where no failed cycle is counted, failed
-- with the count of the others, and expired past the tolerance.
abbrev pub StandsAt : Option ℕ → Alive → Type 0
StandsAt none a = a.status ≡ expired
StandsAt (some zero) a = (a.status ≡ ok) × (a.failed_supervision_cycles ≡ 0)
StandsAt (some (suc n)) a = (a.status ≡ failed) × (a.failed_supervision_cycles ≡ suc n)

IsValid-StandsAt :
    (n : ℕ) (a : Alive)
    → IsValid a
    → is_running a.status ≡ true
    → a.failed_supervision_cycles ≡ n
    → StandsAt (some n) a
IsValid-StandsAt zero a v r e = ground (arith, v.failed_counted)
IsValid-StandsAt (suc n) a v r e = ground (arith, v.ok_clean)

-- From a running supervision at the start of a reference cycle, cycles with any numbers of reports
-- and without overflow of the timestamps take the counter of failed cycles where the specification
-- takes it: up by a bad cycle, down by a good one, and to expired, for good, past the tolerance.
pub cycles-bucket :
    (ks : List ℕ) (a : Alive)
    → IsValid a
    → is_running a.status ≡ true
    → a.indication_count ≡ 0
    → All (λ k. k ≤ u32_max) ks
    → a.reference_cycle_end + length ks * a.alive_reference_cycle ≤ u64_max
    → StandsAt
        (bucket a.failed_cycles_tolerance
          (map (is_bad a.config) ks)
          (some a.failed_supervision_cycles))
        (cycles ks a)
unfolding cycles
cycles-bucket [] a v r z small room = IsValid-StandsAt a.failed_supervision_cycles a v r refl
cycles-bucket (k ∷ ks) a v r z small room =
    let counts =
      indicate-running k a r (omega arith) ∙ ap (λ n. record a { indication_count = n }) (sum z) in
    let b : Alive = record a { indication_count = k } in
    let valid = indicated-IsValid k a v r small.0 in
    let c = check_transitions b.status UpdateType.evaluation b.reference_cycle_end b in
    let j = judged b.status b.reference_cycle_end b valid refl r (omega arith) in
    let w =
      check_transitions-IsValid b.status UpdateType.evaluation b.reference_cycle_end b valid refl in
    let rest = λ (n : Option ℕ). bucket a.failed_cycles_tolerance (map (is_bad a.config) ks) n in
    rw counts (elim (Bool-cases (is_running c.status)) [
      | inl runs ↦
          let same =
            ap
              (λ (g : Config).
                bucket g.failed_cycles_tolerance (map (is_bad g) ks)
                  (some c.failed_supervision_cycles))
              j.same_config
            ∙ ap rest (sym (level-running c runs) ∙ j.levelled) in
          subst (λ o. StandsAt o (cycles ks c)) same
            (cycles-bucket ks c w runs (j.cycle_moved runs).1 small.1
              (onward c (j.cycle_moved runs).0 j.same_config))
      | inr stops ↦
          let over = j.expires stops in
          let none_left =
            ap rest (sym j.levelled ∙ level-expired c over)
            ∙ bucket-none a.failed_cycles_tolerance (map (is_bad a.config) ks) in
          rw (cycles-expired ks c over) (subst (λ o. StandsAt o c) (sym none_left) over)
    ])
  where
    sum : a.indication_count ≡ 0 → a.indication_count + k ≡ k
    sum z = omega arith

    onward :
        (c : Alive)
        → c.reference_cycle_end ≡ a.reference_cycle_end + a.alive_reference_cycle
        → c.config ≡ a.config
        → c.reference_cycle_end + length ks * c.alive_reference_cycle ≤ u64_max
    onward c e g =
        let g' = ap (λ (x : Config). x.alive_reference_cycle) g in rw g' (omega (arith, e))
