-- ===== src/Timer/Drift.antt =====
-- The sequence of the deadlines of the cycle timer.
use inc_lifecycle.Base.{
  ℕ, zero, suc, ◌+◌, ◌-◌, ◌*◌, ◌≤◌, ◌<◌, ◌≡◌, refl, ◌∙◌, inl, inr, some, arith, leb, leb→le, leb→gt,
  u64_max, Bool-cases,
}
use inc_lifecycle.Timer.{
  TimeSpec, nanoseconds_per_second, handle_nano_sec_overflow, calc_next_shot, shots,
  convert_to_nano_sec,
}

abbrev pub total : TimeSpec → ℕ
total t = t.tv_sec * nanoseconds_per_second + t.tv_nsec

-- A deadline with its nanoseconds below a second, at a time.
pub record IsAt (n : ℕ) (t : TimeSpec) : Type 0 where
  pub normal : t.tv_nsec < nanoseconds_per_second
  pub exact : total t ≡ n

handle_nano_sec_overflow-total :
    (fuel n : ℕ) (t : TimeSpec)
    → t.tv_nsec < fuel * nanoseconds_per_second
    → total t ≡ n
    → (t' : TimeSpec) × (handle_nano_sec_overflow fuel t ≡ some t') × IsAt n t'
unfolding handle_nano_sec_overflow
handle_nano_sec_overflow-total zero n t h e = absurd (omega (arith, h))
handle_nano_sec_overflow-total (suc fuel) n t h e =
    let next : TimeSpec = record {
      tv_sec = suc t.tv_sec;
      tv_nsec = t.tv_nsec - nanoseconds_per_second;
    } in
    elim (Bool-cases (leb nanoseconds_per_second t.tv_nsec)) [
      | inl more ↦
          let large = leb→le nanoseconds_per_second t.tv_nsec more in
          let later =
            handle_nano_sec_overflow-total fuel n next (omega (arith, h, large))
              (omega (arith, e, large)) in
          (later.0, rw more later.1, later.2)
      | inr last ↦ (
        t,
        rw last refl,
        record { normal = leb→gt nanoseconds_per_second t.tv_nsec last; exact = e },
      )
    ]

calc_next_shot-total :
    (fuel interval n : ℕ) (t : TimeSpec)
    → interval + nanoseconds_per_second ≤ fuel * nanoseconds_per_second
    → IsAt n t
    → (t' : TimeSpec) × (calc_next_shot fuel interval t ≡ some t') × IsAt (n + interval) t'
unfolding calc_next_shot
calc_next_shot-total fuel interval n t h at =
    handle_nano_sec_overflow-total fuel (n + interval) (record t { tv_nsec = t.tv_nsec + interval })
      (omega (arith, h, at.normal)) (omega (arith, at.exact))

shots-total :
    (fuel interval start k : ℕ) (t : TimeSpec)
    → interval + nanoseconds_per_second ≤ fuel * nanoseconds_per_second
    → IsAt start t
    → (t' : TimeSpec) × (shots fuel interval k t ≡ some t') × IsAt (start + k * interval) t'
unfolding shots
shots-total fuel interval start zero t h at =
    (t, refl, record { normal = at.normal; exact = omega (arith, at.exact) })
shots-total fuel interval start (suc k) t h at =
    let before = shots-total fuel interval start k t h at in
    let next = calc_next_shot-total fuel interval (start + k * interval) before.0 h before.2 in
    (
      next.0,
      rw before.1 next.1,
      record { normal = next.2.normal; exact = omega (arith, next.2.exact) },
    )

convert-exact : (n : ℕ) (t : TimeSpec) → IsAt n t → n ≤ u64_max → convert_to_nano_sec t ≡ n
unfolding convert_to_nano_sec
convert-exact n t at h = ground (arith, at.exact, at.normal)

-- The deadline of the cycle `k` is computed, for an interval of at most the 60 s that the daemon
-- allows and 61 turns of the loop for a cycle, and stands in nanoseconds exactly `k` intervals after
-- the start, with the nanoseconds below a second, as long as that time fits 64 bits.
pub shots-convert :
    (interval k : ℕ) (t : TimeSpec)
    → interval ≤ 60_000_000_000
    → t.tv_nsec < nanoseconds_per_second
    → convert_to_nano_sec t + k * interval ≤ u64_max
    → total t ≤ u64_max
    → (t' : TimeSpec) × (shots 61 interval k t ≡ some t')
      × (t'.tv_nsec < nanoseconds_per_second)
      × (convert_to_nano_sec t' ≡ convert_to_nano_sec t + k * interval)
shots-convert interval k t bound normal fits valid =
    let start = convert-exact (total t) t (record { normal = normal; exact = refl }) valid in
    let last =
      shots-total 61 interval (total t) k t (omega arith)
        (record { normal = normal; exact = refl }) in
    (
      last.0,
      last.1,
      last.2.normal,
      convert-exact (total t + k * interval) last.0 last.2 (omega (arith, start, fits))
          ∙ omega (arith, start),
    )
