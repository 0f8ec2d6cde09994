-- ===== src/Time/Arithmetic.antt =====
-- Times as numbers of nanoseconds.
use astral.Base.{ℕ, ◌+◌, ◌-◌, ◌*◌, ◌/◌, ◌<◌, ◌≤◌, ◌≡◌, ltb, arith}
use astral.Time.{
  Timespec, timespec_add, timespec_diffus, timespec_ns, timespec_us, timespec_from_us,
  timespec_bigger,
}

abbrev pub IsNormal : Timespec → Type 0
IsNormal a = a.ns < 1000000000

-- The sum of two times has the sum of their nanoseconds, fewer than a second of them in its field.
pub timespec_ns-timespec_add :
    (a b : Timespec)
    → (timespec_ns (timespec_add a b) ≡ timespec_ns a + timespec_ns b) × IsNormal (timespec_add a b)
unfolding timespec_ns timespec_add
timespec_ns-timespec_add a b = (omega arith, omega arith)

-- The microseconds of the time made from microseconds are those it was made from.
timespec_us-timespec_from_us : (us : ℕ) → timespec_us (timespec_from_us us) ≡ us
unfolding timespec_us timespec_from_us
timespec_us-timespec_from_us us = omega arith

-- Of two normal times the bigger is the one with more nanoseconds.
timespec_bigger_lem :
    (a b : Timespec)
    → IsNormal a
    → IsNormal b
    → timespec_bigger a b ≡ ltb (timespec_ns b) (timespec_ns a)
unfolding timespec_bigger timespec_ns
timespec_bigger_lem a b h k = ground arith

-- What `timespec_diffus` gives for two times, the first not the earlier: the microseconds between them
-- when its field of nanoseconds is not the smaller, and too much, by twice the difference of those
-- fields, when it is.
timespec_diffus_lem :
    (a b : Timespec)
    → timespec_ns b ≤ timespec_ns a
    → b.s ≤ a.s
    → (b.ns ≤ a.ns → timespec_diffus a b ≡ (timespec_ns a - timespec_ns b) / 1000)
      × (a.ns < b.ns
          → timespec_diffus a b ≡ (timespec_ns a - timespec_ns b + 2 * (b.ns - a.ns)) / 1000)
unfolding timespec_diffus timespec_ns
timespec_diffus_lem a b g h = (λ k. omega arith, λ k. omega arith)
