-- ===== src/Time/Tests.antt =====
-- Runs of the arithmetic of times.
use astral.Base.{◌≤◌, ◌≡◌, refl, arith}
use astral.Time.{Timespec, timespec_diffms, timespec_ns}

abbrev early : Timespec
early = record { s = 1; ns = 900000000 }

abbrev late : Timespec
late = record { s = 2; ns = 100000000 }

-- From 1.9 seconds to 2.1 seconds it says 1.8 seconds.
across_a_second : timespec_diffms early late ≡ 1800
unfolding timespec_diffms
across_a_second = refl

after_early : timespec_ns early ≤ timespec_ns late
unfolding timespec_ns
after_early = omega arith
