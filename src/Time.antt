-- ===== src/Time.antt =====
-- The arithmetic of times in kernel-src/include/time.h. Times are not negative, and the products fit.
pub mod Arithmetic
mod Tests
use astral.Base.{ℕ, ◌+◌, ◌-◌, ◌*◌, ◌/◌, ◌%◌, Bool, ◌&&◌, ◌||◌, ltb, ◌==◌}

-- `timespec_t`
pub record Timespec : Type 0 where
  pub s : ℕ
  pub ns : ℕ

-- `abs` of a difference.
abbrev pub abs_diff : ℕ → ℕ → ℕ
abs_diff a b = (a - b) + (b - a)

-- `timespec_add`
unfoldable pub timespec_add : Timespec → Timespec → Timespec
timespec_add a b = record {
  s = a.s + b.s + (a.ns + b.ns) / 1000000000;
  ns = (a.ns + b.ns) % 1000000000;
}

-- `timespec_diffms`
unfoldable pub timespec_diffms : Timespec → Timespec → ℕ
timespec_diffms a b = abs_diff a.ns b.ns / 1000000 + abs_diff a.s b.s * 1000

-- `timespec_diffus`
unfoldable pub timespec_diffus : Timespec → Timespec → ℕ
timespec_diffus a b = abs_diff a.ns b.ns / 1000 + abs_diff a.s b.s * 1000000

-- `timespec_ns`
unfoldable pub timespec_ns : Timespec → ℕ
timespec_ns a = a.ns + a.s * 1000000000

-- `timespec_us`
unfoldable pub timespec_us : Timespec → ℕ
timespec_us a = a.ns / 1000 + a.s * 1000000

-- `timespec_from_us`
unfoldable pub timespec_from_us : ℕ → Timespec
timespec_from_us us = record { s = us / 1000000; ns = (us * 1000) % 1000000000 }

-- `timespec_bigger`
unfoldable pub timespec_bigger : Timespec → Timespec → Bool
timespec_bigger a b = ltb b.s a.s || (a.s == b.s && ltb b.ns a.ns)
