-- ===== src/Base/Words.antt =====
-- Machine words as native numbers: `size_t`, `uintmax_t` and `long` of 64 bits.
use Prim.Native.Nat.{ℕ, ◌+◌, ◌-◌, ◌*◌, ◌/◌, ◌%◌, ◌^◌, ◌≤◌, ◌<◌}
use Prim.Native.Nat as Nat
use mathlib.Core.Path.{◌≡◌}
use mathlib.Core.Bool.{Bool}
use native.Mathlib.Omega.{arith}
use astral.Base.Tests.{ltb, ◌==◌, if◌then◌else◌}

abbrev pub word_mod : ℕ
word_mod = 2 ^ 64

abbrev pub long_max : ℕ
long_max = 2 ^ 63

-- Unsigned addition, subtraction and multiplication, which wrap.
abbrev pub add64 : ℕ → ℕ → ℕ
add64 a b = (a + b) % word_mod

abbrev pub sub64 : ℕ → ℕ → ℕ
sub64 a b = (a + word_mod - b) % word_mod

abbrev pub mul64 : ℕ → ℕ → ℕ
mul64 a b = a * b % word_mod

-- `x > y` of two words read as `long`: flipping the sign bit turns it into the unsigned order.
abbrev pub gtb_long : ℕ → ℕ → Bool
gtb_long x y = ltb (add64 y long_max) (add64 x long_max)

-- `min` of include/util.h takes and returns `long`.
abbrev pub min_long : ℕ → ℕ → ℕ
min_long x y = if gtb_long x y then y else x

-- Bit `k` of a word.
abbrev pub bit_at : ℕ → ℕ → Bool
bit_at x k = (x / 2 ^ k) % 2 == 1

-- Of words that are no negative `long`, `min` gives the smaller one.
pub min_long-eq_min : (x y : ℕ) → x < long_max → y < long_max → min_long x y ≡ Nat.min x y
min_long-eq_min x y hx hy = ground arith
