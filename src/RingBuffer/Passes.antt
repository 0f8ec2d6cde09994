-- ===== src/RingBuffer/Passes.antt =====
-- The two passes of a copy into the ring: what they do to each place of the mapping.
use astral.Base.{ℕ, ◌+◌, ◌-◌, ◌%◌, ◌≤◌, ◌<◌, ◌≡◌, List, arith, true, false, word_mod, sub64, add64}
use native.Mathlib.Nat.{mod-lt}
use astral.Base.Memory.{Memory, is_user_address, copy_end, copy_in, mapped}
use astral.Base.Memory.Bytes.{fault-copy_in}
use astral.RingBuffer.{Ring, copy_in_passes, first_pass}
use astral.RingBuffer.Valid.{IsValid}

pub first_pass_all :
    {r : Ring} (p count : ℕ)
    → IsValid r
    → p % r.size + count ≤ r.size
    → first_pass r p count ≡ count
first_pass_all {r} p count v h = ground (arith, mod-lt p v.nonempty)

pub first_pass_part :
    {r : Ring} (p count : ℕ)
    → IsValid r
    → count ≤ r.size
    → r.size < p % r.size + count
    → first_pass r p count ≡ r.size - p % r.size
first_pass_part {r} p count v s h = ground (arith, mod-lt p v.nonempty)

pub first_pass-le :
    {r : Ring} (p count : ℕ) → IsValid r → count ≤ r.size → first_pass r p count ≤ count
first_pass-le {r} p count v s = ground (arith, mod-lt p v.nonempty)

-- One pass, two passes, and two passes of which the first meets a fault.
module _ (buf : List ℕ) (m : Memory) (addr count off first : ℕ) where
  pub one_pass :
      first ≡ count
      → copy_in_passes buf m addr count off first ≡ (
        (copy_in buf off m addr count).0,
        copy_end (is_user_address addr) (copy_in buf off m addr count).1,
      )
  unfolding copy_in_passes
  one_pass h = rw h (ground arith)

  pub two_passes_fault :
      mapped m addr first ≡ false
      → copy_in_passes buf m addr count off first
        ≡ ((copy_in buf off m addr first).0, copy_end (is_user_address addr) true)
  unfolding copy_in_passes
  two_passes_fault e = ground (arith, fault-copy_in buf off m addr first)

  pub two_passes :
      mapped m addr first ≡ true
      → first < count
      → count < word_mod
      → addr + count < word_mod
      → copy_in_passes buf m addr count off first ≡ (
        (copy_in (copy_in buf off m addr first).0 0 m (addr + first) (count - first)).0,
        copy_end
            (is_user_address (addr + first))
            (copy_in (copy_in buf off m addr first).0 0 m (addr + first) (count - first)).1,
      )
  unfolding copy_in_passes
  two_passes e lt w room =
      let g : add64 addr first ≡ addr + first = omega arith in
      let s : sub64 count first ≡ count - first = omega arith in
      rw (← g, ← s) (ground (arith, fault-copy_in buf off m addr first))
