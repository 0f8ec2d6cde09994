-- ===== src/Base/Memory.antt =====
-- The memory that a kernel copy touches: a byte at each mapped address, nothing at the others.
-- kernel-src/include/kernel/usercopy.h and kernel-src/mm/usercopy.c.
pub mod Bytes
use astral.Base.{
  ℕ, zero, suc, ◌+◌, ◌^◌, Bool, true, false, Option, none, some, List, [], ◌∷◌, ltb, ◌==◌,
  if◌then◌else◌, set, get_or,
}

abbrev pub Memory : Type 0
Memory = ℕ → Option ℕ

-- `IS_USER_ADDRESS` of arch/mmu.h: below USERSPACE_END.
abbrev pub is_user_address : ℕ → Bool
is_user_address a = ltb a (2 ^ 47)

-- How a copy ends. A page fault inside `usercopy_fromuser` or `usercopy_touser` comes back as
-- EFAULT; one inside the plain `memcpy` of the macros is a fault of the kernel itself.
pub data Copied : Type 0 where
  copied efault panic : Copied

-- The choice the macros make: `checked` is what `IS_USER_ADDRESS` says of the address tested.
abbrev pub copy_end : Bool → Bool → Copied
copy_end checked false = copied
copy_end true true = efault
copy_end false true = panic

-- `memcpy` of `n` bytes from `addr` into a kernel buffer, byte by byte; true if it met a fault.
unfoldable pub copy_in : List ℕ → ℕ → Memory → ℕ → ℕ → List ℕ × Bool
copy_in buf off m addr zero = (buf, false)
copy_in buf off m addr (suc n) = elim (m addr) [
  | none ↦ (buf, true)
  | some b ↦ copy_in (set buf off b) (off + 1) m (addr + 1) n
]

-- A byte is written at a mapped address.
abbrev pub poke : Memory → ℕ → ℕ → Memory
poke m a b x = if x == a then some b else m x

-- `memcpy` of `n` bytes of a kernel buffer to `addr`.
unfoldable pub copy_out : List ℕ → ℕ → Memory → ℕ → ℕ → Memory × Bool
copy_out buf off m addr zero = (m, false)
copy_out buf off m addr (suc n) = elim (m addr) [
  | none ↦ (m, true)
  | some _ ↦ copy_out buf (off + 1) (poke m addr (get_or buf off 0)) (addr + 1) n
]

-- Whether all `n` bytes at `addr` are mapped, and what they are (0 where one is not).
abbrev pub mapped : Memory → ℕ → ℕ → Bool
mapped m addr zero = true
mapped m addr (suc n) = elim (m addr) [ none ↦ false | some _ ↦ mapped m (addr + 1) n ]

abbrev pub byte : Memory → ℕ → ℕ
byte m a = elim (m a) [ none ↦ 0 | some b ↦ b ]

abbrev pub bytes : Memory → ℕ → ℕ → List ℕ
bytes m addr zero = []
bytes m addr (suc n) = byte m addr ∷ bytes m (addr + 1) n
