-- ===== src/RingBuffer.antt =====
-- The ring buffer of kernel-src/lib/ringbuffer.c and kernel-src/include/ringbuffer.h: a byte queue
-- over a mapping of `size` bytes, with read and write positions that only ever grow. The other end
-- of a copy is a memory in which an address may be unmapped.
pub mod Valid
pub mod Passes
pub mod Stored
pub mod Write
pub mod Loaded
pub mod Ends
pub mod Read
pub mod Peek
mod Tests
use astral.Base.{
  ℕ, ◌%◌, Bool, Option, none, some, List, leb, ◌==◌, if◌then◌else◌, add64, sub64, min_long, Status,
  ok, err, enomem,
}
use astral.Base.Memory.{
  Memory, is_user_address, Copied, copied, efault, panic, copy_end, copy_in, copy_out,
}

-- `ringbuffer_t`: `base` is the address in its field `data`, and `bytes` what is stored there.
pub record Ring : Type 0 where
  pub size : ℕ
  pub write : ℕ
  pub read : ℕ
  pub base : ℕ
  pub bytes : List ℕ

-- What a transfer returns: a count, RINGBUFFER_USER_COPY_FAILED, or nothing, the kernel having
-- faulted outside a guarded copy.
pub data Outcome : Type 0 where
  done : ℕ → Outcome
  failed : Outcome
  crashed : Outcome

-- RINGBUFFER_DATACOUNT and RINGBUFFER_FREESPACE.
abbrev pub data_count : Ring → ℕ
data_count r = sub64 r.write r.read

abbrev pub free_space : Ring → ℕ
free_space r = sub64 r.size (data_count r)

-- The mapping that `vmm_map` gave: its address and its bytes.
pub init : Option (ℕ × List ℕ) → ℕ → Status × Option Ring
init none size = (err enomem, none)
init (some (base, bytes)) size =
    (ok, some (record { size = size; write = 0; read = 0; base = base; bytes = bytes }))

unfoldable pub truncate : Ring → ℕ → Ring × ℕ
truncate r count =
    let true_count = min_long (data_count r) count in
    (record r { read = add64 r.read true_count }, true_count)

unfoldable pub remove : Ring → ℕ → Ring × ℕ
remove r count =
    let true_count = min_long (data_count r) count in
    (record r { write = sub64 r.write true_count }, true_count)

-- The two passes of a copy into the ring: `first` bytes at `off`, up to the end of the mapping, then
-- the rest of `count` from its start.
unfoldable pub copy_in_passes : List ℕ → Memory → ℕ → ℕ → ℕ → ℕ → List ℕ × Copied
copy_in_passes buf m addr count off first =
    let (bytes, fault) = copy_in buf off m addr first in
    elim (copy_end (is_user_address addr) fault) [
      | efault ↦ (bytes, efault)
      | panic ↦ (bytes, panic)
      | copied ↦
          if first == count
          then (bytes, copied)
          else let rest = copy_in bytes 0 m (add64 addr first) (sub64 count first) in
            (rest.0, copy_end (is_user_address (add64 addr first)) rest.1)
    ]

-- How much of a transfer at a position fits before the end of the mapping.
abbrev pub first_pass : Ring → ℕ → ℕ → ℕ
first_pass r position count = min_long count (sub64 r.size (position % r.size))

-- `ringbuffer_write` once `count` is cut to the free space.
unfoldable pub write_some : Ring → Memory → ℕ → ℕ → Ring × Outcome
write_some r m addr count =
    let off = r.write % r.size in
    let passes = copy_in_passes r.bytes m addr count off (first_pass r r.write count) in
    let r' = record r { bytes = passes.0 } in
    elim (passes.1) [
      | efault ↦ (r', failed)
      | panic ↦ (r', crashed)
      | copied ↦ (record r' { write = add64 r.write count }, done count)
    ]

unfoldable pub write : Ring → Memory → ℕ → ℕ → Ring × Outcome
write r m addr count = write_some r m addr (min_long count (free_space r))

-- The two passes of a copy out of the ring. `user₁` and `user₂` are what the macro's address test
-- says in each pass.
unfoldable pub copy_out_passes : List ℕ → Memory → ℕ → ℕ → ℕ → ℕ → Bool → Bool → Memory × Copied
copy_out_passes buf m addr count off first user₁ user₂ =
    let (m', fault) = copy_out buf off m addr first in
    elim (copy_end user₁ fault) [
      | efault ↦ (m', efault)
      | panic ↦ (m', panic)
      | copied ↦
          if first == count
          then (m', copied)
          else let rest = copy_out buf 0 m' (add64 addr first) (sub64 count first) in
            (rest.0, copy_end user₂ rest.1)
    ]

-- `ringbuffer_read` once `count` is cut to the bytes held. It uses USERCOPY_POSSIBLY_FROM_USER,
-- which tests the address copied from: that of the ring's own mapping.
pub read_some : Ring → Memory → ℕ → ℕ → Ring × Memory × Outcome
read_some r m addr count =
    let passes =
      copy_out_passes r.bytes m addr count (r.read % r.size) (first_pass r r.read count)
        (is_user_address (add64 r.base (r.read % r.size))) (is_user_address r.base) in
    elim (passes.1) [
      | efault ↦ (r, passes.0, failed)
      | panic ↦ (r, passes.0, crashed)
      | copied ↦ (record r { read = add64 r.read count }, passes.0, done count)
    ]

pub read : Ring → Memory → ℕ → ℕ → Ring × Memory × Outcome
read r m addr count = read_some r m addr (min_long count (data_count r))

-- `ringbuffer_peek` from position `from`, `count` cut to the bytes held past the offset. It tests
-- the address copied to, the caller's buffer.
unfoldable pub peek_some : Ring → Memory → ℕ → ℕ → ℕ → Memory × Outcome
peek_some r m addr from count =
    let first = first_pass r from count in
    let passes =
      copy_out_passes r.bytes m addr count (from % r.size) first (is_user_address addr)
        (is_user_address (add64 addr first)) in
    elim (passes.1) [
      | efault ↦ (passes.0, failed)
      | panic ↦ (passes.0, crashed)
      | copied ↦ (passes.0, done count)
    ]

unfoldable pub peek : Ring → Memory → ℕ → ℕ → ℕ → Memory × Outcome
peek r m addr offset count =
    if leb (data_count r) offset
    then (m, done 0)
    else peek_some r m addr (add64 r.read (min_long offset (free_space r)))
        (min_long count (sub64 (data_count r) offset))
