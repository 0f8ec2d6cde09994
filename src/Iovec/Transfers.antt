-- ===== src/Iovec/Transfers.antt =====
-- The other copies of kernel-src/io/iovec.c: from a kernel buffer, of one byte over and over, and to and
-- from a ring buffer. Each loop gets one unit of fuel for each entry and one more.
use astral.Base.{
  ℕ, zero, suc, ◌%◌, ◌||◌, Option, none, some, List, ◌==◌, if◌then◌else◌, length, get_elem?,
  replicate, add64, sub64, min_long,
}
use astral.Base.Memory.{Memory, is_user_address, Copied, copied, efault, panic, copy_end, copy_out}
use astral.RingBuffer.{Ring, Outcome, done, failed, crashed, write, peek, remove, truncate}
use astral.Iovec.{
  Iovec, Iterator, Walk, arrived, overrun, out_of_fuel, is_finished, skip, set_offset,
}

-- The bytes that are left to copy.
abbrev pub remaining_of : Iterator → ℕ → ℕ
remaining_of it byte_count = min_long byte_count (sub64 it.total_size it.total_offset)

-- The loop of `iovec_iterator_copy_from_buffer`, the buffer standing at `base`. The macro tests the
-- address copied from, the buffer's.
unfoldable pub from_rounds :
    ℕ → Memory → List ℕ → ℕ → Iterator → ℕ → ℕ → Walk (Memory × Iterator × Copied)
from_rounds zero m buf base it remaining total = out_of_fuel
from_rounds (suc fuel) m buf base it remaining total = elim (get_elem? it.iovec it.current) [
  | none ↦ overrun
  | some v ↦
      let n = min_long (sub64 v.len it.current_offset) remaining in
      let (m', fault) = copy_out buf total m (add64 v.addr it.current_offset) n in
      elim (copy_end (is_user_address (add64 base total)) fault) [
        | efault ↦ arrived (m', it, efault)
        | panic ↦ arrived (m', it, panic)
        | copied ↦ elim (skip (suc (length it.iovec)) it n) [
          | overrun ↦ overrun
          | out_of_fuel ↦ out_of_fuel
          | arrived it' ↦
              let onward = from_rounds fuel m' buf base it' (sub64 remaining n) (add64 total n) in
              if is_finished it' || sub64 remaining n == 0
              then arrived (m', it', copied)
              else onward
        ]
      ]
]

-- The loop of `iovec_iterator_memset`.
unfoldable pub memset_rounds : ℕ → Memory → ℕ → Iterator → ℕ → Walk (Memory × Iterator × Copied)
memset_rounds zero m byte it remaining = out_of_fuel
memset_rounds (suc fuel) m byte it remaining = elim (get_elem? it.iovec it.current) [
  | none ↦ overrun
  | some v ↦
      let to = add64 v.addr it.current_offset in
      let n = min_long (sub64 v.len it.current_offset) remaining in
      let (m', fault) = copy_out (replicate n byte) 0 m to n in
      elim (copy_end (is_user_address to) fault) [
        | efault ↦ arrived (m', it, efault)
        | panic ↦ arrived (m', it, panic)
        | copied ↦ elim (skip (suc (length it.iovec)) it n) [
          | overrun ↦ overrun
          | out_of_fuel ↦ out_of_fuel
          | arrived it' ↦
              let onward = memset_rounds fuel m' byte it' (sub64 remaining n) in
              if is_finished it' || sub64 remaining n == 0
              then arrived (m', it', copied)
              else onward
        ]
      ]
]

-- The loop of `iovec_iterator_write_to_ringbuffer`, `total` bytes of `count` being written.
unfoldable pub write_rounds :
    ℕ → Memory → Iterator → Ring → ℕ → ℕ → ℕ → Walk (Iterator × Ring × Outcome)
unfolding write
write_rounds zero m it r remaining total count = out_of_fuel
write_rounds (suc fuel) m it r remaining total count = elim (get_elem? it.iovec it.current) [
  | none ↦ overrun
  | some v ↦
      let n = min_long (sub64 v.len it.current_offset) remaining in
      let (r', o) = write r m (add64 v.addr it.current_offset) n in
      elim o [
        | failed ↦ arrived (it, (remove r' total).0, failed)
        | crashed ↦ arrived (it, r', crashed)
        | done k ↦
            if k == 0
            then arrived (it, r', done total)
            else elim (skip (suc (length it.iovec)) it n) [
              | overrun ↦ overrun
              | out_of_fuel ↦ out_of_fuel
              | arrived it' ↦
                  let onward =
                    write_rounds fuel m it' r' (sub64 remaining k) (add64 total k) count in
                  if add64 total k == count || is_finished it'
                  then arrived (it', r', done (add64 total k))
                  else onward
            ]
      ]
]

-- After a failure the iterator is set back.
abbrev pub set_back : ℕ → ℕ → Walk (Iterator × Ring × Outcome) → Walk (Iterator × Ring × Outcome)
set_back fuel saved overrun = overrun
set_back fuel saved out_of_fuel = out_of_fuel
set_back fuel saved (arrived (it, r, done n)) = arrived (it, r, done n)
set_back fuel saved (arrived (it, r, crashed)) = arrived (it, r, crashed)
set_back fuel saved (arrived (it, r, failed)) = elim (set_offset fuel it saved) [
  | overrun ↦ overrun
  | out_of_fuel ↦ out_of_fuel
  | arrived it' ↦ arrived (it', r, failed)
]

-- `iovec_iterator_write_to_ringbuffer`
unfoldable pub write_to_ringbuffer : Memory → Iterator → Ring → ℕ → Walk (Iterator × Ring × Outcome)
unfolding write_rounds
write_to_ringbuffer m it r byte_count =
    let fuel = suc (length it.iovec) in
    set_back fuel it.total_offset
      (write_rounds fuel m it r (remaining_of it byte_count) 0 byte_count)

-- The loop of `iovec_iterator_peek_from_ringbuffer`.
unfoldable pub peek_rounds :
    ℕ → Memory → Iterator → Ring → ℕ → ℕ → ℕ → ℕ → Walk (Memory × Iterator × Outcome)
unfolding peek
peek_rounds zero m it r offset remaining total count = out_of_fuel
peek_rounds (suc fuel) m it r offset remaining total count = elim (get_elem? it.iovec it.current) [
  | none ↦ overrun
  | some v ↦
      let n = min_long (sub64 v.len it.current_offset) remaining in
      let (m', o) = peek r m (add64 v.addr it.current_offset) (add64 offset total) n in
      elim o [
        | failed ↦ arrived (m', it, failed)
        | crashed ↦ arrived (m', it, crashed)
        | done k ↦
            if k == 0
            then arrived (m', it, done total)
            else elim (skip (suc (length it.iovec)) it n) [
              | overrun ↦ overrun
              | out_of_fuel ↦ out_of_fuel
              | arrived it' ↦
                  let onward =
                    peek_rounds fuel m' it' r offset (sub64 remaining k) (add64 total k) count in
                  if add64 total k == count || is_finished it'
                  then arrived (m', it', done (add64 total k))
                  else onward
            ]
      ]
]

-- `iovec_iterator_peek_from_ringbuffer`
unfoldable pub peek_from_ringbuffer :
    Memory → Iterator → Ring → ℕ → ℕ → Walk (Memory × Iterator × Outcome)
unfolding peek_rounds
peek_from_ringbuffer m it r offset byte_count =
    let fuel = suc (length it.iovec) in
    elim (peek_rounds fuel m it r offset (remaining_of it byte_count) 0 byte_count) [
      | overrun ↦ overrun
      | out_of_fuel ↦ out_of_fuel
      | arrived (m', it', done n) ↦ arrived (m', it', done n)
      | arrived (m', it', crashed) ↦ arrived (m', it', crashed)
      | arrived (m', it', failed) ↦ elim (set_offset fuel it' it.total_offset) [
        | overrun ↦ overrun
        | out_of_fuel ↦ out_of_fuel
        | arrived it'' ↦ arrived (m', it'', failed)
      ]
    ]

-- `iovec_iterator_read_from_ringbuffer`
unfoldable pub read_from_ringbuffer :
    Memory → Iterator → Ring → ℕ → Walk (Memory × Iterator × Ring × Outcome)
unfolding peek_from_ringbuffer truncate
read_from_ringbuffer m it r byte_count = elim (peek_from_ringbuffer m it r 0 byte_count) [
  | overrun ↦ overrun
  | out_of_fuel ↦ out_of_fuel
  | arrived (m', it', failed) ↦ arrived (m', it', r, failed)
  | arrived (m', it', crashed) ↦ arrived (m', it', r, crashed)
  | arrived (m', it', done n) ↦ arrived (m', it', (truncate r n).0, done n)
]

-- `iovec_iterator_next_page` of an entry: the offset in the page and how many bytes of it to take, once
-- the page's physical address is known; nothing at an entry's end.
abbrev pub page_part : Iovec → ℕ → Option (ℕ × ℕ)
page_part v offset =
    let rest = sub64 v.len offset in
    if rest == 0 then none else some (add64 v.addr offset % 4096, min_long 4096 rest)
