-- ===== src/Iovec.antt =====
-- The iterator over scattered buffers of kernel-src/io/iovec.c and kernel-src/include/kernel/iovec.h.
-- `current` is the place in the array of the entry it points to.
pub mod Rounds
pub mod Transfers
mod Tests
use astral.Base.{
  ℕ, zero, suc, ◌+◌, Bool, true, false, ◌&&◌, ◌||◌, not, Option, none, some, List, [], ◌∷◌, ◌==◌,
  if◌then◌else◌, length, get_elem?, add64, sub64, min_long,
}
use astral.Base.Memory.{
  Memory, is_user_address, Copied, copied, efault, panic, copy_end, copy_in, copy_out,
}

-- `iovec_t`
pub record Iovec : Type 0 where
  pub addr : ℕ
  pub len : ℕ

-- `iovec_iterator_t`
pub record Iterator : Type 0 where
  pub iovec : List Iovec
  pub count : ℕ
  pub current : ℕ
  pub current_offset : ℕ
  pub total_offset : ℕ
  pub total_size : ℕ

-- What a loop over the entries gives: its result, a read past the array, or no fuel left.
pub data Walk (A : Type 0) : Type 0 where
  arrived : A → Walk A
  overrun : Walk A
  out_of_fuel : Walk A

-- `iovec_iterator_finished`
abbrev pub is_finished : Iterator → Bool
is_finished it = it.total_size == it.total_offset

-- `iovec_user_check`
unfoldable pub iovec_user_check : List Iovec → Bool
iovec_user_check [] = true
iovec_user_check (v ∷ vs) = is_user_address v.addr && iovec_user_check vs

-- `iovec_size`
unfoldable pub iovec_size : List Iovec → ℕ → ℕ
iovec_size [] size = size
iovec_size (v ∷ vs) size = iovec_size vs (add64 size v.len)

-- `iovec_iterator_init`
unfoldable pub iterator_init : List Iovec → Iterator
unfolding iovec_size
iterator_init vs = record {
  iovec = vs;
  count = length vs;
  current = 0;
  current_offset = 0;
  total_offset = 0;
  total_size = iovec_size vs 0;
}

-- One round of `iovec_iterator_skip` on an entry of `len` bytes, `step` of which are skipped.
abbrev pub advance : Iterator → ℕ → ℕ → Iterator
advance it len step =
    let it' = record it {
      total_offset = add64 it.total_offset step;
      current_offset = add64 it.current_offset step;
    } in
    if it'.current_offset == len && not (is_finished it')
    then record it' { current = it.current + 1; current_offset = 0 }
    else it'

-- `iovec_iterator_skip`; what it returns is `total_size - total_offset` afterwards.
unfoldable pub skip : ℕ → Iterator → ℕ → Walk Iterator
skip zero it n = out_of_fuel
skip (suc fuel) it n = elim (get_elem? it.iovec it.current) [
  | none ↦ overrun
  | some v ↦
      let step = min_long (sub64 v.len it.current_offset) n in
      let it' = advance it v.len step in
      let onward = skip fuel it' (sub64 n step) in
      if sub64 n step == 0 || is_finished it' then arrived it' else onward
]

-- `iovec_iterator_set`, which leaves `current` where it is.
unfoldable pub set_offset : ℕ → Iterator → ℕ → Walk Iterator
unfolding skip
set_offset fuel it offset = skip fuel (record it { current_offset = 0; total_offset = 0 }) offset

-- The loop of `iovec_iterator_copy_to_buffer`: the buffer, the iterator, and how the copy ended.
unfoldable pub copy_rounds :
    ℕ → Memory → List ℕ → Iterator → ℕ → ℕ → Walk (List ℕ × Iterator × Copied)
unfolding skip
copy_rounds zero m buf it remaining done = out_of_fuel
copy_rounds (suc fuel) m buf it remaining done = elim (get_elem? it.iovec it.current) [
  | none ↦ overrun
  | some v ↦
      let from = add64 v.addr it.current_offset in
      let n = min_long (sub64 v.len it.current_offset) remaining in
      let (buf', fault) = copy_in buf done m from n in
      elim (copy_end (is_user_address from) fault) [
        | efault ↦ arrived (buf', it, efault)
        | panic ↦ arrived (buf', it, panic)
        | copied ↦ elim (skip (suc (length it.iovec)) it n) [
          | overrun ↦ overrun
          | out_of_fuel ↦ out_of_fuel
          | arrived it' ↦
              if is_finished it' || sub64 remaining n == 0
              then arrived (buf', it', copied)
              else copy_rounds fuel m buf' it' (sub64 remaining n) (add64 done n)
        ]
      ]
]

-- `iovec_iterator_copy_to_buffer`: after an error the iterator is set back.
unfoldable pub copy_to_buffer : Memory → List ℕ → Iterator → ℕ → Walk (List ℕ × Iterator × Copied)
unfolding copy_rounds set_offset
copy_to_buffer m buf it byte_count =
    let remaining = min_long byte_count (sub64 it.total_size it.total_offset) in
    let fuel = suc (length it.iovec) in
    elim (copy_rounds fuel m buf it remaining 0) [
      | overrun ↦ overrun
      | out_of_fuel ↦ out_of_fuel
      | arrived (buf', it', copied) ↦ arrived (buf', it', copied)
      | arrived (buf', it', panic) ↦ arrived (buf', it', panic)
      | arrived (buf', it', efault) ↦ elim (set_offset fuel it' it.total_offset) [
        | overrun ↦ overrun
        | out_of_fuel ↦ out_of_fuel
        | arrived it'' ↦ arrived (buf', it'', efault)
      ]
    ]
