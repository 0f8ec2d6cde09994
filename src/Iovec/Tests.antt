-- ===== src/Iovec/Tests.antt =====
-- Two entries of three and two bytes: runs of the iterator.
use astral.Base.{ℕ, ◌≡◌, refl, some, none, List, [], ◌∷◌, true, ltb, if◌then◌else◌, arith, ◌^◌}
use astral.Iovec.Rounds.{IsIn, HasSkipped, skip_lem}
use astral.Iovec.Transfers.{write_to_ringbuffer, write_rounds, from_rounds, page_part}
use astral.RingBuffer.{Ring, done, write, write_some, copy_in_passes}
use astral.Base.Memory.{Memory, copied, panic, copy_in, copy_out}
use astral.Iovec.{
  Iovec, arrived, iovec_user_check, iovec_size, iterator_init, skip, set_offset, copy_rounds,
  copy_to_buffer,
}

abbrev entries : List Iovec
entries = record { addr = 10; len = 3 } ∷ record { addr = 20; len = 2 } ∷ []

abbrev some_memory : Memory
some_memory a = if ltb a 21 then some a else none

user_run : iovec_user_check entries ≡ true
unfolding iovec_user_check
user_run = refl

skip_run :
    skip 3 (iterator_init entries) 4
    ≡ arrived (record (iterator_init entries) { current = 1; current_offset = 1; total_offset = 4 })
unfolding skip iterator_init iovec_size
skip_run = refl

-- Going back to a place from the second entry counts from the second entry.
set_run :
    set_offset 3
      (record (iterator_init entries) { current = 1; current_offset = 1; total_offset = 4 })
      1
    ≡ arrived (record (iterator_init entries) { current = 1; current_offset = 1; total_offset = 1 })
unfolding set_offset skip iterator_init iovec_size
set_run = refl

copied_run : List ℕ
copied_run = elim (copy_to_buffer some_memory (0 ∷ 0 ∷ 0 ∷ 0 ∷ []) (iterator_init entries) 4) [
  | arrived (buf, _, copied) ↦ buf
  | _ ↦ []
]

copied_run_lem : copied_run ≡ 10 ∷ 11 ∷ 12 ∷ 20 ∷ []
unfolding copied_run copy_to_buffer copy_rounds copy_in skip iterator_init iovec_size
copied_run_lem = refl

entries-IsIn : IsIn (iterator_init entries)
unfolding iterator_init iovec_size
entries-IsIn = record {
  sized = refl;
  bounded = omega arith;
  inside = omega arith;
  place = refl;
  within = omega arith;
}

skip_lem_example : HasSkipped (iterator_init entries) 4 (skip 3 (iterator_init entries) 4)
unfolding iterator_init iovec_size
skip_lem_example = skip_lem 3 (iterator_init entries) 4 entries-IsIn (omega arith) (omega arith)

-- An empty entry in front ends a transfer to a ring before it starts.
abbrev gap : List Iovec
gap = record { addr = 10; len = 0 } ∷ entries

abbrev small_ring : Ring
small_ring = record { size = 4; write = 0; read = 0; base = 2 ^ 47; bytes = 0 ∷ 0 ∷ 0 ∷ 0 ∷ [] }

gap_run :
    write_to_ringbuffer some_memory (iterator_init gap) small_ring 5
    ≡ arrived (iterator_init gap, small_ring, done 0)
unfolding write_to_ringbuffer write_rounds iterator_init iovec_size write write_some copy_in_passes
    copy_in
gap_run = refl

-- A transfer of five bytes into a ring of four: the iterator is moved past all that it was to write of
-- each entry.
squeezed : ℕ × ℕ
squeezed = elim (write_to_ringbuffer some_memory (iterator_init entries) small_ring 5) [
  | arrived (it, r, done n) ↦ (n, it.total_offset)
  | _ ↦ (9, 9)
]

squeezed_lem : squeezed ≡ (4, 5)
unfolding squeezed write_to_ringbuffer write_rounds iterator_init iovec_size write write_some
    copy_in_passes copy_in skip
squeezed_lem = refl

-- A copy from a kernel buffer to an address that is not mapped is not guarded.
unguarded :
    from_rounds 3 some_memory
      (7 ∷ 8 ∷ [])
      (2 ^ 47)
      (iterator_init (record { addr = 30; len = 2 } ∷ []))
      2
      0
    ≡ arrived (some_memory, iterator_init (record { addr = 30; len = 2 } ∷ []), panic)
unfolding from_rounds iterator_init iovec_size copy_out
unguarded = refl

-- A page is taken whole from the middle of one.
middle_of_page : page_part (record { addr = 8000; len = 5000 }) 0 ≡ some (3904, 4096)
middle_of_page = refl
