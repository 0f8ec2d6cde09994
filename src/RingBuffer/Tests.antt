-- ===== src/RingBuffer/Tests.antt =====
-- Runs of the ring buffer, and its theorems at concrete rings.
use astral.Base.{◌^◌, ◌≡◌, refl, [], ◌∷◌, some, none, ltb, if◌then◌else◌, arith}
use astral.Base.Memory.{Memory, bytes, copy_in, copy_out}
use astral.RingBuffer.{
  Ring, done, write, write_some, copy_in_passes, read, read_some, copy_out_passes, peek, peek_some,
}
use astral.RingBuffer.Valid.{IsValid, contents}
use astral.RingBuffer.Write.{write_lem}
use astral.RingBuffer.Read.{SameOutside, read_lem}
use astral.RingBuffer.Peek.{peek_lem}

-- Three bytes held, round the end of the mapping: 13, 10, 11.
abbrev wrapped : Ring
wrapped = record { size = 4; write = 6; read = 3; base = 2 ^ 47; bytes = 10 ∷ 11 ∷ 12 ∷ 13 ∷ [] }

abbrev half : Ring
half = record { size = 4; write = 4; read = 3; base = 2 ^ 47; bytes = 10 ∷ 11 ∷ 12 ∷ 13 ∷ [] }

-- The addresses below 100 are mapped, each with its own number as the byte.
abbrev low_memory : Memory
low_memory x = if ltb x 100 then some x else none

wrapped-IsValid : IsValid wrapped
wrapped-IsValid = omega arith

half-IsValid : IsValid half
half-IsValid = omega arith

contents-wrapped : contents wrapped ≡ 13 ∷ 10 ∷ 11 ∷ []
contents-wrapped = refl

write_wraps : contents (write half low_memory 50 2).0 ≡ 13 ∷ 50 ∷ 51 ∷ []
unfolding write write_some copy_in_passes copy_in
write_wraps = refl

read_wraps : bytes ((read wrapped low_memory 20 3).1) 20 3 ≡ 13 ∷ 10 ∷ 11 ∷ []
unfolding read read_some copy_out_passes copy_out
read_wraps = refl

-- With one byte free, a peek at offset 2 starts at offset 1.
peek_past_free : bytes ((peek wrapped low_memory 20 2 1).0) 20 1 ≡ 10 ∷ []
unfolding peek peek_some copy_out_passes copy_out
peek_past_free = refl

write_lem_example :
    let (r', o) = write half low_memory 50 5 in
    (o ≡ done 3) × (contents r' ≡ 13 ∷ 50 ∷ 51 ∷ 52 ∷ []) × IsValid r'
write_lem_example =
    write_lem low_memory 50 5 half-IsValid (omega arith) (omega arith) (omega arith) refl

read_lem_example :
    let (r', m', o) = read wrapped low_memory 20 2 in
    (o ≡ done 2)
    × (bytes m' 20 2 ≡ 13 ∷ 10 ∷ [])
    × SameOutside low_memory m' 20 2
    × (contents r' ≡ 11 ∷ [])
    × IsValid r'
read_lem_example = read_lem low_memory 20 2 wrapped-IsValid (omega arith) (omega arith) refl

peek_lem_example :
    let (m', o) = peek wrapped low_memory 20 1 1 in
    (o ≡ done 1) × (bytes m' 20 1 ≡ 10 ∷ []) × SameOutside low_memory m' 20 1
peek_lem_example =
    peek_lem low_memory 20 1 1 wrapped-IsValid (omega arith) (omega arith) (omega arith)
      (omega arith) refl
