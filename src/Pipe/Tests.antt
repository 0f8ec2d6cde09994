-- ===== src/Pipe/Tests.antt =====
-- A full pipe and an empty one: runs of the calls.
use astral.Base.{◌^◌, ◌≡◌, refl, true, false, some, [], ◌∷◌, ok}
use astral.Base.Memory.{copy_in}
use astral.RingBuffer.{write, write_some, copy_in_passes}
use astral.Iovec.{iterator_init, iovec_size}
use astral.Iovec.Transfers.{write_to_ringbuffer, write_rounds}
use astral.Pipe.{Pipe, sleep, decide, writetopipe, broken, pipefs_open, opened}

abbrev full : Pipe
full = record {
  buffer = record { size = 4; write = 4; read = 0; base = 2 ^ 47; bytes = 1 ∷ 2 ∷ 3 ∷ 4 ∷ [] };
  readers = 0;
  writers = 1;
}

abbrev drained : Pipe
drained = record {
  buffer = record { size = 4; write = 4; read = 4; base = 2 ^ 47; bytes = 1 ∷ 2 ∷ 3 ∷ 4 ∷ [] };
  readers = 1;
  writers = 1;
}

-- The writer to a full pipe without readers goes to sleep.
no_reader : decide full 2 false 0 ≡ sleep
unfolding decide
no_reader = refl

-- The first entry is empty: nothing is written, and the assertion that something was fails.
empty_entry :
    (writetopipe drained
      (λ a. some 7)
      (iterator_init (record { addr = 9; len = 0 } ∷ record { addr = 9; len = 2 } ∷ []))
      2).1
    ≡ broken
unfolding writetopipe write_to_ringbuffer write_rounds iterator_init iovec_size write write_some
    copy_in_passes copy_in
empty_entry = refl

-- A reader that does not wait opens a pipe that nobody writes to.
first_reader :
    (pipefs_open (record drained { readers = 0; writers = 0 }) true false true).1 ≡ opened ok
unfolding pipefs_open
first_reader = refl
