-- ===== src/Pipe.antt =====
-- Pipes: kernel-src/fs/pipefs.c. A call that may sleep is a decision made while the pipe is locked, which
-- it makes again after each sleep.
mod Tests
use astral.Base.{
  ℕ, zero, suc, ◌+◌, ◌-◌, ◌*◌, Bool, true, false, ◌&&◌, ◌||◌, not, Option, none, some, List, [],
  ◌∷◌, ◌==◌, ltb, leb, if◌then◌else◌, add64, sub64, min_long, Status, ok, err, eagain, efault,
  einval, enxio, epipe,
}
use astral.Base.Memory.{Memory}
use astral.RingBuffer.{Ring, Outcome, done, failed, crashed, data_count, free_space}
use astral.Iovec.{Iterator, Walk, arrived, overrun, out_of_fuel}
use astral.Iovec.Transfers.{write_to_ringbuffer, read_from_ringbuffer}

-- `pipenode_t`, its field `data` called `buffer`.
pub record Pipe : Type 0 where
  pub buffer : Ring
  pub readers : ℕ
  pub writers : ℕ

abbrev pub pipe_atomic_size : ℕ
pipe_atomic_size = 4096

-- The level of the buffer above which there is no POLLOUT: BUFFER_SIZE - PIPE_ATOMIC_SIZE.
abbrev pub out_level : ℕ
out_level = 16 * 4096 - pipe_atomic_size

-- Events: POLLIN, POLLOUT, POLLERR and POLLHUP.
pub record Events : Type 0 where
  pub pollin : Bool
  pub pollout : Bool
  pub pollerr : Bool
  pub pollhup : Bool

-- `internalpoll` for the events asked for.
abbrev pub internalpoll : Pipe → Bool → Bool → Events
internalpoll p asks_in asks_out = record {
  pollin = asks_in && not (p.writers == 0) && not (data_count p.buffer == 0);
  pollout = asks_out && not (p.readers == 0) && ltb (data_count p.buffer) out_level;
  pollerr = asks_out && p.readers == 0;
  pollhup = asks_in && p.writers == 0;
}

-- `pipefs_close`, with the events it gives notice of.
unfoldable pub pipefs_close : Pipe → Bool → Bool → Pipe × Events
pipefs_close p reads writes =
    let p' = record p {
      readers = if reads then sub64 p.readers 1 else p.readers;
      writers = if writes then sub64 p.writers 1 else p.writers;
    } in
    (
      p',
      record {
        pollin = false;
        pollout = false;
        pollerr = p'.readers == 0;
        pollhup = p'.writers == 0;
      },
    )

-- How `pipefs_open` goes on: it returns, or waits for the other end.
pub data Opening : Type 0 where
  opened : Status → Opening
  waits : Opening

-- `pipefs_open` up to its sleep.
unfoldable pub pipefs_open : Pipe → Bool → Bool → Bool → Pipe × Opening
unfolding pipefs_close
pipefs_open p reads writes nonblock =
    let p' = record p {
      readers = if reads then add64 p.readers 1 else p.readers;
      writers = if writes then add64 p.writers 1 else p.writers;
    } in
    if not (reads || writes)
    then (p, opened (err einval))
    else if not (p'.writers == 0) && not (p'.readers == 0)
    then (p', opened ok)
    else if nonblock && reads
    then (p', opened ok)
    else if nonblock && writes
    then ((pipefs_close p' reads writes).0, opened (err enxio))
    else (p', waits)

-- What a pass of the loop of `pipefs_write` decides: to write the whole request and return, to fail,
-- to write some bytes and go on, or to sleep.
pub data Decision : Type 0 where
  all : Decision
  fail : Decision
  some_of : ℕ → Decision
  sleep : Decision

-- A pass, `written` bytes of a large request being written already.
unfoldable pub decide : Pipe → ℕ → Bool → ℕ → Decision
decide p size nonblock written =
    let atomic = leb size pipe_atomic_size in
    let free = free_space p.buffer in
    if (internalpoll p false true).pollhup
    then all
    else if not nonblock && atomic && leb size free
    then all
    else if nonblock && atomic && ltb free size
    then fail
    else if nonblock && atomic
    then all
    else if not nonblock && not atomic && not (free == 0)
    then some_of (min_long free (sub64 size written))
    else if nonblock && not atomic && not (free == 0)
    then all
    else if nonblock && not atomic
    then fail
    else sleep

-- How a write to the buffer ends: a status with the bytes written, SIGPIPE with EPIPE, or a failed
-- assertion or fault.
pub data Written : Type 0 where
  wrote : ℕ → Written
  refused : Status → Written
  broken : Written

-- `writetopipe`
unfoldable pub writetopipe : Pipe → Memory → Iterator → ℕ → Pipe × Written
unfolding write_to_ringbuffer
writetopipe p m it size =
    if p.readers == 0
    then (p, refused (err epipe))
    else elim (write_to_ringbuffer m it p.buffer size) [
      | overrun ↦ (p, broken)
      | out_of_fuel ↦ (p, broken)
      | arrived (it', r, failed) ↦ (record p { buffer = r }, refused (err efault))
      | arrived (it', r, crashed) ↦ (record p { buffer = r }, broken)
      | arrived (it', r, done n) ↦ (record p { buffer = r }, if n == 0 then broken else wrote n)
    ]

-- How a pass of `pipefs_read` ends: it reads, fails, or sleeps.
pub data Reading : Type 0 where
  ready : Pipe → Memory → Outcome → Status → Reading
  try_again : Reading
  asleep : Reading
  lost : Reading

unfoldable pub pipefs_read : Pipe → Memory → Iterator → ℕ → Bool → Reading
unfolding read_from_ringbuffer
pipefs_read p m it size nonblock =
    let e = internalpoll p true false in
    let reading : Reading = elim (read_from_ringbuffer m it p.buffer size) [
      | overrun ↦ lost
      | out_of_fuel ↦ lost
      | arrived (m', it', r, failed) ↦ ready (record p { buffer = r }) m' failed (err efault)
      | arrived (m', it', r, crashed) ↦ lost
      | arrived (m', it', r, done n) ↦ ready (record p { buffer = r }) m' (done n) ok
    ] in
    if e.pollin || e.pollhup then reading else if nonblock then try_again else asleep
