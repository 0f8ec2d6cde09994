-- ===== src/Tty/Calls.antt =====
-- The calls on terminals of kernel-src/io/tty.c besides the line discipline.
use astral.Base.{
  ℕ, zero, suc, ◌<◌, ◌≤◌, ◌≡◌, ◌≢◌, refl, Bool, true, false, ◌&&◌, not, Option, none, some, List,
  [], ◌∷◌, ◌++◌, ◌==◌, ltb, if◌then◌else◌, get_elem?, get_or, set, length, Status, ok, err, enotty,
  enxio, enodev, esrch, efault, arith,
}
use astral.Base.Memory.{Memory, Copied}
use astral.RingBuffer.{data_count}
use astral.Iovec.{Iterator, arrived, overrun, out_of_fuel, copy_to_buffer}
use astral.JobControl.{World, setctty, getctty, release}
use astral.Tty.{Tty, Effect, output, getforeground, setforeground, send_foreground}

abbrev pub max_count : ℕ
max_count = 4096

-- The terminals by their minor numbers.
abbrev pub Minors : Type 0
Minors = List (Option ℕ)

-- `ttyget`
abbrev pub ttyget : Minors → ℕ → Option ℕ
ttyget ms minor =
    if ltb minor max_count then elim (get_elem? ms minor) [ none ↦ none | some o ↦ o ] else none

abbrev pub first_free : Minors → ℕ
first_free [] = 0
first_free (none ∷ ms) = 0
first_free (some t ∷ ms) = suc (first_free ms)

-- `allocminor`; nothing where it stores past the end of the list.
unfoldable pub allocminor : Minors → ℕ → Option (Minors × ℕ)
allocminor ms t =
    let i = first_free ms in if ltb i (length ms) then some (set ms i (some t), i) else none

-- `freeminor`; nothing where its assertion fails.
unfoldable pub freeminor : Minors → ℕ → Option Minors
freeminor ms minor = elim (get_elem? ms minor) [
  | none ↦ none
  | some none ↦ none
  | some (some t) ↦ some (set ms minor none)
]

-- `internalpoll`: the events that are ready, POLLIN and POLLOUT.
unfoldable pub internalpoll : Tty → Bool → Bool → Bool × Bool
internalpoll t pollin pollout = (pollin && not (data_count t.readbuffer == 0), pollout)

-- What one character writes to the device.
abbrev pub outputs : Bool → ℕ → List Effect
outputs onlcr c =
    if c == 10 && onlcr then output (13 ∷ []) ∷ output (c ∷ []) ∷ [] else output (c ∷ []) ∷ []

-- How a write ends: its status, or a fault of the kernel or the iterator.
pub data Ended : Type 0 where
  ended : Status → Ended
  broken : Ended

-- The loop of `write`, a character at a time.
unfoldable pub write_out : ℕ → Memory → Bool → Iterator → List Effect × Ended
write_out zero m onlcr it = ([], ended ok)
write_out (suc n) m onlcr it = elim (copy_to_buffer m (0 ∷ []) it 1) [
  | overrun ↦ ([], broken)
  | out_of_fuel ↦ ([], broken)
  | arrived (buf, it', Copied.panic) ↦ ([], broken)
  | arrived (buf, it', Copied.efault) ↦ ([], ended (err efault))
  | arrived (buf, it', Copied.copied) ↦
      let rest = write_out n m onlcr it' in (outputs onlcr (get_or buf 0 0) ++ rest.0, rest.1)
]

-- The requests of `tty_ioctl` on jobs, with the process that a number names.
pub data Request : Type 0 where
  tiocsctty : ℕ → Request
  tiocgpgrp : Request
  tiocspgrp : Option ℕ → Request
  tiocswinsz : Request

-- The process group that a request reports.
unfoldable pub tty_ioctl : World → ℕ → Tty → Request → World × List Effect × Option ℕ × Status
unfolding getforeground setforeground send_foreground
tty_ioctl w current t (tiocsctty arg) =
    let done = setctty w current (some t.number) (arg == 1) in (done.0, [], none, done.1)
tty_ioctl w current t tiocgpgrp =
    let found = getforeground w t.number in
    elim (found.1) [
      | none ↦ (found.0, [], none, err enotty)
      | some g ↦ (release (found.0) g, [], some (((found.0).proc g).pid), ok)
    ]
tty_ioctl w current t (tiocspgrp none) = (w, [], none, err esrch)
tty_ioctl w current t (tiocspgrp (some p)) =
    let done = setforeground w t.number p in (release (done.0) p, [], none, done.1)
tty_ioctl w current t tiocswinsz =
    let sent = send_foreground w t.number 28 in (sent.0, sent.1, none, ok)

-- `open` of a minor number: the terminal whose vnode replaces the one that is opened.
unfoldable pub open_minor : World → Minors → ℕ → ℕ → Bool → World × Option ℕ × Status
open_minor w ms current minor noctty =
    if minor == max_count
    then elim ((getctty w current).1) [
      | none ↦ ((getctty w current).0, none, err enxio)
      | some t ↦ ((getctty w current).0, some t, ok)
    ]
    else elim (ttyget ms minor) [
      | none ↦ (w, none, err enodev)
      | some t ↦ if noctty then (w, none, ok) else ((setctty w current (some t) false).0, none, ok)
    ]

first_free-none :
    (ms : Minors) → first_free ms < length ms → get_elem? ms (first_free ms) ≡ some none
first_free-none [] h = absurd (omega arith)
first_free-none (none ∷ ms) h = refl
first_free-none (some t ∷ ms) h = first_free-none ms (omega arith)

first_free_least : (ms : Minors) (i : ℕ) → i < first_free ms → get_elem? ms i ≢ some none
first_free_least [] i h = absurd (omega arith)
first_free_least (none ∷ ms) i h = absurd (omega arith)
first_free_least (some t ∷ ms) zero h = λ e. cc
first_free_least (some t ∷ ms) (suc i) h = first_free_least ms i (omega arith)

-- `allocminor` takes the lowest minor number that is free, of a list where one is; where none is, it
-- stores past the end of the list.
allocminor_lem :
    (ms : Minors) (t : ℕ)
    → ((i : ℕ) → i < first_free ms → get_elem? ms i ≢ some none)
      × (first_free ms < length ms
          → (get_elem? ms (first_free ms) ≡ some none)
            × (allocminor ms t ≡ some (set ms (first_free ms) (some t), first_free ms)))
      × (length ms ≤ first_free ms → allocminor ms t ≡ none)
unfolding allocminor
allocminor_lem ms t = (
  first_free_least ms,
  λ h.
      let e : ltb (first_free ms) (length ms) ≡ true = ground arith in
      (first_free-none ms h, rw e refl),
  λ h. let e : ltb (first_free ms) (length ms) ≡ false = ground arith in rw e refl,
)
