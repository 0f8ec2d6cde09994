-- ===== src/Tty.antt =====
-- The line discipline of terminals: tty_process of kernel-src/io/tty.c, over the ring buffer that
-- readers empty and the sessions of job control.
pub mod Lines
pub mod Edits
pub mod Calls
mod Tests
use astral.Base.{
  ℕ, zero, suc, ◌+◌, ◌-◌, ◌^◌, ◌%◌, Bool, true, false, not, ◌&&◌, ◌||◌, Option, none, some, List,
  [], ◌∷◌, ◌++◌, ◌==◌, ltb, leb, if◌then◌else◌, get_elem?, set, replicate, Status, ok, err, enotty,
}
use astral.Base.Memory.{Memory}
use astral.RingBuffer.{Ring, write}
use astral.JobControl.{World, hold, release}
use astral.JobControl

-- `termios_t`: the flags that the line discipline reads, by name, and the control characters.
pub record Termios : Type 0 where
  pub igncr : Bool
  pub icrnl : Bool
  pub inlcr : Bool
  pub echo : Bool
  pub echoctl : Bool
  pub isig : Bool
  pub icanon : Bool
  pub cc : ℕ → ℕ

-- `tty_t`. The number names the terminal in the store of job control; `device_address` is where the
-- device buffer stands in kernel memory.
pub record Tty : Type 0 where
  pub number : ℕ
  pub readbuffer : Ring
  pub termios : Termios
  pub device_address : ℕ
  pub devicebuffer : List ℕ
  pub devicepos : ℕ

-- Bytes written to the device, a signal to a process group without a sender, and POLLIN.
pub data Effect : Type 0 where
  output : List ℕ → Effect
  group_signal : ℕ → ℕ → Effect
  pollin : Effect

abbrev pub buffer_size : ℕ
buffer_size = 512

-- A character is a byte, read as a signed `char`, and the control characters are unsigned.
abbrev pub below : ℕ → ℕ → Bool
below c n = leb 128 c || ltb c n

abbrev pub is_cc : Termios → ℕ → ℕ → Bool
is_cc s i c = s.cc i == c && ltb c 128

-- The first lines of `tty_process`; nothing for a carriage return that is ignored.
abbrev pub translate : Termios → ℕ → Option ℕ
translate s c =
    if c == 13 && s.igncr
    then none
    else if c == 13 && s.icrnl
    then some 10
    else if c == 10 && s.inlcr
    then some 13
    else some c

-- Whether a control character is echoed as `^` and a letter.
abbrev pub is_shown : Termios → ℕ → Bool
is_shown s c =
    s.echoctl && s.echo && below c 32 && not (c == 10 || c == 13 || c == 8 || c == 9 || c == 27)

abbrev pub shown : Termios → ℕ → List Effect
shown s c = if is_shown s c then output (94 ∷ (c + 64) % 256 ∷ []) ∷ [] else []

-- The echo of other characters; a zero byte is not echoed.
abbrev pub is_echoed : Termios → ℕ → Bool
is_echoed s c = s.echo && not (is_shown s c) && not (c == 0)

abbrev pub echoed : Termios → ℕ → List Effect
echoed s c = if is_echoed s c then output (c ∷ []) ∷ [] else []

-- SIGINT, SIGQUIT or SIGTSTP, by VINTR, VQUIT and VSUSP.
abbrev pub signal_of : Termios → ℕ → Option ℕ
signal_of s c =
    if not s.isig
    then none
    else if is_cc s 0 c
    then some 2
    else if is_cc s 1 c
    then some 3
    else if is_cc s 10 c
    then some 20
    else none

-- `getforeground`: the session is held while its foreground group is looked up.
unfoldable pub getforeground : World → ℕ → World × Option ℕ
getforeground w tty = elim (w.tty_session tty) [
  | none ↦ (w, none)
  | some s ↦ let found = JobControl.getforeground (hold w s) s in (release (found.0) s, found.1)
]

-- `setforeground`
unfoldable pub setforeground : World → ℕ → ℕ → World × Status
setforeground w tty p = elim (w.tty_session tty) [
  | none ↦ (w, err enotty)
  | some s ↦ let done = JobControl.setforeground (hold w s) s p in (release (done.0) s, done.1)
]

-- The signal to the foreground group, which is released afterwards.
unfoldable pub send_foreground : World → ℕ → ℕ → World × List Effect
unfolding getforeground
send_foreground w tty signal =
    let found = getforeground w tty in
    elim (found.1) [
      | none ↦ (found.0, [])
      | some g ↦ (release (found.0) g, group_signal g signal ∷ [])
    ]

-- VERASE
unfoldable pub erase : Tty → Tty × List Effect
erase t = if t.devicepos == 0 then (t, []) else (
  record t { devicepos = t.devicepos - 1; devicebuffer = set t.devicebuffer (t.devicepos - 1) 0 },
  if t.termios.echo then output (8 ∷ 32 ∷ 8 ∷ []) ∷ [] else [],
)

-- VKILL
unfoldable pub kill : Tty → Tty × List Effect
kill t = (
  record t { devicepos = 0; devicebuffer = replicate buffer_size 0 },
  replicate (t.devicepos + (if t.termios.echoctl then 2 else 0)) (output (8 ∷ 32 ∷ 8 ∷ [])),
)

-- Bytes at an address, and no other memory.
abbrev pub placed : ℕ → List ℕ → Memory
placed addr bytes a = if leb addr a then get_elem? bytes (a - addr) else none

-- The line goes to the readers' buffer.
unfoldable pub flush : Tty → Tty × List Effect
flush t = (
  record t {
    readbuffer =
        (write t.readbuffer (placed t.device_address t.devicebuffer) t.device_address
          t.devicepos).0;
    devicebuffer = replicate buffer_size 0;
    devicepos = 0;
  },
  pollin ∷ [],
)

-- VEOF, a newline, VEOL and VEOL2 end a line.
abbrev pub is_end : Termios → ℕ → Bool
is_end s c = is_cc s 4 c || c == 10 || is_cc s 11 c || is_cc s 16 c

abbrev pub stored : Tty → ℕ → Tty
stored t c = record t {
  devicebuffer = set t.devicebuffer t.devicepos c;
  devicepos = t.devicepos + 1;
}

-- Another character: a full buffer ends the line too.
unfoldable pub enter : Tty → ℕ → Tty × List Effect
unfolding flush
enter t c =
    if is_end t.termios c || t.devicepos + 1 == buffer_size
    then flush (stored t c)
    else (stored t c, [])

-- The branch for ICANON, with what it echoes.
unfoldable pub canonical : Tty → ℕ → Tty × List Effect
unfolding erase kill enter
canonical t c =
    if is_cc t.termios 2 c
    then erase t
    else if is_cc t.termios 3 c
    then kill t
    else ((enter t c).0, echoed t.termios c ++ (enter t c).1)

-- The other branch: one character, which stands at `addr`.
unfoldable pub raw : Tty → ℕ → ℕ → Tty × List Effect
raw t addr c = (
  record t { readbuffer = (write t.readbuffer (placed addr (c ∷ [])) addr 1).0 },
  echoed t.termios c ++ pollin ∷ [],
)

-- The two branches, by the flag ICANON.
abbrev pub typed : Tty → ℕ → ℕ → Bool → Tty × List Effect
typed t addr c true = canonical t c
typed t addr c false = raw t addr c

-- What follows the translation and the echo of control characters, by the signal that the character
-- stands for.
unfoldable pub respond : World → Tty → ℕ → ℕ → Option ℕ → World × Tty × List Effect
unfolding canonical raw send_foreground
respond w t addr c (some s) =
    ((send_foreground w t.number s).0, t, (send_foreground w t.number s).1)
respond w t addr c none =
    (w, (typed t addr c t.termios.icanon).0, (typed t addr c t.termios.icanon).1)

-- `tty_process`, its argument standing at `addr`.
unfoldable pub tty_process : World → Tty → ℕ → ℕ → World × Tty × List Effect
unfolding respond
tty_process w t addr c = elim (translate t.termios c) [
  | none ↦ (w, t, [])
  | some d ↦
      let result = respond w t addr d (signal_of t.termios d) in
      (result.0, result.1, shown t.termios d ++ result.2)
]
