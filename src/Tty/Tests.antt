-- ===== src/Tty/Tests.antt =====
-- A terminal with the default settings: runs of the line discipline, and the properties at work.
use astral.Base.{
  ℕ, ◌^◌, ◌≡◌, refl, true, false, none, some, List, [], ◌∷◌, ◌==◌, if◌then◌else◌, replicate, arith,
  err, enxio,
}
use astral.Base.Memory.{copy_in}
use astral.RingBuffer.{Ring, write, write_some, copy_in_passes}
use astral.RingBuffer.Valid.{contents}
use astral.JobControl.{Proc, World, hold, getctty}
use astral.JobControl
use astral.Tty.{
  Termios, Tty, output, group_signal, getforeground, send_foreground, erase, flush, enter,
  canonical, respond, tty_process,
}
use astral.Tty.Calls.{Minors, open_minor}
use astral.Tty.Lines.{IsValid, tty_process-IsValid}
use astral.Tty.Edits.{IsReady, editor, edit, tty_process-edit}

abbrev settings : Termios
settings = record {
  igncr = false;
  icrnl = true;
  inlcr = false;
  echo = true;
  echoctl = true;
  isig = true;
  icanon = true;
  cc = λ i.
      if i == 0
      then 3
      else if i == 1
      then 28
      else if i == 2
      then 8
      else if i == 3
      then 21
      else if i == 4
      then 4
      else if i == 10
      then 26
      else 0;
}

abbrev empty_ring : Ring
empty_ring = record { size = 8; write = 0; read = 0; base = 2 ^ 47; bytes = replicate 8 0 }

abbrev console : Tty
console = record {
  number = 7;
  readbuffer = empty_ring;
  termios = settings;
  device_address = 2 ^ 47;
  devicebuffer = replicate 512 0;
  devicepos = 0;
}

abbrev lone : ℕ → Proc
lone n = record {
  pid = n;
  refcount = 1;
  session_leader = none;
  foreground = none;
  controllingtty = none;
  group_leader = none;
  nextmember = none;
  previousmember = none;
}

abbrev world : World
world = record { proc = lone; tty_session = λ t. some 4; tty_holds = λ t. 1; inactive = [] }

abbrev two_minors : Minors
two_minors = some 5 ∷ none ∷ []

abbrev typing : Tty → List ℕ → Tty
typing t [] = t
typing t (c ∷ cs) = typing ((tty_process world t (2 ^ 47) c).1) cs

console-IsValid : IsValid console
console-IsValid = record { sized = refl; room = omega arith }

console-IsReady : IsReady console
console-IsReady = record { ring = omega arith; no_wrap = omega arith; address = omega arith }

-- `a`, `b`, backspace, `c` and return.
typed_line : contents ((typing console (97 ∷ 98 ∷ 8 ∷ 99 ∷ 13 ∷ [])).readbuffer) ≡ 97 ∷ 99 ∷ 10 ∷ []
unfolding tty_process respond canonical erase enter flush write write_some copy_in_passes copy_in
typed_line = refl

-- Interrupting from the keyboard signals the foreground group of the session.
interrupted :
    (tty_process world console (2 ^ 47) 3).2 ≡ output (94 ∷ 67 ∷ []) ∷ group_signal 4 2 ∷ []
unfolding tty_process respond send_foreground getforeground JobControl.getforeground hold
interrupted = refl

-- The first byte of a character outside ASCII is echoed as a control character.
echoed_accent : (tty_process world console (2 ^ 47) 195).2 ≡ output (94 ∷ 3 ∷ []) ∷ []
unfolding tty_process respond canonical enter
echoed_accent = refl

tty_process-IsValid_example : IsValid (tty_process world console (2 ^ 47) 97).1
tty_process-IsValid_example = tty_process-IsValid world console (2 ^ 47) 97 console-IsValid

tty_process-edit_example :
    editor (tty_process world console (2 ^ 47) 13).1 ≡ edit settings 8 10 (editor console)
tty_process-edit_example =
    tty_process-edit world console (2 ^ 47) 13 10 console-IsValid console-IsReady refl refl refl

-- A process without a controlling terminal cannot open it.
open_without : (open_minor world [] 1 4096 false).2 ≡ err enxio
unfolding open_minor getctty
open_without = refl
