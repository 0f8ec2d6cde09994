-- ===== src/Signals/Check.antt =====
-- The check for signals before a return to user space, and the wait for one: `signal_check` and
-- `signal_wait` of kernel-src/sys/signal.c.
use astral.Base.{
  ℕ, zero, suc, ◌+◌, ◌-◌, ◌%◌, Bool, true, false, not, ◌&&◌, ◌||◌, Option, none, some, ◌==◌,
  if◌then◌else◌, ltb, add64, sub64,
}
use astral.Signals.Sets.{Sigset, set_on, set_off, none_set, each}
use astral.Signals.{
  sig_dfl, sig_ign, handler, Action, no_action, Thread, term, ign, core, stop, cont, default_action,
  sigkill, sigcont,
}

-- The sets that a signal can be taken from.
pub data Source : Type 0 where
  from_urgent from_thread from_process : Source

-- The loop over the urgent set: it keeps the last signal found.
unfoldable pub last_urgent : Sigset → ℕ → ℕ → Option ℕ → Option ℕ
last_urgent urgent zero i found = found
last_urgent urgent (suc k) i found =
    last_urgent urgent k (i + 1) (if urgent i then some i else found)

-- The loop over the signals that are not masked.
unfoldable pub first_pending : Sigset → Sigset → Sigset → ℕ → ℕ → Option (ℕ × Source)
first_pending mask thread process zero i = none
first_pending mask thread process (suc k) i =
    let onward = first_pending mask thread process k (i + 1) in
    if mask i
    then onward
    else if thread i
    then some (i, from_thread)
    else if process i
    then some (i, from_process)
    else onward

-- The signal that `signal_check` acts on, for a process with the set `p`.
unfoldable pub choose : Thread → Sigset → Option (ℕ × Source)
unfolding last_urgent first_pending
choose t p = elim (last_urgent t.urgent 64 1 none) [
  | some s ↦ some (s, from_urgent)
  | none ↦ first_pending t.mask t.pending p 64 1
]

-- The parts of `sigframe_t` that come from the signals' state.
pub record Frame : Type 0 where
  pub stack : ℕ
  pub oldstack_base : ℕ
  pub oldstack_size : ℕ
  pub oldmask : Sigset

-- How `signal_check` ends: the process terminates with a status, it returns whether to check again,
-- the thread has gone to an uninterruptible sleep, or a handler is set up.
pub data Outcome : Type 0 where
  terminated : ℕ → Outcome
  returned : Bool → Outcome
  sleeping : Outcome
  handling : ℕ → ℕ → Frame → Outcome

-- A thread, the actions and the pending set of its process.
pub record State : Type 0 where
  pub thread : Thread
  pub actions : ℕ → Action
  pub pending : Sigset

abbrev pub discard : State → ℕ → Source → State
discard s i from_urgent = record s {
  thread = record s.thread { urgent = set_off s.thread.urgent i };
}
discard s i from_thread = record s {
  thread = record s.thread { pending = set_off s.thread.pending i };
}
discard s i from_process = record s { pending = set_off s.pending i }

-- The default action of a signal.
unfoldable pub by_default : State → ℕ → State × Outcome
unfolding default_action
by_default s i = elim (default_action i) [
  | ign ↦ (s, returned true)
  | cont ↦ (s, returned true)
  | core ↦ (s, terminated i)
  | term ↦ (s, terminated i)
  | stop ↦
      if s.thread.pending sigcont
      then (s, returned true)
      else (record s { thread = record s.thread { stopped = true } }, sleeping)
]

-- Where the frame goes: `top` is the top of the stack, `red` and `size` the sizes of the red zone and
-- of the frame.
abbrev pub frame_place : ℕ → ℕ → ℕ → ℕ
frame_place top red size =
    let below = sub64 (sub64 top red) size in sub64 (sub64 below (below % 16)) 8

abbrev pub mask_step : Sigset → ℕ → Sigset → Sigset
mask_step extra i m = if extra i then set_on m i else m

-- The mask while a handler runs.
unfoldable pub handler_mask : Action → ℕ → Sigset → Sigset
unfolding each
handler_mask a i mask =
    each (mask_step a.mask) (i - 1) 1 (if a.nodefer then mask else set_on mask i)

-- What the context gives: the stack pointer, and the sizes.
pub record Layout : Type 0 where
  pub sp : ℕ
  pub redzone : ℕ
  pub size : ℕ

-- The handler of a signal at `address`; `copied` is whether the frame could be written.
unfoldable pub by_handler : State → Layout → ℕ → ℕ → Bool → State × Outcome
unfolding handler_mask
by_handler s l i address copied =
    let t = s.thread in
    let a = s.actions i in
    let alt = a.onstack && ltb 0 t.stack_size && not (t.stack_base == 0) in
    let top = if alt then add64 t.stack_base t.stack_size else l.sp in
    let place = frame_place top l.redzone l.size in
    let frame : Frame = record {
      stack = place;
      oldstack_base = if alt then t.stack_base else 0;
      oldstack_size = if alt then t.stack_size else 0;
      oldmask = if t.hasreturnmask then t.returnmask else t.mask;
    } in
    let t₁ = record t {
      stack_base = if alt then 0 else t.stack_base;
      stack_size = if alt then 0 else t.stack_size;
      hasreturnmask = false;
    } in
    if copied
    then (
      record s {
        thread = record t₁ { mask = handler_mask a i t.mask };
        actions =
            if a.resethand then (λ j. if i == j then no_action else s.actions j) else s.actions;
      },
      handling i address frame,
    )
    else (record s { thread = t₁ }, terminated 11)

-- `signal_check` once a signal is chosen.
unfoldable pub act : State → Layout → ℕ → Source → Bool → State × Outcome
unfolding by_default by_handler
act s l i from copied =
    let s₁ = discard s i from in
    elim ((s.actions i).address) [
      | sig_ign ↦ elim from [ from_urgent ↦ by_default s₁ i | _ ↦ (s₁, returned true) ]
      | sig_dfl ↦ if (s.actions i).siginfo then by_handler s₁ l i 0 copied else by_default s₁ i
      | handler a ↦ by_handler s₁ l i a copied
    ]

-- `signal_check`, up to the sleep of a thread that is stopped.
unfoldable pub signal_check : State → Layout → Bool → State × Outcome
unfolding choose act
signal_check s l copied =
    if s.pending sigkill || s.thread.pending sigkill
    then (s, terminated sigkill)
    else elim (choose s.thread s.pending) [
      | none ↦ (s, returned false)
      | some (i, from) ↦ act s l i from copied
    ]

-- The end of `signal_check` after that sleep; `none` where an assertion fails.
unfoldable pub thawed : Thread → Option Bool
thawed t = if t.pending sigcont && not t.stopped then some true else none

-- The loop of `signal_wait` that takes the first pending signal of a set: the signal, the thread's
-- set and the process's set.
unfoldable pub take_pending : Sigset → Sigset → Sigset → ℕ → ℕ → Option (ℕ × Sigset × Sigset)
take_pending wanted thread process zero i = none
take_pending wanted thread process (suc k) i =
    let onward = take_pending wanted thread process k (i + 1) in
    if not (wanted i)
    then onward
    else if thread i
    then some (i, set_off thread i, process)
    else if process i
    then some (i, thread, set_off process i)
    else onward

-- `signal_wait` up to its sleep: a signal, EAGAIN, or the sleep with the set to wait for. `poll` is
-- whether a timeout of no time is given.
pub data Wait : Type 0 where
  got : ℕ → Thread → Sigset → Wait
  again : Thread → Sigset → Wait
  asleep : Thread → Sigset → Wait
  interrupted : Thread → Sigset → Wait
  no_timeout : Wait

unfoldable pub wait_begin : Thread → Sigset → Sigset → Bool → Wait
unfolding take_pending
wait_begin t p wanted poll = elim (take_pending wanted t.pending p 64 1) [
  | some (i, ours, theirs) ↦ got i (record t { pending = ours }) theirs
  | none ↦ if poll then again t p else asleep (record t { waiting = wanted }) p
]

-- The rest of `signal_wait`: `intr` is whether EVENT_WAIT returned an error, and `timed` whether there
-- is a timeout, without which the assertion fails where no signal is found.
unfoldable pub wait_end : Thread → Sigset → Sigset → Bool → Bool → Wait
unfolding take_pending
wait_end t p wanted timed intr =
    let t₁ = record t { waiting = none_set } in
    if intr then interrupted t₁ p else elim (take_pending wanted t.pending p 64 1) [
      | some (i, ours, theirs) ↦ got i (record t₁ { pending = ours }) theirs
      | none ↦ if timed then again t₁ p else no_timeout
    ]
