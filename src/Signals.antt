-- ===== src/Signals.antt =====
-- Signals: kernel-src/sys/signal.c and kernel-src/include/kernel/signal.h. This file has the sets, the
-- state and the operations on one thread; the children have delivery and the check before a return
-- to user space.
pub mod Sets
pub mod Send
pub mod Check
pub mod Masks
pub mod Arrival
pub mod Resume
pub mod Choice
mod Tests
use astral.Base.{
  ℕ, zero, suc, ◌+◌, Bool, true, false, not, ◌&&◌, ◌||◌, List, [], ◌∷◌, ◌==◌, if◌then◌else◌,
}
use astral.Signals.Sets.{Sigset, set_on, set_off, none_set, each, mem}

-- SIG_DFL, SIG_IGN, or the address of a handler.
pub data Handler : Type 0 where
  sig_dfl sig_ign : Handler
  handler : ℕ → Handler

-- `sigaction_t`, its flags one by one.
pub record Action : Type 0 where
  pub address : Handler
  pub mask : Sigset
  pub nocldstop : Bool
  pub siginfo : Bool
  pub onstack : Bool
  pub nodefer : Bool
  pub resethand : Bool

-- `memset(action, 0, sizeof(sigaction_t))`
abbrev pub no_action : Action
no_action = record {
  address = sig_dfl;
  mask = none_set;
  nocldstop = false;
  siginfo = false;
  onstack = false;
  nodefer = false;
  resethand = false;
}

-- The field `signals` of `thread_t`, with its number and whether THREAD_FLAGS_DEAD is set.
pub record Thread : Type 0 where
  pub tid : ℕ
  pub dead : Bool
  pub stack_base : ℕ
  pub stack_size : ℕ
  pub mask : Sigset
  pub pending : Sigset
  pub urgent : Sigset
  pub waiting : Sigset
  pub returnmask : Sigset
  pub hasreturnmask : Bool
  pub stopped : Bool

-- What an operation does outside: `sched_wakeup`, interrupting or not, and EVENT_SIGNAL.
pub data Effect : Type 0 where
  wakeup : ℕ → Bool → Effect
  event : ℕ → Effect

-- ACTION_TERM, ACTION_IGN, ACTION_CORE, ACTION_STOP and ACTION_CONT.
pub data Default : Type 0 where
  term ign core stop cont : Default

-- The signal numbers with a part of their own in the code.
abbrev pub sigkill : ℕ
sigkill = 9

abbrev pub sigchld : ℕ
sigchld = 17

abbrev pub sigcont : ℕ
sigcont = 18

abbrev pub sigstop : ℕ
sigstop = 19

-- `signal_defaultactions`; an entry not given is 0, ACTION_TERM.
unfoldable pub default_action : ℕ → Default
default_action s =
    if mem s (3 ∷ 4 ∷ 5 ∷ 6 ∷ 7 ∷ 8 ∷ 11 ∷ 24 ∷ 25 ∷ 31 ∷ [])
    then core
    else if mem s (17 ∷ 23 ∷ 28 ∷ [])
    then ign
    else if mem s (19 ∷ 20 ∷ 21 ∷ 22 ∷ [])
    then stop
    else if s == sigcont
    then cont
    else term

abbrev pub is_ign : Default → Bool
is_ign ign = true
is_ign _ = false

abbrev pub is_stop : Default → Bool
is_stop stop = true
is_stop _ = false

abbrev pub is_default : Handler → Bool
is_default sig_dfl = true
is_default _ = false

-- `notignored` of `signal_signalthread` and `signal_signalproc`.
abbrev pub notignored : Handler → ℕ → Bool
notignored sig_dfl s = not (is_ign (default_action s))
notignored sig_ign s = false
notignored (handler a) s = true

-- `signal_action`, with the action that was there.
unfoldable pub signal_action : (ℕ → Action) → ℕ → Action → (ℕ → Action) × Action
signal_action actions s new = ((λ i. if s == i then new else actions i), actions s)

-- `signal_altstack`, with the stack that was there.
unfoldable pub signal_altstack : Thread → ℕ → ℕ → Thread × ℕ × ℕ
signal_altstack t base size =
    (record t { stack_base = base; stack_size = size }, t.stack_base, t.stack_size)

-- SIG_BLOCK, SIG_UNBLOCK and SIG_SETMASK.
pub data How : Type 0 where
  block unblock setmask : How

-- The rounds of the loop of `signal_changemask`.
abbrev pub block_step : Sigset → ℕ → Sigset → Sigset
block_step new i m = if new i then (if m i then m else set_on m i) else m

abbrev pub unblock_step : Sigset → ℕ → Sigset → Sigset
unblock_step new i m = if new i then (if m i then set_off m i else m) else m

-- `signal_changemask`, with the mask that was there.
unfoldable pub signal_changemask : Thread → How → Sigset → Thread × Sigset
unfolding each
signal_changemask t block new = (record t { mask = each (block_step new) 64 1 t.mask }, t.mask)
signal_changemask t unblock new = (record t { mask = each (unblock_step new) 64 1 t.mask }, t.mask)
signal_changemask t setmask new = (record t { mask = new }, t.mask)

abbrev pending_step : Sigset → Sigset → ℕ → Sigset → Sigset
pending_step p t i s = let s' = if p i then set_on s i else s in if t i then set_on s' i else s'

-- `signal_pending` of a thread whose process has the set `p`.
unfoldable pub signal_pending : Sigset → Thread → Sigset
unfolding each
signal_pending p t = each (pending_step p t.pending) 64 1 none_set

-- `signal_suspend` up to its sleep.
unfoldable pub signal_suspend : Thread → Sigset → Thread
signal_suspend t s = record t { mask = s; returnmask = s; hasreturnmask = true }

-- `signal_signalthread` for a thread of a process with the given actions.
unfoldable pub signal_signalthread : (ℕ → Action) → Thread → ℕ → Bool → Thread × List Effect
unfolding default_action
signal_signalthread actions t s urgent =
    let address = (actions s).address in
    let marked =
      if urgent
      then record t { urgent = set_on t.urgent s }
      else record t { pending = set_on t.pending s } in
    let unmarked =
      if urgent
      then record t { urgent = set_off (set_on t.urgent s) s }
      else record t { pending = set_off (set_on t.pending s) s } in
    if s == sigkill || (s == sigstop || (urgent || (not (t.mask s) && notignored address s)))
    then (marked, wakeup t.tid true ∷ [])
    else if not (notignored address s)
    then (unmarked, [])
    else if t.mask s && t.waiting s
    then (marked, event t.tid ∷ [])
    else (marked, [])
