-- ===== src/Signals/Tests.antt =====
-- A process of two threads, the first of which masks SIGTERM and is stopped: runs of the operations,
-- and the properties at work.
use astral.Base.{ℕ, ◌≤◌, ◌<◌, ◌≡◌, refl, true, false, none, some, [], ◌∷◌, ◌==◌, if◌then◌else◌}
use astral.Signals.Sets.{Sigset, none_set, set_on, each}
use astral.Signals.{
  sig_dfl, handler, no_action, Thread, wakeup, default_action, signal_action, signal_altstack,
  signal_pending, signal_suspend, signal_signalthread,
}
use astral.Signals.Send.{
  Process, send, signal_signalproc, null_parent, walk, notify, taken, after, effects_of,
}
use astral.Signals.Check.{
  State, Layout, from_process, terminated, sleeping, choose, signal_check, act, by_default, got,
  again, no_timeout, thawed, wait_begin, wait_end, take_pending, first_pending, last_urgent,
}
use astral.Signals.Arrival.{delivered, IsOrdinary, send-delivered}
use astral.Signals.Choice.{is_idle, is_in, choose-lowest, send-kill-signal_check, send-kill-thawed}

abbrev only : ℕ → Sigset
only s = set_on none_set s

abbrev plain : Thread
plain = record {
  tid = 2;
  dead = false;
  stack_base = 0;
  stack_size = 0;
  mask = none_set;
  pending = none_set;
  urgent = none_set;
  waiting = none_set;
  returnmask = none_set;
  hasreturnmask = false;
  stopped = false;
}

abbrev halted : Thread
halted = record plain { tid = 1; mask = only 15; stopped = true }

abbrev shell : Process
shell = record {
  actions = λ s. no_action;
  pending = none_set;
  threads = halted ∷ plain ∷ [];
  status = 0;
  stopunwaited = false;
  continueunwaited = false;
}

abbrev layout : Layout
layout = record { sp = 0x8000; redzone = 128; size = 400 }

abbrev at_check : Thread → State
at_check t = record { thread = t; actions = λ s. no_action; pending = none_set }

-- SIGTERM passes the thread that masks it.
term_effects : (send shell 15).effects ≡ wakeup 2 true ∷ []
unfolding send walk taken after effects_of default_action
term_effects = refl

-- A process without a parent that is continued follows a null pointer.
orphan_run : signal_signalproc shell none 18 ≡ null_parent
unfolding signal_signalproc send walk taken after effects_of notify default_action
orphan_run = refl

thread_run : (signal_signalthread (λ s. no_action) halted 17 false) ≡ (
  record halted { pending = λ j. if 17 == j then false else if 17 == j then true else false },
  [],
)
unfolding signal_signalthread default_action
thread_run = refl

pending_run : signal_pending (only 3) (record plain { pending = only 5 }) 5 ≡ true
unfolding signal_pending each
pending_run = refl

suspend_run : (signal_suspend halted (only 7)).mask 15 ≡ false
unfolding signal_suspend
suspend_run = refl

altstack_run :
    (signal_altstack plain 4096 512).0 ≡ record plain { stack_base = 4096; stack_size = 512 }
unfolding signal_altstack
altstack_run = refl

action_run :
    (signal_action (λ s. no_action) 2 (record no_action { address = handler 9 })).1 ≡ no_action
unfolding signal_action
action_run = refl

stop_run : (signal_check (at_check (record plain { pending = only 20 })) layout true).1 ≡ sleeping
unfolding signal_check choose last_urgent first_pending act by_default default_action
stop_run = refl

thawed_run : thawed (record plain { pending = only 18 }) ≡ some true
unfolding thawed
thawed_run = refl

wait_run :
    wait_begin (record plain { pending = only 20 }) none_set (only 20) false
    ≡ got 20 (record plain { pending = λ j. if 20 == j then false else only 20 j }) none_set
unfolding wait_begin take_pending
wait_run = refl

poll_run : wait_begin plain none_set (only 20) true ≡ again plain none_set
unfolding wait_begin take_pending
poll_run = refl

untimed_run : wait_end plain none_set (only 20) false false ≡ no_timeout
unfolding wait_end take_pending
untimed_run = refl

term-IsOrdinary : IsOrdinary sig_dfl 15
unfolding default_action
term-IsOrdinary = record { ignorable = refl; no_stop = refl }

send-delivered_example :
    ((send shell 15).process ≡ delivered shell 15) × ((send shell 15).tells ≡ 0)
send-delivered_example = send-delivered shell 15 term-IsOrdinary

two_pending : choose (record plain { pending = only 12 }) (only 10) ≡ some (10, from_process)
unfolding choose last_urgent first_pending
two_pending = refl

choose-lowest_example :
    (1 ≤ 10)
    × (10 < 65)
    × (plain.mask 10 ≡ false)
    × (is_in from_process (only 12) (only 10) 10 ≡ true)
    × ((n : ℕ) → 1 ≤ n → n < 10 → is_idle plain.mask (only 12) (only 10) n ≡ true)
choose-lowest_example =
    choose-lowest (record plain { pending = only 12 }) (only 10) 10 from_process (λ n. refl)
      two_pending

-- A process whose first thread runs and masks SIGTERM.
abbrev running : Thread
running = record plain { mask = only 15 }

send-kill-signal_check_example :
    (t' : Thread) × ((send (record shell { threads = running ∷ plain ∷ [] }) 9).process.threads
      ≡ t' ∷ plain ∷ [])
    × ((signal_check (at_check t') layout true).1 ≡ terminated 9)
send-kill-signal_check_example =
    send-kill-signal_check (record shell { threads = running ∷ plain ∷ [] }) running (plain ∷ [])
      layout true refl refl refl

send-kill-thawed_example :
    (t' : Thread) × ((send shell 9).process.threads ≡ t' ∷ plain ∷ [])
    × (t'.stopped ≡ false)
    × (thawed t' ≡ none)
send-kill-thawed_example = send-kill-thawed shell halted (plain ∷ []) refl refl refl refl
