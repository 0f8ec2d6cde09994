-- ===== src/Signals/Send.antt =====
-- Sending a signal to a process: `signal_signalproc` of kernel-src/sys/signal.c.
use astral.Base.{
  ℕ, ◌+◌, ◌*◌, Bool, true, false, not, ◌&&◌, ◌||◌, Option, none, some, List, [], ◌∷◌, ◌++◌, ◌==◌,
  if◌then◌else◌, zero, suc,
}
use Prim.Native.Nat.{bit_or}
use astral.Signals.Sets.{Sigset, set_on, set_off}
use astral.Signals.{
  Handler, Action, Thread, Effect, wakeup, event, default_action, notignored, is_default, is_stop,
  sigkill, sigchld, sigcont, sigstop,
}

-- The fields of `proc_t` that signals concern.
pub record Process : Type 0 where
  pub actions : ℕ → Action
  pub pending : Sigset
  pub threads : List Thread
  pub status : ℕ
  pub stopunwaited : Bool
  pub continueunwaited : Bool

abbrev pub notignorable : ℕ → Bool
notignorable s = s == sigkill || (s == sigstop || s == sigcont)

abbrev pub shouldstop : Handler → ℕ → Bool
shouldstop h s = (is_default h && is_stop (default_action s)) || s == sigstop

-- What the loop over the threads has done: the threads, the effects, whether it returned from the
-- whole function, and `threadcontinued`.
pub record Walk : Type 0 where
  pub threads : List Thread
  pub effects : List Effect
  pub returned : Bool
  pub continued : Bool

-- A thread that the loop takes the signal to: whether it leaves the signal there and goes on.
pub data Taken : Type 0 where
  skipped : Taken
  resumed : Taken
  dropped : Taken
  woken : Taken
  quiet : Taken

abbrev pub accepts : ℕ → Thread → Bool
accepts s t = not t.dead && (not (t.mask s) || notignorable s)

-- The branches of the loop's body.
unfoldable pub taken : Handler → ℕ → Thread → Taken
unfolding default_action
taken h s t =
    if not (accepts s t)
    then skipped
    else if not (notignored h s || notignorable s)
    then quiet
    else if t.stopped && (s == sigcont || s == sigkill)
    then resumed
    else if s == sigcont
    then dropped
    else woken

abbrev pub marked : Thread → ℕ → Thread
marked t s = record t { pending = set_on t.pending s }

unfoldable pub after : Taken → ℕ → Thread → Thread
after skipped s t = t
after resumed s t = record (marked t s) { stopped = false }
after dropped s t = record t { pending = set_off (set_on t.pending s) s }
after woken s t = marked t s
after quiet s t = marked t s

unfoldable pub effects_of : Taken → Thread → List Effect
effects_of resumed t = wakeup t.tid false ∷ []
effects_of woken t = wakeup t.tid true ∷ []
effects_of _ t = []

-- Whether the function returns after the thread.
abbrev pub ends : Taken → Handler → ℕ → Bool
ends skipped h s = false
ends dropped h s = false
ends _ h s = not (shouldstop h s || s == sigcont)

abbrev pub is_resumed : Taken → Bool
is_resumed resumed = true
is_resumed _ = false

-- The first loop of `signal_signalproc`.
unfoldable pub walk : Handler → ℕ → List Thread → Walk
unfolding taken after effects_of
walk h s [] = record { threads = []; effects = []; returned = false; continued = false }
walk h s (t ∷ ts) =
    let k = taken h s t in
    let onward = walk h s ts in
    if ends k h s
    then record {
      threads = after k s t ∷ ts;
      effects = effects_of k t;
      returned = true;
      continued = is_resumed k;
    }
    else record {
      threads = after k s t ∷ onward.threads;
      effects = effects_of k t ++ onward.effects;
      returned = onward.returned;
      continued = is_resumed k || onward.continued;
    }

-- The second loop: the first thread that waits for the signal.
unfoldable pub offer : ℕ → List Thread → Option (List Thread × Effect)
offer s [] = none
offer s (t ∷ ts) =
    if t.waiting s
    then some (marked t s ∷ ts, event t.tid)
    else elim (offer s ts) [ none ↦ none | some (us, e) ↦ some (t ∷ us, e) ]

-- What `signal_signalproc` has done to its process: the process, the effects, and how often it goes
-- on to tell the parent.
pub record Sent : Type 0 where
  pub process : Process
  pub effects : List Effect
  pub tells : ℕ

-- Setting the signal for the whole process where no thread has it.
unfoldable pub settle : Process → ℕ → Walk → Process × List Effect × Bool
unfolding offer
settle p s w = elim (offer s w.threads) [
  | some (us, e) ↦ (record p { threads = us }, w.effects ++ e ∷ [], true)
  | none ↦ (record p { threads = w.threads; pending = set_on p.pending s }, w.effects, false)
]

-- The end of the function: the status for a parent that waits.
unfoldable pub notify : Process → ℕ → List Effect → Bool → Sent
unfolding default_action
notify p s es continued =
    let stops =
      (notignorable s || notignored (p.actions s).address s) && is_stop (default_action s) in
    let p₁ =
      if stops then record p { status = bit_or 0x7f (s * 256); stopunwaited = true } else p in
    let p₂ = if continued then record p₁ { status = 0xffff; continueunwaited = true } else p₁ in
    record {
      process = p₂;
      effects = es;
      tells = (if stops then 1 else 0) + (if continued then 1 else 0);
    }

-- Returning from the second loop, or going on to the end.
abbrev pub finish : Process × List Effect × Bool → ℕ → Bool → Sent
finish (p, es, true) s continued = record { process = p; effects = es; tells = 0 }
finish (p, es, false) s continued = notify p s es continued

-- `signal_signalproc` but for the parent.
unfoldable pub send : Process → ℕ → Sent
send p s =
    let h = (p.actions s).address in
    let w = walk h s p.threads in
    let p' = record p { threads = w.threads } in
    if w.returned
    then record { process = p'; effects = w.effects; tells = 0 }
    else if not (notignorable s) && not (w.continued || shouldstop h s)
    then finish (settle p s w) s w.continued
    else notify p' s w.effects w.continued

-- A process with its parent, if it has one, and how often the parent's `waitsem` was signalled. A
-- null parent is followed there.
pub data Told : Type 0 where
  told : Process → Option Process → List Effect → ℕ → Told
  null_parent : Told

-- The parent is sent SIGCHLD unless it asked not to be: SIGCHLD stops and continues nothing, so that
-- it goes no further up.
unfoldable pub inform : Process → Process × List Effect
unfolding send
inform parent =
    if (parent.actions sigchld).nocldstop
    then (parent, [])
    else ((send parent sigchld).process, (send parent sigchld).effects)

-- `signal_signalproc`
unfoldable pub signal_signalproc : Process → Option Process → ℕ → Told
unfolding send inform
signal_signalproc p parent s =
    let r = send p s in
    elim (r.tells) [
      | zero ↦ told r.process parent r.effects 0
      | suc n ↦ elim parent [
        | none ↦ null_parent
        | some q ↦ elim n [
          | zero ↦ told r.process (some (inform q).0) (r.effects ++ (inform q).1) 1
          | suc _ ↦
              told r.process (some (inform (inform q).0).0)
                (r.effects ++ ((inform q).1 ++ (inform (inform q).0).1)) 2
        ]
      ]
    ]
