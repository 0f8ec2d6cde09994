-- ===== src/Signals/Choice.antt =====
-- Which signal a check acts on, and what a handler runs with.
use astral.Base.{
  ℕ, zero, suc, ◌+◌, ◌-◌, ◌≤◌, ◌<◌, ◌≡◌, refl, sym, ap, ◌∙◌, Bool, true, false, not, ◌&&◌, ◌||◌,
  Option, none, some, List, ◌∷◌, ◌==◌, if◌then◌else◌, ltb, leb, arith, Bool-cases, inl, inr,
  lt_or_ge,
}
use astral.Signals.Sets.{Sigset, set_on, each_lem}
use astral.Signals.{Handler, sig_dfl, sig_ign, handler, Action, Thread, default_action, sigcont}
use astral.Signals.Check.{
  Source, from_urgent, from_thread, from_process, first_pending, last_urgent, choose, handler_mask,
  mask_step, Layout, terminated, signal_check, thawed,
}
use astral.Signals.Arrival.{send_returned}
use astral.Signals.Send.{Process, shouldstop, taken, resumed, woken, after, walk, send}

-- A signal that is masked or not pending.
abbrev pub is_idle : Sigset → Sigset → Sigset → ℕ → Bool
is_idle mask thread process n = mask n || not (thread n || process n)

-- Whether a signal is in the set named; the process's set counts where the thread's has it not.
abbrev pub is_in : Source → Sigset → Sigset → ℕ → Bool
is_in from_urgent thread process n = false
is_in from_thread thread process n = thread n
is_in from_process thread process n = not (thread n) && process n

module _ (mask thread process : Sigset) (k i : ℕ) where
  pending_idle :
      is_idle mask thread process i ≡ true
      → first_pending mask thread process (suc k) i ≡ first_pending mask thread process k (i + 1)
  unfolding first_pending
  pending_idle h = ground arith

  pending_busy :
      is_idle mask thread process i ≡ false
      → (from : Source) × (first_pending mask thread process (suc k) i ≡ some (i, from))
        × (mask i ≡ false)
        × (is_in from thread process i ≡ true)
  unfolding first_pending
  pending_busy h = elim (Bool-cases (thread i)) [
    | inl y ↦ (from_thread, ground arith, ground arith, y)
    | inr n ↦ (from_process, ground arith, ground arith, ground arith)
  ]

-- What is idle from `i + 1` on and at `i` is idle from `i` on.
idle_from :
    (mask thread process : Sigset) (i j : ℕ)
    → is_idle mask thread process i ≡ true
    → ((n : ℕ) → i + 1 ≤ n → n < j → is_idle mask thread process n ≡ true)
    → (n : ℕ) → i ≤ n
    → n < j
    → is_idle mask thread process n ≡ true
idle_from mask thread process i j here rest n h l = elim (lt_or_ge i n) [
  | inl lt ↦ rest n (omega (arith, lt)) l
  | inr ge ↦ let e : n ≡ i = omega (arith, h, ge) in rw e here
]

first_pending-some :
    (mask thread process : Sigset) (k i j : ℕ) (from : Source)
    → first_pending mask thread process k i ≡ some (j, from)
    → (i ≤ j)
      × (j < i + k)
      × (mask j ≡ false)
      × (is_in from thread process j ≡ true)
      × ((n : ℕ) → i ≤ n → n < j → is_idle mask thread process n ≡ true)
unfolding first_pending
first_pending-some mask thread process zero i j from e = absurd (grind (arith, e))
first_pending-some mask thread process (suc k) i j from e =
    elim (Bool-cases (is_idle mask thread process i)) [
      | inl idle ↦
          let (a, b, c, d, f) =
            first_pending-some mask thread process k (i + 1) j from
              (sym (pending_idle mask thread process k i idle) ∙ e) in
          (omega (arith, a), omega (arith, b), c, d, idle_from mask thread process i j idle f)
      | inr busy ↦
          let (from', e', m, q) = pending_busy mask thread process k i busy in
          let s : some (i, from') ≡ some (j, from) = sym e' ∙ e in
          let ij : i ≡ j = cc s in
          let ff : from' ≡ from = cc s in
          rw (sym ij, sym ff)
            (omega arith, omega arith, m, q, λ n h l. absurd (omega (arith, h, l)))
    ]

first_pending-none :
    (mask thread process : Sigset) (k i : ℕ)
    → first_pending mask thread process k i ≡ none
    → (n : ℕ) → i ≤ n
    → n < i + k
    → is_idle mask thread process n ≡ true
unfolding first_pending
first_pending-none mask thread process zero i e n h l = absurd (omega (arith, h, l))
first_pending-none mask thread process (suc k) i e n h l =
    elim (Bool-cases (is_idle mask thread process i)) [
      | inl idle ↦
          idle_from mask thread process i (i + suc k) idle
            (λ m a b.
              first_pending-none mask thread process k (i + 1)
                (sym (pending_idle mask thread process k i idle) ∙ e) m a (omega (arith, b)))
            n h l
      | inr busy ↦
          let (from', e', _, _) = pending_busy mask thread process k i busy in
          absurd (cc (sym e' ∙ e))
    ]

no_urgent :
    (urgent : Sigset) (k i : ℕ) (found : Option ℕ)
    → ((n : ℕ) → urgent n ≡ false)
    → last_urgent urgent k i found ≡ found
unfolding last_urgent
no_urgent urgent zero i found h = refl
no_urgent urgent (suc k) i found h = rw (h i) (no_urgent urgent k (i + 1) found h)

first_of :
    (t : Thread) (p : Sigset)
    → ((n : ℕ) → t.urgent n ≡ false)
    → choose t p ≡ first_pending t.mask t.pending p 64 1
unfolding choose
first_of t p h = rw (no_urgent t.urgent 64 1 none h, choose) refl

-- Without urgent signals, the signal that a check chooses once it has seen that no SIGKILL is pending is one
-- of 1 to 64, is not masked, is pending for the thread or, where it is not, for the process, and every
-- signal below it is masked or not pending.
pub choose-lowest :
    (t : Thread) (p : Sigset) (i : ℕ) (from : Source)
    → ((n : ℕ) → t.urgent n ≡ false)
    → choose t p ≡ some (i, from)
    → (1 ≤ i)
      × (i < 65)
      × (t.mask i ≡ false)
      × (is_in from t.pending p i ≡ true)
      × ((n : ℕ) → 1 ≤ n → n < i → is_idle t.mask t.pending p n ≡ true)
choose-lowest t p i from h c =
    first_pending-some t.mask t.pending p 64 1 i from (sym (first_of t p h) ∙ c)

-- Where a check that has seen no SIGKILL finds no signal to choose, every signal is masked or not pending.
pub choose-none :
    (t : Thread) (p : Sigset) (n : ℕ)
    → ((m : ℕ) → t.urgent m ≡ false)
    → choose t p ≡ none
    → 1 ≤ n
    → n < 65
    → is_idle t.mask t.pending p n ≡ true
choose-none t p n h c lo hi =
    first_pending-none t.mask t.pending p 64 1 (sym (first_of t p h) ∙ c) n lo hi

mask_bit :
    (extra : Sigset) (i : ℕ) (s : Sigset) (j : ℕ)
    → mask_step extra i s j ≡ (if i == j then s i || extra i else s j)
mask_bit extra i s j = elim (Bool-cases (i == j)) [
  | inl e ↦ let e' : i ≡ j = ground arith in rw (sym e') (ground arith)
  | inr d ↦ ground arith
]

mask_rest :
    (nodefer low high : Bool) (mask : Sigset) (i j : ℕ) (x : Bool)
    → (if low && high
        then (if nodefer then mask else set_on mask i) j || x
        else (if nodefer then mask else set_on mask i) j)
      ≡ (mask j || ((not nodefer && i == j) || (low && (high && x))))
mask_rest true low high mask i j x = ground arith
mask_rest false low high mask i j x = ground arith

-- While the handler of signal `i` runs, what was masked is masked, `i` is unless SA_NODEFER is set, and
-- of the signals in the action's mask those below `i` are: the others are left out.
handler_mask_lem :
    (a : Action) (i : ℕ) (mask : Sigset) (j : ℕ)
    → 1 ≤ i
    → handler_mask a i mask j
      ≡ (mask j || ((not a.nodefer && i == j) || (leb 1 j && (ltb j i && a.mask j))))
unfolding handler_mask
handler_mask_lem a i mask j h =
    let same : ltb j (1 + (i - 1)) ≡ ltb j i = ground arith in
    each_lem (mask_step a.mask) (λ n b. b || a.mask n) (mask_bit a.mask) (i - 1) 1
      (if a.nodefer then mask else set_on mask i) j
    ∙ (rw same (mask_rest a.nodefer (leb 1 j) (ltb j i) mask i j (a.mask j)))

taken_kill :
    (h : Handler) (t : Thread)
    → t.dead ≡ false
    → taken h 9 t ≡ (if t.stopped then resumed else woken)
unfolding taken
taken_kill h t d =
    rw d
      (elim (Bool-cases (t.mask 9)) [ inl m ↦ rw m (ground arith) | inr m ↦ rw m (ground arith) ])

kill_goes_on : (h : Handler) → (shouldstop h 9) ≡ false
unfolding default_action
kill_goes_on sig_dfl = refl
kill_goes_on sig_ign = refl
kill_goes_on (handler a) = refl

walk_kill :
    (h : Handler) (t : Thread) (ts : List Thread)
    → t.dead ≡ false
    → ((walk h 9 (t ∷ ts)).returned ≡ true)
      × ((walk h 9 (t ∷ ts)).threads
          ≡ record t { pending = set_on t.pending 9; stopped = false } ∷ ts)
unfolding walk after
walk_kill h t ts d =
    let q = taken_kill h t d in
    let n = kill_goes_on h in
    elim (Bool-cases t.stopped) [
      | inl s ↦
          let k : taken h 9 t ≡ resumed = q ∙ ap (λ b. if b then resumed else woken) s in
          rw (k, n) (refl, refl)
      | inr s ↦
          let k : taken h 9 t ≡ woken = q ∙ ap (λ b. if b then resumed else woken) s in
          rw (k, n) (refl, ap (λ b. record t { pending = set_on t.pending 9; stopped = b } ∷ ts) s)
    ]

killed : Thread → Thread
killed t = record t { pending = set_on t.pending 9; stopped = false }

send_kill :
    (p : Process) (t : Thread) (ts : List Thread)
    → p.threads ≡ t ∷ ts
    → t.dead ≡ false
    → (send p 9).process.threads ≡ killed t ∷ ts
unfolding killed
send_kill p t ts e d =
    let h = (p.actions 9).address in
    let (r, w) = walk_kill h t ts d in
    let r' : (walk h 9 p.threads).returned ≡ true = ap (λ xs. (walk h 9 xs).returned) e ∙ r in
    ap (λ z. z.process.threads) (send_returned p 9 r') ∙ (ap (λ xs. (walk h 9 xs).threads) e ∙ w)

-- SIGKILL sent to a process whose first thread is live and not stopped terminates the process at that
-- thread's next check, whatever the thread masks and whatever the action is.
pub send-kill-signal_check :
    (p : Process) (t : Thread) (ts : List Thread) (l : Layout) (copied : Bool)
    → p.threads ≡ t ∷ ts
    → t.dead ≡ false
    → t.stopped ≡ false
    → (t' : Thread) × ((send p 9).process.threads ≡ t' ∷ ts)
      × ((signal_check
            (record { thread = t'; actions = p.actions; pending = p.pending })
            l
            copied).1
          ≡ terminated 9)
unfolding signal_check killed
send-kill-signal_check p t ts l copied e d s = (
  killed t,
  send_kill p t ts e d,
  elim (Bool-cases (p.pending 9)) [ inl y ↦ rw y refl | inr n ↦ rw n refl ],
)

-- SIGKILL sent to a process whose first thread is live, is stopped and has no SIGCONT pending ends the stop:
-- the thread goes on within the check that stopped it, where the assertion that SIGCONT is pending fails.
pub send-kill-thawed :
    (p : Process) (t : Thread) (ts : List Thread)
    → p.threads ≡ t ∷ ts
    → t.dead ≡ false
    → t.stopped ≡ true
    → t.pending sigcont ≡ false
    → (t' : Thread) × ((send p 9).process.threads ≡ t' ∷ ts)
      × (t'.stopped ≡ false)
      × (thawed t' ≡ none)
unfolding thawed killed
send-kill-thawed p t ts e d s n = (killed t, send_kill p t ts e d, refl, rw n refl)
