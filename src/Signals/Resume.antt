-- ===== src/Signals/Resume.antt =====
-- SIGCONT and SIGSTOP reach every live thread of a process.
use astral.Base.{
  ℕ, ◌≡◌, refl, ap, Bool, true, false, not, ◌&&◌, ◌||◌, List, [], ◌∷◌, if◌then◌else◌, arith,
  Bool-cases, inl, inr,
}
use astral.Signals.{Handler, sig_dfl, sig_ign, handler, Thread, Effect, wakeup, default_action}
use astral.Signals.Send.{
  Process, shouldstop, taken, skipped, resumed, dropped, woken, after, effects_of, walk, notify,
  send,
}

abbrev pub AllLive {ℓ} : (Thread → Type ℓ) → List Thread → Type ℓ
AllLive P [] = Unit
AllLive P (t ∷ ts) = (t.dead ≡ false → P t) × AllLive P ts

abbrev pub is_frozen : Thread → Bool
is_frozen t = not t.dead && t.stopped

abbrev pub any_frozen : List Thread → Bool
any_frozen [] = false
any_frozen (t ∷ ts) = is_frozen t || any_frozen ts

-- A wakeup that ends an uninterruptible sleep, for each live thread that is stopped.
abbrev pub thaws : List Thread → List Effect
thaws [] = []
thaws (t ∷ ts) = if is_frozen t then wakeup t.tid false ∷ thaws ts else thaws ts

cont_never_stops : (h : Handler) → shouldstop h 18 ≡ false
unfolding default_action
cont_never_stops sig_dfl = refl
cont_never_stops sig_ign = refl
cont_never_stops (handler a) = refl

stop_always_stops : (h : Handler) → shouldstop h 19 ≡ true
unfolding default_action
stop_always_stops sig_dfl = refl
stop_always_stops sig_ign = refl
stop_always_stops (handler a) = refl

taken_cont :
    (h : Handler) (t : Thread)
    → taken h 18 t ≡ (if t.dead then skipped else if t.stopped then resumed else dropped)
unfolding taken
taken_cont h t = elim (Bool-cases t.dead) [
  | inl d ↦ rw d refl
  | inr d ↦
      rw d (elim (Bool-cases (t.mask 18)) [
        | inl m ↦ rw m (ground arith)
        | inr m ↦ rw m (ground arith)
      ])
]

taken_stop : (h : Handler) (t : Thread) → taken h 19 t ≡ (if t.dead then skipped else woken)
unfolding taken
taken_stop h t = elim (Bool-cases t.dead) [
  | inl d ↦ rw d refl
  | inr d ↦
      rw d (elim (Bool-cases (t.mask 19)) [
        | inl m ↦ rw m (ground arith)
        | inr m ↦ rw m (ground arith)
      ])
]

abbrev Running : Thread → Type 0
Running t = t.stopped ≡ false

walk_cont :
    (h : Handler) (ts : List Thread)
    → let w = walk h 18 ts in
      (w.returned ≡ false)
      × (w.continued ≡ any_frozen ts)
      × (w.effects ≡ thaws ts)
      × AllLive Running w.threads
unfolding walk after effects_of
walk_cont h [] = (refl, refl, refl, tt)
walk_cont h (t ∷ ts) =
    let (r, c, e, a) = walk_cont h ts in
    let n = cont_never_stops h in
    let q = taken_cont h t in
    elim (Bool-cases t.dead) [
      | inl d ↦ rw (q, d) (r, c, e, ((λ x. cc), a))
      | inr d ↦ elim (Bool-cases t.stopped) [
        | inl s ↦ rw (q, d, s, n) (r, refl, ap (λ es. wakeup t.tid false ∷ es) e, ((λ x. refl), a))
        | inr s ↦ rw (q, d, s) (r, c, e, ((λ x. refl), a))
      ]
    ]

abbrev Marked : ℕ → Thread → Type 0
Marked s t = t.pending s ≡ true

walk_stop :
    (h : Handler) (ts : List Thread)
    → let w = walk h 19 ts in
      (w.returned ≡ false) × (w.continued ≡ false) × AllLive (Marked 19) w.threads
unfolding walk after
walk_stop h [] = (refl, refl, tt)
walk_stop h (t ∷ ts) =
    let (r, c, a) = walk_stop h ts in
    let n = stop_always_stops h in
    let q = taken_stop h t in
    elim (Bool-cases t.dead) [
      | inl d ↦ rw (q, d) (r, c, ((λ x. cc), a))
      | inr d ↦ rw (q, d, n) (r, c, ((λ x. refl), a))
    ]

-- SIGCONT leaves no live thread of the process stopped, whatever the threads mask and the action is. It
-- wakes exactly the live threads that were stopped, each from its uninterruptible sleep, and the
-- parent is told once if there was one and not at all otherwise.
send_cont :
    (p : Process)
    → let r = send p 18 in
      AllLive Running r.process.threads
      × (r.effects ≡ thaws p.threads)
      × (r.tells ≡ (if any_frozen p.threads then 1 else 0))
unfolding send notify default_action
send_cont p =
    let h = (p.actions 18).address in
    let (r, c, e, a) = walk_cont h p.threads in
    elim (Bool-cases (any_frozen p.threads)) [
      | inl f ↦ rw (r, c, f) (a, e, refl)
      | inr f ↦ rw (r, c, f) (a, e, refl)
    ]

-- SIGSTOP is pending for every live thread afterwards, also where it is masked, and the parent is told
-- once that the process has stopped.
pub send_stop :
    (p : Process)
    → let r = send p 19 in
      AllLive (Marked 19) r.process.threads
      × (r.process.status ≡ 0x137f)
      × (r.process.stopunwaited ≡ true)
      × (r.tells ≡ 1)
unfolding send notify default_action
send_stop p =
    let h = (p.actions 19).address in
    let (r, c, a) = walk_stop h p.threads in rw (r, c) (a, refl, refl, refl)
