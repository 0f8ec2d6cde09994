-- ===== src/Signals/Arrival.antt =====
-- Where a signal sent to a process arrives.
use astral.Base.{
  ℕ, ◌≡◌, refl, ap, ◌∙◌, Bool, true, false, not, ◌&&◌, ◌||◌, Option, none, some, List, [], ◌∷◌,
  ◌++◌, ◌==◌, if◌then◌else◌, arith, Bool-cases, Option-cases, inl, inr,
}
use astral.Signals.Sets.{set_on}
use astral.Signals.{Handler, Thread, Effect, event, default_action, notignored, is_stop, sigcont}
use astral.Signals.Send.{
  Process, Walk, notignorable, shouldstop, taken, skipped, woken, quiet, after, ends, is_resumed,
  marked, walk, offer, settle, notify, finish, send,
}

-- The first thread that meets a test takes the signal into its pending set.
abbrev pub receive : (Thread → Bool) → ℕ → List Thread → Option (List Thread)
receive test s [] = none
receive test s (t ∷ ts) =
    if test t
    then some (marked t s ∷ ts)
    else elim (receive test s ts) [ none ↦ none | some us ↦ some (t ∷ us) ]

abbrev pub is_open : ℕ → Thread → Bool
is_open s t = not t.dead && not (t.mask s)

abbrev pub waits : ℕ → Thread → Bool
waits s t = t.waiting s

-- The process once a thread has taken the signal, for which it was open or waited, or none has.
abbrev pub place : Process → ℕ → Option (List Thread) → Option (List Thread) → Process
place p s (some us) waited = record p { threads = us }
place p s none (some us) = record p { threads = us }
place p s none none = record p { pending = set_on p.pending s }

-- The rule for a signal that neither stops nor continues and can be ignored: the first live thread
-- that does not mask it takes it, or else the first that waits for it, or else the whole process.
abbrev pub delivered : Process → ℕ → Process
delivered p s = place p s (receive (is_open s) s p.threads) (receive (waits s) s p.threads)

-- A signal of that kind: it can be ignored, and its action is not to stop.
pub record IsOrdinary (h : Handler) (s : ℕ) : Type 0 where
  pub ignorable : notignorable s ≡ false
  pub no_stop : is_stop (default_action s) ≡ false

numbers :
    {h : Handler} {s : ℕ}
    → IsOrdinary h s
    → ((s == 9) ≡ false) × ((s == 19) ≡ false) × ((s == 18) ≡ false)
numbers {h} {s} o = let i = o.ignorable in (ground arith, ground arith, ground arith)

never_stops : {h : Handler} {s : ℕ} → IsOrdinary h s → (shouldstop h s || s == sigcont) ≡ false
never_stops {h} {s} o =
    let (a, b, c) = numbers o in let n = o.no_stop in rw (b, c, n) (ground arith)

taken_ordinary :
    (h : Handler) (s : ℕ) (t : Thread)
    → IsOrdinary h s
    → taken h s t ≡ (if is_open s t then (if notignored h s then woken else quiet) else skipped)
unfolding taken
taken_ordinary h s t o =
    let (a, b, c) = numbers o in
    rw (a, b, c)
      (elim (Bool-cases t.dead) [
        | inl d ↦ rw d refl
        | inr d ↦ rw d (elim (Bool-cases (t.mask s)) [
          | inl m ↦ rw m refl
          | inr m ↦ rw m (elim (Bool-cases (notignored h s)) [
            | inl n ↦ rw n (ground arith)
            | inr n ↦ rw n refl
          ])
        ])
      ])

taken_open :
    (h : Handler) (s : ℕ) (t : Thread)
    → IsOrdinary h s
    → is_open s t ≡ true
    → (after (taken h s t) s t ≡ marked t s)
      × (ends (taken h s t) h s ≡ true)
      × (is_resumed (taken h s t) ≡ false)
unfolding after
taken_open h s t o e =
    let n = never_stops o in
    elim (Bool-cases (notignored h s)) [
      | inl k ↦
          let q : taken h s t ≡ woken = taken_ordinary h s t o ∙ rw (e, k) refl in
          rw q (refl, rw n refl, refl)
      | inr k ↦
          let q : taken h s t ≡ quiet = taken_ordinary h s t o ∙ rw (e, k) refl in
          rw q (refl, rw n refl, refl)
    ]

taken_shut :
    (h : Handler) (s : ℕ) (t : Thread)
    → IsOrdinary h s
    → is_open s t ≡ false
    → taken h s t ≡ skipped
taken_shut h s t o e = taken_ordinary h s t o ∙ rw e refl

walk_received :
    (h : Handler) (s : ℕ) (ts us : List Thread)
    → IsOrdinary h s
    → receive (is_open s) s ts ≡ some us
    → ((walk h s ts).returned ≡ true) × ((walk h s ts).threads ≡ us)
unfolding walk after
walk_received h s [] us o e = absurd (grind (arith, e))
walk_received h s (t ∷ ts) us o e = elim (Bool-cases (is_open s t)) [
  | inl open_to ↦
      let (a, b, c) = taken_open h s t o open_to in rw b (refl, rw a (grind (arith, e, open_to)))
  | inr shut ↦
      let q = taken_shut h s t o shut in
      elim (Option-cases (receive (is_open s) s ts)) [
        | inl e' ↦ absurd (grind (arith, e, e', shut))
        | inr (vs, e') ↦
            let (r, w) = walk_received h s ts vs o e' in rw q (r, rw w (grind (arith, e, e', shut)))
      ]
]

walk_refused :
    (h : Handler) (s : ℕ) (ts : List Thread)
    → IsOrdinary h s
    → receive (is_open s) s ts ≡ none
    → ((walk h s ts).returned ≡ false)
      × ((walk h s ts).threads ≡ ts)
      × ((walk h s ts).continued ≡ false)
unfolding walk after
walk_refused h s [] o e = (refl, refl, refl)
walk_refused h s (t ∷ ts) o e = elim (Bool-cases (is_open s t)) [
  | inl open_to ↦ absurd (grind (arith, e, open_to))
  | inr shut ↦
      let q = taken_shut h s t o shut in
      elim (Option-cases (receive (is_open s) s ts)) [
        | inl e' ↦ let (r, w, c) = walk_refused h s ts o e' in rw q (r, ap (λ us. t ∷ us) w, c)
        | inr (vs, e') ↦ absurd (grind (arith, e, e', shut))
      ]
]

offer_received :
    (s : ℕ) (ts us : List Thread)
    → receive (waits s) s ts ≡ some us
    → (e : Effect) × (offer s ts ≡ some (us, e))
unfolding offer
offer_received s [] us e = absurd (grind (arith, e))
offer_received s (t ∷ ts) us e = elim (Bool-cases (t.waiting s)) [
  | inl w ↦ (event t.tid, rw w (grind (arith, e, w)))
  | inr w ↦ elim (Option-cases (receive (waits s) s ts)) [
    | inl e' ↦ absurd (grind (arith, e, e', w))
    | inr (vs, e') ↦
        let (x, q) = offer_received s ts vs e' in (x, rw (w, q, offer) (grind (arith, e, e', w)))
  ]
]

offer_refused : (s : ℕ) (ts : List Thread) → receive (waits s) s ts ≡ none → offer s ts ≡ none
unfolding offer
offer_refused s [] e = refl
offer_refused s (t ∷ ts) e = elim (Bool-cases (t.waiting s)) [
  | inl w ↦ absurd (grind (arith, e, w))
  | inr w ↦ elim (Option-cases (receive (waits s) s ts)) [
    | inl e' ↦ rw (w, offer_refused s ts e', offer) refl
    | inr (vs, e') ↦ absurd (grind (arith, e, e', w))
  ]
]

settle_waited :
    (p : Process) (s : ℕ) (w : Walk) (us : List Thread) (e : Effect)
    → offer s w.threads ≡ some (us, e)
    → settle p s w ≡ (record p { threads = us }, w.effects ++ e ∷ [], true)
unfolding settle
settle_waited p s w us e h = rw (h, settle) refl

settle_refused :
    (p : Process) (s : ℕ) (w : Walk)
    → offer s w.threads ≡ none
    → settle p s w
      ≡ (record p { threads = w.threads; pending = set_on p.pending s }, w.effects, false)
unfolding settle
settle_refused p s w h = rw (h, settle) refl

pub send_returned :
    (p : Process) (s : ℕ)
    → (walk (p.actions s).address s p.threads).returned ≡ true
    → send p s ≡ (
        let w = walk (p.actions s).address s p.threads in
        record { process = record p { threads = w.threads }; effects = w.effects; tells = 0 })
unfolding send
send_returned p s r = rw r refl

notify_quiet :
    (p : Process) (s : ℕ) (es : List Effect)
    → is_stop (default_action s) ≡ false
    → notify p s es false ≡ record { process = p; effects = es; tells = 0 }
unfolding notify
notify_quiet p s es h =
    let k : ((notignorable s || notignored (p.actions s).address s) && is_stop (default_action s))
        ≡ false =
      ground arith in
    rw k refl

-- The end of `signal_signalproc` where no thread was open to an ordinary signal.
send_unopened :
    (p : Process) (s : ℕ)
    → IsOrdinary (p.actions s).address s
    → let w = walk (p.actions s).address s p.threads in
      w.returned ≡ false
      → w.continued ≡ false
      → send p s ≡ finish (settle p s (walk (p.actions s).address s p.threads)) s false
unfolding send
send_unopened p s o r c =
    let i = o.ignorable in
    let (_, n, _) = numbers o in
    let d : shouldstop (p.actions s).address s ≡ false =
      let q = o.no_stop in rw (q, n) (ground arith) in
    rw (r, i, c, d, send) refl

-- A signal that can be ignored, and whose default action is not to stop, arrives at exactly one
-- place: the first live thread that does not mask it, or if there is none the first thread that
-- waits for it, or else the process as a whole. The parent is not told.
pub send-delivered :
    (p : Process) (s : ℕ)
    → IsOrdinary (p.actions s).address s
    → ((send p s).process ≡ delivered p s) × ((send p s).tells ≡ 0)
send-delivered p s o = elim (Option-cases (receive (is_open s) s p.threads)) [
  | inr (us, e) ↦
      let (r, w) = walk_received (p.actions s).address s p.threads us o e in
      rw (send_returned p s r, e, w) (refl, refl)
  | inl e ↦
      let h = (p.actions s).address in
      let (r, w, c) = walk_refused h s p.threads o e in
      elim (Option-cases (receive (waits s) s p.threads)) [
        | inr (us, e') ↦
            let (x, q) = offer_received s p.threads us e' in
            let k = settle_waited p s (walk h s p.threads) us x (ap (offer s) w ∙ q) in
            rw (send_unopened p s o r c, k, e, e') (refl, refl)
        | inl e' ↦
            let k =
              settle_refused p s (walk h s p.threads)
                (ap (offer s) w ∙ offer_refused s p.threads e') in
            let q =
              notify_quiet (record p { threads = p.threads; pending = set_on p.pending s }) s
                (walk h s p.threads).effects o.no_stop in
            rw (send_unopened p s o r c, k, w, q, e, e') (refl, refl)
      ]
]
