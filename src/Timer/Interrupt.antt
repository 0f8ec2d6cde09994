-- ===== src/Timer/Interrupt.antt =====
-- `timer_isr` after `arm_for_next_target`: what fires, and when.
use astral.Base.{
  ℕ, suc, ◌+◌, ◌-◌, ◌*◌, ◌≤◌, ◌<◌, ◌≡◌, refl, ap, ◌∙◌, false, none, some, List, [], ◌∷◌, ◌++◌,
  long_max, add64, sub64, min, gtb_long, arith, length, append_assoc,
}
use astral.Timer.{
  Timer, Entry, finished, asserted, expire, check_and_arm, arm_for_next_target, next_target, isr,
  then_arm,
}
use astral.Timer.Order.{NotBefore, NotBefore-trans}
use astral.Timer.Check.{
  ValidQueue, IsValid, Room, due, due_once, length-due, timercheck_lem, expire_lem, requeued,
  requeued-ValidQueue, due-requeued, fire,
}

-- `timercheck` has enough fuel, and the timer is armed afterwards.
pub check_and_arm_lem :
    (t : Timer)
    → IsValid t
    → (q : List Entry) × (check_and_arm t
        ≡ finished (
            arm_for_next_target (record t {
              queue = q;
              fired = t.fired ++ due_once t.tickcurrent t.queue;
              dpcs = t.dpcs ++ due t.tickcurrent t.queue;
            })))
      × ValidQueue t.tickcurrent t.ticksperus q
      × NotBefore (t.tickcurrent + 1) q
unfolding check_and_arm
check_and_arm_lem t v =
    let (q, run, valid, after) =
      timercheck_lem (suc (length t.queue)) t v (omega (arith, length-due t.tickcurrent t.queue)) in
    (q, ap then_arm run, valid, after)

-- The tick at which a timer armed for the head of its queue stops.
abbrev pub stop_tick : Timer → Entry → ℕ
stop_tick t e = t.tickcurrent + min (e.absolutetick - t.tickcurrent) t.tick_limit

-- The timer `t` armed, with its queue written out.
abbrev pub ready : Timer → Entry → List Entry → Timer
ready t e q = arm_for_next_target (record t { queue = e ∷ q })

module _ (t : Timer) (e : Entry) (q : List Entry)
    (v : ValidQueue t.tickcurrent t.ticksperus (e ∷ q)) (limit : t.tick_limit < long_max)
    (room : Room (stop_tick t e) t.ticksperus (e ∷ q)) where
  at-le : stop_tick t e ≤ e.absolutetick
  at-le = omega (arith, v.not_overdue.0)

  valid_then : ValidQueue (stop_tick t e) t.ticksperus (e ∷ q)
  valid_then = record {
    rate_pos = v.rate_pos;
    sorted = v.sorted;
    in_range = v.in_range;
    not_overdue = (at-le, NotBefore-trans (stop_tick t e) e.absolutetick q at-le (v.sorted.0));
    distinct = v.distinct;
    room = room;
  }

  target_lem :
      next_target (record t { queue = e ∷ q }) ≡ min (e.absolutetick - t.tickcurrent) t.tick_limit
  target_lem = ground (arith, v.not_overdue.0, v.in_range.0)

  -- The head's expiry at that tick.
  abbrev stopped : Timer
  stopped = record t {
    tickcurrent = stop_tick t e;
    current_target = stop_tick t e;
    armed = min (e.absolutetick - t.tickcurrent) t.tick_limit;
    queue = e ∷ q;
  }

  armed_timer : Timer
  armed_timer = record stopped { tickcurrent = t.tickcurrent }

  arm_eq : ready t e q ≡ armed_timer
  unfolding arm_for_next_target armed_timer
  arm_eq =
      let at : add64 t.tickcurrent (min (e.absolutetick - t.tickcurrent) t.tick_limit)
          ≡ stop_tick t e =
        omega (arith, v.not_overdue.0, v.in_range.0) in
      rw (target_lem, at)

  isr_armed :
      (passed : ℕ)
      → gtb_long (sub64 (stop_tick t e) t.tickcurrent) passed ≡ false
      → isr armed_timer passed
        ≡ elim (expire stopped e q) [ none ↦ asserted | some t' ↦ check_and_arm t' ]
  unfolding isr armed_timer
  isr_armed passed h = rw h

  isr_eq :
      (passed : ℕ)
      → passed < long_max
      → min (e.absolutetick - t.tickcurrent) t.tick_limit ≤ passed
      → isr (ready t e q) passed
        ≡ check_and_arm (record (fire stopped e) { queue = requeued stopped e q })
  isr_eq passed small enough =
      ap (λ u. isr u passed) arm_eq
      ∙ isr_armed passed (ground (arith, v.not_overdue.0, v.in_range.0))
      ∙ rw (expire_lem stopped e q valid_then)

  -- A timer armed for the head of its queue and interrupted after that time takes the head off and
  -- enqueues its DPC, then those of the entries behind it that are due at the tick reached, and is
  -- valid again. The tick is that of the head's deadline, or of the limit if that comes first: the
  -- head expires in either case.
  isr_lem :
      (passed : ℕ)
      → passed < long_max
      → min (e.absolutetick - t.tickcurrent) t.tick_limit ≤ passed
      → (t' : Timer) × (isr (ready t e q) passed ≡ finished t')
        × (t'.tickcurrent ≡ stop_tick t e)
        × (t'.dpcs ≡ t.dpcs ++ e.id ∷ due (stop_tick t e) q)
        × IsValid t'
        × NotBefore (stop_tick t e + 1) t'.queue
  unfolding arm_for_next_target
  isr_lem passed small enough =
      let u : Timer = record (fire stopped e) { queue = requeued stopped e q } in
      let (q', run, valid, after) =
        check_and_arm_lem u (requeued-ValidQueue stopped e q valid_then) in
      (
        arm_for_next_target (record u {
          queue = q';
          fired = u.fired ++ due_once u.tickcurrent u.queue;
          dpcs = u.dpcs ++ due u.tickcurrent u.queue;
        }),
        isr_eq passed small enough ∙ run,
        refl,
        rw ((due-requeued stopped e q v.rate_pos).0)
            (append_assoc t.dpcs (e.id ∷ []) (due (stop_tick t e) q)),
        valid,
        after,
      )

none_due :
    (now : ℕ) (e : Entry) (q : List Entry)
    → now < e.absolutetick
    → NotBefore e.absolutetick q
    → due now q ≡ []
none_due now e [] lt n = refl
none_due now e (f ∷ q) lt n = ground arith

-- An entry due further off than the timer's limit expires when the limit passes, at a tick before
-- its deadline.
pub isr_early :
    (t : Timer) (e : Entry) (q : List Entry)
    → ValidQueue t.tickcurrent t.ticksperus (e ∷ q)
    → t.tick_limit < long_max
    → Room (stop_tick t e) t.ticksperus (e ∷ q)
    → t.tick_limit < e.absolutetick - t.tickcurrent
    → (t' : Timer) × (isr (ready t e q) t.tick_limit ≡ finished t')
      × (t'.tickcurrent < e.absolutetick)
      × (t'.dpcs ≡ t.dpcs ++ e.id ∷ [])
isr_early t e q v limit room far =
    let (t', run, at, fired, _, _) = isr_lem t e q v limit room t.tick_limit limit (omega arith) in
    (t', run, omega arith, fired ∙ rw (none_due (stop_tick t e) e q (omega arith) (v.sorted.0)))

no_repeat : (at period rate : ℕ) → period ≡ 0 → at < long_max → at + period * rate < long_max
no_repeat at period rate e h = rw e (grind arith)

-- Once the queue is empty the next interrupt of the timer fails its assertion, though the interrupt
-- that emptied it armed the timer again, for the limit.
isr_idle :
    (t : Timer) (e : Entry)
    → ValidQueue t.tickcurrent t.ticksperus (e ∷ [])
    → t.tick_limit < long_max
    → e.repeatus ≡ 0
    → (passed : ℕ) → passed < long_max
    → min (e.absolutetick - t.tickcurrent) t.tick_limit ≤ passed
    → (t' : Timer) × (isr (ready t e []) passed ≡ finished t')
      × (t'.queue ≡ [])
      × (t'.armed ≡ t.tick_limit)
      × ((later : ℕ) → isr t' later ≡ asserted)
unfolding check_and_arm isr
isr_idle t e v limit once passed small enough =
    let room : Room (stop_tick t e) t.ticksperus (e ∷ []) = (
      no_repeat (stop_tick t e) e.repeatus t.ticksperus once
          (omega (arith, v.not_overdue.0, v.in_range.0)),
      tt,
    ) in
    (
      record (fire (stopped t e [] v limit room) e) {
        queue = [];
        current_target = add64 (stop_tick t e) t.tick_limit;
        armed = t.tick_limit;
      },
      isr_eq t e [] v limit room passed small enough ∙ rw once,
      refl,
      refl,
      λ later. refl,
    )
