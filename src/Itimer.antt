-- ===== src/Itimer.antt =====
-- The interval timers of kernel-src/sys/itimer.c and kernel-src/include/kernel/itimer.h, over the timer
-- of the processor that they run on. What the hardware's `stop` returned is an argument.
mod Tests
use astral.Base.{
  ℕ, Bool, true, false, not, ◌&&◌, Option, none, some, ◌==◌, if◌then◌else◌, ◌≡◌, ◌≢◌, refl, inl,
  inr, Bool-cases,
}
use astral.Timer.{Timer, Run, finished, asserted, timer_insert, timer_remove}

-- `itimer_t`; `entry` is the address of its timer entry and `cpu` a processor's number.
pub record Itimer : Type 0 where
  pub entry : ℕ
  pub cpu : Option ℕ
  pub remainingus : ℕ
  pub repeatus : ℕ
  pub paused : Bool

-- `itimer_dpc`: the timer afterwards, and whether the function was called.
unfoldable pub itimer_dpc : Itimer → Timer → ℕ → Itimer × Run × Bool
itimer_dpc it t passed = if it.paused then (it, finished t, false) else (
  record it { remainingus = it.repeatus; paused = it.repeatus == 0 },
  if it.repeatus == 0 then finished t else timer_insert t passed it.entry it.repeatus false,
  true,
)

-- `itimer_init`
unfoldable pub itimer_init : ℕ → Itimer
itimer_init entry = record {
  entry = entry;
  cpu = none;
  remainingus = 0;
  repeatus = 0;
  paused = true;
}

-- `itimer_pause`, from where its loop has brought the thread to the timer's processor.
unfoldable pub itimer_pause : Itimer → Timer → ℕ → Itimer × Run
itimer_pause it t passed =
    if it.paused
    then (it, finished t)
    else let (run, left) = timer_remove t passed it.entry in
      (record it { cpu = none; remainingus = if left == 0 then 1 else left; paused = true }, run)

-- `itimer_set`
unfoldable pub itimer_set : Itimer → ℕ → ℕ → Itimer
itimer_set it timerus repeatus = record it { remainingus = timerus; repeatus = repeatus }

-- `itimer_resume` on the processor `cpu`.
unfoldable pub itimer_resume : Itimer → Timer → ℕ → ℕ → Itimer × Run
itimer_resume it t passed cpu =
    if it.paused && not (it.remainingus == 0)
    then (
      record it { cpu = some cpu; paused = false },
      timer_insert t passed it.entry it.remainingus false,
    )
    else (it, asserted)

pause_running :
    (it : Itimer) (t : Timer) (passed : ℕ)
    → it.paused ≡ false
    → itimer_pause it t passed ≡ (
        let (run, left) = timer_remove t passed it.entry in
        (record it { cpu = none; remainingus = if left == 0 then 1 else left; paused = true }, run))
unfolding itimer_pause
pause_running it t passed h = rw h refl

-- An interval timer that runs can be resumed after it is paused, whatever time was left of it: the
-- assertion holds, and it goes into the timer of the processor with the time that was left, or with
-- one microsecond if it had fired.
pub resume-pause :
    (it : Itimer) (t t' : Timer) (passed later cpu : ℕ)
    → it.paused ≡ false
    → let left = (timer_remove t passed it.entry).1 in
      itimer_resume (itimer_pause it t passed).0 t' later cpu ≡ (
        record it { cpu = some cpu; remainingus = if left == 0 then 1 else left; paused = false },
        timer_insert t' later it.entry (if left == 0 then 1 else left) false,
      )
unfolding itimer_resume
resume-pause it t t' passed later cpu h =
    let left = (timer_remove t passed it.entry).1 in
    rw (pause_running it t passed h, itimer_resume)
      (elim (Bool-cases (left == 0)) [ inl z ↦ rw z refl | inr n ↦ rw n (rw n refl) ])
