-- ===== src/Itimer/Tests.antt =====
-- An interval timer with five microseconds left, paused and resumed.
use astral.Base.{◌≡◌, some, [], ◌∷◌, true, false, refl}
use astral.Timer.{Timer, timer_remove, take_out, asserted}
use astral.Itimer.{Itimer, itimer_init, itimer_set, itimer_dpc, itimer_resume}

abbrev clock : Timer
clock = record {
  tick_limit = 1000;
  ticksperus = 2;
  tickcurrent = 100;
  current_target = 110;
  running = true;
  queue = record { id = 1; absolutetick = 110; repeatus = 0 } ∷ [];
  armed = 10;
  fired = [];
  dpcs = [];
}

abbrev running_timer : Itimer
running_timer = record { entry = 1; cpu = some 0; remainingus = 5; repeatus = 0; paused = false }

left_run : (timer_remove clock 4 1).1 ≡ 3
unfolding timer_remove take_out
left_run = refl

dpc_run :
    (itimer_dpc running_timer clock 0).0 ≡ record running_timer { remainingus = 0; paused = true }
unfolding itimer_dpc
dpc_run = refl

set_run : itimer_set (itimer_init 1) 7 9 ≡ record (itimer_init 1) { remainingus = 7; repeatus = 9 }
unfolding itimer_set itimer_init
set_run = refl

unset_run : (itimer_resume (itimer_init 1) clock 0 0).1 ≡ asserted
unfolding itimer_resume itimer_init
unset_run = refl
