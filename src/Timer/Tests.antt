-- ===== src/Timer/Tests.antt =====
-- Runs of the timer, and its theorems at concrete timers.
use astral.Base.{◌≡◌, refl, true, false, some, List, [], ◌∷◌, arith, ◌+◌}
use mathlib.Core.List.{Perm}
use astral.Timer.{
  Timer, Entry, insert_entry, insert_after, insert, expire, timercheck, timer_remove, take_out,
  finished,
}
use astral.Timer.Order.{Sorted, NotBefore, insert_entry-Sorted}
use astral.Timer.Check.{ValidQueue, IsValid, timercheck_lem}

abbrev now : Entry
now = record { id = 1; absolutetick = 100; repeatus = 5 }

abbrev once : Entry
once = record { id = 2; absolutetick = 100; repeatus = 0 }

abbrev later : Entry
later = record { id = 3; absolutetick = 900; repeatus = 0 }

abbrev timer : Timer
timer = record {
  tick_limit = 500;
  ticksperus = 10;
  tickcurrent = 100;
  current_target = 0;
  running = true;
  queue = now ∷ once ∷ later ∷ [];
  armed = 0;
  fired = [];
  dpcs = [];
}

timer-IsValid : IsValid timer
timer-IsValid = record {
  rate_pos = omega arith;
  sorted = omega arith;
  in_range = omega arith;
  not_overdue = omega arith;
  distinct = omega arith;
  room = omega arith;
}

later-Valid : ValidQueue 100 10 (later ∷ [])
later-Valid = record {
  rate_pos = omega arith;
  sorted = omega arith;
  in_range = omega arith;
  not_overdue = omega arith;
  distinct = omega arith;
  room = omega arith;
}

-- 5 ticks short of a whole microsecond the time remaining is rounded up.
remaining : (timer_remove (record timer { tickcurrent = 105; running = false }) 0 3).1 ≡ 80
unfolding timer_remove take_out
remaining = refl

expire_two :
    timercheck 4 timer
    ≡ finished (record timer {
      queue = record now { absolutetick = 150 } ∷ later ∷ [];
      fired = 2 ∷ [];
      dpcs = 1 ∷ 2 ∷ [];
    })
unfolding timercheck expire insert insert_entry insert_after
expire_two = refl

insert_entry-Sorted_example :
    (q' : List Entry) × (insert_entry (once ∷ later ∷ []) (record now { absolutetick = 100 })
      ≡ some q')
    × Sorted q'
    × Perm q' (now ∷ once ∷ later ∷ [])
insert_entry-Sorted_example =
    insert_entry-Sorted (once ∷ later ∷ []) now (omega arith) (omega arith) (omega arith)
      (omega arith)

timercheck_lem_example :
    (q : List Entry) × (timercheck 4 timer
      ≡ finished (record timer { queue = q; fired = 2 ∷ []; dpcs = 1 ∷ 2 ∷ [] }))
    × ValidQueue 100 10 q
    × NotBefore (100 + 1) q
timercheck_lem_example = timercheck_lem 4 timer timer-IsValid (omega arith)
