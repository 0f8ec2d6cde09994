-- ===== src/Semaphore/Tests.antt =====
-- A semaphore on which the threads 4 and 5 wait: runs of the operations, and the properties at work.
use astral.Base.{ℕ, ◌≡◌, refl, inl, Option, none, some, [], ◌∷◌, true, false}
use astral.Base.Int.{ℤ, pos, ◌+ℤ◌}
use astral.Semaphore.{
  Semaphore, insert, wait, signal, signal_limit, test, woken, removeself, unlink_prev, unlink_next,
  reset, haswaiters,
}
use astral.Semaphore.Wakeups.{IsValid, wait-IsValid, signal-IsValid}

-- SEMAPHORE_INIT with a count of `j`.
abbrev start : ℤ → Semaphore
start j = record { i = j; head = none; tail = none; sleepnext = λ t. none; sleepprev = λ t. none }

start-IsValid : (n : ℕ) → IsValid (start (pos n)) []
start-IsValid n = record {
  links = record { at_head = refl; at_tail = refl; at_next = λ t. inl tt; at_prev = λ t. inl tt };
  distinct = tt;
  counted = refl;
}

abbrev one : Semaphore
one = (wait (start (pos 0)) 4).1

abbrev both : Semaphore
both = (wait one 5).1

one-IsValid : IsValid one (4 ∷ [])
one-IsValid = (wait-IsValid 4 (start-IsValid 0) tt).2

both-IsValid : IsValid both (5 ∷ 4 ∷ [])
unfolding wait insert ◌+ℤ◌
both-IsValid = (wait-IsValid 5 one-IsValid (refl, tt)).2

start_run : test (start (pos 2)) ≡ (true, start (pos 1))
unfolding test ◌+ℤ◌
start_run = refl

has_both : haswaiters both ≡ true
unfolding haswaiters wait insert ◌+ℤ◌
has_both = refl

refused_run : reset both ≡ none
unfolding reset wait insert ◌+ℤ◌
refused_run = refl

limit_start : signal_limit (start (pos 2)) (pos 2) ≡ some (false, none, start (pos 2))
unfolding signal_limit
limit_start = refl

-- The thread 5, interrupted, takes itself off the list.
interrupted : Option (Option ℕ)
interrupted = elim (woken both 5 4) [ none ↦ none | some (r, s) ↦ some s.head ]

interrupted_lem : interrupted ≡ some (some 4)
unfolding interrupted woken removeself unlink_prev unlink_next wait insert ◌+ℤ◌
interrupted_lem = refl

signal-IsValid_example :
    (s' : Semaphore) × (signal both ≡ some (some 4, s'))
    × (s'.i ≡ both.i +ℤ pos 1)
    × IsValid s' (5 ∷ [])
signal-IsValid_example = signal-IsValid (5 ∷ []) 4 both-IsValid
