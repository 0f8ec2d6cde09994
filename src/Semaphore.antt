-- ===== src/Semaphore.antt =====
-- The counting semaphore of kernel-src/lib/semaphore.c and kernel-src/include/semaphore.h, with its
-- list of sleeping threads linked through the threads. A thread is its address.
pub mod Queue
pub mod Wakeups
mod Tests
use astral.Base.{ℕ, Bool, true, false, not, ◌&&◌, ◌||◌, Option, none, some, ◌==◌, if◌then◌else◌}
use astral.Base.Int.{ℤ, pos, negsuc, ◌+ℤ◌, ltb_ℤ}

-- `semaphore_t`, and the fields `sleepnext` and `sleepprev` of every thread.
pub record Semaphore : Type 0 where
  pub i : ℤ
  pub head : Option ℕ
  pub tail : Option ℕ
  pub sleepnext : ℕ → Option ℕ
  pub sleepprev : ℕ → Option ℕ

abbrev pub set_next : Semaphore → ℕ → Option ℕ → Semaphore
set_next s t o = record s { sleepnext = λ u. if t == u then o else s.sleepnext u }

abbrev pub set_prev : Semaphore → ℕ → Option ℕ → Semaphore
set_prev s t o = record s { sleepprev = λ u. if t == u then o else s.sleepprev u }

abbrev pub is_none : Option ℕ → Bool
is_none none = true
is_none (some t) = false

abbrev pub is_thread : Option ℕ → ℕ → Bool
is_thread none t = false
is_thread (some u) t = u == t

-- `insert`
unfoldable pub insert : Semaphore → ℕ → Semaphore
insert s t =
    let s₁ = set_prev (set_next s t s.head) t none in
    let s₂ = record s₁ { head = some t; tail = if is_none s.tail then some t else s.tail } in
    elim (s.head) [ none ↦ s₂ | some u ↦ set_prev s₂ u (some t) ]

-- The end of `get`.
abbrev pub detach : Semaphore → ℕ → Semaphore
detach s t = set_next (set_prev s t none) t none

-- `get`
unfoldable pub get : Semaphore → Option ℕ × Semaphore
get s = elim (s.tail) [
  | none ↦ (none, s)
  | some t ↦ elim (s.sleepprev t) [
    | none ↦ (some t, detach (record s { tail = none; head = none }) t)
    | some u ↦ (some t, detach (set_next (record s { tail = some u }) u none) t)
  ]
]

-- The condition under which `removeself` finds the thread gone already.
abbrev pub is_gone : Semaphore → ℕ → Bool
is_gone s t =
    (is_none s.head && is_none s.tail)
    || not (
        (not (is_none (s.sleepnext t)) || not (is_none (s.sleepprev t)))
        || (is_thread s.head t && is_thread s.tail t))

-- The two stores of `removeself` that close the gap; `none` where a null pointer would be followed.
unfoldable pub unlink_prev : Semaphore → ℕ → Option Semaphore
unlink_prev s t =
    if is_thread s.head t
    then some (record s { head = s.sleepnext t })
    else elim (s.sleepprev t) [ none ↦ none | some u ↦ some (set_next s u (s.sleepnext t)) ]

unfoldable pub unlink_next : Semaphore → ℕ → Option Semaphore
unlink_next s t =
    if is_thread s.tail t
    then some (record s { tail = s.sleepprev t })
    else elim (s.sleepnext t) [ none ↦ none | some u ↦ some (set_prev s u (s.sleepprev t)) ]

-- `removeself`; whether the thread was in the list.
unfoldable pub removeself : Semaphore → ℕ → Option (Bool × Semaphore)
unfolding unlink_prev unlink_next
removeself s t = if is_gone s t then some (false, s) else elim (unlink_prev s t) [
  | none ↦ none
  | some s₁ ↦ elim (unlink_next s₁ t) [ none ↦ none | some s₂ ↦ some (true, detach s₂ t) ]
]

abbrev pub is_negative : ℤ → Bool
is_negative (pos n) = false
is_negative (negsuc n) = true

abbrev pub is_positive : ℤ → Bool
is_positive (pos n) = not (n == 0)
is_positive (negsuc n) = false

-- `semaphore_wait` up to its sleep: whether the thread sleeps.
unfoldable pub wait : Semaphore → ℕ → Bool × Semaphore
unfolding insert
wait s t =
    let s₁ = record s { i = s.i +ℤ negsuc 0 } in
    if is_negative s₁.i then (true, insert s₁ t) else (false, s₁)

-- `semaphore_wait` after a sleep that `ret` ended: what it returns.
unfoldable pub woken : Semaphore → ℕ → ℕ → Option (ℕ × Semaphore)
unfolding removeself
woken s t ret = if ret == 0 then some (0, s) else elim (removeself s t) [
  | none ↦ none
  | some (true, s₁) ↦ some (ret, record s₁ { i = s₁.i +ℤ pos 1 })
  | some (false, s₁) ↦ some (0, s₁)
]

-- `semaphore_signal`: the thread woken, or nothing where the assertion fails.
unfoldable pub signal : Semaphore → Option (Option ℕ × Semaphore)
unfolding get
signal s =
    let s₁ = record s { i = s.i +ℤ pos 1 } in
    if is_positive s₁.i
    then some (none, s₁)
    else elim ((get s₁).0) [ none ↦ none | some t ↦ some (some t, (get s₁).1) ]

-- `semaphore_signal_limit`: whether it signalled, and the thread woken.
unfoldable pub signal_limit : Semaphore → ℤ → Option (Bool × Option ℕ × Semaphore)
unfolding signal
signal_limit s limit =
    if ltb_ℤ s.i limit
    then elim (signal s) [ none ↦ none | some (o, s') ↦ some (true, o, s') ]
    else some (false, none, s)

-- `semaphore_test`
unfoldable pub test : Semaphore → Bool × Semaphore
test s = if is_positive s.i then (true, record s { i = s.i +ℤ negsuc 0 }) else (false, s)

-- `semaphore_haswaiters`
unfoldable pub haswaiters : Semaphore → Bool
haswaiters s = not (is_none s.head)

-- `semaphore_reset`
unfoldable pub reset : Semaphore → Option Semaphore
reset s = if is_none s.head then some (record s { i = pos 0 }) else none
