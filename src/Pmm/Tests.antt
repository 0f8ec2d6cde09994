-- ===== src/Pmm/Tests.antt =====
-- Concrete states of the page allocator.
use astral.Base.{◌≡◌, false, true, none, some, refl, inr, arith}
use astral.Pmm.Alloc.{Outcome, allocpage-Outcome}
use astral.Pmm.Run.{RunOutcome, alloc_run-RunOutcome}
use astral.Pmm.{
  Pmm, Taken, fresh, nothing, broken, torn, cached, stale, allocpage, no_pages, free_pages, hold,
  give_up, alloc_run,
}
use astral.Pmm.Lists.{IsValid, Unlisted, taken_out, taken_out-IsValid}
use astral.Pmm.Boot.{IsPendingRun, no_pages-IsValid, free_pages-IsValid, hold-give_up}
use astral.Pmm.Reach.{System, mark}

abbrev state_of : Taken → Pmm
state_of (fresh page m) = m
state_of (cached page m) = m
state_of nothing = no_pages 0
state_of broken = no_pages 0
state_of torn = no_pages 0

-- Pages 300 and 301 of 400 are free.
abbrev two_pages : Pmm
two_pages = free_pages (no_pages 400) 300 2

pending_two : IsPendingRun (no_pages 400) 300 2
unfolding no_pages
pending_two k = inr (λ s b. refl, refl, refl, refl)

two_pages-IsValid : IsValid two_pages
two_pages-IsValid = free_pages-IsValid (no_pages 400) 300 2 (no_pages-IsValid 400) pending_two

abbrev idle : System
idle = record { pmm = two_pages; between = λ q. false }

-- A thread has taken page 301 off its list, and another one page 300, before either of them allocates.
abbrev one_away : System
one_away = mark idle (state_of (allocpage two_pages 2)) 301 true

abbrev both_away : System
both_away = mark one_away (state_of (allocpage one_away.pmm 2)) 300 true

allocpage-Outcome_example : Outcome two_pages 2 (allocpage two_pages 2)
allocpage-Outcome_example = allocpage-Outcome 2 two_pages-IsValid

alloc_run-RunOutcome_example : RunOutcome two_pages 2 (alloc_run two_pages 2 2)
alloc_run-RunOutcome_example = alloc_run-RunOutcome 2 2 two_pages-IsValid (omega arith)

-- Page 301 has one user.
abbrev one_used : Pmm
one_used =
    taken_out two_pages 301
      (record { backing = none; refcount = 1; is_free = false; is_dirty = false })

hold-give_up_example :
    (m' : Pmm) × ((give_up one_used 301 ≡ some (m', true))
      × (Unlisted m' 301 × (hold m' 301 ≡ stale)))
hold-give_up_example = hold-give_up 301 (taken_out-IsValid 301 _ two_pages-IsValid refl) refl refl
