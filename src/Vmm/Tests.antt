-- ===== src/Vmm/Tests.antt =====
-- Address spaces with a few ranges.
use astral.Base.{
  ℕ, zero, suc, ◌==◌, ◌⊎◌, false, ◌≡◌, true, none, some, [], ◌∷◌, refl, inl, inr, arith,
  if◌then◌else◌, ◌≤◌,
}
use astral.Vmm.{Range, Space, getfreerange, insertrange, contains, userspace_end}
use astral.Vmm.Pool.{SlotPage, allocrange}
use astral.Vmm.Pool.Slots.{IsCounted}
use astral.Vmm.Pool.Alloc.{Outcome, allocrange-Outcome}
use astral.Vmm.Valid.{IsSpace}
use astral.Vmm.Free.{IsGap, getfreerange_first}
use astral.Vmm.View.{view, mapping_of}
use astral.Vmm.Insert.{insertrange-view}
use astral.Vmm.Calls.{Request, Around, map_in, fork_loop}
use astral.Vmm.Map.{IsGrown, map_in-IsGrown}
use astral.Vmm.Fork.{fork_loop-view}

abbrev anonymous : ℕ → ℕ → ℕ → Range
anonymous start size mmuflags = record {
  start = start;
  size = size;
  flags = 0;
  mmuflags = mmuflags;
  vnode = 0;
  offset = 0;
}

-- Two ranges with a page between them.
abbrev two_ranges : Space
two_ranges = record {
  ranges = anonymous 4096 4096 3 ∷ anonymous 12288 8192 3 ∷ [];
  start = 4096;
  end = userspace_end;
}

two_ranges-IsSpace : IsSpace two_ranges
two_ranges-IsSpace = record {
  sorted = (omega arith, (omega arith, omega arith), (omega arith, (omega arith, omega arith), tt));
  bounded = omega arith;
}

gap_8192 : getfreerange two_ranges 4096 4096 ≡ some 8192
unfolding getfreerange
gap_8192 = refl

between-IsGap : IsGap userspace_end two_ranges.ranges 4096 4096 8192
between-IsGap = (omega arith, omega arith, (inr (omega arith), (inl (omega arith), tt)))

getfreerange_first_example : (b : ℕ) × ((getfreerange two_ranges 4096 4096 ≡ some b) × (b ≤ 8192))
getfreerange_first_example =
    getfreerange_first two_ranges 4096 4096 8192 two_ranges-IsSpace (omega arith, omega arith)
      (omega arith) between-IsGap

-- The page between them, which joins both.
abbrev page_between : Range
page_between = anonymous 8192 4096 3

joined_three : (insertrange two_ranges.ranges page_between).chain ≡ (anonymous 4096 16384 3 ∷ [])
unfolding insertrange
joined_three = refl

insertrange-view_example : view (insertrange two_ranges.ranges page_between).chain 9000 ≡ (
    if contains page_between 9000
    then some (mapping_of page_between 9000)
    else view two_ranges.ranges 9000)
insertrange-view_example =
    insertrange-view two_ranges page_between 9000 two_ranges-IsSpace (omega arith)
      (omega arith, omega arith) (inr (omega arith), (inl (omega arith), tt))

-- A page of a file, at 8192 if it is free.
abbrev file_request : Request
file_request = record { addr = 8192; size = 4096; flags = 24; mmuflags = 1; file = 7; offset = 0 }

abbrev quiet : Around
quiet = record { slot = some (anonymous 0 0 0); pages_mapped = true; replace = λ rs a n. rs }

abbrev with_page : Space
with_page = (map_in quiet two_ranges file_request).1

mapped_8192 : map_in quiet two_ranges file_request ≡ (some 8192, with_page)
unfolding map_in getfreerange
mapped_8192 = refl

map_in-IsGrown_example : IsGrown two_ranges with_page file_request 8192
map_in-IsGrown_example =
    map_in-IsGrown quiet two_ranges with_page file_request 8192 two_ranges-IsSpace
      (omega arith, omega arith) (omega arith) (inr (omega arith)) refl mapped_8192

-- Another page at an address that is taken.
abbrev taken_request : Request
taken_request = record file_request { addr = 4096 }

refused_4096 : map_in quiet two_ranges taken_request ≡ (none, two_ranges)
unfolding map_in getfreerange
refused_4096 = refl

fork_loop-view_example :
    view (fork_loop two_ranges.ranges []).chain 4100 ≡ view two_ranges.ranges 4100
fork_loop-view_example = fork_loop-view two_ranges 4100 two_ranges-IsSpace (omega arith)

-- Two neighbours with the same flags, as a change of protection and back leaves them: the second is
-- joined to the first, and none of its pages are copied.
neighbours :
    (fork_loop (anonymous 4096 4096 3 ∷ anonymous 8192 4096 3 ∷ []) []).copied
    ≡ ((4096, 4096) ∷ (8192, 0) ∷ [])
unfolding fork_loop
neighbours = refl

-- A page of three slots with one of them left.
abbrev one_left : SlotPage
one_left = record { freecount = 1; firstfree = 1; sizes = λ i. if i == 2 then 0 else 4096 }

one_left-IsCounted : IsCounted 3 one_left
one_left-IsCounted = record { counted = refl; lowest = λ i. lowest_left i }
  where
    lowest_left : (i : ℕ) → (3 ≤ i) ⊎ ((((if i == 2 then 0 else 4096) == 0) ≡ false) ⊎ (1 ≤ i))
    lowest_left zero = inr (inl refl)
    lowest_left (suc i) = inr (inr (omega arith))

allocrange-Outcome_example : Outcome 3 false (one_left ∷ []) (allocrange 3 false (one_left ∷ []))
allocrange-Outcome_example =
    allocrange-Outcome 3 false (one_left ∷ []) (omega arith) (omega arith) (one_left-IsCounted, tt)
      (λ e. absurd (cc))
