-- ===== src/Vmm.antt =====
-- The ranges of an address space: kernel-src/mm/vmm.c. A space's ranges are the list from
-- `space->ranges` on along `next`; an address, a file and a set of flags are numbers.
pub mod Valid
pub mod Free
pub mod View
pub mod Pool
pub mod Insert
pub mod Calls
pub mod Map
pub mod Fork
mod Tests
use astral.Base.{
  ℕ, zero, suc, ◌+◌, ◌-◌, ◌*◌, Bool, true, false, not, ◌&&◌, ◌||◌, Option, none, some, List, [],
  ◌∷◌, ◌==◌, ltb, leb, if◌then◌else◌, add64, sub64, bit_at,
}

-- `vmmrange_t`, without its links
pub record Range : Type 0 where
  pub start : ℕ
  pub size : ℕ
  pub flags : ℕ
  pub mmuflags : ℕ
  pub vnode : ℕ
  pub offset : ℕ

-- `vmmspace_t`, without its mutex
pub record Space : Type 0 where
  pub ranges : List Range
  pub start : ℕ
  pub end : ℕ

-- USERSPACE_START, USERSPACE_END, KERNELSPACE_START and KERNELSPACE_END
abbrev pub userspace_start : ℕ
userspace_start = 4096

abbrev pub userspace_end : ℕ
userspace_end = 140737488355328

abbrev pub kernelspace_start : ℕ
kernelspace_start = 18446603336221196288

abbrev pub kernelspace_end : ℕ
kernelspace_end = 18446744073709551615

-- RANGE_TOP
abbrev pub range_top : Range → ℕ
range_top r = add64 r.start r.size

-- VMM_FLAGS_FILE
abbrev pub is_file : Range → Bool
is_file r = bit_at r.flags 3

abbrev pub contains : Range → ℕ → Bool
contains r addr = leb r.start addr && ltb addr (range_top r)

-- `getrange`
unfoldable pub getrange : List Range → ℕ → Option Range
getrange [] addr = none
getrange (r ∷ rs) addr = if contains r addr then some r else getrange rs addr

-- `getspace`: the user space of the context or the kernel's.
unfoldable pub getspace : Space → Space → ℕ → Option Space
getspace user kernel vaddr =
    if leb userspace_start vaddr && ltb vaddr userspace_end
    then some user
    else if leb kernelspace_start vaddr && ltb vaddr kernelspace_end
    then some kernel
    else none

abbrev pub max_addr : ℕ → ℕ → ℕ
max_addr addr top = if ltb addr top then top else addr

-- The loop of `getfreerange` at a range, and what follows it.
unfoldable pub find_gap : ℕ → List Range → Range → ℕ → ℕ → Option ℕ
find_gap end [] range addr size =
    let addr' = max_addr addr (range_top range) in
    if not (addr' == end) && leb size (sub64 end addr') then some addr' else none
find_gap end (n ∷ rs) range addr size =
    let addr' = max_addr addr (range_top range) in
    let rest = find_gap end rs n addr' size in
    if ltb addr' n.start && leb size (n.start - addr') then some addr' else rest

-- Where a search starts; an address of 0 is NULL.
abbrev pub from_hint : Space → ℕ → ℕ
from_hint space hint = if hint == 0 then space.start else hint

abbrev pub find_free : Space → List Range → ℕ → ℕ → Option ℕ
find_free space [] addr size = some addr
find_free space (range ∷ rs) addr size =
    if not (range.start == space.start) && (ltb addr range.start && leb size (range.start - addr))
    then some addr
    else find_gap space.end rs range addr size

-- `getfreerange`
unfoldable pub getfreerange : Space → ℕ → ℕ → Option ℕ
unfolding find_gap
getfreerange space hint size = find_free space space.ranges (from_hint space hint) size

-- The conditions on which `insertrange` joins a range to the one before it.
abbrev pub joins : Range → Range → Bool
joins r n =
    range_top r == n.start
    && (r.flags == n.flags
        && (r.mmuflags == n.mmuflags
            && (not (is_file r) || (r.vnode == n.vnode && add64 r.offset r.size == n.offset))))

abbrev pub joined : Range → Range → Range
joined r n = record r { size = add64 r.size n.size }

-- What `insertrange` leaves: the chain, and the ranges that it gave to `freerange`, for each of which
-- it also released the vnode when it is a file's.
pub record Inserted : Type 0 where
  pub chain : List Range
  pub dropped : List Range

-- The joins at `fragcheck`, with the next range and then with the previous.
abbrev pub join_next : Range → List Range → Inserted
join_next new [] = record { chain = new ∷ []; dropped = [] }
join_next new (n ∷ rs) =
    if joins new n
    then record { chain = joined new n ∷ rs; dropped = n ∷ [] }
    else record { chain = new ∷ n ∷ rs; dropped = [] }

abbrev pub join_chain : Range → List Range → List Range → Inserted
join_chain prev [] d = record { chain = prev ∷ []; dropped = d }
join_chain prev (new ∷ rs) d =
    if joins prev new
    then record { chain = joined prev new ∷ rs; dropped = new ∷ d }
    else record { chain = prev ∷ new ∷ rs; dropped = d }

abbrev pub join_prev : Range → Inserted → Inserted
join_prev prev i = join_chain prev i.chain i.dropped

abbrev pub after : Range → Inserted → Inserted
after range i = record i { chain = range ∷ i.chain }

-- The loop of `insertrange` at a range.
unfoldable pub insert_after : Range → Range → List Range → Inserted
insert_after new range [] = join_prev range (join_next new [])
insert_after new range (n ∷ rs) =
    let rest = insert_after new n rs in
    if leb (range_top range) new.start && ltb new.start n.start
    then join_prev range (join_next new (n ∷ rs))
    else after range rest

-- `insertrange`
unfoldable pub insertrange : List Range → Range → Inserted
unfolding insert_after
insertrange [] new = record { chain = new ∷ []; dropped = [] }
insertrange (range ∷ rs) new =
    if leb (range_top new) range.start
    then join_next new (range ∷ rs)
    else insert_after new range rs
