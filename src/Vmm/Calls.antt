-- ===== src/Vmm/Calls.antt =====
-- `vmm_map` and `vmm_fork`: what they do to the ranges of an address space.
use astral.Base.{
  ℕ, ◌+◌, ◌-◌, ◌%◌, Bool, not, ◌&&◌, ◌||◌, Option, none, some, List, [], ◌∷◌, ◌==◌, leb,
  if◌then◌else◌, add64, sub64, mul64, bit_at,
}
use astral.Vmm.{Range, Space, Inserted, getspace, getfreerange, insertrange}

abbrev pub page_size : ℕ
page_size = 4096

-- ROUND_DOWN and ROUND_UP to pages
abbrev pub round_down : ℕ → ℕ
round_down v = v - v % page_size

abbrev pub round_up : ℕ → ℕ
round_up v = round_down (sub64 (add64 v page_size) 1)

-- VMM_FLAGS_PAGESIZE, VMM_FLAGS_ALLOCATE, VMM_FLAGS_PHYSICAL, VMM_FLAGS_FILE, VMM_FLAGS_EXACT,
-- VMM_FLAGS_SHARED and VMM_FLAGS_REPLACE, by their bits
abbrev pub with_pagesize : ℕ → Bool
with_pagesize flags = bit_at flags 0

abbrev pub with_pages : ℕ → Bool
with_pages flags = bit_at flags 1 || bit_at flags 2

abbrev pub with_file : ℕ → Bool
with_file flags = bit_at flags 3

abbrev pub with_exact : ℕ → Bool
with_exact flags = bit_at flags 4

abbrev pub with_replace : ℕ → Bool
with_replace flags = bit_at flags 6

abbrev pub bit_value : ℕ → ℕ → ℕ → ℕ
bit_value flags k v = if bit_at flags k then v else 0

-- VMM_PERMANENT_FLAGS_MASK & flags
abbrev pub permanent : ℕ → ℕ
permanent flags = bit_value flags 2 4 + bit_value flags 3 8 + bit_value flags 5 32

-- The arguments of `vmm_map`; `file` and `offset` are those of the description behind `private`.
pub record Request : Type 0 where
  pub addr : ℕ
  pub size : ℕ
  pub flags : ℕ
  pub mmuflags : ℕ
  pub file : ℕ
  pub offset : ℕ

-- What the rest of the kernel does in a call: the slot that `allocrange` gives, whether every page of
-- VMM_FLAGS_PHYSICAL or VMM_FLAGS_ALLOCATE could be mapped, and the ranges that the two `changemap`
-- of VMM_FLAGS_REPLACE leave.
pub record Around : Type 0 where
  pub slot : Option Range
  pub pages_mapped : Bool
  pub replace : List Range → ℕ → ℕ → List Range

-- The fields of the new range.
abbrev pub range_at : Request → Range → ℕ → Range
range_at r slot start = record {
  start = start;
  size = r.size;
  flags = permanent r.flags;
  mmuflags = r.mmuflags;
  vnode = if with_file r.flags then r.file else slot.vnode;
  offset = if with_file r.flags then r.offset else slot.offset;
}

abbrev pub new_range : Request → Range → ℕ → Range
new_range r slot start = range_at r slot (if with_replace r.flags then r.addr else start)

abbrev pub replaced : Around → Request → List Range → List Range
replaced w r rs = if with_replace r.flags then w.replace rs r.addr r.size else rs

-- `vmm_map` from `allocrange` on, with a free range at `start`.
-- The call once it has a start; the assertions of `vmm_map` on the offset of a file and on VMM_FLAGS_REPLACE
-- are left out.
abbrev pub map_at : Around → Space → Request → ℕ → Option Range → Option ℕ × Space
map_at w space r start none = (none, space)
map_at w space r start (some slot) =
    let new = new_range r slot start in
    let rs = replaced w r space.ranges in
    if with_pages r.flags && not w.pages_mapped
    then (none, record space { ranges = rs })
    else (some new.start, record space { ranges = (insertrange rs new).chain })

abbrev pub map_found : Around → Space → Request → Option ℕ → Option ℕ × Space
map_found w space r none = (none, space)
map_found w space r (some start) =
    if with_exact r.flags && not (start == r.addr)
    then (none, space)
    else map_at w space r start w.slot

-- `vmm_map` under the space's mutex, of a rounded address and size.
unfoldable pub map_in : Around → Space → Request → Option ℕ × Space
map_in w space r = map_found w space r (getfreerange space r.addr r.size)

-- What `vmm_map` rounds its arguments to.
abbrev pub rounded : Request → Request
rounded r = record r {
  addr = round_down (if r.addr == 0 then 18446603336221196288 else r.addr);
  size = if with_pagesize r.flags then mul64 r.size page_size else round_up r.size;
}

abbrev pub map_space : Around → Request → Option Space → Option (Option ℕ × Space)
map_space w r none = none
map_space w r (some space) = some (map_in w space r)

-- `vmm_map`: the address and the space as it is left, or nothing where no space is touched.
unfoldable pub vmm_map : Around → Space → Space → Request → Option (Option ℕ × Space)
unfolding map_in getspace
vmm_map w user kernel r =
    let r' = rounded r in
    if r'.size == 0 then none else map_space w r' (getspace user kernel r'.addr)

-- The size that `newrange` has after `insertrange`: none if it was joined to another and given back.
abbrev pub size_in : List Range → ℕ → ℕ
size_in [] start = 0
size_in (r ∷ rs) start = if r.start == start then r.size else size_in rs start

abbrev pub size_left : Range → Inserted → ℕ
size_left new i = if leb 1 (size_in i.dropped new.start) then 0 else size_in i.chain new.start

-- The loop of `vmm_fork` over the ranges, where every allocation is given: the child's ranges, and
-- the addresses and sizes of what it copies the pages of.
pub record Forked : Type 0 where
  pub chain : List Range
  pub copied : List (ℕ × ℕ)

unfoldable pub fork_loop : List Range → List Range → Forked
unfolding insertrange
fork_loop [] acc = record { chain = acc; copied = [] }
fork_loop (r ∷ rs) acc =
    let i = insertrange acc r in
    let rest = fork_loop rs i.chain in
    record { chain = rest.chain; copied = (r.start, size_left r i) ∷ rest.copied }
