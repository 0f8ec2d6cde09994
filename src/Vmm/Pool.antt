-- ===== src/Vmm/Pool.antt =====
-- The slots that ranges are kept in: `newcache`, `allocrange` and `freerange` of kernel-src/mm/vmm.c. A
-- page of slots has `n` of them (VMM_RANGES_PER_CACHE), by their numbers.
pub mod Slots
pub mod Pages
pub mod Alloc
use astral.Base.{
  ℕ, zero, suc, ◌+◌, ◌-◌, Bool, true, false, Option, none, some, List, [], ◌∷◌, ◌==◌, ltb,
  if◌then◌else◌, add64, sub64, word_mod,
}

-- `vmmcache_t`: its header, without the link, and the sizes of its ranges; a slot with size 0 is free.
pub record SlotPage : Type 0 where
  pub freecount : ℕ
  pub firstfree : ℕ
  pub sizes : ℕ → ℕ

-- `newcache`, when there is a page for it
abbrev pub newcache : ℕ → SlotPage
newcache n = record { freecount = n; firstfree = 0; sizes = λ i. 0 }

-- The loop of `getentrynumber`; nothing where its assertion fails.
abbrev pub find_slot : ℕ → (ℕ → ℕ) → ℕ → Option ℕ
find_slot zero sizes i = none
find_slot (suc left) sizes i =
    let rest = find_slot left sizes (i + 1) in if sizes i == 0 then some i else rest

-- `getentrynumber`
abbrev pub getentrynumber : ℕ → SlotPage → Option ℕ
getentrynumber n c = find_slot (n - c.firstfree) c.sizes c.firstfree

abbrev pub set_size : SlotPage → ℕ → ℕ → ℕ → ℕ
set_size c r size i = if r == i then size else c.sizes i

-- A slot taken from a page: its size is -1 for the time being.
abbrev pub taken_slot : SlotPage → ℕ → SlotPage
taken_slot c r = record {
  freecount = sub64 c.freecount 1;
  firstfree = add64 r 1;
  sizes = set_size c r (word_mod - 1);
}

-- `allocrange`: the number of the page and of the slot, nothing for want of memory, or a failed
-- assertion; with the pages of `cachelist`.
pub data Slot : Type 0 where
  slot : ℕ → ℕ → List SlotPage → Slot
  no_memory : List SlotPage → Slot
  broken : Slot

abbrev pub slot_of : SlotPage → List SlotPage → Option ℕ → Slot
slot_of c cs none = broken
slot_of c cs (some r) = slot 0 r (taken_slot c r ∷ cs)

-- What is found behind a page that is full.
abbrev pub behind : SlotPage → Slot → Slot
behind c (slot k r cs) = slot (suc k) r (c ∷ cs)
behind c (no_memory cs) = no_memory (c ∷ cs)
behind c broken = broken

-- The page that is added at the end, if there is memory for it.
abbrev pub added : ℕ → Bool → Slot
added n true = slot_of (newcache n) [] (getentrynumber n (newcache n))
added n false = no_memory []

unfoldable pub allocrange : ℕ → Bool → List SlotPage → Slot
allocrange n memory [] = no_memory []
allocrange n memory (c ∷ []) =
    if ltb 0 c.freecount then slot_of c [] (getentrynumber n c) else behind c (added n memory)
allocrange n memory (c ∷ d ∷ cs) =
    let rest = allocrange n memory (d ∷ cs) in
    if ltb 0 c.freecount then slot_of c (d ∷ cs) (getentrynumber n c) else behind c rest

-- `freerange` on the page of the range
unfoldable pub freerange : SlotPage → ℕ → SlotPage
freerange c r = record {
  freecount = add64 c.freecount 1;
  firstfree = if ltb r c.firstfree then r else c.firstfree;
  sizes = set_size c r 0;
}
