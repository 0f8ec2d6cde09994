-- ===== src/Vmm/Valid.antt =====
-- Address spaces whose ranges are in order and apart.
use astral.Base.{ℕ, ◌+◌, ◌≤◌, ◌<◌, ◌≡◌, ◌⊎◌, List, [], ◌∷◌, arith, inl, word_mod}
use astral.Vmm.{Range, Space, range_top}

-- A range of at least a byte that lies below `end`.
abbrev pub IsRange : ℕ → Range → Type 0
IsRange end r = (1 ≤ r.size) × (r.start + r.size ≤ end)

-- The ranges from an address on, in order and apart.
abbrev pub IsSorted : ℕ → ℕ → List Range → Type 0
IsSorted low end [] = Unit
IsSorted low end (r ∷ rs) = (low ≤ r.start) × IsRange end r × IsSorted (r.start + r.size) end rs

pub record IsSpace (s : Space) : Type 0 where
  pub sorted : IsSorted s.start s.end s.ranges
  pub bounded : s.end < word_mod

-- The `size` bytes at an address are in no range.
abbrev pub IsFree : List Range → ℕ → ℕ → Type 0
IsFree [] addr size = Unit
IsFree (r ∷ rs) addr size =
    ((addr + size ≤ r.start) ⊎ (r.start + r.size ≤ addr)) × IsFree rs addr size

pub range_top_lem :
    (end : ℕ) (r : Range) → end < word_mod → IsRange end r → range_top r ≡ r.start + r.size
range_top_lem end r b (x, y) = ground arith

-- What lies before the ranges is free.
pub before-IsFree :
    (low end : ℕ) (rs : List Range) (addr size : ℕ)
    → IsSorted low end rs
    → addr + size ≤ low
    → IsFree rs addr size
before-IsFree low end [] addr size s h = tt
before-IsFree low end (r ∷ rs) addr size (a, (z, b), s) h =
    (inl (omega arith), before-IsFree (r.start + r.size) end rs addr size s (omega arith))
