-- ===== src/Vmm/Free.antt =====
-- `getfreerange`: what it gives is free, and it gives something whenever something is free.
use astral.Base.{
  ℕ, suc, ◌+◌, ◌-◌, ◌≤◌, ◌<◌, ◌≡◌, ◌≢◌, ◌⊎◌, Bool, true, false, not, ◌&&◌, Option, none, some, List,
  [], ◌∷◌, ◌==◌, ltb, leb, if◌then◌else◌, sub64, arith, refl, inl, inr, word_mod,
}
use astral.Vmm.{Range, Space, max_addr, find_gap, find_free, from_hint, getfreerange}
use mathlib.Core.Path.{subst}
use astral.Vmm.Valid.{IsRange, IsSorted, IsSpace, IsFree, range_top_lem, before-IsFree}

-- A gap of `size` bytes at or after an address.
abbrev pub IsGap : ℕ → List Range → ℕ → ℕ → ℕ → Type 0
IsGap end rs hint size addr = (hint ≤ addr) × (addr + size ≤ end) × IsFree rs addr size

-- What a search gives: its gap is the lowest, and where it gives none there is none.
abbrev pub Searched : ℕ → List Range → ℕ → ℕ → Option ℕ → Type 0
Searched end rs hint size (some addr) =
    IsGap end rs hint size addr × ((a : ℕ) → IsGap end rs hint size a → addr ≤ a)
Searched end rs hint size none = (a : ℕ) → ¬ (IsGap end rs hint size a)

Searched-if :
    (end : ℕ) (rs : List Range) (hint size : ℕ) (b : Bool) (o p : Option ℕ)
    → (b ≡ true → Searched end rs hint size o)
    → (b ≡ false → Searched end rs hint size p)
    → Searched end rs hint size (if b then o else p)
Searched-if end rs hint size true o p f g = f refl
Searched-if end rs hint size false o p f g = g refl

-- A gap after a range that has no room before it starts at the range's top or later.
past_range :
    (range : Range) (addr size a : ℕ)
    → suc range.start ≤ addr + size
    → addr ≤ a
    → (a + size ≤ range.start) ⊎ (range.start + range.size ≤ a)
    → max_addr addr (range.start + range.size) ≤ a
past_range range addr size a h l (inl i) = absurd (omega arith)
past_range range addr size a h l (inr i) = ground arith

max_addr_le : (addr top : ℕ) → (addr ≤ max_addr addr top) × (top ≤ max_addr addr top)
max_addr_le addr top = (ground arith, ground arith)

max_addr_bound : (addr top end : ℕ) → addr ≤ end → top ≤ end → max_addr addr top ≤ end
max_addr_bound addr top end l m = ground arith

fits : (a b size : ℕ) → (ltb a b && leb size (b - a)) ≡ true → a + size ≤ b
fits a b size h = ground arith

no_fit : (a b size : ℕ) → (ltb a b && leb size (b - a)) ≡ false → 1 ≤ size → suc b ≤ a + size
no_fit a b size h z = ground arith

-- The same gaps are left when a range that has no room before it is passed.
pass-Searched :
    (end : ℕ) (rs : List Range) (range : Range) (addr size : ℕ) (o : Option ℕ)
    → suc range.start ≤ addr + size
    → Searched end rs (max_addr addr (range.start + range.size)) size o
    → Searched end (range ∷ rs) addr size o
pass-Searched end rs range addr size none h n =
    λ a (i, j, (k, f)). n a (past_range range addr size a h i k, j, f)
pass-Searched end rs range addr size (some b) h ((i, j, f), g) =
    let (x, y) = max_addr_le addr (range.start + range.size) in
    (
      (omega arith, j, (inr (omega arith), f)),
      λ a (l, m, (k, e)). g a (past_range range addr size a h l k, m, e),
    )

last-Searched :
    (end a size : ℕ)
    → end < word_mod
    → a ≤ end
    → 1 ≤ size
    → Searched end [] a size (if not (a == end) && leb size (sub64 end a) then some a else none)
last-Searched end a size b l z =
    Searched-if end [] a size (not (a == end) && leb size (sub64 end a)) _ _
      (λ i. ((omega arith, ground arith, tt), λ c (j, k, u). j))
      (λ i c (j, k, u). absurd (ground arith))

here-Searched :
    (end : ℕ) (rs : List Range) (n : Range) (a size : ℕ)
    → IsRange end n
    → IsSorted (n.start + n.size) end rs
    → a + size ≤ n.start
    → Searched end (n ∷ rs) a size (some a)
here-Searched end rs n a size (p, q) s h = (
  (
    omega arith,
    omega arith,
    (inl h, before-IsFree (n.start + n.size) end rs a size s (omega arith)),
  ),
  λ c (j, k, f). j,
)

find_gap-Searched :
    (end : ℕ) (rs : List Range) (range : Range) (addr size : ℕ)
    → end < word_mod
    → IsRange end range
    → IsSorted (range.start + range.size) end rs
    → addr ≤ end
    → suc range.start ≤ addr + size
    → 1 ≤ size
    → Searched end (range ∷ rs) addr size (find_gap end rs range addr size)
unfolding find_gap
find_gap-Searched end [] range addr size b r s l h z = rw (range_top_lem end range b r) (
    pass-Searched end [] range addr size _ h (
      last-Searched end (max_addr addr (range.start + range.size)) size b
        (max_addr_bound addr (range.start + range.size) end l (r.1)) z))
find_gap-Searched end (n ∷ rs) range addr size b r (p, q, s) l h z =
    let a = max_addr addr (range.start + range.size) in
    let m = max_addr_bound addr (range.start + range.size) end l (r.1) in
    rw (range_top_lem end range b r) (
      pass-Searched end (n ∷ rs) range addr size _ h (
        Searched-if end (n ∷ rs) a size (ltb a n.start && leb size (n.start - a)) _ _
          (λ i. here-Searched end rs n a size q s (fits a n.start size i))
          (λ i. find_gap-Searched end rs n a size b q s m (no_fit a n.start size i z) z)))

-- The first test of `getfreerange` at a space's first range.
before_first : ℕ → ℕ → ℕ → ℕ → Bool
before_first start first addr size =
    not (first == start) && (ltb addr first && leb size (first - addr))

before_first-true :
    (start first addr size : ℕ) → before_first start first addr size ≡ true → addr + size ≤ first
unfolding before_first
before_first-true start first addr size h = ground arith

before_first-false :
    (start first addr size : ℕ)
    → start ≤ addr
    → 1 ≤ size
    → before_first start first addr size ≡ false
    → suc first ≤ addr + size
unfolding before_first
before_first-false start first addr size a z h = ground arith

find_free-Searched :
    (s : Space) (range : Range) (rs : List Range) (addr size : ℕ)
    → s.end < word_mod
    → IsSorted s.start s.end (range ∷ rs)
    → s.start ≤ addr
    → addr ≤ s.end
    → 1 ≤ size
    → Searched s.end (range ∷ rs) addr size (find_free s (range ∷ rs) addr size)
unfolding before_first
find_free-Searched s range rs addr size b (l, r, o) i j z =
    Searched-if s.end (range ∷ rs) addr size (before_first s.start range.start addr size) _ _
      (λ h.
        here-Searched s.end rs range addr size r o
          (before_first-true s.start range.start addr size h))
      (λ h.
        find_gap-Searched s.end rs range addr size b r o j
          (before_first-false s.start range.start addr size i z h) z)

-- Where a search may start.
abbrev pub IsHint : Space → ℕ → Type 0
IsHint s hint = (s.start ≤ from_hint s hint) × (from_hint s hint ≤ s.end)

find_free-IsGap :
    (s : Space) (rs : List Range) (addr size a : ℕ)
    → s.end < word_mod
    → IsSorted s.start s.end rs
    → s.start ≤ addr
    → addr ≤ s.end
    → 1 ≤ size
    → (rs ≢ []) ⊎ (addr + size ≤ s.end)
    → find_free s rs addr size ≡ some a
    → IsGap s.end rs addr size a
find_free-IsGap s [] addr size a b o i j z (inl n) e = absurd (n refl)
find_free-IsGap s [] addr size a b o i j z (inr n) e =
    let f : addr ≡ a = grind (arith, e) in (omega arith, omega arith, tt)
find_free-IsGap s (range ∷ rs) addr size a b o i j z n e =
    (subst (Searched s.end (range ∷ rs) addr size) e
      (find_free-Searched s range rs addr size b o i j z)).0

-- What getfreerange gives in a valid space is a gap: it is not below the hint, ends in the space and meets
-- no range. In a space without ranges this needs the size to fit at the hint.
pub getfreerange-IsGap :
    (s : Space) (hint size a : ℕ)
    → IsSpace s
    → IsHint s hint
    → 1 ≤ size
    → (s.ranges ≢ []) ⊎ (from_hint s hint + size ≤ s.end)
    → getfreerange s hint size ≡ some a
    → IsGap s.end s.ranges (from_hint s hint) size a
unfolding getfreerange
getfreerange-IsGap s hint size a v (i, j) z n e =
    find_free-IsGap s s.ranges (from_hint s hint) size a v.bounded v.sorted i j z n e

first_of :
    (s : Space) (rs : List Range) (addr size a : ℕ)
    → s.end < word_mod
    → IsSorted s.start s.end rs
    → s.start ≤ addr
    → addr ≤ s.end
    → 1 ≤ size
    → IsGap s.end rs addr size a
    → (b : ℕ) × ((find_free s rs addr size ≡ some b) × (b ≤ a))
first_of s [] addr size a b o i j z (k, l, m) = (addr, (refl, k))
first_of s (range ∷ rs) addr size a b o i j z g =
    found (find_free s (range ∷ rs) addr size) (find_free-Searched s range rs addr size b o i j z)
  where
    found :
        (p : Option ℕ)
        → Searched s.end (range ∷ rs) addr size p
        → (c : ℕ) × ((p ≡ some c) × (c ≤ a))
    found none n = absurd (n a g)
    found (some c) (h, n) = (c, (refl, n a g))

-- In a valid space, with a hint in the space or none and a size of at least 1: if `size` bytes at an
-- address not below the hint lie in the space and in no range, getfreerange gives an address, and none
-- above that one.
pub getfreerange_first :
    (s : Space) (hint size a : ℕ)
    → IsSpace s
    → IsHint s hint
    → 1 ≤ size
    → IsGap s.end s.ranges (from_hint s hint) size a
    → (b : ℕ) × ((getfreerange s hint size ≡ some b) × (b ≤ a))
unfolding getfreerange
getfreerange_first s hint size a v (i, j) z g =
    first_of s s.ranges (from_hint s hint) size a v.bounded v.sorted i j z g
