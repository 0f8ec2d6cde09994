-- ===== src/Heap/Realloc.antt =====
-- Blocks of the heap: a block goes back to the cache it is from, and `realloc` keeps its bytes.
use astral.Base.{
  ℕ, ◌≡◌, ◌≢◌, ◌⊎◌, ◌≤◌, refl, Bool, true, false, Option, none, some, List, [], ◌∷◌, ◌==◌, ltb, leb,
  if◌then◌else◌, arith, ==_iff, Bool-cases, inl, inr,
}
use astral.Heap.{
  Block, Given, given, null, broken, allocsizes, find_cache, getcachefromsize, new_block, alloc,
  zero_bytes, grow_between, realloc,
}

-- A block whose capacity is that of a cache, and which holds its size.
pub record IsValid (b : Block) : Type 0 where
  pub own_cache : getcachefromsize b.capacity ≡ some b.capacity
  pub within : b.size ≤ b.capacity

find_cache-find_cache :
    (l : List ℕ) (size c : ℕ) → find_cache l size ≡ some c → (size ≤ c) × (find_cache l c ≡ some c)
find_cache-find_cache [] size c e = absurd (cc)
find_cache-find_cache (a ∷ l) size c e = elim (Bool-cases (leb size a)) [
  | inl h ↦
      let f : some a ≡ some c = rw h at e in
      let g : a ≡ c = cc in
      let k : leb c a ≡ true = ground (arith, g) in (ground (arith, g), rw (k, g) refl)
  | inr h ↦
      let (i, j) = find_cache-find_cache l size c (rw h at e) in
      let k : leb c a ≡ false = ground arith in (i, rw k j)
]

-- What `realloc` promises: the bytes that both sizes have are kept, and new ones are zero.
abbrev pub Resized : (ℕ → Bool) → Block → ℕ → Given → Type 0
Resized memory b size null = (c : ℕ) × ((getcachefromsize size ≡ some c) × (memory c ≡ false))
Resized memory b size broken = ⊥
Resized memory b size (given b') =
    IsValid b'
    × (b'.size ≡ size)
    × ((k : ℕ) → (size ≤ k) ⊎ (b'.data_at k ≡ (if ltb k b.size then b.data_at k else 0)))

Resized-if :
    (memory : ℕ → Bool) (b : Block) (size : ℕ) (t : Bool) (x y : Given)
    → (t ≡ true → Resized memory b size x)
    → (t ≡ false → Resized memory b size y)
    → Resized memory b size (if t then x else y)
Resized-if memory b size true x y f g = f refl
Resized-if memory b size false x y f g = g refl

zeroed :
    (f : ℕ → ℕ) (n size k : ℕ) → (size ≤ k) ⊎ (zero_bytes f n size k ≡ (if ltb k n then f k else 0))
zeroed f n size k = elim (Bool-cases (ltb k n)) [
  | inl h ↦ let i : leb n k ≡ false = ground arith in inr (rw (h, i) refl)
  | inr h ↦ elim (Bool-cases (ltb k size)) [
    | inl j ↦ let i : leb n k ≡ true = ground arith in inr (rw (h, i, j) refl)
    | inr j ↦ inl (ground arith)
  ]
]

grown-Resized :
    (memory : ℕ → Bool) (b : Block) (size : ℕ) (old new : Option ℕ)
    → IsValid b
    → getcachefromsize b.capacity ≡ old
    → getcachefromsize size ≡ new
    → new ≢ none
    → Resized memory b size (grow_between memory b size old new)
unfolding getcachefromsize
grown-Resized memory b size none new v e f n = let o = v.own_cache in absurd (cc)
grown-Resized memory b size (some old) none v e f n = absurd (n refl)
grown-Resized memory b size (some old) (some new) v e f n =
    let (i, j) = find_cache-find_cache allocsizes size new f in
    let o : b.capacity ≡ old = (let p = v.own_cache in cc) in
    Resized-if memory b size (old == new) _ _
      (λ h.
        let g : old ≡ new = (==_iff old new).0 h in
        (
          record { own_cache = v.own_cache; within = ground (arith, g, o, i) },
          refl,
          zeroed b.data_at b.size size,
        ))
      (λ h.
        Resized-if memory b size (memory new) _ _
          (λ m. (record { own_cache = j; within = i }, refl, λ k. inr refl)) (λ m. (new, (f, m))))

-- When some cache has blocks of the new size, realloc of a valid block fails no assertion. It gives nothing
-- only when there is no memory in the cache for that size; otherwise the block is valid, has the new size,
-- keeps the bytes that both sizes have, and its new bytes are zero.
pub realloc-Resized :
    (memory : ℕ → Bool) (b : Block) (size : ℕ)
    → IsValid b
    → getcachefromsize size ≢ none
    → Resized memory b size (realloc memory b size)
unfolding realloc
realloc-Resized memory b size v n =
    Resized-if memory b size (leb size b.size) _ _
      (λ h. (
        record { own_cache = v.own_cache; within = le_trans size b.size b.capacity h v.within },
        refl,
        λ k. shrunk b.data_at b.size size k h,
      ))
      (λ h.
        grown-Resized memory b size (getcachefromsize b.capacity) (getcachefromsize size) v refl
          refl n)
  where
    le_trans : (x y z : ℕ) → leb x y ≡ true → y ≤ z → x ≤ z
    le_trans x y z h l = ground arith

    shrunk :
        (f : ℕ → ℕ) (n size k : ℕ)
        → leb size n ≡ true
        → (size ≤ k) ⊎ (f k ≡ (if ltb k n then f k else 0))
    shrunk f n size k h = elim (Bool-cases (ltb k n)) [
      | inl i ↦ inr (rw i refl)
      | inr i ↦ inl (ground arith)
    ]

-- A block that `alloc` gives is valid, so `free` takes it back to the cache that it is from.
abbrev GivenValid : Given → Type 0
GivenValid (given b) = IsValid b
GivenValid null = Unit
GivenValid broken = Unit

new_valid :
    (memory : ℕ → Bool) (size : ℕ) (o : Option ℕ)
    → getcachefromsize size ≡ o
    → GivenValid (new_block memory size o)
unfolding getcachefromsize
new_valid memory size none e = tt
new_valid memory size (some c) e = elim (Bool-cases (memory c)) [
  | inl h ↦
      let (i, j) = find_cache-find_cache allocsizes size c e in
      rw h (record { own_cache = j; within = i })
  | inr h ↦ rw h tt
]

alloc-IsValid : (memory : ℕ → Bool) (size : ℕ) → GivenValid (alloc memory size)
unfolding alloc
alloc-IsValid memory size = new_valid memory size (getcachefromsize size) refl
