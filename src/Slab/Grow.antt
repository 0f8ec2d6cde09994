-- ===== src/Slab/Grow.antt =====
-- `slab_allocate` as a whole, and the slab that a cache grows by.
use mathlib.Core.Path.{subst, subst⁻¹}
use astral.Base.{
  ℕ, zero, suc, ◌+◌, ◌≡◌, ◌⊎◌, ◌≤◌, refl, ap, sym, ◌∙◌, true, false, Option, none, some, List, [],
  ◌∷◌, ◌==◌, ◌||◌, if◌then◌else◌, is_member, erase, IsDistinct, arith, ==_iff, Bool-cases, inl, inr,
  lt_or_ge,
}
use astral.Slab.{
  Slab, Cache, full, partial, empty, set_slab, set_list, push_free, allocate_in, slab_allocate,
}
use astral.Slab.Valid.{IsSlab, IsValid, IsListed, moved, moved-IsValid, count}
use astral.Slab.Calls.{IsTaken, Taking, partial-Taking, empty-Taking}

past_free : (i n : ℕ) → n ≤ i → is_member i (push_free n) ≡ false
past_free i zero l = refl
past_free i (suc n) l =
    let h : (n == i) ≡ false = ground (arith, l) in rw (h, past_free i n (omega arith)) refl

push_free-IsDistinct : (n : ℕ) → IsDistinct (push_free n)
push_free-IsDistinct zero = tt
push_free-IsDistinct (suc n) = (past_free n n (omega arith), push_free-IsDistinct n)

count_push : (n : ℕ) → count (push_free n) ≡ n
count_push zero = refl
count_push (suc n) = ap suc (count_push n)

-- A new slab, all of whose objects are free.
abbrev pub fresh_slab : ℕ → Slab
fresh_slab n = record { used = 0; free = push_free n }

fresh-IsSlab : (n : ℕ) → IsSlab n (fresh_slab n)
fresh-IsSlab n = record {
  distinct = push_free-IsDistinct n;
  total = rw (count_push n) (zero_sum n);
  bounded = λ i. elim (lt_or_ge i n) [ inl h ↦ inr h | inr h ↦ inl (past_free i n h) ];
}
  where
    zero_sum : (n : ℕ) → 0 + n ≡ n
    zero_sum n = omega arith

abbrev pub IsFresh : Cache → Option ℕ → Type 0
IsFresh c none = Unit
IsFresh c (some s) = (k : ℕ) → is_member s (c.lists k) ≡ false

erase_none : (s : ℕ) (l : List ℕ) → is_member s l ≡ false → erase s l ≡ l
erase_none s [] h = refl
erase_none s (x ∷ l) h = elim (Bool-cases (x == s)) [
  | inl k ↦ let g : true ≡ false = rw k at h in absurd (cc)
  | inr k ↦ let g = rw k at h in rw k (ap (λ t. x ∷ t) (erase_none s l g))
]

grown_lists :
    (c : Cache) (s j : ℕ)
    → is_member s (c.lists full) ≡ false
    → (if full == j then erase s (c.lists full) else c.lists j) ≡ c.lists j
grown_lists c s j h = elim (Bool-cases (full == j)) [
  | inl k ↦ let e = (==_iff full j).0 k in rw k (erase_none s (c.lists full) h ∙ ap c.lists e)
  | inr k ↦ rw k refl
]

grown_moved :
    (c : Cache) (s : ℕ) (r : Slab)
    → is_member s (c.lists full) ≡ false
    → moved c s r full empty ≡ set_list (set_slab c s r) empty (s ∷ c.lists empty)
grown_moved c s r h = λ i. record c {
  slabs = λ t. if s == t then r else c.slabs t;
  lists = λ j. if empty == j then s ∷ c.lists empty else grown_lists c s j h i;
}

abbrev grown : Cache → ℕ → Cache
grown c s = set_list (set_slab c s (fresh_slab c.slabobjcount)) empty (s ∷ c.lists empty)

grown-IsValid : (c : Cache) (s : ℕ) → IsValid c → IsFresh c (some s) → IsValid (grown c s)
grown-IsValid c s v f = subst IsValid (grown_moved c s (fresh_slab c.slabobjcount) (f full)) (
    moved-IsValid s (fresh_slab c.slabobjcount) full empty v (λ k. inr (f k)) refl refl
      (fresh-IsSlab c.slabobjcount))

-- A slab that the cache has with a free object.
abbrev pub IsOpen : Cache → ℕ → Type 0
IsOpen c s = (is_member s (c.lists partial) || is_member s (c.lists empty)) ≡ true

-- What `slab_allocate` promises: an object of a slab it has or of a new one, or that there is no memory.
abbrev pub Outcome : Cache → Option ℕ → Option (ℕ × ℕ) × Cache → Type 0
Outcome c memory (none, c') = (memory ≡ none) × (c' ≡ c)
Outcome c memory (some (s, i), c') =
    (IsOpen c s × IsTaken c (c.slabs s) c' s i)
    ⊎ ((memory ≡ some s) × IsTaken c (fresh_slab c.slabobjcount) c' s i)

kept-Outcome :
    (c : Cache) (memory : Option ℕ) (s : ℕ) (p : Option (ℕ × ℕ) × Cache)
    → IsOpen c s
    → Taking c s (c.slabs s) p
    → Outcome c memory p
kept-Outcome c memory s (none, c') o t = absurd t
kept-Outcome c memory s (some (q, i), c') o (e, t) =
    inl (subst⁻¹ (λ x. IsOpen c x × IsTaken c (c.slabs x) c' x i) e (o, t))

regrown :
    (c c' : Cache) (s i : ℕ)
    → IsTaken (grown c s) (fresh_slab c.slabobjcount) c' s i
    → IsTaken c (fresh_slab c.slabobjcount) c' s i
regrown c c' s i t = record {
  valid = t.valid;
  first = t.first;
  more = t.more;
  listed = t.listed;
  others = λ q. elim (t.others q) [
    | inl e ↦ inl e
    | inr e ↦ elim (Bool-cases (s == q)) [
      | inl k ↦ inl ((==_iff s q).0 k)
      | inr k ↦ inr (e ∙ rw k refl)
    ]
  ];
}

grown-Outcome :
    (c : Cache) (s : ℕ) (p : Option (ℕ × ℕ) × Cache)
    → Taking (grown c s) s ((grown c s).slabs s) p
    → Outcome c (some s) p
grown-Outcome c s (none, c') t = absurd t
grown-Outcome c s (some (q, i), c') (e, t) =
    let k : (s == s) ≡ true = ground arith in
    let own : (grown c s).slabs s ≡ fresh_slab c.slabobjcount = rw k refl in
    let t' = subst (λ r. IsTaken (grown c s) r c' s i) own t in
    inr (
      ap some (sym e),
      subst⁻¹ (λ x. IsTaken c (fresh_slab c.slabobjcount) c' x i) e (regrown c c' s i t'),
    )

self : (s : ℕ) → (s == s) ≡ true
self s = ground arith

head-IsListed :
    (c : Cache) (k s : ℕ) (ss : List ℕ) → IsValid c → c.lists k ≡ s ∷ ss → IsListed c k s
head-IsListed c k s ss v e = let h : (s == s) ≡ true = ground arith in v.listed k s (rw (e, h) refl)

allocate_in-Outcome :
    (c : Cache) (memory : Option ℕ) (ps es : List ℕ)
    → IsValid c
    → IsFresh c memory
    → c.lists partial ≡ ps
    → c.lists empty ≡ es
    → Outcome c memory (allocate_in c memory ps es)
allocate_in-Outcome c memory (s ∷ ss) es v f d e =
    kept-Outcome c memory s _ (rw (d, self s) refl)
      (partial-Taking c s ss (c.slabs s).free v d (head-IsListed c partial s ss v d) refl)
allocate_in-Outcome c memory [] (s ∷ ss) v f d e =
    kept-Outcome c memory s _ (rw (d, e, self s) refl)
      (empty-Taking c s ss (c.slabs s).free v e (head-IsListed c empty s ss v e) refl)
allocate_in-Outcome c none [] [] v f d e = (refl, refl)
allocate_in-Outcome c (some s) [] [] v f d e =
    let g = grown c s in
    let w = grown-IsValid c s v f in
    grown-Outcome c s _ (
      empty-Taking g s (c.lists empty) (g.slabs s).free w refl
        (head-IsListed g empty s (c.lists empty) w refl) refl)

-- In a valid cache, slab_allocate gives nothing only when no memory for a slab is to be had, and then
-- leaves the cache alone. The object that it gives was the first free one of its slab, one in the partial or
-- the empty list of the cache or a new one; it is off the free list afterwards, the slab has one user more
-- and is in the list for that, the other slabs are as before, and the cache is valid. The memory for a new slab is not that of one in the lists.
pub slab_allocate-Outcome :
    (c : Cache) (memory : Option ℕ)
    → IsValid c
    → IsFresh c memory
    → Outcome c memory (slab_allocate c memory)
unfolding slab_allocate
slab_allocate-Outcome c memory v f =
    allocate_in-Outcome c memory (c.lists partial) (c.lists empty) v f refl refl
