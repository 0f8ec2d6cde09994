-- ===== src/Slab/Valid.antt =====
-- Caches whose slabs are in the lists that they belong in, and moving a slab between the lists.
use astral.Base.{
  ℕ, suc, ◌+◌, ◌≡◌, ◌⊎◌, ◌≤◌, ◌<◌, refl, sym, ◌∙◌, Bool, true, false, ◌&&◌, List, [], ◌∷◌, ◌==◌,
  if◌then◌else◌, is_member, erase, IsDistinct, is_member-erase, erase-IsDistinct, arith, ==_iff,
  Bool-cases, inl, inr, word_mod,
}
use mathlib.Core.Path.{subst}
use astral.Slab.{Slab, Cache, full, partial, empty, set_slab}

abbrev pub count : List ℕ → ℕ
count [] = 0
count (x ∷ xs) = suc (count xs)

-- A slab of `n` objects: those that are not free are in use.
pub record IsSlab (n : ℕ) (r : Slab) : Type 0 where
  pub distinct : IsDistinct r.free
  pub total : r.used + count r.free ≡ n
  pub bounded : (i : ℕ) → is_member i r.free ≡ false ⊎ (i < n)

-- The list for a slab.
abbrev pub list_for : ℕ → Slab → ℕ
list_for n r = if r.used == 0 then empty else if r.used == n then full else partial

abbrev pub IsListed : Cache → ℕ → ℕ → Type 0
IsListed c k s = (list_for c.slabobjcount (c.slabs s) ≡ k) × IsSlab c.slabobjcount (c.slabs s)

pub record IsValid (c : Cache) : Type 0 where
  pub listed : (k s : ℕ) → is_member s (c.lists k) ≡ true → IsListed c k s
  pub distinct : (k : ℕ) → IsDistinct (c.lists k)
  pub count_bound : (2 ≤ c.slabobjcount) × (c.slabobjcount < word_mod)

-- A slab goes to the head of another list with other contents.
abbrev pub moved : Cache → ℕ → Slab → ℕ → ℕ → Cache
moved c s r from to = record c {
  slabs = λ t. if s == t then r else c.slabs t;
  lists = λ j.
      if to == j then s ∷ c.lists to else if from == j then erase s (c.lists from) else c.lists j;
}

-- A slab is in the list for it and in no other.
listed_once :
    {c : Cache} (k s : ℕ)
    → IsValid c
    → (list_for c.slabobjcount (c.slabs s) == k) ≡ false
    → is_member s (c.lists k) ≡ false
listed_once {c} k s v h = elim (Bool-cases (is_member s (c.lists k))) [
  | inl i ↦
      let (e, w) = v.listed k s i in
      let f = (==_iff (list_for c.slabobjcount (c.slabs s)) k).1 e in absurd (cc)
  | inr i ↦ i
]

-- A slab is in no list, or in this one.
abbrev pub IsOnlyIn : Cache → ℕ → ℕ → Type 0
IsOnlyIn c s from = (k : ℕ) → (from ≡ k) ⊎ (is_member s (c.lists k) ≡ false)

pub listed-IsOnlyIn :
    {c : Cache} (s : ℕ) → IsValid c → IsOnlyIn c s (list_for c.slabobjcount (c.slabs s))
listed-IsOnlyIn {c} s v k = elim (Bool-cases (list_for c.slabobjcount (c.slabs s) == k)) [
  | inl h ↦ inl ((==_iff (list_for c.slabobjcount (c.slabs s)) k).0 h)
  | inr h ↦ inr (listed_once k s v h)
]

self : (x : ℕ) → (x == x) ≡ true
self x = ground arith

and_none : (b : Bool) → (b && false) ≡ false
and_none true = refl
and_none false = refl

and_true : (b : Bool) → (b && true) ≡ b
and_true true = refl
and_true false = refl

-- Who is in the lists afterwards: the slab itself, and the others as before.
moved_own :
    (c : Cache) (s : ℕ) (r : Slab) (from to k : ℕ)
    → ((j : ℕ) → IsDistinct (c.lists j))
    → IsOnlyIn c s from
    → is_member s ((moved c s r from to).lists k) ≡ (to == k)
moved_own c s r from to k d u = elim (Bool-cases (to == k)) [
  | inl h ↦ rw (h, self s) refl
  | inr h ↦ elim (Bool-cases (from == k)) [
    | inl i ↦
        rw (h, i, is_member-erase s s (c.lists from) (d from), self s)
          (and_none (is_member s (c.lists from)))
    | inr i ↦ elim (u k) [
      | inl e ↦ let g = (==_iff from k).1 e in absurd (cc)
      | inr e ↦ rw (h, i, e) refl
    ]
  ]
]

moved_others :
    (c : Cache) (s : ℕ) (r : Slab) (from to k q : ℕ)
    → ((j : ℕ) → IsDistinct (c.lists j))
    → (s == q) ≡ false
    → is_member q ((moved c s r from to).lists k) ≡ is_member q (c.lists k)
moved_others c s r from to k q d n = elim (Bool-cases (to == k)) [
  | inl h ↦ rw (h, n, (==_iff to k).0 h) refl
  | inr h ↦ elim (Bool-cases (from == k)) [
    | inl i ↦
        rw (h, i, is_member-erase s q (c.lists from) (d from), n, (==_iff from k).0 i)
          (and_true (is_member q (c.lists k)))
    | inr i ↦ rw (h, i) refl
  ]
]

moved-IsDistinct :
    (c : Cache) (s : ℕ) (r : Slab) (from to k : ℕ)
    → ((j : ℕ) → IsDistinct (c.lists j))
    → IsOnlyIn c s from
    → (from == to) ≡ false
    → IsDistinct ((moved c s r from to).lists k)
moved-IsDistinct c s r from to k d u n = elim (Bool-cases (to == k)) [
  | inl h ↦ elim (u to) [
    | inl e ↦ let g = (==_iff from to).1 e in absurd (cc)
    | inr e ↦ rw h (e, d to)
  ]
  | inr h ↦ elim (Bool-cases (from == k)) [
    | inl i ↦ rw (h, i) (erase-IsDistinct s (c.lists from) (d from))
    | inr i ↦ rw (h, i) (d k)
  ]
]

-- A slab that goes to the list for its new contents leaves the cache valid.
pub moved-IsValid :
    {c : Cache} (s : ℕ) (r : Slab) (from to : ℕ)
    → IsValid c
    → IsOnlyIn c s from
    → (from == to) ≡ false
    → list_for c.slabobjcount r ≡ to
    → IsSlab c.slabobjcount r
    → IsValid (moved c s r from to)
moved-IsValid {c} s r from to v u n e w = record {
  listed = λ k q h. elim (Bool-cases (s == q)) [
    | inl i ↦
        let j : s ≡ q = (==_iff s q).0 i in
        let g : (to == k) ≡ true =
          sym (moved_own c s r from to k v.distinct u)
          ∙ subst (λ t. is_member t ((moved c s r from to).lists k) ≡ true) (sym j) h in
        rw i (e ∙ (==_iff to k).0 g, w)
    | inr i ↦ rw i (v.listed k q (sym (moved_others c s r from to k q v.distinct i) ∙ h))
  ];
  distinct = λ k. moved-IsDistinct c s r from to k v.distinct u n;
  count_bound = v.count_bound;
}

-- A slab that stays in its list.
pub kept-IsValid :
    {c : Cache} (s : ℕ) (r : Slab)
    → IsValid c
    → list_for c.slabobjcount r ≡ list_for c.slabobjcount (c.slabs s)
    → IsSlab c.slabobjcount r
    → IsValid (set_slab c s r)
kept-IsValid {c} s r v e w = record {
  listed = λ k q h. elim (Bool-cases (s == q)) [
    | inl i ↦
        let j : s ≡ q = (==_iff s q).0 i in
        let (x, y) = v.listed k s (subst (λ t. is_member t (c.lists k) ≡ true) (sym j) h) in
        rw i (e ∙ x, w)
    | inr i ↦ rw i (v.listed k q h)
  ];
  distinct = v.distinct;
  count_bound = v.count_bound;
}
