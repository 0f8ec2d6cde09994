-- ===== src/Vmm/Pool/Pages.antt =====
-- Taking a slot from a page, and giving it back.
use mathlib.Core.Path.{subst}
use astral.Base.{
  ℕ, zero, suc, ◌-◌, ◌≡◌, ◌⊎◌, ◌≤◌, ◌<◌, refl, sym, Bool, true, false, some, ◌==◌, ltb,
  if◌then◌else◌, arith, ==_iff, Bool-cases, inl, inr, word_mod, add64, sub64,
}
use astral.Vmm.Pool.{SlotPage, getentrynumber, set_size, taken_slot, freerange}
use astral.Vmm.Pool.Slots.{
  IsCounted, IsFirst, count_free, count_bound, some_free, find_slot-IsFirst,
}

same_count :
    (n : ℕ) (f g : ℕ → ℕ) → ((q : ℕ) → (n ≤ q) ⊎ (f q ≡ g q)) → count_free n f ≡ count_free n g
same_count zero f g h = refl
same_count (suc n) f g h = elim (h n) [
  | inl k ↦ absurd (omega arith)
  | inr k ↦
      let e = same_count n f g (λ q. elim (h q) [ inl i ↦ inl (omega arith) | inr i ↦ inr i ]) in
      rw (k, e) refl
]

-- One free slot fewer.
count_change :
    (n r : ℕ) (f g : ℕ → ℕ)
    → r < n
    → (f r == 0) ≡ true
    → (g r == 0) ≡ false
    → ((q : ℕ) → (r ≡ q) ⊎ (f q ≡ g q))
    → count_free n f ≡ suc (count_free n g)
count_change zero r f g l a b h = absurd (omega arith)
count_change (suc n) r f g l a b h = elim (Bool-cases (r == n)) [
  | inl k ↦
      let e : r ≡ n = (==_iff r n).0 k in
      let a' = subst (λ t. (f t == 0) ≡ true) e a in
      let b' = subst (λ t. (g t == 0) ≡ false) e b in
      let s = same_count n f g (λ q. elim (h q) [ inl i ↦ inl (omega arith) | inr i ↦ inr i ]) in
      rw (a', b', s) refl
  | inr k ↦ elim (h n) [
    | inl i ↦ absurd (ground arith)
    | inr i ↦
        let s = count_change n r f g (ground arith) a b h in
        rw (i, s) (push (g n == 0) (count_free n g))
  ]
]
  where
    push : (t : Bool) (c : ℕ) → (if t then suc (suc c) else suc c) ≡ suc (if t then suc c else c)
    push true c = refl
    push false c = refl

set_others : (c : SlotPage) (r v q : ℕ) → (r ≡ q) ⊎ (c.sizes q ≡ set_size c r v q)
set_others c r v q = elim (Bool-cases (r == q)) [
  | inl k ↦ inl ((==_iff r q).0 k)
  | inr k ↦ inr (rw k refl)
]

self : (x : ℕ) → (x == x) ≡ true
self x = ground arith

taken-IsCounted :
    (n r : ℕ) (c : SlotPage)
    → n < word_mod
    → IsCounted n c
    → r < n
    → IsFirst c.sizes c.firstfree r
    → IsCounted n (taken_slot c r)
taken-IsCounted n r c b w l f =
    let m : (set_size c r (word_mod - 1) r == 0) ≡ false = rw (self r) refl in
    let e =
      count_change n r c.sizes (set_size c r (word_mod - 1)) l f.unused m
        (set_others c r (word_mod - 1)) in
    record {
      counted = less c.freecount (count_free n c.sizes) _ n w.counted e (count_bound n c.sizes) b;
      lowest = λ q. elim (Bool-cases (r == q)) [
        | inl k ↦ inr (inl (rw k refl))
        | inr k ↦ rw k (above n c.firstfree r q (c.sizes q == 0) (w.lowest q) (f.before q) k l b)
      ];
    }
  where
    less : (x y z n : ℕ) → x ≡ y → y ≡ suc z → y ≤ n → n < word_mod → sub64 x 1 ≡ z
    less x y z n e f l b = ground arith

    above :
        (n m r q : ℕ) (t : Bool)
        → (n ≤ q) ⊎ ((t ≡ false) ⊎ (m ≤ q))
        → (q < m) ⊎ ((t ≡ false) ⊎ (r ≤ q))
        → (r == q) ≡ false
        → r < n
        → n < word_mod
        → (n ≤ q) ⊎ ((t ≡ false) ⊎ (add64 r 1 ≤ q))
    above n m r q t (inl x) y k l b = inl x
    above n m r q t (inr (inl x)) y k l b = inr (inl x)
    above n m r q t (inr (inr x)) (inl y) k l b = absurd (omega arith)
    above n m r q t (inr (inr x)) (inr (inl y)) k l b = inr (inl y)
    above n m r q t (inr (inr x)) (inr (inr y)) k l b = inr (inr (ground arith))

-- A page with a free slot gives one.
pub page_gives :
    (n : ℕ) (c : SlotPage)
    → n < word_mod
    → IsCounted n c
    → 1 ≤ c.freecount
    → (r : ℕ) × ((getentrynumber n c ≡ some r)
        × ((r < n) × (((c.sizes r == 0) ≡ true) × IsCounted n (taken_slot c r))))
page_gives n c b w h =
    let (i, (l, e)) = some_free n c.sizes (subst (λ t. 1 ≤ t) w.counted h) in
    let g : c.firstfree ≤ i = low n c.firstfree i (c.sizes i == 0) (w.lowest i) l e in
    let (r, (p, (q, f))) =
      find_slot-IsFirst (n - c.firstfree) c.sizes c.firstfree i g (omega arith) e in
    let k : r < n = omega arith in (r, (p, (k, (f.unused, taken-IsCounted n r c b w k f))))
  where
    low : (n m i : ℕ) (t : Bool) → (n ≤ i) ⊎ ((t ≡ false) ⊎ (m ≤ i)) → i < n → t ≡ true → m ≤ i
    low n m i t (inl x) l e = absurd (omega arith)
    low n m i t (inr (inl x)) l e = absurd (cc)
    low n m i t (inr (inr x)) l e = x

-- The counts of a page stay right when a slot that is taken is given back.
freerange-IsCounted :
    (n r : ℕ) (c : SlotPage)
    → n < word_mod
    → IsCounted n c
    → r < n
    → (c.sizes r == 0) ≡ false
    → IsCounted n (freerange c r)
unfolding freerange
freerange-IsCounted n r c b w l u =
    let m : (set_size c r 0 r == 0) ≡ true = rw (self r) refl in
    let e = count_change n r (set_size c r 0) c.sizes l m u (λ q. flip q (set_others c r 0 q)) in
    record {
      counted =
          more c.freecount (count_free n c.sizes) _ n w.counted e (count_bound n (set_size c r 0))
            b;
      lowest = λ q. elim (Bool-cases (r == q)) [
        | inl k ↦ let j = (==_iff r q).0 k in inr (inr (ground arith))
        | inr k ↦ rw k (under n r c.firstfree q (c.sizes q == 0) (w.lowest q))
      ];
    }
  where
    flip :
        (q : ℕ)
        → (r ≡ q) ⊎ (c.sizes q ≡ set_size c r 0 q)
        → (r ≡ q) ⊎ (set_size c r 0 q ≡ c.sizes q)
    flip q (inl x) = inl x
    flip q (inr x) = inr (sym x)

    more : (x y z n : ℕ) → x ≡ y → z ≡ suc y → z ≤ n → n < word_mod → add64 x 1 ≡ z
    more x y z n e f l b = ground arith

    under :
        (n r m q : ℕ) (t : Bool)
        → (n ≤ q) ⊎ ((t ≡ false) ⊎ (m ≤ q))
        → (n ≤ q) ⊎ ((t ≡ false) ⊎ ((if ltb r m then r else m) ≤ q))
    under n r m q t (inl x) = inl x
    under n r m q t (inr (inl x)) = inr (inl x)
    under n r m q t (inr (inr x)) = inr (inr (ground arith))
