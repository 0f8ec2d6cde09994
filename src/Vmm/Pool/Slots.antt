-- ===== src/Vmm/Pool/Slots.antt =====
-- A page of slots: its counts, and the slot that it gives.
use mathlib.Core.Path.{subst}
use astral.Base.{
  ℕ, zero, suc, ◌+◌, ◌≡◌, ◌⊎◌, ◌≤◌, ◌<◌, refl, true, false, some, ◌==◌, ltb, if◌then◌else◌, arith,
  ==_iff, Bool-cases, inl, inr,
}
use astral.Vmm.Pool.{SlotPage, find_slot}

-- How many of the first `n` slots are free.
abbrev pub count_free : ℕ → (ℕ → ℕ) → ℕ
count_free zero f = 0
count_free (suc n) f = if f n == 0 then suc (count_free n f) else count_free n f

-- A page whose counts are right: no free slot lies below `firstfree`.
pub record IsCounted (n : ℕ) (c : SlotPage) : Type 0 where
  pub counted : c.freecount ≡ count_free n c.sizes
  pub lowest : (i : ℕ) → (n ≤ i) ⊎ (((c.sizes i == 0) ≡ false) ⊎ (c.firstfree ≤ i))

pub count_bound : (n : ℕ) (f : ℕ → ℕ) → count_free n f ≤ n
count_bound zero f = omega arith
count_bound (suc n) f =
    let h = count_bound n f in
    elim (Bool-cases (f n == 0)) [ inl i ↦ rw i (omega arith) | inr i ↦ rw i (omega arith) ]

-- Some slot is free where the count is not 0.
pub some_free : (n : ℕ) (f : ℕ → ℕ) → 1 ≤ count_free n f → (i : ℕ) × ((i < n) × ((f i == 0) ≡ true))
some_free zero f h = absurd (omega arith)
some_free (suc n) f h = elim (Bool-cases (f n == 0)) [
  | inl k ↦ (n, (omega arith, k))
  | inr k ↦ let (i, (l, e)) = some_free n f (rw k at h) in (i, (omega arith, e))
]

-- The slot that a search gives is the first free one.
pub record IsFirst (f : ℕ → ℕ) (from r : ℕ) : Type 0 where
  pub from_on : from ≤ r
  pub unused : (f r == 0) ≡ true
  pub before : (q : ℕ) → (q < from) ⊎ (((f q == 0) ≡ false) ⊎ (r ≤ q))

pub find_slot-IsFirst :
    (left : ℕ) (f : ℕ → ℕ) (i j : ℕ)
    → i ≤ j
    → j < i + left
    → (f j == 0) ≡ true
    → (r : ℕ) × ((find_slot left f i ≡ some r) × ((r ≤ j) × IsFirst f i r))
find_slot-IsFirst zero f i j a b e = absurd (omega arith)
find_slot-IsFirst (suc left) f i j a b e = elim (Bool-cases (f i == 0)) [
  | inl h ↦ (
    i,
    (rw h refl, (a, record { from_on = omega arith; unused = h; before = λ q. below_or q i })),
  )
  | inr h ↦
      let k : suc i ≤ j = elim (Bool-cases (i == j)) [
        | inl l ↦ let m = (==_iff i j).0 l in absurd (cc)
        | inr l ↦ ground arith
      ] in
      let (r, (p, (q, w))) = find_slot-IsFirst left f (i + 1) j (omega arith) (omega arith) e in
      (
        r,
        (
          rw h p,
          (
            q,
            record {
              from_on = (let x = w.from_on in omega arith);
              unused = w.unused;
              before = λ t. before_next f i r t h (w.before t);
            },
          ),
        ),
      )
]
  where
    below_or : (q i : ℕ) → (q < i) ⊎ (((f q == 0) ≡ false) ⊎ (i ≤ q))
    below_or q i = elim (Bool-cases (ltb q i)) [
      | inl h ↦ inl (ground arith)
      | inr h ↦ inr (inr (ground arith))
    ]

    before_next :
        (f : ℕ → ℕ) (i r t : ℕ)
        → (f i == 0) ≡ false
        → (t < i + 1) ⊎ (((f t == 0) ≡ false) ⊎ (r ≤ t))
        → (t < i) ⊎ (((f t == 0) ≡ false) ⊎ (r ≤ t))
    before_next f i r t h (inr x) = inr x
    before_next f i r t h (inl x) = elim (Bool-cases (i == t)) [
      | inl k ↦ inr (inl (subst (λ y. (f y == 0) ≡ false) ((==_iff i t).0 k) h))
      | inr k ↦ inl (ground arith)
    ]
