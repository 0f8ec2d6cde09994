-- ===== src/Files/Valid.antt =====
-- The invariant of a table of descriptors, and the lowest free one.
use astral.Base.{
  ℕ, zero, suc, ◌+◌, ◌≤◌, ◌<◌, ◌≡◌, ◌≢◌, refl, ap, Option, none, some, List, [], ◌∷◌, ◌++◌, length,
  set, drop, replicate, arith, inl, inr, Option-cases, lt_or_ge, Bool-cases, ◌==◌,
}
use astral.Files.{Slot, State, file_in, skip_used, clear, empty}

-- Every descriptor below `k` is in use.
abbrev pub UsedBelow : List Slot → ℕ → Type 0
UsedBelow xs k = (m : ℕ) → m < k → file_in xs m ≢ none

-- `n` is the lowest descriptor not in use.
abbrev pub IsLowest : List Slot → ℕ → Type 0
IsLowest xs n = (file_in xs n ≡ none) × UsedBelow xs n

-- No descriptor below `fdfirst` is free, and `fdfirst` is not past the table, which is within its limit.
pub record IsValid (s : State) : Type 0 where
  pub first : s.fdfirst ≤ length s.fd
  pub used : UsedBelow s.fd s.fdfirst
  pub limit : length s.fd ≤ 256

pub some-ne-none : {o : Option ℕ} {f : ℕ} → o ≡ some f → o ≢ none
some-ne-none e = λ h. grind (arith, e, h)

UsedBelow-cons :
    (x : Slot) (xs : List Slot) (k : ℕ)
    → x.file ≢ none
    → UsedBelow xs k
    → UsedBelow (x ∷ xs) (suc k)
UsedBelow-cons x xs k h u zero lt = h
UsedBelow-cons x xs k h u (suc m) lt = u m (omega (arith, lt))

pub skip_used-IsLowest : (xs : List Slot) → IsLowest xs (skip_used xs)
skip_used-IsLowest [] = (refl, λ m h. absurd (omega (arith, h)))
skip_used-IsLowest (x ∷ xs) = elim (Option-cases (x.file)) [
  | inl e ↦ rw e (refl, λ m h. absurd (omega (arith, h)))
  | inr (f, e) ↦ rw e (
    (skip_used-IsLowest xs).0,
    UsedBelow-cons (record { file = some f; flags = x.flags }) xs (skip_used xs) (some-ne-none refl)
        ((skip_used-IsLowest xs).1),
  )
]

pub skip_used_le : (xs : List Slot) → skip_used xs ≤ length xs
skip_used_le [] = omega arith
skip_used_le (x ∷ xs) = elim (Option-cases (x.file)) [
  | inl e ↦ rw e (omega arith)
  | inr (f, e) ↦ rw e (omega (arith, skip_used_le xs))
]

-- Skipping used slots first makes no difference.
pub skip_used-drop :
    (xs : List Slot) (k : ℕ)
    → k ≤ length xs
    → UsedBelow xs k
    → k + skip_used (drop k xs) ≡ skip_used xs
skip_used-drop xs zero h u = omega arith
skip_used-drop [] (suc k) h u = absurd (omega (arith, h))
skip_used-drop (x ∷ xs) (suc k) h u = elim (Option-cases (x.file)) [
  | inl e ↦ absurd (u 0 (omega arith) e)
  | inr (f, e) ↦ rw e (
      omega (arith, skip_used-drop xs k (omega (arith, h)) (λ m lt. u (suc m) (omega (arith, lt)))))
]

-- There is one lowest free descriptor.
pub IsLowest-eq : (xs : List Slot) (n : ℕ) → IsLowest xs n → n ≡ skip_used xs
IsLowest-eq xs n (e, u) =
    let (e', u') = skip_used-IsLowest xs in
    elim (lt_or_ge n (skip_used xs)) [
      | inl lt ↦ absurd (u' n lt e)
      | inr ge ↦ elim (lt_or_ge (skip_used xs) n) [
        | inl lt ↦ absurd (u (skip_used xs) lt e')
        | inr ge' ↦ omega arith
      ]
    ]

pub file_in-set_self :
    (xs : List Slot) (n : ℕ) (x : Slot) → n < length xs → file_in (set xs n x) n ≡ x.file
file_in-set_self [] n x h = absurd (omega (arith, h))
file_in-set_self (y ∷ xs) zero x h = refl
file_in-set_self (y ∷ xs) (suc n) x h = file_in-set_self xs n x (omega (arith, h))

pub file_in-set_ne :
    (xs : List Slot) (n m : ℕ) (x : Slot) → m ≢ n → file_in (set xs n x) m ≡ file_in xs m
file_in-set_ne [] n m x h = refl
file_in-set_ne (y ∷ xs) zero zero x h = absurd (h refl)
file_in-set_ne (y ∷ xs) zero (suc m) x h = refl
file_in-set_ne (y ∷ xs) (suc n) zero x h = refl
file_in-set_ne (y ∷ xs) (suc n) (suc m) x h = file_in-set_ne xs n m x (λ e. h (ap suc e))

-- A slot set to a file counts as used.
pub UsedBelow-set :
    (xs : List Slot) (n k : ℕ) (x : Slot)
    → n < length xs
    → x.file ≢ none
    → ((m : ℕ) → m < k → m ≢ n → file_in xs m ≢ none)
    → UsedBelow (set xs n x) k
UsedBelow-set xs n k x h f u m lt = elim (Bool-cases (m == n)) [
  | inl e ↦ let e' : m ≡ n = ground arith in rw (e', file_in-set_self xs n x h) f
  | inr d ↦ let d' : m ≢ n = ground arith in rw (file_in-set_ne xs n m x d') (u m lt d')
]

file_in-replicate : (k m : ℕ) → file_in (replicate k empty) m ≡ none
file_in-replicate zero m = refl
file_in-replicate (suc k) zero = refl
file_in-replicate (suc k) (suc m) = file_in-replicate k m

-- A table that has grown holds what it held.
pub file_in-grown : (xs : List Slot) (k m : ℕ) → file_in (xs ++ replicate k empty) m ≡ file_in xs m
file_in-grown [] k m = file_in-replicate k m
file_in-grown (x ∷ xs) k zero = refl
file_in-grown (x ∷ xs) k (suc m) = file_in-grown xs k m

pub file_in-clear_self : (xs : List Slot) (n : ℕ) → file_in (clear xs n) n ≡ none
file_in-clear_self [] n = refl
file_in-clear_self (x ∷ xs) zero = refl
file_in-clear_self (x ∷ xs) (suc n) = file_in-clear_self xs n

pub file_in-clear_ne : (xs : List Slot) (n m : ℕ) → m ≢ n → file_in (clear xs n) m ≡ file_in xs m
file_in-clear_ne [] n m h = refl
file_in-clear_ne (y ∷ xs) zero zero h = absurd (h refl)
file_in-clear_ne (y ∷ xs) zero (suc m) h = refl
file_in-clear_ne (y ∷ xs) (suc n) zero h = refl
file_in-clear_ne (y ∷ xs) (suc n) (suc m) h = file_in-clear_ne xs n m (λ e. h (ap suc e))

pub length-clear : (xs : List Slot) (n : ℕ) → length (clear xs n) ≡ length xs
length-clear [] n = refl
length-clear (x ∷ xs) zero = refl
length-clear (x ∷ xs) (suc n) = ap suc (length-clear xs n)

pub file_in-lt : (xs : List Slot) (n f : ℕ) → file_in xs n ≡ some f → n < length xs
file_in-lt [] n f e = absurd (grind (arith, e))
file_in-lt (x ∷ xs) zero f e = omega arith
file_in-lt (x ∷ xs) (suc n) f e = omega (arith, file_in-lt xs n f e)

pub file_in_past : (xs : List Slot) (n : ℕ) → length xs ≤ n → file_in xs n ≡ none
file_in_past [] n h = refl
file_in_past (x ∷ xs) zero h = absurd (omega (arith, h))
file_in_past (x ∷ xs) (suc n) h = file_in_past xs n (omega (arith, h))

pub drop_past : (xs : List Slot) (n : ℕ) → length xs ≤ n → drop n xs ≡ []
drop_past [] zero h = refl
drop_past [] (suc n) h = refl
drop_past (x ∷ xs) zero h = absurd (omega (arith, h))
drop_past (x ∷ xs) (suc n) h = drop_past xs n (omega (arith, h))
