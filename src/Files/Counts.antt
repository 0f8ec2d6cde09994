-- ===== src/Files/Counts.antt =====
-- Reference counts: the count of a file is the number of descriptors that refer to it and of the
-- references that the kernel holds besides.
use astral.Base.{
  ℕ, zero, suc, ◌+◌, ◌-◌, ◌^◌, ◌%◌, ◌<◌, ◌≡◌, refl, sym, true, false, Option, none, some, List, [],
  ◌∷◌, ◌++◌, if◌then◌else◌, ◌==◌, length, replicate, set, arith, inl, inr, Bool-cases,
}
use astral.Files.{Slot, State, file_in, clear, empty, hold, release, set_count}

-- One if the slot refers to `f`.
abbrev pub refers : ℕ → Option ℕ → ℕ
refers f none = 0
refers f (some g) = if g == f then 1 else 0

unfoldable pub count : ℕ → List Slot → ℕ
count f [] = 0
count f (x ∷ xs) = refers f x.file + count f xs

-- Every count is right, `besides` being the references from outside the table, and fits its word.
pub record Counted (s : State) (besides : ℕ → ℕ) : Type 0 where
  pub right : (f : ℕ) → s.refcount f ≡ count f s.fd + besides f
  pub small : (f : ℕ) → s.refcount f + 1 < 2 ^ 32

pub count-set :
    (f : ℕ) (xs : List Slot) (n : ℕ) (x : Slot)
    → n < length xs
    → count f (set xs n x) + refers f (file_in xs n) ≡ count f xs + refers f x.file
unfolding count
count-set f [] n x h = absurd (omega (arith, h))
count-set f (y ∷ xs) zero x h = omega arith
count-set f (y ∷ xs) (suc n) x h = omega (arith, count-set f xs n x (omega (arith, h)))

pub count-clear :
    (f : ℕ) (xs : List Slot) (n : ℕ) → count f (clear xs n) + refers f (file_in xs n) ≡ count f xs
unfolding count
count-clear f [] n = omega arith
count-clear f (y ∷ xs) zero = omega arith
count-clear f (y ∷ xs) (suc n) = omega (arith, count-clear f xs n)

count-replicate : (f k : ℕ) → count f (replicate k empty) ≡ 0
unfolding count
count-replicate f zero = refl
count-replicate f (suc k) = omega (arith, count-replicate f k)

-- A table that has grown refers to what it referred to.
pub count-grown : (f : ℕ) (xs : List Slot) (k : ℕ) → count f (xs ++ replicate k empty) ≡ count f xs
unfolding count
count-grown f [] k = count-replicate f k
count-grown f (x ∷ xs) k = omega (arith, count-grown f xs k)

-- A slot that refers to a file adds to its count.
pub count_pos : (f : ℕ) (xs : List Slot) (n : ℕ) → file_in xs n ≡ some f → 0 < count f xs
unfolding count
count_pos f [] n e = absurd (grind (arith, e))
count_pos f (x ∷ xs) zero e = rw e (ground arith)
count_pos f (x ∷ xs) (suc n) e = omega (arith, count_pos f xs n e)

-- FILE_HOLD adds one to the count of its file, and FILE_RELEASE takes one away.
pub refcount-hold :
    (s : State) (f g : ℕ)
    → s.refcount f + 1 < 2 ^ 32
    → (hold s f).refcount g ≡ s.refcount g + refers g (some f)
unfolding hold
refcount-hold s f g h = elim (Bool-cases (f == g)) [
  | inl e ↦ let e' : f ≡ g = ground arith in rw (e, sym e') (omega (arith, h))
  | inr e ↦ rw e (omega arith)
]

abbrev pub released : State → ℕ → State
released s f = record (set_count s f (s.refcount f - 1)) {
  cleaned = if s.refcount f == 1 then s.cleaned ++ f ∷ [] else s.cleaned;
}

-- A release cleans the file if the reference was its last.
pub release_lem :
    (s : State) (f : ℕ) → 0 < s.refcount f → s.refcount f < 2 ^ 32 → release s f ≡ released s f
unfolding release
release_lem s f p h =
    let e : (s.refcount f + (2 ^ 32 - 1)) % 2 ^ 32 ≡ s.refcount f - 1 = omega arith in
    elim (Bool-cases (s.refcount f == 1)) [
      | inl one ↦ let z : (s.refcount f - 1 == 0) ≡ true = ground arith in rw (e, z, one) refl
      | inr more ↦ let z : (s.refcount f - 1 == 0) ≡ false = ground arith in rw (e, z, more) refl
    ]

pub refcount-released :
    (s : State) (f g : ℕ)
    → 0 < s.refcount f
    → (released s f).refcount g + refers g (some f) ≡ s.refcount g
refcount-released s f g p = elim (Bool-cases (f == g)) [
  | inl e ↦ let e' : f ≡ g = ground arith in rw (e, sym e') (omega (arith, p))
  | inr e ↦ rw e (omega arith)
]
