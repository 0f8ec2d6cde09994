-- ===== src/Strings/Compare.antt =====
-- Strings in memory as lists of their bytes.
use astral.Base.{
  ℕ, zero, suc, ◌+◌, ◌<◌, ◌≡◌, refl, false, some, List, [], ◌∷◌, ◌==◌, length, if◌then◌else◌, arith,
  Bool-cases, inl, inr,
}
use astral.Base.Int.{ℤ, pos, sub_ℕ}
use astral.Base.Memory.{Memory}
use astral.Strings.{strlen, strcmp}

-- The bytes of a string stand at an address, and a zero after them.
abbrev pub Holds : Memory → ℕ → List ℕ → Type 0
Holds m a [] = m a ≡ some 0
Holds m a (x ∷ xs) = (m a ≡ some x) × ((x == 0) ≡ false) × Holds m (a + 1) xs

-- The order of lists of bytes: the difference at the first place where they are not the same, the end
-- counting as zero.
abbrev pub difference : List ℕ → List ℕ → ℤ
difference [] [] = pos 0
difference [] (y ∷ ys) = sub_ℕ 0 y
difference (x ∷ xs) [] = sub_ℕ x 0
difference (x ∷ xs) (y ∷ ys) = if x == y then difference xs ys else sub_ℕ x y

pub strlen_lem :
    (fuel : ℕ) (m : Memory) (a : ℕ) (xs : List ℕ)
    → Holds m a xs
    → length xs < fuel
    → strlen fuel m a ≡ some (length xs)
unfolding strlen
strlen_lem zero m a xs h f = absurd (omega arith)
strlen_lem (suc fuel) m a [] h f = rw (h, strlen) refl
strlen_lem (suc fuel) m a (x ∷ xs) h f =
    rw (h.0, strlen) (rw (h.1, strlen_lem fuel m (a + 1) xs (h.2) (omega arith)) refl)

-- Of two strings that stand in memory, `strcmp` gives the difference at the first place where they are
-- not the same, with fuel for each byte of the first and its zero.
strcmp_lem :
    (fuel : ℕ) (m : Memory) (a b : ℕ) (xs ys : List ℕ)
    → Holds m a xs
    → Holds m b ys
    → length xs < fuel
    → strcmp fuel m a b ≡ some (difference xs ys)
unfolding strcmp
strcmp_lem zero m a b xs ys h k f = absurd (omega arith)
strcmp_lem (suc fuel) m a b [] [] h k f = rw (h, strcmp) (rw (k, strcmp) refl)
strcmp_lem (suc fuel) m a b [] (y ∷ ys) h k f = rw (h, strcmp) (rw (k.0, strcmp) refl)
strcmp_lem (suc fuel) m a b (x ∷ xs) [] h k f = rw (h.0, strcmp) (rw (k, strcmp) (rw (h.1) refl))
strcmp_lem (suc fuel) m a b (x ∷ xs) (y ∷ ys) h k f =
    let rest = strcmp_lem fuel m (a + 1) (b + 1) xs ys (h.2) (k.2) (omega arith) in
    elim (Bool-cases (x == y)) [
      | inl e ↦ rw (h.0, strcmp) (rw (k.0, strcmp) (rw (h.1, e, rest) refl))
      | inr e ↦ rw (h.0, strcmp) (rw (k.0, strcmp) (rw (h.1, e) refl))
    ]
