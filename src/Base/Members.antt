-- ===== src/Base/Members.antt =====
-- Lists of numbers as sets: membership, removal, and lists without repetition.
use Prim.Native.Nat.{ℕ}
use mathlib.Core.Path.{◌≡◌, refl}
use mathlib.Core.Bool.{Bool, true, false, not, ◌&&◌, ◌||◌}
use mathlib.Core.List.{List, [], ◌∷◌}
use mathlib.Core.Logic.{inl, inr}
use native.Mathlib.Omega.{arith}
use astral.Base.Tests.{◌==◌, if◌then◌else◌, Bool-cases, ==_iff}

abbrev pub is_member : ℕ → List ℕ → Bool
is_member x [] = false
is_member x (y ∷ ys) = y == x || is_member x ys

abbrev pub erase : ℕ → List ℕ → List ℕ
erase x [] = []
erase x (y ∷ ys) = if y == x then ys else y ∷ erase x ys

abbrev pub IsDistinct : List ℕ → Type 0
IsDistinct [] = Unit
IsDistinct (y ∷ ys) = (is_member y ys ≡ false) × IsDistinct ys

==_trans : (x y z : ℕ) → (y == x) ≡ true → (y == z) ≡ (x == z)
==_trans x y z h = ground (arith, (==_iff y x).0 h)

pub is_member-erase :
    (x z : ℕ) (ys : List ℕ)
    → IsDistinct ys
    → is_member z (erase x ys) ≡ (is_member z ys && not (x == z))
is_member-erase x z [] d = refl
is_member-erase x z (y ∷ ys) d = elim (Bool-cases (y == x)) [
  | inl h ↦
      let e : y ≡ x = (==_iff y x).0 h in
      rw (h, ==_trans x y z h)
        (elim (Bool-cases (x == z)) [
          | inl k ↦ let f : x ≡ z = (==_iff x z).0 k in rw (k, ← f, ← e, d.0) refl
          | inr k ↦ rw k (ground arith)
        ])
  | inr h ↦
      rw (h, is_member-erase x z ys (d.1))
        (elim (Bool-cases (y == z)) [
          | inl k ↦ let f : (x == z) ≡ false = ground arith in rw (k, f) refl
          | inr k ↦ rw k refl
        ])
]

pub is_member-erase_self : (x : ℕ) (ys : List ℕ) → IsDistinct ys → is_member x (erase x ys) ≡ false
is_member-erase_self x ys d = rw (is_member-erase x x ys d) (ground arith)

pub erase-IsDistinct : (x : ℕ) (ys : List ℕ) → IsDistinct ys → IsDistinct (erase x ys)
erase-IsDistinct x [] d = tt
erase-IsDistinct x (y ∷ ys) d = elim (Bool-cases (y == x)) [
  | inl h ↦ rw h (d.1)
  | inr h ↦ rw h (rw (is_member-erase x y ys (d.1), d.0) refl, erase-IsDistinct x ys (d.1))
]
