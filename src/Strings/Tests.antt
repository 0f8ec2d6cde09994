-- ===== src/Strings/Tests.antt =====
-- Two strings in memory, and what stands after them.
use astral.Base.{ℕ, ◌≡◌, refl, none, some, List, [], ◌∷◌, get_elem?}
use astral.Base.Int.{pos}
use astral.Base.Memory.{Memory}
use astral.Strings.{strlen, strncmp, strcat, strcpy}

-- "ab" at 0 and at 4, with other bytes behind the ends.
abbrev page : Memory
page = get_elem? (97 ∷ 98 ∷ 0 ∷ 7 ∷ 97 ∷ 98 ∷ 0 ∷ 1 ∷ [])

-- The comparison of at most four bytes goes on past the zeros.
past_the_end : strncmp page 0 4 4 ≡ some (pos 6)
unfolding strncmp
past_the_end = refl

-- What strcat returns is where the copy starts, not the destination.
appended : List ℕ
appended = elim (strcat 8 page 4 0) [ none ↦ [] | some (m, p) ↦ p ∷ [] ]

appended_lem : appended ≡ 6 ∷ []
unfolding appended strcat strlen strcpy
appended_lem = refl
