-- ===== src/Strings.antt =====
-- The strings of kernel-src/lib/string.c: bytes in memory up to a zero. A loop runs on fuel, and a byte
-- that is not mapped ends it.
pub mod Compare
mod Tests
use astral.Base.{
  ℕ, zero, suc, ◌+◌, ◌-◌, Bool, true, false, ◌&&◌, ◌||◌, not, Option, none, some, List, [], ◌∷◌,
  ◌==◌, ltb, if◌then◌else◌,
}
use astral.Base.Int.{ℤ, pos, negsuc, sub_ℕ, ◌+ℤ◌, ◌==ℤ◌}
use astral.Base.Memory.{Memory, poke}

-- `strlen`, `s` bytes having been counted.
unfoldable pub strlen : ℕ → Memory → ℕ → Option ℕ
strlen zero m a = none
strlen (suc fuel) m a = elim (m a) [
  | none ↦ none
  | some c ↦
      let rest = strlen fuel m (a + 1) in
      if c == 0 then some 0 else elim rest [ none ↦ none | some n ↦ some (suc n) ]
]

-- `strcmp`
unfoldable pub strcmp : ℕ → Memory → ℕ → ℕ → Option ℤ
strcmp zero m a b = none
strcmp (suc fuel) m a b = elim (m a) [
  | none ↦ none
  | some c ↦ elim (m b) [
    | none ↦ none
    | some d ↦
        let rest = strcmp fuel m (a + 1) (b + 1) in
        if not (c == 0) && c == d then rest else some (sub_ℕ c d)
  ]
]

-- A byte as a signed `char`.
abbrev pub char_value : ℕ → ℤ
char_value c = if ltb c 128 then pos c else negsuc (255 - c)

abbrev pub char_diff : ℕ → ℕ → ℤ
char_diff c d =
    if ltb c 128
    then (if ltb d 128 then sub_ℕ c d else pos (c + 256 - d))
    else (if ltb d 128 then negsuc (255 - c + d) else sub_ℕ c d)

-- `strncmp`, which goes on until a difference or until `n` bytes are compared.
unfoldable pub strncmp : Memory → ℕ → ℕ → ℕ → Option ℤ
strncmp m a b zero = some (pos 0)
strncmp m a b (suc n) = elim (m a) [
  | none ↦ none
  | some c ↦ elim (m b) [
    | none ↦ none
    | some d ↦ if c == d then strncmp m (a + 1) (b + 1) n else some (char_diff c d)
  ]
]

-- `memcmp`, on unsigned bytes.
unfoldable pub memcmp : Memory → ℕ → ℕ → ℕ → Option ℤ
memcmp m a b zero = some (pos 0)
memcmp m a b (suc n) = elim (m a) [
  | none ↦ none
  | some c ↦ elim (m b) [
    | none ↦ none
    | some d ↦ if c == d then memcmp m (a + 1) (b + 1) n else some (sub_ℕ c d)
  ]
]

-- `strcpy`, to memory that is mapped.
unfoldable pub strcpy : ℕ → Memory → ℕ → ℕ → Option Memory
strcpy zero m p s = none
strcpy (suc fuel) m p s = elim (m s) [
  | none ↦ none
  | some c ↦
      let rest = strcpy fuel (poke m p c) (p + 1) (s + 1) in
      if c == 0 then some (poke m p 0) else rest
]

-- `strcat`: what it returns is `dest` after the first line has moved it.
unfoldable pub strcat : ℕ → Memory → ℕ → ℕ → Option (Memory × ℕ)
unfolding strlen strcpy
strcat fuel m dest src = elim (strlen fuel m dest) [
  | none ↦ none
  | some n ↦ elim (strcpy fuel m (dest + n) src) [ none ↦ none | some m' ↦ some (m', dest + n) ]
]
