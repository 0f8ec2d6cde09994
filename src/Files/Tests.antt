-- ===== src/Files/Tests.antt =====
-- A small table of descriptors: runs of the operations, and the properties at work on it.
use astral.Base.{
  ℕ, zero, suc, ◌+◌, ◌≡◌, ◌≢◌, refl, none, some, [], ◌∷◌, true, if◌then◌else◌, ◌==◌, ok, err, ebadf,
  arith,
}
use astral.Base.Int.{pos, negsuc}
use astral.Files.{
  State, value, overrun, file_in, file_at, fd_new, fd_close, fd_dup, fd_get, fd_clone, fd_setflags,
  fd_getflags, hold, clone_slots, empty,
}
use astral.Files.Valid.{IsValid, UsedBelow, some-ne-none}
use astral.Files.Counts.{Counted, count}
use astral.Files.New.{fd_new-IsLowest}
use astral.Files.Close.{fd_close-Counted}
use astral.Files.Dup.{fd_dup-Counted}

-- Descriptors 0 and 2 refer to the files 7 and 8.
abbrev counts : ℕ → ℕ
counts f = (if 7 == f then 1 else 0) + (if 8 == f then 1 else 0)

abbrev two : State
two = record {
  fd = record { file = some 7; flags = 1 } ∷ empty ∷ record { file = some 8; flags = 2 } ∷ [];
  fdfirst = 1;
  refcount = counts;
  cleaned = [];
}

abbrev full : State
full = record {
  fd = record { file = some 7; flags = 1 } ∷ [];
  fdfirst = 1;
  refcount = λ f. if 7 == f then 1 else 0;
  cleaned = [];
}

abbrev nothing : ℕ → ℕ
nothing f = 0

two_used : UsedBelow two.fd 1
two_used zero h = some-ne-none refl
two_used (suc m) h = absurd (omega (arith, h))

full_used : UsedBelow full.fd 1
full_used zero h = some-ne-none refl
full_used (suc m) h = absurd (omega (arith, h))

full-IsValid : IsValid full
full-IsValid = record { first = omega arith; used = full_used; limit = omega arith }

two-IsValid : IsValid two
two-IsValid = record { first = omega arith; used = two_used; limit = omega arith }

two-Counted : Counted two nothing
unfolding count
two-Counted = record { right = λ f. ground arith; small = λ f. ground arith }

close_again : fd_close two 1 ≡ (err ebadf, two)
unfolding fd_close
close_again = refl

dup_negative : fd_dup two 0 (negsuc 0) true 0 true ≡ value (err ebadf, none, two)
unfolding fd_dup
dup_negative = refl

clone_table : (fd_clone two true).1 ≡ some (two.fd, 1)
unfolding fd_clone clone_slots hold
clone_table = refl

get_held : (fd_get two 2).1.refcount 8 ≡ 2
unfolding fd_get hold
get_held = refl

setflags_past : fd_setflags two 3 0 ≡ overrun
unfolding fd_setflags
setflags_past = refl

getflags_open : fd_getflags two 2 ≡ value (ok, some 2)
unfolding fd_getflags
getflags_open = refl

fd_new-IsLowest_example :
    (s' : State) × (fd_new two 5 (some 9) true ≡ value (ok, some 1, s'))
    × (file_in s'.fd 1 ≡ some 9)
    × ((m : ℕ) → m ≢ 1 → file_in s'.fd m ≡ file_in two.fd m)
    × IsValid s'
    × Counted s' nothing
fd_new-IsLowest_example =
    fd_new-IsLowest two nothing 5 9 1 two-IsValid two-Counted refl (refl, two_used) (omega arith)

fd_close-Counted_example :
    let (status, s') = fd_close two 2 in
    (status ≡ ok)
    × (file_at s' 2 ≡ none)
    × ((m : ℕ) → m ≢ 2 → file_at s' m ≡ file_at two m)
    × IsValid s'
    × Counted s' nothing
    × (s'.cleaned ≡ (if count 8 s'.fd + 0 == 0 then 8 ∷ [] else []))
fd_close-Counted_example = fd_close-Counted two nothing 2 8 two-IsValid two-Counted refl

fd_dup-Counted_example :
    (s' : State) × (fd_dup two 0 (pos 2) true 4 true ≡ value (ok, some 2, s'))
    × (file_at s' 2 ≡ some 7)
    × ((m : ℕ) → m ≢ 2 → file_at s' m ≡ file_at two m)
    × IsValid s'
    × Counted s' nothing
    × (s'.cleaned ≡ (if count 8 s'.fd + 0 == 0 then 8 ∷ [] else []))
fd_dup-Counted_example =
    fd_dup-Counted two nothing 0 2 7 4 two-IsValid two-Counted refl (omega arith) (omega arith)
      (omega arith)
