-- ===== src/Files/New.antt =====
-- `fd_new` against the rule that a new descriptor is the lowest free one.
use astral.Base.{
  ℕ, ◌+◌, ◌-◌, ◌≤◌, ◌<◌, ◌≡◌, ◌≢◌, refl, ap, sym, ◌∙◌, Bool, true, false, none, some, List, ◌∷◌, [],
  ◌++◌, if◌then◌else◌, ◌==◌, ok, err, emfile, enomem, length, length-append, length-set, replicate,
  set, arith, inl, inr, lt_or_ge, Bool-cases, ltb,
}
use astral.Files.{
  Slot, State, value, file_in, skip_used, getfree, growtable, install, fd_new, set_count, clean,
  empty,
}
use astral.Files.Counts.{Counted, count, refers, count-set, count-grown}
use astral.Files.Valid.{
  IsValid, IsLowest, UsedBelow, IsLowest-eq, skip_used_le, skip_used-drop, file_in-set_self,
  file_in-set_ne, file_in-grown, UsedBelow-set, some-ne-none,
}

abbrev pub slot : ℕ → ℕ → Slot
slot f flags = record { file = some f; flags = flags }

-- The state after `fd_new` puts the file `f` at `n` of the table `xs`.
abbrev pub installed : State → List Slot → ℕ → ℕ → ℕ → State
installed s xs f n flags = record (set_count s f 1) {
  fd = set xs n (slot f flags);
  fdfirst = n + 1;
}

getfree_lem :
    {s : State}
    → IsValid s
    → getfree s.fd s.fdfirst
      ≡ (if skip_used s.fd == length s.fd then none else some (skip_used s.fd))
unfolding getfree
getfree_lem {s} v = rw (skip_used-drop s.fd s.fdfirst v.first v.used) refl

install_lem :
    (s : State) (f n flags : ℕ)
    → n < length s.fd
    → install s f n flags
      ≡ value (ok, some n, record s { fd = set s.fd n (slot f flags); fdfirst = n + 1 })
unfolding install
install_lem s f n flags h = ground arith

installed-IsValid :
    (s : State) (xs : List Slot) (f n flags : ℕ)
    → n < length xs
    → length xs ≤ 256
    → UsedBelow xs n
    → IsValid (installed s xs f n flags)
installed-IsValid s xs f n flags h limit u = record {
  first = rw (length-set xs n (slot f flags)) (omega (arith, h));
  used =
      UsedBelow-set xs n (n + 1) (slot f flags) h (some-ne-none refl)
        (λ m lt d. u m (ground arith));
  limit = rw (length-set xs n (slot f flags)) limit;
}

growtable_one :
    (xs : List Slot)
    → length xs < 256
    → growtable xs (length xs + 1) true ≡ value (ok, xs ++ replicate 1 empty)
unfolding growtable
growtable_one xs h =
    let e : length xs + 1 - length xs ≡ 1 = omega arith in
    let l : ltb 256 (length xs + 1) ≡ false = ground arith in
    let g : ltb (length xs) (length xs + 1) ≡ true = ground arith in rw (l, g, e) refl

growtable_refused :
    (xs : List Slot) (room : Bool)
    → length xs ≤ 256
    → (length xs < 256 → room ≡ false)
    → growtable xs (length xs + 1) room
      ≡ value (err (if length xs == 256 then emfile else enomem), xs)
unfolding growtable
growtable_refused xs room h out = ground arith

fd_new_free :
    (s : State) (flags f n : ℕ) (room : Bool)
    → getfree s.fd s.fdfirst ≡ some n
    → n < length s.fd
    → fd_new s flags (some f) room ≡ value (ok, some n, installed s s.fd f n flags)
unfolding fd_new
fd_new_free s flags f n room e h = rw (e, fd_new) (install_lem (set_count s f 1) f n flags h)

fd_new_grown :
    (s : State) (flags f : ℕ)
    → getfree s.fd s.fdfirst ≡ none
    → length s.fd < 256
    → fd_new s flags (some f) true
      ≡ value
          (ok, some (length s.fd), installed s (s.fd ++ replicate 1 empty) f (length s.fd) flags)
unfolding fd_new
fd_new_grown s flags f e h =
    rw (e, fd_new)
      (rw (growtable_one s.fd h, fd_new)
        (install_lem (record (set_count s f 1) { fd = s.fd ++ replicate 1 empty }) f (length s.fd)
          flags (omega (arith, length-append s.fd (replicate 1 empty)))))

-- The outcome of `fd_new`, on a table `xs` that holds what the process's table does.
abbrev Installed : State → List Slot → ℕ → ℕ → ℕ → Type 0
Installed s xs flags f n =
    (fd_new s flags (some f) true ≡ value (ok, some n, installed s xs f n flags))
    × (n < length xs)
    × (length xs ≤ 256)
    × ((m : ℕ) → file_in xs m ≡ file_in s.fd m)
    × ((g : ℕ) → count g xs ≡ count g s.fd)

fd_new-Installed :
    (s : State) (flags f : ℕ)
    → IsValid s
    → skip_used s.fd < 256
    → (xs : List Slot) × Installed s xs flags f (skip_used s.fd)
fd_new-Installed s flags f v lt = elim (lt_or_ge (skip_used s.fd) (length s.fd)) [
  | inl free ↦ (
    s.fd,
    (
      fd_new_free s flags f _ true (getfree_lem v ∙ ground arith) free,
      free,
      v.limit,
      λ m. refl,
      λ g. refl,
    ),
  )
  | inr full ↦
      let e : skip_used s.fd ≡ length s.fd = omega (arith, full, skip_used_le s.fd) in
      let l : length (s.fd ++ replicate 1 empty) ≡ length s.fd + 1 =
        omega (arith, length-append s.fd (replicate 1 empty)) in
      (
        s.fd ++ replicate 1 empty,
        (
          rw e (fd_new_grown s flags f (getfree_lem v ∙ ground arith) (omega (arith, e, lt))),
          omega (arith, e, l),
          omega (arith, e, l, lt),
          λ m. file_in-grown s.fd 1 m,
          λ g. count-grown g s.fd 1,
        ),
      )
]

refcount-first :
    (s : State) (f g : ℕ)
    → s.refcount f ≡ 0
    → (set_count s f 1).refcount g ≡ s.refcount g + refers g (some f)
refcount-first s f g h = elim (Bool-cases (f == g)) [
  | inl e ↦ let e' : f ≡ g = ground arith in rw (e, sym e') (omega (arith, h))
  | inr e ↦ rw e (omega arith)
]

installed-Counted :
    (s : State) (besides : ℕ → ℕ) (xs : List Slot) (f n flags : ℕ)
    → Counted s besides
    → s.refcount f ≡ 0
    → n < length xs
    → file_in xs n ≡ none
    → ((g : ℕ) → count g xs ≡ count g s.fd)
    → Counted (installed s xs f n flags) besides
installed-Counted s besides xs f n flags c fresh h e same = record {
  right = λ g.
      let k : count g (set xs n (slot f flags)) + refers g none ≡ count g xs + refers g (some f) =
        ap (λ o. count g (set xs n (slot f flags)) + refers g o) (sym e)
        ∙ count-set g xs n (slot f flags) h in
      omega (arith, c.right g, same g, k, refcount-first s f g fresh);
  small = λ g. let b = c.small g in ground arith;
}

-- On a valid table with the right counts whose lowest free descriptor `n` is below the limit,
-- `fd_new` with a new file and with memory for the table returns `n`, which then refers to the file.
-- No other descriptor changes, the table stays valid and the counts stay right.
pub fd_new-IsLowest :
    (s : State) (besides : ℕ → ℕ) (flags f n : ℕ)
    → IsValid s
    → Counted s besides
    → s.refcount f ≡ 0
    → IsLowest s.fd n
    → n < 256
    → (s' : State) × (fd_new s flags (some f) true ≡ value (ok, some n, s'))
      × (file_in s'.fd n ≡ some f)
      × ((m : ℕ) → m ≢ n → file_in s'.fd m ≡ file_in s.fd m)
      × IsValid s'
      × Counted s' besides
fd_new-IsLowest s besides flags f n v c fresh low lt =
    let e = IsLowest-eq s.fd n low in
    let (xs, (run, room, limit, same, counts)) =
      fd_new-Installed s flags f v (omega (arith, e, lt)) in
    let used : UsedBelow xs n = λ m h. rw (same m) (low.1 m h) in
    let inside : n < length xs = omega (arith, e, room) in
    (
      installed s xs f n flags,
      rw e run,
      file_in-set_self xs n (slot f flags) inside,
      λ m h. file_in-set_ne xs n m (slot f flags) h ∙ same m,
      installed-IsValid s xs f n flags inside limit used,
      installed-Counted s besides xs f n flags c fresh inside (same n ∙ low.0) counts,
    )

-- A full table at its limit gives EMFILE, and one for which there is no memory ENOMEM; the new file
-- is cleaned up and the table stays as it was.
pub fd_new_full :
    (s : State) (flags f : ℕ) (room : Bool)
    → IsValid s
    → IsLowest s.fd (length s.fd)
    → (length s.fd < 256 → room ≡ false)
    → (s' : State) × (fd_new s flags (some f) room
        ≡ value (err (if length s.fd == 256 then emfile else enomem), none, s'))
      × (s'.fd ≡ s.fd)
      × (s'.cleaned ≡ s.cleaned ++ f ∷ [])
unfolding fd_new
fd_new_full s flags f room v low out =
    let e = IsLowest-eq s.fd (length s.fd) low in
    let free : getfree s.fd s.fdfirst ≡ none = getfree_lem v ∙ ground arith in
    (
      clean (set_count s f 1) f,
      rw (free, fd_new) (rw (growtable_refused s.fd room v.limit out, fd_new) refl),
      refl,
      refl,
    )
