-- ===== src/Files/Insert.antt =====
-- `fd_insert`: it takes the lowest free descriptor of the table as it is, and cannot grow the table.
use astral.Base.{
  ℕ, ◌+◌, ◌^◌, ◌<◌, ◌≡◌, ◌≢◌, refl, ◌∙◌, Bool, none, some, List, if◌then◌else◌, ◌==◌, length, ok,
  arith,
}
use astral.Files.{Slot, State, value, assertion, file_at, fd_insert, skip_used, getfree, grow_put}
use astral.Files.Valid.{IsValid, IsLowest, IsLowest-eq, file_in-set_self, file_in-set_ne}
use astral.Files.New.{slot}
use astral.Files.Counts.{Counted}
use astral.Files.Dup.{
  put_held_lem, stored, stored-IsValid, stored-Counted, free-Ready, growtable_full,
}

getfree_zero :
    (xs : List Slot)
    → getfree xs 0 ≡ (if skip_used xs == length xs then none else some (skip_used xs))
unfolding getfree
getfree_zero xs = let z : 0 + skip_used xs ≡ skip_used xs = omega arith in rw z refl

-- On a valid table with the right counts whose lowest free descriptor `n` is inside the table,
-- `fd_insert` returns `n`, which then refers to the file. No other descriptor changes, the table stays
-- valid and the counts stay right.
pub fd_insert-IsLowest :
    (s : State) (besides : ℕ → ℕ) (f n : ℕ) (room : Bool)
    → IsValid s
    → Counted s besides
    → s.refcount f + 2 < 2 ^ 32
    → IsLowest s.fd n
    → n < length s.fd
    → (s' : State) × (fd_insert s f room ≡ value (ok, some n, s'))
      × (file_at s' n ≡ some f)
      × ((m : ℕ) → m ≢ n → file_at s' m ≡ file_at s m)
      × IsValid s'
      × Counted s' besides
unfolding fd_insert
fd_insert-IsLowest s besides f n room v c small low h =
    let e = IsLowest-eq s.fd n low in
    let free : getfree s.fd 0 ≡ some n = getfree_zero s.fd ∙ ground arith in
    let ready = free-Ready s besides n v c h (low.0) in
    (
      stored s f n 0,
      rw (free, fd_insert) (put_held_lem s f n 0 h),
      file_in-set_self s.fd n (slot f 0) h,
      λ m d. file_in-set_ne s.fd n m (slot f 0) d,
      stored-IsValid s f n 0 v h,
      stored-Counted s besides f n 0 ready.owing small h,
    )

-- On a full table below its limit `fd_insert` fails the assertion of `growtable`, which it asks for
-- the size that the table has.
pub fd_insert_full :
    (s : State) (f : ℕ) (room : Bool)
    → IsLowest s.fd (length s.fd)
    → length s.fd < 256
    → fd_insert s f room ≡ assertion
unfolding fd_insert
fd_insert_full s f room low h =
    let e = IsLowest-eq s.fd (length s.fd) low in
    let free : getfree s.fd 0 ≡ none = getfree_zero s.fd ∙ ground arith in
    rw (free, fd_insert) (rw (growtable_full s.fd room h, grow_put) refl)
