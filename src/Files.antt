-- ===== src/Files.antt =====
-- The table of file descriptors of a process: kernel-src/fs/file.c and
-- kernel-src/include/kernel/file.h. A file is its address, and a descriptor the number that an `int`
-- is as a `size_t`, so that a negative one is beyond any table.
pub mod Valid
pub mod New
pub mod Counts
pub mod Close
pub mod Dup
pub mod Insert
mod Tests
use astral.Base.{
  ℕ, zero, suc, ◌+◌, ◌-◌, ◌^◌, ◌%◌, Bool, true, false, Option, none, some, List, [], ◌∷◌, ◌++◌, ltb,
  leb, ◌==◌, if◌then◌else◌, length, get_elem?, set, drop, replicate, Status, ok, err, ebadf, enomem,
  emfile,
}
use astral.Base.Int.{ℤ, pos, negsuc}

-- `fd_t`
pub record Slot : Type 0 where
  pub file : Option ℕ
  pub flags : ℕ

-- The fields `fd` and `fdfirst` of `proc_t`, `fdcount` being the length of the table; the field
-- `refcount` of every file, a word of 32 bits; and the files that `cleanfile` has had, oldest first.
pub record State : Type 0 where
  pub fd : List Slot
  pub fdfirst : ℕ
  pub refcount : ℕ → ℕ
  pub cleaned : List ℕ

-- How an operation ends: it returns, touches memory past the table, or fails an assertion.
pub data Result (A : Type 0) : Type 0 where
  value : A → Result A
  overrun : Result A
  assertion : Result A

abbrev pub empty : Slot
empty = record { file = none; flags = 0 }

abbrev pub fd_limit : ℕ
fd_limit = 256

abbrev pub set_count : State → ℕ → ℕ → State
set_count s f n = record s { refcount = λ g. if f == g then n else s.refcount g }

-- FILE_HOLD and FILE_RELEASE.
unfoldable pub hold : State → ℕ → State
hold s f = set_count s f ((s.refcount f + 1) % 2 ^ 32)

abbrev pub clean : State → ℕ → State
clean s f = record s { cleaned = s.cleaned ++ f ∷ [] }

unfoldable pub release : State → ℕ → State
release s f =
    let n = (s.refcount f + (2 ^ 32 - 1)) % 2 ^ 32 in
    if n == 0 then clean (set_count s f n) f else set_count s f n

-- `fd < proc->fdcount ? proc->fd[fd].file : NULL`
abbrev pub file_in : List Slot → ℕ → Option ℕ
file_in [] n = none
file_in (x ∷ xs) zero = x.file
file_in (x ∷ xs) (suc n) = file_in xs n

abbrev pub file_at : State → ℕ → Option ℕ
file_at s n = file_in s.fd n

-- The loop of `getfree`: how many slots from here on are used before one that is free.
abbrev pub skip_used : List Slot → ℕ
skip_used [] = 0
skip_used (x ∷ xs) = let n = suc (skip_used xs) in elim (x.file) [ none ↦ 0 | some _ ↦ n ]

unfoldable pub getfree : List Slot → ℕ → Option ℕ
getfree fds start =
    let sfd = start + skip_used (drop start fds) in if sfd == length fds then none else some sfd

-- `growtable`; `room` is whether `realloc`, which clears what it adds, succeeds.
unfoldable pub growtable : List Slot → ℕ → Bool → Result (Status × List Slot)
growtable fds newcount room =
    if ltb fd_limit newcount
    then value (err emfile, fds)
    else if ltb (length fds) newcount
    then if room
      then value (ok, fds ++ replicate (newcount - length fds) empty)
      else value (err enomem, fds)
    else assertion

-- A store into a slot of the table.
abbrev pub put : State → ℕ → ℕ → ℕ → Result State
put s n f flags =
    if ltb n (length s.fd)
    then value (record s { fd = set s.fd n (record { file = some f; flags = flags }) })
    else overrun

-- `fd_get`
unfoldable pub fd_get : State → ℕ → Option ℕ × State
unfolding hold
fd_get s n = elim (file_at s n) [ none ↦ (none, s) | some f ↦ (some f, hold s f) ]

-- `fd_setflags`, which does not compare the descriptor with the size of the table.
unfoldable pub fd_setflags : State → ℕ → ℕ → Result (Status × State)
fd_setflags s n flags = elim (get_elem? s.fd n) [
  | none ↦ overrun
  | some slot ↦ elim (slot.file) [
    | none ↦ value (err ebadf, s)
    | some _ ↦ value (ok, record s { fd = set s.fd n (record slot { flags = flags }) })
  ]
]

-- `fd_getflags`
unfoldable pub fd_getflags : State → ℕ → Result (Status × Option ℕ)
fd_getflags s n = elim (get_elem? s.fd n) [
  | none ↦ overrun
  | some slot ↦ elim (slot.file) [
    | none ↦ value (err ebadf, none)
    | some _ ↦ value (ok, some slot.flags)
  ]
]

-- The end of `fd_new`.
unfoldable pub install : State → ℕ → ℕ → ℕ → Result (Status × Option ℕ × State)
install s f n flags = elim (put s n f flags) [
  | value s' ↦ value (ok, some n, record s' { fdfirst = n + 1 })
  | overrun ↦ overrun
  | assertion ↦ assertion
]

-- `fd_new`; the file is what `newfile` gave, with the count 1 that its constructor sets.
unfoldable pub fd_new : State → ℕ → Option ℕ → Bool → Result (Status × Option ℕ × State)
unfolding getfree growtable install
fd_new s flags none room = value (err enomem, none, s)
fd_new s flags (some f) room =
    let s₁ = set_count s f 1 in
    let count = length s.fd in
    elim (getfree s.fd s.fdfirst) [
      | some n ↦ install s₁ f n flags
      | none ↦ elim (growtable s.fd (count + 1) room) [
        | value (ok, fds) ↦ install (record s₁ { fd = fds }) f count flags
        | value (err e, fds) ↦ value (err e, none, clean s₁ f)
        | overrun ↦ overrun
        | assertion ↦ assertion
      ]
    ]

-- `proc->fd[n].file = NULL`
abbrev pub clear : List Slot → ℕ → List Slot
clear [] n = []
clear (x ∷ xs) zero = record x { file = none } ∷ xs
clear (x ∷ xs) (suc n) = x ∷ clear xs n

-- `fd_close`
unfoldable pub fd_close : State → ℕ → Status × State
unfolding release
fd_close s n = elim (file_at s n) [
  | none ↦ (err ebadf, s)
  | some f ↦ (
    ok,
    release (record s { fd = clear s.fd n; fdfirst = if ltb n s.fdfirst then n else s.fdfirst }) f,
  )
]

-- The loop of `fd_clone`: the slots of the new table, which is cleared when allocated, and the holds.
unfoldable pub clone_slots : State → List Slot → List Slot × State
unfolding hold
clone_slots s [] = ([], s)
clone_slots s (x ∷ xs) = elim (x.file) [
  | none ↦ (empty ∷ (clone_slots s xs).0, (clone_slots s xs).1)
  | some f ↦ (x ∷ (clone_slots (hold s f) xs).0, (clone_slots (hold s f) xs).1)
]

-- `fd_clone`: the table and first free descriptor of the other process; `room` is whether `alloc`
-- succeeds.
unfoldable pub fd_clone : State → Bool → Status × Option (List Slot × ℕ) × State
unfolding clone_slots
fd_clone s room =
    if room
    then (ok, some ((clone_slots s s.fd).0, s.fdfirst), (clone_slots s s.fd).1)
    else (err enomem, none, s)

-- A store and a hold, with the descriptor returned.
unfoldable pub put_held : State → ℕ → ℕ → ℕ → Result (Status × Option ℕ × State)
unfolding hold
put_held s f n flags = elim (put s n f flags) [
  | value s' ↦ value (ok, some n, hold s' f)
  | overrun ↦ overrun
  | assertion ↦ assertion
]

-- A store and a hold after `growtable`.
unfoldable pub grow_put : State → ℕ → ℕ → ℕ → ℕ → Bool → Result (Status × Option ℕ × State)
unfolding growtable put_held
grow_put s f n flags newcount room = elim (growtable s.fd newcount room) [
  | value (ok, fds) ↦ put_held (record s { fd = fds }) f n flags
  | value (err e, fds) ↦ value (err e, none, s)
  | overrun ↦ overrun
  | assertion ↦ assertion
]

-- `fd_insert`
unfoldable pub fd_insert : State → ℕ → Bool → Result (Status × Option ℕ × State)
unfolding getfree grow_put put_held
fd_insert s f room =
    let count = length s.fd in
    elim (getfree s.fd 0) [ some n ↦ put_held s f n 0 | none ↦ grow_put s f count 0 count room ]

-- The exact case of `fd_dup`: a file that is in the slot is released before the other is held.
unfoldable pub dup_exact : State → ℕ → ℕ → ℕ → Bool → Result (Status × Option ℕ × State)
unfolding grow_put put_held release
dup_exact s f n flags room =
    if leb (length s.fd) n then grow_put s f n flags (n + 1) room else elim (file_at s n) [
      | none ↦ put_held s f n flags
      | some g ↦ put_held (release s g) f n flags
    ]

-- The other case of `fd_dup`: the first free descriptor from `n` on.
unfoldable pub dup_from : State → ℕ → ℕ → ℕ → Bool → Result (Status × Option ℕ × State)
unfolding getfree grow_put put_held
dup_from s f n flags room =
    let newsize = if ltb n (length s.fd) then length s.fd + 1 else n in
    elim (getfree s.fd n) [
      | some m ↦ put_held s f m flags
      | none ↦ grow_put s f (newsize - 1) flags newsize room
    ]

-- `fd_dup`
unfoldable pub fd_dup : State → ℕ → ℤ → Bool → ℕ → Bool → Result (Status × Option ℕ × State)
unfolding dup_exact dup_from
fd_dup s oldfd (negsuc n) exact flags room = value (err ebadf, none, s)
fd_dup s oldfd (pos n) exact flags room =
    if leb fd_limit n then value (err ebadf, none, s) else elim (file_at s oldfd) [
      | none ↦ value (err ebadf, none, s)
      | some f ↦ if exact then dup_exact s f n flags room else dup_from s f n flags room
    ]
