-- ===== src/Files/Dup.antt =====
-- `fd_dup`: the exact case makes the new descriptor refer to the file of the old one; the other case
-- leaves the table where it is asked for a descriptor past its end.
use astral.Base.{
  ℕ, ◌+◌, ◌-◌, ◌^◌, ◌≤◌, ◌<◌, ◌≡◌, ◌≢◌, refl, ◌∙◌, Bool, true, false, none, some, Option, List, [],
  ◌∷◌, ap, ◌++◌, if◌then◌else◌, ◌==◌, ltb, leb, length, set, replicate, ok, arith, inl, inr,
  lt_or_ge, Option-cases, Bool-cases, length-set, length-append, length-replicate,
}
use astral.Base.Int.{pos}
use astral.Files.{
  Slot, State, value, overrun, assertion, file_in, file_at, hold, empty, growtable, put_held,
  grow_put, dup_exact, dup_from, fd_dup, getfree,
}
use astral.Files.Valid.{
  IsValid, file_in-set_self, file_in-set_ne, file_in-grown, file_in-lt, UsedBelow-set, some-ne-none,
  file_in_past, drop_past,
}
use astral.Files.New.{slot}
use astral.Files.Counts.{
  Counted, count, refers, count-set, count-grown, count_pos, released, release_lem,
  refcount-released, refcount-hold,
}

abbrev pub stored : State → ℕ → ℕ → ℕ → State
stored s f n flags = hold (record s { fd = set s.fd n (slot f flags) }) f

pub put_held_lem :
    (s : State) (f n flags : ℕ)
    → n < length s.fd
    → put_held s f n flags ≡ value (ok, some n, stored s f n flags)
unfolding put_held
put_held_lem s f n flags h =
    let l : ltb n (length s.fd) ≡ true = ground arith in rw (l, put_held) refl

pub stored-IsValid :
    (s : State) (f n flags : ℕ) → IsValid s → n < length s.fd → IsValid (stored s f n flags)
unfolding hold
stored-IsValid s f n flags v h = record {
  first = rw (length-set s.fd n (slot f flags)) v.first;
  used =
      UsedBelow-set s.fd n s.fdfirst (slot f flags) h (some-ne-none refl) (λ m lt d. v.used m lt);
  limit = rw (length-set s.fd n (slot f flags)) v.limit;
}

-- Counts that lack the reference of slot `n`, which is about to be overwritten.
abbrev pub Owing : State → (ℕ → ℕ) → ℕ → Type 0
Owing s besides n =
    (g : ℕ)
    → (s.refcount g + refers g (file_in s.fd n) ≡ count g s.fd + besides g)
      × (s.refcount g + 1 < 2 ^ 32)

pub stored-Counted :
    (s : State) (besides : ℕ → ℕ) (f n flags : ℕ)
    → Owing s besides n
    → s.refcount f + 2 < 2 ^ 32
    → n < length s.fd
    → Counted (stored s f n flags) besides
unfolding hold
stored-Counted s besides f n flags o small h = record {
  right = λ g. omega (
    arith,
    refcount-hold s f g (omega (arith, small)),
    count-set g s.fd n (slot f flags) h,
    (o g).0,
  );
  small = λ g. let b = (o g).1 in ground arith;
}

abbrev grown : State → ℕ → State
grown s n = record s { fd = s.fd ++ replicate (n + 1 - length s.fd) empty }

length-grown : (s : State) (n : ℕ) → length s.fd ≤ n → length (grown s n).fd ≡ n + 1
length-grown s n h =
    length-append s.fd (replicate (n + 1 - length s.fd) empty)
    ∙ rw (length-replicate (n + 1 - length s.fd) empty) (omega (arith, h))

growtable_lem :
    (s : State) (n : ℕ)
    → length s.fd ≤ n
    → n < 256
    → growtable s.fd (n + 1) true ≡ value (ok, (grown s n).fd)
unfolding growtable
growtable_lem s n h lt =
    let l : ltb 256 (n + 1) ≡ false = ground arith in
    let g : ltb (length s.fd) (n + 1) ≡ true = ground arith in rw (l, g) refl

grow_put_lem :
    (s : State) (f n flags : ℕ)
    → length s.fd ≤ n
    → n < 256
    → grow_put s f n flags (n + 1) true ≡ value (ok, some n, stored (grown s n) f n flags)
unfolding grow_put
grow_put_lem s f n flags h lt =
    rw (growtable_lem s n h lt, grow_put)
      (put_held_lem (grown s n) f n flags (omega (arith, length-grown s n h)))

-- The files cleaned once a slot has lost its file, of which `left` references are left.
abbrev pub lost : List ℕ → Option ℕ → (ℕ → ℕ) → List ℕ
lost cleaned none left = cleaned
lost cleaned (some g) left = if left g == 0 then cleaned ++ g ∷ [] else cleaned

-- A state from which the exact case goes on with a store: the table is long enough, and what slot `n`
-- refers to is no longer counted.
pub record Ready (s t : State) (besides : ℕ → ℕ) (n : ℕ) : Type 0 where
  pub valid : IsValid t
  pub owing : Owing t besides n
  pub room : n < length t.fd
  pub less : (g : ℕ) → t.refcount g ≤ s.refcount g
  pub same : (m : ℕ) → file_in t.fd m ≡ file_in s.fd m
  pub sum : (g : ℕ) → count g t.fd ≡ count g s.fd
  pub cleared : t.cleaned ≡ lost s.cleaned (file_in s.fd n) (λ g. s.refcount g - 1)

grown-Ready :
    (s : State) (besides : ℕ → ℕ) (n : ℕ)
    → IsValid s
    → Counted s besides
    → length s.fd ≤ n
    → n < 256
    → Ready s (grown s n) besides n
grown-Ready s besides n v c h lt =
    let l = length-grown s n h in
    let k = n + 1 - length s.fd in
    record {
      valid = record {
        first = omega (arith, l, v.first, h);
        used = λ m b. rw (file_in-grown s.fd k m) (v.used m b);
        limit = omega (arith, l, lt);
      };
      owing = λ g. (
        rw (count-grown g s.fd k, file_in-grown s.fd k n, file_in_past s.fd n h)
            (omega (arith, c.right g)),
        c.small g,
      );
      room = omega (arith, l);
      less = λ g. omega arith;
      same = λ m. file_in-grown s.fd k m;
      sum = λ g. count-grown g s.fd k;
      cleared = rw (file_in_past s.fd n h) refl;
    }

pub free-Ready :
    (s : State) (besides : ℕ → ℕ) (n : ℕ)
    → IsValid s
    → Counted s besides
    → n < length s.fd
    → file_in s.fd n ≡ none
    → Ready s s besides n
free-Ready s besides n v c h e = record {
  valid = v;
  owing = λ g. (rw e (omega (arith, c.right g)), c.small g);
  room = h;
  less = λ g. omega arith;
  same = λ m. refl;
  sum = λ g. refl;
  cleared = rw e refl;
}

last_one : (n : ℕ) → 0 < n → (n == 1) ≡ (n - 1 == 0)
last_one n p = ground (arith, p)

released-Ready :
    (s : State) (besides : ℕ → ℕ) (n f : ℕ)
    → IsValid s
    → Counted s besides
    → file_in s.fd n ≡ some f
    → Ready s (released s f) besides n
released-Ready s besides n f v c e =
    let p : 0 < s.refcount f = omega (arith, c.right f, count_pos f s.fd n e) in
    record {
      valid = record { first = v.first; used = v.used; limit = v.limit };
      owing = λ g. (
        rw e (omega (arith, c.right g, refcount-released s f g p)),
        omega (arith, c.small g, refcount-released s f g p),
      );
      room = file_in-lt s.fd n f e;
      less = λ g. omega (arith, refcount-released s f g p);
      same = λ m. refl;
      sum = λ g. refl;
      cleared = rw (e, last_one (s.refcount f) p) refl;
    }

-- The exact case is a store into a state that is ready for it.
dup_exact-Ready :
    (s : State) (besides : ℕ → ℕ) (f n flags : ℕ)
    → IsValid s
    → Counted s besides
    → n < 256
    → (t : State) × (dup_exact s f n flags true ≡ value (ok, some n, stored t f n flags))
      × Ready s t besides n
unfolding dup_exact
dup_exact-Ready s besides f n flags v c lt = elim (lt_or_ge n (length s.fd)) [
  | inr past ↦
      let l : leb (length s.fd) n ≡ true = ground arith in
      (
        grown s n,
        rw (l, dup_exact) (grow_put_lem s f n flags past lt),
        grown-Ready s besides n v c past lt,
      )
  | inl inside ↦
      let l : leb (length s.fd) n ≡ false = ground arith in
      elim (Option-cases (file_in s.fd n)) [
        | inl e ↦ (
          s,
          rw (l, e, dup_exact) (put_held_lem s f n flags inside),
          free-Ready s besides n v c inside e,
        )
        | inr (g, e) ↦
            let p : 0 < s.refcount g = omega (arith, c.right g, count_pos g s.fd n e) in
            let r = release_lem s g p (omega (arith, c.small g)) in
            (
              released s g,
              rw (l, e, r, dup_exact) (put_held_lem (released s g) f n flags inside),
              released-Ready s besides n g v c e,
            )
      ]
]

lost_eq :
    (c : List ℕ) (o : Option ℕ) (l l' : ℕ → ℕ)
    → ((g : ℕ) → o ≡ some g → (l g == 0) ≡ (l' g == 0))
    → lost c o l ≡ lost c o l'
lost_eq c none l l' h = refl
lost_eq c (some g) l l' h = rw (h g refl) refl

-- A file that two slots refer to is counted twice.
twice :
    (xs : List Slot) (n m f : ℕ)
    → m ≢ n
    → file_in xs n ≡ some f
    → file_in xs m ≡ some f
    → 2 ≤ count f xs
twice xs n m f d e k =
    let ys = set xs n empty in
    let a = count-set f xs n empty (file_in-lt xs n f e) in
    let b = count_pos f ys m (file_in-set_ne xs n m empty d ∙ k) in
    let one : refers f (file_in xs n) ≡ 1 = rw e (ground arith) in omega (arith, a, b, one)

both_left : {m n : ℕ} → 1 ≤ m → 1 ≤ n → (m == 0) ≡ (n == 0)
both_left h k = ground (arith, h, k)

-- The store of a file that another slot refers to leaves the count of the file that slot `n` had.
left_over :
    {s t : State} {besides : ℕ → ℕ} (oldfd n f flags g : ℕ)
    → Counted s besides
    → Ready s t besides n
    → file_in s.fd oldfd ≡ some f
    → oldfd ≢ n
    → file_in s.fd n ≡ some g
    → (s.refcount g - 1 == 0) ≡ (count g (set t.fd n (slot f flags)) + besides g == 0)
left_over {s} {t} oldfd n f flags g c r e d k =
    let k' : file_in t.fd n ≡ some g = r.same n ∙ k in
    let one : refers g (file_in t.fd n) ≡ 1 = rw k' (ground arith) in
    let a = count-set g t.fd n (slot f flags) r.room in
    let b = (r.owing g).0 in
    elim (Bool-cases (f == g)) [
      | inr i ↦
          let z : refers g (some f) ≡ 0 = rw i refl in
          ap (λ x. x == 0) (omega (arith, a, b, one, z, c.right g, r.sum g))
      | inl i ↦
          let i' : f ≡ g = ground arith in
          let w = twice t.fd n oldfd g d k' (r.same oldfd ∙ (e ∙ ap some i')) in
          let z : refers g (some f) ≡ 1 = rw i refl in
          both_left (omega (arith, c.right g, r.sum g, w)) (omega (arith, a, b, one, z, r.sum g, w))
    ]

-- On a valid table whose files have the right counts, `fd_dup` of an open descriptor onto exactly another
-- one, `n`, below the limit, with memory for the table and a count of the file that two more references do
-- not overflow, returns `n`, which then refers to the same file. No other descriptor changes, the table
-- stays valid and the counts stay right; and the file that `n` referred to before, if any, is cleaned
-- exactly if no reference to it is left.
pub fd_dup-Counted :
    (s : State) (besides : ℕ → ℕ) (oldfd n f flags : ℕ)
    → IsValid s
    → Counted s besides
    → file_at s oldfd ≡ some f
    → oldfd ≢ n
    → n < 256
    → s.refcount f + 2 < 2 ^ 32
    → (s' : State) × (fd_dup s oldfd (pos n) true flags true ≡ value (ok, some n, s'))
      × (file_at s' n ≡ some f)
      × ((m : ℕ) → m ≢ n → file_at s' m ≡ file_at s m)
      × IsValid s'
      × Counted s' besides
      × (s'.cleaned ≡ lost s.cleaned (file_at s n) (λ g. count g s'.fd + besides g))
unfolding fd_dup hold
fd_dup-Counted s besides oldfd n f flags v c e d lt small =
    let l : leb 256 n ≡ false = ground arith in
    let (t, run, ready) = dup_exact-Ready s besides f n flags v c lt in
    (
      stored t f n flags,
      rw (l, e, fd_dup) run,
      file_in-set_self t.fd n (slot f flags) ready.room,
      λ m h. file_in-set_ne t.fd n m (slot f flags) h ∙ ready.same m,
      stored-IsValid t f n flags ready.valid ready.room,
      stored-Counted t besides f n flags ready.owing (omega (arith, ready.less f, small))
          ready.room,
      ready.cleared
          ∙ lost_eq s.cleaned (file_in s.fd n) _ _
              (λ g k. left_over oldfd n f flags g c ready e d k),
    )

pub getfree_past :
    (xs : List Slot) (n : ℕ)
    → length xs ≤ n
    → getfree xs n ≡ (if n == length xs then none else some n)
unfolding getfree
getfree_past xs n h = let z : n + 0 ≡ n = omega arith in rw (drop_past xs n h, z) refl

pub growtable_full :
    (xs : List Slot) (room : Bool) → length xs < 256 → growtable xs (length xs) room ≡ assertion
unfolding growtable
growtable_full xs room h = ground arith

put_held_past : (s : State) (f n flags : ℕ) → length s.fd < n → put_held s f n flags ≡ overrun
unfolding put_held
put_held_past s f n flags h = ground arith

dup_from_past :
    (s : State) (f n flags : ℕ) (room : Bool)
    → length s.fd ≤ n
    → n < 256
    → dup_from s f n flags room ≡ (if n == length s.fd then assertion else overrun)
unfolding dup_from
dup_from_past s f n flags room h lt = elim (Bool-cases (n == length s.fd)) [
  | inl e ↦
      let e' : n ≡ length s.fd = ground arith in
      let l : ltb n (length s.fd) ≡ false = ground arith in
      rw (getfree_past s.fd n h, e, l, dup_from)
        (rw (e', growtable_full s.fd room (omega (arith, e', lt)), grow_put) refl)
  | inr d ↦ rw (getfree_past s.fd n h, d, dup_from) (put_held_past s f n flags (ground arith))
]

-- In the other case a descriptor past the end of the table is taken as free: the store goes past the
-- end of the table. Asked for the one at the end, the code fails the assertion of `growtable`.
fd_dup_past :
    (s : State) (oldfd n f flags : ℕ) (room : Bool)
    → file_at s oldfd ≡ some f
    → length s.fd ≤ n
    → n < 256
    → fd_dup s oldfd (pos n) false flags room ≡ (if n == length s.fd then assertion else overrun)
unfolding fd_dup
fd_dup_past s oldfd n f flags room e h lt =
    let l : leb 256 n ≡ false = ground arith in
    rw (l, e, fd_dup) (dup_from_past s f n flags room h lt)
