-- ===== src/Pmm/Parts.antt =====
-- The atomic parts of the calls on pages, one by one: what each does to the lists, and that it leaves the
-- pages alone that other threads have between two parts.
use mathlib.Core.Bool.{false≢true}
use mathlib.Core.Path.{subst}
use astral.Base.{
  ℕ, zero, suc, ◌+◌, ◌-◌, ◌≡◌, ◌≢◌, ◌⊎◌, refl, ap, sym, ◌∙◌, Bool, true, false, ◌||◌, Option, none,
  some, ◌==◌, ltb, if◌then◌else◌, is_member, sub64, add64, arith, ==_iff, Bool-cases, inl, inr,
  Option-cases, ◌&&◌,
}
use astral.Pmm.{
  Page, Pmm, Ran, done, failed, stale, Taken, fresh, cached, nothing, broken, torn, section_of,
  is_backed, set_page, list_of, removefromfreelist, hold, give_up, put_free, doalloc, then_alloc,
  fresh_of, cached_of, take_found, find_free, find_standby, allocpage, claim, take_run, alloc_run,
  find_run, same_list,
}
use astral.Pmm.Alloc.{off_list}
use astral.Pmm.Lists.{
  IsSorted, Unlisted, used-Unlisted, touch-IsSorted, taken_out, taken_out-IsSorted,
  taken_out_members, taken_out-Unlisted,
}
use astral.Pmm.PutBack.{put_back_members, put_back_page, put_back_dirt, put_back-IsSorted}

-- A page that nobody uses and that is in no list.
abbrev pub IsAway : Pmm → ℕ → Type 0
IsAway m q = Unlisted m q × ((m.pages q).refcount ≡ 0) × ((m.pages q).is_dirty ≡ false)

-- A part that leaves the pages between two parts where they are.
pub record IsCalm (m m' : Pmm) : Type 0 where
  pub sorted : IsSorted m'
  pub apart : (q : ℕ) → IsAway m q → IsAway m' q

self-IsCalm : {m : Pmm} → IsSorted m → IsCalm m m
self-IsCalm v = record { sorted = v; apart = λ q a. a }

trans-IsCalm : {m m' m'' : Pmm} → IsCalm m m' → IsCalm m' m'' → IsCalm m m''
trans-IsCalm a b = record { sorted = b.sorted; apart = λ q x. b.apart q (a.apart q x) }

-- A change of a page that is in use leaves the others alone.
own-IsCalm :
    {m m' : Pmm} (page : ℕ)
    → IsSorted m'
    → (m.pages page).refcount ≢ 0
    → ((s : ℕ) (b : Bool) → m'.lists s b ≡ m.lists s b)
    → ((q : ℕ) → (page == q) ≡ false → m'.pages q ≡ m.pages q)
    → IsCalm m m'
own-IsCalm {m} page v z l f = record {
  sorted = v;
  apart = λ q (u, e, d). elim (Bool-cases (page == q)) [
    | inl k ↦
        let i : page ≡ q = (==_iff page q).0 k in absurd (z (ap (λ t. (m.pages t).refcount) i ∙ e))
    | inr k ↦ (
      λ s b. ap (is_member q) (l s b) ∙ u s b,
      ap (λ r. r.refcount) (f q k) ∙ e,
      ap (λ r. r.is_dirty) (f q k) ∙ d,
    )
  ];
}

pub touch-IsCalm :
    {m : Pmm} (page : ℕ) (r : Page)
    → IsSorted m
    → (m.pages page).refcount ≢ 0
    → IsCalm m (set_page m page r)
touch-IsCalm {m} page r v z =
    own-IsCalm page (touch-IsSorted page r v (used-Unlisted page v z)) z (λ s b. refl)
      (λ q k. rw k refl)

-- A page of a list that leaves it.
taken_out-IsCalm :
    {m : Pmm} (page : ℕ) (r : Page)
    → IsSorted m
    → is_member page (list_of m page) ≡ true
    → IsCalm m (taken_out m page r)
taken_out-IsCalm {m} page r v h = record {
  sorted = taken_out-IsSorted page r v;
  apart = λ q (u, e, d). elim (Bool-cases (page == q)) [
    | inl k ↦
        let i : page ≡ q = (==_iff page q).0 k in
        let n = u (section_of page) (is_backed (m.pages page).backing) in
        let f : is_member q (list_of m page) ≡ true =
          subst (λ t. is_member t (list_of m page) ≡ true) i h in
        absurd (cc)
    | inr k ↦ (λ s b. taken_out_members page r s b q v ∙ rw (u s b) refl, rw k e, rw k d)
  ];
}

-- What a part that changes the lists or counts promises where it comes to a state.
abbrev pub After : Pmm → Ran → Type 0
After m (done m') = IsCalm m m'
After m failed = Unit
After m stale = Unit

one_more : (n : ℕ) → (add64 n 1 == 1) ≡ false → n ≢ 0
one_more n h e =
    let g : (add64 0 1 == 1) ≡ false = subst (λ k. (add64 k 1 == 1) ≡ false) e h in
    absurd (false≢true (sym g))

self : (q : ℕ) → (q == q) ≡ true
self q = ground arith

pub hold-After : {m : Pmm} (page : ℕ) → IsSorted m → After m (hold m page)
unfolding hold removefromfreelist
hold-After {m} page v = elim (Bool-cases (add64 (m.pages page).refcount 1 == 1)) [
  | inr n ↦ rw n (touch-IsCalm page _ v (one_more (m.pages page).refcount n))
  | inl n ↦ elim (Bool-cases (m.pages page).is_free) [
    | inl f ↦ rw (n, f) tt
    | inr f ↦ elim (Bool-cases (is_member page (list_of m page))) [
      | inl h ↦ rw (n, f, self page, h) (taken_out-IsCalm page _ v h)
      | inr h ↦ rw (n, f, self page, h) tt
    ]
  ]
]

then_alloc-After :
    {m : Pmm} (page : ℕ) → IsSorted m → After m (then_alloc page (removefromfreelist m page))
unfolding doalloc removefromfreelist
then_alloc-After {m} page v = elim (Bool-cases (is_member page (list_of m page))) [
  | inr h ↦ rw h tt
  | inl h ↦ elim (Bool-cases ((m.pages page).refcount == 0)) [
    | inl z ↦ rw (h, z) (taken_out-IsCalm page _ v h)
    | inr z ↦ rw (h, z) tt
  ]
]

Ran-cases : (r : Ran) → ((m : Pmm) × (r ≡ done m)) ⊎ ((r ≡ failed) ⊎ (r ≡ stale))
Ran-cases (done m) = inl (m, refl)
Ran-cases failed = inr (inl refl)
Ran-cases stale = inr (inr refl)

onward-After : {m m' : Pmm} (r : Ran) → IsCalm m m' → After m' r → After m r
onward-After (done m'') c a = trans-IsCalm c a
onward-After failed c a = a
onward-After stale c a = a

take_run-After : {m : Pmm} (page n : ℕ) → IsSorted m → After m (take_run m page n)
unfolding take_run
take_run-After page zero v = self-IsCalm v
take_run-After {m} page (suc n) v = elim (Ran-cases (then_alloc page (removefromfreelist m page))) [
  | inl (m', e) ↦
      let c : IsCalm m m' = subst (After m) e (then_alloc-After page v) in
      rw (e, take_run)
        (onward-After (take_run m' (page + 1) n) c (take_run-After (page + 1) n c.sorted))
  | inr (inl e) ↦ rw (e, take_run) tt
  | inr (inr e) ↦ rw (e, take_run) tt
]

pub run-After : {m : Pmm} (size s : ℕ) → IsSorted m → After m (alloc_run m size s).1
unfolding alloc_run
run-After {m} size s v = elim (Option-cases (find_run m (suc s) size)) [
  | inl e ↦ rw e (self-IsCalm v)
  | inr (page, e) ↦ rw e (take_run-After (page - (size - 1)) size v)
]

abbrev pub AfterClaim : Pmm → Option (Pmm × Bool) → Type 0
AfterClaim m none = Unit
AfterClaim m (some (m', b)) = IsCalm m m'

used_of : (n : ℕ) → ltb 1 n ≡ true → n ≢ 0
used_of n h e = ground arith

used_once : (n : ℕ) → (n == 1) ≡ true → n ≢ 0
used_once n h e = ground arith

pub claim-After : {m : Pmm} (page : ℕ) → IsSorted m → AfterClaim m (claim m page)
unfolding claim doalloc
claim-After {m} page v = elim (Bool-cases (ltb 1 (m.pages page).refcount)) [
  | inl h ↦ rw h (self-IsCalm v)
  | inr h ↦ elim (Bool-cases ((m.pages page).refcount == 1)) [
    | inr n ↦ rw (h, n) tt
    | inl n ↦ elim (Bool-cases (m.pages page).is_dirty) [
      | inl d ↦ rw (h, n, d) tt
      | inr d ↦
          let z = used_once (m.pages page).refcount n in
          let u = used-Unlisted page v z in
          let w =
            touch-IsSorted page (record (m.pages page) { refcount = 0; is_dirty = false }) v u in
          rw (h, n, d, self page)
            (own-IsCalm {m = m} page (touch-IsSorted page _ w u) z (λ s b. refl) (λ q k. rw k refl))
    ]
  ]
]

abbrev pub AfterGive : Pmm → ℕ → Option (Pmm × Bool) → Type 0
AfterGive m page none = Unit
AfterGive m page (some (m', false)) = IsCalm m m'
AfterGive m page (some (m', true)) = IsCalm m m' × IsAway m' page

some_user : (n : ℕ) → (n == 0) ≡ false → n ≢ 0
some_user n h e = ground arith

pub give_up-After : {m : Pmm} (page : ℕ) → IsSorted m → AfterGive m page (give_up m page)
unfolding give_up
give_up-After {m} page v = elim (Bool-cases ((m.pages page).refcount == 0)) [
  | inl h ↦ rw h tt
  | inr h ↦
      let z = some_user (m.pages page).refcount h in
      let n = sub64 (m.pages page).refcount 1 in
      elim (Bool-cases (n == 0)) [
        | inr k ↦ rw (h, k) (touch-IsCalm page _ v z)
        | inl k ↦ elim (Bool-cases (m.pages page).is_dirty) [
          | inl d ↦ rw (h, k, d) tt
          | inr d ↦
              rw (h, k, d)
                (
                  touch-IsCalm page _ v z,
                  (used-Unlisted page v z, rw (self page) ((==_iff n 0).0 k), rw (self page) refl),
                )
        ]
      ]
]

-- A part that brings a page back, or into use, and leaves the others between two parts where they are.
pub record IsApart (m m' : Pmm) (page : ℕ) : Type 0 where
  pub sorted : IsSorted m'
  pub apart : (q : ℕ) → (page == q) ≡ false → IsAway m q → IsAway m' q

and_or : (b : Bool) → (b && false || false) ≡ false
and_or true = refl
and_or false = refl

pub put_free-IsApart :
    {m : Pmm} (page : ℕ) → IsSorted m → IsAway m page → IsApart m (put_free m page) page
unfolding put_free
put_free-IsApart {m} page v (u, z, d) = record {
  sorted = put_back-IsSorted page v u z d;
  apart = λ q k (x, e, f).
      let (i, j) = put_back_page m page q in
      (
        λ s b.
            rw (put_back_members m page s b q, x s b, k)
              (and_or (same_list (section_of page) (is_backed (m.pages page).backing) s b)),
        j ∙ e,
        put_back_dirt m page q ∙ f,
      );
}

abbrev pub AfterAlloc : Pmm → ℕ → Ran → Type 0
AfterAlloc m page (done m') = IsApart m m' page
AfterAlloc m page failed = Unit
AfterAlloc m page stale = Unit

pub doalloc-After :
    {m : Pmm} (page : ℕ) → IsSorted m → IsAway m page → AfterAlloc m page (doalloc m page)
unfolding doalloc
doalloc-After {m} page v (u, z, d) =
    rw z
      (record { sorted = touch-IsSorted page _ v u; apart = λ q k (x, e, f). (x, rw k e, rw k f) })

abbrev pub AfterTake : Pmm → Taken → Type 0
AfterTake m (fresh page m') = IsCalm m m' × IsAway m' page
AfterTake m (cached page m') = IsCalm m m'
AfterTake m nothing = Unit
AfterTake m broken = Unit
AfterTake m torn = Unit

same_pages : (m : Pmm) (page : ℕ) → taken_out m page (m.pages page) ≡ off_list m page
same_pages m page = λ i. record (off_list m page) { pages = λ q. same_page q i }
  where
    same_page : (q : ℕ) → (if page == q then m.pages page else m.pages q) ≡ m.pages q
    same_page q = elim (Bool-cases (page == q)) [
      | inl k ↦ rw k (ap m.pages ((==_iff page q).0 k))
      | inr k ↦ rw k refl
    ]

fresh-After :
    {m : Pmm} (page : ℕ) → IsSorted m → AfterTake m (fresh_of page (removefromfreelist m page))
unfolding removefromfreelist
fresh-After {m} page v = elim (Bool-cases (is_member page (list_of m page))) [
  | inr h ↦ rw h tt
  | inl h ↦ elim (Bool-cases ((m.pages page).refcount == 0)) [
    | inr z ↦ rw (h, z) tt
    | inl z ↦
        let c = v.clean (section_of page) (is_backed (m.pages page).backing) page h in
        rw (h, z)
          (
            subst (IsCalm m) (same_pages m page) (taken_out-IsCalm page (m.pages page) v h),
            (taken_out-Unlisted page (m.pages page) v, (==_iff (m.pages page).refcount 0).0 z, c),
          )
  ]
]

cached-After : (m : Pmm) (page : ℕ) (r : Ran) → After m r → AfterTake m (cached_of page r)
cached-After m page (done m') a = a
cached-After m page failed a = a
cached-After m page stale a = a

found-After : {m : Pmm} (o p : Option ℕ) → IsSorted m → AfterTake m (take_found m o p)
found-After (some page) p v = fresh-After page v
found-After {m} none (some page) v = cached-After m page (hold m page) (hold-After page v)
found-After none none v = tt

pub allocpage-After : {m : Pmm} (s : ℕ) → IsSorted m → AfterTake m (allocpage m s)
unfolding allocpage
allocpage-After {m} s v = found-After (find_free m (suc s)) (find_standby m (suc s)) v
