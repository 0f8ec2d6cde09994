-- ===== src/Pmm/Alloc.antt =====
-- Which page `pmm_allocpage` gives, that none of its assertions fails, and when it has none.
use astral.Base.{
  ℕ, zero, suc, ◌≤◌, ◌≡◌, ◌≢◌, ◌⊎◌, refl, ap, sym, ◌∙◌, Bool, true, false, Option, none, some, List,
  [], ◌∷◌, ◌==◌, is_member, arith, ==_iff, Bool-cases, inl, inr,
}
use mathlib.Core.Path.{subst⁻¹}
use astral.Base.{erase, sub64}
use astral.Pmm.{
  Page, Pmm, Taken, fresh, cached, nothing, broken, torn, done, section_of, list_of, put_list,
  set_page, set_refcount, removefromfreelist, hold, doalloc, claim, then_alloc, fresh_of, cached_of,
  take_found, find_free, find_standby, allocpage, head, last, or_then,
}
use astral.Pmm.Lists.{IsValid, Unlisted, IsListed, taken_out, taken_out-Unlisted}

-- A state in which a page has one user more than in another, and was in nobody's use there.
pub record IsHanded (m m' : Pmm) (page : ℕ) : Type 0 where
  pub unused : (m.pages page).refcount ≡ 0
  pub used : (m'.pages page).refcount ≡ 1
  pub unlisted : Unlisted m' page
  pub others : (q : ℕ) → (page ≡ q) ⊎ (m'.pages q ≡ m.pages q)

abbrev pub IsEmptyUpTo : Pmm → ℕ → Bool → Type 0
IsEmptyUpTo m s b = (t : ℕ) → (s ≤ t) ⊎ (m.lists t b ≡ [])

-- What `pmm_allocpage` promises of its outcome: of `doalloc` for a free page, and of the claim of a
-- cached one.
abbrev pub Outcome : Pmm → ℕ → Taken → Type 0
Outcome m s (fresh page m') =
    (section_of page ≤ s) × ((m'' : Pmm) × ((doalloc m' page ≡ done m'') × IsHanded m m'' page))
Outcome m s (cached page m') =
    (section_of page ≤ s)
    × IsEmptyUpTo m (suc s) false
    × ((m'' : Pmm) × ((claim m' page ≡ some (m'', true)) × IsHanded m m'' page))
Outcome m s nothing = IsEmptyUpTo m (suc s) false × IsEmptyUpTo m (suc s) true
Outcome m s broken = ⊥
Outcome m s torn = ⊥

-- A page that a search of the lists gives is in one of them, and a search that gives none has seen
-- them empty.
abbrev Found : Pmm → ℕ → Bool → Option ℕ → Type 0
Found m n b none = IsEmptyUpTo m n b
Found m n b (some page) =
    (suc (section_of page) ≤ n)
    × IsListed m (section_of page) b page
    × (is_member page (m.lists (section_of page) b) ≡ true)

-- What the head or the last of a list is.
abbrev Pick : List ℕ → Option ℕ → Type 0
Pick l none = l ≡ []
Pick l (some x) = is_member x l ≡ true

self : (x : ℕ) → (x == x) ≡ true
self x = ground arith

head-Pick : (l : List ℕ) → Pick l (head l)
head-Pick [] = refl
head-Pick (x ∷ xs) = rw (self x) refl

last_cons-Pick : (x : ℕ) (l : List ℕ) (o : Option ℕ) → Pick l o → l ≢ [] → Pick (x ∷ l) o
last_cons-Pick x l none e n = absurd (n e)
last_cons-Pick x l (some y) e n = ground (arith, e)

last-Pick : (l : List ℕ) → Pick l (last l)
last-Pick [] = refl
last-Pick (x ∷ []) = rw (self x) refl
last-Pick (x ∷ y ∷ ys) =
    last_cons-Pick x (y ∷ ys) (last (y ∷ ys)) (last-Pick (y ∷ ys)) (λ e. absurd (cc))

first_empty :
    (m : Pmm) (s : ℕ) (b : Bool) → m.lists s b ≡ [] → IsEmptyUpTo m s b → IsEmptyUpTo m (suc s) b
first_empty m s b e f t = elim (f t) [
  | inl h ↦ elim (Bool-cases (s == t)) [
    | inl k ↦ inr (ap (λ u. m.lists u b) (sym ((==_iff s t).0 k)) ∙ e)
    | inr k ↦ inl (ground arith)
  ]
  | inr h ↦ inr h
]

or_then-Found :
    {m : Pmm} (s : ℕ) (b : Bool) (o p : Option ℕ)
    → IsValid m
    → Pick (m.lists s b) o
    → Found m s b p
    → Found m (suc s) b (or_then o p)
or_then-Found {m} s b none none v e f = first_empty m s b e f
or_then-Found s b none (some page) v e (h, l, i) = (ground arith, l, i)
or_then-Found {m} s b (some page) p v e f =
    let (x, y, z) = v.sorted.listed s b page e in (ground arith, (refl, y, z), rw x e)

find_free-Found : {m : Pmm} (n : ℕ) → IsValid m → Found m n false (find_free m n)
find_free-Found zero v = λ t. inl (omega arith)
find_free-Found {m} (suc s) v =
    or_then-Found s false (head (m.lists s false)) (find_free m s) v (head-Pick (m.lists s false))
      (find_free-Found s v)

find_standby-Found : {m : Pmm} (n : ℕ) → IsValid m → Found m n true (find_standby m n)
find_standby-Found zero v = λ t. inl (omega arith)
find_standby-Found {m} (suc s) v =
    or_then-Found s true (last (m.lists s true)) (find_standby m s) v (last-Pick (m.lists s true))
      (find_standby-Found s v)

-- A listed page that leaves its list with one user is handed to that user.
pub taken_out-IsHanded :
    {m : Pmm} (page : ℕ) (r : Page)
    → IsValid m
    → (m.pages page).refcount ≡ 0
    → r.refcount ≡ 1
    → IsHanded m (taken_out m page r) page
taken_out-IsHanded {m} page r v z o = record {
  unused = z;
  used = rw (self page) o;
  unlisted = taken_out-Unlisted page r v.sorted;
  others = λ q. elim (Bool-cases (page == q)) [
    | inl k ↦ inl ((==_iff page q).0 k)
    | inr k ↦ inr (rw k refl)
  ];
}

own_list :
    (m : Pmm) (page : ℕ) (b : Bool)
    → IsListed m (section_of page) b page
    → is_member page (m.lists (section_of page) b) ≡ true
    → is_member page (list_of m page) ≡ true
own_list m page b (x, y, z) h = ap (λ t. is_member page (m.lists (section_of page) t)) y ∙ h

-- The state when a free page has been allocated.
abbrev pub one_taken : Pmm → ℕ → Pmm
one_taken m page =
    taken_out m page (record { backing = none; refcount = 1; is_free = false; is_dirty = false })

-- A page off its list.
abbrev pub off_list : Pmm → ℕ → Pmm
off_list m page = record (put_list m page (erase page (list_of m page))) {
  freepagecount = sub64 m.freepagecount 1;
}

remove_eq :
    (m : Pmm) (page : ℕ)
    → IsListed m (section_of page) false page
    → is_member page (m.lists (section_of page) false) ≡ true
    → removefromfreelist m page ≡ done (off_list m page)
unfolding removefromfreelist
remove_eq m page l h = rw (own_list m page false l h) refl

doalloc_eq :
    (m : Pmm) (page : ℕ)
    → (m.pages page).refcount ≡ 0
    → doalloc (off_list m page) page ≡ done (one_taken m page)
unfolding doalloc
doalloc_eq m page z = rw z refl

pub taken_eq :
    (m : Pmm) (page : ℕ)
    → IsListed m (section_of page) false page
    → is_member page (m.lists (section_of page) false) ≡ true
    → then_alloc page (removefromfreelist m page) ≡ done (one_taken m page)
taken_eq m page l h = ap (then_alloc page) (remove_eq m page l h) ∙ doalloc_eq m page (l.2)

fresh_eq :
    (m : Pmm) (page : ℕ)
    → IsListed m (section_of page) false page
    → is_member page (m.lists (section_of page) false) ≡ true
    → fresh_of page (removefromfreelist m page) ≡ fresh page (off_list m page)
fresh_eq m page l h = ap (fresh_of page) (remove_eq m page l h) ∙ rw (l.2) refl

-- A cached page that is held.
abbrev held_page : Pmm → ℕ → Pmm
held_page m page = taken_out m page (record (m.pages page) { refcount = 1 })

hold_eq :
    (m : Pmm) (page : ℕ)
    → (m.pages page).is_free ≡ false
    → IsListed m (section_of page) true page
    → is_member page (m.lists (section_of page) true) ≡ true
    → cached_of page (hold m page) ≡ cached page (held_page m page)
unfolding hold removefromfreelist
hold_eq m page f l h = rw (l.2, f, self page, own_list m page true l h) refl

-- The page once it is claimed.
abbrev claimed_page : Pmm → ℕ → Pmm
claimed_page m page =
    set_page (set_refcount (held_page m page) page 0) page
      (record { backing = none; refcount = 1; is_free = false; is_dirty = false })

claim_eq :
    (m : Pmm) (page : ℕ)
    → (m.pages page).is_dirty ≡ false
    → claim (held_page m page) page ≡ some (claimed_page m page, true)
unfolding claim doalloc
claim_eq m page d = rw (self page, d) refl

claimed_page-IsHanded :
    {m : Pmm} (page : ℕ)
    → IsValid m
    → (m.pages page).refcount ≡ 0
    → IsHanded m (claimed_page m page) page
claimed_page-IsHanded {m} page v z = record {
  unused = z;
  used = rw (self page) refl;
  unlisted = taken_out-Unlisted page (record (m.pages page) { refcount = 1 }) v.sorted;
  others = λ q. elim (Bool-cases (page == q)) [
    | inl k ↦ inl ((==_iff page q).0 k)
    | inr k ↦ inr (rw k refl)
  ];
}

-- A page of a standby list is not marked free.
cached-flag :
    {m : Pmm} (page : ℕ)
    → IsValid m
    → IsListed m (section_of page) true page
    → (m.pages page).is_free ≡ false
cached-flag {m} page v (x, y, z) = elim (Bool-cases (m.pages page).is_free) [
  | inl h ↦
      let (i, j, k) = v.sorted.listed (section_of page) false page (v.flagged page h) in absurd (cc)
  | inr h ↦ h
]

found-Outcome :
    {m : Pmm} (s : ℕ) (o p : Option ℕ)
    → IsValid m
    → Found m (suc s) false o
    → Found m (suc s) true p
    → Outcome m s (take_found m o p)
found-Outcome {m} s (some page) p v (h, l, i) g = subst⁻¹ (Outcome m s) (fresh_eq m page l i) (
  ground arith,
  (one_taken m page, (doalloc_eq m page (l.2), taken_out-IsHanded page _ v (l.2) refl)),
)
found-Outcome {m} s none (some page) v f (h, l, i) =
    subst⁻¹ (Outcome m s) (hold_eq m page (cached-flag page v l) l i) (
      ground arith,
      f,
      (
        claimed_page m page,
        (
          claim_eq m page (v.sorted.clean (section_of page) true page i),
          claimed_page-IsHanded page v (l.2),
        ),
      ),
    )
found-Outcome s none none v f g = (f, g)

-- In a valid state, no assertion of pmm_allocpage under its mutex fails, and it unlinks no page that is in no
-- list. Where it has a free page then, doalloc, when nothing else comes between, fails no assertion. Where
-- it holds a cached page then, neither do the claim of the page by vmmcache_takepage and doalloc, when
-- nothing else comes between, and the claim succeeds. The page that it gives lies in a section up to the
-- one asked for, had no user, has one afterwards and is in no list, and all other pages are as before. It
-- takes a page from the cache only when the free lists of those sections are empty, and has none only
-- when the lists of cached pages are empty too.
pub allocpage-Outcome : {m : Pmm} (s : ℕ) → IsValid m → Outcome m s (allocpage m s)
unfolding allocpage
allocpage-Outcome {m} s v =
    found-Outcome s (find_free m (suc s)) (find_standby m (suc s)) v (find_free-Found (suc s) v)
      (find_standby-Found (suc s) v)
