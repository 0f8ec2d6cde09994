-- ===== src/Pmm.antt =====
-- Physical pages: kernel-src/mm/pmm.c. A page goes by its number, and the lists of free pages and of
-- cached pages nobody uses are lists from their head on, whose tail is their last member.
pub mod Lists
pub mod PutBack
pub mod Alloc
mod Boot
pub mod Run
pub mod Parts
pub mod Reach
mod Tests
use astral.Base.{
  ℕ, zero, suc, ◌+◌, ◌-◌, ◌*◌, Bool, true, false, not, ◌&&◌, ◌||◌, Option, none, some, List, [],
  ◌∷◌, ◌==◌, ltb, if◌then◌else◌, is_member, erase, add64, sub64,
}

-- The fields of `page_t` that are read here: PAGE_FLAGS_FREE and PAGE_FLAGS_DIRTY of its flags.
pub record Page : Type 0 where
  pub backing : Option ℕ
  pub refcount : ℕ
  pub is_free : Bool
  pub is_dirty : Bool

-- The lists are by section and by whether they hold pages with a backing vnode (`standbylists`) or
-- without (`freelists`).
pub record Pmm : Type 0 where
  pub pages : ℕ → Page
  pub lists : ℕ → Bool → List ℕ
  pub searchstart : ℕ → ℕ
  pub freepagecount : ℕ
  pub pagecount : ℕ

-- TOP_1MB and TOP_4GB, in pages.
abbrev pub top_1mb : ℕ
top_1mb = 256

abbrev pub top_4gb : ℕ
top_4gb = 1048576

-- The section of a page: PMM_SECTION_1MB, PMM_SECTION_4GB or PMM_SECTION_DEFAULT.
abbrev pub section_of : ℕ → ℕ
section_of page = if ltb page top_1mb then 0 else if ltb page top_4gb then 1 else 2

abbrev pub topid : ℕ → ℕ
topid s = if s == 0 then top_1mb else if s == 1 then top_4gb else 2 * 9223372036854775807 + 1

abbrev pub is_backed : Option ℕ → Bool
is_backed none = false
is_backed (some v) = true

abbrev pub same_list : ℕ → Bool → ℕ → Bool → Bool
same_list s true t true = s == t
same_list s true t false = false
same_list s false t true = false
same_list s false t false = s == t

abbrev pub set_page : Pmm → ℕ → Page → Pmm
set_page m page r = record m { pages = λ q. if page == q then r else m.pages q }

abbrev pub set_list : Pmm → ℕ → Bool → List ℕ → Pmm
set_list m s b l = record m { lists = λ t c. if same_list s b t c then l else m.lists t c }

-- The list that a page goes to.
abbrev pub list_of : Pmm → ℕ → List ℕ
list_of m page = m.lists (section_of page) (is_backed (m.pages page).backing)

abbrev pub put_list : Pmm → ℕ → List ℕ → Pmm
put_list m page l = set_list m (section_of page) (is_backed (m.pages page).backing) l

-- `insertinfreelist`
unfoldable pub insertinfreelist : Pmm → ℕ → Pmm
insertinfreelist m page =
    let m' = put_list m page (page ∷ list_of m page) in
    record m' {
      searchstart =
          λ s. if section_of page == s && ltb page (m.searchstart s) then page else m.searchstart s;
      freepagecount = add64 m.freepagecount 1;
    }

-- What an operation comes to: a state, a failed assertion, or a page that was unlinked while it was in
-- no list. The code does not test for that: it follows the links that the page was left with, and what
-- becomes of the lists then is not modelled.
pub data Ran : Type 0 where
  done : Pmm → Ran
  failed : Ran
  stale : Ran

-- `removefromfreelist`
unfoldable pub removefromfreelist : Pmm → ℕ → Ran
removefromfreelist m page =
    if is_member page (list_of m page)
    then done (record (put_list m page (erase page (list_of m page))) {
      freepagecount = sub64 m.freepagecount 1;
    })
    else stale

abbrev pub set_refcount : Pmm → ℕ → ℕ → Pmm
set_refcount m page n = set_page m page (record (m.pages page) { refcount = n })

-- `internalhold`
unfoldable pub hold : Pmm → ℕ → Ran
unfolding removefromfreelist
hold m page =
    let n = add64 (m.pages page).refcount 1 in
    let m' = set_refcount m page n in
    if n == 1
    then (if (m.pages page).is_free then failed else removefromfreelist m' page)
    else done m'

-- A page comes back to its list.
abbrev pub set_free : Pmm → ℕ → Pmm
set_free m page =
    let r = m.pages page in
    set_page m page (record r { is_free = if is_backed r.backing then r.is_free else true })

-- The part of `pmm_release` before its mutex, nothing where an assertion fails: whether the page has lost
-- its last user.
unfoldable pub give_up : Pmm → ℕ → Option (Pmm × Bool)
give_up m page =
    let n = sub64 (m.pages page).refcount 1 in
    if (m.pages page).refcount == 0
    then none
    else if not (n == 0)
    then some (set_refcount m page n, false)
    else if (m.pages page).is_dirty
    then none
    else some (set_refcount m page n, true)

-- The part under the mutex, for a page without users.
unfoldable pub put_free : Pmm → ℕ → Pmm
unfolding insertinfreelist
put_free m page = set_free (insertinfreelist m page) page

abbrev pub release_rest : ℕ → Option (Pmm × Bool) → Ran
release_rest page none = failed
release_rest page (some (m, false)) = done m
release_rest page (some (m, true)) = done (put_free m page)

-- `pmm_release`, when nothing else comes between the two.
unfoldable pub release : Pmm → ℕ → Ran
unfolding give_up put_free
release m page = release_rest page (give_up m page)

-- `doalloc`
unfoldable pub doalloc : Pmm → ℕ → Ran
doalloc m page =
    if (m.pages page).refcount == 0
    then done (
        set_page m page
          (record { backing = none; refcount = 1; is_free = false; is_dirty = false }))
    else failed

abbrev pub head : List ℕ → Option ℕ
head [] = none
head (x ∷ xs) = some x

abbrev pub last : List ℕ → Option ℕ
last [] = none
last (x ∷ []) = some x
last (x ∷ y ∷ ys) = last (y ∷ ys)

abbrev pub or_then : Option ℕ → Option ℕ → Option ℕ
or_then none o = o
or_then (some x) o = some x

-- The first free page of the sections below `n`, the highest first, and the last page of their
-- standby lists.
abbrev pub find_free : Pmm → ℕ → Option ℕ
find_free m zero = none
find_free m (suc s) = or_then (head (m.lists s false)) (find_free m s)

abbrev pub find_standby : Pmm → ℕ → Option ℕ
find_standby m zero = none
find_standby m (suc s) = or_then (last (m.lists s true)) (find_standby m s)

-- What `pmm_allocpage` has when it gives up the mutex: a page off the free list, a cached page it holds,
-- no page, a failed assertion, or a page that was in no list.
pub data Taken : Type 0 where
  fresh : ℕ → Pmm → Taken
  cached : ℕ → Pmm → Taken
  nothing : Taken
  broken : Taken
  torn : Taken

abbrev pub fresh_of : ℕ → Ran → Taken
fresh_of page (done m) = if (m.pages page).refcount == 0 then fresh page m else broken
fresh_of page failed = broken
fresh_of page stale = torn

abbrev pub cached_of : ℕ → Ran → Taken
cached_of page (done m) = cached page m
cached_of page failed = broken
cached_of page stale = torn

-- `pmm_allocpage` under its mutex.
abbrev pub take_found : Pmm → Option ℕ → Option ℕ → Taken
take_found m (some page) o = fresh_of page (removefromfreelist m page)
take_found m none (some page) = cached_of page (hold m page)
take_found m none none = nothing

unfoldable pub allocpage : Pmm → ℕ → Taken
unfolding removefromfreelist hold
allocpage m section = take_found m (find_free m (suc section)) (find_standby m (suc section))

abbrev pub claimed_of : Ran → Option (Pmm × Bool)
claimed_of (done m) = some (m, true)
claimed_of failed = none
claimed_of stale = none

-- What `pmm_allocpage` does with a cached page after its mutex: `vmmcache_takepage`, and `doalloc` unless
-- somebody else has come to hold the page, when it gives it back with `pmm_release` and starts again.
-- Nothing where an assertion fails.
unfoldable pub claim : Pmm → ℕ → Option (Pmm × Bool)
unfolding doalloc
claim m page =
    if ltb 1 (m.pages page).refcount
    then some (m, false)
    else if not ((m.pages page).refcount == 1) || (m.pages page).is_dirty
    then none
    else claimed_of (doalloc (set_refcount m page 0) page)

-- The pages from `page` on, in the scan of `pmm_alloc` of a section up to `top`: `found` pages before
-- this one are free. What it gives is the last page of the run.
unfoldable pub scan : ℕ → Pmm → ℕ → ℕ → ℕ → ℕ → Option ℕ
scan zero m top page found size = none
scan (suc fuel) m top page found size =
    let found' = if (m.pages page).is_free then found + 1 else 0 in
    let rest = scan fuel m top (page + 1) found' size in
    if ltb page top && ltb page m.pagecount
    then (if found' == size then some page else rest)
    else none

-- The scans of the sections below `n`, the highest first.
unfoldable pub find_run : Pmm → ℕ → ℕ → Option ℕ
unfolding scan
find_run m zero size = none
find_run m (suc s) size =
    or_then (scan (suc m.pagecount - m.searchstart s) m (topid s) (m.searchstart s) 0 size)
      (find_run m s size)

abbrev pub then_alloc : ℕ → Ran → Ran
then_alloc page (done m) = doalloc m page
then_alloc page failed = failed
then_alloc page stale = stale

-- `removefromfreelist` and `doalloc` of pages in a row.
unfoldable pub take_run : Pmm → ℕ → ℕ → Ran
unfolding removefromfreelist doalloc
take_run m page zero = done m
take_run m page (suc n) = elim (then_alloc page (removefromfreelist m page)) [
  | done m' ↦ take_run m' (page + 1) n
  | failed ↦ failed
  | stale ↦ stale
]

abbrev pub take_from : Pmm → ℕ → Option ℕ → Option ℕ × Ran
take_from m size none = (none, done m)
take_from m size (some page) = (some (page - (size - 1)), take_run m (page - (size - 1)) size)

-- `pmm_alloc` of more than one page: the first page of the run, or none.
unfoldable pub alloc_run : Pmm → ℕ → ℕ → Option ℕ × Ran
unfolding find_run take_run
alloc_run m size section = take_from m size (find_run m (suc section) size)

-- `pmm_makefree`, which leaves PAGE_FLAGS_FREE as it is.
unfoldable pub makefree : Pmm → ℕ → ℕ → Pmm
unfolding insertinfreelist
makefree m page zero = m
makefree m page (suc n) = makefree (insertinfreelist m page) (page + 1) n

-- `pmm_free`, when nothing else comes between.
unfoldable pub free_run : Pmm → ℕ → ℕ → Ran
unfolding release
free_run m page zero = done m
free_run m page (suc n) = elim (release m page) [
  | done m' ↦ free_run m' (page + 1) n
  | failed ↦ failed
  | stale ↦ stale
]

-- `pmm_init` before the lists are filled, with its pages cleared, and the pages of one range of its
-- memory map.
unfoldable pub no_pages : ℕ → Pmm
no_pages count = record {
  pages = λ q. record { backing = none; refcount = 0; is_free = false; is_dirty = false };
  lists = λ s b. [];
  searchstart = λ s. if s == 0 then 0 else if s == 1 then top_1mb else top_4gb;
  freepagecount = 0;
  pagecount = count;
}

abbrev pub free_page : Pmm → ℕ → Pmm
free_page m page =
    insertinfreelist (set_page m page (record (m.pages page) { is_free = true })) page

unfoldable pub free_pages : Pmm → ℕ → ℕ → Pmm
unfolding insertinfreelist
free_pages m page zero = m
free_pages m page (suc n) = free_pages (free_page m page) (page + 1) n
