-- ===== src/Pmm/Reach.antt =====
-- The physical page allocator as a whole: its atomic parts as steps of any threads in any order, and what
-- holds of every state that they reach.
use astral.Base.{ℕ, ◌≡◌, ◌≢◌, ◌⊎◌, Bool, true, false, Option, some, ◌==◌, if◌then◌else◌}
use astral.Pmm.{
  Page, Pmm, done, fresh, cached, set_page, hold, give_up, put_free, doalloc, allocpage, claim,
  alloc_run,
}
use astral.Pmm.Lists.{IsSorted}
use astral.Pmm.Parts.{IsAway}

-- The allocator, and the pages that a thread has between two parts of a call: off their list and not
-- allocated yet, or without users and not in a list yet.
pub record System : Type 0 where
  pub pmm : Pmm
  pub between : ℕ → Bool

abbrev pub mark : System → Pmm → ℕ → Bool → System
mark w m page b = record { pmm = m; between = λ q. if page == q then b else w.between q }

-- What a holder of a page does to it: it may get a backing vnode, lose it, and become dirty or clean.
abbrev pub with_content : Page → Option ℕ → Bool → Page
with_content r o d = record r { backing = o; is_dirty = d }

-- One atomic part of a call, which comes to a state: `pmm_allocpage` under its mutex, its `doalloc`, and
-- its claim of a cached page; `pmm_alloc`; `pmm_hold`; the two parts of `pmm_release`; or a change of the
-- content of a page by a holder.
pub data Step : System → System → Type 0 where
  took :
      {w : System} {m' : Pmm} (s page : ℕ)
      → allocpage w.pmm s ≡ fresh page m'
      → Step w (mark w m' page true)
  allocated :
      {w : System} {m' : Pmm} (page : ℕ)
      → w.between page ≡ true
      → doalloc w.pmm page ≡ done m'
      → Step w (mark w m' page false)
  took_cached :
      {w : System} {m' : Pmm} (s page : ℕ)
      → allocpage w.pmm s ≡ cached page m'
      → Step w (record w { pmm = m' })
  claimed :
      {w : System} {m' : Pmm} (page : ℕ) (b : Bool)
      → claim w.pmm page ≡ some (m', b)
      → Step w (record w { pmm = m' })
  took_run :
      {w : System} {m' : Pmm} (size s : ℕ) (o : Option ℕ)
      → alloc_run w.pmm size s ≡ (o, done m')
      → Step w (record w { pmm = m' })
  held :
      {w : System} {m' : Pmm} (page : ℕ)
      → hold w.pmm page ≡ done m'
      → Step w (record w { pmm = m' })
  shared :
      {w : System} {m' : Pmm} (page : ℕ)
      → give_up w.pmm page ≡ some (m', false)
      → Step w (record w { pmm = m' })
  gave_up :
      {w : System} {m' : Pmm} (page : ℕ)
      → give_up w.pmm page ≡ some (m', true)
      → Step w (mark w m' page true)
  put :
      {w : System} (page : ℕ)
      → w.between page ≡ true
      → Step w (mark w (put_free w.pmm page) page false)
  changed :
      {w : System} (page : ℕ) (o : Option ℕ) (d : Bool)
      → (w.pmm.pages page).refcount ≢ 0
      → Step w (record w { pmm = set_page w.pmm page (with_content (w.pmm.pages page) o d) })

pub data Reach (w : System) : System → Type 0 where
  start : Reach w w
  next : {w' w'' : System} → Reach w w' → Step w' w'' → Reach w w''

pub record IsSound (w : System) : Type 0 where
  pub sorted : IsSorted w.pmm
  pub away : (q : ℕ) → (w.between q ≡ false) ⊎ IsAway w.pmm q
