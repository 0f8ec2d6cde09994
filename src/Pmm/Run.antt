-- ===== src/Pmm/Run.antt =====
-- `pmm_alloc` of several pages: the pages that its scan finds are free, and it takes all of them.
use mathlib.Core.Path.{subst, subst⁻¹}
use astral.Base.{
  ℕ, zero, suc, ◌+◌, ◌-◌, ◌≤◌, ◌≡◌, ◌⊎◌, refl, ap, sym, ◌∙◌, Bool, true, false, ◌&&◌, Option, none,
  some, ◌==◌, ltb, if◌then◌else◌, arith, ==_iff, Bool-cases, inl, inr,
}
use astral.Pmm.{
  Pmm, section_of, scan, find_run, take_run, alloc_run, removefromfreelist, then_alloc, or_then,
  topid, take_from, Ran, done, failed, stale,
}
use astral.Pmm.Lists.{IsValid, taken_out-IsValid}
use astral.Pmm.Alloc.{IsHanded, one_taken, taken_out-IsHanded, taken_eq}

-- `n` pages from `page` on that are marked free, or have one user.
abbrev pub IsFreeRun : Pmm → ℕ → ℕ → Type 0
IsFreeRun m page n = (k : ℕ) → (n ≤ k) ⊎ ((m.pages (page + k)).is_free ≡ true)

-- The state after a run was taken from another.
pub record IsTaken (m m' : Pmm) (page n : ℕ) : Type 0 where
  pub valid : IsValid m'
  pub used : (k : ℕ) → (n ≤ k) ⊎ ((m'.pages (page + k)).refcount ≡ 1)
  pub others : (q : ℕ) → ((page ≤ q) × (suc q ≤ page + n)) ⊎ (m'.pages q ≡ m.pages q)

abbrev Taking : Pmm → ℕ → ℕ → Ran → Type 0
Taking m page n (done m') = IsTaken m m' page n
Taking m page n failed = ⊥
Taking m page n stale = ⊥

p0 : (p : ℕ) → p + 0 ≡ p
p0 p = omega arith

ps : (p k : ℕ) → p + suc k ≡ p + 1 + k
ps p k = omega arith

one-Eq :
    {m : Pmm} (page : ℕ)
    → IsValid m
    → (m.pages page).is_free ≡ true
    → then_alloc page (removefromfreelist m page) ≡ done (one_taken m page)
one-Eq {m} page v f =
    let h = v.flagged page f in taken_eq m page (v.sorted.listed (section_of page) false page h) h

next_used :
    {m m' : Pmm} (m1 : Pmm) (page n : ℕ)
    → IsHanded m m1 page
    → IsTaken m1 m' (page + 1) n
    → (k : ℕ) → (suc n ≤ k) ⊎ ((m'.pages (page + k)).refcount ≡ 1)
next_used {m' = m'} m1 page n h t zero = elim (t.others page) [
  | inl (i, j) ↦ absurd (omega arith)
  | inr e ↦
      inr (subst (λ q. (m'.pages q).refcount ≡ 1) (sym (p0 page)) (ap (λ r. r.refcount) e ∙ h.used))
]
next_used {m' = m'} m1 page n h t (suc k) = elim (t.used k) [
  | inl i ↦ inl (omega arith)
  | inr e ↦ inr (subst (λ q. (m'.pages q).refcount ≡ 1) (sym (ps page k)) e)
]

next_others :
    {m m' : Pmm} (m1 : Pmm) (page n : ℕ)
    → IsHanded m m1 page
    → IsTaken m1 m' (page + 1) n
    → (q : ℕ) → ((page ≤ q) × (suc q ≤ page + suc n)) ⊎ (m'.pages q ≡ m.pages q)
next_others m1 page n h t q = elim (t.others q) [
  | inl (i, j) ↦ inl (omega arith, omega arith)
  | inr e ↦ elim (h.others q) [ inl f ↦ inl (omega arith, omega arith) | inr f ↦ inr (e ∙ f) ]
]

next-Taking :
    {m : Pmm} (m1 : Pmm) (page n : ℕ) (o : Ran)
    → IsHanded m m1 page
    → Taking m1 (page + 1) n o
    → Taking m page (suc n) o
next-Taking m1 page n failed h t = t
next-Taking m1 page n stale h t = t
next-Taking m1 page n (done m') h t = record {
  valid = t.valid;
  used = next_used m1 page n h t;
  others = next_others m1 page n h t;
}

rest-IsFreeRun :
    (m : Pmm) (page n : ℕ) → IsFreeRun m page (suc n) → IsFreeRun (one_taken m page) (page + 1) n
rest-IsFreeRun m page n r k = elim (r (suc k)) [
  | inl i ↦ inl (omega arith)
  | inr i ↦
      let h : (page == page + 1 + k) ≡ false = ground arith in
      inr (rw h (subst (λ q. (m.pages q).is_free ≡ true) (ps page k) i))
]

take_run_step :
    {m : Pmm} (page n : ℕ)
    → IsValid m
    → (m.pages page).is_free ≡ true
    → take_run m page (suc n) ≡ take_run (one_taken m page) (page + 1) n
unfolding take_run
take_run_step page n v f = rw (one-Eq page v f, take_run) refl

take_run-Taking :
    (m : Pmm) (page n : ℕ) → IsValid m → IsFreeRun m page n → Taking m page n (take_run m page n)
unfolding take_run
take_run-Taking m page zero v r = record {
  valid = v;
  used = λ k. inl (omega arith);
  others = λ q. inr refl;
}
take_run-Taking m page (suc n) v r = elim (r 0) [
  | inl h ↦ absurd (omega arith)
  | inr h ↦
      let f = subst (λ q. (m.pages q).is_free ≡ true) (p0 page) h in
      let l = v.sorted.listed (section_of page) false page (v.flagged page f) in
      subst⁻¹ (Taking m page (suc n)) (take_run_step page n v f) (
        next-Taking (one_taken m page) page n (take_run (one_taken m page) (page + 1) n)
          (taken_out-IsHanded page _ v (l.2) refl)
          (take_run-Taking (one_taken m page) (page + 1) n (taken_out-IsValid page _ v refl)
            (rest-IsFreeRun m page n r)))
]

empty-IsFreeRun : (m : Pmm) (page : ℕ) → IsFreeRun m page 0
empty-IsFreeRun m page k = inl (omega arith)

longer-IsFreeRun :
    (m : Pmm) (first found page : ℕ)
    → first + found ≡ page
    → IsFreeRun m first found
    → (m.pages page).is_free ≡ true
    → IsFreeRun m first (found + 1)
longer-IsFreeRun m first found page e r f k = elim (r k) [
  | inl h ↦ elim (Bool-cases (k == found)) [
    | inl i ↦
        let g : first + k ≡ page = ground arith in
        inr (subst (λ q. (m.pages q).is_free ≡ true) (sym g) f)
    | inr i ↦ inl (ground arith)
  ]
  | inr h ↦ inr h
]

-- The run that ends at a page that a scan gives.
abbrev Scanned : Pmm → ℕ → Option ℕ → Type 0
Scanned m size none = Unit
Scanned m size (some page) = IsFreeRun m (page - (size - 1)) size

Scanned-if :
    (m : Pmm) (size : ℕ) (b : Bool) (o p : Option ℕ)
    → (b ≡ true → Scanned m size o)
    → (b ≡ false → Scanned m size p)
    → Scanned m size (if b then o else p)
Scanned-if m size true o p f g = f refl
Scanned-if m size false o p f g = g refl

scan-Scanned :
    (fuel : ℕ) (m : Pmm) (top page first found size : ℕ)
    → 1 ≤ size
    → first + found ≡ page
    → IsFreeRun m first found
    → Scanned m size (scan fuel m top page found size)
unfolding scan
scan-Scanned zero m top page first found size z e r = tt
scan-Scanned (suc fuel) m top page first found size z e r =
    Scanned-if m size (ltb page top && ltb page m.pagecount) _ _
      (λ h. elim (Bool-cases (m.pages page).is_free) [
        | inl i ↦
            let l = longer-IsFreeRun m first found page e r i in
            rw i (
              Scanned-if m size (found + 1 == size) _ _
                (λ j.
                  let s : found + 1 ≡ size = (==_iff (found + 1) size).0 j in
                  let g : page - (size - 1) ≡ first = ground arith in
                  subst⁻¹ (λ q. IsFreeRun m q size) g (subst (IsFreeRun m first) s l))
                (λ j. scan-Scanned fuel m top (page + 1) first (found + 1) size z (omega arith) l))
        | inr i ↦ rw i (
            Scanned-if m size (0 == size) _ _ (λ j. absurd (ground arith))
              (λ j.
                scan-Scanned fuel m top (page + 1) (page + 1) 0 size z (omega arith)
                  (empty-IsFreeRun m (page + 1))))
      ])
      (λ h. tt)

or_then-Scanned :
    (m : Pmm) (size : ℕ) (o p : Option ℕ)
    → Scanned m size o
    → Scanned m size p
    → Scanned m size (or_then o p)
or_then-Scanned m size none p a b = b
or_then-Scanned m size (some page) p a b = a

find_run-Scanned : (m : Pmm) (n size : ℕ) → 1 ≤ size → Scanned m size (find_run m n size)
unfolding find_run
find_run-Scanned m zero size z = tt
find_run-Scanned m (suc s) size z =
    or_then-Scanned m size
      (scan (suc m.pagecount - m.searchstart s) m (topid s) (m.searchstart s) 0 size)
      (find_run m s size)
      (scan-Scanned (suc m.pagecount - m.searchstart s) m (topid s) (m.searchstart s)
        (m.searchstart s) 0 size z (omega arith) (empty-IsFreeRun m (m.searchstart s)))
      (find_run-Scanned m s size z)

-- What `pmm_alloc` promises of its outcome.
abbrev pub RunOutcome : Pmm → ℕ → Option ℕ × Ran → Type 0
RunOutcome m size (o, failed) = ⊥
RunOutcome m size (o, stale) = ⊥
RunOutcome m size (none, done m') = m' ≡ m
RunOutcome m size (some page, done m') = IsFreeRun m page size × IsTaken m m' page size

taken-RunOutcome :
    (m : Pmm) (size page : ℕ) (o : Ran)
    → IsFreeRun m page size
    → Taking m page size o
    → RunOutcome m size (some page, o)
taken-RunOutcome m size page failed r t = t
taken-RunOutcome m size page stale r t = t
taken-RunOutcome m size page (done m') r t = (r, t)

take_from-RunOutcome :
    {m : Pmm} (size : ℕ) (o : Option ℕ)
    → IsValid m
    → Scanned m size o
    → RunOutcome m size (take_from m size o)
take_from-RunOutcome size none v s = refl
take_from-RunOutcome {m} size (some page) v s =
    let first = page - (size - 1) in
    taken-RunOutcome m size first (take_run m first size) s (take_run-Taking m first size v s)

-- In a valid state the search and the taking of pmm_alloc, for one page or more, fail no assertion. Where it finds no run it leaves the
-- state alone; otherwise every page of the run was marked free, has one user afterwards, all pages outside
-- the run are as before, and the state is valid.
pub alloc_run-RunOutcome :
    {m : Pmm} (size section : ℕ)
    → IsValid m
    → 1 ≤ size
    → RunOutcome m size (alloc_run m size section)
unfolding alloc_run
alloc_run-RunOutcome {m} size section v z =
    take_from-RunOutcome size (find_run m (suc section) size) v
      (find_run-Scanned m (suc section) size z)
