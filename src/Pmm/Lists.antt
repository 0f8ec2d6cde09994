-- ===== src/Pmm/Lists.antt =====
-- The lists of pages: who is in them, and what taking a page out does to that.
use astral.Base.{
  ℕ, ◌≡◌, ◌≢◌, refl, ap₂, sym, ◌∙◌, Bool, true, false, not, ◌&&◌, ◌||◌, ◌==◌, is_member, erase,
  IsDistinct, is_member-erase, erase-IsDistinct, sub64, arith, ==_iff, Bool-cases, inl, inr,
}
use mathlib.Core.Bool.{false≢true}
use astral.Pmm.{Page, Pmm, section_of, is_backed, same_list, set_page, list_of, put_list}

-- What is known of a page in a list.
abbrev pub IsListed : Pmm → ℕ → Bool → ℕ → Type 0
IsListed m s b page =
    (section_of page ≡ s) × (is_backed (m.pages page).backing ≡ b) × ((m.pages page).refcount ≡ 0)

-- A page in a list is in the right one, nobody uses it and it is not dirty; and no list has a page twice.
pub record IsSorted (m : Pmm) : Type 0 where
  pub listed :
      (s : ℕ) (b : Bool) (page : ℕ) → is_member page (m.lists s b) ≡ true → IsListed m s b page
  pub distinct : (s : ℕ) (b : Bool) → IsDistinct (m.lists s b)
  pub clean :
      (s : ℕ) (b : Bool) (page : ℕ)
      → is_member page (m.lists s b) ≡ true
      → (m.pages page).is_dirty ≡ false

-- Besides, a page with PAGE_FLAGS_FREE is in the free list of its section.
pub record IsValid (m : Pmm) : Type 0 where
  pub sorted : IsSorted m
  pub flagged :
      (page : ℕ)
      → (m.pages page).is_free ≡ true
      → is_member page (m.lists (section_of page) false) ≡ true

abbrev pub Unlisted : Pmm → ℕ → Type 0
Unlisted m page = (s : ℕ) (b : Bool) → is_member page (m.lists s b) ≡ false

-- A page that is in use is in no list and is not marked free.
pub used-Unlisted :
    {m : Pmm} (page : ℕ) → IsSorted m → (m.pages page).refcount ≢ 0 → Unlisted m page
used-Unlisted {m} page v n s b = elim (Bool-cases (is_member page (m.lists s b))) [
  | inl h ↦ absurd (n ((v.listed s b page h).2))
  | inr h ↦ h
]

pub Unlisted-free :
    {m : Pmm} (page : ℕ) → IsValid m → Unlisted m page → (m.pages page).is_free ≡ false
Unlisted-free {m} page v u = elim (Bool-cases ((m.pages page).is_free)) [
  | inl h ↦ let a = v.flagged page h in let b = u (section_of page) false in absurd (cc)
  | inr h ↦ h
]

-- A page in no list may be changed, if it is not marked free.
pub touch-IsSorted :
    {m : Pmm} (page : ℕ) (r : Page) → IsSorted m → Unlisted m page → IsSorted (set_page m page r)
touch-IsSorted {m} page r v u = record {
  listed = λ s b q h. elim (Bool-cases (page == q)) [
    | inl k ↦
        let e : page ≡ q = (==_iff page q).0 k in
        let a : is_member page (m.lists s b) ≡ true = rw e h in let c = u s b in absurd (cc)
    | inr k ↦ rw k (v.listed s b q h)
  ];
  distinct = v.distinct;
  clean = λ s b q h. elim (Bool-cases (page == q)) [
    | inl k ↦
        let e : page ≡ q = (==_iff page q).0 k in
        let a : is_member page (m.lists s b) ≡ true = rw e h in let c = u s b in absurd (cc)
    | inr k ↦ rw k (v.clean s b q h)
  ];
}

pub touch-IsValid :
    {m : Pmm} (page : ℕ) (r : Page)
    → IsValid m
    → Unlisted m page
    → r.is_free ≡ false
    → IsValid (set_page m page r)
touch-IsValid {m} page r v u f = record {
  sorted = touch-IsSorted page r v.sorted u;
  flagged = λ q h. elim (Bool-cases (page == q)) [
    | inl k ↦ let g : r.is_free ≡ true = rw k at h in absurd (cc)
    | inr k ↦ v.flagged q (rw k at h)
  ];
}

-- The lists and pages once `page` has left its list and has the record `r`.
abbrev pub taken_out : Pmm → ℕ → Page → Pmm
taken_out m page r = record (set_page (put_list m page (erase page (list_of m page))) page r) {
  freepagecount = sub64 m.freepagecount 1;
}

and_true : (b : Bool) → b ≡ (b && true)
and_true true = refl
and_true false = refl

pub is_not : (b : Bool) → not b ≡ true → b ≡ false
is_not true h = absurd (cc)
is_not false h = refl

pub or_true : (b : Bool) → (b || true) ≡ true
or_true true = refl
or_true false = refl

and_false : (b : Bool) → (b && false) ≡ false
and_false true = refl
and_false false = refl

pub same_list_iff :
    (s : ℕ) (b : Bool) (t : ℕ) (c : Bool) → same_list s b t c ≡ true → (s ≡ t) × (b ≡ c)
same_list_iff s true t true h = ((==_iff s t).0 h, refl)
same_list_iff s true t false h = absurd (cc)
same_list_iff s false t true h = absurd (cc)
same_list_iff s false t false h = ((==_iff s t).0 h, refl)

pub same_list_self : (s : ℕ) (b : Bool) → same_list s b s b ≡ true
same_list_self s true = ground arith
same_list_self s false = ground arith

-- A page is in no list but its own.
elsewhere :
    {m : Pmm} (page s : ℕ) (b : Bool)
    → IsSorted m
    → same_list (section_of page) (is_backed (m.pages page).backing) s b ≡ false
    → is_member page (m.lists s b) ≡ false
elsewhere {m} page s b v h = elim (Bool-cases (is_member page (m.lists s b))) [
  | inl k ↦
      let (e, f, z) = v.listed s b page k in
      let c = same_list_self s b in
      absurd (false≢true (sym h ∙ (ap₂ (λ t d. same_list t d s b) e f ∙ c)))
  | inr k ↦ k
]

-- Who is in a list afterwards: who was, but for the page.
pub taken_out_members :
    {m : Pmm} (page : ℕ) (r : Page) (s : ℕ) (b : Bool) (q : ℕ)
    → IsSorted m
    → is_member q ((taken_out m page r).lists s b) ≡ (is_member q (m.lists s b) && not (page == q))
taken_out_members {m} page r s b q v =
    let l = list_of m page in
    let k = is_backed (m.pages page).backing in
    elim (Bool-cases (same_list (section_of page) k s b)) [
      | inl h ↦
          let (e, f) = same_list_iff (section_of page) k s b h in
          rw (h, ← e, ← f) (is_member-erase page q l (v.distinct (section_of page) k))
      | inr h ↦ rw h (elim (Bool-cases (page == q)) [
        | inl j ↦ let e : page ≡ q = (==_iff page q).0 j in rw (j, ← e, elsewhere page s b v h) refl
        | inr j ↦ rw j (and_true (is_member q (m.lists s b)))
      ])
    ]

-- A page that leaves its list, and is not marked free any more, leaves the rest valid.
pub taken_out-IsSorted :
    {m : Pmm} (page : ℕ) (r : Page) → IsSorted m → IsSorted (taken_out m page r)
taken_out-IsSorted {m} page r v = record {
  listed = λ s b q h.
      let g : (is_member q (m.lists s b) && not (page == q)) ≡ true =
        sym (taken_out_members page r s b q v) ∙ h in
      let a : is_member q (m.lists s b) ≡ true = ground (arith, g) in
      let k : (page == q) ≡ false = ground (arith, g) in rw k (v.listed s b q a);
  clean = λ s b q h.
      let g : (is_member q (m.lists s b) && not (page == q)) ≡ true =
        sym (taken_out_members page r s b q v) ∙ h in
      let a : is_member q (m.lists s b) ≡ true = ground (arith, g) in
      let k : (page == q) ≡ false = ground (arith, g) in rw k (v.clean s b q a);
  distinct = λ s b.
      elim (Bool-cases (same_list (section_of page) (is_backed (m.pages page).backing) s b)) [
        | inl h ↦ rw h (
            erase-IsDistinct page (list_of m page)
              (v.distinct (section_of page) (is_backed (m.pages page).backing)))
        | inr h ↦ rw h (v.distinct s b)
      ];
}

pub taken_out-IsValid :
    {m : Pmm} (page : ℕ) (r : Page) → IsValid m → r.is_free ≡ false → IsValid (taken_out m page r)
taken_out-IsValid {m} page r v f = record {
  sorted = taken_out-IsSorted page r v.sorted;
  flagged = λ q h. elim (Bool-cases (page == q)) [
    | inl k ↦ let g : r.is_free ≡ true = rw k at h in absurd (cc)
    | inr k ↦
        let g = v.flagged q (rw k at h) in
        rw (taken_out_members page r (section_of q) false q v.sorted, g, k) refl
  ];
}

pub taken_out-Unlisted :
    {m : Pmm} (page : ℕ) (r : Page) → IsSorted m → Unlisted (taken_out m page r) page
taken_out-Unlisted {m} page r v s b =
    let k : (page == page) ≡ true = ground arith in
    rw (taken_out_members page r s b page v, k) (and_false (is_member page (m.lists s b)))
