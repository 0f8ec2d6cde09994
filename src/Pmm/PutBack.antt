-- ===== src/Pmm/PutBack.antt =====
-- What putting a page in its list does to the lists.
use astral.Base.{
  ℕ, ◌≡◌, ◌⊎◌, refl, ap, sym, ◌∙◌, Bool, true, false, not, ◌&&◌, ◌||◌, ◌==◌, is_member, IsDistinct,
  arith, ==_iff, Bool-cases, inl, inr,
}
use astral.Pmm.{Pmm, section_of, is_backed, same_list, insertinfreelist, set_free}
use astral.Pmm.Lists.{
  IsSorted, IsValid, Unlisted, Unlisted-free, is_not, or_true, same_list_iff, same_list_self,
}

abbrev pub put_back : Pmm → ℕ → Pmm
put_back m page = set_free (insertinfreelist m page) page

pub put_back_members :
    (m : Pmm) (page s : ℕ) (b : Bool) (q : ℕ)
    → is_member q ((put_back m page).lists s b) ≡ (
        (same_list (section_of page) (is_backed (m.pages page).backing) s b && page == q)
        || is_member q (m.lists s b))
unfolding insertinfreelist
put_back_members m page s b q =
    let k = is_backed (m.pages page).backing in
    elim (Bool-cases (same_list (section_of page) k s b)) [
      | inl h ↦ let (e, f) = same_list_iff (section_of page) k s b h in rw (h, ← e, ← f) refl
      | inr h ↦ rw h refl
    ]

pub put_back_page :
    (m : Pmm) (page q : ℕ)
    → (((put_back m page).pages q).backing ≡ (m.pages q).backing)
      × (((put_back m page).pages q).refcount ≡ (m.pages q).refcount)
unfolding insertinfreelist
put_back_page m page q = elim (Bool-cases (page == q)) [
  | inl h ↦ let e : page ≡ q = (==_iff page q).0 h in rw (h, ← e) (refl, refl)
  | inr h ↦ rw h (refl, refl)
]

pub put_back_dirt :
    (m : Pmm) (page q : ℕ) → ((put_back m page).pages q).is_dirty ≡ (m.pages q).is_dirty
unfolding insertinfreelist
put_back_dirt m page q = elim (Bool-cases (page == q)) [
  | inl h ↦ let e : page ≡ q = (==_iff page q).0 h in rw (h, ← e) refl
  | inr h ↦ rw h refl
]

put_back_flag :
    (m : Pmm) (page q : ℕ)
    → (page == q) ≡ false
    → ((put_back m page).pages q).is_free ≡ (m.pages q).is_free
unfolding insertinfreelist
put_back_flag m page q h = rw h refl

put_back_own :
    (m : Pmm) (page : ℕ)
    → (m.pages page).is_free ≡ false
    → ((put_back m page).pages page).is_free ≡ not (is_backed (m.pages page).backing)
unfolding insertinfreelist
put_back_own m page h =
    let k : (page == page) ≡ true = ground arith in
    rw (k, h)
      (elim (Bool-cases (is_backed (m.pages page).backing)) [
        | inl b ↦ rw b refl
        | inr b ↦ rw b refl
      ])

put_back-IsDistinct :
    {m : Pmm} (page s : ℕ) (b : Bool)
    → IsSorted m
    → Unlisted m page
    → IsDistinct ((put_back m page).lists s b)
unfolding insertinfreelist
put_back-IsDistinct {m} page s b v u =
    let k = is_backed (m.pages page).backing in
    elim (Bool-cases (same_list (section_of page) k s b)) [
      | inl h ↦ rw h (u (section_of page) k, v.distinct (section_of page) k)
      | inr h ↦ rw h (v.distinct s b)
    ]

-- Who is in a list that a page was put in: the page, or who was.
members_cases :
    (m : Pmm) (page s : ℕ) (b : Bool) (q : ℕ)
    → is_member q ((put_back m page).lists s b) ≡ true
    → ((same_list (section_of page) (is_backed (m.pages page).backing) s b ≡ true) × (page ≡ q))
      ⊎ (is_member q (m.lists s b) ≡ true)
members_cases m page s b q h =
    let g = sym (put_back_members m page s b q) ∙ h in
    let k = is_backed (m.pages page).backing in
    elim (Bool-cases (same_list (section_of page) k s b && page == q)) [
      | inl j ↦ inl (ground arith, (==_iff page q).0 (ground arith))
      | inr j ↦ inr (rw j at g)
    ]

flagged_own :
    {m : Pmm} (page : ℕ)
    → IsValid m
    → Unlisted m page
    → ((put_back m page).pages page).is_free ≡ true
    → is_member page ((put_back m page).lists (section_of page) false) ≡ true
flagged_own {m} page v u h =
    let a : not (is_backed (m.pages page).backing) ≡ true =
      sym (put_back_own m page (Unlisted-free page v u)) ∙ h in
    let n : is_backed (m.pages page).backing ≡ false =
      is_not (is_backed (m.pages page).backing) a in
    let k : (page == page) ≡ true = ground arith in
    put_back_members m page (section_of page) false page
    ∙ rw (n, same_list_self (section_of page) false, k) refl

-- A page that nobody uses may be put in its list.
pub put_back-IsSorted :
    {m : Pmm} (page : ℕ)
    → IsSorted m
    → Unlisted m page
    → (m.pages page).refcount ≡ 0
    → (m.pages page).is_dirty ≡ false
    → IsSorted (put_back m page)
put_back-IsSorted {m} page v u z d = record {
  listed = λ s b q h.
      let (e, f) = put_back_page m page q in
      elim (members_cases m page s b q h) [
        | inl (j, i) ↦
            let (x, y) = same_list_iff (section_of page) (is_backed (m.pages page).backing) s b j in
            (
              ap section_of (sym i) ∙ x,
              ap is_backed (e ∙ ap (λ t. (m.pages t).backing) (sym i)) ∙ y,
              f ∙ (ap (λ t. (m.pages t).refcount) (sym i) ∙ z),
            )
        | inr j ↦ let (x, y, w) = v.listed s b q j in (x, ap is_backed e ∙ y, f ∙ w)
      ];
  distinct = λ s b. put_back-IsDistinct page s b v u;
  clean = λ s b q h. elim (members_cases m page s b q h) [
    | inl (j, i) ↦ put_back_dirt m page q ∙ (ap (λ t. (m.pages t).is_dirty) (sym i) ∙ d)
    | inr j ↦ put_back_dirt m page q ∙ v.clean s b q j
  ];
}

pub put_back-IsValid :
    {m : Pmm} (page : ℕ)
    → IsValid m
    → Unlisted m page
    → (m.pages page).refcount ≡ 0
    → (m.pages page).is_dirty ≡ false
    → IsValid (put_back m page)
put_back-IsValid {m} page v u z d = record {
  sorted = put_back-IsSorted page v.sorted u z d;
  flagged = λ q h. elim (Bool-cases (page == q)) [
    | inl j ↦
        let i : page ≡ q = (==_iff page q).0 j in
        let g = ap (λ t. ((put_back m page).pages t).is_free) i ∙ h in
        ap (λ t. is_member t ((put_back m page).lists (section_of t) false)) (sym i)
        ∙ flagged_own page v u g
    | inr j ↦
        let g = v.flagged q (sym (put_back_flag m page q j) ∙ h) in
        rw (put_back_members m page (section_of q) false q, g)
          (or_true (
            same_list (section_of page) (is_backed (m.pages page).backing) (section_of q) false
            && page == q))
  ];
}
