-- ===== src/Pmm/Boot.antt =====
-- The lists that `pmm_init` fills, and the window in `pmm_release` between its count and its mutex.
use mathlib.Core.Path.{subst, subst⁻¹}
use astral.Base.{
  ℕ, zero, suc, ◌+◌, ◌≤◌, ◌≡◌, ◌⊎◌, refl, ap, ◌∙◌, Bool, true, false, ◌&&◌, ◌||◌, none, some, ◌==◌,
  arith, inl, inr,
}
use astral.Pmm.{
  give_up, stale, Pmm, section_of, is_backed, set_refcount, list_of, insertinfreelist,
  removefromfreelist, hold, no_pages, free_page, free_pages, same_list,
}
use astral.Pmm.Lists.{IsValid, Unlisted, used-Unlisted, Unlisted-free}
use astral.Pmm.PutBack.{put_back, put_back-IsValid, put_back_members, put_back_dirt, put_back_page}

-- In a valid state, the release of a clean page by its last user leaves its first part with the page in
-- no list, to be put in one; and a hold of the page then, before the second part, unlinks a page that is
-- in no list (after its assertion has held).
pub hold-give_up :
    {m : Pmm} (page : ℕ)
    → IsValid m
    → (m.pages page).refcount ≡ 1
    → (m.pages page).is_dirty ≡ false
    → (m' : Pmm) × ((give_up m page ≡ some (m', true))
        × (Unlisted m' page × (hold m' page ≡ stale)))
unfolding give_up hold removefromfreelist
hold-give_up {m} page v e d =
    let u = used-Unlisted page v.sorted (λ z. absurd (cc)) in
    let k : (page == page) ≡ true = ground arith in
    (
      set_refcount m page 0,
      (
        rw (e, d) refl,
        (
          u,
          rw (k, Unlisted-free page v u, u (section_of page) (is_backed (m.pages page).backing))
              refl,
        ),
      ),
    )

pub no_pages-IsValid : (n : ℕ) → IsValid (no_pages n)
unfolding no_pages
no_pages-IsValid n = record {
  sorted = record {
    listed = λ s b q h. absurd (cc);
    distinct = λ s b. tt;
    clean = λ s b q h. absurd (cc);
  };
  flagged = λ q h. absurd (cc);
}

-- A page that is free but in no list yet.
abbrev IsPending : Pmm → ℕ → Type 0
IsPending m q =
    Unlisted m q
    × ((m.pages q).refcount ≡ 0)
    × ((m.pages q).backing ≡ none)
    × ((m.pages q).is_dirty ≡ false)

free_page-put_back :
    (m : Pmm) (page : ℕ) → (m.pages page).backing ≡ none → free_page m page ≡ put_back m page
unfolding insertinfreelist
free_page-put_back m page e =
    let k : (page == page) ≡ true = ground arith in
    let l : list_of m page ≡ m.lists (section_of page) false =
      ap (λ o. m.lists (section_of page) (is_backed o)) e in
    rw (k, l, e) refl

and_or : (b : Bool) → (b && false || false) ≡ false
and_or true = refl
and_or false = refl

free_page-IsPending :
    (m : Pmm) (page q : ℕ)
    → (m.pages page).backing ≡ none
    → (page == q) ≡ false
    → IsPending m q
    → IsPending (free_page m page) q
free_page-IsPending m page q e h (u, z, o, d) =
    subst⁻¹ (λ t. IsPending t q) (free_page-put_back m page e)
      (let (x, y) = put_back_page m page q in
        (
          λ s b.
              rw (put_back_members m page s b q, u s b, h)
                (and_or (same_list (section_of page) (is_backed (m.pages page).backing) s b)),
          y ∙ z,
          x ∙ o,
          put_back_dirt m page q ∙ d,
        ))

abbrev pub IsPendingRun : Pmm → ℕ → ℕ → Type 0
IsPendingRun m page n = (k : ℕ) → (n ≤ k) ⊎ IsPending m (page + k)

p0 : (p : ℕ) → p + 0 ≡ p
p0 p = omega arith

ps : (p k : ℕ) → p + suc k ≡ p + 1 + k
ps p k = omega arith

-- Pages that are in no list, unused and without backing may be freed at start-up, if no page comes twice.
pub free_pages-IsValid :
    (m : Pmm) (page n : ℕ) → IsValid m → IsPendingRun m page n → IsValid (free_pages m page n)
unfolding free_pages
free_pages-IsValid m page zero v r = v
free_pages-IsValid m page (suc n) v r = elim (r 0) [
  | inl h ↦ absurd (ground arith)
  | inr h ↦
      let (u, z, o, d) = subst (IsPending m) (p0 page) h in
      let w : IsValid (free_page m page) =
        subst⁻¹ IsValid (free_page-put_back m page o) (put_back-IsValid page v u z d) in
      free_pages-IsValid (free_page m page) (page + 1) n w (λ k. elim (r (suc k)) [
        | inl i ↦ inl (omega arith)
        | inr i ↦ inr (
            free_page-IsPending m page (page + 1 + k) o (ground arith)
              (subst (IsPending m) (ps page k) i))
      ])
]
