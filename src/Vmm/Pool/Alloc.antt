-- ===== src/Vmm/Pool/Alloc.antt =====
-- `allocrange` over all pages of slots.
use mathlib.Core.Path.{subst⁻¹}
use astral.Base.{
  ℕ, zero, suc, ◌≡◌, ◌≢◌, ◌⊎◌, ◌≤◌, ◌<◌, refl, ap, sym, ◌∙◌, Bool, true, false, List, [], ◌∷◌, ◌==◌,
  ltb, if◌then◌else◌, arith, ==_iff, Bool-cases, inl, inr, word_mod,
}
use astral.Vmm.Pool.{
  SlotPage, Slot, slot, no_memory, broken, newcache, getentrynumber, taken_slot, slot_of, behind,
  added, allocrange,
}
use astral.Vmm.Pool.Slots.{IsCounted, count_free}
use astral.Vmm.Pool.Pages.{page_gives}

abbrev pub ArePages : ℕ → List SlotPage → Type 0
ArePages n [] = Unit
ArePages n (c ∷ cs) = IsCounted n c × ArePages n cs

-- Whether a slot is free; those of pages that are not there yet are.
abbrev pub free_at : List SlotPage → ℕ → ℕ → Bool
free_at [] k r = true
free_at (c ∷ cs) zero r = c.sizes r == 0
free_at (c ∷ cs) (suc k) r = free_at cs k r

-- The pages once a slot that was free is taken.
pub record IsAllocated (n : ℕ) (cs cs' : List SlotPage) (k r : ℕ) : Type 0 where
  pub pages : ArePages n cs'
  pub bound : r < n
  pub was_free : free_at cs k r ≡ true
  pub is_taken : free_at cs' k r ≡ false
  pub others : (j q : ℕ) → ((k ≡ j) × (r ≡ q)) ⊎ (free_at cs' j q ≡ free_at cs j q)

abbrev pub Outcome : ℕ → Bool → List SlotPage → Slot → Type 0
Outcome n memory cs (slot k r cs') = IsAllocated n cs cs' k r
Outcome n memory cs (no_memory cs') = (memory ≡ false) × (cs' ≡ cs)
Outcome n memory cs broken = ⊥

Outcome-if :
    (n : ℕ) (memory : Bool) (cs : List SlotPage) (b : Bool) (x y : Slot)
    → (b ≡ true → Outcome n memory cs x)
    → (b ≡ false → Outcome n memory cs y)
    → Outcome n memory cs (if b then x else y)
Outcome-if n memory cs true x y f g = f refl
Outcome-if n memory cs false x y f g = g refl

self : (x : ℕ) → (x == x) ≡ true
self x = ground arith

first_others :
    (c : SlotPage) (cs : List SlotPage) (r j q : ℕ)
    → ((0 ≡ j) × (r ≡ q)) ⊎ (free_at (taken_slot c r ∷ cs) j q ≡ free_at (c ∷ cs) j q)
first_others c cs r zero q = elim (Bool-cases (r == q)) [
  | inl k ↦ inl (refl, (==_iff r q).0 k)
  | inr k ↦ inr (rw k refl)
]
first_others c cs r (suc j) q = inr refl

slot_of-Outcome :
    (n : ℕ) (memory : Bool) (c : SlotPage) (cs : List SlotPage)
    → n < word_mod
    → IsCounted n c
    → ArePages n cs
    → 1 ≤ c.freecount
    → Outcome n memory (c ∷ cs) (slot_of c cs (getentrynumber n c))
slot_of-Outcome n memory c cs b w ws h =
    let (r, (p, (l, (f, w')))) = page_gives n c b w h in
    subst⁻¹ (λ o. Outcome n memory (c ∷ cs) (slot_of c cs o)) p
      (record {
        pages = (w', ws);
        bound = l;
        was_free = f;
        is_taken = rw (self r) refl;
        others = first_others c cs r;
      })

behind-Outcome :
    (n : ℕ) (memory : Bool) (c : SlotPage) (cs : List SlotPage) (o : Slot)
    → IsCounted n c
    → Outcome n memory cs o
    → Outcome n memory (c ∷ cs) (behind c o)
behind-Outcome n memory c cs (slot k r cs') w a = record {
  pages = (w, a.pages);
  bound = a.bound;
  was_free = a.was_free;
  is_taken = a.is_taken;
  others = λ j q. later c cs cs' k r j q a.others;
}
  where
    later :
        (c : SlotPage) (cs cs' : List SlotPage) (k r j q : ℕ)
        → ((j q : ℕ) → ((k ≡ j) × (r ≡ q)) ⊎ (free_at cs' j q ≡ free_at cs j q))
        → ((suc k ≡ j) × (r ≡ q)) ⊎ (free_at (c ∷ cs') j q ≡ free_at (c ∷ cs) j q)
    later c cs cs' k r zero q f = inr refl
    later c cs cs' k r (suc j) q f = elim (f j q) [ inl (e, g) ↦ inl (ap suc e, g) | inr e ↦ inr e ]
behind-Outcome n memory c cs (no_memory cs') w (e, f) = (e, ap (λ t. c ∷ t) f)
behind-Outcome n memory c cs broken w a = a

all_free : (n : ℕ) → count_free n (λ i. 0) ≡ n
all_free zero = refl
all_free (suc n) = ap suc (all_free n)

newcache-IsCounted : (n : ℕ) → IsCounted n (newcache n)
newcache-IsCounted n = record { counted = sym (all_free n); lowest = λ i. inr (inr (omega arith)) }

-- A slot of a page that is not there is a slot of the new page.
new_free : (n j q : ℕ) → free_at (newcache n ∷ []) j q ≡ true
new_free n zero q = refl
new_free n (suc j) q = refl

new_page : (n : ℕ) (o : Slot) → Outcome n true (newcache n ∷ []) o → Outcome n true [] o
new_page n (slot k r cs') a = record {
  pages = a.pages;
  bound = a.bound;
  was_free = refl;
  is_taken = a.is_taken;
  others = λ j q. elim (a.others j q) [ inl e ↦ inl e | inr e ↦ inr (e ∙ new_free n j q) ];
}
new_page n (no_memory cs') (e, f) = absurd (cc)
new_page n broken a = a

added-Outcome :
    (n : ℕ) (memory : Bool) → n < word_mod → 1 ≤ n → Outcome n memory [] (added n memory)
added-Outcome n false b z = (refl, refl)
added-Outcome n true b z =
    new_page n (slot_of (newcache n) [] (getentrynumber n (newcache n)))
      (slot_of-Outcome n true (newcache n) [] b (newcache-IsCounted n) tt z)

full_page : (x : ℕ) → ltb 0 x ≡ true → 1 ≤ x
full_page x h = ground arith

-- With pages whose counts are right, of which there is one at least, and one slot to a page or more,
-- allocrange fails no assertion. It gives no slot only when there is no memory for a page, and then leaves
-- the pages alone; the slot that it gives was free and is taken, every other slot is as before (those of a
-- new page are free), and the counts are right.
pub allocrange-Outcome :
    (n : ℕ) (memory : Bool) (cs : List SlotPage)
    → n < word_mod
    → 1 ≤ n
    → ArePages n cs
    → cs ≢ []
    → Outcome n memory cs (allocrange n memory cs)
unfolding allocrange
allocrange-Outcome n memory [] b z ws e = absurd (e refl)
allocrange-Outcome n memory (c ∷ []) b z (w, ws) e =
    Outcome-if n memory (c ∷ []) (ltb 0 c.freecount) _ _
      (λ h. slot_of-Outcome n memory c [] b w ws (full_page c.freecount h))
      (λ h. behind-Outcome n memory c [] (added n memory) w (added-Outcome n memory b z))
allocrange-Outcome n memory (c ∷ d ∷ cs) b z (w, ws) e =
    Outcome-if n memory (c ∷ d ∷ cs) (ltb 0 c.freecount) _ _
      (λ h. slot_of-Outcome n memory c (d ∷ cs) b w ws (full_page c.freecount h))
      (λ h.
        behind-Outcome n memory c (d ∷ cs) (allocrange n memory (d ∷ cs)) w
          (allocrange-Outcome n memory (d ∷ cs) b z ws (λ f. absurd (cc))))
