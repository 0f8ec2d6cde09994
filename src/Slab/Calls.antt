-- ===== src/Slab/Calls.antt =====
-- `slab_allocate` and `slab_free`: which object they give and take back, and that the cache stays valid.
use mathlib.Core.Path.{subst, subst⁻¹}
use astral.Base.{
  ℕ, suc, ◌+◌, ◌≡◌, ◌⊎◌, ◌≤◌, ◌<◌, refl, ap, sym, ◌∙◌, Bool, true, false, ◌||◌, Option, none, some,
  List, [], ◌∷◌, ◌==◌, if◌then◌else◌, is_member, erase, IsDistinct, add64, arith, ==_iff,
  Bool-cases, inl, inr, word_mod,
}
use astral.Slab.{
  Slab, Cache, full, partial, empty, set_slab, take_first, object_of, move_head, allocate_from,
  tail,
}
use astral.Slab.Valid.{
  IsSlab, IsValid, IsListed, IsOnlyIn, list_for, listed-IsOnlyIn, moved, moved-IsValid,
  kept-IsValid, count,
}

-- An object is taken from a slab with the contents `r`.
pub record IsTaken (c : Cache) (r : Slab) (c' : Cache) (s i : ℕ) : Type 0 where
  pub valid : IsValid c'
  pub first : r.free ≡ i ∷ (c'.slabs s).free
  pub more : (c'.slabs s).used ≡ suc r.used
  pub others : (t : ℕ) → (s ≡ t) ⊎ (c'.slabs t ≡ c.slabs t)
  pub listed : is_member s (c'.lists (list_for c'.slabobjcount (c'.slabs s))) ≡ true

move_head-moved :
    (c : Cache) (s : ℕ) (ss : List ℕ) (r : Slab) (from to : ℕ)
    → c.lists from ≡ s ∷ ss
    → move_head (set_slab c s r) s from to ≡ moved c s r from to
move_head-moved c s ss r from to e =
    let k : (s == s) ≡ true = ground arith in
    let l : tail (c.lists from) ≡ erase s (c.lists from) = rw (e, k) refl in rw l refl

shift : (u k n : ℕ) → u + suc k ≡ n → suc u + k ≡ n
shift u k n e = omega arith

or_false : (b c : Bool) → (b || c) ≡ false → c ≡ false
or_false true c h = absurd (cc)
or_false false c h = h

taken_slab :
    (n i : ℕ) (r : Slab) (is : List ℕ)
    → n < word_mod
    → IsSlab n r
    → r.free ≡ i ∷ is
    → (add64 r.used 1 ≡ suc r.used) × IsSlab n (record { used = add64 r.used 1; free = is })
taken_slab n i r is b w e =
    let t : r.used + count (i ∷ is) ≡ n = subst (λ l. r.used + count l ≡ n) e w.total in
    let u : add64 r.used 1 ≡ suc r.used = ground (arith, t) in
    (
      u,
      record {
        distinct = (subst IsDistinct e w.distinct).1;
        total = rw u (shift r.used (count is) n t);
        bounded = (λ q. elim (w.bounded q) [
          | inl h ↦
              inl (or_false (i == q) (is_member q is) (subst (λ l. is_member q l ≡ false) e h))
          | inr h ↦ inr h
        ]);
      },
    )

one_of : (n u : ℕ) → u ≡ 1 → 2 ≤ n → (u == n) ≡ false
one_of n u e z = ground (arith, e)

partial_list :
    (n : ℕ) (u v : ℕ) (l : List ℕ)
    → v ≡ suc u
    → (v == n) ≡ false
    → list_for n (record { used = v; free = l }) ≡ partial
partial_list n u v l e h = let k : (v == 0) ≡ false = ground (arith, e) in rw (k, h) refl

full_list :
    (n : ℕ) (u v : ℕ) (l : List ℕ)
    → v ≡ suc u
    → (v == n) ≡ true
    → list_for n (record { used = v; free = l }) ≡ full
full_list n u v l e h = let k : (v == 0) ≡ false = ground (arith, e) in rw (k, h) refl

-- What a call promises of its result, for a slab with the contents `r`.
abbrev pub Taking : Cache → ℕ → Slab → Option (ℕ × ℕ) × Cache → Type 0
Taking c s r (none, c') = ⊥
Taking c s r (some (t, i), c') = (t ≡ s) × IsTaken c r c' s i

-- The state of a cache when an object was taken.
taking :
    {c c' : Cache} (s i : ℕ) (r r' : Slab)
    → IsValid c'
    → r.free ≡ i ∷ r'.free
    → r'.used ≡ suc r.used
    → ((t : ℕ) → c'.slabs t ≡ (if s == t then r' else c.slabs t))
    → is_member s (c'.lists (list_for c'.slabobjcount r')) ≡ true
    → IsTaken c r c' s i
taking {c} {c'} s i r r' v e u f l =
    let own : c'.slabs s ≡ r' = f s ∙ (let k : (s == s) ≡ true = ground arith in rw k refl) in
    record {
      valid = v;
      first = e ∙ ap (λ x. i ∷ x.free) (sym own);
      more = ap (λ x. x.used) own ∙ u;
      others = λ t. elim (Bool-cases (s == t)) [
        | inl k ↦ inl ((==_iff s t).0 k)
        | inr k ↦ inr (f t ∙ rw k refl)
      ];
      listed = ap (λ x. is_member s (c'.lists (list_for c'.slabobjcount x))) own ∙ l;
    }

self : (s : ℕ) → (s == s) ≡ true
self s = ground arith

-- A slab is in the list that it was moved to.
in_list :
    (c : Cache) (s : ℕ) (r : Slab) (from to : ℕ)
    → list_for c.slabobjcount r ≡ to
    → is_member s ((moved c s r from to).lists (list_for c.slabobjcount r)) ≡ true
in_list c s r from to e = rw (e, self to, self s) refl

abbrev without_first : Slab → List ℕ → Slab
without_first r is = record { used = add64 r.used 1; free = is }

allocate_from_eq :
    (c : Cache) (b : Bool) (s i : ℕ) (is : List ℕ)
    → (c.slabs s).free ≡ i ∷ is
    → allocate_from c b s ≡ (
      some (s, i),
      if b
          then move_head (set_slab c s (without_first (c.slabs s) is)) s empty partial
          else if add64 (c.slabs s).used 1 == c.slabobjcount
          then move_head (set_slab c s (without_first (c.slabs s) is)) s partial full
          else set_slab c s (without_first (c.slabs s) is),
    )
allocate_from_eq c b s i is f =
    ap
      (λ t. (
        object_of s (t.0),
        if b
            then move_head (set_slab c s (t.1)) s empty partial
            else if (t.1).used == c.slabobjcount
            then move_head (set_slab c s (t.1)) s partial full
            else set_slab c s (t.1),
      ))
      (ap (take_first (c.slabs s)) f)

-- A slab without free objects belongs in the full list.
none_free : (n : ℕ) (r : Slab) → 2 ≤ n → IsSlab n r → r.free ≡ [] → list_for n r ≡ full
none_free n r z w e =
    let t : r.used + 0 ≡ n = subst (λ l. r.used + count l ≡ n) e w.total in
    let h : (r.used == 0) ≡ false = ground (arith, t) in
    let k : (r.used == n) ≡ true = ground (arith, t) in rw (h, k) refl

-- The first slab of the partial list has a free object, and goes to the full list with its last one.
pub partial-Taking :
    (c : Cache) (s : ℕ) (ss l : List ℕ)
    → IsValid c
    → c.lists partial ≡ s ∷ ss
    → IsListed c partial s
    → (c.slabs s).free ≡ l
    → Taking c s (c.slabs s) (allocate_from c false s)
partial-Taking c s ss [] v e (k, w) f =
    let g = none_free c.slabobjcount (c.slabs s) (v.count_bound.0) w f in
    absurd (ground (arith, sym g ∙ k))
partial-Taking c s ss (i ∷ is) v e (k, w) f =
    let n = c.slabobjcount in
    let r' = without_first (c.slabs s) is in
    let (u, w') = taken_slab n i (c.slabs s) is (v.count_bound.1) w f in
    subst⁻¹ (Taking c s (c.slabs s)) (allocate_from_eq c false s i is f) (
      refl,
      elim (Bool-cases (add64 (c.slabs s).used 1 == n)) [
        | inl h ↦
            let m =
              moved-IsValid s r' partial full v (subst (IsOnlyIn c s) k (listed-IsOnlyIn s v)) refl
                (full_list n (c.slabs s).used r'.used is u h) w' in
            rw h (
              subst⁻¹ (λ t. IsTaken c (c.slabs s) t s i) (move_head-moved c s ss r' partial full e)
                (taking s i (c.slabs s) r' m f u (λ t. refl)
                  (in_list c s r' partial full (full_list n (c.slabs s).used r'.used is u h))))
        | inr h ↦
            let m =
              kept-IsValid s r' v (partial_list n (c.slabs s).used r'.used is u h ∙ sym k) w' in
            let p = ap c.lists (partial_list n (c.slabs s).used r'.used is u h) ∙ e in
            rw h
              (taking s i (c.slabs s) r' m f u (λ t. refl) (ap (is_member s) p ∙ rw (self s) refl))
      ],
    )

empty_unused : (n : ℕ) (r : Slab) → list_for n r ≡ empty → r.used ≡ 0
empty_unused n r e = elim (Bool-cases (r.used == 0)) [
  | inl h ↦ (==_iff r.used 0).0 h
  | inr h ↦ elim (Bool-cases (r.used == n)) [
    | inl k ↦ let g : full ≡ empty = rw (h, k) at e in absurd (ground (arith, g))
    | inr k ↦ let g : partial ≡ empty = rw (h, k) at e in absurd (ground (arith, g))
  ]
]

-- The first slab of the empty list goes to the partial list.
pub empty-Taking :
    (c : Cache) (s : ℕ) (ss l : List ℕ)
    → IsValid c
    → c.lists empty ≡ s ∷ ss
    → IsListed c empty s
    → (c.slabs s).free ≡ l
    → Taking c s (c.slabs s) (allocate_from c true s)
empty-Taking c s ss [] v e (k, w) f =
    let g = none_free c.slabobjcount (c.slabs s) (v.count_bound.0) w f in
    absurd (ground (arith, sym g ∙ k))
empty-Taking c s ss (i ∷ is) v e (k, w) f =
    let n = c.slabobjcount in
    let r' = without_first (c.slabs s) is in
    let (u, w') = taken_slab n i (c.slabs s) is (v.count_bound.1) w f in
    let o = ap suc (empty_unused n (c.slabs s) k) in
    let h : (r'.used == n) ≡ false = one_of n r'.used (u ∙ o) (v.count_bound.0) in
    let m =
      moved-IsValid s r' empty partial v (subst (IsOnlyIn c s) k (listed-IsOnlyIn s v)) refl
        (partial_list n (c.slabs s).used r'.used is u h) w' in
    subst⁻¹ (Taking c s (c.slabs s)) (allocate_from_eq c true s i is f) (
      refl,
      subst⁻¹ (λ t. IsTaken c (c.slabs s) t s i) (move_head-moved c s ss r' empty partial e)
          (taking s i (c.slabs s) r' m f u (λ t. refl)
            (in_list c s r' empty partial (partial_list n (c.slabs s).used r'.used is u h))),
    )
