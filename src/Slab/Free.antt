-- ===== src/Slab/Free.antt =====
-- `slab_free`: an object that is in use comes back, and its slab goes to the list for it.
use mathlib.Core.Path.{subst}
use astral.Base.{
  ℕ, suc, ◌+◌, ◌≡◌, ◌≢◌, ◌⊎◌, ◌≤◌, ◌<◌, refl, ap, sym, ◌∙◌, Bool, true, false, ◌||◌, some, List, [],
  ◌∷◌, ◌==◌, if◌then◌else◌, is_member, sub64, arith, ==_iff, Bool-cases, inl, inr, word_mod,
}
use astral.Slab.{
  Slab, Cache, full, partial, empty, is_direct, set_slab, is_linked, returnobject, settle,
  slab_free,
}
use astral.Slab.Valid.{
  IsSlab, IsValid, IsOnlyIn, list_for, listed-IsOnlyIn, moved, moved-IsValid, kept-IsValid, count,
}

abbrev with_object : Slab → ℕ → Slab
with_object r i = record { used = sub64 r.used 1; free = i ∷ r.free }

returned_slab :
    (n i : ℕ) (r : Slab)
    → n < word_mod
    → IsSlab n r
    → is_member i r.free ≡ false
    → i < n
    → r.used ≢ 0
    → (suc (sub64 r.used 1) ≡ r.used) × IsSlab n (with_object r i)
returned_slab n i r b w h l z =
    let t = w.total in
    let u : suc (sub64 r.used 1) ≡ r.used = ground (arith, t, z) in
    (
      u,
      record {
        distinct = (h, w.distinct);
        total = shift_back r.used (sub64 r.used 1) (count r.free) n t u;
        bounded = λ j. elim (Bool-cases (i == j)) [
          | inl k ↦ inr (subst (λ x. x < n) ((==_iff i j).0 k) l)
          | inr k ↦ rw k (w.bounded j)
        ];
      },
    )
  where
    shift_back : (u v k n : ℕ) → u + k ≡ n → suc v ≡ u → v + suc k ≡ n
    shift_back u v k n e f = omega arith

-- A link that is not NULL is that of a free object.
unlinked : (i : ℕ) (l : List ℕ) → is_member i l ≡ false → is_linked i l ≡ false
unlinked i [] h = refl
unlinked i (j ∷ []) h = refl
unlinked i (j ∷ k ∷ l) h =
    let (e, f) = or_split (j == i) (is_member i (k ∷ l)) h in rw (e, unlinked i (k ∷ l) f) refl
  where
    or_split : (b c : Bool) → (b || c) ≡ false → (b ≡ false) × (c ≡ false)
    or_split true c h = absurd (cc)
    or_split false c h = (refl, h)

returnobject_eq :
    (c : Cache) (s i : ℕ)
    → is_member i (c.slabs s).free ≡ false
    → (is_member s (c.lists full) || is_member s (c.lists partial)) ≡ true
    → returnobject c s i ≡ some (set_slab c s (with_object (c.slabs s) i))
unfolding returnobject
returnobject_eq c s i h m = elim (Bool-cases (is_direct c)) [
  | inl d ↦ rw (d, unlinked i (c.slabs s).free h) refl
  | inr d ↦ rw (d, m) refl
]

-- What `slab_free` leaves.
pub record IsReturned (c c' : Cache) (s i : ℕ) : Type 0 where
  pub valid : IsValid c'
  pub first : (c'.slabs s).free ≡ i ∷ (c.slabs s).free
  pub less : suc (c'.slabs s).used ≡ (c.slabs s).used
  pub others : (t : ℕ) → (s ≡ t) ⊎ (c'.slabs t ≡ c.slabs t)

returned :
    {c c' : Cache} (s i : ℕ)
    → IsValid c'
    → suc (sub64 (c.slabs s).used 1) ≡ (c.slabs s).used
    → ((t : ℕ) → c'.slabs t ≡ (if s == t then with_object (c.slabs s) i else c.slabs t))
    → IsReturned c c' s i
returned {c} {c'} s i v e f =
    let own : c'.slabs s ≡ with_object (c.slabs s) i =
      f s ∙ (let k : (s == s) ≡ true = ground arith in rw k refl) in
    record {
      valid = v;
      first = ap (λ x. x.free) own;
      less = ap (λ x. suc x.used) own ∙ e;
      others = λ t. elim (Bool-cases (s == t)) [
        | inl k ↦ inl ((==_iff s t).0 k)
        | inr k ↦ inr (f t ∙ rw k refl)
      ];
    }

-- The list of a slab with a user, and the list for it when one user fewer is left.
abbrev Moves : ℕ → ℕ → ℕ → Type 0
Moves n u v =
    (((v == 0) ≡ true) × ((u == 0) ≡ false) × ((u == n) ≡ false) × ((v == sub64 n 1) ≡ false))
    ⊎ (((v == 0) ≡ false)
        × ((u == 0) ≡ false)
        × ((u == n) ≡ true)
        × ((v == sub64 n 1) ≡ true)
        × ((v == n) ≡ false))
    ⊎ (((v == 0) ≡ false)
        × ((u == 0) ≡ false)
        × ((u == n) ≡ false)
        × ((v == sub64 n 1) ≡ false)
        × ((v == n) ≡ false))

moves : (n u v : ℕ) → 2 ≤ n → n < word_mod → suc v ≡ u → u ≤ n → Moves n u v
moves n u v a b e l = elim (Bool-cases (v == 0)) [
  | inl h ↦ inl (h, ground arith, ground arith, ground arith)
  | inr h ↦ elim (Bool-cases (u == n)) [
    | inl k ↦ inr (inl (h, ground arith, k, ground arith, ground arith))
    | inr k ↦ inr (inr (h, ground arith, k, ground arith, ground arith))
  ]
]

self : (x : ℕ) → (x == x) ≡ true
self x = ground arith

-- The slab that loses its last user, the one that was full, and any other.
settle-empty :
    (c : Cache) (s : ℕ) (r : Slab)
    → (r.used == 0) ≡ true
    → (r.used == sub64 c.slabobjcount 1) ≡ false
    → is_member s (c.lists partial) ≡ true
    → settle (some (set_slab c s r)) s ≡ some (moved c s r partial empty)
settle-empty c s r h k m = rw (self s, h, m, self s, k) refl

settle-partial :
    (c : Cache) (s : ℕ) (r : Slab)
    → (r.used == 0) ≡ false
    → (r.used == sub64 c.slabobjcount 1) ≡ true
    → is_member s (c.lists full) ≡ true
    → settle (some (set_slab c s r)) s ≡ some (moved c s r full partial)
settle-partial c s r h k m = rw (self s, h, self s, k, m) refl

settle-kept :
    (c : Cache) (s : ℕ) (r : Slab)
    → (r.used == 0) ≡ false
    → (r.used == sub64 c.slabobjcount 1) ≡ false
    → settle (some (set_slab c s r)) s ≡ some (set_slab c s r)
settle-kept c s r h k = rw (self s, h, self s, k) refl

or_true : (b c : Bool) → c ≡ true → (b || c) ≡ true
or_true true c h = refl
or_true false c h = h

or_true_left : (b c : Bool) → b ≡ true → (b || c) ≡ true
or_true_left true c h = refl
or_true_left false c h = absurd (cc)

total_bound : (u k n : ℕ) → u + k ≡ n → u ≤ n
total_bound u k n e = omega arith

settled :
    (c c' : Cache) (s i : ℕ)
    → is_member i (c.slabs s).free ≡ false
    → (is_member s (c.lists full) || is_member s (c.lists partial)) ≡ true
    → settle (some (set_slab c s (with_object (c.slabs s) i))) s ≡ some c'
    → slab_free c s i ≡ some c'
unfolding slab_free
settled c c' s i h m e = ap (λ t. settle t s) (returnobject_eq c s i h m) ∙ e

-- The list that a slab is in, by its users.
in_partial :
    (c : Cache) (k s : ℕ)
    → IsValid c
    → is_member s (c.lists k) ≡ true
    → ((c.slabs s).used == 0) ≡ false
    → ((c.slabs s).used == c.slabobjcount) ≡ false
    → (is_member s (c.lists partial) ≡ true) × (list_for c.slabobjcount (c.slabs s) ≡ partial)
in_partial c k s v m a b =
    let e : list_for c.slabobjcount (c.slabs s) ≡ partial = rw (a, b) refl in
    (subst (λ t. is_member s (c.lists t) ≡ true) (sym ((v.listed k s m).0) ∙ e) m, e)

in_full :
    (c : Cache) (k s : ℕ)
    → IsValid c
    → is_member s (c.lists k) ≡ true
    → ((c.slabs s).used == 0) ≡ false
    → ((c.slabs s).used == c.slabobjcount) ≡ true
    → (is_member s (c.lists full) ≡ true) × (list_for c.slabobjcount (c.slabs s) ≡ full)
in_full c k s v m a b =
    let e : list_for c.slabobjcount (c.slabs s) ≡ full = rw (a, b) refl in
    (subst (λ t. is_member s (c.lists t) ≡ true) (sym ((v.listed k s m).0) ∙ e) m, e)

-- In a valid cache, freeing an object that is in use, in a slab that is in a list, fails no assertion: the
-- object is the first free one of its slab afterwards, the slab has one user fewer, the other slabs are as
-- before, and the cache is valid.
pub slab_free-IsReturned :
    (c : Cache) (k s i : ℕ)
    → IsValid c
    → is_member s (c.lists k) ≡ true
    → (c.slabs s).used ≢ 0
    → is_member i (c.slabs s).free ≡ false
    → i < c.slabobjcount
    → (c' : Cache) × ((slab_free c s i ≡ some c') × IsReturned c c' s i)
slab_free-IsReturned c k s i v m z h l =
    let n = c.slabobjcount in
    let r = c.slabs s in
    let r' = with_object r i in
    let w = (v.listed k s m).1 in
    let (e, w') = returned_slab n i r (v.count_bound.1) w h l z in
    elim (moves n r.used r'.used (v.count_bound.0) (v.count_bound.1) e
      (total_bound r.used (count r.free) n w.total)) [
        | inl (h0, a, b, g) ↦
            let (p, q) = in_partial c k s v m a b in
            let c' = moved c s r' partial empty in
            let v' =
              moved-IsValid s r' partial empty v (subst (IsOnlyIn c s) q (listed-IsOnlyIn s v)) refl
                (rw h0 refl) w' in
            (
              c',
              (
                settled c c' s i h (or_true (is_member s (c.lists full)) _ p)
                    (settle-empty c s r' h0 g p),
                returned s i v' e (λ t. refl),
              ),
            )
        | inr (inl (h0, a, b, g, f)) ↦
            let (p, q) = in_full c k s v m a b in
            let c' = moved c s r' full partial in
            let v' =
              moved-IsValid s r' full partial v (subst (IsOnlyIn c s) q (listed-IsOnlyIn s v)) refl
                (rw (h0, f) refl) w' in
            (
              c',
              (
                settled c c' s i h (or_true_left _ (is_member s (c.lists partial)) p)
                    (settle-partial c s r' h0 g p),
                returned s i v' e (λ t. refl),
              ),
            )
        | inr (inr (h0, a, b, g, f)) ↦
            let (p, q) = in_partial c k s v m a b in
            let c' = set_slab c s r' in
            let v' = kept-IsValid s r' v (rw (h0, f) (sym q)) w' in
            (
              c',
              (
                settled c c' s i h (or_true (is_member s (c.lists full)) _ p)
                    (settle-kept c s r' h0 g),
                returned s i v' e (λ t. refl),
              ),
            )
      ]
