-- ===== src/Vmm/View.antt =====
-- What an address space maps: the flags of an address, and its place in a file.
use astral.Base.{
  ℕ, ◌+◌, ◌-◌, ◌≤◌, ◌<◌, ◌≡◌, ◌⊎◌, Bool, true, false, not, ◌&&◌, ◌||◌, Option, none, some, List, [],
  ◌∷◌, ◌==◌, ltb, leb, if◌then◌else◌, add64, bit_at, arith, refl, ap, sym, ◌∙◌, Bool-cases, inl,
  inr, word_mod, ==_iff, leb→le,
}
use astral.Vmm.{Range, range_top, contains, is_file, joins, joined, getrange}
use astral.Vmm.Valid.{IsRange, range_top_lem}

-- The place of an address in a file, where it is one's.
abbrev pub file_place : Bool → ℕ → ℕ → Option (ℕ × ℕ)
file_place true vnode offset = some (vnode, offset)
file_place false vnode offset = none

pub record Mapping : Type 0 where
  pub flags : ℕ
  pub mmuflags : ℕ
  pub place : Option (ℕ × ℕ)

abbrev pub mapping_of : Range → ℕ → Mapping
mapping_of r addr = record {
  flags = r.flags;
  mmuflags = r.mmuflags;
  place = file_place (is_file r) r.vnode (add64 r.offset (addr - r.start));
}

abbrev pub view : List Range → ℕ → Option Mapping
view [] addr = none
view (r ∷ rs) addr = if contains r addr then some (mapping_of r addr) else view rs addr

abbrev mapping_at : Option Range → ℕ → Option Mapping
mapping_at none addr = none
mapping_at (some r) addr = some (mapping_of r addr)

-- What an address maps is read off the range that getrange gives for it.
getrange-view : (rs : List Range) (addr : ℕ) → mapping_at (getrange rs addr) addr ≡ view rs addr
unfolding getrange
getrange-view [] addr = refl
getrange-view (r ∷ rs) addr = elim (Bool-cases (contains r addr)) [
  | inl h ↦ rw h refl
  | inr h ↦ rw h (getrange-view rs addr)
]

-- Ranges that are joined lie side by side and have the same flags, and the same file in a row.
pub record IsJoined (r n : Range) : Type 0 where
  pub next : range_top r ≡ n.start
  pub same_flags : r.flags ≡ n.flags
  pub same_mmuflags : r.mmuflags ≡ n.mmuflags
  pub same_file : (is_file r ≡ false) ⊎ ((r.vnode ≡ n.vnode) × (add64 r.offset r.size ≡ n.offset))

and_split : (b c : Bool) → (b && c) ≡ true → (b ≡ true) × (c ≡ true)
and_split true c h = (refl, h)
and_split false c h = absurd (cc)

file_cases :
    (b : Bool) (v w o p : ℕ)
    → (not b || (v == w && o == p)) ≡ true
    → (b ≡ false) ⊎ ((v ≡ w) × (o ≡ p))
file_cases false v w o p h = inl refl
file_cases true v w o p h =
    let (e, f) = and_split (v == w) _ h in inr ((==_iff v w).0 e, (==_iff o p).0 f)

pub joins-IsJoined : (r n : Range) → joins r n ≡ true → IsJoined r n
joins-IsJoined r n h =
    let (e, h1) = and_split (range_top r == n.start) _ h in
    let (f, h2) = and_split (r.flags == n.flags) _ h1 in
    let (g, h3) = and_split (r.mmuflags == n.mmuflags) _ h2 in
    record {
      next = (==_iff (range_top r) n.start).0 e;
      same_flags = (==_iff r.flags n.flags).0 f;
      same_mmuflags = (==_iff r.mmuflags n.mmuflags).0 g;
      same_file = file_cases (is_file r) r.vnode n.vnode (add64 r.offset r.size) n.offset h3;
    }

size_joined : (end s z t w : ℕ) → end < word_mod → s + z ≡ t → t + w ≤ end → add64 z w ≡ z + w
size_joined end s z t w b e l = ground arith

le_joined : (s z t w end : ℕ) → s + z ≡ t → t + w ≤ end → s + (z + w) ≤ end
le_joined s z t w end e l = omega arith

far : (o p s z t a : ℕ) → add64 o z ≡ p → s + z ≡ t → t ≤ a → add64 o (a - s) ≡ add64 p (a - t)
far o p s z t a e f l = ground arith

in_either :
    (a s z t w : ℕ)
    → s + z ≡ t
    → (leb s a && ltb a (s + (z + w))) ≡ ((leb s a && ltb a (s + z)) || (leb t a && ltb a (t + w)))
in_either a s z t w e = ground arith

-- A range that two others are joined to.
pub joined-IsRange :
    (end : ℕ) (r n : Range)
    → end < word_mod
    → IsRange end r
    → IsRange end n
    → range_top r ≡ n.start
    → IsRange end (joined r n) × ((joined r n).size ≡ r.size + n.size)
joined-IsRange end r n b p q e =
    let f = sym (range_top_lem end r b p) ∙ e in
    let g = size_joined end r.start r.size n.start n.size b f (q.1) in
    ((ground (arith, g), rw g (le_joined r.start r.size n.start n.size end f (q.1))), g)

contains-joined :
    (end : ℕ) (r n : Range) (a : ℕ)
    → end < word_mod
    → IsRange end r
    → IsRange end n
    → range_top r ≡ n.start
    → contains (joined r n) a ≡ (contains r a || contains n a)
contains-joined end r n a b p q e =
    let (k, g) = joined-IsRange end r n b p q e in
    let f = sym (range_top_lem end r b p) ∙ e in
    rw (range_top_lem end (joined r n) b k, range_top_lem end r b p, range_top_lem end n b q, g)
      (in_either a r.start r.size n.start n.size f)

file_place_joined :
    (b : Bool) (v w o p s z t a : ℕ)
    → (b ≡ false) ⊎ ((v ≡ w) × (add64 o z ≡ p))
    → s + z ≡ t
    → t ≤ a
    → file_place b v (add64 o (a - s)) ≡ file_place b w (add64 p (a - t))
file_place_joined false v w o p s z t a h e l = refl
file_place_joined true v w o p s z t a (inl h) e l = absurd (cc)
file_place_joined true v w o p s z t a (inr (h, k)) e l =
    let g : add64 o (a - s) ≡ add64 p (a - t) = far o p s z t a k e l in rw (h, g) refl

mapping_joined :
    (r n : Range) (a : ℕ)
    → IsJoined r n
    → r.start + r.size ≡ n.start
    → n.start ≤ a
    → mapping_of r a ≡ mapping_of n a
mapping_joined r n a j e l =
    let f : is_file r ≡ is_file n = ap (λ x. bit_at x 3) j.same_flags in
    let g =
      file_place_joined (is_file r) r.vnode n.vnode r.offset n.offset r.start r.size n.start a
        j.same_file e l in
    let h = g ∙ ap (λ b. file_place b n.vnode (add64 n.offset (a - n.start))) f in
    λ i. record { flags = j.same_flags i; mmuflags = j.same_mmuflags i; place = h i }

pub view-joined :
    (end : ℕ) (r n : Range) (rs : List Range) (a : ℕ)
    → end < word_mod
    → IsRange end r
    → IsRange end n
    → IsJoined r n
    → view (joined r n ∷ rs) a ≡ view (r ∷ n ∷ rs) a
view-joined end r n rs a b p q j =
    rw (contains-joined end r n a b p q j.next) (elim (Bool-cases (contains r a)) [
      | inl h ↦ rw h refl
      | inr h ↦ elim (Bool-cases (contains n a)) [
        | inl k ↦
            let m =
              mapping_joined r n a j (sym (range_top_lem end r b p) ∙ j.next)
                (leb→le n.start a (and_split (leb n.start a) _ k).0) in
            rw (h, k) (ap some m)
        | inr k ↦ rw (h, k) refl
      ]
    ])
