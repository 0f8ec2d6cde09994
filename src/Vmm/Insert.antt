-- ===== src/Vmm/Insert.antt =====
-- `insertrange`: the chain stays in order, and the space maps what it mapped and the new range.
use mathlib.Core.Path.{subst}
use astral.Base.{
  ℕ, suc, ◌+◌, ◌≤◌, ◌<◌, ◌≡◌, ◌⊎◌, true, false, ◌&&◌, some, List, [], ◌∷◌, ltb, leb, if◌then◌else◌,
  arith, refl, ap, sym, ◌∙◌, Bool-cases, inl, inr, word_mod, leb→le,
}
use astral.Vmm.{
  Range, Space, range_top, contains, joins, joined, join_next, join_chain, join_prev, insert_after,
  insertrange,
}
use astral.Vmm.Valid.{IsRange, IsSorted, IsSpace, IsFree, range_top_lem}
use astral.Vmm.View.{mapping_of, view, joins-IsJoined, joined-IsRange, view-joined}

-- A chain that is in order from `low` on and maps what another one maps.
pub record IsLike (low end : ℕ) (old new : List Range) : Type 0 where
  pub sorted : IsSorted low end new
  pub same : (a : ℕ) → view new a ≡ view old a

self-IsLike : (low end : ℕ) (rs : List Range) → IsSorted low end rs → IsLike low end rs rs
self-IsLike low end rs s = record { sorted = s; same = λ a. refl }

trans-IsLike :
    {low end : ℕ} {rs ss ts : List Range}
    → IsLike low end rs ss
    → IsLike low end ss ts
    → IsLike low end rs ts
trans-IsLike l m = record { sorted = m.sorted; same = λ a. m.same a ∙ l.same a }

view_cons :
    (r : Range) (rs ss : List Range) (a : ℕ)
    → view rs a ≡ view ss a
    → view (r ∷ rs) a ≡ view (r ∷ ss) a
view_cons r rs ss a e = rw e refl

end_joined : (s z t w : ℕ) → s + z ≡ t → s + (z + w) ≡ t + w
end_joined s z t w e = omega arith

-- Two ranges in a row that are joined.
joined-IsLike :
    (low end : ℕ) (r n : Range) (rs : List Range)
    → end < word_mod
    → IsSorted low end (r ∷ n ∷ rs)
    → joins r n ≡ true
    → IsLike low end (r ∷ n ∷ rs) (joined r n ∷ rs)
joined-IsLike low end r n rs b (l, p, (m, q, s)) h =
    let j = joins-IsJoined r n h in
    let (k, g) = joined-IsRange end r n b p q j.next in
    let f = sym (range_top_lem end r b p) ∙ j.next in
    let e : r.start + (joined r n).size ≡ n.start + n.size =
      ap (λ t. r.start + t) g ∙ end_joined r.start r.size n.start n.size f in
    record {
      sorted = (l, k, subst (λ t. IsSorted t end rs) (sym e) s);
      same = λ a. view-joined end r n rs a b p q j;
    }

join_next-IsLike :
    (low end : ℕ) (new : Range) (rs : List Range)
    → end < word_mod
    → IsSorted low end (new ∷ rs)
    → IsLike low end (new ∷ rs) (join_next new rs).chain
join_next-IsLike low end new [] b s = self-IsLike low end (new ∷ []) s
join_next-IsLike low end new (n ∷ rs) b s = elim (Bool-cases (joins new n)) [
  | inl h ↦ rw h (joined-IsLike low end new n rs b s h)
  | inr h ↦ rw h (self-IsLike low end (new ∷ n ∷ rs) s)
]

join_chain-IsLike :
    (low end : ℕ) (prev : Range) (rs ds : List Range)
    → end < word_mod
    → IsSorted low end (prev ∷ rs)
    → IsLike low end (prev ∷ rs) (join_chain prev rs ds).chain
join_chain-IsLike low end prev [] ds b s = self-IsLike low end (prev ∷ []) s
join_chain-IsLike low end prev (n ∷ rs) ds b s = elim (Bool-cases (joins prev n)) [
  | inl h ↦ rw h (joined-IsLike low end prev n rs b s h)
  | inr h ↦ rw h (self-IsLike low end (prev ∷ n ∷ rs) s)
]

cons-IsLike :
    (low end : ℕ) (r : Range) (rs ss : List Range)
    → low ≤ r.start
    → IsRange end r
    → IsLike (r.start + r.size) end rs ss
    → IsLike low end (r ∷ rs) (r ∷ ss)
cons-IsLike low end r rs ss l p k = record {
  sorted = (l, p, k.sorted);
  same = λ a. view_cons r ss rs a (k.same a);
}

-- A new range right after another, and joined as far as may be.
placed-IsLike :
    (low end : ℕ) (prev new : Range) (rs : List Range)
    → end < word_mod
    → IsSorted low end (prev ∷ new ∷ rs)
    → IsLike low end (prev ∷ new ∷ rs) (join_prev prev (join_next new rs)).chain
placed-IsLike low end prev new rs b (l, p, s) =
    let i = join_next new rs in
    let k =
      cons-IsLike low end prev (new ∷ rs) i.chain l p
        (join_next-IsLike (prev.start + prev.size) end new rs b s) in
    trans-IsLike k (join_chain-IsLike low end prev i.chain i.dropped b k.sorted)

below_other :
    (a s z t w : ℕ)
    → s + z ≤ t
    → (leb s a && ltb a (s + z)) ≡ true
    → (leb t a && ltb a (t + w)) ≡ false
below_other a s z t w l h = ground arith

-- Ranges that are apart may stand in any order.
swap_view :
    (end : ℕ) (r n : Range) (rs : List Range) (a : ℕ)
    → end < word_mod
    → IsRange end r
    → IsRange end n
    → r.start + r.size ≤ n.start
    → view (r ∷ n ∷ rs) a ≡ view (n ∷ r ∷ rs) a
swap_view end r n rs a b p q l =
    rw (range_top_lem end r b p, range_top_lem end n b q)
      (elim (Bool-cases (leb r.start a && ltb a (r.start + r.size))) [
        | inl h ↦ rw (h, below_other a r.start r.size n.start n.size l h) refl
        | inr h ↦ rw h refl
      ])

-- Disjoint ranges, of which one starts before the other does or ends after the other starts.
starts_before : (s z t w : ℕ) → (s + z ≤ t) ⊎ (t + w ≤ s) → 1 ≤ w → suc s ≤ t + w → s + z ≤ t
starts_before s z t w (inl h) o l = h
starts_before s z t w (inr h) o l = absurd (omega arith)

ends_before : (s z t w : ℕ) → (s + z ≤ t) ⊎ (t + w ≤ s) → suc t ≤ s + z → t + w ≤ s
ends_before s z t w (inl h) l = absurd (omega arith)
ends_before s z t w (inr h) l = h

swapped-IsLike :
    (low end : ℕ) (r new : Range) (rs chain : List Range)
    → end < word_mod
    → IsRange end r
    → IsRange end new
    → r.start + r.size ≤ new.start
    → IsLike low end (r ∷ new ∷ rs) chain
    → IsLike low end (new ∷ r ∷ rs) chain
swapped-IsLike low end r new rs chain b p q l k = record {
  sorted = k.sorted;
  same = λ a. k.same a ∙ swap_view end r new rs a b p q l;
}

between : (p s t : ℕ) → p ≤ s → (leb p s && ltb s t) ≡ false → t ≤ s
between p s t l h = ground arith

before_end : (p z s t w : ℕ) → (leb (p + z) s && ltb s t) ≡ true → suc s ≤ t + w
before_end p z s t w h = ground arith

after_start : (s z t : ℕ) → t ≤ s → 1 ≤ z → suc t ≤ s + z
after_start s z t l o = omega arith

insert_after-IsLike :
    (low end : ℕ) (new range : Range) (rs : List Range)
    → end < word_mod
    → IsSorted low end (range ∷ rs)
    → IsRange end new
    → IsFree rs new.start new.size
    → range.start + range.size ≤ new.start
    → IsLike low end (new ∷ range ∷ rs) (insert_after new range rs).chain
unfolding insert_after
insert_after-IsLike low end new range [] b (l, p, s) q f h =
    swapped-IsLike low end range new [] _ b p q h
      (placed-IsLike low end range new [] b (l, p, (h, q, tt)))
insert_after-IsLike low end new range (n ∷ rs) b (l, p, (m, r, s)) q (d, f) h =
    rw (range_top_lem end range b p)
      (elim (Bool-cases (leb (range.start + range.size) new.start && ltb new.start n.start)) [
        | inl i ↦
            let o : new.start + new.size ≤ n.start =
              starts_before new.start new.size n.start n.size d (r.0)
                (before_end range.start range.size new.start n.start n.size i) in
            rw i (
              swapped-IsLike low end range new (n ∷ rs) _ b p q h
                (placed-IsLike low end range new (n ∷ rs) b (l, p, (h, q, (o, r, s)))))
        | inr i ↦
            let o : n.start + n.size ≤ new.start = ends_before new.start new.size n.start n.size d (
              after_start new.start new.size n.start
                (between (range.start + range.size) new.start n.start h i) (q.0)) in
            let k = insert_after-IsLike (range.start + range.size) end new n rs b (m, r, s) q f o in
            rw i (
              swapped-IsLike low end range new (n ∷ rs) _ b p q h
                (cons-IsLike low end range (new ∷ n ∷ rs) _ l p k))
      ])

not_before : (t s : ℕ) → leb t s ≡ false → suc s ≤ t
not_before t s h = ground arith

pub insertrange-IsLike :
    (low end : ℕ) (new : Range) (rs : List Range)
    → end < word_mod
    → IsSorted low end rs
    → low ≤ new.start
    → IsRange end new
    → IsFree rs new.start new.size
    → IsLike low end (new ∷ rs) (insertrange rs new).chain
unfolding insertrange
insertrange-IsLike low end new [] b s l q f = self-IsLike low end (new ∷ []) (l, q, tt)
insertrange-IsLike low end new (range ∷ rs) b (m, p, s) l q (d, f) =
    let e = ap (λ t. leb t range.start) (sym (range_top_lem end new b q)) in
    let top = new.start + new.size in
    elim (Bool-cases (leb (range_top new) range.start)) [
      | inl i ↦ rw i (
          join_next-IsLike low end new (range ∷ rs) b
            (l, q, (leb→le top range.start (e ∙ i), p, s)))
      | inr i ↦
          let o =
            ends_before new.start new.size range.start range.size d
              (not_before top range.start (e ∙ i)) in
          rw i (insert_after-IsLike low end new range rs b (m, p, s) q f o)
    ]

-- A space stays valid when a range that is in it and meets no other is inserted.
pub insertrange-IsSorted :
    (s : Space) (new : Range)
    → IsSpace s
    → s.start ≤ new.start
    → IsRange s.end new
    → IsFree s.ranges new.start new.size
    → IsSpace (record s { ranges = (insertrange s.ranges new).chain })
insertrange-IsSorted s new v l q f = record {
  sorted = (insertrange-IsLike s.start s.end new s.ranges v.bounded v.sorted l q f).sorted;
  bounded = v.bounded;
}

-- When a range that lies in a valid space and meets no other is inserted, and joined to its neighbours or
-- not, its addresses map what it says, and every other address maps what it did: the same flags and the
-- same place of the same file.
pub insertrange-view :
    (s : Space) (new : Range) (a : ℕ)
    → IsSpace s
    → s.start ≤ new.start
    → IsRange s.end new
    → IsFree s.ranges new.start new.size
    → view (insertrange s.ranges new).chain a
      ≡ (if contains new a then some (mapping_of new a) else view s.ranges a)
insertrange-view s new a v l q f =
    (insertrange-IsLike s.start s.end new s.ranges v.bounded v.sorted l q f).same a
