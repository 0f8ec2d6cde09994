-- ===== src/Vmm/Fork.antt =====
-- `vmm_fork`: the child maps what its parent maps.
use astral.Base.{
  ℕ, suc, ◌+◌, ◌≤◌, ◌<◌, ◌≡◌, Bool, true, false, ◌&&◌, Option, none, some, List, [], ◌∷◌, ltb, leb,
  if◌then◌else◌, arith, refl, ap, sym, ◌∙◌, inr, word_mod,
}
use astral.Vmm.{Range, Space, range_top, contains, insertrange}
use astral.Vmm.Valid.{IsSorted, IsSpace, IsFree, range_top_lem}
use astral.Vmm.View.{Mapping, mapping_of, view}
use astral.Vmm.Insert.{insertrange-IsLike}
use astral.Vmm.Calls.{fork_loop}

wider-IsSorted :
    (low m end : ℕ) (rs : List Range) → m ≤ end → IsSorted low m rs → IsSorted low end rs
wider-IsSorted low m end [] l s = tt
wider-IsSorted low m end (r ∷ rs) l (a, (z, b), s) =
    (a, (z, omega arith), wider-IsSorted (r.start + r.size) m end rs l s)

past-IsFree :
    (low m addr size : ℕ) (rs : List Range) → m ≤ addr → IsSorted low m rs → IsFree rs addr size
past-IsFree low m addr size [] l s = tt
past-IsFree low m addr size (r ∷ rs) l (a, (z, b), s) =
    (inr (omega arith), past-IsFree (r.start + r.size) m addr size rs l s)

below-view :
    (t end : ℕ) (rs : List Range) (a : ℕ) → IsSorted t end rs → suc a ≤ t → view rs a ≡ none
below-view t end [] a s l = refl
below-view t end (r ∷ rs) a (i, (z, b), s) l =
    rw (below_start r.start a (range_top r) (omega arith))
      (below-view (r.start + r.size) end rs a s (omega arith))
  where
    below_start : (s a t : ℕ) → suc a ≤ s → (leb s a && ltb a t) ≡ false
    below_start s a t l = ground arith

abbrev or_else : Option Mapping → Option Mapping → Option Mapping
or_else none o = o
or_else (some m) o = some m

-- Where a range and the rest are apart, it may be looked up after them.
or_else_swap :
    (c : Bool) (m : Mapping) (o p : Option Mapping)
    → (c ≡ true → o ≡ none)
    → or_else o (if c then some m else p) ≡ or_else (if c then some m else o) p
or_else_swap true m o p f = rw (f refl) refl
or_else_swap false m o p f = refl

in_below : (s z a : ℕ) → (leb s a && ltb a (s + z)) ≡ true → suc a ≤ s + z
in_below s z a h = ground arith

-- The child's chain, when `acc` has been copied and `rs` is left.
record IsForked (low end : ℕ) (rs acc chain : List Range) : Type 0 where
  sorted : IsSorted low end chain
  same : (a : ℕ) → view chain a ≡ or_else (view rs a) (view acc a)

fork_loop-IsForked :
    (low m end : ℕ) (rs acc : List Range)
    → end < word_mod
    → low ≤ m
    → m ≤ end
    → IsSorted low m acc
    → IsSorted m end rs
    → IsForked low end rs acc (fork_loop rs acc).chain
unfolding fork_loop
fork_loop-IsForked low m end [] acc b i j s t = record {
  sorted = wider-IsSorted low m end acc j s;
  same = λ a. refl;
}
fork_loop-IsForked low m end (r ∷ rs) acc b i j s (l, (z, q), t) =
    let mid = r.start + r.size in
    let n : m ≤ mid = omega arith in
    let k =
      insertrange-IsLike low mid r acc (omega arith) (wider-IsSorted low m mid acc n s)
        (omega arith) (z, omega arith) (past-IsFree low m r.start r.size acc l s) in
    let f =
      fork_loop-IsForked low mid end rs (insertrange acc r).chain b (omega arith) q k.sorted t in
    record {
      sorted = f.sorted;
      same = λ a.
          f.same a
          ∙ (ap (or_else (view rs a)) (k.same a)
              ∙ or_else_swap (contains r a) (mapping_of r a) (view rs a) (view acc a) (λ h.
                below-view mid end rs a t (
                  in_below r.start r.size a (
                    ap (λ x. leb r.start a && ltb a x) (sym (range_top_lem end r b (z, q))) ∙ h))));
    }

or_else-none : (o : Option Mapping) → or_else o none ≡ o
or_else-none none = refl
or_else-none (some m) = refl

-- The ranges of the child of a fork, whose allocations all succeed, map every address as those of the
-- parent do, when the parent's space is valid.
pub fork_loop-view :
    (s : Space) (a : ℕ)
    → IsSpace s
    → s.start ≤ s.end
    → view (fork_loop s.ranges []).chain a ≡ view s.ranges a
fork_loop-view s a v l =
    (fork_loop-IsForked s.start s.start s.end s.ranges [] v.bounded (omega arith) l tt
        v.sorted).same
      a
    ∙ or_else-none (view s.ranges a)
