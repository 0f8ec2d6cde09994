-- ===== src/Slab.antt =====
-- Object caches: kernel-src/mm/slab.c. A slab goes by a number, an object by its slab and its index
-- there, and a slab's free objects are the list from `slab->free` on.
pub mod Valid
pub mod Calls
pub mod Grow
pub mod Free
pub mod Purge
mod Tests
use astral.Base.{
  ℕ, zero, suc, ◌+◌, ◌-◌, ◌*◌, ◌/◌, Bool, true, false, not, ◌&&◌, ◌||◌, Option, none, some, List,
  [], ◌∷◌, ◌==◌, ltb, if◌then◌else◌, is_member, erase, add64, sub64,
}

-- `slab_t`, without its links and its base
pub record Slab : Type 0 where
  pub used : ℕ
  pub free : List ℕ

-- The lists of a cache: `full`, `partial` and `empty`
abbrev pub full : ℕ
full = 0

abbrev pub partial : ℕ
partial = 1

abbrev pub empty : ℕ
empty = 2

-- `scache_t`: its lists from their heads on, and the slabs behind them
pub record Cache : Type 0 where
  pub lists : ℕ → List ℕ
  pub slabs : ℕ → Slab
  pub size : ℕ
  pub slabobjcount : ℕ

-- SLAB_INDIRECT_CUTOFF
abbrev pub is_direct : Cache → Bool
is_direct c = ltb c.size 512

abbrev pub set_slab : Cache → ℕ → Slab → Cache
set_slab c s r = record c { slabs = λ t. if s == t then r else c.slabs t }

abbrev pub set_list : Cache → ℕ → List ℕ → Cache
set_list c k l = record c { lists = λ j. if k == j then l else c.lists j }

-- The free list that `initdirect` and `initindirect` make of `n` objects.
abbrev pub push_free : ℕ → List ℕ
push_free zero = []
push_free (suc n) = n ∷ push_free n

-- `growcache`, with the slab whose memory `vmm_map` gives, if it gives all of it.
abbrev pub growcache : Cache → Option ℕ → Option Cache
growcache c none = none
growcache c (some s) = some (
    set_list (set_slab c s (record { used = 0; free = push_free c.slabobjcount })) empty
      (s ∷ c.lists empty))

-- `takeobject`: the object and the slab without it.
abbrev pub take_first : Slab → List ℕ → Option ℕ × Slab
take_first r [] = (none, r)
take_first r (i ∷ is) = (some i, record { used = add64 r.used 1; free = is })

abbrev pub takeobject : Slab → Option ℕ × Slab
takeobject r = take_first r r.free

abbrev pub object_of : ℕ → Option ℕ → Option (ℕ × ℕ)
object_of s none = none
object_of s (some i) = some (s, i)

abbrev pub tail : List ℕ → List ℕ
tail [] = []
tail (x ∷ xs) = xs

-- The head of one list becomes the head of another.
abbrev pub move_head : Cache → ℕ → ℕ → ℕ → Cache
move_head c s from to = record c {
  lists =
      λ j. if to == j then s ∷ c.lists to else if from == j then tail (c.lists from) else c.lists j;
}

-- `slab_allocate` once it has the slab: the head of the empty list, or else of the partial one.
abbrev pub allocate_from : Cache → Bool → ℕ → Option (ℕ × ℕ) × Cache
allocate_from c from_empty s =
    let taken = takeobject (c.slabs s) in
    let c' = set_slab c s (taken.1) in
    (
      object_of s (taken.0),
      if from_empty
          then move_head c' s empty partial
          else if (taken.1).used == c.slabobjcount
          then move_head c' s partial full
          else c',
    )

abbrev pub allocate_empty : Cache → List ℕ → Option (ℕ × ℕ) × Cache
allocate_empty c [] = (none, c)
allocate_empty c (s ∷ ss) = allocate_from c true s

abbrev pub allocate_grown : Cache → Option Cache → Option (ℕ × ℕ) × Cache
allocate_grown c none = (none, c)
allocate_grown c (some c') = allocate_empty c' (c'.lists empty)

-- The slab is the first partial one, the first empty one, or a new one.
abbrev pub allocate_in : Cache → Option ℕ → List ℕ → List ℕ → Option (ℕ × ℕ) × Cache
allocate_in c memory (s ∷ ss) es = allocate_from c false s
allocate_in c memory [] (s ∷ ss) = allocate_from c true s
allocate_in c memory [] [] = allocate_grown c (growcache c memory)

-- `slab_allocate`, with what `vmm_map` gives if the cache has to grow.
unfoldable pub slab_allocate : Cache → Option ℕ → Option (ℕ × ℕ) × Cache
slab_allocate c memory = allocate_in c memory (c.lists partial) (c.lists empty)

-- The link of an object is not NULL: another free one follows it.
abbrev pub is_linked : ℕ → List ℕ → Bool
is_linked i [] = false
is_linked i (j ∷ []) = false
is_linked i (j ∷ k ∷ js) = j == i || is_linked i (k ∷ js)

-- `returnobject`; nothing where an assertion fails.
unfoldable pub returnobject : Cache → ℕ → ℕ → Option Cache
returnobject c s i =
    let r = c.slabs s in
    let c' = set_slab c s (record { used = sub64 r.used 1; free = i ∷ r.free }) in
    if is_direct c
    then (if is_linked i r.free then none else some c')
    else if is_member s (c.lists full) || is_member s (c.lists partial)
    then some c'
    else none

-- A slab goes from its list to the head of another; nothing for a slab that is not in that list.
abbrev pub relist : Cache → ℕ → ℕ → ℕ → Option Cache
relist c s from to =
    if is_member s (c.lists from)
    then some (record c {
      lists = λ j.
          if to == j
          then s ∷ c.lists to
          else if from == j
          then erase s (c.lists from)
          else c.lists j;
    })
    else none

abbrev pub settle_full : Option Cache → ℕ → Option Cache
settle_full none s = none
settle_full (some c) s =
    if (c.slabs s).used == sub64 c.slabobjcount 1 then relist c s full partial else some c

abbrev pub settle : Option Cache → ℕ → Option Cache
settle none s = none
settle (some c) s =
    settle_full (if (c.slabs s).used == 0 then relist c s partial empty else some c) s

-- `slab_free`
unfoldable pub slab_free : Cache → ℕ → ℕ → Option Cache
unfolding returnobject
slab_free c s i = settle (returnobject c s i) s

-- The slab after another in the empty list.
abbrev pub next_in : List ℕ → ℕ → Option ℕ
next_in [] s = none
next_in (t ∷ []) s = none
next_in (t ∷ u ∷ l) s = if t == s then some u else next_in (u ∷ l) s

-- The loop of `purge` over the empty list `chain`, from `slab` on, with the head `cache->empty` and the
-- slabs that are unmapped by now; nothing where it reads a slab that is unmapped.
unfoldable pub purge_loop : ℕ → List ℕ → Option ℕ → Option ℕ → List ℕ → Option (List ℕ)
purge_loop zero chain slab head unmapped = some unmapped
purge_loop (suc n) chain none head unmapped = some unmapped
purge_loop (suc n) chain (some s) head unmapped =
    let rest = purge_loop n chain head (next_in chain s) (s ∷ unmapped) in
    if is_member s unmapped then none else rest

abbrev pub first_of : List ℕ → Option ℕ
first_of [] = none
first_of (s ∷ ss) = some s

-- `purge`: the slabs it unmaps.
unfoldable pub purge : Cache → ℕ → Option (List ℕ)
unfolding purge_loop
purge c maxcount =
    purge_loop maxcount (c.lists empty) (first_of (c.lists empty)) (first_of (c.lists empty)) []
