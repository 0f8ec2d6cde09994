-- ===== src/Vmm/Map.antt =====
-- `vmm_map`: the address that it gives was free, maps what was asked for afterwards, and every other
-- address maps what it did.
use mathlib.Core.Path.{subst, subst⁻¹}
use astral.Base.{
  ℕ, ◌+◌, ◌-◌, ◌≤◌, ◌≡◌, ◌≢◌, ◌⊎◌, Bool, true, false, not, ◌&&◌, Option, none, some, [], ◌==◌, ltb,
  leb, if◌then◌else◌, add64, bit_at, arith, refl, ap, ◌∙◌,
}
use astral.Vmm.{Range, Space, getfreerange, insertrange, from_hint}
use astral.Vmm.Valid.{IsSpace, IsFree, range_top_lem}
use astral.Vmm.View.{Mapping, mapping_of, view, file_place}
use astral.Vmm.Free.{IsHint, IsGap, getfreerange-IsGap}
use astral.Vmm.Insert.{insertrange-IsSorted, insertrange-view}
use astral.Vmm.Calls.{
  Request, Around, range_at, map_at, map_found, map_in, permanent, with_file, with_replace,
  with_pages, with_exact,
}

-- The space once a range has been inserted.
abbrev inserted : Space → Range → Space
inserted s new = record s { ranges = (insertrange s.ranges new).chain }

-- A call that gives an address has found it free and has inserted a range there.
abbrev IsMapped : Around → Space → Request → Option ℕ → Option ℕ × Space → Type 0
IsMapped w s r o (none, s') = s' ≡ s
IsMapped w s r o (some a, s') =
    (o ≡ some a) × ((slot : Range) × (s' ≡ inserted s (range_at r slot a)))

IsMapped-if :
    (w : Around) (s : Space) (r : Request) (o : Option ℕ) (b : Bool) (p q : Option ℕ × Space)
    → IsMapped w s r o p
    → IsMapped w s r o q
    → IsMapped w s r o (if b then p else q)
IsMapped-if w s r o true p q x y = x
IsMapped-if w s r o false p q x y = y

map_at-IsMapped :
    (w : Around) (s : Space) (r : Request) (start : ℕ) (slot : Option Range)
    → with_replace r.flags ≡ false
    → IsMapped w s r (some start) (map_at w s r start slot)
map_at-IsMapped w s r start none h = refl
map_at-IsMapped w s r start (some slot) h =
    IsMapped-if w s r (some start) (with_pages r.flags && not w.pages_mapped) _ _ (rw h refl)
      (rw h (refl, (slot, refl)))

map_found-IsMapped :
    (w : Around) (s : Space) (r : Request) (o : Option ℕ)
    → with_replace r.flags ≡ false
    → IsMapped w s r o (map_found w s r o)
map_found-IsMapped w s r none h = refl
map_found-IsMapped w s r (some start) h =
    IsMapped-if w s r (some start) (with_exact r.flags && not (start == r.addr)) _ _ refl
      (map_at-IsMapped w s r start w.slot h)

permanent_file : (flags : ℕ) → bit_at (permanent flags) 3 ≡ with_file flags
permanent_file flags = go (bit_at flags 2) (bit_at flags 3) (bit_at flags 5)
  where
    go :
        (b c d : Bool)
        → bit_at ((if b then 4 else 0) + (if c then 8 else 0) + (if d then 32 else 0)) 3 ≡ c
    go true true true = refl
    go true true false = refl
    go true false true = refl
    go true false false = refl
    go false true true = refl
    go false true false = refl
    go false false true = refl
    go false false false = refl

-- What `vmm_map` is asked to map at an address `b` of the range at `a`.
abbrev pub asked : Request → ℕ → ℕ → Mapping
asked r a b = record {
  flags = permanent r.flags;
  mmuflags = r.mmuflags;
  place = file_place (with_file r.flags) r.file (add64 r.offset (b - a));
}

place_asked :
    (c : Bool) (file offset v o d : ℕ)
    → file_place c (if c then file else v) (add64 (if c then offset else o) d)
      ≡ file_place c file (add64 offset d)
place_asked true file offset v o d = refl
place_asked false file offset v o d = refl

mapping_asked :
    (r : Request) (slot : Range) (a b : ℕ) → mapping_of (range_at r slot a) b ≡ asked r a b
mapping_asked r slot a b =
    let e : file_place (bit_at (permanent r.flags) 3)
          (if with_file r.flags then r.file else slot.vnode)
          (add64 (if with_file r.flags then r.offset else slot.offset) (b - a))
        ≡ file_place (with_file r.flags) r.file (add64 r.offset (b - a)) =
      rw (permanent_file r.flags)
        (place_asked (with_file r.flags) r.file r.offset slot.vnode slot.offset (b - a)) in
    (λ i. record { flags = permanent r.flags; mmuflags = r.mmuflags; place = e i })

-- A call that gives an address, its gap and its range.
mapped_range :
    (w : Around) (s s' : Space) (r : Request) (a : ℕ)
    → with_replace r.flags ≡ false
    → map_in w s r ≡ (some a, s')
    → (getfreerange s r.addr r.size ≡ some a)
      × ((slot : Range) × (s' ≡ inserted s (range_at r slot a)))
unfolding map_in
mapped_range w s s' r a h e =
    subst (IsMapped w s r (getfreerange s r.addr r.size)) e
      (map_found-IsMapped w s r (getfreerange s r.addr r.size) h)

-- Where a call without VMM_FLAGS_REPLACE gives no address, the space is as before.
map_in-none :
    (w : Around) (s s' : Space) (r : Request)
    → with_replace r.flags ≡ false
    → map_in w s r ≡ (none, s')
    → s' ≡ s
unfolding map_in
map_in-none w s s' r h e =
    subst (IsMapped w s r (getfreerange s r.addr r.size)) e
      (map_found-IsMapped w s r (getfreerange s r.addr r.size) h)

-- What a new range in a gap does to a space.
pub record IsGrown (s s' : Space) (r : Request) (a : ℕ) : Type 0 where
  pub valid : IsSpace s'
  pub free : IsFree s.ranges a r.size
  pub same :
      (b : ℕ)
      → view s'.ranges b
        ≡ (if leb a b && ltb b (a + r.size) then some (asked r a b) else view s.ranges b)

inserted-IsGrown :
    (s : Space) (r : Request) (slot : Range) (a : ℕ)
    → IsSpace s
    → 1 ≤ r.size
    → s.start ≤ a
    → IsGap s.end s.ranges (from_hint s r.addr) r.size a
    → IsGrown s (inserted s (range_at r slot a)) r a
inserted-IsGrown s r slot a v z l (i, j, f) =
    let new = range_at r slot a in
    record {
      valid = insertrange-IsSorted s new v l (z, j) f;
      free = f;
      same = λ b.
          insertrange-view s new b v l (z, j) f
          ∙ rw (range_top_lem s.end new v.bounded (z, j)) (
              ap (λ m. if leb a b && ltb b (a + r.size) then some m else view s.ranges b)
                (mapping_asked r slot a b));
    }

low_gap :
    (s : Space) (r : Request) (a : ℕ)
    → IsHint s r.addr
    → IsGap s.end s.ranges (from_hint s r.addr) r.size a
    → s.start ≤ a
low_gap s r a (i, j) (k, l, f) = le_trans s.start (from_hint s r.addr) a i k
  where
    le_trans : (x y z : ℕ) → x ≤ y → y ≤ z → x ≤ z
    le_trans x y z h l = omega arith

-- When vmm_map gives an address in a valid space (without VMM_FLAGS_REPLACE, for a size of at least 1 and
-- a hint in the space, which has a range or room for the size at the hint), the addresses of the new mapping
-- were in no range, they map what was asked for afterwards, every other address maps what it did, and the
-- space is valid.
pub map_in-IsGrown :
    (w : Around) (s s' : Space) (r : Request) (a : ℕ)
    → IsSpace s
    → IsHint s r.addr
    → 1 ≤ r.size
    → (s.ranges ≢ []) ⊎ (from_hint s r.addr + r.size ≤ s.end)
    → with_replace r.flags ≡ false
    → map_in w s r ≡ (some a, s')
    → IsGrown s s' r a
map_in-IsGrown w s s' r a v i z n h e =
    let (f, (slot, g)) = mapped_range w s s' r a h e in
    let k = getfreerange-IsGap s r.addr r.size a v i z n f in
    subst⁻¹ (λ t. IsGrown s t r a) g (inserted-IsGrown s r slot a v z (low_gap s r a i k) k)
