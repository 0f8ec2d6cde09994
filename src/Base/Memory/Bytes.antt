-- ===== src/Base/Memory/Bytes.antt =====
-- What a byte-by-byte copy leaves in the buffer or the memory copied to.
use astral.Base.{
  inl, inr, ℕ, zero, suc, ◌+◌, ◌≤◌, ◌<◌, ◌≡◌, refl, ap, ◌∙◌, true, not, ◌&&◌, some, List, set,
  get_or, length, length-set, arith, Option-cases, get_or-set_self, get_or-set_ne,
}
use mathlib.Core.Bool.{false≢true}
use astral.Base.Memory.{Memory, copy_in, copy_out, poke, mapped, byte}

pub mapped-add :
    (m : Memory) (addr a b : ℕ) → mapped m addr (a + b) ≡ (mapped m addr a && mapped m (addr + a) b)
mapped-add m addr zero b =
    let e : addr + 0 ≡ addr = omega arith in let f : 0 + b ≡ b = omega arith in rw (e, f)
mapped-add m addr (suc a) b = elim (Option-cases (m addr)) [
  | inl e ↦ shift ∙ rw (e, mapped)
  | inr (c, e) ↦ shift ∙ rw (e, mapped) (mapped-add m (addr + 1) a b ∙ rw next)
]
  where
    shift : mapped m addr (suc a + b) ≡ mapped m addr (suc (a + b))
    shift = let e : suc a + b ≡ suc (a + b) = omega arith in ap (mapped m addr) e

    next : addr + 1 + a ≡ addr + suc a
    next = omega arith

pub length-copy_in :
    (buf : List ℕ) (off : ℕ) (m : Memory) (addr n : ℕ)
    → length (copy_in buf off m addr n).0 ≡ length buf
unfolding copy_in
length-copy_in buf off m addr zero = refl
length-copy_in buf off m addr (suc n) = elim (Option-cases (m addr)) [
  | inl e ↦ ground arith
  | inr (b, e) ↦
      ground (arith, length-copy_in (set buf off b) (off + 1) m (addr + 1) n, length-set buf off b)
]

-- A copy fails exactly when a byte of its source is not mapped.
pub fault-copy_in :
    (buf : List ℕ) (off : ℕ) (m : Memory) (addr n : ℕ)
    → (copy_in buf off m addr n).1 ≡ not (mapped m addr n)
unfolding copy_in
fault-copy_in buf off m addr zero = refl
fault-copy_in buf off m addr (suc n) = elim (Option-cases (m addr)) [
  | inl e ↦ ground arith
  | inr (b, e) ↦ ground (arith, fault-copy_in (set buf off b) (off + 1) m (addr + 1) n)
]

pub get_or-copy_in_before :
    (buf : List ℕ) (off : ℕ) (m : Memory) (addr n i : ℕ)
    → i < off
    → get_or (copy_in buf off m addr n).0 i 0 ≡ get_or buf i 0
unfolding copy_in
get_or-copy_in_before buf off m addr zero i h = refl
get_or-copy_in_before buf off m addr (suc n) i h = elim (Option-cases (m addr)) [
  | inl e ↦ rw (e, copy_in)
  | inr (b, e) ↦
      rw (e, copy_in)
        (get_or-copy_in_before (set buf off b) (off + 1) m (addr + 1) n i (omega arith)
          ∙ get_or-set_ne buf b 0 (omega arith))
]

pub get_or-copy_in_after :
    (buf : List ℕ) (off : ℕ) (m : Memory) (addr n i : ℕ)
    → off + n ≤ i
    → get_or (copy_in buf off m addr n).0 i 0 ≡ get_or buf i 0
unfolding copy_in
get_or-copy_in_after buf off m addr zero i h = refl
get_or-copy_in_after buf off m addr (suc n) i h = elim (Option-cases (m addr)) [
  | inl e ↦ rw (e, copy_in)
  | inr (b, e) ↦
      rw (e, copy_in)
        (get_or-copy_in_after (set buf off b) (off + 1) m (addr + 1) n i (omega arith)
          ∙ get_or-set_ne buf b 0 (omega arith))
]

pub get_or-copy_in :
    (buf : List ℕ) (off : ℕ) (m : Memory) (addr n i : ℕ)
    → mapped m addr n ≡ true
    → off + n ≤ length buf
    → i < n
    → get_or (copy_in buf off m addr n).0 (off + i) 0 ≡ byte m (addr + i)
unfolding copy_in
get_or-copy_in buf off m addr zero i v h lt = absurd (omega arith)
get_or-copy_in buf off m addr (suc n) zero v h lt = elim (Option-cases (m addr)) [
  | inl e ↦ absurd (false≢true (rw (e, mapped) at v))
  | inr (b, e) ↦
      let at : off + 0 ≡ off = omega arith in
      let from : addr + 0 ≡ addr = omega arith in
      rw (at, from, e, copy_in, byte)
        (get_or-copy_in_before (set buf off b) (off + 1) m (addr + 1) n off (omega arith)
          ∙ get_or-set_self buf off b 0 (omega arith))
]
get_or-copy_in buf off m addr (suc n) (suc i) v h lt = elim (Option-cases (m addr)) [
  | inl e ↦ absurd (false≢true (rw (e, mapped) at v))
  | inr (b, e) ↦
      let at : off + suc i ≡ off + 1 + i = omega arith in
      let from : addr + suc i ≡ addr + 1 + i = omega arith in
      rw (at, from, e, copy_in)
        (get_or-copy_in (set buf off b) (off + 1) m (addr + 1) n i (rw (e, mapped) at v)
          (omega (arith, length-set buf off b)) (omega arith))
]

-- The memory after a copy out: the bytes copied stand at the destination.
pub mapped-poke :
    (m : Memory) (a b addr n : ℕ) → a < addr → mapped (poke m a b) addr n ≡ mapped m addr n
mapped-poke m a b addr zero h = refl
mapped-poke m a b addr (suc n) h = ground (arith, mapped-poke m a b (addr + 1) n)

pub fault-copy_out :
    (buf : List ℕ) (off : ℕ) (m : Memory) (addr n : ℕ)
    → (copy_out buf off m addr n).1 ≡ not (mapped m addr n)
unfolding copy_out
fault-copy_out buf off m addr zero = refl
fault-copy_out buf off m addr (suc n) = elim (Option-cases (m addr)) [
  | inl e ↦ ground arith
  | inr (b, e) ↦ ground (
    arith,
    fault-copy_out buf (off + 1) (poke m addr (get_or buf off 0)) (addr + 1) n,
    mapped-poke m addr (get_or buf off 0) (addr + 1) n,
  )
]

-- A copy out touches no address below its destination or past its end.
pub copy_out_before :
    (buf : List ℕ) (off : ℕ) (m : Memory) (addr n x : ℕ)
    → x < addr
    → (copy_out buf off m addr n).0 x ≡ m x
unfolding copy_out
copy_out_before buf off m addr zero x h = refl
copy_out_before buf off m addr (suc n) x h =
    ground (arith, copy_out_before buf (off + 1) (poke m addr (get_or buf off 0)) (addr + 1) n x)

pub copy_out_after :
    (buf : List ℕ) (off : ℕ) (m : Memory) (addr n x : ℕ)
    → addr + n ≤ x
    → (copy_out buf off m addr n).0 x ≡ m x
unfolding copy_out
copy_out_after buf off m addr zero x h = refl
copy_out_after buf off m addr (suc n) x h =
    ground (arith, copy_out_after buf (off + 1) (poke m addr (get_or buf off 0)) (addr + 1) n x)

pub copy_out_inside :
    (buf : List ℕ) (off : ℕ) (m : Memory) (addr n i : ℕ)
    → mapped m addr n ≡ true
    → i < n
    → (copy_out buf off m addr n).0 (addr + i) ≡ some (get_or buf (off + i) 0)
unfolding copy_out
copy_out_inside buf off m addr zero i v lt = absurd (omega arith)
copy_out_inside buf off m addr (suc n) zero v lt =
    let at : off + 0 ≡ off = omega arith in
    let from : addr + 0 ≡ addr = omega arith in
    rw (at, from)
      (ground
        (arith, copy_out_before buf (off + 1) (poke m addr (get_or buf off 0)) (addr + 1) n addr))
copy_out_inside buf off m addr (suc n) (suc i) v lt =
    let at : off + suc i ≡ off + 1 + i = omega arith in
    let from : addr + suc i ≡ addr + 1 + i = omega arith in
    rw (at, from)
      (ground (
        arith,
        copy_out_inside buf (off + 1) (poke m addr (get_or buf off 0)) (addr + 1) n i,
        mapped-poke m addr (get_or buf off 0) (addr + 1) n,
      ))

-- Memories that agree on a range have it mapped alike.
pub mapped-congr :
    (m m' : Memory) (addr n : ℕ)
    → ((x : ℕ) → addr ≤ x → m' x ≡ m x)
    → mapped m' addr n ≡ mapped m addr n
mapped-congr m m' addr zero h = refl
mapped-congr m m' addr (suc n) h =
    ground (arith, h addr, mapped-congr m m' (addr + 1) n (λ x lt. h x (omega arith)))

pub mapped-copy_out :
    (buf : List ℕ) (off : ℕ) (m : Memory) (addr n k : ℕ)
    → mapped (copy_out buf off m addr n).0 (addr + n) k ≡ mapped m (addr + n) k
mapped-copy_out buf off m addr n k =
    mapped-congr m (copy_out buf off m addr n).0 (addr + n) k
      (λ x h. copy_out_after buf off m addr n x h)
