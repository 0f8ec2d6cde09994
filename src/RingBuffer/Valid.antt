-- ===== src/RingBuffer/Valid.antt =====
-- The representation invariant of a ring and the bytes that it holds, oldest first.
use astral.Base.{
  ℕ, zero, suc, ◌+◌, ◌-◌, ◌%◌, ◌^◌, ◌≤◌, ◌<◌, ◌≡◌, refl, ap, ap₂, ◌∙◌, List, [], ◌∷◌, ◌++◌, get_or,
  length, arith, word_mod, long_max,
}
use native.Mathlib.Nat.{mod-add-mod, mod-eq_of_lt, mod-eq-sub-mod, mod-lt}
use astral.RingBuffer.{Ring, data_count, free_space}

-- The mapping holds `size` bytes of kernel memory, the positions are in order and have not wrapped,
-- and at most `size` bytes are stored.
pub record IsValid (r : Ring) : Type 0 where
  pub nonempty : 0 < r.size
  pub small : r.size < long_max
  pub storage : r.size ≤ length r.bytes
  pub ordered : r.read ≤ r.write
  pub fits : r.write ≤ r.read + r.size
  pub no_wrap : r.write < word_mod
  pub kernel : 2 ^ 47 ≤ r.base
  pub top : r.base + r.size ≤ word_mod

-- The `n` bytes from position `p` on, going round at `size`.
abbrev pub span : List ℕ → ℕ → ℕ → ℕ → List ℕ
span buf size p zero = []
span buf size p (suc n) = get_or buf (p % size) 0 ∷ span buf size (p + 1) n

abbrev pub contents : Ring → List ℕ
contents r = span r.bytes r.size r.read (r.write - r.read)

pub length-span : (buf : List ℕ) (size p n : ℕ) → length (span buf size p n) ≡ n
length-span buf size p zero = refl
length-span buf size p (suc n) = ap suc (length-span buf size (p + 1) n)

pub span-add :
    (buf : List ℕ) (size p a b : ℕ)
    → span buf size p (a + b) ≡ span buf size p a ++ span buf size (p + a) b
span-add buf size p zero b =
    let e : 0 + b ≡ b = omega arith in let f : p + 0 ≡ p = omega arith in rw (e, f)
span-add buf size p (suc a) b =
    let e : suc a + b ≡ suc (a + b) = omega arith in
    let f : p + suc a ≡ p + 1 + a = omega arith in
    rw (e, f) (ap (λ t. get_or buf (p % size) 0 ∷ t) (span-add buf size (p + 1) a b))

-- Two mappings that agree at the positions of a span have the same span.
pub span-congr :
    (buf buf' : List ℕ) (size p n : ℕ)
    → ((i : ℕ) → i < n → get_or buf' ((p + i) % size) 0 ≡ get_or buf ((p + i) % size) 0)
    → span buf' size p n ≡ span buf size p n
span-congr buf buf' size p zero h = refl
span-congr buf buf' size p (suc n) h =
    ap₂ ◌∷◌ (let e : p + 0 ≡ p = omega arith in rw e at (h 0 (omega arith))) (
      span-congr buf buf' size (p + 1) n
        λ i lt. let e : p + suc i ≡ p + 1 + i = omega arith in rw e at (h (suc i) (omega arith)))

-- Where a position lands in the mapping, from where an earlier one within `size` of it does.
pub mod-add_low : (w size i : ℕ) → 0 < size → w % size + i < size → (w + i) % size ≡ w % size + i
mod-add_low w size i pos h = rw (← mod-add-mod) (mod-eq_of_lt h)

pub mod-add_high :
    (w size i : ℕ)
    → 0 < size
    → i ≤ size
    → size ≤ w % size + i
    → (w + i) % size ≡ w % size + i - size
mod-add_high w size i pos h k = rw (← mod-add-mod) (
    mod-eq-sub-mod {n = w % size + i} {m = size} k
    ∙ mod-eq_of_lt {n = w % size + i - size} {m = size} (omega (arith, mod-lt w pos)))

pub data_count-eq-length : {r : Ring} → IsValid r → data_count r ≡ length (contents r)
data_count-eq-length {r} v = omega (arith, length-span r.bytes r.size r.read (r.write - r.read))

pub free_space-eq-sub : {r : Ring} → IsValid r → free_space r ≡ r.size - length (contents r)
free_space-eq-sub {r} v = omega (arith, length-span r.bytes r.size r.read (r.write - r.read))
