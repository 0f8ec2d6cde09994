-- ===== src/RingBuffer/Read.antt =====
-- `ringbuffer_read` and `ringbuffer_peek` against the queue of the bytes held.
use astral.Base.{
  ℕ, zero, suc, ◌+◌, ◌-◌, ◌%◌, ◌≤◌, ◌<◌, ◌≡◌, refl, sym, ap, ap₂, ◌∙◌, List, ◌∷◌, get_or, arith,
  true, false, none, some, word_mod, long_max, add64, take, drop, ◌⊎◌,
}
use astral.Base.Memory.{Memory, is_user_address, Copied, copied, panic, copy_end, mapped, bytes}
use astral.RingBuffer.{Ring, done, crashed, read, read_some, copy_out_passes, first_pass}
use astral.RingBuffer.Valid.{IsValid, span, contents}
use astral.RingBuffer.Ends.{take-span, held_count, held_count_lem, advanced}
use astral.RingBuffer.Loaded
use native.Mathlib.Nat.{mod-lt}

-- A memory range that holds the bytes of a span is that span.
pub bytes-eq-span :
    (buf : List ℕ) (size p n : ℕ) (m : Memory) (addr : ℕ)
    → ((i : ℕ) → i < n → m (addr + i) ≡ some (get_or buf ((p + i) % size) 0))
    → bytes m addr n ≡ span buf size p n
bytes-eq-span buf size p zero m addr h = refl
bytes-eq-span buf size p (suc n) m addr h =
    ap₂ ◌∷◌
      (let e : p + 0 ≡ p = omega arith in
        let f : addr + 0 ≡ addr = omega arith in
        ap (λ o. elim o [ none ↦ 0 | some b ↦ b ]) (rw (e, f) at (h 0 (omega arith))))
      (bytes-eq-span buf size (p + 1) n m (addr + 1) λ i lt.
        let e : p + suc i ≡ p + 1 + i = omega arith in
        let f : addr + suc i ≡ addr + 1 + i = omega arith in rw (e, f) at (h (suc i) (omega arith)))

-- The memory is as before outside `n` bytes at `addr`.
abbrev pub SameOutside : Memory → Memory → ℕ → ℕ → Type 0
SameOutside m m' addr n = (x : ℕ) → (x < addr) ⊎ (addr + n ≤ x) → m' x ≡ m x

abbrev read_passes : Ring → Memory → ℕ → ℕ → Memory × Copied
read_passes r m addr n =
    copy_out_passes r.bytes m addr n (r.read % r.size) (first_pass r r.read n)
      (is_user_address (add64 r.base (r.read % r.size))) (is_user_address r.base)

read_some_done :
    (r : Ring) (m : Memory) (addr n : ℕ)
    → (read_passes r m addr n).1 ≡ copied
    → read_some r m addr n
      ≡ (record r { read = add64 r.read n }, (read_passes r m addr n).0, done n)
unfolding read_some
read_some_done r m addr n e = ground arith

read_some_crash :
    (r : Ring) (m : Memory) (addr n : ℕ)
    → (read_passes r m addr n).1 ≡ panic
    → read_some r m addr n ≡ (r, (read_passes r m addr n).0, crashed)
unfolding read_some
read_some_crash r m addr n e = ground arith

-- A read of a valid ring into mapped memory returns as many of the oldest bytes as asked for and held,
-- puts exactly those at the destination and nothing elsewhere, takes them off the queue, and keeps the
-- ring valid. The count is no negative `long`, and the destination's addresses do not wrap.
pub read_lem :
    {r : Ring} (m : Memory) (addr count : ℕ)
    → IsValid r
    → count < long_max
    → addr + count < word_mod
    → mapped m addr (held_count r count) ≡ true
    → let (r', m', o) = read r m addr count in
      let n = held_count r count in
      (o ≡ done n)
      × (bytes m' addr n ≡ take n (contents r))
      × SameOutside m m' addr n
      × (contents r' ≡ drop n (contents r))
      × IsValid r'
unfolding read
read_lem {r} m addr count v pos room e =
    let (eq, _, le) = held_count_lem count v pos in
    let n = held_count r count in
    let small : n ≤ r.size = omega (arith, v.fits) in
    let end : addr + n < word_mod = omega arith in
    let u₁ = is_user_address (add64 r.base (r.read % r.size)) in
    let u₂ = is_user_address r.base in
    let (c, w) = advanced n v le in
    rw (eq, read_some_done r m addr n (Loaded.passes_copied v m addr n r.read u₁ u₂ small end e))
      (
        refl,
        bytes-eq-span r.bytes r.size r.read n (read_passes r m addr n).0 addr
              (Loaded.passes_load v m addr n r.read u₁ u₂ small end e)
            ∙ sym (take-span r.bytes r.size r.read n (r.write - r.read) le),
        Loaded.passes_outside v m addr n r.read u₁ u₂ small end e,
        c,
        w,
      )

-- A read of a valid ring into a range with an unmapped address faults in the kernel, also where the
-- range is a user one: the guarded copy is chosen by the ring's own address. The count is no negative
-- `long`, and the range does not wrap.
read_crash :
    {r : Ring} (m : Memory) (addr count : ℕ)
    → IsValid r
    → count < long_max
    → addr + count < word_mod
    → mapped m addr (held_count r count) ≡ false
    → (read r m addr count).2 ≡ crashed
unfolding read
read_crash {r} m addr count v pos room e =
    let (eq, _, le) = held_count_lem count v pos in
    let n = held_count r count in
    let u₁ = is_user_address (add64 r.base (r.read % r.size)) in
    let u₂ = is_user_address r.base in
    let not_user₂ : u₂ ≡ false = ground (arith, v.kernel) in
    let not_user₁ : u₁ ≡ false = ground (arith, v.kernel, v.top, mod-lt r.read v.nonempty) in
    let fault : (read_passes r m addr n).1 ≡ panic =
      Loaded.passes_fault v m addr n r.read u₁ u₂ (omega (arith, v.fits)) (omega arith) e
        (not_user₁ ∙ sym not_user₂)
      ∙ ap (λ u. copy_end u true) not_user₁ in
    rw (eq, read_some_crash r m addr n fault)
