-- ===== src/RingBuffer/Peek.antt =====
-- `ringbuffer_peek` against the queue of the bytes held.
use astral.Base.{
  ℕ, ◌+◌, ◌-◌, ◌%◌, ◌≤◌, ◌<◌, ◌≡◌, refl, sym, ap, ◌∙◌, length, arith, min, true, false, word_mod,
  long_max, min_long, add64, sub64, take, drop, leb,
}
use mathlib.Core.Path.{subst}
use astral.Base.Memory.{Memory, is_user_address, Copied, copied, efault, copy_end, mapped, bytes}
use astral.RingBuffer.{
  Ring, done, failed, peek, peek_some, copy_out_passes, first_pass, data_count, free_space,
}
use astral.RingBuffer.Valid.{
  IsValid, contents, length-span, data_count-eq-length, free_space-eq-sub,
}
use astral.RingBuffer.Ends.{take-span, drop-span}
use astral.RingBuffer.Read.{SameOutside, bytes-eq-span}
use astral.RingBuffer.Loaded
use astral.RingBuffer.Passes.{first_pass-le}

-- How many bytes a peek takes, and how far past the oldest byte it starts.
abbrev pub peek_count : Ring → ℕ → ℕ → ℕ
peek_count r offset count = min count (length (contents r) - offset)

abbrev pub peek_start : Ring → ℕ → ℕ
peek_start r offset = min offset (r.size - length (contents r))

abbrev passes : Ring → Memory → ℕ → ℕ → ℕ → Memory × Copied
passes r m addr from n =
    copy_out_passes r.bytes m addr n (from % r.size) (first_pass r from n) (is_user_address addr)
      (is_user_address (add64 addr (first_pass r from n)))

peek_some_done :
    (r : Ring) (m : Memory) (addr from n : ℕ)
    → (passes r m addr from n).1 ≡ copied
    → peek_some r m addr from n ≡ ((passes r m addr from n).0, done n)
unfolding peek_some
peek_some_done r m addr from n e = ground arith

peek_some_fault :
    (r : Ring) (m : Memory) (addr from n : ℕ)
    → (passes r m addr from n).1 ≡ efault
    → (peek_some r m addr from n).1 ≡ failed
unfolding peek_some
peek_some_fault r m addr from n e = ground arith

module _ {r : Ring} (m : Memory) (addr offset count : ℕ) (v : IsValid r) (pos : count < long_max)
    (below : offset < length (contents r)) where
  len : length (contents r) ≡ r.write - r.read
  len = length-span r.bytes r.size r.read (r.write - r.read)

  start : add64 r.read (min_long offset (free_space r)) ≡ r.read + peek_start r offset
  start = rw (free_space-eq-sub v) (ground (arith, v, len))

  count_lem : min_long count (sub64 (data_count r) offset) ≡ peek_count r offset count
  count_lem = rw (data_count-eq-length v) (ground (arith, v, len))

  peek_eq :
      peek r m addr offset count
      ≡ peek_some r m addr (r.read + peek_start r offset) (peek_count r offset count)
  unfolding peek
  peek_eq =
      let test : leb (data_count r) offset ≡ false = rw (data_count-eq-length v) (ground arith) in
      rw (test, start, count_lem)

  bounds :
      (peek_count r offset count ≤ r.size)
      × (peek_count r offset count ≤ r.write - r.read - peek_start r offset)
      × (peek_start r offset ≤ r.write - r.read)
  bounds = omega (arith, v, len)

-- The bytes come from `peek_start` on, whatever the offset is.
peek_from :
    {r : Ring} (m : Memory) (addr offset count : ℕ)
    → IsValid r
    → count < long_max
    → addr + count < word_mod
    → offset < length (contents r)
    → mapped m addr (peek_count r offset count) ≡ true
    → let (m', o) = peek r m addr offset count in
      let n = peek_count r offset count in
      (o ≡ done n)
      × (bytes m' addr n ≡ take n (drop (peek_start r offset) (contents r)))
      × SameOutside m m' addr n
peek_from {r} m addr offset count v pos room below e =
    let n = peek_count r offset count in
    let s = peek_start r offset in
    let (small, inside, start_le) = bounds m addr offset count v pos below in
    let end : addr + n < word_mod = omega arith in
    let u₁ = is_user_address addr in
    let u₂ = is_user_address (add64 addr (first_pass r (r.read + s) n)) in
    rw
      (
        peek_eq m addr offset count v pos below,
        peek_some_done r m addr (r.read + s) n
            (Loaded.passes_copied v m addr n (r.read + s) u₁ u₂ small end e),
      )
      (
        refl,
        bytes-eq-span r.bytes r.size (r.read + s) n (passes r m addr (r.read + s) n).0 addr
              (Loaded.passes_load v m addr n (r.read + s) u₁ u₂ small end e)
            ∙ sym (
                ap (take n) (drop-span r.bytes r.size r.read s (r.write - r.read) start_le)
                ∙ take-span r.bytes r.size (r.read + s) n (r.write - r.read - s) inside),
        Loaded.passes_outside v m addr n (r.read + s) u₁ u₂ small end e,
      )

-- A peek of a valid ring into mapped memory, at an offset below the number of bytes held and no larger
-- than the free space, returns the number of bytes asked for or, where fewer are held past the offset,
-- that number, and leaves that many of the bytes from the offset on at the destination; nothing else
-- changes. The count is no negative `long`, and the destination's addresses do not wrap.
pub peek_lem :
    {r : Ring} (m : Memory) (addr offset count : ℕ)
    → IsValid r
    → count < long_max
    → addr + count < word_mod
    → offset < length (contents r)
    → offset ≤ r.size - length (contents r)
    → mapped m addr (peek_count r offset count) ≡ true
    → let (m', o) = peek r m addr offset count in
      let n = peek_count r offset count in
      (o ≡ done n) × (bytes m' addr n ≡ take n (drop offset (contents r))) × SameOutside m m' addr n
peek_lem {r} m addr offset count v pos room below free e =
    let s : peek_start r offset ≡ offset = omega (arith, free) in
    let (o, b, u) = peek_from m addr offset count v pos room below e in
    (
      o,
      subst
          (λ k.
            bytes (peek r m addr offset count).0 addr (peek_count r offset count)
            ≡ take (peek_count r offset count) (drop k (contents r)))
          s b,
      u,
    )

-- A peek of a valid ring, at an offset below the number of bytes held, that meets an unmapped address
-- of a range in user space returns failure. The count is no negative `long`.
pub peek_fault :
    {r : Ring} (m : Memory) (addr offset count : ℕ)
    → IsValid r
    → count < long_max
    → offset < length (contents r)
    → is_user_address (addr + count) ≡ true
    → mapped m addr (peek_count r offset count) ≡ false
    → (peek r m addr offset count).1 ≡ failed
peek_fault {r} m addr offset count v pos below user e =
    let n = peek_count r offset count in
    let s = peek_start r offset in
    let (small, _, _) = bounds m addr offset count v pos below in
    let end : addr + n < word_mod = ground arith in
    let u₁ = is_user_address addr in
    let u₂ = is_user_address (add64 addr (first_pass r (r.read + s) n)) in
    let yes₁ : u₁ ≡ true = ground arith in
    let yes₂ : u₂ ≡ true = ground (arith, first_pass-le (r.read + s) n v small) in
    rw (peek_eq m addr offset count v pos below) (
      peek_some_fault r m addr (r.read + s) n (
        Loaded.passes_fault v m addr n (r.read + s) u₁ u₂ small end e (yes₁ ∙ sym yes₂)
        ∙ ap (λ u. copy_end u true) yes₁))
