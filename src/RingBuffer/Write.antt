-- ===== src/RingBuffer/Write.antt =====
-- `ringbuffer_write` against the queue of the bytes held.
use astral.Base.{
  ℕ, zero, suc, ◌+◌, ◌-◌, ◌%◌, ◌≤◌, ◌<◌, ◌≡◌, refl, ap, ap₂, List, ◌∷◌, ◌++◌, get_or, length, arith,
  min, true, false, word_mod, long_max, min_long,
}
use native.Mathlib.Nat.{add-mod_right}
use astral.Base.Memory.{Memory, is_user_address, Copied, copied, efault, mapped, byte, bytes}
use astral.RingBuffer.{
  Ring, done, failed, write, write_some, copy_in_passes, first_pass, free_space,
}
use astral.RingBuffer.Valid.{
  IsValid, span, contents, span-add, span-congr, length-span, free_space-eq-sub,
}
use astral.RingBuffer.Stored

-- A span whose places hold the bytes of a memory range is that range.
span-eq-bytes :
    (buf : List ℕ) (size p n : ℕ) (m : Memory) (addr : ℕ)
    → ((i : ℕ) → i < n → get_or buf ((p + i) % size) 0 ≡ byte m (addr + i))
    → span buf size p n ≡ bytes m addr n
span-eq-bytes buf size p zero m addr h = refl
span-eq-bytes buf size p (suc n) m addr h =
    ap₂ ◌∷◌
      (let e : p + 0 ≡ p = omega arith in
        let f : addr + 0 ≡ addr = omega arith in rw (e, f) at (h 0 (omega arith)))
      (span-eq-bytes buf size (p + 1) n m (addr + 1) λ i lt.
        let e : p + suc i ≡ p + 1 + i = omega arith in
        let f : addr + suc i ≡ addr + 1 + i = omega arith in rw (e, f) at (h (suc i) (omega arith)))

module _ {r : Ring} (v : IsValid r) (m : Memory) (addr n : ℕ)
    (fit : n ≤ r.size - (r.write - r.read)) (room : addr + n < word_mod) where
  abbrev small : n ≤ r.size
  small = omega arith

  abbrev passes : List ℕ × Copied
  passes = copy_in_passes r.bytes m addr n (r.write % r.size) (first_pass r r.write n)

  around :
      (i : ℕ)
      → i < r.write - r.read
      → (r.write + (r.size - (r.write - r.read) + i)) % r.size ≡ (r.read + i) % r.size
  around i lt =
      let e : r.write + (r.size - (r.write - r.read) + i) ≡ r.read + i + r.size =
        omega (arith, v) in
      rw e (add-mod_right (r.read + i) r.size)

  -- The bytes already held stand at places past the range copied to.
  held : span passes.0 r.size r.read (r.write - r.read) ≡ contents r
  held = span-congr r.bytes passes.0 r.size r.read (r.write - r.read) λ i lt. rw (around i lt) at (
      Stored.passes_keep v m addr n r.write small room (r.size - (r.write - r.read) + i)
        (omega arith) (omega arith))

  abbrev after : Ring
  after = record r { bytes = passes.0 }

  after-IsValid : IsValid after
  after-IsValid = omega (arith, v, Stored.length-passes v m addr n r.write small room)

  grown :
      mapped m addr n ≡ true
      → span passes.0 r.size r.read (r.write + n - r.read) ≡ contents r ++ bytes m addr n
  grown e =
      let len : r.write + n - r.read ≡ r.write - r.read + n = omega (arith, v.ordered) in
      let at : r.read + (r.write - r.read) ≡ r.write = omega (arith, v.ordered) in
      rw (len, span-add, held, at)
        (ap (λ t. contents r ++ t)
          (span-eq-bytes passes.0 r.size r.write n m addr
            (Stored.passes_store v m addr n r.write small room e)))

  done-IsValid : r.write + n < word_mod → IsValid (record after { write = r.write + n })
  done-IsValid h = omega (arith, v, Stored.length-passes v m addr n r.write small room)

-- How much a write transfers.
abbrev pub write_count : Ring → ℕ → ℕ
write_count r count = min count (r.size - length (contents r))

module _ {r : Ring} (v : IsValid r) (count : ℕ) (positive : count < long_max) where
  write_count-le : write_count r count ≤ r.size - (r.write - r.read)
  write_count-le = omega (arith, length-span r.bytes r.size r.read (r.write - r.read))

  count_lem : min_long count (free_space r) ≡ write_count r count
  count_lem = rw (free_space-eq-sub v) (ground (arith, v.small))

write_some_done :
    (r : Ring) (m : Memory) (addr n : ℕ)
    → r.write + n < word_mod
    → (copy_in_passes r.bytes m addr n (r.write % r.size) (first_pass r r.write n)).1 ≡ copied
    → write_some r m addr n ≡ (
      record r {
        write = r.write + n;
        bytes = (copy_in_passes r.bytes m addr n (r.write % r.size) (first_pass r r.write n)).0;
      },
      done n,
    )
unfolding write_some
write_some_done r m addr n h e = ground arith

write_some_fault :
    (r : Ring) (m : Memory) (addr n : ℕ)
    → (copy_in_passes r.bytes m addr n (r.write % r.size) (first_pass r r.write n)).1 ≡ efault
    → write_some r m addr n ≡ (
      record r {
        bytes = (copy_in_passes r.bytes m addr n (r.write % r.size) (first_pass r r.write n)).0;
      },
      failed,
    )
unfolding write_some
write_some_fault r m addr n e = ground arith

-- A write to a valid ring whose source is mapped takes as many bytes as fit, returns their number,
-- appends exactly those to the queue, and keeps the ring valid. The count is no negative `long`, and
-- neither the source's addresses nor the write position wrap.
pub write_lem :
    {r : Ring} (m : Memory) (addr count : ℕ)
    → IsValid r
    → count < long_max
    → addr + count < word_mod
    → r.write + count < word_mod
    → mapped m addr (write_count r count) ≡ true
    → let (r', o) = write r m addr count in
      (o ≡ done (write_count r count))
      × (contents r' ≡ contents r ++ bytes m addr (write_count r count))
      × IsValid r'
unfolding write
write_lem {r} m addr count v pos room wrap e =
    let n = write_count r count in
    let fit : n ≤ r.size - (r.write - r.read) = write_count-le v count pos in
    let end : addr + n < word_mod = omega arith in
    let small : n ≤ r.size = omega arith in
    rw
      (
        count_lem v count pos,
        write_some_done r m addr n (omega arith)
            (Stored.passes_copied v m addr n r.write small end e),
      )
      (refl, grown v m addr n fit end e, done-IsValid v m addr n fit end (omega arith))

-- A write to a valid ring that meets an unmapped address of a range in user space returns failure, and
-- the ring holds what it held. The count is no negative `long`.
pub write_fault :
    {r : Ring} (m : Memory) (addr count : ℕ)
    → IsValid r
    → count < long_max
    → is_user_address (addr + count) ≡ true
    → mapped m addr (write_count r count) ≡ false
    → let (r', o) = write r m addr count in (o ≡ failed) × (contents r' ≡ contents r) × IsValid r'
unfolding write
write_fault {r} m addr count v pos user e =
    let n = write_count r count in
    let fit : n ≤ r.size - (r.write - r.read) = write_count-le v count pos in
    let end : addr + n < word_mod = ground arith in
    let small : n ≤ r.size = omega arith in
    rw
      (
        count_lem v count pos,
        write_some_fault r m addr n
            (Stored.passes_efault v m addr n r.write small end e (ground arith)),
      )
      (refl, held v m addr n fit end, after-IsValid v m addr n fit end)
