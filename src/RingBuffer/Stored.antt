-- ===== src/RingBuffer/Stored.antt =====
-- What the two passes of a copy into the ring leave at each place of the mapping, counted from the
-- position copied to.
use astral.Base.{
  ℕ, ◌+◌, ◌-◌, ◌%◌, ◌≤◌, ◌<◌, ◌≡◌, sym, ap, ◌∙◌, List, get_or, length, arith, true, false, ◌&&◌,
  word_mod, Bool-cases, inl, inr,
}
use native.Mathlib.Nat.{mod-lt}
use native.Mathlib.Decide.{dec_le, dec_lt}
use astral.Base.Memory.{
  Memory, is_user_address, Copied, copied, efault, copy_end, copy_in, mapped, byte,
}
use astral.Base.Memory.Bytes.{
  mapped-add, length-copy_in, fault-copy_in, get_or-copy_in_before, get_or-copy_in_after,
  get_or-copy_in,
}
use astral.RingBuffer.{Ring, copy_in_passes, first_pass}
use astral.RingBuffer.Valid.{IsValid, mod-add_low, mod-add_high}
use astral.RingBuffer.Passes.{
  first_pass_all, first_pass_part, one_pass, two_passes, two_passes_fault,
}

module _ {r : Ring} (v : IsValid r) (m : Memory) (addr count p : ℕ) (small : count ≤ r.size)
    (room : addr + count < word_mod) where
  abbrev off : ℕ
  off = p % r.size

  abbrev left : ℕ
  left = r.size - off

  off-lt : off < r.size
  off-lt = mod-lt p v.nonempty

  abbrev passes : List ℕ × Copied
  passes = copy_in_passes r.bytes m addr count off (first_pass r p count)

  all_at_once :
      off + count ≤ r.size
      → passes ≡ (
        (copy_in r.bytes off m addr count).0,
        copy_end (is_user_address addr) (copy_in r.bytes off m addr count).1,
      )
  all_at_once h =
      one_pass r.bytes m addr count off (first_pass r p count) (first_pass_all p count v h)

  first_part : r.size < off + count → first_pass r p count ≡ left
  first_part h = first_pass_part p count v small h

  in_two :
      r.size < off + count
      → mapped m addr left ≡ true
      → passes ≡ (
        (copy_in (copy_in r.bytes off m addr left).0 0 m (addr + left) (count - left)).0,
        copy_end
            (is_user_address (addr + left))
            (copy_in (copy_in r.bytes off m addr left).0 0 m (addr + left) (count - left)).1,
      )
  in_two h e =
      ap (copy_in_passes r.bytes m addr count off) (first_part h)
      ∙ two_passes r.bytes m addr count off left e (omega (arith, off-lt)) (omega (arith, v)) room

  faulted :
      r.size < off + count
      → mapped m addr left ≡ false
      → passes ≡ ((copy_in r.bytes off m addr left).0, copy_end (is_user_address addr) true)
  faulted h e =
      ap (copy_in_passes r.bytes m addr count off) (first_part h)
      ∙ two_passes_fault r.bytes m addr count off left e

  split :
      left ≤ count
      → mapped m addr count ≡ (mapped m addr left && mapped m (addr + left) (count - left))
  split h =
      let e : left + (count - left) ≡ count = omega arith in
      ap (mapped m addr) (sym e) ∙ mapped-add m addr left (count - left)

  mapped_prefix : left ≤ count → mapped m addr count ≡ true → mapped m addr left ≡ true
  mapped_prefix h e = ground (arith, split h)

  mapped_right :
      left ≤ count → mapped m addr count ≡ true → mapped m (addr + left) (count - left) ≡ true
  mapped_right h e = ground (arith, split h)

  low : (k : ℕ) → off + k < r.size → (p + k) % r.size ≡ off + k
  low k h = mod-add_low p r.size k v.nonempty h

  high : (k : ℕ) → k < r.size → r.size ≤ off + k → (p + k) % r.size ≡ off + k - r.size
  high k lt h = mod-add_high p r.size k v.nonempty (omega arith) h

  pub length-passes : length passes.0 ≡ length r.bytes
  length-passes = elim (dec_le (off + count) r.size) [
    | yes h ↦ rw (all_at_once h) (length-copy_in r.bytes off m addr count)
    | no h ↦ elim (Bool-cases (mapped m addr left)) [
      | inl e ↦ rw (in_two (omega arith) e) (
          length-copy_in (copy_in r.bytes off m addr left).0 0 m (addr + left) (count - left)
          ∙ length-copy_in r.bytes off m addr left)
      | inr e ↦ rw (faulted (omega arith) e) (length-copy_in r.bytes off m addr left)
    ]
  ]

  -- Places past the range copied to are left alone, also by a copy that fails.
  pub passes_keep :
      (k : ℕ)
      → count ≤ k
      → k < r.size
      → get_or passes.0 ((p + k) % r.size) 0 ≡ get_or r.bytes ((p + k) % r.size) 0
  passes_keep k h lt = elim (dec_le (off + count) r.size) [
    | yes one ↦ rw (all_at_once one) (elim (dec_lt (off + k) r.size) [
      | yes l ↦ rw (low k l) (get_or-copy_in_after r.bytes off m addr count (off + k) (omega arith))
      | no g ↦
          rw (high k lt (omega arith))
            (get_or-copy_in_before r.bytes off m addr count (off + k - r.size) (omega arith))
    ])
    | no two ↦
        let place : (p + k) % r.size ≡ off + k - r.size = high k lt (omega arith) in
        let before =
          get_or-copy_in_before r.bytes off m addr left (off + k - r.size) (omega arith) in
        elim (Bool-cases (mapped m addr left)) [
          | inl e ↦
              rw (in_two (omega arith) e, place)
                (get_or-copy_in_after (copy_in r.bytes off m addr left).0 0 m (addr + left)
                    (count - left) (off + k - r.size) (omega (arith, off-lt))
                  ∙ before)
          | inr e ↦ rw (faulted (omega arith) e, place) before
        ]
  ]

  -- Where the source is mapped the copy succeeds, and its bytes follow the position.
  pub passes_store :
      mapped m addr count ≡ true
      → (k : ℕ) → k < count
      → get_or passes.0 ((p + k) % r.size) 0 ≡ byte m (addr + k)
  passes_store e k lt = elim (dec_le (off + count) r.size) [
    | yes one ↦
        rw (all_at_once one, low k (omega arith))
          (get_or-copy_in r.bytes off m addr count k e (omega (arith, v.storage)) lt)
    | no two ↦
        rw (in_two (omega arith) (mapped_prefix (omega (arith, off-lt)) e))
          (elim (dec_lt (off + k) r.size) [
            | yes l ↦ rw (low k l) (
                get_or-copy_in_after (copy_in r.bytes off m addr left).0 0 m (addr + left)
                  (count - left) (off + k) (omega (arith, off-lt))
                ∙ get_or-copy_in r.bytes off m addr left k (mapped_prefix (omega (arith, off-lt)) e)
                    (omega (arith, v.storage, off-lt)) (omega arith))
            | no g ↦
                let at : off + k - r.size ≡ 0 + (k - left) = omega (arith, off-lt) in
                let from : addr + k ≡ addr + left + (k - left) = omega (arith, off-lt) in
                rw (high k (omega arith) (omega arith), at, from)
                  (get_or-copy_in (copy_in r.bytes off m addr left).0 0 m (addr + left)
                    (count - left) (k - left) (mapped_right (omega (arith, off-lt)) e)
                    (omega (arith, v.storage, off-lt, length-copy_in r.bytes off m addr left))
                    (omega (arith, off-lt)))
          ])
  ]

  pub passes_copied : mapped m addr count ≡ true → passes.1 ≡ copied
  passes_copied e = elim (dec_le (off + count) r.size) [
    | yes one ↦ rw (all_at_once one) (ground (arith, fault-copy_in r.bytes off m addr count))
    | no two ↦ rw (in_two (omega arith) (mapped_prefix (omega (arith, off-lt)) e)) (
        ground (
          arith,
          mapped_right (omega (arith, off-lt)) e,
          fault-copy_in (copy_in r.bytes off m addr left).0 0 m (addr + left) (count - left),
        ))
  ]

  pub passes_efault :
      mapped m addr count ≡ false → is_user_address (addr + count) ≡ true → passes.1 ≡ efault
  passes_efault e user = elim (dec_le (off + count) r.size) [
    | yes one ↦ rw (all_at_once one) (ground (arith, fault-copy_in r.bytes off m addr count))
    | no two ↦ elim (Bool-cases (mapped m addr left)) [
      | inl l ↦ rw (in_two (omega arith) l) (
          ground (
            arith,
            off-lt,
            split (omega (arith, off-lt)),
            fault-copy_in (copy_in r.bytes off m addr left).0 0 m (addr + left) (count - left),
          ))
      | inr l ↦ rw (faulted (omega arith) l) (ground arith)
    ]
  ]
