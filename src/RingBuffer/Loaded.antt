-- ===== src/RingBuffer/Loaded.antt =====
-- The two passes of a copy out of the ring: what they leave in the memory copied to.
use astral.Base.{
  ℕ, ◌+◌, ◌-◌, ◌%◌, ◌≤◌, ◌<◌, ◌≡◌, sym, ap, ◌∙◌, List, get_or, arith, some, Bool, true, false, ◌&&◌,
  word_mod, Bool-cases, inl, inr, ◌⊎◌, add64, sub64,
}
use native.Mathlib.Nat.{mod-lt}
use native.Mathlib.Decide.{dec_le, dec_lt}
use astral.Base.Memory.{Memory, Copied, copied, copy_end, copy_out, mapped}
use astral.Base.Memory.Bytes.{
  mapped-add, fault-copy_out, copy_out_before, copy_out_after, copy_out_inside, mapped-copy_out,
}
use astral.RingBuffer.{Ring, copy_out_passes, first_pass}
use astral.RingBuffer.Valid.{IsValid, mod-add_low, mod-add_high}
use astral.RingBuffer.Passes.{first_pass_all, first_pass_part}

module _ (buf : List ℕ) (m : Memory) (addr count off first : ℕ) (user₁ user₂ : Bool) where
  one_pass :
      first ≡ count
      → copy_out_passes buf m addr count off first user₁ user₂
        ≡ ((copy_out buf off m addr count).0, copy_end user₁ (copy_out buf off m addr count).1)
  unfolding copy_out_passes
  one_pass h = rw h (ground arith)

  two_passes_fault :
      mapped m addr first ≡ false
      → (copy_out_passes buf m addr count off first user₁ user₂).1 ≡ copy_end user₁ true
  unfolding copy_out_passes
  two_passes_fault e = ground (arith, fault-copy_out buf off m addr first)

  two_passes :
      mapped m addr first ≡ true
      → first < count
      → count < word_mod
      → addr + count < word_mod
      → copy_out_passes buf m addr count off first user₁ user₂ ≡ (
        (copy_out buf 0 (copy_out buf off m addr first).0 (addr + first) (count - first)).0,
        copy_end user₂
            (copy_out buf 0 (copy_out buf off m addr first).0 (addr + first) (count - first)).1,
      )
  unfolding copy_out_passes
  two_passes e lt w room =
      let g : add64 addr first ≡ addr + first = omega arith in
      let s : sub64 count first ≡ count - first = omega arith in
      rw (← g, ← s) (ground (arith, fault-copy_out buf off m addr first))

module _ {r : Ring} (v : IsValid r) (m : Memory) (addr count p : ℕ) (user₁ user₂ : Bool)
    (small : count ≤ r.size) (room : addr + count < word_mod) where
  abbrev off : ℕ
  off = p % r.size

  abbrev left : ℕ
  left = r.size - off

  off-lt : off < r.size
  off-lt = mod-lt p v.nonempty

  abbrev passes : Memory × Copied
  passes = copy_out_passes r.bytes m addr count off (first_pass r p count) user₁ user₂

  all_at_once :
      off + count ≤ r.size
      → passes ≡ (
        (copy_out r.bytes off m addr count).0,
        copy_end user₁ (copy_out r.bytes off m addr count).1,
      )
  all_at_once h =
      one_pass r.bytes m addr count off (first_pass r p count) user₁ user₂
        (first_pass_all p count v h)

  cut : r.size < off + count → passes ≡ copy_out_passes r.bytes m addr count off left user₁ user₂
  cut h =
      ap (λ first. copy_out_passes r.bytes m addr count off first user₁ user₂)
        (first_pass_part p count v small h)

  in_two :
      r.size < off + count
      → mapped m addr left ≡ true
      → passes ≡ (
        (copy_out r.bytes 0 (copy_out r.bytes off m addr left).0 (addr + left) (count - left)).0,
        copy_end user₂
            (copy_out r.bytes 0
              (copy_out r.bytes off m addr left).0
              (addr + left)
              (count - left)).1,
      )
  in_two h e =
      cut h
      ∙ two_passes r.bytes m addr count off left user₁ user₂ e (omega (arith, off-lt))
          (omega (arith, v)) room

  faulted : r.size < off + count → mapped m addr left ≡ false → passes.1 ≡ copy_end user₁ true
  faulted h e = rw (cut h) (two_passes_fault r.bytes m addr count off left user₁ user₂ e)

  split :
      left ≤ count
      → mapped m addr count ≡ (mapped m addr left && mapped m (addr + left) (count - left))
  split h =
      let e : left + (count - left) ≡ count = omega arith in
      ap (mapped m addr) (sym e) ∙ mapped-add m addr left (count - left)

  mapped_prefix : left ≤ count → mapped m addr count ≡ true → mapped m addr left ≡ true
  mapped_prefix h e = ground (arith, split h)

  mapped_right :
      left ≤ count
      → mapped m addr count ≡ true
      → mapped (copy_out r.bytes off m addr left).0 (addr + left) (count - left) ≡ true
  mapped_right h e = ground (arith, split h, mapped-copy_out r.bytes off m addr left (count - left))

  -- Where the destination is mapped the copy succeeds, and the bytes at the position stand there.
  pub passes_load :
      mapped m addr count ≡ true
      → (k : ℕ) → k < count
      → passes.0 (addr + k) ≡ some (get_or r.bytes ((p + k) % r.size) 0)
  passes_load e k lt = elim (dec_le (off + count) r.size) [
    | yes one ↦
        rw (all_at_once one, mod-add_low p r.size k v.nonempty (omega arith))
          (copy_out_inside r.bytes off m addr count k e lt)
    | no two ↦
        let l : mapped m addr left ≡ true = mapped_prefix (omega (arith, off-lt)) e in
        rw (in_two (omega arith) l) (elim (dec_lt (off + k) r.size) [
          | yes low ↦ rw (mod-add_low p r.size k v.nonempty low) (
              copy_out_before r.bytes 0 (copy_out r.bytes off m addr left).0 (addr + left)
                (count - left) (addr + k) (omega (arith, off-lt))
              ∙ copy_out_inside r.bytes off m addr left k l (omega arith))
          | no high ↦
              let at : off + k - r.size ≡ 0 + (k - left) = omega (arith, off-lt) in
              let from : addr + k ≡ addr + left + (k - left) = omega (arith, off-lt) in
              rw (mod-add_high p r.size k v.nonempty (omega arith) (omega arith), at, from)
                (copy_out_inside r.bytes 0 (copy_out r.bytes off m addr left).0 (addr + left)
                  (count - left) (k - left) (mapped_right (omega (arith, off-lt)) e)
                  (omega (arith, off-lt)))
        ])
  ]

  pub passes_copied : mapped m addr count ≡ true → passes.1 ≡ copied
  passes_copied e = elim (dec_le (off + count) r.size) [
    | yes one ↦ rw (all_at_once one) (ground (arith, fault-copy_out r.bytes off m addr count))
    | no two ↦ rw (in_two (omega arith) (mapped_prefix (omega (arith, off-lt)) e)) (
        ground (
          arith,
          mapped_right (omega (arith, off-lt)) e,
          fault-copy_out r.bytes 0 (copy_out r.bytes off m addr left).0 (addr + left)
              (count - left),
        ))
  ]

  -- A fault ends the copy the way the address test says, if it says the same in both passes.
  pub passes_fault : mapped m addr count ≡ false → user₁ ≡ user₂ → passes.1 ≡ copy_end user₁ true
  passes_fault e same = elim (dec_le (off + count) r.size) [
    | yes one ↦ rw (all_at_once one) (ground (arith, fault-copy_out r.bytes off m addr count))
    | no two ↦ elim (Bool-cases (mapped m addr left)) [
      | inl l ↦ rw (in_two (omega arith) l) (
          ground (
            arith,
            off-lt,
            split (omega (arith, off-lt)),
            mapped-copy_out r.bytes off m addr left (count - left),
            fault-copy_out r.bytes 0 (copy_out r.bytes off m addr left).0 (addr + left)
                (count - left),
          ))
      | inr l ↦ faulted (omega arith) l
    ]
  ]

  -- Nothing outside the destination changes.
  pub passes_outside :
      mapped m addr count ≡ true → (x : ℕ) → (x < addr) ⊎ (addr + count ≤ x) → passes.0 x ≡ m x
  passes_outside e x side = elim (dec_le (off + count) r.size) [
    | yes one ↦ rw (all_at_once one) (elim side [
      | inl h ↦ copy_out_before r.bytes off m addr count x h
      | inr h ↦ copy_out_after r.bytes off m addr count x h
    ])
    | no two ↦ rw (in_two (omega arith) (mapped_prefix (omega (arith, off-lt)) e)) (elim side [
      | inl h ↦
          copy_out_before r.bytes 0 (copy_out r.bytes off m addr left).0 (addr + left)
            (count - left) x (omega arith)
          ∙ copy_out_before r.bytes off m addr left x h
      | inr h ↦
          copy_out_after r.bytes 0 (copy_out r.bytes off m addr left).0 (addr + left) (count - left)
            x (omega (arith, off-lt))
          ∙ copy_out_after r.bytes off m addr left x (omega (arith, off-lt))
    ])
  ]
