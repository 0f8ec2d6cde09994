-- ===== src/Signals/Sets.antt =====
-- Sets of signals, by membership, and the loops over the signals 1 to NSIG - 1.
use astral.Base.{
  ℕ, zero, suc, ◌+◌, ◌≡◌, refl, ◌∙◌, Bool, true, false, ◌&&◌, ◌||◌, List, [], ◌∷◌, ◌==◌, ltb, leb,
  if◌then◌else◌, arith, Bool-cases, inl, inr,
}

-- `sigset_t`, its bits read by SIGNAL_GET.
abbrev pub Sigset : Type 0
Sigset = ℕ → Bool

abbrev pub none_set : Sigset
none_set i = false

-- SIGNAL_SETON and SIGNAL_SETOFF.
abbrev pub set_on : Sigset → ℕ → Sigset
set_on s i = λ j. if i == j then true else s j

abbrev pub set_off : Sigset → ℕ → Sigset
set_off s i = λ j. if i == j then false else s j

abbrev pub mem : ℕ → List ℕ → Bool
mem i [] = false
mem i (j ∷ js) = i == j || mem i js

-- A loop of `k` rounds from the signal `i` on, over a set.
unfoldable pub each : (ℕ → Sigset → Sigset) → ℕ → ℕ → Sigset → Sigset
each step zero i s = s
each step (suc k) i s = each step k (i + 1) (step i s)

-- One round after those that follow it.
each_next :
    (bit : ℕ → Bool → Bool) (k i : ℕ) (s : Sigset) (j : ℕ)
    → (if leb (i + 1) j && ltb j (i + 1 + k)
        then bit j (if i == j then bit i (s i) else s j)
        else if i == j
        then bit i (s i)
        else s j)
      ≡ (if leb i j && ltb j (i + suc k) then bit j (s j) else s j)
each_next bit k i s j = elim (Bool-cases (i == j)) [
  | inl e ↦
      let e' : i ≡ j = ground arith in
      let out : leb (j + 1) j ≡ false = ground arith in
      let inside : (leb j j && ltb j (j + suc k)) ≡ true = ground arith in
      let self : (j == j) ≡ true = ground arith in rw e' (rw (out, inside, self) refl)
  | inr d ↦
      let same : (leb (i + 1) j && ltb j (i + 1 + k)) ≡ (leb i j && ltb j (i + suc k)) =
        ground arith in
      rw (d, same) refl
]

-- Where a round changes only its own signal, and that by a function of the bit that was there, the
-- loop does so for every signal in its range.
pub each_lem :
    (step : ℕ → Sigset → Sigset) (bit : ℕ → Bool → Bool)
    → ((i : ℕ) (s : Sigset) (j : ℕ) → step i s j ≡ (if i == j then bit i (s i) else s j))
    → (k i : ℕ) (s : Sigset) (j : ℕ)
    → each step k i s j ≡ (if leb i j && ltb j (i + k) then bit j (s j) else s j)
unfolding each
each_lem step bit h zero i s j = ground arith
each_lem step bit h (suc k) i s j =
    each_lem step bit h k (i + 1) (step i s) j ∙ rw (h i s j) (each_next bit k i s j)
