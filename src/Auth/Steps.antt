-- ===== src/Auth/Steps.antt =====
-- The shape that the default listeners of kernel-src/sys/defaultauth.c share: tests of one action bit
-- each, which raise a weight or return at once.
use astral.Base.{ℕ, ◌+◌, Bool, ◌==◌, if◌then◌else◌}
use astral.Auth.{Verdict, decided, allow, defer, deny}

-- Going on with a weight, or the listener's return.
pub data Step : Type 0 where
  go : ℕ → Step
  return : Verdict → Step

infixl 5 ◌>>=◌
abbrev pub ◌>>=◌ : Step → (ℕ → Step) → Step
go w >>= f = f w
return v >>= f = return v

-- The label `done`.
abbrev pub finish : ℕ → Verdict
finish w = if w == 0 then decided defer else decided allow

abbrev pub run : Step → Verdict
run (go w) = finish w
run (return v) = v

-- DONE_CHECK: leave at once if no action is left. (Nothing takes bits off `actions`.)
abbrev pub done_check : ℕ → ℕ → Step
done_check actions w = if actions == 0 then return (finish w) else go w

-- `if (actions & BIT) { if (ok) weight += 1; else return DENY; DONE_CHECK(actions); }`
abbrev pub required : ℕ → Bool → Bool → ℕ → Step
required actions asked ok w =
    if asked then (if ok then done_check actions (w + 1) else return (decided deny)) else go w
