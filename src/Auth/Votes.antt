-- ===== src/Auth/Votes.antt =====
-- `auth_check` as a vote of the listeners of a scope.
use astral.Base.{
  ℕ, ◌+◌, ◌≡◌, refl, ◌∙◌, Bool, false, ◌&&◌, ◌||◌, none, some, [], ◌∷◌, if◌then◌else◌, ◌==◌, arith,
  ◌⊎◌, inl, inr, not, ltb,
}
use astral.Base.Int.{ℤ, pos, ◌+ℤ◌, ◌==ℤ◌}
use astral.Auth.{
  Cred, Verdict, decided, assertion, allow, defer, deny, Scope, check_from, auth_check, granted,
  refused,
}

-- A listener votes: it returns one of the three decisions.
abbrev pub Votes : Verdict → Type 0
Votes v = (v ≡ decided allow) ⊎ ((v ≡ decided defer) ⊎ (v ≡ decided deny))

module _ {A : Type 0} (cred : Cred) (actions : ℕ) (arg : A) where
  abbrev pub AllVote : Scope A → Type 0
  AllVote [] = Unit
  AllVote (none ∷ s) = AllVote s
  AllVote (some l ∷ s) = Votes (l cred actions arg) × AllVote s

  abbrev is_vote : ℤ → Verdict → Bool
  is_vote d (decided z) = z ==ℤ d
  is_vote d assertion = false

  -- Whether some listener votes so.
  abbrev pub any_vote : ℤ → Scope A → Bool
  any_vote d [] = false
  any_vote d (none ∷ s) = any_vote d s
  any_vote d (some l ∷ s) = is_vote d (l cred actions arg) || any_vote d s

  check_from_lem :
      (s : Scope A) (n : ℕ)
      → AllVote s
      → check_from s cred actions arg (pos n)
        ≡ (if not (any_vote deny s) && (any_vote allow s || ltb 0 n) then granted else refused)
  unfolding check_from ◌+ℤ◌
  check_from_lem [] n v = ground arith
  check_from_lem (none ∷ s) n v = check_from_lem s n v
  check_from_lem (some l ∷ s) n v = elim (v.0) [
    | inl e ↦
        rw (e, check_from)
          (let step : pos n +ℤ allow ≡ pos (n + 1) = ground arith in
            rw step (check_from_lem s (n + 1) (v.1) ∙ ground arith))
    | inr (inl e) ↦
        rw (e, check_from)
          (let step : pos n +ℤ defer ≡ pos n = ground arith in rw step (check_from_lem s n (v.1)))
    | inr (inr e) ↦ rw (e, check_from)
  ]

-- Where every listener of a scope returns one of the three decisions, `auth_check` of a credential
-- and at least one action passes exactly when no listener denies and some listener allows; with no
-- action, or for the kernel, it always passes.
pub auth_check-Votes :
    {A : Type 0} (cred : Cred) (actions : ℕ) (arg : A) (s : Scope A)
    → AllVote cred actions arg s
    → (auth_check s (some cred) actions arg ≡ (
        if actions == 0
          || (not (any_vote cred actions arg deny s) && any_vote cred actions arg allow s)
        then granted
        else refused))
      × (auth_check s none actions arg ≡ granted)
unfolding auth_check
auth_check-Votes cred actions arg s v =
    (ground (arith, check_from_lem cred actions arg s 0 v), refl)
