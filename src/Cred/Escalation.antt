-- ===== src/Cred/Escalation.antt =====
-- A process that is not the superuser gains no user id by changing its credentials.
use astral.Base.{
  ◌∙◌, ℕ, suc, Bool-cases, ◌≡◌, ◌≢◌, refl, Bool, true, false, Option, some, if◌then◌else◌, arith,
  ◌⊎◌, inl, inr, List, [], ◌∷◌, Status, ok, err, eperm, einval, ◌||◌,
}
use astral.Base.Int.{ℤ, pos, ◌==ℤ◌, eq_of_==ℤ}
use astral.Auth.{Cred, is_esu}
use astral.Cred.{
  Call, set_uids, set_gids, set_uid, set_euid, set_gid, set_egid, call, calls, cred_scope, keep,
  negative,
}
use astral.Cred.Rules.{
  answer, setuids_lem, setgids_lem, setuid_lem, setgid_lem, seteuid_lem, setegid_lem, one_of,
  all_of,
}

-- An id is one of the three user ids of a credential.
abbrev pub Own : Cred → ℤ → Type 0
Own c x = (x ≡ c.uid) ⊎ ((x ≡ c.euid) ⊎ (x ≡ c.suid))

-- All three user ids of `d` are own ids of `c`.
pub record Among (c d : Cred) : Type 0 where
  pub real : Own c d.uid
  pub effective : Own c d.euid
  pub saved : Own c d.suid

-- None of the user ids is the superuser's.
pub record Ordinary (c : Cred) : Type 0 where
  pub real : c.uid ≢ pos 0
  pub effective : c.euid ≢ pos 0
  pub saved : c.suid ≢ pos 0

keep-Own :
    (d : Cred) (x old : ℤ) → Own d old → one_of x d.uid d.euid d.suid ≡ true → Own d (keep x old)
keep-Own d x old o h = ground (arith, eq_of_==ℤ x d.uid, eq_of_==ℤ x d.euid, eq_of_==ℤ x d.suid)

not_esu : (c : Cred) → Ordinary c → is_esu c ≡ false
not_esu c o = elim (Bool-cases (is_esu c)) [
  | inl e ↦ absurd (o.effective (eq_of_==ℤ c.euid (pos 0) e))
  | inr e ↦ e
]

Among-refl : (c : Cred) → Among c c
Among-refl c = record { real = inl refl; effective = inr (inl refl); saved = inr (inr refl) }

-- What a call gives: a status and a credential with no foreign user id.
abbrev Gives : Cred → Option (Status × Cred) → Type 0
Gives c r = (s : Status) × (d : Cred) × (r ≡ some (s, d)) × Among c d

answer-Gives :
    (c after : Cred) (may : Bool) → (may ≡ true → Among c after) → Gives c (answer c may after)
answer-Gives c after true h = (ok, after, refl, h refl)
answer-Gives c after false h = (err eperm, c, refl, Among-refl c)

guarded-Gives :
    (c : Cred) (test : Bool) (r : Option (Status × Cred))
    → Gives c r
    → Gives c (if test then some (err einval, c) else r)
guarded-Gives c true r g = (err einval, c, refl, Among-refl c)
guarded-Gives c false r g = g

-- Setting the effective id to the real or the saved one.
effective-Among :
    (c : Cred) (u : ℤ) → (u ==ℤ c.uid || u ==ℤ c.suid) ≡ true → Among c (record c { euid = u })
effective-Among c u h = record {
  real = inl refl;
  effective = ground (arith, eq_of_==ℤ u c.uid, eq_of_==ℤ u c.suid);
  saved = inr (inr refl);
}

call-Gives : (c : Cred) (k : Call) → Ordinary c → Gives c (call cred_scope c k)
unfolding call
call-Gives c (set_uids u e d) o =
    rw (setuids_lem c u e d, not_esu c o)
      (answer-Gives c _ (all_of u e d c.uid c.euid c.suid) λ h. record {
        real = keep-Own c u c.uid (inl refl) (ground arith);
        effective = keep-Own c e c.euid (inr (inl refl)) (ground arith);
        saved = keep-Own c d c.suid (inr (inr refl)) (ground arith);
      })
call-Gives c (set_gids u e d) o = rw (setgids_lem c u e d) (
    answer-Gives c _ _
      λ h. record { real = inl refl; effective = inr (inl refl); saved = inr (inr refl) })
call-Gives c (set_uid u) o =
    rw (setuid_lem c u, not_esu c o)
      (guarded-Gives c (negative u) _ (answer-Gives c _ _ (effective-Among c u)))
call-Gives c (set_euid u) o =
    rw (seteuid_lem c u, not_esu c o)
      (guarded-Gives c (negative u) _ (answer-Gives c _ _ (effective-Among c u)))
call-Gives c (set_gid u) o =
    rw (setgid_lem c u, not_esu c o)
      (guarded-Gives c (negative u) _ (
        answer-Gives c _ _
          λ h. record { real = inl refl; effective = inr (inl refl); saved = inr (inr refl) }))
call-Gives c (set_egid u) o = rw (setegid_lem c u) (
    guarded-Gives c (negative u) _ (
      answer-Gives c _ _
        λ h. record { real = inl refl; effective = inr (inl refl); saved = inr (inr refl) }))

Own-trans : (c d : Cred) (x : ℤ) → Among c d → Own d x → Own c x
Own-trans c d x a o = ground (arith, a.real, a.effective, a.saved)

Among-trans : (c d e : Cred) → Among c d → Among d e → Among c e
Among-trans c d e a b = record {
  real = Own-trans c d e.uid a b.real;
  effective = Own-trans c d e.euid a b.effective;
  saved = Own-trans c d e.suid a b.saved;
}

Own-ne : (c : Cred) (x : ℤ) → Ordinary c → Own c x → x ≢ pos 0
Own-ne c x o w e = ground (arith, o.real, o.effective, o.saved)

Among-Ordinary : (c d : Cred) → Ordinary c → Among c d → Ordinary d
Among-Ordinary c d o a = record {
  real = Own-ne c d.uid o a.real;
  effective = Own-ne c d.euid o a.effective;
  saved = Own-ne c d.suid o a.saved;
}

-- A process none of whose user ids is 0, with the default listeners, can make any calls that set its
-- user and group ids in any order, with whatever success: they all return, and each of the three user
-- ids that it ends with is one of the three that it began with. In particular none is 0.
pub calls-Among :
    (c : Cred) (ks : List Call)
    → Ordinary c
    → (d : Cred) × (calls cred_scope c ks ≡ some d) × Among c d × Ordinary d
unfolding calls
calls-Among c [] o = (c, refl, Among-refl c, o)
calls-Among c (k ∷ ks) o =
    let (s, d, e, a) = call-Gives c k o in
    let (f, e', b, o') = calls-Among d ks (Among-Ordinary c d o a) in
    (f, rw (e, calls) e', Among-trans c d f a b, o')

-- The superuser who sets a user id above 0 by `setuid` never has user id 0 again through such calls.
drop_privileges :
    (c : Cred) (n : ℕ) (ks : List Call)
    → is_esu c ≡ true
    → (d : Cred) × (calls cred_scope c (set_uid (pos (suc n)) ∷ ks) ≡ some d) × Ordinary d
unfolding calls call
drop_privileges c n ks h =
    let after : Cred = record c { uid = pos (suc n); euid = pos (suc n); suid = pos (suc n) } in
    let first : call cred_scope c (set_uid (pos (suc n))) ≡ some (ok, after) =
      setuid_lem c (pos (suc n)) ∙ rw h in
    let (d, e, _, o) = calls-Among after ks (record { real = cc; effective = cc; saved = cc }) in
    (d, rw (first, calls) e, o)
