-- ===== src/Cred/Rules.antt =====
-- What the default listener lets a credential change.
use astral.Base.{
  ℕ, ◌^◌, suc, ◌≡◌, ap, Bool, true, false, not, ◌&&◌, ◌||◌, some, if◌then◌else◌, arith, ok, err,
  eperm, einval,
}
use astral.Base.Int.{ℤ, ◌==ℤ◌, ◌+ℤ◌}
use astral.Auth.{
  Cred, is_esu, register_listener, check_from, auth_check, granted, refused, decided, allow, deny,
}
use astral.Auth.Listeners.{Ids, credlistener, defaultauth_init}
use astral.Cred.{
  setuids, setgids, setuid, seteuid, setgid, setegid, cred_scope, checked, keep, unchanged,
  negative, Result,
}

-- An id is one of the three, or asks for no change.
abbrev pub one_of : ℤ → ℤ → ℤ → ℤ → Bool
one_of x a b c = x ==ℤ unchanged || (x ==ℤ a || (x ==ℤ b || x ==ℤ c))

abbrev pub all_of : ℤ → ℤ → ℤ → ℤ → ℤ → ℤ → Bool
all_of x y z a b c = one_of x a b c && (one_of y a b c && one_of z a b c)

-- A foreign id is one that is none of the three and no -1.
foreign_lem : (p q r s : Bool) → (not p && (not q && (not r && not s))) ≡ not (p || (q || (r || s)))
foreign_lem p q r s = ground arith

-- With the default listener alone, the check is the listener's answer.
check_lem :
    (cred : Cred) (actions : ℕ) (ids : Ids) (may : Bool)
    → credlistener cred (suc actions) ids ≡ (if may then decided allow else decided deny)
    → auth_check cred_scope (some cred) (suc actions) ids ≡ (if may then granted else refused)
unfolding auth_check defaultauth_init register_listener ◌+ℤ◌
check_lem cred actions ids true e = rw (e, check_from) (ground arith)
check_lem cred actions ids false e = rw (e, check_from) (ground arith)

module _ (cred : Cred) (ids : Ids) where
  setresuid_lem : credlistener cred 1 ids ≡ (
      if is_esu cred || all_of ids.id ids.eid ids.sid cred.uid cred.euid cred.suid
      then decided allow
      else decided deny)
  unfolding credlistener
  setresuid_lem =
      rw
        (
          foreign_lem (ids.id ==ℤ unchanged) (ids.id ==ℤ cred.uid) (ids.id ==ℤ cred.euid)
              (ids.id ==ℤ cred.suid),
          foreign_lem (ids.eid ==ℤ unchanged) (ids.eid ==ℤ cred.uid) (ids.eid ==ℤ cred.euid)
              (ids.eid ==ℤ cred.suid),
          foreign_lem (ids.sid ==ℤ unchanged) (ids.sid ==ℤ cred.uid) (ids.sid ==ℤ cred.euid)
              (ids.sid ==ℤ cred.suid),
        )
        (ground arith)

  setresgid_lem : credlistener cred 2 ids ≡ (
      if is_esu cred || all_of ids.id ids.eid ids.sid cred.gid cred.egid cred.sgid
      then decided allow
      else decided deny)
  unfolding credlistener
  setresgid_lem =
      rw
        (
          foreign_lem (ids.id ==ℤ unchanged) (ids.id ==ℤ cred.gid) (ids.id ==ℤ cred.egid)
              (ids.id ==ℤ cred.sgid),
          foreign_lem (ids.eid ==ℤ unchanged) (ids.eid ==ℤ cred.gid) (ids.eid ==ℤ cred.egid)
              (ids.eid ==ℤ cred.sgid),
          foreign_lem (ids.sid ==ℤ unchanged) (ids.sid ==ℤ cred.gid) (ids.sid ==ℤ cred.egid)
              (ids.sid ==ℤ cred.sgid),
        )
        (ground arith)

  setuid_rule : credlistener cred 4 ids ≡ (
      if is_esu cred || (ids.id ==ℤ cred.uid || ids.id ==ℤ cred.suid)
      then decided allow
      else decided deny)
  unfolding credlistener
  setuid_rule = ground arith

  setgid_rule : credlistener cred 8 ids ≡ (
      if is_esu cred || (ids.id ==ℤ cred.gid || ids.id ==ℤ cred.sgid)
      then decided allow
      else decided deny)
  unfolding credlistener
  setgid_rule = ground arith

  seteuid_rule : credlistener cred 16 ids ≡ (
      if is_esu cred || (ids.eid ==ℤ cred.uid || ids.eid ==ℤ cred.suid)
      then decided allow
      else decided deny)
  unfolding credlistener
  seteuid_rule = ground arith

  setegid_rule : credlistener cred 32 ids ≡ (
      if is_esu cred || (ids.eid ==ℤ cred.gid || ids.eid ==ℤ cred.sgid)
      then decided allow
      else decided deny)
  unfolding credlistener
  setegid_rule = ground arith

-- What a call gives once the check is known.
abbrev pub answer : Cred → Bool → Cred → Result
answer cred may after = if may then some (ok, after) else some (err eperm, cred)

checked_lem :
    (cred : Cred) (action : ℕ) (u e d : ℤ) (after : Cred) (may : Bool)
    → auth_check cred_scope (some cred) (2 ^ action) (record { id = u; eid = e; sid = d })
      ≡ (if may then granted else refused)
    → checked cred_scope cred action u e d after ≡ answer cred may after
checked_lem cred action u e d after may h = rw (h, checked) (ground arith)

-- `setresuid` succeeds for the superuser, and for another only if each id asked for is one of its own
-- three or -1; then exactly the ids that are not -1 change.
pub setuids_lem :
    (cred : Cred) (u e d : ℤ)
    → setuids cred_scope cred u e d
      ≡ answer cred
          (is_esu cred || all_of u e d cred.uid cred.euid cred.suid)
          (record cred { uid = keep u cred.uid; euid = keep e cred.euid; suid = keep d cred.suid })
unfolding setuids
setuids_lem cred u e d =
    checked_lem cred 0 u e d _ _
      (check_lem cred 0 _ _ (setresuid_lem cred (record { id = u; eid = e; sid = d })))

pub setgids_lem :
    (cred : Cred) (u e d : ℤ)
    → setgids cred_scope cred u e d
      ≡ answer cred
          (is_esu cred || all_of u e d cred.gid cred.egid cred.sgid)
          (record cred { gid = keep u cred.gid; egid = keep e cred.egid; sgid = keep d cred.sgid })
unfolding setgids
setgids_lem cred u e d =
    checked_lem cred 1 u e d _ _
      (check_lem cred 1 _ _ (setresgid_lem cred (record { id = u; eid = e; sid = d })))

-- `setuid` takes no negative id. The superuser sets all three ids, another only the effective one,
-- and only to its real or saved id.
pub setuid_lem :
    (cred : Cred) (u : ℤ)
    → setuid cred_scope cred u ≡ (
        if negative u
        then some (err einval, cred)
        else answer cred (is_esu cred || (u ==ℤ cred.uid || u ==ℤ cred.suid)) (
            if is_esu cred
            then record cred { uid = u; euid = u; suid = u }
            else record cred { euid = u }))
unfolding setuid
setuid_lem cred u =
    ap (λ r. if negative u then some (err einval, cred) else r)
      (checked_lem cred 2 u unchanged unchanged _ _ (
        check_lem cred 3 _ _
          (setuid_rule cred (record { id = u; eid = unchanged; sid = unchanged }))))

pub setgid_lem :
    (cred : Cred) (g : ℤ)
    → setgid cred_scope cred g ≡ (
        if negative g
        then some (err einval, cred)
        else answer cred (is_esu cred || (g ==ℤ cred.gid || g ==ℤ cred.sgid)) (
            if is_esu cred
            then record cred { gid = g; egid = g; sgid = g }
            else record cred { egid = g }))
unfolding setgid
setgid_lem cred g =
    ap (λ r. if negative g then some (err einval, cred) else r)
      (checked_lem cred 3 g unchanged unchanged _ _ (
        check_lem cred 7 _ _
          (setgid_rule cred (record { id = g; eid = unchanged; sid = unchanged }))))

pub seteuid_lem :
    (cred : Cred) (u : ℤ)
    → seteuid cred_scope cred u ≡ (
        if negative u
        then some (err einval, cred)
        else answer cred
            (is_esu cred || (u ==ℤ cred.uid || u ==ℤ cred.suid))
            (record cred { euid = u }))
unfolding seteuid
seteuid_lem cred u =
    ap (λ r. if negative u then some (err einval, cred) else r)
      (checked_lem cred 4 unchanged u unchanged _ _ (
        check_lem cred 15 _ _
          (seteuid_rule cred (record { id = unchanged; eid = u; sid = unchanged }))))

pub setegid_lem :
    (cred : Cred) (g : ℤ)
    → setegid cred_scope cred g ≡ (
        if negative g
        then some (err einval, cred)
        else answer cred
            (is_esu cred || (g ==ℤ cred.gid || g ==ℤ cred.sgid))
            (record cred { egid = g }))
unfolding setegid
setegid_lem cred g =
    ap (λ r. if negative g then some (err einval, cred) else r)
      (checked_lem cred 5 unchanged g unchanged _ _ (
        check_lem cred 31 _ _
          (setegid_rule cred (record { id = unchanged; eid = g; sid = unchanged }))))
