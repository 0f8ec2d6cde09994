-- ===== src/Cred.antt =====
-- Changing credentials: kernel-src/sys/cred.c. Each call asks the scope of credentials first; a call
-- gives nothing if a listener fails an assertion.
pub mod Rules
pub mod Escalation
mod Tests
use astral.Base.{
  ℕ, ◌^◌, Bool, true, false, Option, none, some, if◌then◌else◌, Status, ok, err, einval, eperm, not,
  List, [], ◌∷◌,
}
use astral.Base.Int.{ℤ, pos, negsuc, ◌==ℤ◌}
use astral.Auth.{Cred, is_esu, Scope, Checked, granted, refused, panicked, auth_check}
use astral.Auth.Listeners.{
  Ids, action_setresuid, action_setresgid, action_setuid, action_setgid, action_seteuid,
  action_setegid, Scopes, no_listeners, defaultauth_init,
}

abbrev pub unchanged : ℤ
unchanged = negsuc 0

abbrev pub negative : ℤ → Bool
negative (pos n) = false
negative (negsuc n) = true

-- `(id == -1) ? old : id`
abbrev pub keep : ℤ → ℤ → ℤ
keep id old = if id ==ℤ unchanged then old else id

abbrev pub Result : Type 0
Result = Option (Status × Cred)

-- `auth_cred_check`, and the new credential if it passes.
abbrev pub checked : Scope Ids → Cred → ℕ → ℤ → ℤ → ℤ → Cred → Result
checked s cred action id eid sid after =
    elim (auth_check s (some cred) (2 ^ action) (record { id = id; eid = eid; sid = sid })) [
      | granted ↦ some (ok, after)
      | refused ↦ some (err eperm, cred)
      | panicked ↦ none
    ]

module _ (s : Scope Ids) where
  pub setuids : Cred → ℤ → ℤ → ℤ → Result
  setuids cred uid euid suid = checked s cred action_setresuid uid euid suid (record cred {
    uid = keep uid cred.uid;
    euid = keep euid cred.euid;
    suid = keep suid cred.suid;
  })

  pub setgids : Cred → ℤ → ℤ → ℤ → Result
  setgids cred gid egid sgid = checked s cred action_setresgid gid egid sgid (record cred {
    gid = keep gid cred.gid;
    egid = keep egid cred.egid;
    sgid = keep sgid cred.sgid;
  })

  pub setuid : Cred → ℤ → Result
  setuid cred uid =
      if negative uid
      then some (err einval, cred)
      else checked s cred action_setuid uid unchanged unchanged (
          if is_esu cred
          then record cred { uid = uid; euid = uid; suid = uid }
          else record cred { euid = uid })

  pub seteuid : Cred → ℤ → Result
  seteuid cred euid =
      if negative euid
      then some (err einval, cred)
      else checked s cred action_seteuid unchanged euid unchanged (record cred { euid = euid })

  pub setgid : Cred → ℤ → Result
  setgid cred gid =
      if negative gid
      then some (err einval, cred)
      else checked s cred action_setgid gid unchanged unchanged (
          if is_esu cred
          then record cred { gid = gid; egid = gid; sgid = gid }
          else record cred { egid = gid })

  pub setegid : Cred → ℤ → Result
  setegid cred egid =
      if negative egid
      then some (err einval, cred)
      else checked s cred action_setegid unchanged egid unchanged (record cred { egid = egid })

-- `cred_doexec`: ids above -1 are those of a set-id file.
pub doexec : Cred → ℤ → ℤ → Cred
doexec cred suid sgid =
    let euid' = if negative suid then cred.euid else suid in
    let egid' = if negative sgid then cred.egid else sgid in
    record cred { euid = euid'; egid = egid'; suid = euid'; sgid = egid' }

pub getuids : Cred → ℤ × ℤ × ℤ
getuids cred = (cred.uid, cred.euid, cred.suid)

pub getgids : Cred → ℤ × ℤ × ℤ
getgids cred = (cred.gid, cred.egid, cred.sgid)

-- The calls a process can make on its own credential, other than through exec.
pub data Call : Type 0 where
  set_uids : ℤ → ℤ → ℤ → Call
  set_gids : ℤ → ℤ → ℤ → Call
  set_uid : ℤ → Call
  set_euid : ℤ → Call
  set_gid : ℤ → Call
  set_egid : ℤ → Call

pub call : Scope Ids → Cred → Call → Result
call s cred (set_uids u e d) = setuids s cred u e d
call s cred (set_gids u e d) = setgids s cred u e d
call s cred (set_uid u) = setuid s cred u
call s cred (set_euid u) = seteuid s cred u
call s cred (set_gid u) = setgid s cred u
call s cred (set_egid u) = setegid s cred u

-- Calls one after the other, whatever each returns.
pub calls : Scope Ids → Cred → List Call → Option Cred
calls s cred [] = some cred
calls s cred (c ∷ cs) = elim (call s cred c) [ none ↦ none | some (_, cred') ↦ calls s cred' cs ]

-- The scope of credentials after boot.
abbrev pub cred_scope : Scope Ids
cred_scope = (defaultauth_init no_listeners).of_cred
