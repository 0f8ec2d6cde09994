-- ===== src/Cred/Tests.antt =====
-- Runs of the changes of credentials, and their theorems at concrete ones.
use astral.Base.{◌≡◌, refl, some, [], ◌∷◌}
use astral.Base.Int.{pos, negsuc}
use astral.Auth.{Cred}
use astral.Cred.{calls, set_uids, set_euid, cred_scope, doexec}
use astral.Cred.Escalation.{Among, Ordinary, calls-Among}

abbrev user : Cred
user = record { uid = pos 5; euid = pos 6; suid = pos 7; gid = pos 9; egid = pos 9; sgid = pos 9 }

abbrev root : Cred
root = record { uid = pos 0; euid = pos 0; suid = pos 0; gid = pos 0; egid = pos 0; sgid = pos 0 }

user-Ordinary : Ordinary user
user-Ordinary = record { real = cc; effective = cc; saved = cc }

exec_setuid : (doexec user (pos 0) (negsuc 0)).suid ≡ pos 0
unfolding doexec
exec_setuid = refl

calls-Among_example :
    (d : Cred) × (calls cred_scope user (set_euid (pos 7) ∷ set_uids (pos 0) (pos 0) (pos 0) ∷ [])
      ≡ some d)
    × Among user d
    × Ordinary d
calls-Among_example =
    calls-Among user (set_euid (pos 7) ∷ set_uids (pos 0) (pos 0) (pos 0) ∷ []) user-Ordinary
