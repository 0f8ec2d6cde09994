-- ===== src/Auth/Defaults.antt =====
-- The scopes after `defaultauth_init`, with the default listener alone.
use astral.Base.{ℕ, ◌≡◌, ◌≢◌, Bool, ◌&&◌, ◌||◌, some, if◌then◌else◌, arith, Bool-cases, inl, inr}
use astral.Base.Int.{◌+ℤ◌, ◌==ℤ◌}
use astral.Auth.{Cred, is_esu, check_from, auth_check, register_listener, granted, refused}
use astral.Auth.Filesystem.{Attr, Target}
use astral.Auth.Filesystem.Permissions.{all_permitted, any_known, filesystem-Permissions}
use astral.Auth.Listeners.{process, defaultauth_init, no_listeners}

-- `sender` and `target` share a real or effective id of the one with a real or saved id of the other.
abbrev pub may_signal : Cred → Cred → Bool
may_signal sender target =
    is_esu sender
    || (sender.uid ==ℤ target.uid
        || (sender.uid ==ℤ target.suid
            || (sender.euid ==ℤ target.uid || sender.euid ==ℤ target.suid)))

-- A signal passes the check of the process scope exactly when the sender is the superuser or its real
-- or effective id is the target's real or saved one.
pub check_signal :
    (sender target : Cred)
    → auth_check (defaultauth_init no_listeners).of_process (some sender) 1 target
      ≡ (if may_signal sender target then granted else refused)
unfolding auth_check defaultauth_init register_listener process ◌+ℤ◌
check_signal sender target = ground arith

-- With the default listener the filesystem scope grants a set of actions, not empty, on a vnode whose
-- directory is given, exactly when it holds one that the listener knows and every one of those is
-- permitted.
pub check_filesystem :
    (cred : Cred) (actions : ℕ) (t : Target) (dir : Attr)
    → actions ≢ 0
    → t.dir ≡ some dir
    → auth_check (defaultauth_init no_listeners).of_filesystem (some cred) actions t
      ≡ (if all_permitted cred actions t dir && any_known actions then granted else refused)
unfolding auth_check defaultauth_init register_listener ◌+ℤ◌
check_filesystem cred actions t dir h e =
    rw (filesystem-Permissions cred actions t dir h e, check_from)
      (elim (Bool-cases (all_permitted cred actions t dir)) [
        | inl a ↦ rw a (elim (Bool-cases (any_known actions)) [
          | inl k ↦ rw k (ground arith)
          | inr k ↦ rw k (ground arith)
        ])
        | inr a ↦ rw a (ground arith)
      ])
